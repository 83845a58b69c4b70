-- ===== src/Orchestration/Leases/Sorted.antt =====
-- Sorting the leases, as the loops over the sorted leases see it.
use affective_belief_persist.Prelude.{
  ◌≡◌, List, [], ◌∷◌, All, arith, Text, text_eq, Bool-cases, ok, subst, inl, inr, text_eq_iff,
}
use affective_belief_persist.Orchestration.Leases.{
  PathLease, insert_lease, sorted_leases, put_lease, find_lease,
}

module _ (P : PathLease → Type 0) where
  All-insert_lease :
      (a : PathLease) (bs : List PathLease) → All P (insert_lease a bs) → P a × All P bs
  unfolding insert_lease
  All-insert_lease a [] h = h
  All-insert_lease a (b ∷ bs) h = ground (arith, All-insert_lease a bs)

  pub All-sorted_leases : (as' : List PathLease) → All P (sorted_leases as') → All P as'
  unfolding sorted_leases
  All-sorted_leases [] h = h
  All-sorted_leases (a ∷ as') h =
      let (x, rest) = All-insert_lease a (sorted_leases as') h in (x, All-sorted_leases as' rest)

  pub All-put_lease :
      (a : PathLease) (bs : List PathLease) → P a → All P bs → All P (put_lease a bs)
  unfolding put_lease
  All-put_lease a [] x h = (x, tt)
  All-put_lease a (b ∷ bs) x h = ground (arith, All-put_lease a bs x h.1)

  pub All-find_lease :
      (id : Text) (as' : List PathLease) {a : PathLease}
      → All P as'
      → find_lease id as' ≡ ok a
      → P a × (a.lease_id ≡ id)
  All-find_lease id [] h e = cc
  All-find_lease id (b ∷ bs) {a} h e = elim (Bool-cases (text_eq b.lease_id id)) [
    | inl t ↦
        let same : b ≡ a = ground arith in
        (subst P same h.0, cc (same, (text_eq_iff b.lease_id id).0 t))
    | inr f ↦ All-find_lease id bs h.1 (rw (f, find_lease) at e)
  ]

  All-insert_lease_back :
      (a : PathLease) (bs : List PathLease) → P a → All P bs → All P (insert_lease a bs)
  unfolding insert_lease
  All-insert_lease_back a [] x h = (x, tt)
  All-insert_lease_back a (b ∷ bs) x h = ground (arith, All-insert_lease_back a bs x h.1)

  pub sorted_leases-All : (as' : List PathLease) → All P as' → All P (sorted_leases as')
  unfolding sorted_leases
  sorted_leases-All [] h = h
  sorted_leases-All (a ∷ as') h =
      All-insert_lease_back a (sorted_leases as') h.0 (sorted_leases-All as' h.1)
