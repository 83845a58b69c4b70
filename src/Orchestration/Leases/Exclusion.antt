-- ===== src/Orchestration/Leases/Exclusion.antt =====
-- Conflicts between the leases in the dict of the manager of orchestration/leases.py.
use affective_belief_persist.Prelude.{
  ℕ, ◌≡◌, subst, ◌⊎◌, inl, inr, true, false, none, List, [], ◌∷◌, All, Pairs, arith, if◌then◌else◌,
  Bool-cases, Result, ok, err, >>-eq-ok, >>=-eq-ok, Text, text_eq, text_eq_iff, text_eq_refl,
}
use affective_belief_persist.Orchestration.Paths.{paths_overlap}
use affective_belief_persist.Orchestration.Paths.Overlap.{paths_overlap_comm}
use affective_belief_persist.Orchestration.Leases.{
  PathLease, Request, exempt, first_held, first_overlap, check_existing, check_conflicts, put_lease,
  find_lease, lift_path, renewed,
}
use affective_belief_persist.Orchestration.Leases.Sorted.{All-put_lease, All-find_lease}

-- `paths_overlap` says no for each pair of scopes.
abbrev pub NoOverlap : List Text → List Text → Type 0
NoOverlap xs ys = All (λ x. All (λ y. paths_overlap x y ≡ ok false) ys) xs

abbrev pub Clear : Request → PathLease → Type 0
Clear r existing = (exempt r existing ≡ true) ⊎ NoOverlap r.scopes existing.path_patterns

-- The request that a lease grants.
abbrev pub granted : PathLease → Request
granted a = record {
  owner = a.agent_id;
  scopes = a.path_patterns;
  access = a.access;
  shared_integration = a.shared_integration;
}

-- Two leases may be held at once: same agent, both reads, both shared, or no overlap.
abbrev pub Separate : PathLease → PathLease → Type 0
Separate a b = Clear (granted a) b

abbrev pub IsExclusive : List PathLease → Type 0
IsExclusive = Pairs Separate

lift_path-ok : {A : Type 0} (m : Result _ A) {a : A} → lift_path m ≡ ok a → m ≡ ok a
lift_path-ok (ok a) h = cc
lift_path-ok (err e) h = cc

first_held-none :
    (x : Text) (ys : List Text)
    → first_held x ys ≡ ok none
    → All (λ y. paths_overlap x y ≡ ok false) ys
unfolding first_held
first_held-none x [] h = tt
first_held-none x (y ∷ ys) h =
    let (b, p, q) = >>=-eq-ok (lift_path (paths_overlap x y)) _ h in
    let no_overlap : lift_path (paths_overlap x y) ≡ ok false = ground arith in
    let later : first_held x ys ≡ ok none = ground arith in
    (lift_path-ok _ no_overlap, first_held-none x ys later)

first_overlap-none : (xs ys : List Text) → first_overlap xs ys ≡ ok none → NoOverlap xs ys
unfolding first_overlap
first_overlap-none [] ys h = tt
first_overlap-none (x ∷ xs) ys h =
    let (o, p, q) = >>=-eq-ok (first_held x ys) _ h in
    let nothing_held : first_held x ys ≡ ok none = ground arith in
    let later : first_overlap xs ys ≡ ok none = ground arith in
    (first_held-none x ys nothing_held, first_overlap-none xs ys later)

check_existing-Clear : (r : Request) (e : PathLease) → check_existing r e ≡ ok tt → Clear r e
unfolding check_existing
check_existing-Clear r e h = elim (Bool-cases (exempt r e)) [
  | inl t ↦ inl t
  | inr f ↦ inr (first_overlap-none r.scopes e.path_patterns (ground arith))
]

pub check_conflicts-Clear :
    (r : Request) (as' : List PathLease) → check_conflicts r as' ≡ ok tt → All (Clear r) as'
unfolding check_conflicts
check_conflicts-Clear r [] h = tt
check_conflicts-Clear r (e ∷ es) h =
    let (p, q) = >>-eq-ok (check_existing r e) (check_conflicts r es) h in
    (check_existing-Clear r e p, check_conflicts-Clear r es q)

-- The scopes of two requests do not overlap whichever is asked first.
NoOverlap-cons :
    (y : Text) (ys xs : List Text)
    → All (λ x. paths_overlap x y ≡ ok false) xs
    → NoOverlap xs ys
    → NoOverlap xs (y ∷ ys)
NoOverlap-cons y ys [] h k = tt
NoOverlap-cons y ys (x ∷ xs) h k = ((h.0, k.0), NoOverlap-cons y ys xs h.1 k.1)

NoOverlap-nil : (xs : List Text) → NoOverlap xs []
NoOverlap-nil [] = tt
NoOverlap-nil (x ∷ xs) = (tt, NoOverlap-nil xs)

swapped :
    (x : Text) (ys : List Text)
    → All (λ y. paths_overlap x y ≡ ok false) ys
    → All (λ y. paths_overlap y x ≡ ok false) ys
swapped x [] h = tt
swapped x (y ∷ ys) h = (paths_overlap_comm x y false h.0, swapped x ys h.1)

NoOverlap-comm : (xs ys : List Text) → NoOverlap xs ys → NoOverlap ys xs
NoOverlap-comm [] ys h = NoOverlap-nil ys
NoOverlap-comm (x ∷ xs) ys h = NoOverlap-cons x xs ys (swapped x ys h.0) (NoOverlap-comm xs ys h.1)

exempt_comm : (a b : PathLease) → exempt (granted a) b ≡ true → exempt (granted b) a ≡ true
exempt_comm a b h =
    ground (arith, text_eq_iff b.agent_id a.agent_id, text_eq_iff a.agent_id b.agent_id)

pub Separate-refl : (a : PathLease) → Separate a a
Separate-refl a = inl (rw (text_eq_refl a.agent_id))

pub Separate-comm : (a b : PathLease) → Separate a b → Separate b a
Separate-comm a b (inl h) = inl (exempt_comm a b h)
Separate-comm a b (inr h) = inr (NoOverlap-comm a.path_patterns b.path_patterns h)

-- A lease that is separate from each one held can be stored.
pub put_lease-IsExclusive :
    (a : PathLease) (bs : List PathLease)
    → All (Separate a) bs
    → IsExclusive bs
    → IsExclusive (put_lease a bs)
unfolding put_lease
put_lease-IsExclusive a [] h k = (tt, tt)
put_lease-IsExclusive a (b ∷ bs) h k =
    elim (text_eq b.lease_id a.lease_id)
      as (λ t. IsExclusive (if t then a ∷ bs else b ∷ put_lease a bs)) [
        | true ↦ (h.1, k.1)
        | false ↦ (
          All-put_lease (Separate b) a bs (Separate-comm a b h.0) k.0,
          put_lease-IsExclusive a bs h.1 k.1,
        )
      ]

All-unit : (as' : List PathLease) → All (λ _. Unit {0}) as'
All-unit [] = tt
All-unit (a ∷ as') = (tt, All-unit as')

-- A renewed lease replaces the one that it renews.
pub renewed-IsExclusive :
    (id : Text) (as' : List PathLease) (now ttl : ℕ) {a : PathLease}
    → IsExclusive as'
    → find_lease id as' ≡ ok a
    → IsExclusive (put_lease (renewed a now ttl) as')
unfolding put_lease
renewed-IsExclusive id [] now ttl k e = cc
renewed-IsExclusive id (b ∷ bs) now ttl {a} k e =
    let named : a.lease_id ≡ id =
      (All-find_lease (λ _. Unit {0}) id (b ∷ bs) (All-unit (b ∷ bs)) e).1 in
    elim (Bool-cases (text_eq b.lease_id id)) [
      | inl t ↦
          let same : b ≡ a = ground arith in
          rw (named, t) (subst (λ x. All (Separate x) bs) same k.0, k.1)
      | inr f ↦
          let later : find_lease id bs ≡ ok a = ground arith in
          let apart : Separate b a = (All-find_lease (Separate b) id bs k.0 later).0 in
          rw (named, f)
            (
              All-put_lease (Separate b) (renewed a now ttl) bs apart k.0,
              renewed-IsExclusive id bs now ttl k.1 later,
            )
    ]
