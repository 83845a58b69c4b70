-- ===== src/Orchestration/Leases/Grants.antt =====
-- When `acquire` grants a lease, and what it grants.
use affective_belief_persist.Prelude.{
  ℕ, ◌+◌, ◌≤◌, ◌<◌, ◌≡◌, refl, sym, subst, ap, ◌∙◌, ◌↔◌, ◌⊎◌, inl, inr, true, false, not, ◌&&◌,
  Option, List, [], ◌∷◌, All, keep, arith, if◌then◌else◌, Result, ok, err, leb, member, raise_if,
  In, here, there, >>-eq-ok, Text, text_eq,
}
use affective_belief_persist.Orchestration.Paths.{paths_overlap}
use affective_belief_persist.Orchestration.Leases.{
  PathLease, PathLeaseManager, LeaseError, Outcome, AcquireArguments, Request, first_held,
  first_overlap, check_existing, check_conflicts, admit, acquire, acquire_from, after, store_lease,
  new_lease, request_of, canonical_scopes, check_arguments, sorted_leases, put_lease, active_agents,
  worker_count, expired_at, capacity, is_expired, owner_of, ttl_of,
}
use affective_belief_persist.Orchestration.Leases.Sorted.{
  All-sorted_leases, sorted_leases-All, All-put_lease,
}
use affective_belief_persist.Orchestration.Leases.Exclusion.{
  Clear, NoOverlap, check_conflicts-Clear,
}

none_held :
    (x : Text) (ys : List Text)
    → All (λ y. paths_overlap x y ≡ ok false) ys
    → first_held x ys ≡ ok Option.none
unfolding first_held
none_held x [] h = refl
none_held x (y ∷ ys) h = ground (arith, none_held x ys h.1)

none_overlaps : (xs ys : List Text) → NoOverlap xs ys → first_overlap xs ys ≡ ok Option.none
unfolding first_overlap
none_overlaps [] ys h = refl
none_overlaps (x ∷ xs) ys h = ground (arith, none_held x ys h.0, none_overlaps xs ys h.1)

Clear-check : (r : Request) (e : PathLease) → Clear r e → check_existing r e ≡ ok tt
unfolding check_existing
Clear-check r e (inl t) = rw t
Clear-check r e (inr apart) = ground (arith, none_overlaps r.scopes e.path_patterns apart)

Clear-checks :
    (r : Request) (as' : List PathLease) → All (Clear r) as' → check_conflicts r as' ≡ ok tt
unfolding check_conflicts
Clear-checks r [] h = refl
Clear-checks r (e ∷ es) h = rw (Clear-check r e h.0) (Clear-checks r es h.1)

-- The owner holds a lease already, or fewer agents than allowed do.
abbrev pub HasRoom : PathLeaseManager → Text → Type 0
HasRoom m owner = (member text_eq owner (active_agents m) ≡ true) ⊎ (worker_count m < m.max_workers)

-- A request is admitted exactly when its agent has room and each active lease is of the same
-- agent, compatible (both reads, both shared), or has no scope that overlaps one requested.
pub admit_iff :
    (m : PathLeaseManager) (r : Request)
    → (admit m r ≡ ok tt) ↔ (HasRoom m r.owner × All (Clear r) m.leases)
unfolding admit
admit_iff m r =
    let full =
      not (member text_eq r.owner (active_agents m)) && leb m.max_workers (worker_count m) in
    (
      λ h.
          let (p, q) =
            >>-eq-ok (raise_if full capacity) (check_conflicts r (sorted_leases m.leases)) h in
          (ground arith, All-sorted_leases (Clear r) m.leases (check_conflicts-Clear r _ q)),
      λ (room, clear).
          let open_ : full ≡ false = ground arith in
          rw (
            open_,
            Clear-checks r (sorted_leases m.leases) (sorted_leases-All (Clear r) m.leases clear),
          ),
    )

live_leases :
    (now : ℕ) (as' : List PathLease)
    → All (λ lease. now < lease.expires_at) (keep (λ lease. not (is_expired lease now)) as')
live_leases now [] = tt
live_leases now (a ∷ as') = ground (arith, live_leases now as')

In-put_lease : (a : PathLease) (bs : List PathLease) → In a (put_lease a bs)
unfolding put_lease
In-put_lease a [] = here
In-put_lease a (b ∷ bs) =
    elim (text_eq b.lease_id a.lease_id) as (λ t. In a (if t then a ∷ bs else b ∷ put_lease a bs)) [
      | true ↦ here
      | false ↦ there (In-put_lease a bs)
    ]

ttl-expired_at :
    (ttl : Option ℕ) (m : PathLeaseManager) (now : ℕ) → ttl_of ttl (expired_at m now) ≡ ttl_of ttl m
ttl-expired_at Option.none m now = refl
ttl-expired_at (Option.some t) m now = refl

after-ok :
    {A B : Type 0} (f : A → Outcome B) (m : PathLeaseManager) (r : Result LeaseError A) {b : B}
    → (after f m r).0 ≡ ok b
    → (a : A) × (r ≡ ok a) × (after f m r ≡ f a)
after-ok f m (ok a) h = (a, refl, refl)
after-ok f m (err e) h = cc

check_arguments-ttl :
    (m : PathLeaseManager) (a : AcquireArguments)
    → check_arguments m a ≡ ok tt
    → 1 ≤ ttl_of a.ttl_seconds m
unfolding check_arguments
check_arguments-ttl m a h = ground arith

module _ (digest : Text → Text → List Text → ℕ → ℕ → Text) where
  -- What an accepted `acquire` returns and stores.
  pub record IsGranted (m : PathLeaseManager) (a : AcquireArguments) (now : ℕ) (lease : PathLease)
      (m' : PathLeaseManager) : Type 0 where
    pub stored : In lease m'.leases
    pub task : lease.task_id ≡ a.task_id
    pub agent : lease.agent_id ≡ owner_of a
    pub scopes : canonical_scopes a.paths ≡ ok lease.path_patterns
    pub expiry : lease.expires_at ≡ now + ttl_of a.ttl_seconds m
    pub live : now < lease.expires_at
    pub numbered : m'.sequence ≡ m.sequence + 1
    pub others_live : All (λ other. now < other.expires_at) m'.leases

  store_lease-IsGranted :
      (m : PathLeaseManager) (a : AcquireArguments) (scopes : List Text) (now : ℕ)
      → canonical_scopes a.paths ≡ ok scopes
      → 1 ≤ ttl_of a.ttl_seconds m
      → IsGranted m a now
          (new_lease digest (expired_at m now) a scopes now)
          (store_lease digest (expired_at m now) a scopes now).1
  unfolding store_lease new_lease
  store_lease-IsGranted m a scopes now c positive =
      let lease = new_lease digest (expired_at m now) a scopes now in
      record {
        stored = In-put_lease lease (expired_at m now).leases;
        task = refl;
        agent = refl;
        scopes = c;
        expiry = same_expiry;
        live = rw same_expiry (omega arith);
        numbered = refl;
        others_live =
            All-put_lease (λ other. now < other.expires_at) lease (expired_at m now).leases
              (rw same_expiry (omega arith)) (live_leases now m.leases);
      }
    where
      same_expiry : now + ttl_of a.ttl_seconds (expired_at m now) ≡ now + ttl_of a.ttl_seconds m
      same_expiry = ap (λ t. now + t) (ttl-expired_at a.ttl_seconds m now)

  -- The way to the end of `acquire`.
  acquire-stores :
      (m : PathLeaseManager) (a : AcquireArguments) (now : ℕ) {lease : PathLease}
      → (acquire digest m a now).0 ≡ ok lease
      → (scopes : List Text) × (check_arguments m a ≡ ok tt)
        × (canonical_scopes a.paths ≡ ok scopes)
        × (acquire digest m a now ≡ store_lease digest (expired_at m now) a scopes now)
  unfolding acquire acquire_from
  acquire-stores m a now h =
      let m' = expired_at m now in
      let (u, p, e₁) = after-ok (λ _. acquire_from digest m' a now) m (check_arguments m a) h in
      let (scopes, q, e₂) = after-ok _ m' (canonical_scopes a.paths) (sym (ap (λ o. o.0) e₁) ∙ h) in
      let (v, r, e₃) =
        after-ok _ m' (admit m' (request_of digest a scopes)) (sym (ap (λ o. o.0) (e₁ ∙ e₂)) ∙ h) in
      (scopes, p, q, e₁ ∙ e₂ ∙ e₃)

  -- A lease that `acquire` returns is stored, covers the canonical scopes of the paths, belongs to
  -- the stripped owner, and lives from now for its positive time; every lease then stored is live.
  pub acquire-IsGranted :
      (m : PathLeaseManager) (a : AcquireArguments) (now : ℕ) {lease : PathLease}
      → (acquire digest m a now).0 ≡ ok lease
      → IsGranted m a now lease (acquire digest m a now).1
  unfolding store_lease
  acquire-IsGranted m a now {lease} h =
      let (scopes, p, q, e) = acquire-stores m a now h in
      let m' = expired_at m now in
      let same : new_lease digest m' a scopes now ≡ lease = cc (sym (ap (λ o. o.0) e) ∙ h) in
      subst (λ (o : Outcome PathLease). IsGranted m a now lease o.1) (sym e)
        (subst (λ l. IsGranted m a now l (store_lease digest m' a scopes now).1) same
          (store_lease-IsGranted m a scopes now q (check_arguments-ttl m a p)))
