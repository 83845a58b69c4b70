-- ===== src/Orchestration/Leases/Sessions.antt =====
-- Any sequence of calls on a lease manager, accepted or not.
use affective_belief_persist.Prelude.{
  ℕ, ◌+◌, ◌≤◌, ◌≡◌, ◌≢◌, refl, ◌⊎◌, inl, inr, false, not, ◌&&◌, Option, List, [], ◌∷◌, In, All,
  All-In, Pairs-In, Pairs-keep, arith, if◌then◌else◌, Result, ok, err, leb, member, >>-eq-ok,
  raise_if, >>=-eq-ok, Text, text_eq, text_eq_iff,
}
use affective_belief_persist.Orchestration.Paths.{normalize_scope, paths_overlap}
use affective_belief_persist.Orchestration.Paths.Overlap.{Covers, paths_overlap_iff}
use affective_belief_persist.Orchestration.Leases.{
  write, PathLease, PathLeaseManager, LeaseError, ReleaseResult, Outcome, AcquireArguments, Request,
  expire, expired_at, active_agents, worker_count, admit, acquire, acquire_from, heartbeat, release,
  after, store_lease, new_lease, request_of, canonical_scopes, check_arguments, check_conflicts,
  check_heartbeat, check_release, find_lease, sorted_leases, new_manager, ttl_of, capacity, matches,
}
use affective_belief_persist.Orchestration.Leases.Sorted.{All-sorted_leases}
use affective_belief_persist.Orchestration.Leases.Exclusion.{
  IsExclusive, Separate, Clear, Separate-refl, Separate-comm, check_conflicts-Clear,
  put_lease-IsExclusive, renewed-IsExclusive,
}
use affective_belief_persist.Orchestration.Leases.Workers.{
  count-keep, count-put_lease, count-renewed,
}

-- No two agents hold conflicting leases, and no more agents than allowed hold any.
pub record IsSafe (m : PathLeaseManager) : Type 0 where
  pub exclusive : IsExclusive m.leases
  pub bounded : worker_count m ≤ m.max_workers

expired_at-IsSafe : (m : PathLeaseManager) (now : ℕ) → IsSafe m → IsSafe (expired_at m now)
expired_at-IsSafe m now s = record {
  exclusive = Pairs-keep Separate _ m.leases s.exclusive;
  bounded = omega (arith, count-keep (λ lease. not (leb lease.expires_at now)) m.leases, s.bounded);
}

-- A predicate on the manager survives a method that keeps it on each way out.
after-keeps :
    {A B : Type 0} (P : PathLeaseManager → Type 0) (f : A → Outcome B) (m : PathLeaseManager)
    (r : Result LeaseError A)
    → P m
    → ((a : A) → r ≡ ok a → P (f a).1)
    → P (after f m r).1
after-keeps P f m (ok a) p h = h a refl
after-keeps P f m (err e) p h = p

-- The number of agents once the request's owner holds a lease.
abbrev with_owner : PathLeaseManager → Text → ℕ
with_owner m owner = (if member text_eq owner (active_agents m) then 0 else 1) + worker_count m

admit-lem :
    (m : PathLeaseManager) (r : Request)
    → admit m r ≡ ok tt
    → worker_count m ≤ m.max_workers
    → All (Clear r) m.leases × (with_owner m r.owner ≤ m.max_workers)
unfolding admit
admit-lem m r h s =
    let full =
      not (member text_eq r.owner (active_agents m)) && leb m.max_workers (worker_count m) in
    let (p, q) = >>-eq-ok (raise_if full capacity) (check_conflicts r (sorted_leases m.leases)) h in
    (All-sorted_leases (Clear r) m.leases (check_conflicts-Clear r _ q), ground arith)

module _ (digest : Text → Text → List Text → ℕ → ℕ → Text) where
  store_lease-IsSafe :
      (m : PathLeaseManager) (a : AcquireArguments) (scopes : List Text) (now : ℕ)
      → IsSafe m
      → admit m (request_of digest a scopes) ≡ ok tt
      → IsSafe (store_lease digest m a scopes now).1
  unfolding store_lease new_lease
  store_lease-IsSafe m a scopes now s h =
      let (clear, room) = admit-lem m (request_of digest a scopes) h s.bounded in
      let lease = new_lease digest m a scopes now in
      record {
        exclusive = put_lease-IsExclusive lease m.leases clear s.exclusive;
        bounded = omega (arith, count-put_lease lease m.leases, room);
      }

  acquire-IsSafe :
      (m : PathLeaseManager) (a : AcquireArguments) (now : ℕ)
      → IsSafe m
      → IsSafe (acquire digest m a now).1
  unfolding acquire acquire_from
  acquire-IsSafe m a now s =
      let m' = expired_at m now in
      let s' = expired_at-IsSafe m now s in
      after-keeps IsSafe _ m (check_arguments m a) s λ _ _.
        after-keeps IsSafe _ m' (canonical_scopes a.paths) s' λ scopes _.
          after-keeps IsSafe _ m' (admit m' (request_of digest a scopes)) s'
            λ u h. store_lease-IsSafe m' a scopes now s' h

check_heartbeat-found :
    (m : PathLeaseManager) (id : Text) (agent : Option Text) (ttl : Option ℕ) {lease : PathLease}
    → check_heartbeat m id agent ttl ≡ ok lease
    → find_lease id m.leases ≡ ok lease
unfolding check_heartbeat
check_heartbeat-found m id agent ttl h =
    let (found, p, q) = >>=-eq-ok (find_lease id m.leases) _ h in ground arith

heartbeat-IsSafe :
    (m : PathLeaseManager) (id : Text) (agent : Option Text) (ttl : Option ℕ) (now : ℕ)
    → IsSafe m
    → IsSafe (heartbeat m id agent ttl now).1
unfolding heartbeat
heartbeat-IsSafe m id agent ttl now s =
    let m' = expired_at m now in
    let s' = expired_at-IsSafe m now s in
    after-keeps IsSafe _ m' (check_heartbeat m' id agent ttl) s' λ lease h.
      let found = check_heartbeat-found m' id agent ttl h in
      record {
        exclusive = renewed-IsExclusive id m'.leases now (ttl_of ttl m') s'.exclusive found;
        bounded = omega (arith, count-renewed id m'.leases now (ttl_of ttl m') found, s'.bounded);
      }

release-IsSafe :
    (m : PathLeaseManager) (id : Text) (agent : Option Text) (result : ReleaseResult) (now : ℕ)
    → IsSafe m
    → IsSafe (release m id agent result now).1
unfolding release
release-IsSafe m id agent result now s =
    let m' = expired_at m now in
    let s' = expired_at-IsSafe m now s in
    after-keeps IsSafe _ m' (check_release m' id agent) s' λ _ _. record {
      exclusive = Pairs-keep Separate _ m'.leases s'.exclusive;
      bounded = omega (arith, count-keep (λ lease. not (matches id lease)) m'.leases, s'.bounded);
    }

-- The public methods that change the manager, with the instants that they read.
pub data Call : Type 0 where
  acquiring : AcquireArguments → ℕ → Call
  beating : Text → Option Text → Option ℕ → ℕ → Call
  releasing : Text → Option Text → ReleaseResult → ℕ → Call
  expiring : ℕ → Call

module _ (digest : Text → Text → List Text → ℕ → ℕ → Text) where
  abbrev pub run_call : PathLeaseManager → Call → PathLeaseManager
  run_call m (acquiring a now) = (acquire digest m a now).1
  run_call m (beating id agent ttl now) = (heartbeat m id agent ttl now).1
  run_call m (releasing id agent result now) = (release m id agent result now).1
  run_call m (expiring now) = (expire m now).1

  abbrev pub run_calls : PathLeaseManager → List Call → PathLeaseManager
  run_calls m [] = m
  run_calls m (c ∷ cs) = run_calls (run_call m c) cs

  run_call-IsSafe : (m : PathLeaseManager) (c : Call) → IsSafe m → IsSafe (run_call m c)
  unfolding expire
  run_call-IsSafe m (acquiring a now) s = acquire-IsSafe digest m a now s
  run_call-IsSafe m (beating id agent ttl now) s = heartbeat-IsSafe m id agent ttl now s
  run_call-IsSafe m (releasing id agent result now) s = release-IsSafe m id agent result now s
  run_call-IsSafe m (expiring now) s = expired_at-IsSafe m now s

  -- Over any calls, accepted or not, from a safe manager: no two leases of different agents
  -- conflict, and at most `max_workers` agents hold a lease. (The identifiers are any function of
  -- the digest's arguments, so two leases may even get the same one.)
  pub run_calls-IsSafe :
      (m : PathLeaseManager) (cs : List Call) → IsSafe m → IsSafe (run_calls m cs)
  run_calls-IsSafe m [] s = s
  run_calls-IsSafe m (c ∷ cs) s = run_calls-IsSafe (run_call m c) cs (run_call-IsSafe m c s)

-- A new manager is safe, and allows three workers at most.
pub new_manager-IsSafe :
    (workers ttl : ℕ) {m : PathLeaseManager}
    → new_manager workers ttl ≡ ok m
    → IsSafe m × (m.max_workers ≤ 3)
unfolding new_manager
new_manager-IsSafe workers ttl {m} h =
    let empty : m.leases ≡ [] = ground arith in
    (record { exclusive = rw empty tt; bounded = ground arith }, ground arith)

-- In a safe manager no path lies in the scopes of two leases of different agents, unless both are
-- reads or both are shared integration work.
pub no_common_path :
    (m : PathLeaseManager) (a b : PathLease) (x y l r : Text) (path : List Text)
    → IsSafe m
    → In a m.leases
    → In b m.leases
    → a.agent_id ≢ b.agent_id
    → (a.access ≡ write) ⊎ (b.access ≡ write)
    → (a.shared_integration && b.shared_integration) ≡ false
    → In x a.path_patterns
    → In y b.path_patterns
    → normalize_scope x ≡ ok l
    → normalize_scope y ≡ ok r
    → ¬ (Covers l path × Covers r path)
no_common_path m a b x y l r path s i j agents_differ one_writes not_shared ix iy nx ny (cx, cy) =
    elim (Pairs-In Separate Separate-refl Separate-comm s.exclusive i j) [
      | inl exempted ↦ ground (arith, text_eq_iff b.agent_id a.agent_id)
      | inr apart ↦
          let answer : paths_overlap x y ≡ ok false =
            All-In _
              (All-In (λ x. All (λ y. paths_overlap x y ≡ ok false) b.path_patterns) apart ix) iy in
          cc (answer, (paths_overlap_iff x y l r nx ny).1 (path, cx, cy))
    ]
