-- ===== src/Orchestration/Leases.antt =====
-- orchestration/leases.py: `PathLeaseManager`, the lease authority of the supervisor.
-- Identifiers are texts and instants are timezone-aware, counted in seconds. The manager's dict is
-- the list of its leases in insertion order, keyed by `lease_id`.
mod Records
mod Scopes
pub mod Sorted
pub mod Exclusion
pub mod Workers
pub mod Sessions
pub mod Grants
mod Examples
pub use Records.*
unfoldable pub use Scopes.*
use affective_belief_persist.Prelude.{
  ℕ, ◌+◌, ◌-◌, Bool, true, false, not, ◌&&◌, ◌||◌, Option, none, some, List, [], ◌∷◌, ◌++◌, map,
  any, all, keep, first, ltb, leb, eqb, if◌then◌else◌, Result, ok, err, ◌>>=◌, ◌>>◌, raise_if, Text,
  codes, text_eq, text_le, null, strip, ends_with, member, count_distinct,
}
use affective_belief_persist.Orchestration.Task.{is_none}
use affective_belief_persist.Orchestration.Paths.{
  PathError, subtree_suffix, normalize_scope, paths_overlap,
}

-- `__init__`
unfoldable pub new_manager : ℕ → ℕ → Result LeaseError PathLeaseManager
new_manager workers ttl = do
  raise_if (not (leb 1 workers && leb workers 3)) worker_limit
  raise_if (ltb ttl 1) ttl_limit
  ok (record { max_workers = workers; default_ttl_seconds = ttl; leases = []; sequence = 0 })

-- sorted(...) of leases by identifier, by insertion.
unfoldable pub insert_lease : PathLease → List PathLease → List PathLease
insert_lease a [] = a ∷ []
insert_lease a (b ∷ bs) =
    if text_le a.lease_id b.lease_id then a ∷ b ∷ bs else b ∷ insert_lease a bs

unfoldable pub sorted_leases : List PathLease → List PathLease
unfolding insert_lease
sorted_leases [] = []
sorted_leases (a ∷ as') = insert_lease a (sorted_leases as')

-- The manager without the leases that have expired.
abbrev pub expired_at : PathLeaseManager → ℕ → PathLeaseManager
expired_at m now = record m { leases = keep (λ lease. not (is_expired lease now)) m.leases }

-- `expire`: the releases in identifier order, and the manager after it.
unfoldable pub expire : PathLeaseManager → ℕ → List LeaseRelease × PathLeaseManager
unfolding sorted_leases
expire m now = (
  map (λ lease. record { lease = lease; released_at = now; result = expired })
      (sorted_leases (keep (λ lease. is_expired lease now) m.leases)),
  expired_at m now,
)

unfoldable pub active_leases : PathLeaseManager → ℕ → List PathLease × PathLeaseManager
unfolding sorted_leases
active_leases m now = (sorted_leases (expired_at m now).leases, expired_at m now)

abbrev pub active_agents : PathLeaseManager → List Text
active_agents m = map (λ lease. lease.agent_id) m.leases

-- `len({lease.agent_id for lease in self._leases.values()})`
abbrev pub worker_count : PathLeaseManager → ℕ
worker_count m = count_distinct text_eq (active_agents m)

abbrev pub is_read : LeaseAccess → Bool
is_read read = true
is_read write = false

-- The first held scope that overlaps the requested one.
unfoldable pub first_held : Text → List Text → Result LeaseError (Option Text)
unfolding paths_overlap
first_held requested [] = ok none
first_held requested (held ∷ rest) =
    let later = first_held requested rest in
    lift_path (paths_overlap requested held) >>= λ b. if b then ok (some held) else later

-- `next(((requested, held) for ... if paths_overlap(requested, held)), None)`
unfoldable pub first_overlap : List Text → List Text → Result LeaseError (Option (Text × Text))
unfolding first_held
first_overlap [] held = ok none
first_overlap (requested ∷ rest) held =
    let later = first_overlap rest held in
    first_held requested held >>= λ found. elim found [
      | none ↦ later
      | some h ↦ ok (some (requested, h))
    ]

-- What a request asks for.
pub record Request : Type 0 where
  pub owner : Text
  pub scopes : List Text
  pub access : LeaseAccess
  pub shared_integration : Bool

-- The three `continue`s of the loop over the existing leases.
abbrev pub exempt : Request → PathLease → Bool
exempt r existing =
    text_eq existing.agent_id r.owner
    || ((is_read existing.access && is_read r.access)
        || (r.shared_integration && existing.shared_integration))

unfoldable pub check_existing : Request → PathLease → Result LeaseError (Unit {0})
unfolding first_overlap
check_existing r existing =
    if exempt r existing
    then ok tt
    else first_overlap r.scopes existing.path_patterns >>= λ found. elim found [
      | none ↦ ok tt
      | some (a, b) ↦ err (conflict a b)
    ]

unfoldable pub check_conflicts : Request → List PathLease → Result LeaseError (Unit {0})
unfolding check_existing
check_conflicts r [] = ok tt
check_conflicts r (existing ∷ rest) = check_existing r existing >> check_conflicts r rest

-- self._leases[lease.lease_id] = lease
unfoldable pub put_lease : PathLease → List PathLease → List PathLease
put_lease a [] = a ∷ []
put_lease a (b ∷ bs) = if text_eq b.lease_id a.lease_id then a ∷ bs else b ∷ put_lease a bs

-- The capacity test and the scan of `acquire`, on the manager without expired leases.
unfoldable pub admit : PathLeaseManager → Request → Result LeaseError (Unit {0})
admit m r = do
  raise_if (not (member text_eq r.owner (active_agents m)) && leb m.max_workers (worker_count m))
      capacity
  check_conflicts r (sorted_leases m.leases)

-- The keyword arguments of `acquire`. A `ttl_seconds` below one is one error, so naturals serve.
pub record AcquireArguments : Type 0 where
  pub task_id : Text
  pub paths : List Text
  pub agent_id : Option Text
  pub access : LeaseAccess
  pub ttl_seconds : Option ℕ
  pub shared_integration : Bool

-- (agent_id or task_id).strip()
abbrev pub owner_of : AcquireArguments → Text
owner_of a = strip (elim a.agent_id [ none ↦ a.task_id | some g ↦ if null g then a.task_id else g ])

abbrev pub ttl_of : Option ℕ → PathLeaseManager → ℕ
ttl_of none m = m.default_ttl_seconds
ttl_of (some t) m = t

-- The checks before the manager is touched.
unfoldable pub check_arguments : PathLeaseManager → AcquireArguments → Result LeaseError (Unit {0})
unfolding strip
check_arguments m a = do
  raise_if (null (strip a.task_id)) empty_task_id
  raise_if (null (owner_of a)) empty_agent_id
  raise_if (ltb (ttl_of a.ttl_seconds m) 1) ttl_not_positive

-- The rest of a method after a step that leaves the manager as it is.
abbrev pub after :
    {A B : Type 0} → (A → Outcome B) → PathLeaseManager → Result LeaseError A → Outcome B
after f m (ok a) = f a
after f m (err e) = (err e, m)

-- The first sixteen digits of the SHA-256 of a lease's task, agent, scopes, instant and number.
module _ (digest : Text → Text → List Text → ℕ → ℕ → Text) where
  unfoldable pub new_lease : PathLeaseManager → AcquireArguments → List Text → ℕ → PathLease
  new_lease m a scopes now = record {
    lease_id = codes "lease-" ++ digest a.task_id (owner_of a) scopes now (m.sequence + 1);
    task_id = a.task_id;
    agent_id = owner_of a;
    path_patterns = scopes;
    access = a.access;
    granted_at = now;
    expires_at = now + ttl_of a.ttl_seconds m;
    heartbeat_at = now;
    shared_integration = a.shared_integration;
  }

  -- The end of `acquire`.
  unfoldable pub store_lease :
      PathLeaseManager → AcquireArguments → List Text → ℕ → Outcome PathLease
  store_lease m a scopes now =
      let lease = new_lease m a scopes now in
      (ok lease, record m { leases = put_lease lease m.leases; sequence = m.sequence + 1 })

  abbrev pub request_of : AcquireArguments → List Text → Request
  request_of a scopes = record {
    owner = owner_of a;
    scopes = scopes;
    access = a.access;
    shared_integration = a.shared_integration;
  }

  -- `acquire` after its arguments were accepted; `m` has no expired lease.
  unfoldable pub acquire_from : PathLeaseManager → AcquireArguments → ℕ → Outcome PathLease
  acquire_from m a now =
      after (λ scopes. after (λ _. store_lease m a scopes now) m (admit m (request_of a scopes))) m
        (canonical_scopes a.paths)

  unfoldable pub acquire : PathLeaseManager → AcquireArguments → ℕ → Outcome PathLease
  acquire m a now = after (λ _. acquire_from (expired_at m now) a now) m (check_arguments m a)

abbrev pub find_lease : Text → List PathLease → Result LeaseError PathLease
find_lease id [] = err not_found
find_lease id (a ∷ as') = if text_eq a.lease_id id then ok a else find_lease id as'

-- `agent_id is not None and lease.agent_id != agent_id`
abbrev pub foreign : Option Text → PathLease → Bool
foreign none lease = false
foreign (some g) lease = not (text_eq lease.agent_id g)

-- The checks of `heartbeat`, on the manager without expired leases.
unfoldable pub check_heartbeat :
    PathLeaseManager → Text → Option Text → Option ℕ → Result LeaseError PathLease
check_heartbeat m id agent ttl = do
  lease ← find_lease id m.leases
  raise_if (foreign agent lease) ownership
  raise_if (ltb (ttl_of ttl m) 1) ttl_not_positive
  ok lease

abbrev pub renewed : PathLease → ℕ → ℕ → PathLease
renewed lease now ttl = record lease { heartbeat_at = now; expires_at = now + ttl }

unfoldable pub heartbeat : PathLeaseManager → Text → Option Text → Option ℕ → ℕ → Outcome PathLease
heartbeat m id agent ttl now =
    let m' = expired_at m now in
    after
      (λ lease.
        let new = renewed lease now (ttl_of ttl m') in
        (ok new, record m' { leases = put_lease new m'.leases }))
      m' (check_heartbeat m' id agent ttl)

abbrev pub matches : Text → PathLease → Bool
matches id lease = text_eq lease.lease_id id || text_eq lease.task_id id

abbrev pub no_leases : List PathLease → Bool
no_leases [] = true
no_leases (a ∷ as') = false

-- The checks of `release`, on the manager without expired leases.
unfoldable pub check_release : PathLeaseManager → Text → Option Text → Result LeaseError (Unit {0})
check_release m id agent = do
  raise_if (no_leases (keep (matches id) m.leases)) not_found
  raise_if (any (foreign agent) (keep (matches id) m.leases)) ownership

unfoldable pub release :
    PathLeaseManager → Text → Option Text → ReleaseResult → ℕ → Outcome (List LeaseRelease)
release m id agent result now =
    let m' = expired_at m now in
    after
      (λ _. (
        ok (
            map (λ lease. record { lease = lease; released_at = now; result = result })
              (sorted_leases (keep (matches id) m'.leases))),
        record m' { leases = keep (λ lease. not (matches id lease)) m'.leases },
      ))
      m' (check_release m' id agent)
