-- ===== src/Orchestration/Leases/Examples.antt =====
-- Tests of the lease manager, and its theorems at concrete leases.
use affective_belief_persist.Prelude.{
  ℕ, ◌≡◌, ◌≢◌, ◌↔◌, ◌≤◌, inl, inr, refl, false, none, List, [], ◌∷◌, arith, ok, err, codes, Text,
  text_eq_iff, here, there, All, ◌++◌, ◌+◌, ap,
}
use affective_belief_persist.Orchestration.Paths.{
  normalize_scope, paths_overlap, scopes_overlap, scope_prefix,
}
use affective_belief_persist.Orchestration.Paths.Overlap.{Covers}
use affective_belief_persist.Orchestration.Leases.{
  write, completed, PathLease, PathLeaseManager, AcquireArguments, Request, conflict,
  canonical_scopes, has_parent, new_manager, admit, acquire, acquire_from, new_lease, store_lease,
  check_arguments, check_conflicts, sorted_leases, put_lease,
}
use affective_belief_persist.Orchestration.Leases.Exclusion.{Clear}
use affective_belief_persist.Orchestration.Leases.Sessions.{
  IsSafe, acquiring, releasing, beating, run_calls, run_calls-IsSafe, new_manager-IsSafe,
  no_common_path,
}
use affective_belief_persist.Orchestration.Leases.Grants.{
  HasRoom, admit_iff, IsGranted, acquire-IsGranted,
}

abbrev empty : PathLeaseManager
empty = record { max_workers = 3; default_ttl_seconds = 900; leases = []; sequence = 0 }

-- A digest that gives each task an identifier of its own.
abbrev by_task : Text → Text → List Text → ℕ → ℕ → Text
by_task task agent scopes at sequence = task

abbrev on : Text → Text → AcquireArguments
on task path = record {
  task_id = task;
  paths = path ∷ [];
  agent_id = none;
  access = write;
  ttl_seconds = none;
  shared_integration = false;
}

abbrev lease_of : Text → Text → ℕ → PathLease
lease_of id path now = record {
  lease_id = codes "lease-" ++ id;
  task_id = id;
  agent_id = id;
  path_patterns = path ∷ [];
  access = write;
  granted_at = now;
  expires_at = now + 900;
  heartbeat_at = now;
  shared_integration = false;
}

abbrev held : PathLeaseManager
held = record empty { leases = lease_of (codes "a") (codes "src/**") 0 ∷ []; sequence = 1 }

test_acquire :
    acquire by_task empty (on (codes "a") (codes "src/**")) 0
    ≡ (ok (lease_of (codes "a") (codes "src/**") 0), held)
unfolding acquire acquire_from check_arguments canonical_scopes normalize_scope has_parent admit
    check_conflicts new_lease store_lease put_lease sorted_leases
test_acquire = refl

test_conflict :
    (acquire by_task held (on (codes "b") (codes "src/x.py")) 5).0
    ≡ err (conflict (codes "src/x.py") (codes "src/**"))
unfolding acquire acquire_from check_arguments canonical_scopes normalize_scope has_parent admit
    check_conflicts paths_overlap scopes_overlap scope_prefix sorted_leases
test_conflict = refl

-- A parent scope is lost when a nested one sorts before it: `(` is below `*`.
test_parent_dropped :
    canonical_scopes (codes "app/**" ∷ codes "app/(shop)/**" ∷ []) ≡ ok (codes "app/(shop)/**" ∷ [])
unfolding canonical_scopes normalize_scope has_parent paths_overlap scopes_overlap scope_prefix
test_parent_dropped = refl

test_new : new_manager 3 900 ≡ ok empty
unfolding new_manager
test_new = refl

empty-IsSafe : IsSafe empty × (3 ≤ 3)
empty-IsSafe = new_manager-IsSafe 3 900 test_new

run_calls-IsSafe_example : IsSafe (
    run_calls by_task empty (
      acquiring (on (codes "a") (codes "src/**")) 0
      ∷ acquiring (on (codes "b") (codes "src/x.py")) 5
      ∷ beating (codes "lease-a") none none 6
      ∷ releasing (codes "a") none completed 7
      ∷ []))
run_calls-IsSafe_example =
    run_calls-IsSafe by_task empty
      (acquiring (on (codes "a") (codes "src/**")) 0
        ∷ acquiring (on (codes "b") (codes "src/x.py")) 5
        ∷ beating (codes "lease-a") none none 6
        ∷ releasing (codes "a") none completed 7
        ∷ [])
      empty-IsSafe.0

acquire-IsGranted_example :
    IsGranted by_task empty
      (on (codes "a") (codes "src/**"))
      0
      (lease_of (codes "a") (codes "src/**") 0)
      (acquire by_task empty (on (codes "a") (codes "src/**")) 0).1
acquire-IsGranted_example =
    acquire-IsGranted by_task empty (on (codes "a") (codes "src/**")) 0 (ap (λ o. o.0) test_acquire)

abbrev request : Request
request = record {
  owner = codes "b";
  scopes = codes "docs/**" ∷ [];
  access = write;
  shared_integration = false;
}

admit_iff_example :
    (admit held request ≡ ok tt) ↔ (HasRoom held (codes "b") × All (Clear request) held.leases)
admit_iff_example = admit_iff held request

-- Two agents on separate subtrees.
abbrev both : PathLeaseManager
both = record empty {
  leases = lease_of (codes "a") (codes "src/**") 0 ∷ lease_of (codes "b") (codes "docs/**") 0 ∷ [];
  sequence = 2;
}

both-IsSafe : IsSafe both
unfolding paths_overlap normalize_scope scopes_overlap scope_prefix
both-IsSafe = record { exclusive = ((inr ((refl, tt), tt), tt), (tt, tt)); bounded = omega arith }

test_src : normalize_scope (codes "src/**") ≡ ok (codes "src/**")
unfolding normalize_scope
test_src = refl

test_docs : normalize_scope (codes "docs/**") ≡ ok (codes "docs/**")
unfolding normalize_scope
test_docs = refl

different : codes "a" ≢ codes "b"
different e = cc ((text_eq_iff (codes "a") (codes "b")).1 e)

no_common_path_example : ¬ (
    Covers (codes "src/**") (codes "src" ∷ codes "x.py" ∷ [])
    × Covers (codes "docs/**") (codes "src" ∷ codes "x.py" ∷ []))
no_common_path_example =
    no_common_path both (lease_of (codes "a") (codes "src/**") 0)
      (lease_of (codes "b") (codes "docs/**") 0) (codes "src/**") (codes "docs/**") (codes "src/**")
      (codes "docs/**") (codes "src" ∷ codes "x.py" ∷ []) both-IsSafe here (there here) different
      (inl refl) refl here here test_src test_docs
