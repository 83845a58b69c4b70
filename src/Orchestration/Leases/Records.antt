-- ===== src/Orchestration/Leases/Records.antt =====
-- The records and errors of orchestration/leases.py.
use affective_belief_persist.Prelude.{ℕ, Bool, List, leb, Result, ok, err, Text}
use affective_belief_persist.Orchestration.Paths.{PathError}

pub data LeaseAccess : Type 0 where
  read write : LeaseAccess

pub data ReleaseResult : Type 0 where
  completed failed cancelled expired : ReleaseResult

-- `LeaseError` and its subclasses, and the errors of the path functions.
pub data LeaseError : Type 0 where
  empty_task_id empty_agent_id ttl_not_positive no_paths capacity not_found ownership : LeaseError
  worker_limit ttl_limit : LeaseError
  conflict : Text → Text → LeaseError
  path_error : PathError → LeaseError

pub record PathLease : Type 0 where
  pub lease_id : Text
  pub task_id : Text
  pub agent_id : Text
  pub path_patterns : List Text
  pub access : LeaseAccess
  pub granted_at : ℕ
  pub expires_at : ℕ
  pub heartbeat_at : ℕ
  pub shared_integration : Bool

abbrev pub is_expired : PathLease → ℕ → Bool
is_expired lease at = leb lease.expires_at at

pub record LeaseRelease : Type 0 where
  pub lease : PathLease
  pub released_at : ℕ
  pub result : ReleaseResult

pub record PathLeaseManager : Type 0 where
  pub max_workers : ℕ
  pub default_ttl_seconds : ℕ
  pub leases : List PathLease
  pub sequence : ℕ

-- What a method returns or raises, and the manager after it.
abbrev pub Outcome : Type 0 → Type 0
Outcome A = Result LeaseError A × PathLeaseManager

abbrev pub lift_path : {A : Type 0} → Result PathError A → Result LeaseError A
lift_path (ok a) = ok a
lift_path (err e) = err (path_error e)
