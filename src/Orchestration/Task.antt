-- ===== src/Orchestration/Task.antt =====
-- orchestration/state.py and contracts.py: the lifecycle of one workflow task.
pub mod Lifecycle
pub mod Runs
pub mod Snapshot
pub mod Failing
pub mod Progress
mod Examples
use affective_belief_persist.Prelude.{
  ℕ, ◌+◌, ◌≡◌, Bool, true, false, not, ◌&&◌, ◌||◌, Option, none, some, List, [], ◌∷◌, Text, text_eq,
  ltb, any, if◌then◌else◌, Result, ok, err, ◌>>◌, ◌>>=◌, raise_if,
}

pub data TaskStatus : Type 0 where
  pending ready leased running validating completed retry blocked escalated cancelled : TaskStatus

pub data FailureCategory : Type 0 where
  validation_failure dependency_missing schema_mismatch file_lease_conflict : FailureCategory
  model_unavailable budget_exceeded reproducibility_failure safety_boundary : FailureCategory
  human_decision_required runtime_interrupted : FailureCategory

-- Timestamps are instants of UTC in seconds; the artifact identifiers and messages are texts.
pub record TaskLease : Type 0 where
  pub lease_id : Text
  pub worker_id : Text
  pub acquired_at : ℕ
  pub expires_at : ℕ
  pub authorized_files : List Text

-- The fields that the lifecycle reads or writes, and the static ones that the scheduler reads.
pub record WorkflowTask : Type 0 where
  pub task_id : Text
  pub dependencies : List Text
  pub optional_dependencies : List Text
  pub optional : Bool
  pub max_attempts : ℕ
  pub status : TaskStatus
  pub attempt_count : ℕ
  pub retry_count : ℕ
  pub lease : Option TaskLease
  pub started_at : Option ℕ
  pub completed_at : Option ℕ
  pub updated_at : ℕ
  pub output_artifact_ids : List Text
  pub blocker : Option Text
  pub last_error : Option Text
  pub failure_category : Option FailureCategory
  pub no_artifact_reason : Option Text

abbrev pub same_status : TaskStatus → TaskStatus → Bool
same_status pending pending = true
same_status ready ready = true
same_status leased leased = true
same_status running running = true
same_status validating validating = true
same_status completed completed = true
same_status retry retry = true
same_status blocked blocked = true
same_status escalated escalated = true
same_status cancelled cancelled = true
same_status _ _ = false

abbrev pub is_none {ℓ} : {A : Type ℓ} → Option A → Bool
is_none none = true
is_none (some a) = false

-- `target in ALLOWED_TASK_TRANSITIONS[status]`
abbrev pub allowed_task_transitions : TaskStatus → List TaskStatus
allowed_task_transitions pending = ready ∷ blocked ∷ []
allowed_task_transitions ready = leased ∷ blocked ∷ []
allowed_task_transitions leased = running ∷ []
allowed_task_transitions running = validating ∷ []
allowed_task_transitions validating = completed ∷ retry ∷ blocked ∷ []
allowed_task_transitions retry = ready ∷ blocked ∷ []
allowed_task_transitions blocked = escalated ∷ []
allowed_task_transitions escalated = ready ∷ cancelled ∷ []
allowed_task_transitions completed = []
allowed_task_transitions cancelled = []

-- The statuses LEASED, RUNNING and VALIDATING, in which a worker holds the task.
abbrev pub is_active : TaskStatus → Bool
is_active leased = true
is_active running = true
is_active validating = true
is_active _ = false

-- The targets that clear the lease.
abbrev pub clears_lease : TaskStatus → Bool
clears_lease completed = true
clears_lease retry = true
clears_lease blocked = true
clears_lease escalated = true
clears_lease cancelled = true
clears_lease _ = false

-- The errors of `transition` and `recover_to_ready`, one for each `raise`.
pub data InvalidTaskTransition : Type 0 where
  cannot_transition cannot_recover : TaskStatus → TaskStatus → InvalidTaskTransition
  only_optional_cancelled cancelled_requires_reason : InvalidTaskTransition
  category_requires_error leased_requires_lease unexpected_lease : InvalidTaskTransition

-- The keyword arguments of `transition`, each with its default `None`.
pub record Change : Type 0 where
  pub lease : Option TaskLease
  pub blocker : Option Text
  pub error : Option Text
  pub failure_category : Option FailureCategory
  pub output_artifact_ids : Option (List Text)
  pub no_artifact_reason : Option Text

abbrev pub no_change : Change
no_change = record {
  lease = none;
  blocker = none;
  error = none;
  failure_category = none;
  output_artifact_ids = none;
  no_artifact_reason = none;
}

optional_cancel : WorkflowTask → TaskStatus → Bool
optional_cancel t target =
    t.optional
    && same_status target cancelled
    && (same_status t.status pending || same_status t.status ready)

-- The guards of `transition` before the new snapshot is built.
check_transition : WorkflowTask → TaskStatus → Change → Result InvalidTaskTransition (Unit {0})
unfolding optional_cancel
check_transition t target c = do
  raise_if
      (not (any (same_status target) (allowed_task_transitions t.status))
        && not (optional_cancel t target))
      (cannot_transition t.status target)
  raise_if (same_status target cancelled && not (same_status t.status escalated) && not t.optional)
      only_optional_cancelled
  raise_if (same_status target cancelled && is_none c.no_artifact_reason) cancelled_requires_reason
  raise_if (not (is_none c.failure_category) && is_none c.error) category_requires_error
  raise_if (same_status target leased && is_none c.lease) leased_requires_lease
  raise_if (not (same_status target leased) && not (is_none c.lease)) unexpected_lease

-- `a if a is not None else b`
abbrev pub or_else {ℓ} : {A : Type ℓ} → Option A → Option A → Option A
or_else none b = b
or_else (some a) b = some a

abbrev pub or_default {ℓ} : {A : Type ℓ} → Option A → A → A
or_default none b = b
or_default (some a) b = a

-- The `model_copy` of `transition`.
moved : WorkflowTask → TaskStatus → ℕ → Change → WorkflowTask
moved t target at c = record t {
  status = target;
  attempt_count = if same_status target running then t.attempt_count + 1 else t.attempt_count;
  retry_count = if same_status target retry then t.retry_count + 1 else t.retry_count;
  lease =
      if clears_lease target then none else if same_status target leased then c.lease else t.lease;
  started_at = if same_status target running then some at else t.started_at;
  completed_at = if same_status target completed then some at else none;
  updated_at = at;
  blocker = if same_status target blocked then c.blocker else none;
  last_error = or_else c.error t.last_error;
  failure_category = if is_none c.error then none else c.failure_category;
  output_artifact_ids = or_default c.output_artifact_ids t.output_artifact_ids;
  no_artifact_reason = c.no_artifact_reason;
}

unfoldable pub transition :
    WorkflowTask → TaskStatus → ℕ → Change → Result InvalidTaskTransition WorkflowTask
unfolding check_transition moved
transition t target at c = do check_transition t target c; ok (moved t target at c)

unfoldable pub recover_to_ready :
    WorkflowTask → ℕ → Text → Result InvalidTaskTransition WorkflowTask
recover_to_ready t at reason =
    if is_active t.status
    then ok (record t {
      status = ready;
      lease = none;
      completed_at = none;
      updated_at = at;
      last_error = some reason;
      failure_category = some runtime_interrupted;
      blocker = none;
    })
    else err (cannot_recover t.status ready)
