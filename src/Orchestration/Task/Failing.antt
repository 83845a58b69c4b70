-- ===== src/Orchestration/Task/Failing.antt =====
-- A task that becomes READY, and one that fails: the steps to RETRY, BLOCKED and ESCALATED with an error and its category.
use affective_belief_persist.Prelude.{
  ℕ, ◌≡◌, refl, Bool, true, false, Option, none, some, Text, arith, any, ok,
}
use affective_belief_persist.Orchestration.Task.{
  TaskStatus, pending, ready, retry, blocked, escalated, WorkflowTask, same_status,
  allowed_task_transitions, Change, no_change, FailureCategory, check_transition, moved, transition,
}

-- The target follows the status by the table.
abbrev pub follows : TaskStatus → TaskStatus → Bool
follows old target = any (same_status target) (allowed_task_transitions old)

-- The targets of a failure.
abbrev pub is_failure_target : TaskStatus → Bool
is_failure_target blocked = true
is_failure_target escalated = true
is_failure_target retry = true
is_failure_target _ = false

abbrev pub failure : Option Text → Text → FailureCategory → Change
failure blocker error category = record {
  lease = none;
  blocker = blocker;
  error = some error;
  failure_category = some category;
  output_artifact_ids = none;
  no_artifact_reason = none;
}

-- A failure moves the task to any such target that the table allows.
pub transition-failure :
    (t : WorkflowTask) (target : TaskStatus) (at : ℕ) (b : Option Text) (error : Text)
    (category : FailureCategory)
    → is_failure_target target ≡ true
    → follows t.status target ≡ true
    → (u : WorkflowTask) × (transition t target at (failure b error category) ≡ ok u)
      × (u.status ≡ target)
      × (u.task_id ≡ t.task_id)
      × (u.last_error ≡ some error)
      × (u.failure_category ≡ some category)
unfolding transition check_transition moved
transition-failure t retry at b error category f h =
    (moved t retry at (failure b error category), ground arith, refl, refl, refl, refl)
transition-failure t blocked at b error category f h =
    (moved t blocked at (failure b error category), ground arith, refl, refl, refl, refl)
transition-failure t escalated at b error category f h =
    (moved t escalated at (failure b error category), ground arith, refl, refl, refl, refl)
transition-failure t _ at b error category f h = absurd (cc f)

-- The statuses from which the supervisor makes a task READY.
abbrev pub is_waiting : TaskStatus → Bool
is_waiting pending = true
is_waiting retry = true
is_waiting _ = false

-- A PENDING or RETRY task may become READY.
pub transition-ready :
    (t : WorkflowTask) (at : ℕ)
    → is_waiting t.status ≡ true
    → (u : WorkflowTask) × (transition t ready at no_change ≡ ok u) × (u.status ≡ ready)
unfolding transition check_transition moved
transition-ready t at h = (moved t ready at no_change, ground arith, refl)
