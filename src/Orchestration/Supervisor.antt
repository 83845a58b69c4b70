-- ===== src/Orchestration/Supervisor.antt =====
-- orchestration/scheduler.py: how `Supervisor`, the only writer, changes tasks and records it.
-- The clock is a function from the number of its earlier readings to an instant; `LogicalClock` is
-- one. An exception that leaves a method ends the run, so the object it leaves behind is not kept.
pub mod Audit
pub mod Recording
pub mod Steps
pub mod Failures
pub mod Start
pub mod Propagation
pub mod Dependencies
pub mod Closure
pub mod OnePass
pub mod Readiness
pub mod Ready
pub mod Marking
mod Examples
mod Cascade
use affective_belief_persist.Prelude.{
  ℕ, ◌+◌, Bool, true, false, not, ◌&&◌, ◌||◌, Option, none, some, List, [], ◌∷◌, ◌++◌, any, ltb,
  if◌then◌else◌, Result, ok, err, ◌>>=◌, ◌>>◌, raise_if, Text, codes, six_digits, null, join_with,
  map,
}
use affective_belief_persist.Orchestration.Task.{
  TaskStatus, pending, ready, leased, running, validating, completed, retry, blocked, escalated,
  cancelled, same_status, FailureCategory, validation_failure, dependency_missing, schema_mismatch,
  file_lease_conflict, model_unavailable, budget_exceeded, reproducibility_failure, safety_boundary,
  human_decision_required, runtime_interrupted, InvalidTaskTransition, WorkflowTask, Change,
  transition,
}
use affective_belief_persist.Orchestration.Task.Failing.{failure}
use affective_belief_persist.Orchestration.Events.{
  WorkflowEventType, status_transition, Scalar, text, null as null_value, WorkflowEvent,
  next_sequence, validate_transition_payload,
}
use affective_belief_persist.Orchestration.Contracts.{TaskContract}
use affective_belief_persist.Orchestration.Validation.{ResultValidation}
use affective_belief_persist.Orchestration.Workflow.{
  find_task, WorkflowState, OrchestrationError, unknown_task, task_error, empty_message,
  replace_task, event_outcome, append_event,
}

-- The snapshot and how often the clock was read.
pub record Supervisor : Type 0 where
  pub state : WorkflowState
  pub readings : ℕ

-- `LogicalClock`
abbrev pub logical_clock : ℕ → ℕ → ℕ
logical_clock start n = start + n

-- `TaskStatus.value`
abbrev pub status_value : TaskStatus → Text
status_value pending = codes "pending"
status_value ready = codes "ready"
status_value leased = codes "leased"
status_value running = codes "running"
status_value validating = codes "validating"
status_value completed = codes "completed"
status_value retry = codes "retry"
status_value blocked = codes "blocked"
status_value escalated = codes "escalated"
status_value cancelled = codes "cancelled"

-- `FailureCategory.value`
abbrev pub category_value : FailureCategory → Text
category_value validation_failure = codes "validation_failure"
category_value dependency_missing = codes "dependency_missing"
category_value schema_mismatch = codes "schema_mismatch"
category_value file_lease_conflict = codes "file_lease_conflict"
category_value model_unavailable = codes "model_unavailable"
category_value budget_exceeded = codes "budget_exceeded"
category_value reproducibility_failure = codes "reproducibility_failure"
category_value safety_boundary = codes "safety_boundary"
category_value human_decision_required = codes "human_decision_required"
category_value runtime_interrupted = codes "runtime_interrupted"

abbrev pub event_name : ℕ → Text
event_name sequence = codes "event-" ++ six_digits sequence

-- The keyword arguments of `_record_event` that the caller gives.
pub record EventDetails : Type 0 where
  pub event_type : WorkflowEventType
  pub task_id : Option Text
  pub previous_status : Option TaskStatus
  pub new_status : Option TaskStatus
  pub message : Option Text
  pub payload : List (Text × Scalar)

abbrev pub category_scalar : Option FailureCategory → Scalar
category_scalar none = null_value
category_scalar (some c) = text (category_value c)

-- `Field(min_length=1)` refuses the empty message.
abbrev pub is_empty_text : Option Text → Bool
is_empty_text none = false
is_empty_text (some t) = null t

-- The arguments with which `_transition` records its step.
abbrev pub transition_details : Text → TaskStatus → TaskStatus → Change → EventDetails
transition_details id old target c = record {
  event_type = status_transition;
  task_id = some id;
  previous_status = some old;
  new_status = some target;
  message =
      some (elim c.error [ none ↦ codes "task entered " ++ status_value target | some e ↦ e ]);
  payload = (codes "failure_category", category_scalar c.failure_category) ∷ [];
}

abbrev pub task_outcome :
    {A : Type 0} → Result InvalidTaskTransition A → Result OrchestrationError A
task_outcome (ok a) = ok a
task_outcome (err e) = err (task_error e)

-- `self.state.tasks[task_id]`
abbrev pub task_at : WorkflowState → Text → Result OrchestrationError WorkflowTask
task_at s id = elim (find_task id s.tasks) [ none ↦ err (unknown_task id) | some t ↦ ok t ]

module _ (clock : ℕ → ℕ) where
  unfoldable pub new_event : WorkflowState → ℕ → EventDetails → WorkflowEvent
  new_event s readings d = record {
    event_id = event_name (next_sequence s.event_log);
    workflow_id = s.workflow_id;
    sequence = next_sequence s.event_log;
    event_type = d.event_type;
    occurred_at = clock readings;
    actor_id = codes "sprint-supervisor";
    task_id = d.task_id;
    previous_status = d.previous_status;
    new_status = d.new_status;
    message = d.message;
    payload = d.payload;
  }

  unfoldable pub record_event : Supervisor → EventDetails → Result OrchestrationError Supervisor
  unfolding new_event append_event validate_transition_payload
  record_event v d = do
    raise_if (is_empty_text d.message) empty_message
    event_outcome (validate_transition_payload (new_event v.state v.readings d))
    s ← append_event v.state (new_event v.state v.readings d)
    ok (record { state = s; readings = v.readings + 1 })

  -- `_transition`
  unfoldable pub transition_task :
      Supervisor → Text → TaskStatus → Change → Result OrchestrationError Supervisor
  unfolding transition replace_task record_event
  transition_task v id target c = do
    current ← task_at v.state id
    updated ← task_outcome (transition current target (clock v.readings) c)
    s ← replace_task v.state updated
    record_event (record { state = s; readings = v.readings + 1 })
        (transition_details id current.status target c)

  -- `_block_and_escalate`
  unfoldable pub block_and_escalate :
      Supervisor → Text → Text → FailureCategory → Result OrchestrationError Supervisor
  block_and_escalate v id error category = do
    b ← transition_task v id blocked (failure (some error) error category)
    e ← transition_task b id escalated (failure none error category)
    ok (record e {
      state = record e.state { blockers = e.state.blockers ++ (id ++ codes ": " ++ error) ∷ [] };
    })

  -- `_result_failure`
  unfoldable pub result_failure :
      Supervisor → TaskContract → ResultValidation → Result OrchestrationError Supervisor
  result_failure v t validation = do
    let error = join_with (codes "; ") validation.failures
    let category : FailureCategory = elim validation.failure_category [
      | none ↦ validation_failure
      | some c ↦ c
    ]
    current ← task_at v.state t.task_id
    if validation.retryable && ltb current.attempt_count t.budget.max_attempts
        then transition_task v t.task_id retry (failure none error category)
        else block_and_escalate v t.task_id error category
