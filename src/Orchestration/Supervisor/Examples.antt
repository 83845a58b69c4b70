-- ===== src/Orchestration/Supervisor/Examples.antt =====
-- Tests of the supervisor's steps, and its theorems at a run of one task.
use affective_belief_persist.Prelude.{
  ℕ, ◌+◌, ◌≤◌, ◌≡◌, ◌⊎◌, refl, sym, ap, true, false, Bool-cases, inl, inr, none, some, List, [],
  ◌∷◌, arith, ok, err, Text, text_eq, text_eq_iff, codes, six_digits, join_with,
}
use affective_belief_persist.Orchestration.Task.{
  TaskStatus, pending, ready, leased, running, validating, escalated, no_change,
  InvalidTaskTransition, WorkflowTask, transition, validation_failure,
}
use affective_belief_persist.Orchestration.Contracts.{TaskContract}
use affective_belief_persist.Orchestration.Events.{
  WorkflowEvent, status_transition, validate_history,
}
use affective_belief_persist.Orchestration.Validation.{ResultValidation}
use affective_belief_persist.Orchestration.Workflow.{
  find_task, WorkflowContract, task_error, from_contract, task_of,
}
use affective_belief_persist.Orchestration.Supervisor.{
  Supervisor, logical_clock, event_name, transition_task, block_and_escalate, result_failure,
}
use affective_belief_persist.Orchestration.Supervisor.Audit.{replay}
use affective_belief_persist.Orchestration.Supervisor.Steps.{
  IsAudited, IsMoved, transition_task_lem,
}
use affective_belief_persist.Orchestration.Supervisor.Failures.{
  IsFailed, block_and_escalate_lem, result_failure_lem, failed_status,
}
use affective_belief_persist.Orchestration.Supervisor.Start.{from_contract-IsAudited}

abbrev audit : Text
audit = codes "audit"

abbrev contract : TaskContract
contract = record {
  task_id = audit;
  owner = codes "lead";
  task_type = codes "audit";
  gate_id = none;
  dependencies = [];
  optional_dependencies = [];
  optional = false;
  authorized_files = [];
  output_paths = [];
  input_artifact_ids = [];
  expected_artifact_ids = [];
  acceptance_tests = [];
  budget = record {
    max_attempts = 2;
    max_runtime_seconds = 60;
    max_tokens = 100;
    max_cost_usd = 0;
    required_gpu_hours = 0;
  };
}

abbrev workflow : WorkflowContract
workflow = record {
  workflow_id = codes "sprint";
  sprint_id = codes "one";
  created_at = 100;
  tasks = contract ∷ [];
}

abbrev clock : ℕ → ℕ
clock = logical_clock 100

monotone : (n : ℕ) → clock n ≤ clock (n + 1)
monotone n = omega arith

abbrev start : Supervisor
start = record { state = from_contract workflow; readings = 0 }

start-IsAudited : IsAudited clock start
start-IsAudited = from_contract-IsAudited clock workflow

audit-pending : find_task audit start.state.tasks ≡ some (task_of contract 100)
unfolding from_contract
audit-pending = refl

test_event_name : event_name 42 ≡ codes "event-000042"
unfolding six_digits
test_event_name = refl

transition_task_lem_example :
    ((e : InvalidTaskTransition) × (transition (task_of contract 100) ready (clock 0) no_change
        ≡ err e)
      × (transition_task clock start audit ready no_change ≡ err (task_error e)))
    ⊎ ((u : WorkflowTask) × (w : Supervisor) × (transition
            (task_of contract 100)
            ready
            (clock 0)
            no_change
          ≡ ok u)
        × (transition_task clock start audit ready no_change ≡ ok w)
        × IsMoved clock start audit u w)
transition_task_lem_example =
    transition_task_lem clock monotone start audit (task_of contract 100) ready no_change
      start-IsAudited refl audit-pending

block_and_escalate_lem_example :
    (w : Supervisor) × (block_and_escalate clock start audit
        (codes "over budget")
        validation_failure
      ≡ ok w)
    × IsFailed clock start audit escalated (codes "over budget") validation_failure w
block_and_escalate_lem_example =
    block_and_escalate_lem clock monotone start audit (task_of contract 100) (codes "over budget")
      validation_failure start-IsAudited refl audit-pending refl

-- The task after its first attempt has run.
abbrev checked_task : WorkflowTask
checked_task = record (task_of contract 100) {
  status = validating;
  attempt_count = 1;
  started_at = some 106;
}

abbrev moved_event : ℕ → TaskStatus → TaskStatus → WorkflowEvent
moved_event n old new = record {
  event_id = event_name n;
  workflow_id = codes "sprint";
  sequence = n;
  event_type = status_transition;
  occurred_at = 100 + n;
  actor_id = codes "sprint-supervisor";
  task_id = some audit;
  previous_status = some old;
  new_status = some new;
  message = none;
  payload = [];
}

abbrev events : List WorkflowEvent
events =
    moved_event 1 pending ready
    ∷ moved_event 2 ready leased
    ∷ moved_event 3 leased running
    ∷ moved_event 4 running validating
    ∷ []

abbrev late : Supervisor
late = record {
  state = record (from_contract workflow) {
    tasks = (audit, checked_task) ∷ [];
    event_log = record { workflow_id = codes "sprint"; events = events };
  };
  readings = 5;
}

late-explained :
    (id : Text) (t : WorkflowTask)
    → find_task id ((audit, checked_task) ∷ []) ≡ some t
    → (t.task_id ≡ id) × (replay id (some pending) events ≡ some t.status)
late-explained id t h = elim (Bool-cases (text_eq audit id)) [
  | inl eq ↦
      let hit : find_task id ((audit, checked_task) ∷ []) ≡ some checked_task = rw eq refl in
      let same : checked_task ≡ t = cc (h, hit) in
      rw (sym ((text_eq_iff audit id).0 eq))
        (ap (λ u. u.task_id) (sym same), ap (λ u. some u.status) same)
  | inr ne ↦
      let missing : find_task id ((audit, checked_task) ∷ []) ≡ none = rw ne refl in
      absurd (cc (h, missing))
]

late-IsAudited : IsAudited clock late
unfolding from_contract validate_history six_digits
late-IsAudited = record {
  recording = record {
    history = refl;
    owned = refl;
    named = (refl, (refl, (refl, (refl, tt))));
    timely = refl;
  };
  explained = late-explained;
}

abbrev rejection : ResultValidation
rejection = record {
  passed = false;
  checks = [];
  failures = codes "missing" ∷ codes "late" ∷ [];
  failure_category = some validation_failure;
  retryable = true;
}

result_failure_lem_example :
    (w : Supervisor) × (result_failure clock late contract rejection ≡ ok w)
    × IsFailed clock late audit
        (failed_status checked_task contract rejection)
        (join_with (codes "; ") rejection.failures)
        validation_failure
        w
unfolding join_with
result_failure_lem_example =
    result_failure_lem clock monotone late checked_task contract rejection validation_failure
      late-IsAudited refl refl refl refl
