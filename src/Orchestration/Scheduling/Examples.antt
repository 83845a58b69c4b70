-- ===== src/Orchestration/Scheduling/Examples.antt =====
-- Runs of a workflow of two tasks with an executor that answers at once, and the theorems there.
use affective_belief_persist.Prelude.{
  ℕ, ◌+◌, ◌-◌, ◌<◌, ◌≡◌, refl, true, false, none, some, List, [], ◌∷◌, Result, ok, err, Text, codes,
  six_digits, arith, Option, ltb, if◌then◌else◌, length,
}
use affective_belief_persist.Orchestration.Task.{WorkflowTask, validation_failure}
use affective_belief_persist.Orchestration.Contracts.{TaskContract}
use affective_belief_persist.Orchestration.Budgets.{
  open_account, assert_within_limits, BudgetLimits, BudgetAccount, Arithmetic, nothing,
  observed_usage, exceeded,
}
use affective_belief_persist.Orchestration.Registry.{AgentDefinition}
use affective_belief_persist.Orchestration.Leases.{new_manager}
use affective_belief_persist.Orchestration.Workflow.{
  WorkflowContract, from_contract, find_task, task_of, put_task, append_event, tasks_of,
}
use affective_belief_persist.Orchestration.Supervisor.{logical_clock, new_event, record_event}
use affective_belief_persist.Orchestration.Supervisor.Start.{from_contract-IsAudited}
use affective_belief_persist.Orchestration.Supervisor.Propagation.{find_contract}
use affective_belief_persist.Orchestration.Scheduling.{WorkflowDefinition, Scheduler, RunError}
use affective_belief_persist.Orchestration.Scheduling.Work.{ScheduledWork}
use affective_belief_persist.Orchestration.Scheduling.Results.{
  WorkerOutcome, returned, failed_result,
}
use affective_belief_persist.Orchestration.Scheduling.Loop.{
  Setting, WorkflowRunSummary, RunStatus, run,
}
use affective_belief_persist.Orchestration.Scheduling.Moves.{IsFiled, total_weight}
use affective_belief_persist.Orchestration.Scheduling.Termination.{run-ends}
use affective_belief_persist.Orchestration.Scheduling
use affective_belief_persist.Orchestration.Events.{validate_history}
use affective_belief_persist.Orchestration.Events
use affective_belief_persist.Orchestration.Budgets
use affective_belief_persist.Orchestration.Scheduling.Opening.{
  new_scheduler, assemble, new_state, closed_gates,
}
use affective_belief_persist.Orchestration.Scheduling.Opened.{fuel_for, run-new_scheduler}

abbrev plan : Text
plan = codes "plan"

abbrev build : Text
build = codes "build"

abbrev task : Text → List Text → List Text → TaskContract
task id dependencies files = record {
  task_id = id;
  owner = codes "engineering";
  task_type = codes "code";
  gate_id = none;
  dependencies = dependencies;
  optional_dependencies = [];
  optional = false;
  authorized_files = files;
  output_paths = [];
  input_artifact_ids = [];
  expected_artifact_ids = [];
  acceptance_tests = [];
  budget = record {
    max_attempts = 2;
    max_runtime_seconds = 60;
    max_tokens = 100;
    max_cost_usd = 0;
    required_gpu_hours = 0;
  };
}

abbrev tasks : List TaskContract
tasks = task build (plan ∷ []) (codes "b" ∷ []) ∷ task plan [] (codes "a" ∷ []) ∷ []

abbrev agent : Text → AgentDefinition
agent id = record {
  agent_id = id;
  kind = codes "specialist";
  role = codes "engineering";
  supported_task_types = codes "code" ∷ [];
  allowed_paths = codes "a" ∷ codes "b" ∷ [];
  required_input_schemas = [];
  output_schemas = [];
  default_timebox_seconds = 60;
  retry_budget = 1;
  escalation_destination = codes "chief";
  enabled = true;
}

-- The first attempt of each task fails.
abbrev flaky : ℕ → ScheduledWork → WorkerOutcome × ℕ
flaky wave item =
    if ltb 1 item.attempt
    then (
      returned (record (failed_result item.task.task_id [] validation_failure false) {
        succeeded = true;
        error = none;
        failure_category = none;
        no_artifact_reason = some (codes "none");
      }),
      1,
    )
    else (returned (failed_result item.task.task_id (codes "lost") validation_failure true), 1)

abbrev whole : Arithmetic
whole = record { plus = λ a b. a + b; minus = λ a b. a - b; seconds = λ n. n }

abbrev env : Setting
env = record {
  clock = logical_clock 100;
  arithmetic = whole;
  lease_digest = λ id owner scopes at sequence. id;
  registry = record { max_concurrent_workers = 2; agents = agent (codes "ann") ∷ [] };
  definition = record { max_workers = 2; tasks = tasks; gates = []; final_task_id = build };
  order = plan ∷ build ∷ [];
  files = record {
    escapes = λ path. false;
    sha256 = λ content. content;
    size_bytes = λ content. 0;
  };
  executor = flaky;
}

abbrev workflow : WorkflowContract
workflow = record {
  workflow_id = codes "sprint";
  sprint_id = codes "one";
  created_at = 100;
  tasks = tasks;
}

abbrev fresh : Scheduler
fresh = record {
  supervisor = record { state = from_contract workflow; readings = 0 };
  budgets = record {
    arithmetic = whole;
    limits = record {
      max_wall_clock_seconds = 10000;
      max_tokens = some 1000;
      max_gpu_hours = some 8;
      max_training_gpu_hours = 6;
      max_automatic_retries = 2;
      max_malformed_output_retries = 1;
      deadline = none;
    };
    usage = nothing;
    started_at = 100;
  };
  leases = record { max_workers = 2; default_ttl_seconds = 900; leases = []; sequence = 0 };
}

fresh-IsFiled : IsFiled fresh.supervisor.state.tasks
fresh-IsFiled id t h =
    let audited = from_contract-IsAudited (logical_clock 100) workflow in
    (audited.explained id t h).0

fresh-weight : total_weight tasks fresh.supervisor.state.tasks < 39
unfolding total_weight from_contract find_contract
fresh-weight = omega arith

run-ends_example :
    (answer : Result RunError (Scheduler × WorkflowRunSummary)) × (run env 39 none 0 fresh
      ≡ some answer)
run-ends_example = run-ends env 39 none 0 fresh fresh-IsFiled fresh-weight

abbrev end_of : Option (Result RunError (Scheduler × WorkflowRunSummary)) → Scheduler
end_of (some (ok (t, closing))) = t
end_of _ = fresh

abbrev closing : WorkflowRunSummary
closing = record {
  workflow_id = codes "sprint";
  status = RunStatus.completed;
  completed_tasks = 2;
  cancelled_tasks = 0;
  escalated_tasks = 0;
  checkpoint_sequence = 9;
}

abbrev build_task : WorkflowTask
build_task = task_of (task build (plan ∷ []) (codes "b" ∷ [])) 100

abbrev plan_task : WorkflowTask
plan_task = task_of (task plan [] (codes "a" ∷ [])) 100

abbrev task_or : WorkflowTask → Option WorkflowTask → WorkflowTask
task_or other (some t) = t
task_or other none = other

-- The task `build` at the end of the run.
abbrev built : WorkflowTask
built =
    task_or build_task (find_task build (end_of (run env 39 none 0 fresh)).supervisor.state.tasks)

abbrev limits : BudgetLimits
limits = fresh.budgets.limits

abbrev opened_or : Scheduler → Result RunError Scheduler → Scheduler
opened_or other (ok s) = s
opened_or other (err e) = other

abbrev opened : Scheduler
opened = opened_or fresh (new_scheduler env workflow limits (codes "c0"))

-- The supervisor of a new run has recorded two events and saved a checkpoint.
test_opened :
    (new_scheduler env workflow limits (codes "c0") ≡ ok opened)
    × (opened.supervisor.readings ≡ 5)
    × (opened.supervisor.state.checkpoint_sequence ≡ 1)
    × (length opened.supervisor.state.event_log.events ≡ 2)
unfolding new_scheduler assemble new_state closed_gates open_account new_manager record_event
    new_event Events.append validate_history append_event from_contract tasks_of put_task exceeded
    assert_within_limits Scheduling.checkpoint Budgets.checkpoint observed_usage six_digits
test_opened = (refl, refl, refl, refl)

run-new_scheduler_example :
    (answer : Result RunError (Scheduler × WorkflowRunSummary)) × (run env
        (fuel_for tasks tasks + 1)
        none
        0
        opened
      ≡ some answer)
run-new_scheduler_example =
    run-new_scheduler env workflow limits (codes "c0") none opened refl test_opened.0
