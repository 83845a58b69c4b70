-- ===== src/Orchestration/Scheduling/Results.antt =====
-- orchestration/scheduler.py: from the answers of the executor to the states of the tasks.
use affective_belief_persist.Prelude.{
  ℕ, Bool, true, false, Option, none, some, List, [], ◌∷◌, ◌++◌, ltb, if◌then◌else◌, Result, ok,
  err, ◌>>=◌, Text, codes, text_le,
}
use affective_belief_persist.Orchestration.Task.{
  FailureCategory, model_unavailable, budget_exceeded, validating, completed, no_change,
}
use affective_belief_persist.Orchestration.Budgets.{
  Amounts, BudgetError, exceeded_error, nothing, charge,
}
use affective_belief_persist.Orchestration.Contracts.{TaskContract, WorkerResult}
use affective_belief_persist.Orchestration.Leases
use affective_belief_persist.Orchestration.Leases.{ReleaseResult, LeaseRelease, LeaseError, release}
use affective_belief_persist.Orchestration.Validation.{
  GateDefinition, ResultValidation, validate_worker_result,
}
use affective_belief_persist.Orchestration.Supervisor.{Supervisor, transition_task, result_failure}
use affective_belief_persist.Orchestration.Scheduling.{
  Scheduler, RunError, lease_error, budget_error, supervised, with_supervisor, ticked,
}
use affective_belief_persist.Orchestration.Scheduling.Work.{ScheduledWork}
use affective_belief_persist.Orchestration.Scheduling.Artifacts.{
  put, Files, materialize_artifacts, register_handoffs,
}

-- What a worker did: it returned, or an exception left it.
pub data WorkerOutcome : Type 0 where
  returned : WorkerResult → WorkerOutcome
  raised : Text → WorkerOutcome

-- A failed `WorkerResult` without outputs.
abbrev pub failed_result : Text → Text → FailureCategory → Bool → WorkerResult
failed_result id error category retryable = record {
  task_id = id;
  succeeded = false;
  artifacts = [];
  consumed_artifact_ids = [];
  passed_checks = [];
  no_artifact_reason = none;
  error = some error;
  failure_category = some category;
  retryable = retryable;
  tokens_used = 0;
  gpu_hours_used = 0;
}

-- The result that `_execute_wave` keeps for an item; seconds are compared as whole numbers.
unfoldable pub wave_result : TaskContract → WorkerOutcome → ℕ → WorkerResult
wave_result t outcome elapsed =
    if ltb t.budget.max_runtime_seconds elapsed
    then failed_result t.task_id (codes "task exceeded its wall-clock limit") budget_exceeded false
    else elim outcome [
      | returned r ↦ r
      | raised message ↦
          failed_result t.task_id (codes "worker raised " ++ message) model_unavailable true
    ]

-- sorted(work, key=lambda candidate: candidate.task.task_id)
unfoldable pub insert_work : ScheduledWork → List ScheduledWork → List ScheduledWork
insert_work a [] = a ∷ []
insert_work a (b ∷ bs) =
    let rest = insert_work a bs in
    if text_le a.task.task_id b.task.task_id then a ∷ b ∷ bs else b ∷ rest

unfoldable pub sorted_work : List ScheduledWork → List ScheduledWork
unfolding insert_work
sorted_work [] = []
sorted_work (a ∷ as') = insert_work a (sorted_work as')

-- `str(exc)` of a `BudgetExceededError`, without the names of the meters
abbrev pub over_budget : ResultValidation → ResultValidation
over_budget validation = record {
  passed = false;
  checks = validation.checks;
  failures = codes "budget exceeded" ∷ [];
  failure_category = some budget_exceeded;
  retryable = false;
}

abbrev pub charged_amounts : TaskContract → WorkerResult → Amounts
charged_amounts t r = record nothing {
  tokens = r.tokens_used;
  gpu_hours = r.gpu_hours_used;
  training_gpu_hours = if ltb 0 t.budget.required_gpu_hours then r.gpu_hours_used else 0;
}

-- What the `except` clause of `_apply_result` makes of the answer of `charge`.
abbrev pub after_charge :
    ResultValidation → Result BudgetError Amounts → Result RunError ResultValidation
after_charge validation (ok usage) = ok validation
after_charge validation (err (exceeded_error meters)) = ok (over_budget validation)
after_charge validation (err e) = err (budget_error e)

module _ (clock : ℕ → ℕ) where
  unfoldable pub charge_result :
      Scheduler
      → TaskContract
      → WorkerResult
      → ResultValidation
      → Result RunError (Scheduler × ResultValidation)
  charge_result s t r validation =
      let at = clock s.supervisor.readings in
      let (answer, account) = charge s.budgets none (charged_amounts t r) at at in
      after_charge validation answer >>= λ v. ok (record (ticked s) { budgets = account }, v)

  -- A result that passed is paid for.
  unfoldable pub pay :
      Scheduler
      → TaskContract
      → WorkerResult
      → ResultValidation
      → Result RunError (Scheduler × ResultValidation)
  pay s t r validation =
      if validation.passed then charge_result s t r validation else ok (s, validation)

  abbrev pub after_release :
      Scheduler → Result LeaseError (List LeaseRelease) → Result RunError Scheduler
  after_release s (ok released) = ok s
  after_release s (err e) = err (lease_error e)

  unfoldable pub release_lease :
      Scheduler → ScheduledWork → ReleaseResult → Result RunError Scheduler
  release_lease s item result =
      let (answer, manager) =
        release s.leases item.lease.lease_id (some item.agent_id) result
          (clock s.supervisor.readings) in
      after_release (record (ticked s) { leases = manager }) answer

  abbrev pub pass_gate : Option GateDefinition → Supervisor → Supervisor
  pass_gate none v = v
  pass_gate (some g) v = record v {
    state = record v.state { gates = put g.gate_id true v.state.gates };
  }

  -- The branch of `_apply_result` for a result that passed.
  unfoldable pub accept_result :
      List TaskContract
      → Files
      → Option GateDefinition
      → Supervisor
      → ScheduledWork
      → WorkerResult
      → Result RunError Supervisor
  accept_result tasks files gate v item r =
      materialize_artifacts clock tasks files item.task r item.agent_id v >>= λ (w, ids).
      supervised (
        transition_task clock w item.task.task_id completed (record no_change {
          output_artifact_ids = some ids;
          no_artifact_reason = r.no_artifact_reason;
        }))
      >>= λ x. register_handoffs clock tasks item.task ids (pass_gate gate x)

  -- The last part of `_apply_result`, once it is known whether the result passed.
  unfoldable pub close_result :
      List TaskContract
      → Files
      → Option GateDefinition
      → Scheduler
      → ScheduledWork
      → WorkerResult
      → ResultValidation
      → Result RunError Scheduler
  close_result tasks files gate s item r validation =
      if validation.passed
      then (accept_result tasks files gate s.supervisor item r >>= λ w.
          release_lease (with_supervisor s w) item Leases.completed)
      else (supervised (result_failure clock s.supervisor item.task validation) >>= λ w.
          release_lease (with_supervisor s w) item Leases.failed)

  -- `_apply_result`
  unfoldable pub apply_result :
      List TaskContract
      → Files
      → Option GateDefinition
      → Scheduler
      → ScheduledWork
      → WorkerResult
      → Result RunError Scheduler
  apply_result tasks files gate s item r =
      supervised (transition_task clock s.supervisor item.task.task_id validating no_change)
      >>= λ v.
          pay (with_supervisor s v) item.task r (validate_worker_result item.task r gate)
          >>= λ (paid, validation). close_result tasks files gate paid item r validation
