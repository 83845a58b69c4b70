-- ===== src/Orchestration/Scheduling.antt =====
-- orchestration/scheduler.py: how `Supervisor` drives the workflow, with its budget and its leases.
-- The executor is a parameter, and so are the file system's answers; a call of the clock is one
-- reading.
pub mod Skipping
pub mod Work
pub mod Artifacts
pub mod Results
pub mod Loop
pub mod Moves
pub mod Passes
pub mod Rounds
pub mod Changes
pub mod Leasing
pub mod Filing
pub mod Applying
pub mod Opening
pub mod Termination
pub mod Opened
mod Examples
use affective_belief_persist.Orchestration.Budgets
use affective_belief_persist.Prelude.{
  ℕ, ◌+◌, Bool, true, false, not, ◌&&◌, Option, none, some, List, [], ◌∷◌, ◌++◌, ltb, min,
  if◌then◌else◌, Result, ok, err, ◌>>=◌, Text, codes, text_eq, sorted_ids, member, map,
}
use affective_belief_persist.Orchestration.Task.{
  TaskStatus, ready, leased, running, cancelled, TaskLease, same_status, Change, no_change,
  budget_exceeded, file_lease_conflict, is_active, recover_to_ready,
}
use affective_belief_persist.Orchestration.Events.{checkpoint_saved, note, number, text}
use affective_belief_persist.Orchestration.Budgets.{
  Amounts, BudgetAccount, BudgetError, TrainingDecisionReason, approved, not_required,
  deadline_exceeded, wall_clock_budget_unavailable, training_budget_unavailable,
  gpu_budget_unavailable, nothing, can_start, training_decision,
}
use affective_belief_persist.Orchestration.Contracts.{TaskContract}
use affective_belief_persist.Orchestration.Registry.{
  AgentDefinition, AgentRegistryConfig, RegistryError, no_available_agent, Demand, select,
}
use affective_belief_persist.Orchestration.Leases.{
  LeaseError, PathLease, PathLeaseManager, AcquireArguments, write, capacity, conflict, acquire,
}
use affective_belief_persist.Orchestration.Validation.{GateDefinition}
use affective_belief_persist.Orchestration.Workflow.{
  WorkflowState, OrchestrationError, replace_task,
}
use affective_belief_persist.Orchestration.Supervisor.{
  Supervisor, EventDetails, category_value, task_at, task_outcome, record_event, transition_task,
  block_and_escalate,
}
use affective_belief_persist.Orchestration.Supervisor.Propagation.{find_contract}

-- The fields of `WorkflowDefinition` that the supervisor reads.
pub record WorkflowDefinition : Type 0 where
  pub max_workers : ℕ
  pub tasks : List TaskContract
  pub gates : List GateDefinition
  pub final_task_id : Text

pub record Scheduler : Type 0 where
  pub supervisor : Supervisor
  pub budgets : BudgetAccount
  pub leases : PathLeaseManager

-- What ends a run before its summary.
pub data RunError : Type 0 where
  orchestration_error : OrchestrationError → RunError
  budget_error : BudgetError → RunError
  lease_error : LeaseError → RunError
  registry_error : RegistryError → RunError
  escaping_artifact : Text → RunError
  no_progress : RunError

abbrev pub supervised : {A : Type 0} → Result OrchestrationError A → Result RunError A
supervised (ok a) = ok a
supervised (err e) = err (orchestration_error e)

abbrev pub budgeted : {A : Type 0} → Result BudgetError A → Result RunError A
budgeted (ok a) = ok a
budgeted (err e) = err (budget_error e)

abbrev pub with_supervisor : Scheduler → Supervisor → Scheduler
with_supervisor s v = record s { supervisor = v }

abbrev pub with_state : Scheduler → WorkflowState → Scheduler
with_state s state = record s { supervisor = record s.supervisor { state = state } }

-- The scheduler after a reading of its clock.
abbrev pub ticked : Scheduler → Scheduler
ticked s = record s { supervisor = record s.supervisor { readings = s.supervisor.readings + 1 } }

-- The details of an event that names no statuses.
abbrev pub note_of : Text → Text → EventDetails
note_of id message = record {
  event_type = note;
  task_id = some id;
  previous_status = none;
  new_status = none;
  message = some message;
  payload = [];
}

module _ (clock : ℕ → ℕ) where
  -- `_checkpoint`; the files that it writes are left out
  unfoldable pub checkpoint : Scheduler → Result RunError Scheduler
  checkpoint s =
      let at = clock s.supervisor.readings in
      let (usage, account) = Budgets.checkpoint s.budgets at (clock (s.supervisor.readings + 1)) in
      let sequence = s.supervisor.state.checkpoint_sequence + 1 in
      let v : Supervisor = record {
        state = record s.supervisor.state { checkpoint_sequence = sequence; updated_at = at };
        readings = s.supervisor.readings + 2;
      } in
      budgeted usage >>= λ u.
      supervised (
        record_event clock v (record {
          event_type = checkpoint_saved;
          task_id = none;
          previous_status = none;
          new_status = none;
          message = some (codes "atomic workflow checkpoint");
          payload = (codes "checkpoint_sequence", number sequence) ∷ [];
        }))
      >>= λ w. ok (record s { supervisor = w; budgets = account })
