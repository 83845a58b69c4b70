-- ===== src/Orchestration/Scheduling/Work.antt =====
-- orchestration/scheduler.py: `Supervisor._lease_task`, from an agent to work for the executor.
-- The message on a lease conflict does not name the task that holds the other lease.
use affective_belief_persist.Prelude.{
  ℕ, ◌+◌, false, Option, none, some, List, [], ◌∷◌, ◌++◌, if◌then◌else◌, Result, ok, err, ◌>>=◌,
  Text, codes, sorted_ids,
}
use affective_belief_persist.Orchestration.Task.{
  leased, running, TaskLease, no_change, budget_exceeded, file_lease_conflict,
}
use affective_belief_persist.Orchestration.Events.{text}
use affective_belief_persist.Orchestration.Budgets.{Amounts, nothing, can_start}
use affective_belief_persist.Orchestration.Contracts.{TaskContract}
use affective_belief_persist.Orchestration.Registry.{
  AgentDefinition, AgentRegistryConfig, RegistryError, no_available_agent, Demand, select,
}
use affective_belief_persist.Orchestration.Leases.{
  LeaseError, PathLease, AcquireArguments, write, capacity, conflict, acquire,
}
use affective_belief_persist.Orchestration.Workflow.{WorkflowState, OrchestrationError}
use affective_belief_persist.Orchestration.Supervisor.{
  EventDetails, category_value, task_at, record_event, transition_task, block_and_escalate,
}
use affective_belief_persist.Orchestration.Scheduling.{
  Scheduler, RunError, lease_error, registry_error, supervised, budgeted, with_supervisor, ticked,
  note_of,
}

abbrev pub budget_request : TaskContract → Amounts
budget_request t = record nothing {
  tokens = t.budget.max_tokens;
  gpu_hours = t.budget.required_gpu_hours;
  training_gpu_hours = t.budget.required_gpu_hours;
}

-- The outputs of the dependencies, in their order.
unfoldable pub collected_outputs : WorkflowState → List Text → Result OrchestrationError (List Text)
collected_outputs s [] = ok []
collected_outputs s (d ∷ ds) =
    let later = collected_outputs s ds in
    do t ← task_at s d; rest ← later; ok (t.output_artifact_ids ++ rest)

unfoldable pub task_inputs : WorkflowState → TaskContract → Result OrchestrationError (List Text)
task_inputs s t = do
  outputs ← collected_outputs s (t.dependencies ++ t.optional_dependencies)
  ok (sorted_ids outputs)

-- `_ScheduledWork`
pub record ScheduledWork : Type 0 where
  pub task : TaskContract
  pub agent_id : Text
  pub lease : PathLease
  pub input_artifact_ids : List Text
  pub attempt : ℕ

abbrev pub conflict_details : Text → Text → Text → EventDetails
conflict_details id requested held =
    record (note_of id (
      codes "task '"
      ++ id
      ++ codes "' path '"
      ++ requested
      ++ codes "' conflicts with path '"
      ++ held
      ++ codes "'")) {
        payload = (codes "failure_category", text (category_value file_lease_conflict)) ∷ [];
      }

abbrev pub demand_of : TaskContract → List Text → Demand
demand_of t active = record {
  role = t.owner;
  active = active;
  task_type = some t.task_type;
  required_paths = t.authorized_files;
}

-- What `_lease_task` returns beside the scheduler: the active agents and the work, if any.
pub record Leased : Type 0 where
  pub after : Scheduler
  pub active : List Text
  pub work : Option ScheduledWork

module _ (clock : ℕ → ℕ) where
  -- The end of `_lease_task`, once the paths are leased.
  unfoldable pub start_task :
      Scheduler → TaskContract → List Text → AgentDefinition → PathLease → Result RunError Leased
  start_task s t active agent lease =
      let task_lease : TaskLease = record {
        lease_id = lease.lease_id;
        worker_id = agent.agent_id;
        acquired_at = lease.granted_at;
        expires_at = lease.expires_at;
        authorized_files = lease.path_patterns;
      } in
      supervised (
        transition_task clock s.supervisor t.task_id leased
          (record no_change { lease = some task_lease }))
      >>= λ v. supervised (transition_task clock v t.task_id running no_change) >>= λ w.
          supervised (task_inputs w.state t) >>= λ inputs.
          supervised (task_at w.state t.task_id) >>= λ current. ok (record {
            after = with_supervisor s w;
            active = active ++ agent.agent_id ∷ [];
            work = some (record {
              task = t;
              agent_id = agent.agent_id;
              lease = lease;
              input_artifact_ids = inputs;
              attempt = current.attempt_count;
            });
          })

  -- What `_lease_task` does with the answer of `acquire`.
  unfoldable pub after_acquire :
      Scheduler
      → TaskContract
      → List Text
      → AgentDefinition
      → Result LeaseError PathLease
      → Result RunError Leased
  after_acquire s t active agent (ok lease) = start_task s t active agent lease
  after_acquire s t active agent (err capacity) =
      ok (record { after = s; active = active; work = none })
  after_acquire s t active agent (err (conflict requested held)) =
      supervised (record_event clock s.supervisor (conflict_details t.task_id requested held))
      >>= λ v. ok (record { after = with_supervisor s v; active = active; work = none })
  after_acquire s t active agent (err e) = err (lease_error e)

  -- The branch of `_lease_task` for a budget that does not fit.
  unfoldable pub refuse_task : Scheduler → TaskContract → List Text → Result RunError Leased
  refuse_task s t active =
      supervised (
        block_and_escalate clock s.supervisor t.task_id
          (codes "declared task budget exceeds remaining sprint budget") budget_exceeded)
      >>= λ v. ok (record { after = with_supervisor s v; active = active; work = none })

  module _ (lease_digest : Text → Text → List Text → ℕ → ℕ → Text)
      (registry : AgentRegistryConfig) where
    -- The paths are leased to the agent that was selected.
    unfoldable pub lease_paths :
        Scheduler → TaskContract → List Text → AgentDefinition → Result RunError Leased
    lease_paths s t active agent =
        let arguments : AcquireArguments = record {
          task_id = t.task_id;
          paths = t.authorized_files;
          agent_id = some agent.agent_id;
          access = write;
          ttl_seconds = none;
          shared_integration = false;
        } in
        let (answer, manager) =
          acquire lease_digest s.leases arguments (clock s.supervisor.readings) in
        after_acquire (record (ticked s) { leases = manager }) t active agent answer

    -- `_lease_task` with the agent that was selected.
    unfoldable pub lease_for :
        Scheduler → TaskContract → List Text → AgentDefinition → Result RunError Leased
    lease_for s t active agent =
        let n = s.supervisor.readings in
        budgeted (can_start s.budgets (budget_request t) (clock n) (clock (n + 1))) >>= λ fits.
        if fits
        then lease_paths (ticked (ticked s)) t active agent
        else refuse_task (ticked (ticked s)) t active

    abbrev pub after_select :
        Scheduler
        → TaskContract
        → List Text
        → Result RegistryError AgentDefinition
        → Result RunError Leased
    after_select s t active (ok agent) = lease_for s t active agent
    after_select s t active (err no_available_agent) =
        ok (record { after = s; active = active; work = none })
    after_select s t active (err e) = err (registry_error e)

    -- `_lease_task`
    unfoldable pub lease_task : Scheduler → TaskContract → List Text → Result RunError Leased
    lease_task s t active = after_select s t active (select registry (demand_of t active))
