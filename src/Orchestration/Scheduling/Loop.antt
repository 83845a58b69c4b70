-- ===== src/Orchestration/Scheduling/Loop.antt =====
-- orchestration/scheduler.py: the loop of `Supervisor.run`.
use affective_belief_persist.Prelude.{
  ℕ, zero, suc, ◌+◌, Bool, true, false, not, ◌&&◌, ◌||◌, Option, none, some, List, [], ◌∷◌, ◌++◌,
  all, leb, min, keep, length, if◌then◌else◌, Result, ok, err, ◌>>=◌, Text, codes, text_eq,
  sorted_ids,
}
use affective_belief_persist.Orchestration.Task.{
  TaskStatus, ready, cancelled, escalated, same_status, WorkflowTask,
}
use affective_belief_persist.Orchestration.Budgets.{Arithmetic}
use affective_belief_persist.Orchestration.Contracts.{TaskContract}
use affective_belief_persist.Orchestration.Validation.{GateDefinition}
use affective_belief_persist.Orchestration.Registry.{AgentRegistryConfig}
use affective_belief_persist.Orchestration.Workflow.{WorkflowState, OrchestrationError}
use affective_belief_persist.Orchestration.Supervisor.{task_at}
use affective_belief_persist.Orchestration.Supervisor.Propagation.{
  find_contract, propagate_dependency_failures,
}
use affective_belief_persist.Orchestration.Supervisor.Marking.{mark_ready}
use affective_belief_persist.Orchestration.Scheduling.{
  WorkflowDefinition, Scheduler, RunError, no_progress, supervised, with_supervisor, with_state,
  checkpoint,
}
use affective_belief_persist.Orchestration.Scheduling.Skipping.{skip_unavailable_optional_tasks}
use affective_belief_persist.Orchestration.Scheduling.Work.{ScheduledWork, lease_task}
use affective_belief_persist.Orchestration.Scheduling.Results.{
  WorkerOutcome, wave_result, sorted_work, apply_result,
}
use affective_belief_persist.Orchestration.Scheduling.Artifacts.{Files}

abbrev pub is_terminal_status : TaskStatus → Bool
is_terminal_status TaskStatus.completed = true
is_terminal_status cancelled = true
is_terminal_status escalated = true
is_terminal_status _ = false

-- `_is_terminal`
unfoldable pub is_terminal : WorkflowState → Bool
is_terminal s = all (λ (id, t). is_terminal_status t.status) s.tasks

pub data RunStatus : Type 0 where
  completed paused failed : RunStatus

-- `WorkflowRunSummary`, without the digest of the state.
pub record WorkflowRunSummary : Type 0 where
  pub workflow_id : Text
  pub status : RunStatus
  pub completed_tasks : ℕ
  pub cancelled_tasks : ℕ
  pub escalated_tasks : ℕ
  pub checkpoint_sequence : ℕ

abbrev pub count_status : TaskStatus → WorkflowState → ℕ
count_status status s = length (keep (λ (id, t). same_status t.status status) s.tasks)

unfoldable pub summary : WorkflowState → RunStatus → WorkflowRunSummary
summary s status = record {
  workflow_id = s.workflow_id;
  status = status;
  completed_tasks = count_status TaskStatus.completed s;
  cancelled_tasks = count_status cancelled s;
  escalated_tasks = count_status escalated s;
  checkpoint_sequence = s.checkpoint_sequence;
}

-- `ready_ids`
unfoldable pub ready_ids : WorkflowState → List Text → Result OrchestrationError (List Text)
ready_ids s [] = ok []
ready_ids s (id ∷ ids) =
    let later = ready_ids s ids in
    task_at s id >>= λ t.
    later >>= λ rest. ok (if same_status t.status ready then id ∷ rest else rest)

abbrev pub push_work : List ScheduledWork → Option ScheduledWork → List ScheduledWork
push_work work none = work
push_work work (some item) = work ++ item ∷ []

-- `gates_by_task.get(task_id)`; a later gate of the same task takes the place of an earlier one.
unfoldable pub gate_of : List GateDefinition → Text → Option GateDefinition
gate_of [] id = none
gate_of (g ∷ gs) id = elim (gate_of gs id) [
  | some later ↦ some later
  | none ↦ if text_eq g.task_id id then some g else none
]

-- Whether some mandatory task is not COMPLETED.
unfoldable pub mandatory_incomplete :
    WorkflowState → List TaskContract → Result OrchestrationError Bool
mandatory_incomplete s [] = ok false
mandatory_incomplete s (t ∷ ts) =
    let later = mandatory_incomplete s ts in
    if t.optional
    then later
    else task_at s t.task_id >>= λ u.
        later >>= λ rest. ok (not (same_status u.status TaskStatus.completed) || rest)

-- Whether the workflow was completed.
abbrev pub is_done : WorkflowState → WorkflowTask → Bool → Bool
is_done state final incomplete =
    same_status final.status TaskStatus.completed
    && (not incomplete && all (λ (id, passed). passed) state.gates)

-- Everything of the program around the loop.
pub record Setting : Type 0 where
  pub clock : ℕ → ℕ
  pub arithmetic : Arithmetic
  pub lease_digest : Text → Text → List Text → ℕ → ℕ → Text
  pub registry : AgentRegistryConfig
  pub definition : WorkflowDefinition
  pub order : List Text
  pub files : Files
  -- The wave is an argument, since a worker need not answer the same twice.
  pub executor : ℕ → ScheduledWork → WorkerOutcome × ℕ

module _ (env : Setting) where
  abbrev pub capacity_of_wave : ℕ
  capacity_of_wave = min env.definition.max_workers env.registry.max_concurrent_workers

  -- The `for` loop that leases tasks to agents.
  unfoldable pub lease_tasks :
      Scheduler
      → List Text
      → List ScheduledWork
      → List Text
      → Result RunError (Scheduler × List Text × List ScheduledWork)
  lease_tasks s active work [] = ok (s, active, work)
  lease_tasks s active work (id ∷ ids) =
      if leb capacity_of_wave (length work)
      then ok (s, active, work)
      else supervised (find_contract env.definition.tasks id) >>= λ t.
          lease_task env.clock env.lease_digest env.registry s t active >>= λ l.
          lease_tasks l.after l.active (push_work work l.work) ids

  -- The loop over the results of a wave.
  unfoldable pub apply_results : ℕ → Scheduler → List ScheduledWork → Result RunError Scheduler
  apply_results wave s [] = ok s
  apply_results wave s (item ∷ rest) =
      let (outcome, elapsed) = env.executor wave item in
      apply_result env.clock env.definition.tasks env.files
        (gate_of env.definition.gates item.task.task_id) s item
        (wave_result item.task outcome elapsed)
      >>= λ t. apply_results wave t rest

  abbrev pub set_phase : Scheduler → List Text → Text → Scheduler
  set_phase s agents phase =
      with_state s (record s.supervisor.state { active_agents = agents; phase = phase })

  -- A pass of the loop that found work.
  unfoldable pub run_wave :
      ℕ → Scheduler → List Text → List ScheduledWork → Result RunError Scheduler
  run_wave wave s active work =
      checkpoint env.clock (set_phase s (sorted_ids active) (codes "executing")) >>= λ t.
      apply_results wave t (sorted_work work) >>= λ u.
      checkpoint env.clock (set_phase u [] (codes "integrating"))

  -- A pass that found none: dependency failures are propagated, or nothing can move.
  unfoldable pub run_without_work : Scheduler → Bool → Result RunError Scheduler
  run_without_work s changed =
      supervised
        (propagate_dependency_failures env.clock env.definition.tasks s.supervisor env.order)
      >>= λ (v, propagated).
          if propagated || changed
          then checkpoint env.clock (with_supervisor s v)
          else err no_progress

  abbrev pub dispatch :
      ℕ → Bool → Scheduler → List Text → List ScheduledWork → Result RunError (Scheduler × ℕ)
  dispatch wave changed s active [] = run_without_work s changed >>= λ t. ok (t, wave)
  dispatch wave changed s active (item ∷ work) =
      run_wave wave s active (item ∷ work) >>= λ t. ok (t, wave + 1)

  -- The body of the `while` loop, with the number of waves after it.
  unfoldable pub run_pass : ℕ → Scheduler → Result RunError (Scheduler × ℕ)
  run_pass wave s =
      supervised (mark_ready env.clock env.definition.tasks env.order s.supervisor) >>= λ v.
      skip_unavailable_optional_tasks env.clock env.definition.tasks (with_supervisor s v) false
        env.order
      >>= λ (t, changed). supervised (ready_ids t.supervisor.state env.order) >>= λ ids.
          lease_tasks t [] [] ids >>= λ (u, active, work). dispatch wave changed u active work

  unfoldable pub close_run : Scheduler → Bool → Result RunError (Scheduler × WorkflowRunSummary)
  close_run s done =
      let phase = if done then codes "completed" else codes "failed" in
      checkpoint env.clock (set_phase s s.supervisor.state.active_agents phase) >>= λ t.
      ok (t, summary t.supervisor.state (if done then RunStatus.completed else failed))

  -- The end of `run`.
  unfoldable pub finish : Scheduler → Result RunError (Scheduler × WorkflowRunSummary)
  finish s = supervised (task_at s.supervisor.state env.definition.final_task_id) >>= λ final.
      supervised (mandatory_incomplete s.supervisor.state env.definition.tasks) >>= λ incomplete.
      close_run s (is_done s.supervisor.state final incomplete)

  abbrev pub over_waves : Option ℕ → ℕ → Bool
  over_waves none waves = false
  over_waves (some limit) waves = leb limit waves

  -- `run`: the `while` loop on fuel, and its end; `none` is a loop cut short.
  unfoldable pub run :
      ℕ → Option ℕ → ℕ → Scheduler → Option (Result RunError (Scheduler × WorkflowRunSummary))
  run zero max_waves waves s = none
  run (suc fuel) max_waves waves s =
      if is_terminal s.supervisor.state
      then some (finish s)
      else if over_waves max_waves waves
      then some (ok (s, summary s.supervisor.state paused))
      else elim (run_pass waves s) [
        | err e ↦ some (err e)
        | ok out ↦ run fuel max_waves out.1 out.0
      ]
