-- ===== src/Orchestration/Scheduling/Skipping.antt =====
-- orchestration/scheduler.py: `_skip_unavailable_optional_tasks` and `_recover_interrupted_tasks`.
use affective_belief_persist.Prelude.{
  ℕ, ◌+◌, Bool, true, ◌&&◌, some, List, [], ◌∷◌, ◌++◌, ltb, if◌then◌else◌, Result, ok, ◌>>=◌, Text,
  codes,
}
use affective_belief_persist.Orchestration.Task.{
  ready, cancelled, same_status, no_change, is_active, recover_to_ready,
}
use affective_belief_persist.Orchestration.Budgets.{
  TrainingDecisionReason, approved, not_required, deadline_exceeded, wall_clock_budget_unavailable,
  training_budget_unavailable, gpu_budget_unavailable, training_decision,
}
use affective_belief_persist.Orchestration.Contracts.{TaskContract}
use affective_belief_persist.Orchestration.Workflow.{OrchestrationError, replace_task}
use affective_belief_persist.Orchestration.Supervisor.{
  Supervisor, task_at, task_outcome, record_event, transition_task,
}
use affective_belief_persist.Orchestration.Supervisor.Propagation.{find_contract}
use affective_belief_persist.Orchestration.Scheduling.{
  Scheduler, RunError, supervised, with_supervisor, ticked, note_of,
}

-- TrainingDecisionReason
abbrev pub reason_value : TrainingDecisionReason → Text
reason_value approved = codes "approved"
reason_value not_required = codes "not_required"
reason_value deadline_exceeded = codes "deadline_exceeded"
reason_value wall_clock_budget_unavailable = codes "wall_clock_budget_unavailable"
reason_value training_budget_unavailable = codes "training_budget_unavailable"
reason_value gpu_budget_unavailable = codes "gpu_budget_unavailable"

module _ (clock : ℕ → ℕ) where
  -- The task is cancelled and the reason is a decision.
  unfoldable pub cancel_optional : Scheduler → Text → Text → Result RunError (Scheduler × Bool)
  cancel_optional s id reason =
      supervised (
        transition_task clock s.supervisor id cancelled
          (record no_change { no_artifact_reason = some reason }))
      >>= λ v. ok (
        with_supervisor s
            (record v { state = record v.state { decisions = v.state.decisions ++ reason ∷ [] } }),
        true,
      )

  unfoldable pub decide_training : Scheduler → Bool → Text → ℕ → Result RunError (Scheduler × Bool)
  decide_training s changed id hours =
      let decision = training_decision s.budgets hours (clock s.supervisor.readings) in
      if decision.should_train
      then ok (ticked s, changed)
      else cancel_optional (ticked s) id
          (codes "optional GPU stage skipped: " ++ reason_value decision.reason)

  -- One round of the loop of `_skip_unavailable_optional_tasks`.
  unfoldable pub skip_task :
      List TaskContract → Scheduler → Bool → Text → Result RunError (Scheduler × Bool)
  skip_task tasks s changed id = supervised (find_contract tasks id) >>= λ t.
      supervised (task_at s.supervisor.state id) >>= λ current.
      if same_status current.status ready && (t.optional && ltb 0 t.budget.required_gpu_hours)
      then decide_training s changed id t.budget.required_gpu_hours
      else ok (s, changed)

  -- `_skip_unavailable_optional_tasks`, over `graph.task_ids`
  unfoldable pub skip_unavailable_optional_tasks :
      List TaskContract → Scheduler → Bool → List Text → Result RunError (Scheduler × Bool)
  skip_unavailable_optional_tasks tasks s changed [] = ok (s, changed)
  skip_unavailable_optional_tasks tasks s changed (id ∷ ids) =
      skip_task tasks s changed id >>= λ (t, c). skip_unavailable_optional_tasks tasks t c ids

  -- The two loops of `_recover_interrupted_tasks`.
  unfoldable pub recover_tasks :
      Supervisor → List Text → Result OrchestrationError (Supervisor × List Text)
  recover_tasks v [] = ok (v, [])
  recover_tasks v (id ∷ ids) = task_at v.state id >>= λ t.
      if is_active t.status
      then (task_outcome (
            recover_to_ready t (clock v.readings)
              (codes "recovered from an interrupted checkpoint"))
          >>= λ u. replace_task v.state u >>= λ state.
              recover_tasks (record { state = state; readings = v.readings + 1 }) ids
              >>= λ (w, recovered). ok (w, id ∷ recovered))
      else recover_tasks v ids

  unfoldable pub note_recovered : Supervisor → List Text → Result OrchestrationError Supervisor
  note_recovered v [] = ok v
  note_recovered v (id ∷ ids) =
      record_event clock v (note_of id (codes "stale active lease cleared during resume")) >>= λ w.
      note_recovered w ids

  unfoldable pub recover_interrupted_tasks :
      Supervisor → List Text → Result OrchestrationError Supervisor
  recover_interrupted_tasks v order = recover_tasks v order >>= λ (w, recovered).
      note_recovered (record w { state = record w.state { active_agents = [] } }) recovered
