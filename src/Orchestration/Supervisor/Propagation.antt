-- ===== src/Orchestration/Supervisor/Propagation.antt =====
-- orchestration/scheduler.py: `_propagate_dependency_failures`.
use affective_belief_persist.Prelude.{
  ℕ, Bool, true, false, List, [], ◌∷◌, ◌++◌, if◌then◌else◌, Result, ok, err, ◌>>=◌, Text, text_eq,
  codes, join_with,
}
use affective_belief_persist.Orchestration.Task.{
  TaskStatus, pending, ready, retry, blocked, escalated, cancelled, dependency_missing,
}
use affective_belief_persist.Orchestration.Contracts.{TaskContract}
use affective_belief_persist.Orchestration.Workflow.{
  WorkflowState, OrchestrationError, unknown_task,
}
use affective_belief_persist.Orchestration.Supervisor.{Supervisor, task_at, block_and_escalate}

abbrev pub is_candidate : TaskStatus → Bool
is_candidate pending = true
is_candidate ready = true
is_candidate retry = true
is_candidate _ = false

abbrev pub has_failed : TaskStatus → Bool
has_failed blocked = true
has_failed escalated = true
has_failed cancelled = true
has_failed _ = false

-- The required dependencies that have failed.
unfoldable pub failed_dependencies :
    WorkflowState → List Text → Result OrchestrationError (List Text)
failed_dependencies s [] = ok []
failed_dependencies s (d ∷ ds) = do
  t ← task_at s d
  rest ← failed_dependencies s ds
  ok (if has_failed t.status then d ∷ rest else rest)

-- `self.graph.task(task_id)`
unfoldable pub find_contract : List TaskContract → Text → Result OrchestrationError TaskContract
find_contract [] id = err (unknown_task id)
find_contract (t ∷ ts) id =
    let rest = find_contract ts id in if text_eq t.task_id id then ok t else rest

module _ (clock : ℕ → ℕ) (tasks : List TaskContract) where
  -- What a round does with the failed dependencies that it finds.
  abbrev pub escalate_if_any :
      Supervisor → Bool → Text → List Text → Result OrchestrationError (Supervisor × Bool)
  escalate_if_any v changed id [] = ok (v, changed)
  escalate_if_any v changed id (d ∷ ds) =
      block_and_escalate clock v id
        (codes "required dependency did not complete: " ++ join_with (codes ", ") (d ∷ ds))
        dependency_missing
      >>= λ w. ok (w, true)

  -- One round of the loop; the Boolean is `changed`.
  unfoldable pub propagate_task :
      Supervisor → Bool → Text → Result OrchestrationError (Supervisor × Bool)
  propagate_task v changed id = do
    current ← task_at v.state id
    if is_candidate current.status
        then (find_contract tasks id >>= λ t.
            failed_dependencies v.state t.dependencies >>= λ failed.
            escalate_if_any v changed id failed)
        else ok (v, changed)

  unfoldable pub propagate :
      Supervisor → Bool → List Text → Result OrchestrationError (Supervisor × Bool)
  unfolding propagate_task
  propagate v changed [] = ok (v, changed)
  propagate v changed (id ∷ ids) = propagate_task v changed id >>= λ (w, c). propagate w c ids

  -- `order` is `self.graph.task_ids`.
  unfoldable pub propagate_dependency_failures :
      Supervisor → List Text → Result OrchestrationError (Supervisor × Bool)
  unfolding propagate
  propagate_dependency_failures v order = propagate v false order
