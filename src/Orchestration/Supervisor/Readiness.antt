-- ===== src/Orchestration/Supervisor/Readiness.antt =====
-- orchestration/graph.py: which tasks of a state may be scheduled.
use affective_belief_persist.Prelude.{
  Bool, false, ◌&&◌, ◌||◌, none, some, List, [], ◌∷◌, any, all, map, if◌then◌else◌, Result, ok,
  ◌>>=◌, ◌>>◌, raise_if, Text,
}
use affective_belief_persist.Orchestration.Task.{
  TaskStatus, completed, cancelled, same_status, is_none,
}
use affective_belief_persist.Orchestration.Contracts.{TaskContract}
use affective_belief_persist.Orchestration.Graph.{all_dependencies, ids}
use affective_belief_persist.Orchestration.Validation.{sets_differ}
use affective_belief_persist.Orchestration.Workflow.{
  Tasks, find_task, WorkflowState, OrchestrationError, wrong_tasks, missing_state,
}
use affective_belief_persist.Orchestration.Supervisor.{task_at}
use affective_belief_persist.Orchestration.Supervisor.Propagation.{is_candidate, find_contract}

-- `validate_state`
unfoldable pub validate_state :
    List TaskContract → WorkflowState → Result OrchestrationError (Unit {0})
validate_state tasks s = raise_if (sets_differ (ids tasks) (map (λ q. q.0) s.tasks)) wrong_tasks

-- The state of a task satisfies the test; a task without state does not.
abbrev pub status_is : (TaskStatus → Bool) → Tasks → Text → Bool
status_is test states id = elim (find_task id states) [ none ↦ false | some t ↦ test t.status ]

abbrev pub is_completed : TaskStatus → Bool
is_completed = same_status completed

abbrev pub is_over : TaskStatus → Bool
is_over s = same_status completed s || same_status cancelled s

unfoldable pub dependencies_completed :
    List TaskContract → Text → Tasks → Result OrchestrationError Bool
dependencies_completed tasks id states = do
  c ← find_contract tasks id
  raise_if (any (λ d. is_none (find_task d states)) (all_dependencies c)) missing_state
  ok (
      all (status_is is_completed states) c.dependencies
      && all (status_is is_over states) c.optional_dependencies)

-- The generator of `ready_task_ids`.
unfoldable pub ready_among :
    List TaskContract → WorkflowState → List Text → Result OrchestrationError (List Text)
ready_among tasks s [] = ok []
ready_among tasks s (id ∷ rest) = do
  t ← task_at s id
  b ← (if is_candidate t.status then dependencies_completed tasks id s.tasks else ok false)
  later ← ready_among tasks s rest
  ok (if b then id ∷ later else later)

unfoldable pub ready_task_ids :
    List TaskContract → List Text → WorkflowState → Result OrchestrationError (List Text)
unfolding validate_state
ready_task_ids tasks order s = validate_state tasks s >> ready_among tasks s order
