-- ===== src/Orchestration/Task/Lifecycle.antt =====
-- orchestration/state.py: what one step of the lifecycle of a task may do.
use affective_belief_persist.Prelude.{ℕ, ◌≡◌, ◌⊎◌, true, arith, any, ok, >>-eq-ok}
use affective_belief_persist.Orchestration.Task.{
  TaskStatus, pending, ready, completed, cancelled, WorkflowTask, same_status,
  allowed_task_transitions, Change, check_transition, moved, transition,
}

-- The edge that `transition` took: one of the table, or the cancellation of an optional task.
abbrev pub Edge : WorkflowTask → TaskStatus → Type 0
Edge t target =
    (any (same_status target) (allowed_task_transitions t.status) ≡ true)
    ⊎ ((t.optional ≡ true) × (target ≡ cancelled) × ((t.status ≡ pending) ⊎ (t.status ≡ ready)))

check-Edge :
    (t : WorkflowTask) (target : TaskStatus) (c : Change)
    → check_transition t target c ≡ ok tt
    → Edge t target
unfolding check_transition
check-Edge t completed c h = ground arith
check-Edge t _ c h = ground arith

-- An accepted `transition` takes an edge of the table or cancels an optional PENDING or READY task;
-- the result has the target status, and its other static fields are those of the task.
pub transition-Edge :
    (t : WorkflowTask) (target : TaskStatus) (at : ℕ) (c : Change) {u : WorkflowTask}
    → transition t target at c ≡ ok u
    → Edge t target
      × (u.status ≡ target)
      × (u.task_id ≡ t.task_id)
      × (u.dependencies ≡ t.dependencies)
      × (u.optional_dependencies ≡ t.optional_dependencies)
      × (u.optional ≡ t.optional)
      × (u.max_attempts ≡ t.max_attempts)
unfolding transition moved
transition-Edge t target at c h =
    let (p, q) = >>-eq-ok (check_transition t target c) (ok (moved t target at c)) h in
    (check-Edge t target c p, cc q, cc q, cc q, cc q, cc q, cc q)
