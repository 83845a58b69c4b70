-- ===== src/Orchestration/Supervisor/Failures.antt =====
-- `_block_and_escalate` and `_result_failure` on an audited supervisor.
use affective_belief_persist.Prelude.{
  ℕ, ◌+◌, ◌≤◌, ◌≡◌, refl, sym, ◌∙◌, subst, true, false, ◌&&◌, Option, none, some, [], ◌∷◌, ◌++◌,
  ltb, if◌then◌else◌, Bool-cases, inl, inr, ok, Text, codes, arith, null, join_with,
}
use affective_belief_persist.Orchestration.Task.{
  TaskStatus, retry, validating, blocked, escalated, WorkflowTask, FailureCategory,
}
use affective_belief_persist.Orchestration.Task.Failing.{
  failure, follows, is_failure_target, transition-failure,
}
use affective_belief_persist.Orchestration.Contracts.{TaskContract}
use affective_belief_persist.Orchestration.Validation.{ResultValidation}
use affective_belief_persist.Orchestration.Workflow.{find_task}
use affective_belief_persist.Orchestration.Supervisor.{
  Supervisor, transition_task, block_and_escalate, result_failure,
}
use affective_belief_persist.Orchestration.Supervisor.Steps.{
  IsAudited, IsMoved, transition_task_lem,
}

-- `w` is `v` with the task `id` in the status `target` for the reason given.
pub record IsFailed (clock : ℕ → ℕ) (v : Supervisor) (id : Text) (target : TaskStatus)
    (error : Text) (category : FailureCategory) (w : Supervisor) : Type 0 where
  pub task : WorkflowTask
  pub moved_to : IsMoved clock v id task w
  pub status : task.status ≡ target
  pub reason : task.last_error ≡ some error
  pub category_kept : task.failure_category ≡ some category

-- The target of `_result_failure`: RETRY while the validation allows it and attempts are left.
abbrev pub failed_status : WorkflowTask → TaskContract → ResultValidation → TaskStatus
failed_status t contract validation =
    if validation.retryable && ltb t.attempt_count contract.budget.max_attempts
    then retry
    else escalated

module _ (clock : ℕ → ℕ) (monotone : (n : ℕ) → clock n ≤ clock (n + 1)) where
  transition_task-failure :
      (v : Supervisor) (id : Text) (t : WorkflowTask) (target : TaskStatus) (b : Option Text)
      (error : Text) (category : FailureCategory)
      → IsAudited clock v
      → null error ≡ false
      → find_task id v.state.tasks ≡ some t
      → is_failure_target target ≡ true
      → follows t.status target ≡ true
      → (w : Supervisor) × (transition_task clock v id target (failure b error category) ≡ ok w)
        × IsFailed clock v id target error category w
  transition_task-failure v id t target b error category a e f g h =
      let (u, moves, status, _, reason, kept) =
        transition-failure t target (clock v.readings) b error category g h in
      elim (transition_task_lem clock monotone v id t target (failure b error category) a e f) [
        | inl (raised, p, q) ↦ cc (moves, p)
        | inr (u', w, p, q, m) ↦
            let same : u ≡ u' = cc (moves, p) in
            (
              w,
              q,
              record {
                task = u';
                moved_to = m;
                status = cc (same, status);
                reason = cc (same, reason);
                category_kept = cc (same, kept);
              },
            )
      ]

  noting_blocker : Supervisor → Text → Text → Supervisor
  noting_blocker v id error = record v {
    state = record v.state { blockers = v.state.blockers ++ (id ++ codes ": " ++ error) ∷ [] };
  }

  noting_blocker-IsAudited :
      (v : Supervisor) (id error : Text)
      → IsAudited clock v
      → IsAudited clock (noting_blocker v id error)
  unfolding noting_blocker
  noting_blocker-IsAudited v id error a = record {
    recording = record {
      history = a.recording.history;
      owned = a.recording.owned;
      named = a.recording.named;
      timely = a.recording.timely;
    };
    explained = a.explained;
  }

  -- `_block_and_escalate` on an audited supervisor never raises for a task whose status may become
  -- BLOCKED: the task is ESCALATED with the error and the category, the others are left alone, and
  -- the log still explains every status.
  pub block_and_escalate_lem :
      (v : Supervisor) (id : Text) (t : WorkflowTask) (error : Text) (category : FailureCategory)
      → IsAudited clock v
      → null error ≡ false
      → find_task id v.state.tasks ≡ some t
      → follows t.status blocked ≡ true
      → (w : Supervisor) × (block_and_escalate clock v id error category ≡ ok w)
        × IsFailed clock v id escalated error category w
  unfolding block_and_escalate noting_blocker
  block_and_escalate_lem v id t error category a e f g =
      let (b, p, m) =
        transition_task-failure v id t blocked (some error) error category a e f refl g in
      let (w, q, n) =
        transition_task-failure b id m.task escalated none error category m.moved_to.audited e
          m.moved_to.found refl (rw m.status refl) in
      (
        noting_blocker w id error,
        rw (p, q) refl,
        record {
          task = n.task;
          moved_to = record {
            found = n.moved_to.found;
            others = λ j ne. n.moved_to.others j ne ∙ m.moved_to.others j ne;
            audited = noting_blocker-IsAudited w id error n.moved_to.audited;
          };
          status = n.status;
          reason = n.reason;
          category_kept = n.category_kept;
        },
      )

  result_failure-eq :
      (v : Supervisor) (t : WorkflowTask) (contract : TaskContract) (validation : ResultValidation)
      (category : FailureCategory)
      → validation.failure_category ≡ some category
      → find_task contract.task_id v.state.tasks ≡ some t
      → result_failure clock v contract validation ≡ (
          if validation.retryable && ltb t.attempt_count contract.budget.max_attempts
          then transition_task clock v contract.task_id retry
              (failure none (join_with (codes "; ") validation.failures) category)
          else block_and_escalate clock v contract.task_id
              (join_with (codes "; ") validation.failures)
              category)
  unfolding result_failure
  result_failure-eq v t contract validation category k f = ground arith

  -- `_result_failure` of a VALIDATING task never raises, given some failure: the task goes to RETRY
  -- exactly when a retry is allowed and attempts are left, and is ESCALATED otherwise.
  pub result_failure_lem :
      (v : Supervisor) (t : WorkflowTask) (contract : TaskContract) (validation : ResultValidation)
      (category : FailureCategory)
      → IsAudited clock v
      → null (join_with (codes "; ") validation.failures) ≡ false
      → validation.failure_category ≡ some category
      → find_task contract.task_id v.state.tasks ≡ some t
      → t.status ≡ validating
      → (w : Supervisor) × (result_failure clock v contract validation ≡ ok w)
        × IsFailed clock v contract.task_id
            (failed_status t contract validation)
            (join_with (codes "; ") validation.failures)
            category
            w
  result_failure_lem v t contract validation category a e k f s =
      let again = validation.retryable && ltb t.attempt_count contract.budget.max_attempts in
      let error = join_with (codes "; ") validation.failures in
      elim (Bool-cases again) [
        | inl yes_again ↦
            let (w, q, m) =
              transition_task-failure v contract.task_id t retry none error category a e f refl
                (rw s refl) in
            let is : failed_status t contract validation ≡ retry = rw yes_again refl in
            (
              w,
              result_failure-eq v t contract validation category k f ∙ rw yes_again q,
              subst (λ s. IsFailed clock v contract.task_id s error category w) (sym is) m,
            )
        | inr no_more ↦
            let (w, q, m) =
              block_and_escalate_lem v contract.task_id t error category a e f (rw s refl) in
            let is : failed_status t contract validation ≡ escalated = rw no_more refl in
            (
              w,
              result_failure-eq v t contract validation category k f ∙ rw no_more q,
              subst (λ s. IsFailed clock v contract.task_id s error category w) (sym is) m,
            )
      ]
