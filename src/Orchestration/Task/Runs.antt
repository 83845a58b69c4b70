-- ===== src/Orchestration/Task/Runs.antt =====
-- Runs of a task: any sequence of accepted `transition` and `recover_to_ready` calls.
use affective_belief_persist.Prelude.{
  ℕ, ◌+◌, ◌≤◌, ◌≡◌, refl, subst, Bool, not, ◌&&◌, true, false, Text, arith, ok, >>-eq-ok,
}
use affective_belief_persist.Orchestration.Task.{
  TaskStatus, running, validating, completed, cancelled, WorkflowTask, same_status, is_none,
  is_active, Change, check_transition, moved, transition, recover_to_ready,
}
use affective_belief_persist.Orchestration.Task.Lifecycle.{transition-Edge}

pub data Step : WorkflowTask → WorkflowTask → Type 0 where
  move :
      {t u : WorkflowTask} (target : TaskStatus) (at : ℕ) (c : Change)
      → transition t target at c ≡ ok u
      → Step t u
  recover :
      {t u : WorkflowTask} (at : ℕ) (reason : Text) → recover_to_ready t at reason ≡ ok u → Step t u

pub data Reach (t : WorkflowTask) : WorkflowTask → Type 0 where
  here : Reach t t
  next : {u v : WorkflowTask} → Reach t u → Step u v → Reach t v

abbrev pub is_final : TaskStatus → Bool
is_final completed = true
is_final cancelled = true
is_final _ = false

final_move :
    (t : WorkflowTask) (target : TaskStatus) (at : ℕ) (c : Change) {u : WorkflowTask}
    → is_final t.status ≡ true
    → transition t target at c ≡ ok u
    → ⊥
final_move t target at c f h =
    let (edge, _, _, _, _, _, _) = transition-Edge t target at c h in ground arith

final_Step : {t u : WorkflowTask} → is_final t.status ≡ true → Step t u → ⊥
unfolding recover_to_ready
final_Step {t} f (move target at c h) = final_move t target at c f h
final_Step {t} f (recover at reason h) = ground arith

-- COMPLETED and CANCELLED are final: whatever is called afterwards, the task stays as it is.
pub Reach-final : {t u : WorkflowTask} → is_final t.status ≡ true → Reach t u → t ≡ u
Reach-final f here = refl
Reach-final {t} f (next {u} r s) =
    let same = Reach-final f r in
    absurd (final_Step (subst (λ w. is_final w.status ≡ true) same f) s)

-- An attempt that has started and that no retry has ended.
abbrev pub in_attempt : TaskStatus → ℕ
in_attempt running = 1
in_attempt validating = 1
in_attempt completed = 1
in_attempt _ = 0

-- What holds of a task whatever the callers pass.
pub record IsSound (t : WorkflowTask) : Type 0 where
  pub counted : t.retry_count + in_attempt t.status ≤ t.attempt_count
  pub held : is_none t.lease ≡ not (is_active t.status)
  pub timed : is_none t.completed_at ≡ not (same_status t.status completed)
  pub reported : (not (is_none t.failure_category) && is_none t.last_error) ≡ false
  pub cancel_reason : (same_status t.status cancelled && is_none t.no_artifact_reason) ≡ false

moved-IsSound :
    (t : WorkflowTask) (target : TaskStatus) (at : ℕ) (c : Change)
    → check_transition t target c ≡ ok tt
    → IsSound t
    → IsSound (moved t target at c)
unfolding check_transition moved
moved-IsSound t completed at c h k = ground arith
moved-IsSound t _ at c h k = ground arith

Step-IsSound : {t u : WorkflowTask} → Step t u → IsSound t → IsSound u
unfolding recover_to_ready transition
Step-IsSound (move {t} target at c h) k =
    let (p, q) = >>-eq-ok (check_transition t target c) (ok (moved t target at c)) h in
    let e : moved t target at c ≡ _ = cc q in subst IsSound e (moved-IsSound t target at c p k)
Step-IsSound (recover at reason h) k = ground arith

-- Whatever is called in whatever order, a sound task stays sound: it has a lease exactly while it
-- is LEASED, RUNNING or VALIDATING and `completed_at` exactly when COMPLETED, a failure category
-- comes with an error, a cancelled task has a reason, and each retry ended an attempt of its own,
-- so that a completed task ran at least once more than it was retried.
pub Reach-IsSound : {t u : WorkflowTask} → IsSound t → Reach t u → IsSound u
Reach-IsSound k here = k
Reach-IsSound k (next r s) = Step-IsSound s (Reach-IsSound k r)
