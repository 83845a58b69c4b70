-- ===== src/Orchestration/Scheduling/Rounds.antt =====
-- orchestration/scheduler.py: `_mark_ready` and `_result_failure`, by the moves of the tasks.
use affective_belief_persist.Prelude.{
  ℕ, ◌+◌, ◌≡◌, refl, sym, ap, ◌∙◌, subst, inl, inr, Bool, true, false, ◌&&◌, &&-eq-true, none, some,
  List, [], ◌∷◌, ltb, Bool-cases, Result, ok, err, Text, codes, join_with, text_eq, text_eq_iff,
  >>=-eq-ok, ok_unique,
}
use affective_belief_persist.Orchestration.Task.{
  ready, retry, WorkflowTask, no_change, FailureCategory, validation_failure,
}
use affective_belief_persist.Orchestration.Task.Failing.{failure, is_waiting}
use affective_belief_persist.Orchestration.Contracts.{TaskContract}
use affective_belief_persist.Orchestration.Validation.{ResultValidation}
use affective_belief_persist.Orchestration.Workflow.{OrchestrationError}
use affective_belief_persist.Orchestration.Supervisor.{
  Supervisor, task_at, transition_task, block_and_escalate, result_failure,
}
use affective_belief_persist.Orchestration.Supervisor.Propagation.{find_contract}
use affective_belief_persist.Orchestration.Supervisor.Readiness.{ready_task_ids}
use affective_belief_persist.Orchestration.Supervisor.Marking.{mark_task, mark_tasks, mark_ready}
use affective_belief_persist.Orchestration.Scheduling.{supervised}
use affective_belief_persist.Orchestration.Scheduling.Moves.{stay, Moves-trans, attempts_of}
use affective_belief_persist.Orchestration.Scheduling.Passes.{
  Moved, transition_task-Moved, block_and_escalate-Moved,
}

abbrev pub one_if : Bool → ℕ
one_if true = 1
one_if false = 0

-- The contract of a task is the one declared under its identifier.
abbrev pub IsDeclared : List TaskContract → TaskContract → Type 0
IsDeclared tasks t = find_contract tasks t.task_id ≡ ok t

find_contract-named :
    (ts : List TaskContract) (id : Text) (t : TaskContract)
    → find_contract ts id ≡ ok t
    → t.task_id ≡ id
unfolding find_contract
find_contract-named [] id t h = absurd (cc h)
find_contract-named (u ∷ ts) id t h = elim (Bool-cases (text_eq u.task_id id)) [
  | inl eq ↦
      let this : find_contract (u ∷ ts) id ≡ ok u = rw (find_contract, eq) refl in
      let same : u ≡ t = ok_unique (find_contract (u ∷ ts) id) this h in
      sym (ap (λ (x : TaskContract). x.task_id) same) ∙ (text_eq_iff u.task_id id).0 eq
  | inr ne ↦
      let next : find_contract (u ∷ ts) id ≡ find_contract ts id = rw (find_contract, ne) refl in
      find_contract-named ts id t (sym next ∙ h)
]

pub find_contract-IsDeclared :
    (ts : List TaskContract) (id : Text) (t : TaskContract)
    → find_contract ts id ≡ ok t
    → IsDeclared ts t
find_contract-IsDeclared ts id t h =
    subst (λ j. find_contract ts j ≡ ok t) (sym (find_contract-named ts id t h)) h

pub supervised-ok :
    {A : Type 0} (r : Result OrchestrationError A) (a : A) → supervised r ≡ ok a → r ≡ ok a
supervised-ok (ok b) a h = ap ok (ok_unique (supervised (ok b)) refl h)
supervised-ok (err e) a h = cc

module _ (clock : ℕ → ℕ) (tasks : List TaskContract) where
  mark_task-Moved :
      (v w : Supervisor) (id : Text) → mark_task clock v id ≡ ok w → (n : ℕ) × Moved tasks v n w
  unfolding mark_task
  mark_task-Moved v w id h =
      let (t, at, h₁) = >>=-eq-ok (task_at v.state id) _ h in
      elim (Bool-cases (is_waiting t.status)) [
        | inl waits ↦
            let go : transition_task clock v id ready no_change ≡ ok w = sym (rw waits refl) ∙ h₁ in
            (
              1,
              transition_task-Moved clock tasks v w id ready no_change go (λ u at'.
                  subst (λ (x : WorkflowTask). is_waiting x.status ≡ true)
                    (ok_unique (task_at v.state id) at at') waits),
            )
        | inr other ↦
            let same : ok v ≡ ok w = sym (rw other refl) ∙ h₁ in
            (0, subst (λ (x : Supervisor). Moved tasks v 0 x) (ok_unique _ refl same) stay)
      ]

  mark_tasks-Moved :
      (v w : Supervisor) (ids : List Text)
      → mark_tasks clock v ids ≡ ok w
      → (n : ℕ) × Moved tasks v n w
  unfolding mark_tasks
  mark_tasks-Moved v w [] h =
      (0, subst (λ (x : Supervisor). Moved tasks v 0 x) (ok_unique (ok v) refl h) stay)
  mark_tasks-Moved v w (id ∷ ids) h =
      let (u, first_call, h₁) = >>=-eq-ok (mark_task clock v id) _ h in
      let (m, g) = mark_task-Moved v u id first_call in
      let (n, k) = mark_tasks-Moved u w ids h₁ in (m + n, Moves-trans tasks g k)

  pub mark_ready-Moved :
      (v w : Supervisor) (order : List Text)
      → mark_ready clock tasks order v ≡ ok w
      → (n : ℕ) × Moved tasks v n w
  unfolding mark_ready
  mark_ready-Moved v w order h =
      let (ids, listed, h₁) = >>=-eq-ok (ready_task_ids tasks order v.state) _ h in
      mark_tasks-Moved v w ids h₁

  -- `_result_failure` retries only while the contract allows another attempt.
  pub result_failure-Moved :
      (v w : Supervisor) (t : TaskContract) (validation : ResultValidation)
      → IsDeclared tasks t
      → result_failure clock v t validation ≡ ok w
      → (n : ℕ) × Moved tasks v n w
  unfolding result_failure
  result_failure-Moved v w t validation declared h =
      let error = join_with (codes "; ") validation.failures in
      let category : FailureCategory = elim validation.failure_category [
        | none ↦ validation_failure
        | some c ↦ c
      ] in
      let (u, at, h₁) = >>=-eq-ok (task_at v.state t.task_id) _ h in
      elim (Bool-cases (validation.retryable && ltb u.attempt_count t.budget.max_attempts)) [
        | inl again ↦
            let go : transition_task clock v t.task_id retry (failure none error category) ≡ ok w =
              sym (rw again refl) ∙ h₁ in
            let limit : attempts_of tasks t.task_id ≡ t.budget.max_attempts =
              rw (attempts_of, declared) refl in
            let left = (&&-eq-true validation.retryable _ again).1 in
            (
              1,
              transition_task-Moved clock tasks v w t.task_id retry (failure none error category) go
                  (λ x at'.
                    subst
                      (λ (y : WorkflowTask).
                        ltb y.attempt_count (attempts_of tasks t.task_id) ≡ true)
                      (ok_unique (task_at v.state t.task_id) at at') (rw limit left)),
            )
        | inr over ↦
            let go : block_and_escalate clock v t.task_id error category ≡ ok w =
              sym (rw over refl) ∙ h₁ in
            (2, block_and_escalate-Moved clock tasks v w t.task_id error category go)
      ]
