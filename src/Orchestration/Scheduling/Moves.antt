-- ===== src/Orchestration/Scheduling/Moves.antt =====
-- What a pass of the supervisor's loop does to the tasks: a number of moves, each a `transition`
-- that the supervisor makes.
use affective_belief_persist.Prelude.{
  ℕ, ◌+◌, ◌≤◌, ◌<◌, ◌≡◌, refl, sym, ap, ◌∙◌, subst, inl, inr, true, ◌⊎◌, some, some_unique, List,
  [], ◌∷◌, Bool-cases, ok, err, Text, text_eq, text_eq_iff, arith,
}
use affective_belief_persist.Orchestration.Task.{TaskStatus, WorkflowTask, Change, transition}
use affective_belief_persist.Orchestration.Task.Progress.{
  move_ok, weight, within_attempts, transition-weight, transition-within,
}
use affective_belief_persist.Orchestration.Task.Lifecycle.{transition-Edge}
use affective_belief_persist.Orchestration.Contracts.{TaskContract}
use affective_belief_persist.Orchestration.Workflow.{Tasks, find_task, put_task}
use affective_belief_persist.Orchestration.Supervisor.Propagation.{find_contract}
use affective_belief_persist.Orchestration.Supervisor.Steps.{find_task-put_task}

-- How many attempts the contract of a task allows.
abbrev pub attempts_of : List TaskContract → Text → ℕ
attempts_of tasks id = elim (find_contract tasks id) [ ok t ↦ t.budget.max_attempts | err e ↦ 0 ]

-- So many moves lead from the one states of the tasks to the other.
pub data Moves (tasks : List TaskContract) (S : Tasks) : ℕ → Tasks → Type 0 where
  stay : Moves tasks S 0 S
  move :
      {n : ℕ} {T : Tasks}
      → Moves tasks S n T
      → (id : Text) (target : TaskStatus) (at : ℕ) (c : Change) (t u : WorkflowTask)
      → find_task id T ≡ some t
      → transition t target at c ≡ ok u
      → move_ok (attempts_of tasks id) t.attempt_count t.status target ≡ true
      → Moves tasks S (n + 1) (put_task u.task_id u T)

pub Moves-trans :
    (tasks : List TaskContract) {S T U : Tasks} {m n : ℕ}
    → Moves tasks S m T
    → Moves tasks T n U
    → Moves tasks S (m + n) U
Moves-trans tasks {S} {T} {U} {m} g stay = subst (λ k. Moves tasks S k T) (omega arith) g
Moves-trans tasks {S} {T} {U} {m} g (move {n = n} h id target at c t u f e k) =
    subst (λ k. Moves tasks S k U) (omega arith)
      (move (Moves-trans tasks g h) id target at c t u f e k)

-- Every task is filed under its identifier.
abbrev pub IsFiled : Tasks → Type 0
IsFiled S = (id : Text) (t : WorkflowTask) → find_task id S ≡ some t → t.task_id ≡ id

-- The weights of all tasks.
unfoldable pub total_weight : List TaskContract → Tasks → ℕ
total_weight tasks [] = 0
total_weight tasks ((id, t) ∷ rest) =
    weight (attempts_of tasks id) t.attempt_count t.status + total_weight tasks rest

total_weight-put_task :
    (tasks : List TaskContract) (id : Text) (t u : WorkflowTask) (S : Tasks)
    → find_task id S ≡ some t
    → weight (attempts_of tasks id) u.attempt_count u.status
      < weight (attempts_of tasks id) t.attempt_count t.status
    → total_weight tasks (put_task id u S) < total_weight tasks S
unfolding total_weight put_task
total_weight-put_task tasks id t u [] f less = absurd (cc f)
total_weight-put_task tasks id t u ((k, x) ∷ rest) f less = elim (Bool-cases (text_eq k id)) [
  | inl eq ↦
      let same : x ≡ t = some_unique (find_task id ((k, x) ∷ rest)) (rw eq refl) f in
      let less' : weight (attempts_of tasks k) u.attempt_count u.status
          < weight (attempts_of tasks k) x.attempt_count x.status =
        subst
          (λ (y : WorkflowTask).
            weight (attempts_of tasks k) u.attempt_count u.status
            < weight (attempts_of tasks k) y.attempt_count y.status)
          (sym same)
          (subst
            (λ j.
              weight (attempts_of tasks j) u.attempt_count u.status
              < weight (attempts_of tasks j) t.attempt_count t.status)
            (sym ((text_eq_iff k id).0 eq)) less) in
      rw eq (omega (arith, less'))
  | inr ne ↦
      rw ne (omega (arith, total_weight-put_task tasks id t u rest (sym (rw ne refl) ∙ f) less))
]

put_task-find :
    (u : WorkflowTask) (S : Tasks) (id : Text) (t : WorkflowTask)
    → find_task id (put_task u.task_id u S) ≡ some t
    → ((u.task_id ≡ id) × (u ≡ t)) ⊎ (find_task id S ≡ some t)
put_task-find u S id t f = elim (Bool-cases (text_eq u.task_id id)) [
  | inl eq ↦
      let there_now : find_task id (put_task u.task_id u S) ≡ some u =
        find_task-put_task id u.task_id u S ∙ rw eq refl in
      inl ((text_eq_iff u.task_id id).0 eq, some_unique _ there_now f)
  | inr ne ↦
      let as_before : find_task id (put_task u.task_id u S) ≡ find_task id S =
        find_task-put_task id u.task_id u S ∙ rw ne refl in
      inr (sym as_before ∙ f)
]

-- Attempts are within what the contracts allow.
abbrev pub IsWithin : List TaskContract → Tasks → Type 0
IsWithin tasks S =
    (id : Text) (t : WorkflowTask)
    → find_task id S ≡ some t
    → within_attempts (attempts_of tasks id) t.attempt_count t.status ≡ true

module _ (tasks : List TaskContract) where
  pub Moves-IsFiled : {S T : Tasks} {n : ℕ} → Moves tasks S n T → IsFiled S → IsFiled T
  Moves-IsFiled stay k j x h = k j x h
  Moves-IsFiled (move {T = T} g id target at c t u f e ok_move) k j x h =
      elim (put_task-find u T j x h) [
        | inl (named, same) ↦ sym (ap (λ (y : WorkflowTask). y.task_id) same) ∙ named
        | inr before ↦ Moves-IsFiled g k j x before
      ]

  task_id-move :
      (T : Tasks) (id : Text) (target : TaskStatus) (at : ℕ) (c : Change) (t u : WorkflowTask)
      → IsFiled T
      → find_task id T ≡ some t
      → transition t target at c ≡ ok u
      → u.task_id ≡ id
  task_id-move T id target at c t u k f e =
      let (_, _, same, _, _, _, _) = transition-Edge t target at c e in same ∙ k id t f

  -- Each move lowers the weight.
  pub Moves-weight :
      {S T : Tasks} {n : ℕ}
      → Moves tasks S n T
      → IsFiled S
      → total_weight tasks T + n ≤ total_weight tasks S
  Moves-weight stay k = omega arith
  Moves-weight {S} (move {n = n} {T = T} g id target at c t u f e ok_move) k =
      let named = task_id-move T id target at c t u (Moves-IsFiled g k) f e in
      let less = transition-weight (attempts_of tasks id) t target at c u e ok_move in
      let fewer : total_weight tasks (put_task u.task_id u T) < total_weight tasks T =
        subst (λ j. total_weight tasks (put_task j u T) < total_weight tasks T) (sym named)
          (total_weight-put_task tasks id t u T f less) in
      omega (arith, fewer, Moves-weight g k)

  pub Moves-IsWithin :
      {S T : Tasks} {n : ℕ} → Moves tasks S n T → IsFiled S → IsWithin tasks S → IsWithin tasks T
  Moves-IsWithin stay k w j x h = w j x h
  Moves-IsWithin (move {T = T} g id target at c t u f e ok_move) k w j x h =
      elim (put_task-find u T j x h) [
        | inl (named, same) ↦
            let own = task_id-move T id target at c t u (Moves-IsFiled g k) f e in
            let within =
              transition-within (attempts_of tasks id) t target at c u e ok_move
                (Moves-IsWithin g k w id t f) in
            subst
              (λ (y : WorkflowTask).
                within_attempts (attempts_of tasks j) y.attempt_count y.status ≡ true)
              same
              (subst (λ i. within_attempts (attempts_of tasks i) u.attempt_count u.status ≡ true)
                (sym own ∙ named) within)
        | inr before ↦ Moves-IsWithin g k w j x before
      ]
