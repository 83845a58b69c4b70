-- ===== src/Orchestration/Scheduling/Passes.antt =====
-- The operations of a pass as moves of the tasks.
use affective_belief_persist.Prelude.{
  ℕ, ◌+◌, ◌≡◌, refl, sym, ap, ◌∙◌, subst, inl, inr, true, Option-cases, none, some, List, Result,
  ok, err, Text, >>=-eq-ok, >>-eq-ok, ok_unique, raise_if,
}
use affective_belief_persist.Orchestration.Task.{
  TaskStatus, blocked, escalated, WorkflowTask, Change, transition, FailureCategory,
  InvalidTaskTransition,
}
use affective_belief_persist.Orchestration.Task.Failing.{failure}
use affective_belief_persist.Orchestration.Task.Progress.{move_ok}
use affective_belief_persist.Orchestration.Contracts.{TaskContract}
use affective_belief_persist.Orchestration.Events.{
  validate_transition_payload, WorkflowEvent, append,
}
use affective_belief_persist.Orchestration.Workflow.{
  Tasks, find_task, put_task, WorkflowState, unknown_task, empty_message, replace_task,
  event_outcome, append_event,
}
use affective_belief_persist.Orchestration.Supervisor.{
  Supervisor, EventDetails, is_empty_text, new_event, record_event, task_at, task_outcome,
  transition_details, transition_task, block_and_escalate,
}
use affective_belief_persist.Orchestration.Scheduling.Moves.{
  Moves, stay, move, Moves-trans, attempts_of,
}

-- The tasks of a supervisor.
abbrev pub tasks_in : Supervisor → Tasks
tasks_in v = v.state.tasks

-- The call of the supervisor made so many moves.
abbrev pub Moved : List TaskContract → Supervisor → ℕ → Supervisor → Type 0
Moved tasks v n w = Moves tasks v.state.tasks n w.state.tasks

append_event-tasks :
    (s t : WorkflowState) (e : WorkflowEvent) → append_event s e ≡ ok t → t.tasks ≡ s.tasks
unfolding append_event
append_event-tasks s t e h =
    let (log, appended, h₁) = >>=-eq-ok (event_outcome (append s.event_log e)) _ h in
    sym (ap (λ (x : WorkflowState). x.tasks) (ok_unique (ok _) refl h₁))

replace_task-tasks :
    (s t : WorkflowState) (u : WorkflowTask)
    → replace_task s u ≡ ok t
    → t.tasks ≡ put_task u.task_id u s.tasks
unfolding replace_task
replace_task-tasks s t u h = elim (Option-cases (find_task u.task_id s.tasks)) [
  | inl unknown ↦
      let raised : replace_task s u ≡ err (unknown_task u.task_id) =
        rw (replace_task, unknown) refl in
      absurd (cc (raised, h))
  | inr (old, found) ↦
      let stored : replace_task s u
          ≡ ok (record s {
            tasks = put_task u.task_id u s.tasks;
            revision = s.revision + 1;
            updated_at = u.updated_at;
          }) =
        rw (replace_task, found) refl in
      sym (ap (λ (x : WorkflowState). x.tasks) (ok_unique (replace_task s u) stored h))
]

task_outcome-ok :
    {A : Type 0} (r : Result InvalidTaskTransition A) (a : A) → task_outcome r ≡ ok a → r ≡ ok a
task_outcome-ok (ok b) a h = ap ok (ok_unique (task_outcome (ok b)) refl h)
task_outcome-ok (err e) a h = cc

pub task_at-found :
    (s : WorkflowState) (id : Text) (t : WorkflowTask)
    → task_at s id ≡ ok t
    → find_task id s.tasks ≡ some t
task_at-found s id t h = elim (Option-cases (find_task id s.tasks)) [
  | inl unknown ↦
      let raised : task_at s id ≡ err (unknown_task id) = rw (unknown, task_at) refl in
      absurd (cc (raised, h))
  | inr (u, found) ↦
      let at : task_at s id ≡ ok u = rw (found, task_at) refl in
      found ∙ ap some (ok_unique (task_at s id) at h)
]

module _ (clock : ℕ → ℕ) where
  pub record_event-tasks :
      (v w : Supervisor) (d : EventDetails)
      → record_event clock v d ≡ ok w
      → w.state.tasks ≡ v.state.tasks
  unfolding record_event
  record_event-tasks v w d h =
      let e = new_event clock v.state v.readings d in
      let (p, h₁) = >>-eq-ok (raise_if (is_empty_text d.message) empty_message) _ h in
      let (q, h₂) = >>-eq-ok (event_outcome (validate_transition_payload e)) _ h₁ in
      let (s, appended, h₃) = >>=-eq-ok (append_event v.state e) _ h₂ in
      sym (
        ap (λ (x : Supervisor). x.state.tasks)
          (ok_unique (ok (record { state = s; readings = v.readings + 1 })) refl h₃))
      ∙ append_event-tasks v.state s e appended

  module _ (tasks : List TaskContract) where
    -- A transition that the supervisor makes is one move.
    pub transition_task-Moved :
        (v w : Supervisor) (id : Text) (target : TaskStatus) (c : Change)
        → transition_task clock v id target c ≡ ok w
        → ((t : WorkflowTask)
            → task_at v.state id ≡ ok t
            → move_ok (attempts_of tasks id) t.attempt_count t.status target ≡ true)
        → Moved tasks v 1 w
    unfolding transition_task
    transition_task-Moved v w id target c h allowed =
        let (t, at, h₁) = >>=-eq-ok (task_at v.state id) _ h in
        let (u, outcome, h₂) =
          >>=-eq-ok (task_outcome (transition t target (clock v.readings) c)) _ h₁ in
        let (s, replaced, h₃) = >>=-eq-ok (replace_task v.state u) _ h₂ in
        let after =
          record_event-tasks (record { state = s; readings = v.readings + 1 }) w
            (transition_details id t.status target c) h₃ in
        subst (λ T. Moves tasks v.state.tasks 1 T)
          (sym (after ∙ replace_task-tasks v.state s u replaced))
          (move stay id target (clock v.readings) c t u (task_at-found v.state id t at)
            (task_outcome-ok (transition t target (clock v.readings) c) u outcome) (allowed t at))

    pub block_and_escalate-Moved :
        (v w : Supervisor) (id error : Text) (category : FailureCategory)
        → block_and_escalate clock v id error category ≡ ok w
        → Moved tasks v 2 w
    unfolding block_and_escalate
    block_and_escalate-Moved v w id error category h =
        let c = failure (some error) error category in
        let d = failure none error category in
        let (b, first_step, h₁) = >>=-eq-ok (transition_task clock v id blocked c) _ h in
        let (e, second_step, h₂) = >>=-eq-ok (transition_task clock b id escalated d) _ h₁ in
        let moved_twice =
          Moves-trans tasks (transition_task-Moved v b id blocked c first_step (λ t at. refl))
            (transition_task-Moved b e id escalated d second_step (λ t at. refl)) in
        subst (λ (x : Supervisor). Moved tasks v 2 x) (ok_unique (ok _) refl h₂) moved_twice
