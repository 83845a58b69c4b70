-- ===== src/Orchestration/Supervisor/Steps.antt =====
-- `_transition` of the supervisor: the task's own transition, recorded.
use affective_belief_persist.Prelude.{
  ℕ, ◌+◌, ◌≤◌, ◌≡◌, refl, sym, ◌∙◌, subst, true, false, ◌⊎◌, Option, none, some, [], ◌∷◌,
  if◌then◌else◌, Bool-cases, inl, inr, Result-cases, ok, err, Text, text_eq, text_eq_iff,
  text_eq_refl, arith,
}
use affective_belief_persist.Orchestration.Task.{
  TaskStatus, pending, same_status, WorkflowTask, Change, InvalidTaskTransition, transition,
}
use affective_belief_persist.Orchestration.Task.Lifecycle.{transition-Edge}
use affective_belief_persist.Orchestration.Events.{precedes}
use affective_belief_persist.Orchestration.Workflow.{
  Tasks, find_task, put_task, task_error, replace_task,
}
use affective_belief_persist.Orchestration.Supervisor.{
  Supervisor, is_empty_text, transition_details, new_event, transition_task,
}
use affective_belief_persist.Orchestration.Supervisor.Audit.{step_status, replay, replay-snoc}
use affective_belief_persist.Orchestration.Supervisor.Recording.{
  IsRecorded, IsProper, recorded, record_event_lem, recorded-IsRecorded,
}

other_key : (k j id : Text) → text_eq k id ≡ false → text_eq k j ≡ true → text_eq id j ≡ false
other_key k j id ne h = elim (Bool-cases (text_eq id j)) [
  | inl eq ↦
      let same : k ≡ id = (text_eq_iff k j).0 h ∙ sym ((text_eq_iff id j).0 eq) in
      absurd (cc ((text_eq_iff k id).1 same, ne))
  | inr other ↦ other
]

pub find_task-put_task :
    (j id : Text) (t : WorkflowTask) (tasks : Tasks)
    → find_task j (put_task id t tasks) ≡ (if text_eq id j then some t else find_task j tasks)
unfolding put_task
find_task-put_task j id t [] = refl
find_task-put_task j id t ((k, u) ∷ r) =
    let rest = find_task-put_task j id t r in
    let same = (text_eq_iff k id).0 in
    elim (Bool-cases (text_eq k id)) [
      | inl eq ↦ rw eq (ground (arith, same eq))
      | inr ne ↦ rw ne (ground (arith, rest, other_key k j id ne))
    ]

pub same_status_refl : (s : TaskStatus) → same_status s s ≡ true
same_status_refl s = ground arith

-- Each task is filed under its identifier, and the log leads from PENDING to its status, every
-- recorded transition starting where the one before it ended.
pub record IsAudited (clock : ℕ → ℕ) (v : Supervisor) : Type 0 where
  pub recording : IsRecorded clock v
  pub explained :
      (id : Text) (t : WorkflowTask)
      → find_task id v.state.tasks ≡ some t
      → (t.task_id ≡ id) × (replay id (some pending) v.state.event_log.events ≡ some t.status)

-- `w` is `v` with the task `id` moved to `u`, and is audited.
pub record IsMoved (clock : ℕ → ℕ) (v : Supervisor) (id : Text) (u : WorkflowTask) (w : Supervisor)
    : Type 0 where
  pub found : find_task id w.state.tasks ≡ some u
  pub others :
      (j : Text) → text_eq id j ≡ false → find_task j w.state.tasks ≡ find_task j v.state.tasks
  pub audited : IsAudited clock w

module _ (clock : ℕ → ℕ) (monotone : (n : ℕ) → clock n ≤ clock (n + 1)) where
  later_reading :
      (m n : ℕ) (last : Option ℕ) → m ≤ n → precedes m last ≡ false → precedes n last ≡ false
  later_reading m n none h p = refl
  later_reading m n (some t) h p = ground arith

  replaced : Supervisor → WorkflowTask → Supervisor
  replaced v u = record {
    state = record v.state {
      tasks = put_task u.task_id u v.state.tasks;
      revision = v.state.revision + 1;
      updated_at = u.updated_at;
    };
    readings = v.readings + 1;
  }

  replaced-IsRecorded :
      (v : Supervisor) (u : WorkflowTask) → IsRecorded clock v → IsRecorded clock (replaced v u)
  unfolding replaced
  replaced-IsRecorded v u r = record {
    history = r.history;
    owned = r.owned;
    named = r.named;
    timely = later_reading _ _ _ (monotone v.readings) r.timely;
  }

  details-IsProper :
      (id : Text) (old target : TaskStatus) (c : Change)
      → is_empty_text c.error ≡ false
      → IsProper (transition_details id old target c)
  details-IsProper id old target c h =
      elim c.error
          as (λ x.
            is_empty_text x ≡ false
            → IsProper (transition_details id old target (record c { error = x }))) [
              | none ↦ λ h'. (refl, refl, refl, refl)
              | some e ↦ λ h'. (h', refl, refl, refl)
            ]
        h

  -- The supervisor after the step from `t` to `u`.
  advanced : Supervisor → Text → WorkflowTask → WorkflowTask → TaskStatus → Change → Supervisor
  unfolding replaced
  advanced v id t u target c =
      recorded clock (replaced v u) (transition_details id t.status target c)

  transition_task-eq-advanced :
      (v : Supervisor) (id : Text) (t u : WorkflowTask) (target : TaskStatus) (c : Change)
      → IsAudited clock v
      → is_empty_text c.error ≡ false
      → find_task id v.state.tasks ≡ some t
      → u.task_id ≡ id
      → transition t target (clock v.readings) c ≡ ok u
      → transition_task clock v id target c ≡ ok (advanced v id t u target c)
  unfolding transition_task advanced replaced replace_task
  transition_task-eq-advanced v id t u target c a e f same h =
      let done =
        record_event_lem clock (replaced v u) (transition_details id t.status target c)
          (replaced-IsRecorded v u a.recording) (details-IsProper id t.status target c e) in
      let again : find_task u.task_id v.state.tasks ≡ some t = rw same f in ground arith

  step_status-advanced :
      (v : Supervisor) (id j : Text) (t u : WorkflowTask) (target : TaskStatus) (c : Change)
      (s : Option TaskStatus)
      → step_status j
          (new_event clock
            (replaced v u).state
            (replaced v u).readings
            (transition_details id t.status target c))
          s
        ≡ (if text_eq id j
            then elim s [
              | none ↦ none
              | some p ↦ if same_status t.status p then some target else none
            ]
            else s)
  unfolding new_event
  step_status-advanced v id j t u target c none = ground arith
  step_status-advanced v id j t u target c (some p) = ground arith

  explained-advanced :
      (v : Supervisor) (id : Text) (t u : WorkflowTask) (target : TaskStatus) (c : Change)
      → IsAudited clock v
      → find_task id v.state.tasks ≡ some t
      → u.task_id ≡ id
      → u.status ≡ target
      → (j : Text) (w : WorkflowTask)
      → find_task j (advanced v id t u target c).state.tasks ≡ some w
      → (w.task_id ≡ j)
        × (replay j (some pending) (advanced v id t u target c).state.event_log.events
            ≡ some w.status)
  unfolding advanced replaced
  explained-advanced v id t u target c a f same moved j w h =
      let put = find_task-put_task j u.task_id u v.state.tasks in
      let last = replay-snoc j (some pending) v.state.event_log.events _ in
      let step =
        step_status-advanced v id j t u target c
          (replay j (some pending) v.state.event_log.events) in
      elim (Bool-cases (text_eq id j)) [
        | inl eq ↦
            let here : id ≡ j = (text_eq_iff id j).0 eq in
            let hit : find_task j (put_task u.task_id u v.state.tasks) ≡ some u =
              put ∙ rw (same, eq) refl in
            let is : u ≡ w = cc (hit, h) in
            let old : replay j (some pending) v.state.event_log.events ≡ some t.status =
              subst (λ i. replay i (some pending) v.state.event_log.events ≡ some t.status) here
                (a.explained id t f).1 in
            (
              cc (is, same, here),
              last ∙ step ∙ rw (eq, old, same_status_refl t.status) (cc (moved, is)),
            )
        | inr ne ↦
            let before : find_task j v.state.tasks ≡ some w = ground arith in
            let (k, old) = a.explained j w before in (k, last ∙ step ∙ rw (ne) old)
      ]

  transition_task-err :
      (v : Supervisor) (id : Text) (t : WorkflowTask) (target : TaskStatus) (c : Change)
      (e : InvalidTaskTransition)
      → find_task id v.state.tasks ≡ some t
      → transition t target (clock v.readings) c ≡ err e
      → transition_task clock v id target c ≡ err (task_error e)
  unfolding transition_task
  transition_task-err v id t target c e f h = ground arith

  advanced-IsMoved :
      (v : Supervisor) (id : Text) (t u : WorkflowTask) (target : TaskStatus) (c : Change)
      → IsAudited clock v
      → find_task id v.state.tasks ≡ some t
      → u.task_id ≡ id
      → u.status ≡ target
      → IsMoved clock v id u (advanced v id t u target c)
  unfolding advanced replaced
  advanced-IsMoved v id t u target c a f same moved = record {
    found = rw (find_task-put_task id u.task_id u v.state.tasks, same, text_eq_refl id) refl;
    others = λ j ne. rw (find_task-put_task j u.task_id u v.state.tasks, same, ne) refl;
    audited = record {
      recording =
          recorded-IsRecorded clock (replaced v u) (transition_details id t.status target c)
            monotone (replaced-IsRecorded v u a.recording);
      explained = λ j w h. explained-advanced v id t u target c a f same moved j w h;
    };
  }

  -- On an audited supervisor and for an error that is not empty, `_transition` does what the task's
  -- own `transition` does: it raises the same, or files the task that is returned, leaves the other
  -- tasks alone, and records an event that keeps the audit. Recording never raises.
  pub transition_task_lem :
      (v : Supervisor) (id : Text) (t : WorkflowTask) (target : TaskStatus) (c : Change)
      → IsAudited clock v
      → is_empty_text c.error ≡ false
      → find_task id v.state.tasks ≡ some t
      → ((e : InvalidTaskTransition) × (transition t target (clock v.readings) c ≡ err e)
          × (transition_task clock v id target c ≡ err (task_error e)))
        ⊎ ((u : WorkflowTask) × (w : Supervisor) × (transition t target (clock v.readings) c ≡ ok u)
            × (transition_task clock v id target c ≡ ok w)
            × IsMoved clock v id u w)
  transition_task_lem v id t target c a e f =
      elim (Result-cases (transition t target (clock v.readings) c)) [
        | inl (u, h) ↦
            let (_, moved, same, _, _, _, _) = transition-Edge t target (clock v.readings) c h in
            let filed : u.task_id ≡ id = same ∙ (a.explained id t f).0 in
            inr (
              u,
              advanced v id t u target c,
              h,
              transition_task-eq-advanced v id t u target c a e f filed h,
              advanced-IsMoved v id t u target c a f filed moved,
            )
        | inr (raised, h) ↦ inl (raised, h, transition_task-err v id t target c raised f h)
      ]
