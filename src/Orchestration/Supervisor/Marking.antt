-- ===== src/Orchestration/Supervisor/Marking.antt =====
-- orchestration/scheduler.py: `_mark_ready`.
use affective_belief_persist.Prelude.{
  ℕ, ◌+◌, ◌≤◌, ◌≡◌, refl, sym, ◌∙◌, ◌⊎◌, inl, inr, true, false, Bool-cases, some, List, [], ◌∷◌,
  if◌then◌else◌, Result, ok, ◌>>=◌, Text, text_eq, text_eq_iff, text_eq_refl, member, arith, subst,
}
use affective_belief_persist.Orchestration.Task.{TaskStatus, ready, no_change, WorkflowTask}
use affective_belief_persist.Orchestration.Task.Failing.{is_waiting, transition-ready}
use affective_belief_persist.Orchestration.Contracts.{TaskContract}
use affective_belief_persist.Orchestration.Graph.{dependency_graph}
use affective_belief_persist.Orchestration.Workflow.{find_task, OrchestrationError}
use affective_belief_persist.Orchestration.Supervisor.{Supervisor, task_at, transition_task}
use affective_belief_persist.Orchestration.Supervisor.Steps.{IsAudited, transition_task_lem}
use affective_belief_persist.Orchestration.Supervisor.Propagation.{is_candidate}
use affective_belief_persist.Orchestration.Supervisor.Dependencies.{text_eq-flip}
use affective_belief_persist.Orchestration.Supervisor.Readiness.{validate_state, ready_task_ids}
use affective_belief_persist.Orchestration.Supervisor.Ready.{IsReady, ready_task_ids_lem}

module _ (clock : ℕ → ℕ) where
  -- One round of the loop.
  unfoldable pub mark_task : Supervisor → Text → Result OrchestrationError Supervisor
  mark_task v id = do
    t ← task_at v.state id
    if is_waiting t.status then transition_task clock v id ready no_change else ok v

  unfoldable pub mark_tasks : Supervisor → List Text → Result OrchestrationError Supervisor
  unfolding mark_task
  mark_tasks v [] = ok v
  mark_tasks v (id ∷ ids) = mark_task v id >>= λ w. mark_tasks w ids

  unfoldable pub mark_ready :
      List TaskContract → List Text → Supervisor → Result OrchestrationError Supervisor
  unfolding mark_tasks
  mark_ready tasks order v = ready_task_ids tasks order v.state >>= λ ids. mark_tasks v ids

-- The task has a state in the schedule.
abbrev HasCandidate : Supervisor → Text → Type 0
HasCandidate v id =
    (t : WorkflowTask) × (find_task id v.state.tasks ≡ some t) × (is_candidate t.status ≡ true)

abbrev IsMarked : Supervisor → Text → Type 0
IsMarked v id = (t : WorkflowTask) × (find_task id v.state.tasks ≡ some t) × (t.status ≡ ready)

candidate-ready : (s : TaskStatus) → is_candidate s ≡ true → is_waiting s ≡ false → s ≡ ready
candidate-ready s h k = ground arith

module _ (clock : ℕ → ℕ) (monotone : (n : ℕ) → clock n ≤ clock (n + 1)) where
  -- A round marks its task and no other.
  record IsRound (v : Supervisor) (id : Text) (w : Supervisor) : Type 0 where
    audited : IsAudited clock w
    marked : IsMarked w id
    others :
        (j : Text) → text_eq id j ≡ false → find_task j w.state.tasks ≡ find_task j v.state.tasks

  mark_task_lem :
      (v : Supervisor) (id : Text)
      → IsAudited clock v
      → HasCandidate v id
      → (w : Supervisor) × (mark_task clock v id ≡ ok w) × IsRound v id w
  unfolding mark_task
  mark_task_lem v id a (t, f, can) =
      let at : task_at v.state id ≡ ok t = rw (f, task_at) refl in
      elim (Bool-cases (is_waiting t.status)) [
        | inr out ↦ (
          v,
          rw (at, out) refl,
          record {
            audited = a;
            marked = (t, f, candidate-ready t.status can out);
            others = λ j ne. refl;
          },
        )
        | inl waits ↦
            let (u, moves, status) = transition-ready t (clock v.readings) waits in
            elim (transition_task_lem clock monotone v id t ready no_change a refl f) [
              | inl (raised, p, q) ↦ absurd (cc (moves, p))
              | inr (u', w, p, q, m) ↦
                  let same : u ≡ u' = cc (moves, p) in
                  (
                    w,
                    rw (at, waits) q,
                    record {
                      audited = m.audited;
                      marked = (u', m.found, cc (same, status));
                      others = m.others;
                    },
                  )
            ]
      ]

  round-HasCandidate :
      (v w : Supervisor) (id j : Text) → IsRound v id w → HasCandidate v j → HasCandidate w j
  round-HasCandidate v w id j r (t, f, can) = elim (Bool-cases (text_eq id j)) [
    | inl eq ↦
        let (u, g, status) = r.marked in
        (
          u,
          subst (λ i. find_task i w.state.tasks ≡ some u) ((text_eq_iff id j).0 eq) g,
          subst (λ s. is_candidate s ≡ true) (sym status) refl,
        )
    | inr ne ↦ (t, r.others j ne ∙ f, can)
  ]

  record IsLoop (v : Supervisor) (ids : List Text) (w : Supervisor) : Type 0 where
    audited : IsAudited clock w
    marked : (j : Text) → member text_eq j ids ≡ true → IsMarked w j
    others :
        (j : Text)
        → member text_eq j ids ≡ false
        → find_task j w.state.tasks ≡ find_task j v.state.tasks

  IsLoop-step :
      (v w x : Supervisor) (id : Text) (ids : List Text)
      → IsRound v id w
      → IsLoop w ids x
      → IsLoop v (id ∷ ids) x
  IsLoop-step v w x id ids r l = record {
    audited = l.audited;
    marked = λ j h. elim (Bool-cases (member text_eq j ids)) [
      | inl later ↦ l.marked j later
      | inr no_more ↦
          let same : id ≡ j = sym ((text_eq_iff j id).0 (ground arith)) in
          let (u, g, status) = r.marked in
          (u, l.others j no_more ∙ subst (λ i. find_task i w.state.tasks ≡ some u) same g, status)
    ];
    others = λ j h.
        let apart : text_eq j id ≡ false = ground arith in
        let outside : member text_eq j ids ≡ false = ground arith in
        l.others j outside ∙ r.others j (text_eq-flip j id apart);
  }

  mark_tasks_lem :
      (v : Supervisor) (ids : List Text)
      → IsAudited clock v
      → ((j : Text) → member text_eq j ids ≡ true → HasCandidate v j)
      → (w : Supervisor) × (mark_tasks clock v ids ≡ ok w) × IsLoop v ids w
  unfolding mark_tasks
  mark_tasks_lem v [] a k =
      (v, refl, record { audited = a; marked = λ j h. absurd (cc h); others = λ j h. refl })
  mark_tasks_lem v (id ∷ ids) a k =
      let (w, e, r) = mark_task_lem v id a (k id (ground (arith, text_eq_refl id))) in
      let (x, e', l) =
        mark_tasks_lem w ids r.audited
          (λ j h. round-HasCandidate v w id j r (k j (ground arith))) in
      (x, rw e e', IsLoop-step v w x id ids r l)

  -- On an audited supervisor whose state is for the tasks of a graph that was built, `_mark_ready`
  -- never raises and keeps the audit: every task whose dependencies are done becomes READY, or stays
  -- so, and no other task is touched.
  pub mark_ready_lem :
      (tasks : List TaskContract) (order : List Text) (v : Supervisor)
      → dependency_graph tasks ≡ ok order
      → validate_state tasks v.state ≡ ok tt
      → IsAudited clock v
      → (w : Supervisor) × (mark_ready clock tasks order v ≡ ok w)
        × IsAudited clock w
        × ((j : Text)
            → (IsReady tasks v.state j
                × ((t : WorkflowTask) × (find_task j w.state.tasks ≡ some t) × (t.status ≡ ready)))
              ⊎ ((¬ IsReady tasks v.state j)
                  × (find_task j w.state.tasks ≡ find_task j v.state.tasks)))
  unfolding mark_ready
  mark_ready_lem tasks order v g k a =
      let (listed, e, exact) = ready_task_ids_lem tasks order v.state g k in
      let (w, e', l) =
        mark_tasks_lem v listed a
          (λ j h. let r = (exact j).0 h in (r.task, r.filed, r.candidate)) in
      (
        w,
        rw e e',
        l.audited,
        λ j. elim (Bool-cases (member text_eq j listed)) [
          | inl h ↦ inl ((exact j).0 h, l.marked j h)
          | inr h ↦ inr ((λ r. cc (h, (exact j).1 r)), l.others j h)
        ],
      )
