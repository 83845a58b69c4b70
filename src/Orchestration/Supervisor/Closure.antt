-- ===== src/Orchestration/Supervisor/Closure.antt =====
-- The loop of `_propagate_dependency_failures`, task by task.
use mathlib.Core.List.{append-nil, append_assoc}
use affective_belief_persist.Prelude.{
  ℕ, ◌+◌, ◌≤◌, ◌≡◌, refl, sym, ◌∙◌, subst, inl, inr, Bool, true, false, Bool-cases, some, List, [],
  ◌∷◌, ◌++◌, ok, Text, text_eq, text_eq_iff, text_eq_refl, codes, member, join_with, arith,
  &&-eq-true,
}
use affective_belief_persist.Orchestration.Task.{
  TaskStatus, blocked, WorkflowTask, dependency_missing,
}
use affective_belief_persist.Orchestration.Task.Failing.{follows}
use affective_belief_persist.Orchestration.Contracts.{TaskContract}
use affective_belief_persist.Orchestration.Graph.{ids}
use affective_belief_persist.Orchestration.Graph.Order.{met, respects}
use affective_belief_persist.Orchestration.Workflow.{find_task}
use affective_belief_persist.Orchestration.Supervisor.{Supervisor}
use affective_belief_persist.Orchestration.Supervisor.Steps.{IsAudited, IsMoved}
use affective_belief_persist.Orchestration.Supervisor.Failures.{block_and_escalate_lem}
use affective_belief_persist.Orchestration.Supervisor.Propagation.{
  is_candidate, has_failed, failed_dependencies, find_contract, escalate_if_any, propagate_task,
  propagate,
}
use affective_belief_persist.Orchestration.Supervisor.Dependencies.{
  member-snoc, or_false, member-left, text_eq-flip, find_contract-ids, find_contract-met,
  failed_dependencies_lem, IsFailedList,
}

candidate-follows : (s : TaskStatus) → is_candidate s ≡ true → follows s blocked ≡ true
candidate-follows s h = ground arith

module _ (tasks : List TaskContract) where
  -- No required dependency of the task has failed, unless the task is out of the schedule.
  abbrev pub Settled : Supervisor → Text → Type 0
  Settled v id =
      (c : TaskContract) (x : WorkflowTask) (d : Text) (y : WorkflowTask)
      → find_contract tasks id ≡ ok c
      → find_task id v.state.tasks ≡ some x
      → is_candidate x.status ≡ true
      → member text_eq d c.dependencies ≡ true
      → find_task d v.state.tasks ≡ some y
      → has_failed y.status ≡ false

  -- Every declared task has a state.
  abbrev pub HasStates : Supervisor → Type 0
  HasStates v =
      (id : Text)
      → member text_eq id (ids tasks) ≡ true
      → (t : WorkflowTask) × (find_task id v.state.tasks ≡ some t)

module _ (clock : ℕ → ℕ) (monotone : (n : ℕ) → clock n ≤ clock (n + 1))
    (tasks : List TaskContract) where
  -- The supervisor after the tasks of `seen`.
  pub record IsPast (v : Supervisor) (seen : List Text) : Type 0 where
    pub audited : IsAudited clock v
    pub stated : HasStates tasks v
    pub settled : (j : Text) → member text_eq j seen ≡ true → Settled tasks v j

  -- The tasks of `seen` are declared, and their dependencies are among them.
  pub record IsPlaced (seen : List Text) : Type 0 where
    pub known : (j : Text) → member text_eq j seen ≡ true → member text_eq j (ids tasks) ≡ true
    pub before :
        (j d : Text) (c : TaskContract)
        → member text_eq j seen ≡ true
        → find_contract tasks j ≡ ok c
        → member text_eq d c.dependencies ≡ true
        → member text_eq d seen ≡ true

  IsPast-snoc :
      (v : Supervisor) (seen : List Text) (id : Text)
      → IsPast v seen
      → Settled tasks v id
      → IsPast v (seen ++ id ∷ [])
  IsPast-snoc v seen id p s = record {
    audited = p.audited;
    stated = p.stated;
    settled = λ j h. elim (Bool-cases (text_eq j id)) [
      | inl eq ↦ subst (Settled tasks v) (sym ((text_eq_iff j id).0 eq)) s
      | inr ne ↦ p.settled j (cc (member-snoc j id seen, h, ne, or_false (member text_eq j seen)))
    ];
  }

  IsPlaced-snoc :
      (seen : List Text) (id : Text)
      → member text_eq id (ids tasks) ≡ true
      → met tasks seen id ≡ true
      → IsPlaced seen
      → IsPlaced (seen ++ id ∷ [])
  IsPlaced-snoc seen id k m p = record {
    known = λ j h. elim (Bool-cases (text_eq j id)) [
      | inl eq ↦ rw ((text_eq_iff j id).0 eq) k
      | inr ne ↦ p.known j (cc (member-snoc j id seen, h, ne, or_false (member text_eq j seen)))
    ];
    before = λ j d c h q b. member-left d seen (id ∷ []) (elim (Bool-cases (text_eq j id)) [
      | inl eq ↦
          find_contract-met tasks seen id c d
            (subst (λ i. find_contract tasks i ≡ ok c) ((text_eq_iff j id).0 eq) q) m b
      | inr ne ↦
          p.before j d c (cc (member-snoc j id seen, h, ne, or_false (member text_eq j seen))) q b
    ]);
  }

  HasStates-moved :
      (v w : Supervisor) (id : Text) (u : WorkflowTask)
      → IsMoved clock v id u w
      → HasStates tasks v
      → HasStates tasks w
  HasStates-moved v w id u m s j h = elim (Bool-cases (text_eq id j)) [
    | inl eq ↦
        (u, subst (λ i. find_task i w.state.tasks ≡ some u) ((text_eq_iff id j).0 eq) m.found)
    | inr ne ↦ let (t, f) = s j h in (t, m.others j ne ∙ f)
  ]

  -- After the escalation of a task with a failed dependency, the tasks before it stay settled.
  Settled-escalated :
      (v w : Supervisor) (seen : List Text) (id d : Text) (c : TaskContract) (x u y : WorkflowTask)
      → IsPast v seen
      → IsPlaced seen
      → IsMoved clock v id u w
      → is_candidate u.status ≡ false
      → find_contract tasks id ≡ ok c
      → find_task id v.state.tasks ≡ some x
      → is_candidate x.status ≡ true
      → member text_eq d c.dependencies ≡ true
      → find_task d v.state.tasks ≡ some y
      → has_failed y.status ≡ true
      → (j : Text) → member text_eq j (seen ++ id ∷ []) ≡ true
      → Settled tasks w j
  Settled-escalated v w seen id d c x u y p q m out g f can b fd bad j h c' x' d' y' g' f' can' b'
        fd' =
      elim (Bool-cases (text_eq id j)) [
        | inl eq ↦
            let same : id ≡ j = (text_eq_iff id j).0 eq in
            let hit : find_task j w.state.tasks ≡ some u =
              subst (λ i. find_task i w.state.tasks ≡ some u) same m.found in
            let is : u ≡ x' = cc (hit, f') in absurd (cc (is, out, can'))
        | inr ne ↦
            let placed : member text_eq j seen ≡ true =
              cc (
                member-snoc j id seen,
                h,
                text_eq-flip id j ne,
                or_false (member text_eq j seen),
              ) in
            elim (Bool-cases (text_eq id d')) [
              | inl eq ↦
                  let early : member text_eq id seen ≡ true =
                    subst (λ i. member text_eq i seen ≡ true) (sym ((text_eq_iff id d').0 eq))
                      (q.before j d' c' placed g' b') in
                  absurd (cc (p.settled id early c x d y g f can b fd, bad))
              | inr other ↦
                  p.settled j placed c' x' d' y' g' (sym (m.others j ne) ∙ f') can' b'
                    (sym (m.others d' other) ∙ fd')
            ]
      ]

  escalate_if_any_lem :
      (v : Supervisor) (changed : Bool) (seen : List Text) (id : Text) (c : TaskContract)
      (x : WorkflowTask) (failed : List Text)
      → IsPast v seen
      → IsPlaced seen
      → find_contract tasks id ≡ ok c
      → find_task id v.state.tasks ≡ some x
      → is_candidate x.status ≡ true
      → IsFailedList v.state c.dependencies failed
      → (w : Supervisor) × (c' : Bool) × (escalate_if_any clock tasks v changed id failed
          ≡ ok (w, c'))
        × IsPast w (seen ++ id ∷ [])
  escalate_if_any_lem v changed seen id c x [] p q g f can r = (
    v,
    changed,
    refl,
    IsPast-snoc v seen id p (λ c' x' d y g' f' can' b fd.
        let same : c ≡ c' = cc (g, g') in r.none_failed refl d y (rw same b) fd),
  )
  escalate_if_any_lem v changed seen id c x (d ∷ ds) p q g f can r = elim r.some_failed [
    | inl e ↦ absurd (cc e)
    | inr (e, y, b, fd, bad) ↦
        let error =
          codes "required dependency did not complete: " ++ join_with (codes ", ") (d ∷ ds) in
        let (w, h, m) =
          block_and_escalate_lem clock monotone v id x error dependency_missing p.audited refl f
            (candidate-follows x.status can) in
        (
          w,
          true,
          rw h refl,
          record {
            audited = m.moved_to.audited;
            stated = HasStates-moved v w id m.task m.moved_to p.stated;
            settled =
                Settled-escalated v w seen id e c x m.task y p q m.moved_to (rw m.status refl) g f
                  can b fd bad;
          },
        )
  ]

  propagate_task-candidate :
      (v : Supervisor) (changed : Bool) (id : Text) (x : WorkflowTask) (c : TaskContract)
      (failed : List Text)
      → find_task id v.state.tasks ≡ some x
      → is_candidate x.status ≡ true
      → find_contract tasks id ≡ ok c
      → failed_dependencies v.state c.dependencies ≡ ok failed
      → propagate_task clock tasks v changed id ≡ escalate_if_any clock tasks v changed id failed
  unfolding propagate_task
  propagate_task-candidate v changed id x c failed f can g e = ground arith

  propagate_task-other :
      (v : Supervisor) (changed : Bool) (id : Text) (x : WorkflowTask)
      → find_task id v.state.tasks ≡ some x
      → is_candidate x.status ≡ false
      → propagate_task clock tasks v changed id ≡ ok (v, changed)
  unfolding propagate_task
  propagate_task-other v changed id x f out = ground arith

  -- A round never raises, and settles its task.
  propagate_task_lem :
      (v : Supervisor) (changed : Bool) (seen : List Text) (id : Text)
      → IsPast v seen
      → IsPlaced seen
      → member text_eq id (ids tasks) ≡ true
      → met tasks seen id ≡ true
      → (w : Supervisor) × (c' : Bool) × (propagate_task clock tasks v changed id ≡ ok (w, c'))
        × IsPast w (seen ++ id ∷ [])
  unfolding propagate_task
  propagate_task_lem v changed seen id p q k m =
      let (x, f) = p.stated id k in
      let (c, g) = find_contract-ids tasks id k in
      let (failed, e, r) =
        failed_dependencies_lem v.state c.dependencies
          (λ d b. p.stated d (q.known d (find_contract-met tasks seen id c d g m b))) in
      elim (Bool-cases (is_candidate x.status)) [
        | inl can ↦
            let (w, c', h, done) = escalate_if_any_lem v changed seen id c x failed p q g f can r in
            (w, c', propagate_task-candidate v changed id x c failed f can g e ∙ h, done)
        | inr out ↦ (
          v,
          changed,
          propagate_task-other v changed id x f out,
          IsPast-snoc v seen id p (λ c' x' d y g' f' can' b fd. absurd (cc (f, f', out, can'))),
        )
      ]

  pub propagate_lem :
      (v : Supervisor) (changed : Bool) (seen rest : List Text)
      → IsPast v seen
      → IsPlaced seen
      → ((j : Text) → member text_eq j rest ≡ true → member text_eq j (ids tasks) ≡ true)
      → respects tasks seen rest ≡ true
      → (w : Supervisor) × (c' : Bool) × (propagate clock tasks v changed rest ≡ ok (w, c'))
        × IsPast w (seen ++ rest)
  unfolding propagate
  propagate_lem v changed seen [] p q k m = (v, changed, refl, rw append-nil p)
  propagate_lem v changed seen (id ∷ rest) p q k m =
      let (now, later) = &&-eq-true (met tasks seen id) _ m in
      let declared = k id (ground (arith, text_eq_refl id)) in
      let (w, c, h, p') = propagate_task_lem v changed seen id p q declared now in
      let (w', c', h', p'') =
        propagate_lem w c (seen ++ id ∷ []) rest p' (IsPlaced-snoc seen id declared now q)
          (λ j b. k j (ground arith)) later in
      (w', c', rw h h', subst (IsPast w') (append_assoc seen (id ∷ []) rest) p'')
