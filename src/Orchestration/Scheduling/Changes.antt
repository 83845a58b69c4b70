-- ===== src/Orchestration/Scheduling/Changes.antt =====
-- orchestration/scheduler.py: the two loops that report a change, by the moves of the tasks.
use affective_belief_persist.Prelude.{
  ℕ, ◌+◌, ◌≤◌, ◌≡◌, refl, sym, ap, ◌∙◌, subst, inl, inr, Bool, true, false, ◌&&◌, some, List, [],
  ◌∷◌, ◌++◌, ltb, Bool-cases, ok, ◌>>=◌, Text, codes, join_with, arith, >>=-eq-ok, ok_unique,
}
use affective_belief_persist.Orchestration.Task.{
  ready, cancelled, Change, no_change, same_status, dependency_missing,
}
use affective_belief_persist.Orchestration.Budgets.{training_decision}
use affective_belief_persist.Orchestration.Contracts.{TaskContract}
use affective_belief_persist.Orchestration.Supervisor.{
  Supervisor, task_at, transition_task, block_and_escalate,
}
use affective_belief_persist.Orchestration.Supervisor.Propagation.{
  is_candidate, failed_dependencies, find_contract, escalate_if_any, propagate_task, propagate,
  propagate_dependency_failures,
}
use affective_belief_persist.Orchestration.Scheduling.{Scheduler, supervised, ticked}
use affective_belief_persist.Orchestration.Scheduling.Skipping.{
  skip_task, reason_value, cancel_optional, decide_training, skip_unavailable_optional_tasks,
}
use affective_belief_persist.Orchestration.Scheduling.Moves.{stay, Moves-trans}
use affective_belief_persist.Orchestration.Scheduling.Passes.{
  Moved, transition_task-Moved, block_and_escalate-Moved,
}
use affective_belief_persist.Orchestration.Scheduling.Rounds.{one_if, supervised-ok}

module _ (clock : ℕ → ℕ) (tasks : List TaskContract) where
  -- `changed` is set by moves only.
  abbrev pub Changing : Supervisor → Bool → Supervisor → Bool → Type 0
  Changing v c w d = (n : ℕ) × Moved tasks v n w × (one_if d ≤ one_if c + n)

  Changing-trans :
      (u v w : Supervisor) (b c d : Bool) → Changing u b v c → Changing v c w d → Changing u b w d
  Changing-trans u v w b c d (m, g, p) (n, h, q) =
      (m + n, Moves-trans tasks g h, omega (arith, p, q))

  Changing-stay : (v w : Supervisor) (c d : Bool) → v ≡ w → c ≡ d → Changing v c w d
  Changing-stay v w c d same flag = (
    0,
    subst (λ (x : Supervisor). Moved tasks v 0 x) same stay,
    subst (λ b. one_if b ≤ one_if c + 0) flag (omega arith),
  )

  escalate_if_any-Changing :
      (v w : Supervisor) (c d : Bool) (id : Text) (failed : List Text)
      → escalate_if_any clock tasks v c id failed ≡ ok (w, d)
      → Changing v c w d
  escalate_if_any-Changing v w c d id [] h =
      let same = ok_unique (ok (v, c)) refl h in
      Changing-stay v w c d (ap (λ o. o.0) same) (ap (λ o. o.1) same)
  escalate_if_any-Changing v w c d id (f ∷ failed) h =
      let error =
        codes "required dependency did not complete: " ++ join_with (codes ", ") (f ∷ failed) in
      let (x, go, h₁) = >>=-eq-ok (block_and_escalate clock v id error dependency_missing) _ h in
      let same = ok_unique (ok (x, true)) refl h₁ in
      (
        2,
        subst (λ (y : Supervisor). Moved tasks v 2 y) (ap (λ o. o.0) same)
            (block_and_escalate-Moved clock tasks v x id error dependency_missing go),
        subst (λ b. one_if b ≤ one_if c + 2) (ap (λ o. o.1) same) (omega arith),
      )

  propagate_task-Changing :
      (v w : Supervisor) (c d : Bool) (id : Text)
      → propagate_task clock tasks v c id ≡ ok (w, d)
      → Changing v c w d
  unfolding propagate_task
  propagate_task-Changing v w c d id h =
      let (t, at, h₁) = >>=-eq-ok (task_at v.state id) _ h in
      elim (Bool-cases (is_candidate t.status)) [
        | inl can ↦
            let checks : (find_contract tasks id >>= λ u.
            failed_dependencies v.state u.dependencies >>= λ failed.
            escalate_if_any clock tasks v c id failed)
                ≡ ok (w, d) =
              sym (rw can refl) ∙ h₁ in
            let (u, declared, h₂) = >>=-eq-ok (find_contract tasks id) _ checks in
            let (failed, found, h₃) = >>=-eq-ok (failed_dependencies v.state u.dependencies) _ h₂ in
            escalate_if_any-Changing v w c d id failed h₃
        | inr out ↦
            let same : ok (v, c) ≡ ok (w, d) = sym (rw out refl) ∙ h₁ in
            let pair = ok_unique _ refl same in
            Changing-stay v w c d (ap (λ o. o.0) pair) (ap (λ o. o.1) pair)
      ]

  propagate-Changing :
      (v w : Supervisor) (c d : Bool) (ids : List Text)
      → propagate clock tasks v c ids ≡ ok (w, d)
      → Changing v c w d
  unfolding propagate
  propagate-Changing v w c d [] h =
      let pair = ok_unique (ok (v, c)) refl h in
      Changing-stay v w c d (ap (λ o. o.0) pair) (ap (λ o. o.1) pair)
  propagate-Changing v w c d (id ∷ ids) h =
      let ((x, b), first_call, h₁) = >>=-eq-ok (propagate_task clock tasks v c id) _ h in
      Changing-trans v x w c b d (propagate_task-Changing v x c b id first_call)
        (propagate-Changing x w b d ids h₁)

  pub propagate_dependency_failures-Changing :
      (v w : Supervisor) (d : Bool) (order : List Text)
      → propagate_dependency_failures clock tasks v order ≡ ok (w, d)
      → Changing v false w d
  unfolding propagate_dependency_failures
  propagate_dependency_failures-Changing v w d order h = propagate-Changing v w false d order h

  cancel_optional-Changing :
      (s t : Scheduler) (c d : Bool) (id reason : Text)
      → cancel_optional clock s id reason ≡ ok (t, d)
      → Changing s.supervisor c t.supervisor d
  unfolding cancel_optional
  cancel_optional-Changing s t c d id reason h =
      let change : Change = record no_change { no_artifact_reason = some reason } in
      let (v, go, h₁) =
        >>=-eq-ok (supervised (transition_task clock s.supervisor id cancelled change)) _ h in
      let one_move =
        transition_task-Moved clock tasks s.supervisor v id cancelled change
          (supervised-ok (transition_task clock s.supervisor id cancelled change) v go)
          (λ x at. refl) in
      let pair = ok_unique (ok _) refl h₁ in
      (
        1,
        subst (λ (o : Scheduler × Bool). Moved tasks s.supervisor 1 o.0.supervisor) pair one_move,
        subst (λ (o : Scheduler × Bool). one_if o.1 ≤ one_if c + 1) pair (omega arith),
      )

  decide_training-Changing :
      (s t : Scheduler) (c d : Bool) (id : Text) (hours : ℕ)
      → decide_training clock s c id hours ≡ ok (t, d)
      → Changing s.supervisor c t.supervisor d
  unfolding decide_training
  decide_training-Changing s t c d id hours h =
      let decision = training_decision s.budgets hours (clock s.supervisor.readings) in
      elim (Bool-cases decision.should_train) [
        | inl train ↦
            let same : ok (ticked s, c) ≡ ok (t, d) = sym (rw train refl) ∙ h in
            let pair = ok_unique _ refl same in
            (
              0,
              subst (λ (o : Scheduler × Bool). Moved tasks s.supervisor 0 o.0.supervisor) pair stay,
              subst (λ (o : Scheduler × Bool). one_if o.1 ≤ one_if c + 0) pair (omega arith),
            )
        | inr skip ↦
            cancel_optional-Changing (ticked s) t c d id
              (codes "optional GPU stage skipped: " ++ reason_value decision.reason)
              (sym (rw skip refl) ∙ h)
      ]

  skip_task-Changing :
      (s t : Scheduler) (c d : Bool) (id : Text)
      → skip_task clock tasks s c id ≡ ok (t, d)
      → Changing s.supervisor c t.supervisor d
  unfolding skip_task
  skip_task-Changing s t c d id h =
      let (u, declared, h₁) = >>=-eq-ok (supervised (find_contract tasks id)) _ h in
      let (x, at, h₂) = >>=-eq-ok (supervised (task_at s.supervisor.state id)) _ h₁ in
      elim (Bool-cases
        (same_status x.status ready && (u.optional && ltb 0 u.budget.required_gpu_hours))) [
          | inl asked ↦
              decide_training-Changing s t c d id u.budget.required_gpu_hours
                (sym (rw asked refl) ∙ h₂)
          | inr other ↦
              let same : ok (s, c) ≡ ok (t, d) = sym (rw other refl) ∙ h₂ in
              let pair = ok_unique _ refl same in
              Changing-stay s.supervisor t.supervisor c d (ap (λ o. o.0.supervisor) pair)
                (ap (λ o. o.1) pair)
        ]

  pub skip_unavailable_optional_tasks-Changing :
      (s t : Scheduler) (c d : Bool) (ids : List Text)
      → skip_unavailable_optional_tasks clock tasks s c ids ≡ ok (t, d)
      → Changing s.supervisor c t.supervisor d
  unfolding skip_unavailable_optional_tasks
  skip_unavailable_optional_tasks-Changing s t c d [] h =
      let pair = ok_unique (ok (s, c)) refl h in
      Changing-stay s.supervisor t.supervisor c d (ap (λ o. o.0.supervisor) pair)
        (ap (λ o. o.1) pair)
  skip_unavailable_optional_tasks-Changing s t c d (id ∷ ids) h =
      let ((x, b), first_call, h₁) = >>=-eq-ok (skip_task clock tasks s c id) _ h in
      Changing-trans s.supervisor x.supervisor t.supervisor c b d
        (skip_task-Changing s x c b id first_call)
        (skip_unavailable_optional_tasks-Changing x t b d ids h₁)
