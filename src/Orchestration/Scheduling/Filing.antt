-- ===== src/Orchestration/Scheduling/Filing.antt =====
-- orchestration/scheduler.py: checkpoints, artifacts and handoffs, by what they do to the tasks.
use affective_belief_persist.Orchestration.Budgets
use affective_belief_persist.Prelude.{
  ℕ, ◌+◌, ◌≡◌, refl, sym, ◌∙◌, subst, inl, inr, not, none, some, List, [], ◌∷◌, ◌++◌, any,
  Bool-cases, ok, err, ◌>>=◌, Text, codes, text_eq, >>=-eq-ok, ok_unique,
}
use affective_belief_persist.Orchestration.Events.{handoff_registered, checkpoint_saved, number}
use affective_belief_persist.Orchestration.Contracts.{TaskContract, WorkerArtifactProposal}
use affective_belief_persist.Orchestration.Budgets.{charge}
use affective_belief_persist.Orchestration.Workflow.{HandoffContract}
use affective_belief_persist.Orchestration.Supervisor.{Supervisor, EventDetails, record_event}
use affective_belief_persist.Orchestration.Scheduling.{
  Scheduler, escaping_artifact, supervised, budgeted, checkpoint,
}
use affective_belief_persist.Orchestration.Scheduling.Artifacts.{
  depends_on, registered_details, with_artifact, register_artifact, hand_to, Files, event_of,
  artifact_of, materialize, handoff_of, hand_over, register_handoffs,
}
use affective_belief_persist.Orchestration.Scheduling.Passes.{record_event-tasks}
use affective_belief_persist.Orchestration.Scheduling.Rounds.{supervised-ok}

-- A supervisor with the same tasks.
abbrev pub SameTasks : Supervisor → Supervisor → Type 0
SameTasks v w = w.state.tasks ≡ v.state.tasks

module _ (clock : ℕ → ℕ) where
  pub supervised_event-tasks :
      (v w : Supervisor) (d : EventDetails)
      → supervised (record_event clock v d) ≡ ok w
      → SameTasks v w
  supervised_event-tasks v w d h =
      record_event-tasks clock v w d (supervised-ok (record_event clock v d) w h)

  pub checkpoint-SameTasks :
      (s t : Scheduler) → checkpoint clock s ≡ ok t → SameTasks s.supervisor t.supervisor
  unfolding checkpoint
  checkpoint-SameTasks s t h =
      let at = clock s.supervisor.readings in
      let sequence = s.supervisor.state.checkpoint_sequence + 1 in
      let v : Supervisor = record {
        state = record s.supervisor.state { checkpoint_sequence = sequence; updated_at = at };
        readings = s.supervisor.readings + 2;
      } in
      let d : EventDetails = record {
        event_type = checkpoint_saved;
        task_id = none;
        previous_status = none;
        new_status = none;
        message = some (codes "atomic workflow checkpoint");
        payload = (codes "checkpoint_sequence", number sequence) ∷ [];
      } in
      let (u, usage, h₁) =
        >>=-eq-ok (budgeted (Budgets.checkpoint s.budgets at (clock (s.supervisor.readings + 1))).0)
          _ h in
      let (w, noted, h₂) = >>=-eq-ok (supervised (record_event clock v d)) _ h₁ in
      subst (λ (x : Scheduler). SameTasks s.supervisor x.supervisor) (ok_unique (ok _) refl h₂)
        (supervised_event-tasks v w d noted)

  module _ (tasks : List TaskContract) where
    register_artifact-SameTasks :
        (files : Files) (t : TaskContract) (agent : Text) (v w : Supervisor)
        (p : WorkerArtifactProposal)
        → register_artifact clock tasks files t agent v p ≡ ok w
        → SameTasks v w
    unfolding register_artifact
    register_artifact-SameTasks files t agent v w p h = elim (Bool-cases (files.escapes p.path)) [
      | inl escapes ↦
          let raised : register_artifact clock tasks files t agent v p
              ≡ err (escaping_artifact p.path) =
            rw (register_artifact, escapes) refl in
          absurd (cc (raised, h))
      | inr inside ↦
          let a = artifact_of clock tasks files t agent p (clock v.readings) in
          let noted : supervised
                (record_event clock (with_artifact v a) (registered_details t.task_id a))
              ≡ ok w =
            sym (rw (register_artifact, inside) refl) ∙ h in
          supervised_event-tasks (with_artifact v a) w (registered_details t.task_id a) noted
    ]

    pub materialize-SameTasks :
        (files : Files) (t : TaskContract) (agent : Text) (v : Supervisor)
        (ps : List WorkerArtifactProposal) (out : Supervisor × List Text)
        → materialize clock tasks files t agent v ps ≡ ok out
        → SameTasks v out.0
    unfolding materialize
    materialize-SameTasks files t agent v [] out h =
        subst (λ (o : Supervisor × List Text). SameTasks v o.0) (ok_unique (ok _) refl h) refl
    materialize-SameTasks files t agent v (p ∷ rest) out h =
        let (x, registered, h₁) = >>=-eq-ok (register_artifact clock tasks files t agent v p) _ h in
        let ((y, ids), others, h₂) =
          >>=-eq-ok (materialize clock tasks files t agent x rest) _ h₁ in
        subst (λ (o : Supervisor × List Text). SameTasks v o.0) (ok_unique (ok _) refl h₂)
          (materialize-SameTasks files t agent x rest (y, ids) others
            ∙ register_artifact-SameTasks files t agent v x p registered)

    hand_to-SameTasks :
        (t : TaskContract) (ids : List Text) (v : Supervisor) (handoffs : List HandoffContract)
        (dependent : TaskContract) (out : Supervisor × List HandoffContract)
        → hand_to clock tasks t ids v handoffs dependent ≡ ok out
        → SameTasks v out.0
    unfolding hand_to
    hand_to-SameTasks t ids v handoffs dependent out h =
        let w : Supervisor = record v { readings = v.readings + 1 } in
        let new = handoff_of clock tasks t dependent ids (clock v.readings) in
        let listed = any (λ e. text_eq e.handoff_id new.handoff_id) handoffs in
        let details =
          event_of handoff_registered t.task_id (codes "handoff to " ++ dependent.task_id) in
        elim (Bool-cases (not (depends_on t.task_id dependent))) [
          | inl apart ↦
              let same : ok (v, handoffs) ≡ ok out = sym (rw (hand_to, apart) refl) ∙ h in
              subst (λ (o : Supervisor × List HandoffContract). SameTasks v o.0)
                (ok_unique _ refl same) refl
          | inr depends ↦ elim (Bool-cases listed) [
            | inl old ↦
                let same : ok (w, handoffs) ≡ ok out = sym (rw (hand_to, depends, old) refl) ∙ h in
                subst (λ (o : Supervisor × List HandoffContract). SameTasks v o.0)
                  (ok_unique _ refl same) refl
            | inr fresh ↦
                let goes_on : (supervised (record_event clock w details) >>= λ x.
                ok (x, handoffs ++ new ∷ []))
                    ≡ ok out =
                  sym (rw (hand_to, depends, fresh) refl) ∙ h in
                let (x, noted, h₁) =
                  >>=-eq-ok (supervised (record_event clock w details)) _ goes_on in
                subst (λ (o : Supervisor × List HandoffContract). SameTasks v o.0)
                  (ok_unique (ok _) refl h₁) (supervised_event-tasks w x details noted)
          ]
        ]

    hand_over-SameTasks :
        (t : TaskContract) (ids : List Text) (v : Supervisor) (handoffs : List HandoffContract)
        (rest : List TaskContract) (out : Supervisor × List HandoffContract)
        → hand_over clock tasks t ids v handoffs rest ≡ ok out
        → SameTasks v out.0
    unfolding hand_over
    hand_over-SameTasks t ids v handoffs [] out h =
        subst (λ (o : Supervisor × List HandoffContract). SameTasks v o.0) (ok_unique (ok _) refl h)
          refl
    hand_over-SameTasks t ids v handoffs (dependent ∷ rest) out h =
        let ((x, more), one, h₁) = >>=-eq-ok (hand_to clock tasks t ids v handoffs dependent) _ h in
        hand_over-SameTasks t ids x more rest out h₁
        ∙ hand_to-SameTasks t ids v handoffs dependent (x, more) one

    pub register_handoffs-SameTasks :
        (t : TaskContract) (ids : List Text) (v w : Supervisor)
        → register_handoffs clock tasks t ids v ≡ ok w
        → SameTasks v w
    unfolding register_handoffs
    register_handoffs-SameTasks t [] v w h =
        subst (λ (x : Supervisor). SameTasks v x) (ok_unique (ok v) refl h) refl
    register_handoffs-SameTasks t (a ∷ ids) v w h =
        let ((x, handoffs), handed, h₁) =
          >>=-eq-ok (hand_over clock tasks t (a ∷ ids) v v.state.handoffs tasks) _ h in
        subst (λ (y : Supervisor). SameTasks v y) (ok_unique (ok _) refl h₁)
          (hand_over-SameTasks t (a ∷ ids) v v.state.handoffs tasks (x, handoffs) handed)
