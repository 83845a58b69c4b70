-- ===== src/Orchestration/Scheduling/Applying.antt =====
-- orchestration/scheduler.py: `_apply_result`, by the moves of the tasks.
use affective_belief_persist.Orchestration.Leases
use affective_belief_persist.Prelude.{
  ℕ, ◌+◌, ◌≡◌, refl, sym, ◌∙◌, subst, inl, inr, Option, none, some, List, [], ◌∷◌, text_le,
  Bool-cases, Result, ok, err, ◌>>=◌, >>=-eq-ok, ok_unique,
}
use affective_belief_persist.Orchestration.Task.{validating, completed, no_change, Change}
use affective_belief_persist.Orchestration.Contracts.{TaskContract, WorkerResult}
use affective_belief_persist.Orchestration.Budgets.{charge}
use affective_belief_persist.Orchestration.Leases.{ReleaseResult, LeaseRelease, LeaseError, release}
use affective_belief_persist.Orchestration.Validation.{
  GateDefinition, ResultValidation, validate_worker_result,
}
use affective_belief_persist.Orchestration.Supervisor.{Supervisor, transition_task, result_failure}
use affective_belief_persist.Orchestration.Scheduling.{Scheduler, supervised, with_supervisor}
use affective_belief_persist.Orchestration.Scheduling.Work.{ScheduledWork}
use affective_belief_persist.Orchestration.Scheduling.Results.{
  close_result, charge_result, after_release, charged_amounts, after_charge, pay, release_lease,
  pass_gate, accept_result, apply_result, insert_work, sorted_work, wave_result,
}
use affective_belief_persist.Orchestration.Scheduling.Artifacts.{
  sorted_artifacts, Files, materialize_artifacts,
}
use affective_belief_persist.Orchestration.Scheduling.Loop.{Setting, gate_of, apply_results}
use affective_belief_persist.Orchestration.Scheduling.Moves.{Moves, stay, Moves-trans}
use affective_belief_persist.Orchestration.Scheduling.Passes.{Moved, transition_task-Moved}
use affective_belief_persist.Orchestration.Scheduling.Rounds.{
  IsDeclared, supervised-ok, result_failure-Moved,
}
use affective_belief_persist.Orchestration.Scheduling.Leasing.{AllDeclared}
use affective_belief_persist.Orchestration.Scheduling.Filing.{
  SameTasks, materialize-SameTasks, register_handoffs-SameTasks,
}

module _ (clock : ℕ → ℕ) where
  charge_result-SameTasks :
      (s : Scheduler) (t : TaskContract) (r : WorkerResult) (validation : ResultValidation)
      (out : Scheduler × ResultValidation)
      → charge_result clock s t r validation ≡ ok out
      → SameTasks s.supervisor out.0.supervisor
  unfolding charge_result
  charge_result-SameTasks s t r validation out h =
      let at = clock s.supervisor.readings in
      let (v, charged, h₁) =
        >>=-eq-ok (after_charge validation (charge s.budgets none (charged_amounts t r) at at).0) _
          h in
      subst (λ (o : Scheduler × ResultValidation). SameTasks s.supervisor o.0.supervisor)
        (ok_unique (ok _) refl h₁) refl

  pay-SameTasks :
      (s : Scheduler) (t : TaskContract) (r : WorkerResult) (validation : ResultValidation)
      (out : Scheduler × ResultValidation)
      → pay clock s t r validation ≡ ok out
      → SameTasks s.supervisor out.0.supervisor
  unfolding pay
  pay-SameTasks s t r validation out h = elim (Bool-cases validation.passed) [
    | inl passed ↦ charge_result-SameTasks s t r validation out (sym (rw (pay, passed) refl) ∙ h)
    | inr rejected ↦
        let same : ok (s, validation) ≡ ok out = sym (rw (pay, rejected) refl) ∙ h in
        subst (λ (o : Scheduler × ResultValidation). SameTasks s.supervisor o.0.supervisor)
          (ok_unique _ refl same) refl
  ]

  after_release-SameTasks :
      (s t : Scheduler) (answer : Result LeaseError (List LeaseRelease))
      → after_release clock s answer ≡ ok t
      → SameTasks s.supervisor t.supervisor
  after_release-SameTasks s t (ok released) h =
      subst (λ (x : Scheduler). SameTasks s.supervisor x.supervisor) (ok_unique (ok s) refl h) refl
  after_release-SameTasks s t (err e) h = absurd (cc h)

  release_lease-SameTasks :
      (s t : Scheduler) (item : ScheduledWork) (result : ReleaseResult)
      → release_lease clock s item result ≡ ok t
      → SameTasks s.supervisor t.supervisor
  unfolding release_lease
  release_lease-SameTasks s t item result h = after_release-SameTasks _ t _ h

  -- Moves, and then a part that leaves the tasks alone.
  Moved-same :
      (tasks : List TaskContract) (u v w : Supervisor)
      → (n : ℕ) × Moved tasks u n v
      → SameTasks v w
      → (n : ℕ) × Moved tasks u n w
  Moved-same tasks u v w (n, g) same = (n, subst (λ T. Moves tasks u.state.tasks n T) (sym same) g)

  pass_gate-SameTasks :
      (gate : Option GateDefinition) (v : Supervisor) → SameTasks v (pass_gate clock gate v)
  pass_gate-SameTasks none v = refl
  pass_gate-SameTasks (some g) v = refl

  accept_result-Moved :
      (tasks : List TaskContract) (files : Files) (gate : Option GateDefinition) (v w : Supervisor)
      (item : ScheduledWork) (r : WorkerResult)
      → accept_result clock tasks files gate v item r ≡ ok w
      → (n : ℕ) × Moved tasks v n w
  unfolding accept_result materialize_artifacts
  accept_result-Moved tasks files gate v w item r h =
      let ((x, ids), written, h₁) =
        >>=-eq-ok (materialize_artifacts clock tasks files item.task r item.agent_id v) _ h in
      let change : Change = record no_change {
        output_artifact_ids = some ids;
        no_artifact_reason = r.no_artifact_reason;
      } in
      let call = transition_task clock x item.task.task_id completed change in
      let (y, done, h₂) = >>=-eq-ok (supervised call) _ h₁ in
      let start =
        materialize-SameTasks clock tasks files item.task item.agent_id v
          (sorted_artifacts r.artifacts) (x, ids) written in
      let step =
        transition_task-Moved clock tasks x y item.task.task_id completed change
          (supervised-ok call y done) (λ u at. refl) in
      let end =
        register_handoffs-SameTasks clock tasks item.task ids (pass_gate clock gate y) w h₂ in
      let gated = pass_gate-SameTasks gate y in
      (
        1,
        subst (λ T. Moves tasks T 1 w.state.tasks) start
            (subst (λ T. Moves tasks x.state.tasks 1 T) (sym (end ∙ gated)) step),
      )

  close_result-Moved :
      (tasks : List TaskContract) (files : Files) (gate : Option GateDefinition) (s t : Scheduler)
      (item : ScheduledWork) (r : WorkerResult) (validation : ResultValidation)
      → IsDeclared tasks item.task
      → close_result clock tasks files gate s item r validation ≡ ok t
      → (n : ℕ) × Moved tasks s.supervisor n t.supervisor
  unfolding close_result
  close_result-Moved tasks files gate s t item r validation declared h =
      elim (Bool-cases validation.passed) [
        | inl passed ↦
            let goes_on : (accept_result clock tasks files gate s.supervisor item r >>= λ w.
            release_lease clock (with_supervisor s w) item Leases.completed)
                ≡ ok t =
              sym (rw (close_result, passed) refl) ∙ h in
            let (w, accepted, h₁) =
              >>=-eq-ok (accept_result clock tasks files gate s.supervisor item r) _ goes_on in
            Moved-same tasks s.supervisor w t.supervisor
              (accept_result-Moved tasks files gate s.supervisor w item r accepted)
              (release_lease-SameTasks (with_supervisor s w) t item Leases.completed h₁)
        | inr rejected ↦
            let call = result_failure clock s.supervisor item.task validation in
            let goes_on : (supervised call >>= λ w.
            release_lease clock (with_supervisor s w) item Leases.failed)
                ≡ ok t =
              sym (rw (close_result, rejected) refl) ∙ h in
            let (w, noted, h₁) = >>=-eq-ok (supervised call) _ goes_on in
            Moved-same tasks s.supervisor w t.supervisor
              (result_failure-Moved clock tasks s.supervisor w item.task validation declared
                (supervised-ok call w noted))
              (release_lease-SameTasks (with_supervisor s w) t item Leases.failed h₁)
      ]

  pub apply_result-Moved :
      (tasks : List TaskContract) (files : Files) (gate : Option GateDefinition) (s t : Scheduler)
      (item : ScheduledWork) (r : WorkerResult)
      → IsDeclared tasks item.task
      → apply_result clock tasks files gate s item r ≡ ok t
      → (n : ℕ) × Moved tasks s.supervisor n t.supervisor
  unfolding apply_result
  apply_result-Moved tasks files gate s t item r declared h =
      let call = transition_task clock s.supervisor item.task.task_id validating no_change in
      let (v, started, h₁) = >>=-eq-ok (supervised call) _ h in
      let checked = validate_worker_result item.task r gate in
      let ((paid, validation), charged, h₂) =
        >>=-eq-ok (pay clock (with_supervisor s v) item.task r checked) _ h₁ in
      let step =
        transition_task-Moved clock tasks s.supervisor v item.task.task_id validating no_change
          (supervised-ok call v started) (λ u at. refl) in
      let (m, g) =
        Moved-same tasks s.supervisor v paid.supervisor (1, step)
          (pay-SameTasks (with_supervisor s v) item.task r checked (paid, validation) charged) in
      let (n, k) = close_result-Moved tasks files gate paid t item r validation declared h₂ in
      (m + n, Moves-trans tasks g k)

insert_work-AllDeclared :
    (tasks : List TaskContract) (item : ScheduledWork) (work : List ScheduledWork)
    → IsDeclared tasks item.task
    → AllDeclared tasks work
    → AllDeclared tasks (insert_work item work)
unfolding insert_work
insert_work-AllDeclared tasks item [] d k = (d, tt)
insert_work-AllDeclared tasks item (b ∷ bs) d k =
    elim (Bool-cases (text_le item.task.task_id b.task.task_id)) [
      | inl le ↦ rw (insert_work, le) (d, k)
      | inr gt ↦ rw (insert_work, gt) (k.0, insert_work-AllDeclared tasks item bs d k.1)
    ]

pub sorted_work-AllDeclared :
    (tasks : List TaskContract) (work : List ScheduledWork)
    → AllDeclared tasks work
    → AllDeclared tasks (sorted_work work)
unfolding sorted_work
sorted_work-AllDeclared tasks [] k = tt
sorted_work-AllDeclared tasks (item ∷ work) k =
    insert_work-AllDeclared tasks item (sorted_work work) k.0
      (sorted_work-AllDeclared tasks work k.1)

module _ (env : Setting) where
  pub apply_results-Moved :
      (wave : ℕ) (s t : Scheduler) (work : List ScheduledWork)
      → AllDeclared env.definition.tasks work
      → apply_results env wave s work ≡ ok t
      → (n : ℕ) × Moved env.definition.tasks s.supervisor n t.supervisor
  unfolding apply_results
  apply_results-Moved wave s t [] known h = (
    0,
    subst (λ (x : Scheduler). Moved env.definition.tasks s.supervisor 0 x.supervisor)
        (ok_unique (ok s) refl h) stay,
  )
  apply_results-Moved wave s t (item ∷ work) known h =
      let tasks = env.definition.tasks in
      let gate = gate_of env.definition.gates item.task.task_id in
      let r = wave_result item.task (env.executor wave item).0 (env.executor wave item).1 in
      let (u, one, h₁) = >>=-eq-ok (apply_result env.clock tasks env.files gate s item r) _ h in
      let (m, g) = apply_result-Moved env.clock tasks env.files gate s u item r known.0 one in
      let (n, k) = apply_results-Moved wave u t work known.1 h₁ in (m + n, Moves-trans tasks g k)
