-- ===== src/Orchestration/Scheduling/Termination.antt =====
-- orchestration/scheduler.py: the passes of `run` and its end, by the moves of the tasks.
use affective_belief_persist.Prelude.{
  ℕ, zero, suc, ◌+◌, ◌≤◌, ◌<◌, ◌≡◌, refl, sym, ◌∙◌, subst, inl, inr, Bool, false, ◌||◌, Option,
  some, List, [], ◌∷◌, length, Bool-cases, Result-cases, Result, ok, err, Text, codes, sorted_ids,
  arith, >>=-eq-ok, ok_unique,
}
use affective_belief_persist.Orchestration.Supervisor.Marking.{mark_ready}
use affective_belief_persist.Orchestration.Supervisor.Propagation.{propagate_dependency_failures}
use affective_belief_persist.Orchestration.Scheduling.{
  Scheduler, RunError, no_progress, supervised, with_supervisor, checkpoint,
}
use affective_belief_persist.Orchestration.Scheduling.Skipping.{skip_unavailable_optional_tasks}
use affective_belief_persist.Orchestration.Scheduling.Work.{ScheduledWork}
use affective_belief_persist.Orchestration.Scheduling.Results.{sorted_work}
use affective_belief_persist.Orchestration.Scheduling.Loop.{
  Setting, WorkflowRunSummary, paused, summary, is_terminal, ready_ids, lease_tasks, apply_results,
  set_phase, run_wave, run_without_work, dispatch, run_pass, finish, over_waves, run,
}
use affective_belief_persist.Orchestration.Scheduling.Moves.{
  Moves, Moves-trans, IsFiled, total_weight, Moves-IsFiled, Moves-weight,
}
use affective_belief_persist.Orchestration.Scheduling.Passes.{Moved}
use affective_belief_persist.Orchestration.Scheduling.Rounds.{
  one_if, supervised-ok, mark_ready-Moved,
}
use affective_belief_persist.Orchestration.Scheduling.Changes.{
  propagate_dependency_failures-Changing, skip_unavailable_optional_tasks-Changing,
}
use affective_belief_persist.Orchestration.Scheduling.Leasing.{AllDeclared, lease_tasks-IsWorked}
use affective_belief_persist.Orchestration.Scheduling.Applying.{
  apply_results-Moved, sorted_work-AllDeclared,
}
use affective_belief_persist.Orchestration.Scheduling.Filing.{checkpoint-SameTasks}

module _ (env : Setting) where
  -- A sequence of so many moves on the tasks of the workflow.
  abbrev Advances : Scheduler → ℕ → Scheduler → Type 0
  Advances s n t = Moved env.definition.tasks s.supervisor n t.supervisor

  run_wave-Moved :
      (wave : ℕ) (s t : Scheduler) (active : List Text) (work : List ScheduledWork)
      → AllDeclared env.definition.tasks work
      → run_wave env wave s active work ≡ ok t
      → (n : ℕ) × Advances s n t
  unfolding run_wave
  run_wave-Moved wave s t active work known h =
      let tasks = env.definition.tasks in
      let s' = set_phase env s (sorted_ids active) (codes "executing") in
      let (a, saved, h₁) = >>=-eq-ok (checkpoint env.clock s') _ h in
      let (b, applied, h₂) = >>=-eq-ok (apply_results env wave a (sorted_work work)) _ h₁ in
      let (n, g) =
        apply_results-Moved env wave a b (sorted_work work)
          (sorted_work-AllDeclared tasks work known) applied in
      let before = checkpoint-SameTasks env.clock s' a saved in
      let after = checkpoint-SameTasks env.clock (set_phase env b [] (codes "integrating")) t h₂ in
      (
        n,
        subst (λ T. Moves tasks T n t.supervisor.state.tasks) before
            (subst (λ T. Moves tasks a.supervisor.state.tasks n T) (sym after) g),
      )

  -- A pass without work goes on only when something has moved.
  run_without_work-Moved :
      (s t : Scheduler) (changed : Bool)
      → run_without_work env s changed ≡ ok t
      → (n : ℕ) × Advances s n t × (1 ≤ one_if changed + n)
  unfolding run_without_work
  run_without_work-Moved s t changed h =
      let call =
        propagate_dependency_failures env.clock env.definition.tasks s.supervisor env.order in
      let ((v, propagated), done, h₁) = >>=-eq-ok (supervised call) _ h in
      let (n, g, flagged) =
        propagate_dependency_failures-Changing env.clock env.definition.tasks s.supervisor v
          propagated env.order (supervised-ok call (v, propagated) done) in
      elim (Bool-cases (propagated || changed)) [
        | inl some_change ↦
            let saved : checkpoint env.clock (with_supervisor s v) ≡ ok t =
              sym (rw some_change refl) ∙ h₁ in
            let same = checkpoint-SameTasks env.clock (with_supervisor s v) t saved in
            (
              n,
              subst (λ T. Moves env.definition.tasks s.supervisor.state.tasks n T) (sym same) g,
              ground (arith, flagged, some_change),
            )
        | inr idle ↦
            let stuck : err no_progress ≡ ok t = sym (rw idle refl) ∙ h₁ in absurd (cc stuck)
      ]

  dispatch-Moved :
      (wave : ℕ) (changed : Bool) (s : Scheduler) (active : List Text) (work : List ScheduledWork)
      (out : Scheduler × ℕ)
      → AllDeclared env.definition.tasks work
      → dispatch env wave changed s active work ≡ ok out
      → (n : ℕ) × Advances s n out.0 × (1 ≤ one_if changed + length work + n)
  dispatch-Moved wave changed s active [] out known h =
      let (t, idle, h₁) = >>=-eq-ok (run_without_work env s changed) _ h in
      let (n, g, some_move) = run_without_work-Moved s t changed idle in
      (
        n,
        subst (λ (o : Scheduler × ℕ). Advances s n o.0) (ok_unique (ok _) refl h₁) g,
        omega (arith, some_move),
      )
  dispatch-Moved wave changed s active (item ∷ work) out known h =
      let (t, ran, h₁) = >>=-eq-ok (run_wave env wave s active (item ∷ work)) _ h in
      let (n, g) = run_wave-Moved wave s t active (item ∷ work) known ran in
      (n, subst (λ (o : Scheduler × ℕ). Advances s n o.0) (ok_unique (ok _) refl h₁) g, omega arith)

  -- A pass of the loop that does not raise makes a move.
  run_pass-Moved :
      (wave : ℕ) (s : Scheduler) (out : Scheduler × ℕ)
      → run_pass env wave s ≡ ok out
      → (n : ℕ) × Advances s n out.0 × (1 ≤ n)
  unfolding run_pass
  run_pass-Moved wave s out h =
      let tasks = env.definition.tasks in
      let call = mark_ready env.clock tasks env.order s.supervisor in
      let (v, marked, h₁) = >>=-eq-ok (supervised call) _ h in
      let ((t, changed), skipped, h₂) =
        >>=-eq-ok
          (skip_unavailable_optional_tasks env.clock tasks (with_supervisor s v) false env.order) _
          h₁ in
      let (ids, listed, h₃) =
        >>=-eq-ok (supervised (ready_ids t.supervisor.state env.order)) _ h₂ in
      let ((u, active, work), leased, h₄) = >>=-eq-ok (lease_tasks env t [] [] ids) _ h₃ in
      let (a, g₁) =
        mark_ready-Moved env.clock tasks s.supervisor v env.order (supervised-ok call v marked) in
      let (b, g₂, flagged) =
        skip_unavailable_optional_tasks-Changing env.clock tasks (with_supervisor s v) t false
          changed env.order skipped in
      let k = lease_tasks-IsWorked env t ids [] [] (u, active, work) leased tt in
      let (c, g₄, some_move) = dispatch-Moved wave changed u active work out k.declared h₄ in
      (
        a + (b + (k.count + c)),
        Moves-trans tasks g₁ (Moves-trans tasks g₂ (Moves-trans tasks k.moved g₄)),
        omega (arith, flagged, k.more, some_move),
      )

  -- With more fuel than the tasks weigh, the loop of `run` is never cut short: it ends in a summary
  -- or in an error, whatever the executor, the clock and the registry answer.
  pub run-ends :
      (fuel : ℕ) (max_waves : Option ℕ) (waves : ℕ) (s : Scheduler)
      → IsFiled s.supervisor.state.tasks
      → total_weight env.definition.tasks s.supervisor.state.tasks < fuel
      → (answer : Result RunError (Scheduler × WorkflowRunSummary)) × (run env fuel max_waves waves
            s
          ≡ some answer)
  unfolding run
  run-ends zero max_waves waves s filed enough = absurd (omega (arith, enough))
  run-ends (suc fuel) max_waves waves s filed enough =
      elim (Bool-cases (is_terminal s.supervisor.state)) [
        | inl over ↦ (finish env s, rw (run, over) refl)
        | inr unfinished ↦ elim (Bool-cases (over_waves env max_waves waves)) [
          | inl enough_waves ↦
              (ok (s, summary s.supervisor.state paused), rw (run, unfinished, enough_waves) refl)
          | inr goes_on ↦ elim (Result-cases (run_pass env waves s)) [
            | inl (out, passed) ↦
                let (n, g, some_move) = run_pass-Moved waves s out passed in
                let lighter = Moves-weight env.definition.tasks g filed in
                let (answer, ends) =
                  run-ends fuel max_waves out.1 out.0 (Moves-IsFiled env.definition.tasks g filed)
                    (omega (arith, lighter, some_move, enough)) in
                (answer, rw (run, unfinished, goes_on, passed) ends)
            | inr (e, raised) ↦ (err e, rw (run, unfinished, goes_on, raised) refl)
          ]
        ]
      ]
