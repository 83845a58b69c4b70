-- ===== src/Orchestration/Scheduling/Opened.antt =====
-- The supervisor of a new run: its tasks, what they weigh, and the end of its loop.
use affective_belief_persist.Prelude.{
  ℕ, ◌+◌, ◌≤◌, ◌≡◌, refl, sym, ap, ◌∙◌, subst, inl, inr, Bool-cases, Option, some, List, [], ◌∷◌,
  Result, ok, Text, text_eq, text_eq_iff, arith, >>=-eq-ok, ok_unique,
}
use affective_belief_persist.Orchestration.Task.{pending, WorkflowTask}
use affective_belief_persist.Orchestration.Task.Progress.{weight}
use affective_belief_persist.Orchestration.Contracts.{TaskContract}
use affective_belief_persist.Orchestration.Budgets.{Amounts, BudgetLimits, nothing, open_account}
use affective_belief_persist.Orchestration.Leases.{new_manager}
use affective_belief_persist.Orchestration.Workflow.{
  Tasks, WorkflowContract, WorkflowState, put_task, task_of, tasks_of, from_contract,
}
use affective_belief_persist.Orchestration.Supervisor.{record_event}
use affective_belief_persist.Orchestration.Supervisor.Start.{from_contract-IsAudited}
use affective_belief_persist.Orchestration.Scheduling.{Scheduler, RunError, supervised, budgeted}
use affective_belief_persist.Orchestration.Scheduling.Loop.{
  Setting, WorkflowRunSummary, capacity_of_wave, run,
}
use affective_belief_persist.Orchestration.Scheduling.Moves.{IsFiled, attempts_of, total_weight}
use affective_belief_persist.Orchestration.Scheduling.Filing.{
  checkpoint-SameTasks, supervised_event-tasks,
}
use affective_belief_persist.Orchestration.Scheduling.Opening.{
  leased_by, new_state, created_details, assemble, new_scheduler,
}
use affective_belief_persist.Orchestration.Scheduling.Termination.{run-ends}

-- What the tasks of a new run weigh: eight for each attempt that a task may make, and three.
unfoldable pub fuel_for : List TaskContract → List TaskContract → ℕ
fuel_for tasks [] = 0
fuel_for tasks (c ∷ cs) = weight (attempts_of tasks c.task_id) 0 pending + fuel_for tasks cs

total_weight-filed :
    (tasks : List TaskContract) (id : Text) (u : WorkflowTask) (S : Tasks)
    → total_weight tasks (put_task id u S)
      ≤ total_weight tasks S + weight (attempts_of tasks id) u.attempt_count u.status
unfolding total_weight put_task
total_weight-filed tasks id u [] = omega arith
total_weight-filed tasks id u ((k, x) ∷ rest) = elim (Bool-cases (text_eq k id)) [
  | inl eq ↦ rw (eq, (text_eq_iff k id).0 eq) (omega arith)
  | inr ne ↦ rw ne (omega (arith, total_weight-filed tasks id u rest))
]

total_weight-tasks_of :
    (tasks : List TaskContract) (done : Tasks) (cs : List TaskContract) (at : ℕ)
    → total_weight tasks (tasks_of done cs at) ≤ total_weight tasks done + fuel_for tasks cs
unfolding tasks_of fuel_for
total_weight-tasks_of tasks done [] at = omega arith
total_weight-tasks_of tasks done (c ∷ cs) at =
    let filed = total_weight-filed tasks c.task_id (task_of c at) done in
    let rest = total_weight-tasks_of tasks (put_task c.task_id (task_of c at) done) cs at in
    omega (arith, filed, rest)

total_weight-from_contract :
    (tasks : List TaskContract) (c : WorkflowContract)
    → total_weight tasks (from_contract c).tasks ≤ fuel_for tasks c.tasks
unfolding from_contract total_weight
total_weight-from_contract tasks c =
    omega (arith, total_weight-tasks_of tasks [] c.tasks c.created_at)

module _ (env : Setting) where
  assemble-state :
      (state : WorkflowState) (limits : BudgetLimits) (usage : Amounts) (start : ℕ) (s : Scheduler)
      → assemble env state limits usage start ≡ ok s
      → s.supervisor.state ≡ state
  unfolding assemble
  assemble-state state limits usage start s h =
      let (leases, _, h₁) = >>=-eq-ok (leased_by (new_manager (capacity_of_wave env) 900)) _ h in
      let (account, _, h₂) =
        >>=-eq-ok (budgeted (open_account env.arithmetic limits (some usage) start (env.clock 0))) _
          h₁ in
      sym (ap (λ (x : Scheduler). x.supervisor.state) (ok_unique (ok _) refl h₂))

  new_scheduler-tasks :
      (c : WorkflowContract) (limits : BudgetLimits) (config_sha256 : Text) (s : Scheduler)
      → new_scheduler env c limits config_sha256 ≡ ok s
      → s.supervisor.state.tasks ≡ (from_contract c).tasks
  unfolding new_scheduler new_state
  new_scheduler-tasks c limits config_sha256 s h =
      let first = assemble env (new_state c env.definition.gates) limits nothing c.created_at in
      let (a, opened, h₁) = >>=-eq-ok first _ h in
      let (v, noted, h₂) =
        >>=-eq-ok (supervised (record_event env.clock a.supervisor (created_details config_sha256)))
          _ h₁ in
      let saved = checkpoint-SameTasks env.clock (record a { supervisor = v }) s h₂ in
      let before =
        supervised_event-tasks env.clock a.supervisor v (created_details config_sha256) noted in
      let start =
        assemble-state (new_state c env.definition.gates) limits nothing c.created_at a opened in
      saved ∙ before ∙ ap (λ (x : WorkflowState). x.tasks) start

  -- The loop of a new supervisor whose contract has the tasks of the definition ends in a summary or
  -- in an error: `fuel_for` of its tasks, which counts their attempts, and one more is fuel enough,
  -- whatever the executor answers.
  pub run-new_scheduler :
      (c : WorkflowContract) (limits : BudgetLimits) (config_sha256 : Text) (max_waves : Option ℕ)
      (s : Scheduler)
      → c.tasks ≡ env.definition.tasks
      → new_scheduler env c limits config_sha256 ≡ ok s
      → (answer : Result RunError (Scheduler × WorkflowRunSummary)) × (run env
            (fuel_for env.definition.tasks env.definition.tasks + 1)
            max_waves
            0
            s
          ≡ some answer)
  run-new_scheduler c limits config_sha256 max_waves s same opened =
      let tasks = env.definition.tasks in
      let fresh = new_scheduler-tasks c limits config_sha256 s opened in
      let audited = from_contract-IsAudited env.clock c in
      let filed : IsFiled s.supervisor.state.tasks =
        subst (λ T. IsFiled T) (sym fresh) (λ id t h. (audited.explained id t h).0) in
      let bounded : total_weight tasks s.supervisor.state.tasks ≤ fuel_for tasks tasks =
        subst (λ T. total_weight tasks T ≤ fuel_for tasks tasks) (sym fresh)
          (subst (λ cs. total_weight tasks (from_contract c).tasks ≤ fuel_for tasks cs) same
            (total_weight-from_contract tasks c)) in
      run-ends env (fuel_for tasks tasks + 1) max_waves 0 s filed (omega (arith, bounded))
