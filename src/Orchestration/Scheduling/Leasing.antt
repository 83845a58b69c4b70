-- ===== src/Orchestration/Scheduling/Leasing.antt =====
-- `_lease_task` and the loop around it, as moves: a task that is put to work has moved.
use affective_belief_persist.Prelude.{
  ℕ, ◌+◌, ◌≤◌, ◌≡◌, refl, sym, ◌∙◌, subst, ◌⊎◌, inl, inr, none, some, List, [], ◌∷◌, All, All-snoc,
  length, length-append, leb, Bool-cases, Result, ok, err, ◌>>=◌, Text, codes, arith, >>=-eq-ok,
  ok_unique,
}
use affective_belief_persist.Orchestration.Task.{
  TaskLease, leased, running, no_change, Change, budget_exceeded,
}
use affective_belief_persist.Orchestration.Contracts.{TaskContract}
use affective_belief_persist.Orchestration.Budgets.{can_start}
use affective_belief_persist.Orchestration.Registry.{
  AgentDefinition, AgentRegistryConfig, RegistryError, no_available_agent, select,
}
use affective_belief_persist.Orchestration.Leases.{LeaseError, PathLease, capacity, conflict}
use affective_belief_persist.Orchestration.Workflow.{Tasks}
use affective_belief_persist.Orchestration.Supervisor.{
  Supervisor, task_at, record_event, transition_task, block_and_escalate,
}
use affective_belief_persist.Orchestration.Supervisor.Propagation.{find_contract}
use affective_belief_persist.Orchestration.Scheduling.{
  Scheduler, supervised, budgeted, with_supervisor, ticked,
}
use affective_belief_persist.Orchestration.Scheduling.Work.{
  budget_request, task_inputs, ScheduledWork, Leased, start_task, conflict_details, after_acquire,
  refuse_task, lease_paths, lease_for, demand_of, after_select, lease_task,
}
use affective_belief_persist.Orchestration.Scheduling.Loop.{
  Setting, push_work, capacity_of_wave, lease_tasks,
}
use affective_belief_persist.Orchestration.Scheduling.Moves.{Moves, stay, Moves-trans}
use affective_belief_persist.Orchestration.Scheduling.Passes.{
  record_event-tasks, transition_task-Moved, block_and_escalate-Moved,
}
use affective_belief_persist.Orchestration.Scheduling.Rounds.{
  IsDeclared, find_contract-IsDeclared, supervised-ok,
}

-- The call made moves, one at least if it has work, which is then for the task.
pub record IsLeased (tasks : List TaskContract) (S : Tasks) (t : TaskContract) (l : Leased)
    : Type 0 where
  pub count : ℕ
  pub moved : Moves tasks S count l.after.supervisor.state.tasks
  pub works :
      (l.work ≡ none)
      ⊎ ((item : ScheduledWork) × (l.work ≡ some item) × (item.task ≡ t) × (1 ≤ count))

module _ (clock : ℕ → ℕ) (tasks : List TaskContract) where
  IsLeased-idle :
      (s : Scheduler) (t : TaskContract) (v : Supervisor) (active : List Text) (l : Leased)
      → v.state.tasks ≡ s.supervisor.state.tasks
      → record { after = with_supervisor s v; active = active; work = none } ≡ l
      → IsLeased tasks s.supervisor.state.tasks t l
  IsLeased-idle s t v active l same h =
      subst (IsLeased tasks s.supervisor.state.tasks t) h (record {
        count = 0;
        moved = subst (λ T. Moves tasks s.supervisor.state.tasks 0 T) (sym same) stay;
        works = inl refl;
      })

  start_task-IsLeased :
      (s : Scheduler) (t : TaskContract) (active : List Text) (agent : AgentDefinition)
      (lease : PathLease) (l : Leased)
      → start_task clock s t active agent lease ≡ ok l
      → IsLeased tasks s.supervisor.state.tasks t l
  unfolding start_task
  start_task-IsLeased s t active agent lease l h =
      let task_lease : TaskLease = record {
        lease_id = lease.lease_id;
        worker_id = agent.agent_id;
        acquired_at = lease.granted_at;
        expires_at = lease.expires_at;
        authorized_files = lease.path_patterns;
      } in
      let change : Change = record no_change { lease = some task_lease } in
      let call = transition_task clock s.supervisor t.task_id leased change in
      let (v, first_step, h₁) = >>=-eq-ok (supervised call) _ h in
      let call' = transition_task clock v t.task_id running no_change in
      let (w, second_step, h₂) = >>=-eq-ok (supervised call') _ h₁ in
      let (inputs, found, h₃) = >>=-eq-ok (supervised (task_inputs w.state t)) _ h₂ in
      let (current, at, h₄) = >>=-eq-ok (supervised (task_at w.state t.task_id)) _ h₃ in
      let both =
        Moves-trans tasks
          (transition_task-Moved clock tasks s.supervisor v t.task_id leased change
            (supervised-ok call v first_step) (λ x a. refl))
          (transition_task-Moved clock tasks v w t.task_id running no_change
            (supervised-ok call' w second_step) (λ x a. refl)) in
      subst (IsLeased tasks s.supervisor.state.tasks t) (ok_unique (ok _) refl h₄)
        (record { count = 2; moved = both; works = inr (_, refl, refl, omega arith) })

  after_acquire-IsLeased :
      (s : Scheduler) (t : TaskContract) (active : List Text) (agent : AgentDefinition)
      (answer : Result LeaseError PathLease) (l : Leased)
      → after_acquire clock s t active agent answer ≡ ok l
      → IsLeased tasks s.supervisor.state.tasks t l
  unfolding after_acquire
  after_acquire-IsLeased s t active agent (ok lease) l h =
      start_task-IsLeased s t active agent lease l h
  after_acquire-IsLeased s t active agent (err capacity) l h =
      IsLeased-idle s t s.supervisor active l refl (ok_unique (ok _) refl h)
  after_acquire-IsLeased s t active agent (err (conflict requested held)) l h =
      let details = conflict_details t.task_id requested held in
      let (v, noted, h₁) = >>=-eq-ok (supervised (record_event clock s.supervisor details)) _ h in
      IsLeased-idle s t v active l
        (record_event-tasks clock s.supervisor v details
          (supervised-ok (record_event clock s.supervisor details) v noted))
        (ok_unique (ok _) refl h₁)
  after_acquire-IsLeased s t active agent (err _) l h = absurd (cc h)

  refuse_task-IsLeased :
      (s : Scheduler) (t : TaskContract) (active : List Text) (l : Leased)
      → refuse_task clock s t active ≡ ok l
      → IsLeased tasks s.supervisor.state.tasks t l
  unfolding refuse_task
  refuse_task-IsLeased s t active l h =
      let error = codes "declared task budget exceeds remaining sprint budget" in
      let call = block_and_escalate clock s.supervisor t.task_id error budget_exceeded in
      let (v, refused, h₁) = >>=-eq-ok (supervised call) _ h in
      subst (IsLeased tasks s.supervisor.state.tasks t) (ok_unique (ok _) refl h₁) (record {
        count = 2;
        moved =
            block_and_escalate-Moved clock tasks s.supervisor v t.task_id error budget_exceeded
              (supervised-ok call v refused);
        works = inl refl;
      })

  module _ (lease_digest : Text → Text → List Text → ℕ → ℕ → Text)
      (registry : AgentRegistryConfig) where
    lease_paths-IsLeased :
        (s : Scheduler) (t : TaskContract) (active : List Text) (agent : AgentDefinition)
        (l : Leased)
        → lease_paths clock lease_digest registry s t active agent ≡ ok l
        → IsLeased tasks s.supervisor.state.tasks t l
    unfolding lease_paths
    lease_paths-IsLeased s t active agent l h = after_acquire-IsLeased _ t active agent _ l h

    lease_for-IsLeased :
        (s : Scheduler) (t : TaskContract) (active : List Text) (agent : AgentDefinition)
        (l : Leased)
        → lease_for clock lease_digest registry s t active agent ≡ ok l
        → IsLeased tasks s.supervisor.state.tasks t l
    unfolding lease_for
    lease_for-IsLeased s t active agent l h =
        let n = s.supervisor.readings in
        let (fits, known, h₁) =
          >>=-eq-ok (budgeted (can_start s.budgets (budget_request t) (clock n) (clock (n + 1)))) _
            h in
        elim (Bool-cases fits) [
          | inl room ↦
              lease_paths-IsLeased (ticked (ticked s)) t active agent l (sym (rw room refl) ∙ h₁)
          | inr none_left ↦
              refuse_task-IsLeased (ticked (ticked s)) t active l (sym (rw none_left refl) ∙ h₁)
        ]

    after_select-IsLeased :
        (s : Scheduler) (t : TaskContract) (active : List Text)
        (answer : Result RegistryError AgentDefinition) (l : Leased)
        → after_select clock lease_digest registry s t active answer ≡ ok l
        → IsLeased tasks s.supervisor.state.tasks t l
    after_select-IsLeased s t active (ok agent) l h = lease_for-IsLeased s t active agent l h
    after_select-IsLeased s t active (err no_available_agent) l h =
        IsLeased-idle s t s.supervisor active l refl (ok_unique (ok _) refl h)
    after_select-IsLeased s t active (err _) l h = absurd (cc h)

    pub lease_task-IsLeased :
        (s : Scheduler) (t : TaskContract) (active : List Text) (l : Leased)
        → lease_task clock lease_digest registry s t active ≡ ok l
        → IsLeased tasks s.supervisor.state.tasks t l
    unfolding lease_task
    lease_task-IsLeased s t active l h =
        after_select-IsLeased s t active (select registry (demand_of t active)) l h

-- The work is for declared tasks.
abbrev pub AllDeclared : List TaskContract → List ScheduledWork → Type 0
AllDeclared tasks work = All (λ (item : ScheduledWork). IsDeclared tasks item.task) work

push_work-count :
    (tasks : List TaskContract) (work : List ScheduledWork) (t : TaskContract) (S : Tasks)
    (l : Leased)
    → IsDeclared tasks t
    → AllDeclared tasks work
    → (k : IsLeased tasks S t l)
    → (length (push_work work l.work) ≤ length work + k.count)
      × AllDeclared tasks (push_work work l.work)
push_work-count tasks work t S l declared known k = elim k.works [
  | inl idle ↦ rw idle (omega arith, known)
  | inr (item, busy, own, some_move) ↦ rw busy (
    omega (arith, length-append work (item ∷ []), some_move),
    All-snoc (λ (i : ScheduledWork). IsDeclared tasks i.task) work item known
        (subst (IsDeclared tasks) (sym own) declared),
  )
]

-- What the loop that leases tasks returns: it has moved at least once for each item that it added.
pub record IsWorked (tasks : List TaskContract) (S : Tasks) (work : List ScheduledWork)
    (out : Scheduler × List Text × List ScheduledWork) : Type 0 where
  pub count : ℕ
  pub moved : Moves tasks S count out.0.supervisor.state.tasks
  pub more : length out.2 ≤ length work + count
  pub declared : AllDeclared tasks out.2

module _ (env : Setting) where
  lease_tasks-done :
      (s : Scheduler) (active : List Text) (work : List ScheduledWork)
      → AllDeclared env.definition.tasks work
      → IsWorked env.definition.tasks s.supervisor.state.tasks work (s, active, work)
  lease_tasks-done s active work known = record {
    count = 0;
    moved = stay;
    more = omega arith;
    declared = known;
  }

  pub lease_tasks-IsWorked :
      (s : Scheduler) (ids active : List Text) (work : List ScheduledWork)
      (out : Scheduler × List Text × List ScheduledWork)
      → lease_tasks env s active work ids ≡ ok out
      → AllDeclared env.definition.tasks work
      → IsWorked env.definition.tasks s.supervisor.state.tasks work out
  unfolding lease_tasks
  lease_tasks-IsWorked s [] active work out h known =
      subst (IsWorked env.definition.tasks s.supervisor.state.tasks work)
        (ok_unique (ok (s, active, work)) refl h) (lease_tasks-done s active work known)
  lease_tasks-IsWorked s (id ∷ ids) active work out h known =
      let tasks = env.definition.tasks in
      elim (Bool-cases (leb (capacity_of_wave env) (length work))) [
        | inl full ↦
            let same : ok (s, active, work) ≡ ok out = sym (rw (lease_tasks, full) refl) ∙ h in
            subst (IsWorked tasks s.supervisor.state.tasks work) (ok_unique _ refl same)
              (lease_tasks-done s active work known)
        | inr room ↦
            let goes_on : (supervised (find_contract tasks id) >>= λ t.
            lease_task env.clock env.lease_digest env.registry s t active >>= λ l.
            lease_tasks env l.after l.active (push_work work l.work) ids)
                ≡ ok out =
              sym (rw (lease_tasks, room) refl) ∙ h in
            let (t, found, h₁) = >>=-eq-ok (supervised (find_contract tasks id)) _ goes_on in
            let (l, one, h₂) =
              >>=-eq-ok (lease_task env.clock env.lease_digest env.registry s t active) _ h₁ in
            let declared =
              find_contract-IsDeclared tasks id t
                (supervised-ok (find_contract tasks id) t found) in
            let k =
              lease_task-IsLeased env.clock tasks env.lease_digest env.registry s t active l one in
            let (added, still) =
              push_work-count tasks work t s.supervisor.state.tasks l declared known k in
            let later =
              lease_tasks-IsWorked l.after ids l.active (push_work work l.work) out h₂ still in
            record {
              count = k.count + later.count;
              moved = Moves-trans tasks k.moved later.moved;
              more = omega (arith, added, later.more);
              declared = later.declared;
            }
      ]
