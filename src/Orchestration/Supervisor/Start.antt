-- ===== src/Orchestration/Supervisor/Start.antt =====
-- The supervisor of a new run: `WorkflowState.from_contract`, and the readings of its clock.
use affective_belief_persist.Prelude.{
  ℕ, ◌≡◌, refl, some, List, [], ◌∷◌, Bool-cases, inl, inr, Text, text_eq, text_eq_iff,
}
use affective_belief_persist.Orchestration.Task.{pending, WorkflowTask}
use affective_belief_persist.Orchestration.Contracts.{TaskContract}
use affective_belief_persist.Orchestration.Events.{validate_history}
use affective_belief_persist.Orchestration.Workflow.{
  Tasks, find_task, put_task, task_of, tasks_of, WorkflowContract, from_contract,
}
use affective_belief_persist.Orchestration.Supervisor.Steps.{IsAudited, find_task-put_task}

-- Each task is filed under its identifier and PENDING.
IsFresh : Tasks → Type 0
IsFresh tasks =
    (id : Text) (t : WorkflowTask)
    → find_task id tasks ≡ some t
    → (t.task_id ≡ id) × (t.status ≡ pending)

tasks_of-IsFresh :
    (done : Tasks) (ts : List TaskContract) (at : ℕ) → IsFresh done → IsFresh (tasks_of done ts at)
unfolding IsFresh tasks_of
tasks_of-IsFresh done [] at f = f
tasks_of-IsFresh done (c ∷ cs) at f =
    tasks_of-IsFresh (put_task c.task_id (task_of c at) done) cs at (λ id t h.
      let put = find_task-put_task id c.task_id (task_of c at) done in
      elim (Bool-cases (text_eq c.task_id id)) [
        | inl eq ↦
            let hit : task_of c at ≡ t = cc (put, h, eq) in
            (cc (hit, (text_eq_iff c.task_id id).0 eq), cc hit)
        | inr ne ↦ f id t (cc (put, h, ne))
      ])

-- A new supervisor is audited: its log is empty and every task is PENDING.
pub from_contract-IsAudited :
    (clock : ℕ → ℕ) (c : WorkflowContract)
    → IsAudited clock (record { state = from_contract c; readings = 0 })
unfolding from_contract validate_history IsFresh
from_contract-IsAudited clock c = record {
  recording = record { history = refl; owned = refl; named = tt; timely = refl };
  explained = λ id t h.
      let (filed, fresh) = tasks_of-IsFresh [] c.tasks c.created_at (λ i u k. cc k) id t h in
      (filed, cc fresh);
}
