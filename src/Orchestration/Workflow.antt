-- ===== src/Orchestration/Workflow.antt =====
-- orchestration/state.py: `WorkflowState`, the snapshot of a workflow that the supervisor advances.
-- The commit, the deadline and the copy of the budget's usage are no fields here.
use affective_belief_persist.Prelude.{
  ℕ, ◌+◌, Bool, Option, none, some, List, [], ◌∷◌, if◌then◌else◌, Result, ok, err, ◌>>=◌, Text,
  text_eq, codes,
}
use affective_belief_persist.Orchestration.Task.{pending, InvalidTaskTransition, WorkflowTask}
use affective_belief_persist.Orchestration.Events.{WorkflowEvent, EventError, EventLog, append}
use affective_belief_persist.Orchestration.Contracts.{TaskContract}

-- `dict[str, WorkflowTask]`, in insertion order.
abbrev pub Tasks : Type 0
Tasks = List (Text × WorkflowTask)

abbrev pub find_task : Text → Tasks → Option WorkflowTask
find_task id [] = none
find_task id ((k, t) ∷ r) = if text_eq k id then some t else find_task id r

-- {**tasks, id: task}
unfoldable pub put_task : Text → WorkflowTask → Tasks → Tasks
put_task id t [] = (id, t) ∷ []
put_task id t ((k, u) ∷ r) =
    let rest = put_task id t r in if text_eq k id then (k, t) ∷ r else (k, u) ∷ rest

-- contracts.py, without the source commit and the constants of its validation.
pub record ArtifactContract : Type 0 where
  pub artifact_id : Text
  pub produced_by_task : Text
  pub produced_by_agent : Text
  pub logical_name : Text
  pub path : Text
  pub media_type : Text
  pub created_at : ℕ
  pub downstream_task_ids : List Text
  pub sha256 : Text
  pub size_bytes : ℕ

pub record HandoffContract : Type 0 where
  pub handoff_id : Text
  pub from_task_id : Text
  pub to_task_id : Text
  pub artifact_ids : List Text
  pub summary : Text
  pub created_at : ℕ

pub record WorkflowState : Type 0 where
  pub workflow_id : Text
  pub sprint_id : Text
  pub revision : ℕ
  pub created_at : ℕ
  pub updated_at : ℕ
  pub phase : Text
  pub active_agents : List Text
  pub gates : List (Text × Bool)
  pub blockers : List Text
  pub decisions : List Text
  pub checkpoint_sequence : ℕ
  pub artifacts : List (Text × ArtifactContract)
  pub handoffs : List HandoffContract
  pub tasks : Tasks
  pub event_log : EventLog

-- What a call on the supervisor raises.
pub data OrchestrationError : Type 0 where
  unknown_task : Text → OrchestrationError
  task_error : InvalidTaskTransition → OrchestrationError
  event_error : EventError → OrchestrationError
  empty_message wrong_tasks missing_state : OrchestrationError

unfoldable pub replace_task : WorkflowState → WorkflowTask → Result OrchestrationError WorkflowState
unfolding put_task
replace_task s t = elim (find_task t.task_id s.tasks) [
  | none ↦ err (unknown_task t.task_id)
  | some old ↦ ok (record s {
    tasks = put_task t.task_id t s.tasks;
    revision = s.revision + 1;
    updated_at = t.updated_at;
  })
]

abbrev pub event_outcome : {A : Type 0} → Result EventError A → Result OrchestrationError A
event_outcome (ok a) = ok a
event_outcome (err e) = err (event_error e)

unfoldable pub append_event :
    WorkflowState → WorkflowEvent → Result OrchestrationError WorkflowState
unfolding append
append_event s e = do
  log ← event_outcome (append s.event_log e)
  ok (record s { event_log = log; revision = s.revision + 1; updated_at = e.occurred_at })

-- The fields of the workflow's contract that its state is made from.
pub record WorkflowContract : Type 0 where
  pub workflow_id : Text
  pub sprint_id : Text
  pub created_at : ℕ
  pub tasks : List TaskContract

abbrev pub task_of : TaskContract → ℕ → WorkflowTask
task_of t created_at = record {
  task_id = t.task_id;
  dependencies = t.dependencies;
  optional_dependencies = t.optional_dependencies;
  optional = t.optional;
  max_attempts = t.budget.max_attempts;
  status = pending;
  attempt_count = 0;
  retry_count = 0;
  lease = none;
  started_at = none;
  completed_at = none;
  updated_at = created_at;
  output_artifact_ids = [];
  blocker = none;
  last_error = none;
  failure_category = none;
  no_artifact_reason = none;
}

-- The dict comprehension: a later task of the same identifier takes the place of an earlier one.
unfoldable pub tasks_of : Tasks → List TaskContract → ℕ → Tasks
unfolding put_task
tasks_of done [] created_at = done
tasks_of done (t ∷ ts) created_at =
    tasks_of (put_task t.task_id (task_of t created_at) done) ts created_at

unfoldable pub from_contract : WorkflowContract → WorkflowState
unfolding tasks_of
from_contract c = record {
  workflow_id = c.workflow_id;
  sprint_id = c.sprint_id;
  revision = 0;
  created_at = c.created_at;
  updated_at = c.created_at;
  phase = codes "initializing";
  active_agents = [];
  gates = [];
  blockers = [];
  decisions = [];
  checkpoint_sequence = 0;
  artifacts = [];
  handoffs = [];
  tasks = tasks_of [] c.tasks c.created_at;
  event_log = record { workflow_id = c.workflow_id; events = [] };
}
