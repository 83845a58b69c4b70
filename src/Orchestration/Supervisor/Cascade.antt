-- ===== src/Orchestration/Supervisor/Cascade.antt =====
-- A failed dependency in a workflow of two tasks: the theorem on one pass at this state.
use affective_belief_persist.Prelude.{
  sorted_ids, ◌⊎◌, ℕ, ◌+◌, ◌≡◌, ◌↔◌, refl, sym, ap, true, false, Bool, Bool-cases, inl, inr, none,
  some, List, [], ◌∷◌, ok, Text, text_eq, text_eq_iff, codes, member, six_digits, arith,
}
use affective_belief_persist.Orchestration.Task.{
  TaskStatus, pending, ready, blocked, escalated, WorkflowTask,
}
use affective_belief_persist.Orchestration.Contracts.{TaskContract}
use affective_belief_persist.Orchestration.Events.{
  WorkflowEvent, status_transition, validate_history,
}
use affective_belief_persist.Orchestration.Graph.{
  ids, dependency_graph, topological_order, drain, indegree, dependents,
}
use affective_belief_persist.Orchestration.Workflow.{
  find_task, WorkflowContract, from_contract, task_of,
}
use affective_belief_persist.Orchestration.Supervisor.{Supervisor, logical_clock, event_name}
use affective_belief_persist.Orchestration.Supervisor.Audit.{replay}
use affective_belief_persist.Orchestration.Supervisor.Steps.{IsAudited}
use affective_belief_persist.Orchestration.Supervisor.Propagation.{
  find_contract, propagate_dependency_failures,
}
use affective_belief_persist.Orchestration.Supervisor.Dependencies.{text_eq-flip}
use affective_belief_persist.Orchestration.Supervisor.Closure.{Settled, HasStates}
use affective_belief_persist.Orchestration.Supervisor.Start.{from_contract-IsAudited}
use affective_belief_persist.Orchestration.Supervisor.Marking.{mark_ready, mark_ready_lem}
use affective_belief_persist.Orchestration.Supervisor.Readiness.{
  validate_state, dependencies_completed, ready_among, ready_task_ids,
}
use affective_belief_persist.Orchestration.Supervisor.Ready.{IsReady, ready_task_ids_lem}
use affective_belief_persist.Orchestration.Supervisor.OnePass.{one_pass}

abbrev plan : Text
plan = codes "plan"

abbrev build : Text
build = codes "build"

abbrev task : Text → List Text → TaskContract
task id dependencies = record {
  task_id = id;
  owner = codes "lead";
  task_type = codes "audit";
  gate_id = none;
  dependencies = dependencies;
  optional_dependencies = [];
  optional = false;
  authorized_files = [];
  output_paths = [];
  input_artifact_ids = [];
  expected_artifact_ids = [];
  acceptance_tests = [];
  budget = record {
    max_attempts = 2;
    max_runtime_seconds = 60;
    max_tokens = 100;
    max_cost_usd = 0;
    required_gpu_hours = 0;
  };
}

abbrev tasks : List TaskContract
tasks = task build (plan ∷ []) ∷ task plan [] ∷ []

abbrev workflow : WorkflowContract
workflow = record {
  workflow_id = codes "sprint";
  sprint_id = codes "one";
  created_at = 100;
  tasks = tasks;
}

abbrev clock : ℕ → ℕ
clock = logical_clock 100

abbrev plan_event : ℕ → TaskStatus → TaskStatus → WorkflowEvent
plan_event n old new = record {
  event_id = event_name n;
  workflow_id = codes "sprint";
  sequence = n;
  event_type = status_transition;
  occurred_at = 100 + n;
  actor_id = codes "sprint-supervisor";
  task_id = some plan;
  previous_status = some old;
  new_status = some new;
  message = none;
  payload = [];
}

abbrev events : List WorkflowEvent
events = plan_event 1 pending blocked ∷ plan_event 2 blocked escalated ∷ []

abbrev build_task : WorkflowTask
build_task = task_of (task build (plan ∷ [])) 100

abbrev plan_task : WorkflowTask
plan_task = record (task_of (task plan []) 100) {
  status = escalated;
  last_error = some (codes "lost");
}

-- The task `plan` has failed and `build` waits for it.
abbrev waiting : Supervisor
waiting = record {
  state = record (from_contract workflow) {
    tasks = (build, build_task) ∷ (plan, plan_task) ∷ [];
    event_log = record { workflow_id = codes "sprint"; events = events };
  };
  readings = 3;
}

explained :
    (id : Text) (t : WorkflowTask)
    → find_task id waiting.state.tasks ≡ some t
    → (t.task_id ≡ id) × (replay id (some pending) events ≡ some t.status)
explained id t h = elim (Bool-cases (text_eq build id)) [
  | inl eq ↦
      let hit : find_task id waiting.state.tasks ≡ some build_task = rw eq refl in
      let same : build_task ≡ t = cc (h, hit) in
      rw (sym ((text_eq_iff build id).0 eq))
        (ap (λ u. u.task_id) (sym same), ap (λ u. some u.status) same)
  | inr ne ↦ elim (Bool-cases (text_eq plan id)) [
    | inl eq ↦
        let hit : find_task id waiting.state.tasks ≡ some plan_task = rw (ne, eq) refl in
        let same : plan_task ≡ t = cc (h, hit) in
        rw (sym ((text_eq_iff plan id).0 eq))
          (ap (λ u. u.task_id) (sym same), ap (λ u. some u.status) same)
    | inr other ↦
        let missing : find_task id waiting.state.tasks ≡ none = rw (ne, other) refl in
        absurd (cc (h, missing))
  ]
]

waiting-IsAudited : IsAudited clock waiting
unfolding from_contract validate_history six_digits
waiting-IsAudited = record {
  recording = record { history = refl; owned = refl; named = (refl, (refl, tt)); timely = refl };
  explained = explained;
}

waiting-HasStates : HasStates tasks waiting
waiting-HasStates id h = elim (Bool-cases (text_eq build id)) [
  | inl eq ↦ (build_task, rw eq refl)
  | inr ne ↦ elim (Bool-cases (text_eq plan id)) [
    | inl eq ↦ (plan_task, rw (ne, eq) refl)
    | inr other ↦
        let missing : member text_eq id (ids tasks) ≡ false =
          rw (text_eq-flip build id ne, text_eq-flip plan id other) refl in
        absurd (cc (h, missing))
  ]
]

graph : dependency_graph tasks ≡ ok (plan ∷ build ∷ [])
unfolding dependency_graph topological_order drain indegree dependents sorted_ids
graph = refl

one_pass_example :
    (w : Supervisor) × (changed : Bool) × (propagate_dependency_failures clock tasks waiting
        (plan ∷ build ∷ [])
      ≡ ok (w, changed))
    × IsAudited clock w
    × ((id : Text) → member text_eq id (ids tasks) ≡ true → Settled tasks w id)
one_pass_example =
    one_pass clock (λ n. omega arith) tasks (plan ∷ build ∷ []) waiting graph waiting-IsAudited
      waiting-HasStates

known : validate_state tasks (from_contract workflow) ≡ ok tt
unfolding validate_state from_contract
known = refl

-- Before anything has run only `plan` is ready.
test_ready : ready_task_ids tasks (plan ∷ build ∷ []) (from_contract workflow) ≡ ok (plan ∷ [])
unfolding ready_task_ids ready_among dependencies_completed find_contract from_contract
test_ready = refl

ready_task_ids_lem_example :
    (listed : List Text) × (ready_task_ids tasks (plan ∷ build ∷ []) (from_contract workflow)
      ≡ ok listed)
    × ((j : Text) → (member text_eq j listed ≡ true) ↔ IsReady tasks (from_contract workflow) j)
ready_task_ids_lem_example =
    ready_task_ids_lem tasks (plan ∷ build ∷ []) (from_contract workflow) graph known

abbrev fresh : Supervisor
fresh = record { state = from_contract workflow; readings = 0 }

mark_ready_lem_example :
    (w : Supervisor) × (mark_ready clock tasks (plan ∷ build ∷ []) fresh ≡ ok w)
    × IsAudited clock w
    × ((j : Text)
        → (IsReady tasks fresh.state j
            × ((t : WorkflowTask) × (find_task j w.state.tasks ≡ some t) × (t.status ≡ ready)))
          ⊎ ((¬ IsReady tasks fresh.state j)
              × (find_task j w.state.tasks ≡ find_task j fresh.state.tasks)))
mark_ready_lem_example =
    mark_ready_lem clock (λ n. omega arith) tasks (plan ∷ build ∷ []) fresh graph known
      (from_contract-IsAudited clock workflow)
