-- ===== src/Orchestration/Supervisor/Ready.antt =====
-- `ready_task_ids` of orchestration/graph.py against the dependencies of the tasks.
use affective_belief_persist.Prelude.{
  subset, subset-Within, ◌≡◌, refl, sym, ◌∙◌, ◌↔◌, inl, inr, Bool, true, false, ◌&&◌, Bool-cases,
  some, List, [], ◌∷◌, any, all, map, if◌then◌else◌, ok, Text, text_eq, text_eq_iff, text_eq_refl,
  member, arith, &&-eq-true, subst,
}
use affective_belief_persist.Orchestration.Task.{WorkflowTask, is_none}
use affective_belief_persist.Orchestration.Contracts.{TaskContract}
use affective_belief_persist.Orchestration.Graph.{all_dependencies, ids, dependency_graph}
use affective_belief_persist.Orchestration.Graph.Order.{met}
use affective_belief_persist.Orchestration.Graph.Topological.{
  dependency_graph-met, dependency_graph-ok,
}
use affective_belief_persist.Orchestration.Workflow.{Tasks, find_task, WorkflowState}
use affective_belief_persist.Orchestration.Supervisor.{task_at}
use affective_belief_persist.Orchestration.Supervisor.Propagation.{is_candidate, find_contract}
use affective_belief_persist.Orchestration.Supervisor.Dependencies.{
  find_contract-ids, find_contract-all, text_eq-flip,
}
use affective_belief_persist.Orchestration.Supervisor.OnePass.{member-same}
use affective_belief_persist.Orchestration.Supervisor.Readiness.{
  validate_state, status_is, is_completed, is_over, dependencies_completed, ready_among,
  ready_task_ids,
}

-- The task has a state in the schedule and its dependencies are done: the required ones COMPLETED,
-- the optional ones COMPLETED or CANCELLED.
pub record IsReady (tasks : List TaskContract) (s : WorkflowState) (id : Text) : Type 0 where
  pub contract : TaskContract
  pub task : WorkflowTask
  pub declared : find_contract tasks id ≡ ok contract
  pub filed : find_task id s.tasks ≡ some task
  pub candidate : is_candidate task.status ≡ true
  pub required : all (status_is is_completed s.tasks) contract.dependencies ≡ true
  pub optional : all (status_is is_over s.tasks) contract.optional_dependencies ≡ true

-- Whether the loop takes the task.
abbrev taken : WorkflowState → TaskContract → WorkflowTask → Bool
taken s c t =
    is_candidate t.status
    && (all (status_is is_completed s.tasks) c.dependencies
        && all (status_is is_over s.tasks) c.optional_dependencies)

all_filed :
    (states : Tasks) (ds : List Text)
    → ((d : Text) → member text_eq d ds ≡ true → (y : WorkflowTask) × (find_task d states ≡ some y))
    → any (λ d. is_none (find_task d states)) ds ≡ false
all_filed states [] known = refl
all_filed states (d ∷ ds) known =
    let (y, f) = known d (ground (arith, text_eq_refl d)) in
    let rest = all_filed states ds (λ x h. known x (ground arith)) in rw (f, rest) refl

dependencies_completed_lem :
    (tasks : List TaskContract) (s : WorkflowState) (id : Text) (c : TaskContract)
    → find_contract tasks id ≡ ok c
    → any (λ d. is_none (find_task d s.tasks)) (all_dependencies c) ≡ false
    → dependencies_completed tasks id s.tasks
      ≡ ok (
          all (status_is is_completed s.tasks) c.dependencies
          && all (status_is is_over s.tasks) c.optional_dependencies)
unfolding dependencies_completed
dependencies_completed_lem tasks s id c g n = rw (g, n) refl

ready_among-step :
    (tasks : List TaskContract) (s : WorkflowState) (id : Text) (rest later : List Text)
    (c : TaskContract) (t : WorkflowTask)
    → find_task id s.tasks ≡ some t
    → dependencies_completed tasks id s.tasks
      ≡ ok (
          all (status_is is_completed s.tasks) c.dependencies
          && all (status_is is_over s.tasks) c.optional_dependencies)
    → ready_among tasks s rest ≡ ok later
    → ready_among tasks s (id ∷ rest) ≡ ok (if taken s c t then id ∷ later else later)
unfolding ready_among
ready_among-step tasks s id rest later c t f e h =
    let at : task_at s id ≡ ok t = rw (f, task_at) refl in
    elim (Bool-cases (is_candidate t.status)) [
      | inl can ↦ rw (at, can, e, h) refl
      | inr out ↦ rw (at, out, h) refl
    ]

taken-IsReady :
    (tasks : List TaskContract) (s : WorkflowState) (id : Text) (c : TaskContract)
    (t : WorkflowTask)
    → find_contract tasks id ≡ ok c
    → find_task id s.tasks ≡ some t
    → (taken s c t ≡ true) ↔ IsReady tasks s id
taken-IsReady tasks s id c t g f = (
  λ h.
      let (can, h₁) = &&-eq-true (is_candidate t.status) _ h in
      let (required, optional) =
        &&-eq-true (all (status_is is_completed s.tasks) c.dependencies) _ h₁ in
      record {
        contract = c;
        task = t;
        declared = g;
        filed = f;
        candidate = can;
        required = required;
        optional = optional;
      },
  λ k.
      let same_contract : k.contract ≡ c = cc (g, k.declared) in
      let same_task : k.task ≡ t = cc (f, k.filed) in
      let can = subst (λ (u : WorkflowTask). is_candidate u.status ≡ true) same_task k.candidate in
      let required =
        subst (λ (d : TaskContract). all (status_is is_completed s.tasks) d.dependencies ≡ true)
          same_contract k.required in
      let optional =
        subst (λ (d : TaskContract). all (status_is is_over s.tasks) d.optional_dependencies ≡ true)
          same_contract k.optional in
      rw (can, required, optional) refl,
)

elsewhere :
    (j id : Text) (rest : List Text)
    → text_eq j id ≡ false
    → member text_eq j (id ∷ rest) ≡ true
    → member text_eq j rest ≡ true
elsewhere j id rest ne h = ground arith

-- The list has exactly the ready tasks of another one.
abbrev Selects : List TaskContract → WorkflowState → List Text → List Text → Type 0
Selects tasks s ready rest =
    (j : Text)
    → (member text_eq j ready ≡ true) ↔ ((member text_eq j rest ≡ true) × IsReady tasks s j)

Selects-step :
    (tasks : List TaskContract) (s : WorkflowState) (id : Text) (rest later : List Text)
    (c : TaskContract) (t : WorkflowTask)
    → find_contract tasks id ≡ ok c
    → find_task id s.tasks ≡ some t
    → Selects tasks s later rest
    → Selects tasks s (if taken s c t then id ∷ later else later) (id ∷ rest)
Selects-step tasks s id rest later c t g f k j =
    let drop_if : taken s c t ≡ false
        → member text_eq j (if taken s c t then id ∷ later else later) ≡ true
        → member text_eq j later ≡ true =
      λ e h. subst (λ b. member text_eq j (if b then id ∷ later else later) ≡ true) e h in
    let this = taken-IsReady tasks s id c t g f in
    elim (Bool-cases (text_eq j id)) [
      | inl eq ↦
          let same : j ≡ id = (text_eq_iff j id).0 eq in
          elim (Bool-cases (taken s c t)) [
            | inl yes_taken ↦ (
              λ h. (rw eq refl, subst (IsReady tasks s) (sym same) (this.0 yes_taken)),
              λ h. rw (yes_taken, eq) refl,
            )
            | inr not_taken ↦ (
              λ h. (rw eq refl, ((k j).0 (drop_if not_taken h)).1),
              λ h. absurd (cc (not_taken, this.1 (subst (IsReady tasks s) same h.1))),
            )
          ]
      | inr ne ↦
          let skip : member text_eq j (if taken s c t then id ∷ later else later)
              ≡ member text_eq j later =
            elim (Bool-cases (taken s c t)) [
              | inl yes_taken ↦ rw (yes_taken, ne) refl
              | inr not_taken ↦ rw not_taken refl
            ] in
          (
            λ h. let (i, r) = (k j).0 (sym skip ∙ h) in (rw (ne, i) refl, r),
            λ h. skip ∙ (k j).1 (elsewhere j id rest ne h.0, h.1),
          )
    ]

ready_among_lem :
    (tasks : List TaskContract) (s : WorkflowState) (rest : List Text)
    → ((id : Text)
        → member text_eq id (ids tasks) ≡ true
        → (t : WorkflowTask) × (find_task id s.tasks ≡ some t))
    → ((id : Text) → met tasks (ids tasks) id ≡ true)
    → ((id : Text) → member text_eq id rest ≡ true → member text_eq id (ids tasks) ≡ true)
    → (ready : List Text) × (ready_among tasks s rest ≡ ok ready) × Selects tasks s ready rest
unfolding ready_among
ready_among_lem tasks s [] filed declared known = ([], refl, λ j. (λ h. absurd (cc h), λ h. h.0))
ready_among_lem tasks s (id ∷ rest) filed declared known =
    let (later, e, k) =
      ready_among_lem tasks s rest filed declared (λ j h. known j (ground arith)) in
    let here_known = known id (ground (arith, text_eq_refl id)) in
    let (t, f) = filed id here_known in
    let (c, g) = find_contract-ids tasks id here_known in
    let none_missing =
      all_filed s.tasks (all_dependencies c)
        (λ d h. filed d (find_contract-all tasks (ids tasks) id c d g (declared id) h)) in
    (
      (if taken s c t then id ∷ later else later),
      ready_among-step tasks s id rest later c t f
          (dependencies_completed_lem tasks s id c g none_missing) e,
      Selects-step tasks s id rest later c t g f k,
    )

keys-find_task :
    (states : Tasks) (id : Text)
    → member text_eq id (map (λ q. q.0) states) ≡ true
    → (t : WorkflowTask) × (find_task id states ≡ some t)
keys-find_task [] id h = absurd (cc h)
keys-find_task ((k, t) ∷ states) id h = elim (Bool-cases (text_eq k id)) [
  | inl eq ↦ (t, rw eq refl)
  | inr ne ↦
      let (u, f) =
        keys-find_task states id
          (elsewhere id k (map (λ q. q.0) states) (text_eq-flip k id ne) h) in
      (u, rw ne f)
]

validate_state-filed :
    (tasks : List TaskContract) (s : WorkflowState)
    → validate_state tasks s ≡ ok tt
    → (id : Text) → member text_eq id (ids tasks) ≡ true
    → (t : WorkflowTask) × (find_task id s.tasks ≡ some t)
unfolding validate_state
validate_state-filed tasks s v id h =
    let declared : subset (ids tasks) (map (λ q. q.0) s.tasks) ≡ true = ground arith in
    keys-find_task s.tasks id (subset-Within (ids tasks) (map (λ q. q.0) s.tasks) declared id h)

find_contract-declared :
    (ts : List TaskContract) (id : Text) (c : TaskContract)
    → find_contract ts id ≡ ok c
    → member text_eq id (ids ts) ≡ true
unfolding find_contract
find_contract-declared [] id c h = absurd (cc h)
find_contract-declared (t ∷ ts) id c h = elim (Bool-cases (text_eq t.task_id id)) [
  | inl eq ↦
      let back : text_eq id t.task_id ≡ true =
        (text_eq_iff id t.task_id).1 (sym ((text_eq_iff t.task_id id).0 eq)) in
      rw back refl
  | inr ne ↦
      let later = find_contract-declared ts id c (ground arith) in
      rw (text_eq-flip t.task_id id ne) later
]

-- On a state for the tasks of a graph that was built, `ready_task_ids` never raises, and it lists a
-- task exactly when it is PENDING, READY or RETRY, its required dependencies are COMPLETED, and its
-- optional ones COMPLETED or CANCELLED.
pub ready_task_ids_lem :
    (tasks : List TaskContract) (order : List Text) (s : WorkflowState)
    → dependency_graph tasks ≡ ok order
    → validate_state tasks s ≡ ok tt
    → (listed : List Text) × (ready_task_ids tasks order s ≡ ok listed)
      × ((j : Text) → (member text_eq j listed ≡ true) ↔ IsReady tasks s j)
unfolding ready_task_ids
ready_task_ids_lem tasks order s g v =
    let (same, _) = dependency_graph-ok tasks g in
    let (listed, e, k) =
      ready_among_lem tasks s order (validate_state-filed tasks s v) (dependency_graph-met tasks g)
        (λ j. member-same order (ids tasks) j same) in
    (
      listed,
      rw (v, e) refl,
      λ j. (
        λ h. ((k j).0 h).1,
        λ r. (k j).1 (
          member-same (ids tasks) order j (λ i. sym (same i))
              (find_contract-declared tasks j r.contract r.declared),
          r,
        ),
      ),
    )
