-- ===== src/Orchestration/Registry/Examples.antt =====
-- Tests of the agent registry, and its theorems at concrete agents.
use affective_belief_persist.Prelude.{
  ◌≡◌, ◌↔◌, refl, Bool, true, false, some, List, [], ◌∷◌, In, here, there, In_none, Text, ok, err,
  codes,
}
use affective_belief_persist.Orchestration.Paths.{
  path_is_allowed, normalize_repository_path, normalize_scope, covered_by,
}
use affective_belief_persist.Orchestration.Registry.{
  AgentDefinition, AgentRegistryConfig, Demand, not_authorized, duplicate_paths, no_available_agent,
  validate_contract, assert_paths_allowed, validate_agents, get, allows_path, eligible, select,
}
use affective_belief_persist.Orchestration.Registry.Selection.{
  IsSelected, Explained, select-Explained, select_iff,
}

abbrev agent : Text → Text → Text → AgentDefinition
agent id kind role = record {
  agent_id = id;
  kind = kind;
  role = role;
  supported_task_types = codes "code" ∷ [];
  allowed_paths = codes "src/**" ∷ codes "README.md" ∷ [];
  required_input_schemas = [];
  output_schemas = [];
  default_timebox_seconds = 60;
  retry_budget = 1;
  escalation_destination = codes "chief";
  enabled = true;
}

abbrev chief : AgentDefinition
chief = agent (codes "chief") (codes "supervisor") (codes "supervisor")

abbrev ann : AgentDefinition
ann = agent (codes "ann") (codes "specialist") (codes "engineering")

abbrev bob : AgentDefinition
bob = agent (codes "bob") (codes "specialist") (codes "engineering")

abbrev registry : AgentRegistryConfig
registry = record { max_concurrent_workers = 2; agents = chief ∷ bob ∷ ann ∷ [] }

abbrev demand : List Text → Text → Demand
demand active path = record {
  role = codes "engineering";
  active = active;
  task_type = some (codes "code");
  required_paths = path ∷ [];
}

test_contract :
    (validate_contract ann ≡ ok tt)
    × (validate_contract (record ann { allowed_paths = codes "src/**" ∷ codes " src/**/" ∷ [] })
        ≡ err duplicate_paths)
unfolding validate_contract normalize_scope
test_contract = (refl, refl)

test_assert :
    (assert_paths_allowed ann (codes "src/a.py" ∷ codes "README.md" ∷ []) ≡ ok tt)
    × (assert_paths_allowed ann (codes "z" ∷ codes "src/a.py" ∷ codes "b" ∷ codes "z" ∷ [])
        ≡ err (not_authorized (codes "b" ∷ codes "z" ∷ [])))
unfolding assert_paths_allowed allows_path path_is_allowed normalize_repository_path normalize_scope
    covered_by
test_assert = (refl, refl)

-- The first in the order of identifiers, unless it is busy.
test_select :
    (select registry (demand [] (codes "src/a.py")) ≡ ok ann)
    × (select registry (demand (codes "ann" ∷ []) (codes "src/a.py")) ≡ ok bob)
    × (select registry (demand [] (codes "docs/a.md")) ≡ err no_available_agent)
    × (get registry (codes "bob") ≡ ok bob)
unfolding select eligible get path_is_allowed normalize_repository_path normalize_scope covered_by
test_select = (refl, refl, refl, refl)

select-Explained_example :
    Explained registry
      (demand [] (codes "src/a.py"))
      (select registry (demand [] (codes "src/a.py")))
select-Explained_example = select-Explained registry (demand [] (codes "src/a.py"))

registry-valid : validate_agents registry ≡ ok tt
unfolding validate_agents
registry-valid = refl

registry-checked :
    (b : AgentDefinition)
    → In b registry.agents
    → (fits : Bool) × (eligible (demand [] (codes "src/a.py")) b ≡ ok fits)
unfolding eligible path_is_allowed normalize_repository_path normalize_scope covered_by
registry-checked b here = (false, refl)
registry-checked b (there here) = (true, refl)
registry-checked b (there (there here)) = (true, refl)
registry-checked b (there (there (there i))) = absurd (In_none i)

select_iff_example :
    (select registry (demand [] (codes "src/a.py")) ≡ ok ann)
    ↔ IsSelected registry (demand [] (codes "src/a.py")) ann
select_iff_example =
    select_iff registry (demand [] (codes "src/a.py")) ann registry-valid registry-checked
