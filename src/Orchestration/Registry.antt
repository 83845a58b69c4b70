-- ===== src/Orchestration/Registry.antt =====
-- orchestration/registry.py: the agents, the check of their contracts, and the choice of one for a
-- task. Kinds and roles are their texts; the type check of the literals is pydantic's.
pub mod Selection
mod Examples
use affective_belief_persist.Prelude.{
  sorted_ids, unique, ℕ, Bool, true, false, not, ◌&&◌, ◌||◌, Option, none, some, List, [], ◌∷◌, any,
  keep, max, eqb, length, map, if◌then◌else◌, Result, ok, err, ◌>>=◌, ◌>>◌, raise_if, Text, codes,
  text_eq, text_le, member,
}
use affective_belief_persist.Orchestration.Paths.{PathError, normalize_scope, path_is_allowed}

pub record AgentDefinition : Type 0 where
  pub agent_id : Text
  pub kind : Text
  pub role : Text
  pub supported_task_types : List Text
  pub allowed_paths : List Text
  pub required_input_schemas : List Text
  pub output_schemas : List Text
  pub default_timebox_seconds : ℕ
  pub retry_budget : ℕ
  pub escalation_destination : Text
  pub enabled : Bool

-- `AgentRegistryError` and its subclasses, by their causes.
pub data RegistryError : Type 0 where
  path_error : PathError → RegistryError
  duplicate_task_types duplicate_paths wrong_role duplicate_agents : RegistryError
  wrong_supervisors not_registered no_available_agent : RegistryError
  not_authorized : List Text → RegistryError

abbrev pub path_outcome : {A : Type 0} → Result PathError A → Result RegistryError A
path_outcome (ok a) = ok a
path_outcome (err e) = err (path_error e)

unfoldable normalize_all : List Text → Result PathError (List Text)
normalize_all [] = ok []
normalize_all (p ∷ ps) =
    let later = normalize_all ps in do q ← normalize_scope p; qs ← later; ok (q ∷ qs)

-- `AgentDefinition.validate_contract`
unfoldable pub validate_contract : AgentDefinition → Result RegistryError (Unit {0})
unfolding unique normalize_all
validate_contract a = do
  raise_if (not (unique a.supported_task_types)) duplicate_task_types
  paths ← path_outcome (normalize_all a.allowed_paths)
  raise_if (not (unique paths)) duplicate_paths
  raise_if (text_eq a.kind (codes "supervisor") && not (text_eq a.role (codes "supervisor")))
      wrong_role

unfoldable pub allows_path : AgentDefinition → Text → Result PathError Bool
allows_path a path = path_is_allowed path a.allowed_paths

-- The paths that are not allowed, each once.
unfoldable pub denied_paths : AgentDefinition → List Text → Result PathError (List Text)
denied_paths a [] = ok []
denied_paths a (p ∷ ps) =
    let later = denied_paths a ps in
    allows_path a p >>= λ allowed.
    later >>= λ rest. ok (if allowed || member text_eq p rest then rest else p ∷ rest)

unfoldable pub assert_paths_allowed : AgentDefinition → List Text → Result RegistryError (Unit {0})
unfolding sorted_ids denied_paths
assert_paths_allowed a paths = do
  denied ← path_outcome (denied_paths a paths)
  raise_if (not (eqb (length denied) 0)) (not_authorized (sorted_ids denied))

pub record AgentRegistryConfig : Type 0 where
  pub max_concurrent_workers : ℕ
  pub agents : List AgentDefinition

-- `AgentRegistryConfig.validate_agents`
unfoldable pub validate_agents : AgentRegistryConfig → Result RegistryError (Unit {0})
unfolding unique
validate_agents c = do
  raise_if (not (unique (map (λ a. a.agent_id) c.agents))) duplicate_agents
  raise_if (not (eqb (length (keep (λ a. text_eq a.kind (codes "supervisor")) c.agents)) 1))
      wrong_supervisors

-- `max(agent.retry_budget for agent in agents)`, of a list that the config keeps from being empty.
abbrev pub max_retries : List AgentDefinition → ℕ
max_retries [] = 0
max_retries (a ∷ rest) = max a.retry_budget (max_retries rest)

-- `_by_id[agent_id]`: a later agent of the same identifier takes the place of an earlier one.
unfoldable pub find_agent : Text → List AgentDefinition → Option AgentDefinition
find_agent id [] = none
find_agent id (a ∷ rest) = elim (find_agent id rest) [
  | some b ↦ some b
  | none ↦ if text_eq a.agent_id id then some a else none
]

unfoldable pub get : AgentRegistryConfig → Text → Result RegistryError AgentDefinition
unfolding find_agent
get c id = elim (find_agent id c.agents) [ none ↦ err not_registered | some a ↦ ok a ]

-- The arguments of `select`.
pub record Demand : Type 0 where
  pub role : Text
  pub active : List Text
  pub task_type : Option Text
  pub required_paths : List Text

-- any(not agent.allows_path(path) for path in paths), which stops at the first such path
unfoldable pub any_denied : AgentDefinition → List Text → Result PathError Bool
unfolding allows_path
any_denied a [] = ok false
any_denied a (p ∷ ps) =
    let later = any_denied a ps in allows_path a p >>= λ allowed. if allowed then later else ok true

abbrev pub supports : Option Text → List Text → Bool
supports none types = true
supports (some t) types = member text_eq t types

-- Whether the loop of `select` reaches its end for the agent.
unfoldable pub eligible : Demand → AgentDefinition → Result PathError Bool
unfolding any_denied
eligible d a =
    if not a.enabled || (member text_eq a.agent_id d.active || not (text_eq a.role d.role))
    then ok false
    else if not (supports d.task_type a.supported_task_types)
    then ok false
    else any_denied a d.required_paths >>= λ denied. ok (not denied)

unfoldable pub candidates : Demand → List AgentDefinition → Result PathError (List AgentDefinition)
candidates d [] = ok []
candidates d (a ∷ rest) =
    let later = candidates d rest in
    eligible d a >>= λ fits. later >>= λ found. ok (if fits then a ∷ found else found)

-- min(best, *rest, key=lambda agent: agent.agent_id), the first of equals
abbrev pub least_agent : AgentDefinition → List AgentDefinition → AgentDefinition
least_agent best [] = best
least_agent best (a ∷ rest) =
    least_agent (if text_le best.agent_id a.agent_id then best else a) rest

unfoldable pub select : AgentRegistryConfig → Demand → Result RegistryError AgentDefinition
unfolding candidates
select c d = do
  found ← path_outcome (candidates d c.agents)
  elim found [ [] ↦ err no_available_agent | a ∷ rest ↦ ok (least_agent a rest) ]
