-- ===== src/Orchestration/Graph.antt =====
-- orchestration/graph.py: the dependency graph and its topological order.
pub mod Counting
pub mod Multisets
pub mod Degrees
pub mod Order
pub mod Topological
mod Examples
use affective_belief_persist.Prelude.{
  insert_id, sorted_ids, subset, ℕ, zero, suc, ◌+◌, ◌-◌, Bool, true, false, not, ◌&&◌, ◌||◌, Option,
  none, some, List, [], ◌∷◌, ◌++◌, map, all, any, keep, length, eqb, if◌then◌else◌, Result, ok, err,
  ◌>>=◌, ◌>>◌, raise_if, Text, text_eq, text_le, member, count_distinct,
}
use affective_belief_persist.Orchestration.Contracts.{TaskContract}

-- `out_of_fuel` is no error of the program: the model of the loop gives it when its fuel runs out.
pub data GraphError : Type 0 where
  duplicate_task_ids missing_dependencies dependency_cycle unknown_task : GraphError
  missing_state out_of_fuel : GraphError

-- (*task.dependencies, *task.optional_dependencies)
abbrev pub all_dependencies : TaskContract → List Text
all_dependencies t = t.dependencies ++ t.optional_dependencies

abbrev pub ids : List TaskContract → List Text
ids tasks = map (λ t. t.task_id) tasks

-- `_validate_dependencies`: every dependency is a declared task.
unfoldable pub validate_dependencies : List TaskContract → Result GraphError (Unit {0})
validate_dependencies tasks =
    raise_if (not (all (λ t. subset (all_dependencies t) (ids tasks)) tasks)) missing_dependencies

-- The identifier of `t`, once for each of the dependencies that is `d`.
abbrev pub repeated : Text → Text → List Text → List Text
repeated id d [] = []
repeated id d (x ∷ xs) = let rest = repeated id d xs in if text_eq x d then id ∷ rest else rest

-- `dependents[d]` after the loop that fills it.
unfoldable pub dependents : List TaskContract → Text → List Text
dependents [] d = []
dependents (t ∷ ts) d = repeated t.task_id d (all_dependencies t) ++ dependents ts d

-- The dict `indegree` as a function; it starts with the number of dependencies.
abbrev pub Degrees : Type 0
Degrees = Text → ℕ

unfoldable pub indegree : List TaskContract → Degrees
indegree [] id = 0
indegree (t ∷ ts) id =
    let rest = indegree ts id in if text_eq t.task_id id then length (all_dependencies t) else rest

abbrev pub lowered : Degrees → Text → Degrees
lowered deg d id = if text_eq d id then deg id - 1 else deg id

-- The `for dependent in sorted(dependents[task_id])` loop.
unfoldable pub release : Degrees → List Text → List Text → Degrees × List Text
unfolding insert_id
release deg available [] = (deg, available)
release deg available (d ∷ ds) =
    release (lowered deg d) (if eqb (lowered deg d d) 0 then insert_id d available else available)
      ds

-- The `while available` loop.
unfoldable pub drain : List TaskContract → ℕ → List Text → Degrees → List Text → Option (List Text)
unfolding release sorted_ids dependents
drain tasks zero ordered deg available = none
drain tasks (suc fuel) ordered deg [] = some ordered
drain tasks (suc fuel) ordered deg (id ∷ available) =
    let (deg', available') = release deg available (sorted_ids (dependents tasks id)) in
    drain tasks fuel (ordered ++ id ∷ []) deg' available'

-- The identifiers of the tasks with no dependency, sorted.
abbrev pub sources : List TaskContract → List Text
sources tasks = sorted_ids (keep (λ id. eqb (indegree tasks id) 0) (ids tasks))

unfoldable pub topological_order : List TaskContract → Result GraphError (List Text)
topological_order tasks =
    elim (drain tasks (length tasks + 1) [] (indegree tasks) (sources tasks)) [
      | none ↦ err out_of_fuel
      | some ordered ↦
          if eqb (length ordered) (length tasks) then ok ordered else err dependency_cycle
    ]

-- `DependencyGraph.__init__`: the tasks in the order in which `task_ids` lists them.
unfoldable pub dependency_graph : List TaskContract → Result GraphError (List Text)
unfolding validate_dependencies
dependency_graph tasks = do
  raise_if (not (eqb (count_distinct text_eq (ids tasks)) (length tasks))) duplicate_task_ids
  validate_dependencies tasks
  topological_order tasks
