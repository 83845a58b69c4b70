-- ===== src/Orchestration/Graph/Examples.antt =====
-- Tests of the dependency graph, and its theorems at concrete tasks.
use affective_belief_persist.Prelude.{
  sorted_ids, ℕ, ◌≡◌, ◌≢◌, refl, true, false, none, List, [], ◌∷◌, arith, ok, err, codes, Text,
}
use affective_belief_persist.Orchestration.Contracts.{TaskContract}
use affective_belief_persist.Orchestration.Graph.{
  out_of_fuel, dependency_cycle, missing_dependencies, duplicate_task_ids, ids, dependency_graph,
  topological_order, drain, dependents, indegree,
}
use affective_belief_persist.Orchestration.Graph.Multisets.{SameItems}
use affective_belief_persist.Orchestration.Graph.Order.{respects}
use affective_belief_persist.Orchestration.Graph.Topological.{
  IsRanked, dependency_graph-ok, dependency_graph-ne-out_of_fuel, dependency_graph-ne-cycle,
}

abbrev task : Text → List Text → List Text → TaskContract
task id required optional = record {
  task_id = id;
  owner = codes "engineering";
  task_type = codes "build";
  gate_id = none;
  dependencies = required;
  optional_dependencies = optional;
  optional = false;
  authorized_files = codes "src/**" ∷ [];
  output_paths = [];
  input_artifact_ids = [];
  expected_artifact_ids = [];
  acceptance_tests = codes "unit" ∷ [];
  budget = record {
    max_attempts = 2;
    max_runtime_seconds = 60;
    max_tokens = 0;
    max_cost_usd = 0;
    required_gpu_hours = 0;
  };
}

-- `c` needs `b`, and `a` if it can be had; `b` needs `a`.
abbrev chain : List TaskContract
chain =
    task (codes "c") (codes "b" ∷ []) (codes "a" ∷ [])
    ∷ task (codes "a") [] []
    ∷ task (codes "b") (codes "a" ∷ []) []
    ∷ []

test_order : dependency_graph chain ≡ ok (codes "a" ∷ codes "b" ∷ codes "c" ∷ [])
unfolding dependency_graph topological_order drain indegree dependents sorted_ids
test_order = refl

abbrev loop : List TaskContract
loop = task (codes "a") (codes "b" ∷ []) [] ∷ task (codes "b") (codes "a" ∷ []) [] ∷ []

test_errors :
    (dependency_graph loop ≡ err dependency_cycle)
    × (dependency_graph (task (codes "a") (codes "x" ∷ []) [] ∷ []) ≡ err missing_dependencies)
    × (dependency_graph (task (codes "a") [] [] ∷ task (codes "a") [] [] ∷ [])
        ≡ err duplicate_task_ids)
unfolding dependency_graph topological_order drain indegree dependents sorted_ids
test_errors = (refl, refl, refl)

dependency_graph-ok_example :
    SameItems (codes "a" ∷ codes "b" ∷ codes "c" ∷ []) (ids chain)
    × (respects chain [] (codes "a" ∷ codes "b" ∷ codes "c" ∷ []) ≡ true)
dependency_graph-ok_example = dependency_graph-ok chain test_order

dependency_graph-ne-out_of_fuel_example : dependency_graph loop ≢ err out_of_fuel
dependency_graph-ne-out_of_fuel_example = dependency_graph-ne-out_of_fuel loop

-- The place of the letter.
abbrev rank : Text → ℕ
rank [] = 0
rank (c ∷ s) = c

chain-IsRanked : IsRanked rank chain
chain-IsRanked = omega arith

dependency_graph-ne-cycle_example : dependency_graph chain ≢ err dependency_cycle
dependency_graph-ne-cycle_example = dependency_graph-ne-cycle chain rank chain-IsRanked
