-- ===== src/Orchestration/Validation/Examples.antt =====
-- Tests of the check of a worker's result, and its theorem at a concrete one.
use affective_belief_persist.Prelude.{
  ◌≡◌, refl, ◌↔◌, true, false, none, some, List, [], ◌∷◌, Text, codes,
}
use affective_belief_persist.Orchestration.Task.{safety_boundary, validation_failure}
use affective_belief_persist.Orchestration.Contracts.{TaskContract, WorkerResult}
use affective_belief_persist.Orchestration.Validation.{
  GateDefinition, safe_relative_path, validate_worker_result,
}
use affective_belief_persist.Orchestration.Validation.Acceptance.{IsAcceptable, passed_iff}

abbrev contract : Text → List Text → TaskContract
contract path tests = record {
  task_id = codes "audit";
  owner = codes "lead";
  task_type = codes "audit";
  gate_id = none;
  dependencies = [];
  optional_dependencies = [];
  optional = false;
  authorized_files = codes "docs/**" ∷ [];
  output_paths = path ∷ [];
  input_artifact_ids = [];
  expected_artifact_ids = codes "report" ∷ [];
  acceptance_tests = tests;
  budget = record {
    max_attempts = 3;
    max_runtime_seconds = 60;
    max_tokens = 100;
    max_cost_usd = 0;
    required_gpu_hours = 0;
  };
}

abbrev success : Text → List Text → WorkerResult
success path checks = record {
  task_id = codes "audit";
  succeeded = true;
  artifacts =
      record {
        artifact_id = codes "report";
        logical_name = codes "report";
        path = path;
        media_type = codes "text/plain";
        content = codes "ok";
      }
      ∷ [];
  consumed_artifact_ids = codes "plan" ∷ [];
  passed_checks = checks;
  no_artifact_reason = none;
  error = none;
  failure_category = none;
  retryable = false;
  tokens_used = 0;
  gpu_hours_used = 0;
}

abbrev gate : GateDefinition
gate = record {
  gate_id = codes "gate-1";
  task_id = codes "audit";
  required_evidence_artifact_ids = codes "plan" ∷ [];
}

test_safe :
    (safe_relative_path (codes "out/a.json") ≡ true)
    × (safe_relative_path (codes "../a") ≡ false)
    × (safe_relative_path (codes "/a") ≡ false)
unfolding safe_relative_path
test_safe = (refl, refl, refl)

-- A path that escapes the root is not retried, but it is when a check is missing as well: the later
-- category takes the place of the safety boundary.
test_escape :
    ((validate_worker_result
        (contract (codes "../a") [])
        (success (codes "../a") [])
        none).failure_category
      ≡ some safety_boundary)
    × ((validate_worker_result
          (contract (codes "../a") [])
          (success (codes "../a") [])
          none).retryable
        ≡ false)
unfolding validate_worker_result
test_escape = (refl, refl)

test_masked_escape :
    ((validate_worker_result
        (contract (codes "../a") (codes "lint" ∷ []))
        (success (codes "../a") [])
        none).failure_category
      ≡ some validation_failure)
    × ((validate_worker_result
          (contract (codes "../a") (codes "lint" ∷ []))
          (success (codes "../a") [])
          none).retryable
        ≡ true)
unfolding validate_worker_result
test_masked_escape = (refl, refl)

passed_iff_example :
    ((validate_worker_result
        (contract (codes "a") (codes "lint" ∷ []))
        (success (codes "a") (codes "lint" ∷ []))
        (some gate)).passed
      ≡ true)
    ↔ IsAcceptable
        (contract (codes "a") (codes "lint" ∷ []))
        (success (codes "a") (codes "lint" ∷ []))
        (some gate)
passed_iff_example =
    passed_iff (contract (codes "a") (codes "lint" ∷ [])) (success (codes "a") (codes "lint" ∷ []))
      (some gate)
