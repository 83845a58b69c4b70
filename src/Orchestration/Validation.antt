-- ===== src/Orchestration/Validation.antt =====
-- orchestration/validation.py: the supervisor's check of a worker's result before any write.
pub mod Acceptance
mod Examples
use affective_belief_persist.Prelude.{
  sorted_ids, subset, Bool, true, false, not, ◌&&◌, ◌||◌, Option, none, some, List, [], ◌∷◌, ◌++◌,
  all, any, map, keep, if◌then◌else◌, Text, codes, text_eq, null, member, without, join_with,
}
use affective_belief_persist.Orchestration.Task.{
  FailureCategory, validation_failure, dependency_missing, schema_mismatch, safety_boundary,
  is_none,
}
use affective_belief_persist.Orchestration.Task.Snapshot.{is_empty}
use affective_belief_persist.Orchestration.Contracts.{
  TaskContract, WorkerArtifactProposal, WorkerResult,
}
use affective_belief_persist.Orchestration.Paths.{pure_parts, starts_with_slash}

-- orchestration/workflow.py: `GateDefinition`
pub record GateDefinition : Type 0 where
  pub gate_id : Text
  pub task_id : Text
  pub required_evidence_artifact_ids : List Text

pub record ResultValidation : Type 0 where
  pub passed : Bool
  pub checks : List Text
  pub failures : List Text
  pub failure_category : Option FailureCategory
  pub retryable : Bool

unfoldable pub safe_relative_path : Text → Bool
unfolding pure_parts
safe_relative_path path =
    not (null path)
    && not (starts_with_slash path)
    && not (member text_eq (codes "..") (pure_parts path))

-- The elements of `set(xs) - set(ys)`.
unfoldable pub set_difference : List Text → List Text → List Text
set_difference [] ys = []
set_difference (x ∷ xs) ys =
    let rest = set_difference xs ys in
    if member text_eq x ys then rest else x ∷ without text_eq x rest

-- set(xs) != set(ys)
abbrev pub sets_differ : List Text → List Text → Bool
sets_differ xs ys = not (subset xs ys && subset ys xs)

-- The local variables `failures`, `category` and `retryable`.
pub record Findings : Type 0 where
  pub failures : List Text
  pub category : Option FailureCategory
  pub retryable : Bool

-- if test: failures.append(reason); category = c
abbrev pub noted_if : Bool → Text → FailureCategory → Findings → Findings
noted_if test reason c f =
    if test then record f { failures = f.failures ++ reason ∷ []; category = some c } else f

abbrev pub listed : Text → List Text → Text
listed start ids = start ++ join_with (codes ", ") (sorted_ids ids)

-- result.error or "worker reported failure"
abbrev pub reported_error : Option Text → Text
reported_error none = codes "worker reported failure"
reported_error (some e) = if null e then codes "worker reported failure" else e

abbrev pub reported : WorkerResult → Findings → Findings
reported r f = record {
  failures = f.failures ++ reported_error r.error ∷ [];
  category = r.failure_category;
  retryable = r.retryable;
}

unfoldable pub check_gate : Option GateDefinition → WorkerResult → Findings → Findings
unfolding set_difference
check_gate none r f = f
check_gate (some g) r f =
    let missing = set_difference g.required_evidence_artifact_ids r.consumed_artifact_ids in
    noted_if (not (is_empty missing)) (listed (codes "missing gate evidence: ") missing)
      dependency_missing f

-- The branch of a result that claims success.
unfoldable pub check_claimed_success :
    TaskContract → WorkerResult → Option GateDefinition → Findings → Findings
unfolding safe_relative_path set_difference check_gate
check_claimed_success t r gate f =
    let ids = map (λ a. a.artifact_id) r.artifacts in
    let paths = map (λ a. a.path) r.artifacts in
    let missing = set_difference t.acceptance_tests r.passed_checks in
    let f₁ =
      noted_if (sets_differ t.expected_artifact_ids ids)
        (codes "proposed artifact IDs do not match expected_artifact_ids") validation_failure f in
    let f₂ =
      noted_if (sets_differ t.output_paths paths)
        (codes "proposed artifact paths do not match output_paths") validation_failure f₁ in
    let f₃ =
      noted_if (any (λ p. not (safe_relative_path p)) paths)
        (codes "an artifact path is absolute or escapes the output root") safety_boundary f₂ in
    let f₄ =
      noted_if (not (is_empty missing)) (listed (codes "missing acceptance checks: ") missing)
        validation_failure f₃ in
    let f₅ =
      noted_if (is_empty r.artifacts && is_none r.no_artifact_reason)
        (codes "successful task returned neither artifacts nor a no-artifact reason")
        schema_mismatch f₄ in
    check_gate gate r f₅

abbrev pub is_validation_failure : Option FailureCategory → Bool
is_validation_failure (some validation_failure) = true
is_validation_failure _ = false

abbrev pub or_validation_failure : Option FailureCategory → Option FailureCategory
or_validation_failure none = some validation_failure
or_validation_failure (some c) = some c

-- The two `return` statements.
abbrev pub conclude : Option GateDefinition → Findings → ResultValidation
conclude gate f =
    if is_empty f.failures
    then record {
      passed = true;
      checks =
          map codes
            ("result_schema_valid" ∷ "artifact_contract_valid" ∷ "acceptance_checks_passed" ∷ [])
          ++ (if is_none gate then [] else codes "gate_evidence_complete" ∷ []);
      failures = [];
      failure_category = none;
      retryable = false;
    }
    else record {
      passed = false;
      checks = codes "result_schema_valid" ∷ [];
      failures = f.failures;
      failure_category = or_validation_failure f.category;
      retryable = f.retryable || is_validation_failure f.category;
    }

unfoldable pub collect_findings : TaskContract → WorkerResult → Option GateDefinition → Findings
unfolding check_claimed_success
collect_findings t r gate =
    let f =
      noted_if (not (text_eq r.task_id t.task_id))
        (codes "result task_id does not match the leased task") schema_mismatch
        (record { failures = []; category = none; retryable = false }) in
    if r.succeeded then check_claimed_success t r gate f else reported r f

unfoldable pub validate_worker_result :
    TaskContract → WorkerResult → Option GateDefinition → ResultValidation
unfolding collect_findings
validate_worker_result t r gate = conclude gate (collect_findings t r gate)
