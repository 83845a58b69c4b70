-- ===== src/Orchestration/Contracts.antt =====
-- orchestration/contracts.py: the static task contract and the worker's result envelope.
use affective_belief_persist.Prelude.{
  unique, ℕ, Bool, not, ◌&&◌, ◌||◌, Option, List, [], ◌∷◌, any, all, map, eqb, length,
  if◌then◌else◌, Result, ◌>>◌, raise_if, Text, text_eq, member,
}
use affective_belief_persist.Orchestration.Task.{FailureCategory, is_none}
use affective_belief_persist.Orchestration.Task.Snapshot.{is_empty}

-- GPU hours and dollars are floats by rank, which natural numbers are.
pub record TaskBudget : Type 0 where
  pub max_attempts : ℕ
  pub max_runtime_seconds : ℕ
  pub max_tokens : ℕ
  pub max_cost_usd : ℕ
  pub required_gpu_hours : ℕ

pub record TaskContract : Type 0 where
  pub task_id : Text
  pub owner : Text
  pub task_type : Text
  pub gate_id : Option Text
  pub dependencies : List Text
  pub optional_dependencies : List Text
  pub optional : Bool
  pub authorized_files : List Text
  pub output_paths : List Text
  pub input_artifact_ids : List Text
  pub expected_artifact_ids : List Text
  pub acceptance_tests : List Text
  pub budget : TaskBudget

pub data ContractError : Type 0 where
  duplicates self_dependency optional_self_dependency overlapping_dependencies : ContractError
  unequal_lengths failure_metadata artifacts_and_reason failure_incomplete : ContractError
  failure_with_outputs duplicate_artifacts : ContractError

-- `validate_collections`
unfoldable pub validate_collections : TaskContract → Result ContractError (Unit {0})
unfolding unique
validate_collections t = do
  raise_if
      (not (
        all unique (
          t.dependencies ∷ t.optional_dependencies ∷ t.authorized_files ∷ t.output_paths
          ∷ t.input_artifact_ids ∷ t.expected_artifact_ids ∷ t.acceptance_tests ∷ [])))
      duplicates
  raise_if (member text_eq t.task_id t.dependencies) self_dependency
  raise_if (member text_eq t.task_id t.optional_dependencies) optional_self_dependency
  raise_if (any (λ d. member text_eq d t.optional_dependencies) t.dependencies)
      overlapping_dependencies
  raise_if (not (eqb (length t.expected_artifact_ids) (length t.output_paths))) unequal_lengths

pub record WorkerArtifactProposal : Type 0 where
  pub artifact_id : Text
  pub logical_name : Text
  pub path : Text
  pub media_type : Text
  pub content : Text

pub record WorkerResult : Type 0 where
  pub task_id : Text
  pub succeeded : Bool
  pub artifacts : List WorkerArtifactProposal
  pub consumed_artifact_ids : List Text
  pub passed_checks : List Text
  pub no_artifact_reason : Option Text
  pub error : Option Text
  pub failure_category : Option FailureCategory
  pub retryable : Bool
  pub tokens_used : ℕ
  pub gpu_hours_used : ℕ

check_success : WorkerResult → Result ContractError (Unit {0})
check_success r = do
  raise_if (not (is_none r.error) || (not (is_none r.failure_category) || r.retryable))
      failure_metadata
  raise_if (not (is_empty r.artifacts) && not (is_none r.no_artifact_reason)) artifacts_and_reason

check_failure : WorkerResult → Result ContractError (Unit {0})
check_failure r = do
  raise_if (is_none r.error || is_none r.failure_category) failure_incomplete
  raise_if (not (is_empty r.artifacts) || not (is_none r.no_artifact_reason)) failure_with_outputs

-- `validate_result_shape`
unfoldable pub validate_result_shape : WorkerResult → Result ContractError (Unit {0})
unfolding unique check_success check_failure
validate_result_shape r = do
  if r.succeeded then check_success r else check_failure r
  raise_if (not (unique (map (λ a. a.artifact_id) r.artifacts))) duplicate_artifacts
