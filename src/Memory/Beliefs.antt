-- ===== src/Memory/Beliefs.antt =====
-- memory/beliefs.py and memory/update.py: the ledger of belief versions, and what makes new ones.
pub mod Ledger
pub mod History
pub mod Updates
use affective_belief_persist.Prelude.{
  ℕ, ◌+◌, ◌-◌, ◌≤◌, Bool, true, false, not, ◌&&◌, ◌||◌, Option, none, some, List, [], ◌∷◌, ◌++◌,
  any, eqb, ltb, length, if◌then◌else◌, Result, ok, err, ◌>>=◌, ◌>>◌, raise_if, Text, codes,
  text_eq, null, member, subset, sorted_ids,
}
use affective_belief_persist.Memory.{
  Score, Belief, ContractError, evidence_not_disjoint, is_nil, validate_belief, belief_eq,
}
use affective_belief_persist.Memory.Store.{MemoryStoreError, EpisodeStore, get}

-- `BeliefError`, and the `ValueError`s of update.py, by their causes.
pub data BeliefError : Type 0 where
  unknown_evidence : MemoryStoreError → BeliefError
  backward_in_time discarded_evidence hash_mismatch no_evidence not_disjoint : BeliefError
  invalid_belief : ContractError → BeliefError

-- `BeliefLedger`, apart from its store.
abbrev pub Versions : Type 0
Versions = List Belief

-- `current`: the last version of the belief
unfoldable pub current : Versions → Text → Option Belief
current [] id = none
current (b ∷ rest) id = elim (current rest id) [
  | some later ↦ some later
  | none ↦ if text_eq b.belief_id id then some b else none
]

unfoldable pub check_known : EpisodeStore → List Text → Result BeliefError (Unit {0})
check_known s [] = ok tt
check_known s (id ∷ ids) = elim (get s id) [
  | err e ↦ err (unknown_evidence e)
  | ok m ↦ check_known s ids
]

-- A new version is not of an earlier day, and cites what the previous one cites.
unfoldable pub check_order : Belief → Belief → Result BeliefError Bool
check_order previous b = do
  raise_if (ltb b.last_update_day previous.last_update_day) backward_in_time
  raise_if
      (not (subset previous.supporting_evidence_ids b.supporting_evidence_ids)
        || not (subset previous.contradicting_evidence_ids b.contradicting_evidence_ids))
      discarded_evidence
  ok true

-- Whether the previous version allows the new one; `false` is for the same one again.
unfoldable pub check_previous : Option Belief → Belief → Result BeliefError Bool
check_previous none b = ok true
check_previous (some previous) b = if belief_eq previous b then ok false else check_order previous b

unfoldable pub append : EpisodeStore → Versions → Belief → Result BeliefError (Bool × Versions)
append s versions b = do
  check_known s (b.supporting_evidence_ids ++ b.contradicting_evidence_ids)
  is_new ← check_previous (current versions b.belief_id) b
  ok (is_new, (if is_new then versions ++ b ∷ [] else versions))

abbrev pub contract_outcome : Result ContractError (Unit {0}) → Result BeliefError (Unit {0})
contract_outcome (ok u) = ok tt
contract_outcome (err e) = err (invalid_belief e)

unfoldable pub validate_versions : Versions → Result BeliefError (Unit {0})
validate_versions [] = ok tt
validate_versions (b ∷ rest) =
    let later = validate_versions rest in contract_outcome (validate_belief b) >> later

pub record BeliefCheckpoint : Type 0 where
  pub versions : Versions
  pub checkpoint_sha256 : Text

module _ (versions_digest : Versions → Text) where
  -- `BeliefCheckpoint.validate_hash`
  unfoldable pub validate_hash : BeliefCheckpoint → Result BeliefError (Unit {0})
  validate_hash c =
      raise_if (not (text_eq c.checkpoint_sha256 (versions_digest c.versions))) hash_mismatch

  abbrev pub captured : Versions → BeliefCheckpoint
  captured versions = record { versions = versions; checkpoint_sha256 = versions_digest versions }

  -- `checkpoint`, with `BeliefCheckpoint.capture`, which validates what it has put together
  unfoldable pub checkpoint : Versions → Result BeliefError BeliefCheckpoint
  unfolding validate_versions
  checkpoint versions = do
    validate_versions versions
    validate_hash (captured versions)
    ok (captured versions)

-- The loop of `restore`.
unfoldable pub append_all : EpisodeStore → Versions → Versions → Result BeliefError Versions
append_all s versions [] = ok versions
append_all s versions (b ∷ rest) = append s versions b >>= λ out. append_all s out.1 rest

unfoldable pub restore : EpisodeStore → BeliefCheckpoint → Result BeliefError Versions
restore s c = append_all s [] c.versions

abbrev pub half : Score
half = record { above = 1; below = 2 }

abbrev pub zero_score : Score
zero_score = record { above = 0; below = 1 }

-- An empty identifier is none, as `or` takes it.
abbrev pub unknown_belief : Text → Option Text → Belief
unknown_belief relationship_id belief_id = record {
  belief_id = elim belief_id [
    | none ↦ codes "belief-" ++ relationship_id
    | some id ↦ if null id then codes "belief-" ++ relationship_id else id
  ];
  relationship_id = relationship_id;
  relationship_active = none;
  relationship_romantic = none;
  relationship_reciprocal = none;
  partner_reliability = half;
  expected_future_interaction = half;
  confidence = zero_score;
  supporting_evidence_ids = [];
  contradicting_evidence_ids = [];
  last_update_day = 0;
  update_source = codes "deterministic_evidence";
}

-- `initial_belief`; the belief is validated when it is built.
unfoldable pub initial_belief : Text → Option Text → Result BeliefError Belief
initial_belief relationship_id belief_id = do
  contract_outcome (validate_belief (unknown_belief relationship_id belief_id))
  ok (unknown_belief relationship_id belief_id)

-- The elements of a list, each once.
unfoldable pub distinct_ids : List Text → List Text
distinct_ids [] = []
distinct_ids (x ∷ xs) =
    let rest = distinct_ids xs in if member text_eq x rest then rest else x ∷ rest

-- tuple(sorted(set(xs) | set(ys)))
unfoldable pub sorted_union : List Text → List Text → List Text
sorted_union xs ys = sorted_ids (distinct_ids (xs ++ ys))

-- `abs(s - c) / total`, and 0.0 of no evidence
unfoldable pub confidence_of : ℕ → ℕ → Score
confidence_of s c =
    if eqb (s + c) 0 then zero_score else record { above = (s - c) + (c - s); below = s + c }

unfoldable pub update_belief_evidence :
    Belief → ℕ → List Text → List Text → Result BeliefError Belief
update_belief_evidence b day supporting contradicting = do
  let support = sorted_union b.supporting_evidence_ids supporting
  let contradict = sorted_union b.contradicting_evidence_ids contradicting
  raise_if (any (λ x. member text_eq x contradict) support) not_disjoint
  ok (record b {
    supporting_evidence_ids = support;
    contradicting_evidence_ids = contradict;
    confidence = confidence_of (length support) (length contradict);
    last_update_day = day;
    update_source = codes "deterministic_evidence";
  })

pub record BeliefProposal : Type 0 where
  pub proposal_id : Text
  pub relationship_active : Option Bool
  pub relationship_romantic : Option Bool
  pub relationship_reciprocal : Option Bool
  pub partner_reliability : Score
  pub expected_future_interaction : Score
  pub confidence : Score
  pub supporting_evidence_ids : List Text
  pub contradicting_evidence_ids : List Text

abbrev pub belief_of : Belief → BeliefProposal → ℕ → Belief
belief_of b p day = record {
  belief_id = b.belief_id;
  relationship_id = b.relationship_id;
  relationship_active = p.relationship_active;
  relationship_romantic = p.relationship_romantic;
  relationship_reciprocal = p.relationship_reciprocal;
  partner_reliability = p.partner_reliability;
  expected_future_interaction = p.expected_future_interaction;
  confidence = p.confidence;
  supporting_evidence_ids = sorted_ids p.supporting_evidence_ids;
  contradicting_evidence_ids = sorted_ids p.contradicting_evidence_ids;
  last_update_day = day;
  update_source = codes "validated_model_proposal";
}

-- The new belief is validated when it is built.
unfoldable pub accept_validated_proposal : Belief → BeliefProposal → ℕ → Result BeliefError Belief
accept_validated_proposal b p day = do
  raise_if (any (λ x. member text_eq x p.contradicting_evidence_ids) p.supporting_evidence_ids)
      not_disjoint
  raise_if (is_nil p.supporting_evidence_ids && is_nil p.contradicting_evidence_ids) no_evidence
  contract_outcome (validate_belief (belief_of b p day))
  ok (belief_of b p day)
