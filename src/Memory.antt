-- ===== src/Memory.antt =====
-- memory/contracts.py: the records of episodic memory and their validation. A score is the exact
-- ratio of two natural numbers where the source has a float in [0, 1]; constant fields are left out,
-- and the constraints of fields are checked for `Belief` only, since an update does not check them.
pub mod Store
pub mod Beliefs
mod Examples
use affective_belief_persist.Prelude.{
  ℕ, ◌*◌, Bool, true, false, not, ◌&&◌, ◌||◌, Option, none, some, List, [], ◌∷◌, map, any, all, eqb,
  leb, ltb, codes, is_identifier, Result, ok, ◌>>◌, raise_if, Text, text_eq, member, unique, subset,
}

-- `Score`
pub record Score : Type 0 where
  pub above : ℕ
  pub below : ℕ

abbrev pub score_eq : Score → Score → Bool
score_eq s t = eqb (s.above * t.below) (t.above * s.below)

pub record ObservableMemoryFact : Type 0 where
  pub fact_id : Text
  pub proposition : Text
  pub truth : Bool

pub record MemoryInterpretation : Type 0 where
  pub interpretation_id : Text
  pub proposition : Text
  pub fact_ids : List Text
  pub ledger_supported : Bool
  pub revision : ℕ

pub record MemoryProvenance : Type 0 where
  pub source_event_id : Text
  pub source_record_sha256 : Text
  pub source_candidate_id : Text
  pub formation_condition : Text

pub record Memory : Type 0 where
  pub memory_id : Text
  pub source_event_id : Text
  pub simulation_day : ℕ
  pub participants : List Text
  pub observable_facts : List ObservableMemoryFact
  pub interpretation : Option MemoryInterpretation
  pub summary : Text
  pub outcome : Text
  pub resource_cost : ℕ
  pub salience : Score
  pub retrieval_count : ℕ
  pub goal_ids : List Text
  pub condition_tags : List Text
  pub partner_related : Bool
  pub retrieval_eligible : Bool
  pub provenance : MemoryProvenance

pub data ContractError : Type 0 where
  not_unique source_events_differ foreign_facts evidence_not_disjoint : ContractError
  confidence_without_evidence field_constraint : ContractError

abbrev pub fact_ids_of : Memory → List Text
fact_ids_of m = map (λ f. f.fact_id) m.observable_facts

-- `MemoryInterpretation.validate_fact_ids`
unfoldable pub validate_fact_ids : MemoryInterpretation → Result ContractError (Unit {0})
unfolding unique
validate_fact_ids i = raise_if (not (unique i.fact_ids)) not_unique

abbrev pub cites_other_facts : Option MemoryInterpretation → List Text → Bool
cites_other_facts none facts = false
cites_other_facts (some i) facts = not (subset i.fact_ids facts)

-- `Memory.validate_episode`
unfoldable pub validate_episode : Memory → Result ContractError (Unit {0})
unfolding unique
validate_episode m = do
  raise_if
      (not (unique m.participants)
        || (not (unique (fact_ids_of m))
            || (not (unique m.goal_ids) || not (unique m.condition_tags))))
      not_unique
  raise_if (not (text_eq m.source_event_id m.provenance.source_event_id)) source_events_differ
  raise_if (cites_other_facts m.interpretation (fact_ids_of m)) foreign_facts

abbrev pub bool_eq : Bool → Bool → Bool
bool_eq true b = b
bool_eq false b = not b

-- Equality of two lists or options, by that of their elements.
abbrev pub list_eq : {A : Type 0} → (A → A → Bool) → List A → List A → Bool
list_eq eq [] [] = true
list_eq eq [] (y ∷ ys) = false
list_eq eq (x ∷ xs) [] = false
list_eq eq (x ∷ xs) (y ∷ ys) = eq x y && list_eq eq xs ys

abbrev pub option_eq : {A : Type 0} → (A → A → Bool) → Option A → Option A → Bool
option_eq eq none none = true
option_eq eq none (some y) = false
option_eq eq (some x) none = false
option_eq eq (some x) (some y) = eq x y

abbrev pub fact_eq : ObservableMemoryFact → ObservableMemoryFact → Bool
fact_eq f g =
    text_eq f.fact_id g.fact_id && (text_eq f.proposition g.proposition && bool_eq f.truth g.truth)

abbrev pub interpretation_eq : MemoryInterpretation → MemoryInterpretation → Bool
interpretation_eq i j =
    text_eq i.interpretation_id j.interpretation_id
    && (text_eq i.proposition j.proposition
        && (list_eq text_eq i.fact_ids j.fact_ids
            && (bool_eq i.ledger_supported j.ledger_supported && eqb i.revision j.revision)))

abbrev pub provenance_eq : MemoryProvenance → MemoryProvenance → Bool
provenance_eq p q =
    text_eq p.source_event_id q.source_event_id
    && (text_eq p.source_record_sha256 q.source_record_sha256
        && (text_eq p.source_candidate_id q.source_candidate_id
            && text_eq p.formation_condition q.formation_condition))

-- `existing == memory`
unfoldable pub memory_eq : Memory → Memory → Bool
memory_eq m n =
    (text_eq m.memory_id n.memory_id
      && (text_eq m.source_event_id n.source_event_id
          && (eqb m.simulation_day n.simulation_day
              && (list_eq text_eq m.participants n.participants
                  && list_eq fact_eq m.observable_facts n.observable_facts))))
    && ((option_eq interpretation_eq m.interpretation n.interpretation
          && (text_eq m.summary n.summary
              && (text_eq m.outcome n.outcome
                  && (eqb m.resource_cost n.resource_cost && score_eq m.salience n.salience))))
        && ((eqb m.retrieval_count n.retrieval_count
              && (list_eq text_eq m.goal_ids n.goal_ids
                  && list_eq text_eq m.condition_tags n.condition_tags))
            && (bool_eq m.partner_related n.partner_related
                && (bool_eq m.retrieval_eligible n.retrieval_eligible
                    && provenance_eq m.provenance n.provenance))))

pub record Belief : Type 0 where
  pub belief_id : Text
  pub relationship_id : Text
  pub relationship_active : Option Bool
  pub relationship_romantic : Option Bool
  pub relationship_reciprocal : Option Bool
  pub partner_reliability : Score
  pub expected_future_interaction : Score
  pub confidence : Score
  pub supporting_evidence_ids : List Text
  pub contradicting_evidence_ids : List Text
  pub last_update_day : ℕ
  pub update_source : Text

abbrev pub is_nil : List Text → Bool
is_nil [] = true
is_nil (x ∷ xs) = false

-- `Belief.validate_evidence`
unfoldable pub validate_evidence : Belief → Result ContractError (Unit {0})
unfolding unique
validate_evidence b = do
  raise_if (not (unique b.supporting_evidence_ids) || not (unique b.contradicting_evidence_ids))
      not_unique
  raise_if (any (λ x. member text_eq x b.contradicting_evidence_ids) b.supporting_evidence_ids)
      evidence_not_disjoint
  raise_if
      (is_nil b.supporting_evidence_ids
        && (is_nil b.contradicting_evidence_ids && not (eqb b.confidence.above 0)))
      confidence_without_evidence

-- ge=0, le=1
abbrev pub is_score : Score → Bool
is_score s = leb s.above s.below && ltb 0 s.below

-- The constraints of the fields of `Belief`.
abbrev pub is_source : Text → Bool
is_source s =
    text_eq s (codes "deterministic_evidence") || text_eq s (codes "validated_model_proposal")

abbrev pub names_fit : Belief → Bool
names_fit b = is_identifier b.belief_id && is_identifier b.relationship_id

abbrev pub scores_fit : Belief → Bool
scores_fit b = is_score b.partner_reliability && is_score b.expected_future_interaction

abbrev pub evidence_fits : Belief → Bool
evidence_fits b =
    all is_identifier b.supporting_evidence_ids && all is_identifier b.contradicting_evidence_ids

abbrev pub last_day : ℕ
last_day = 40

-- The validation of the model: the fields, then the evidence.
unfoldable pub validate_belief : Belief → Result ContractError (Unit {0})
unfolding validate_evidence
validate_belief b = do
  raise_if (not (names_fit b)) field_constraint
  raise_if (not (scores_fit b)) field_constraint
  raise_if (not (is_score b.confidence)) field_constraint
  raise_if (not (evidence_fits b)) field_constraint
  raise_if (not (leb b.last_update_day last_day)) field_constraint
  raise_if (not (is_source b.update_source)) field_constraint
  validate_evidence b

-- `previous == belief`
unfoldable pub belief_eq : Belief → Belief → Bool
belief_eq a b =
    (text_eq a.belief_id b.belief_id
      && (text_eq a.relationship_id b.relationship_id
          && (option_eq bool_eq a.relationship_active b.relationship_active
              && (option_eq bool_eq a.relationship_romantic b.relationship_romantic
                  && option_eq bool_eq a.relationship_reciprocal b.relationship_reciprocal))))
    && ((score_eq a.partner_reliability b.partner_reliability
          && (score_eq a.expected_future_interaction b.expected_future_interaction
              && score_eq a.confidence b.confidence))
        && (list_eq text_eq a.supporting_evidence_ids b.supporting_evidence_ids
            && (list_eq text_eq a.contradicting_evidence_ids b.contradicting_evidence_ids
                && (eqb a.last_update_day b.last_update_day
                    && text_eq a.update_source b.update_source))))
