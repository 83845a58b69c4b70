-- ===== src/Memory/Examples.antt =====
-- Tests of the memory, and its theorems at concrete episodes and beliefs.
use affective_belief_persist.Prelude.{
  ℕ, ◌≡◌, ◌⊎◌, refl, true, false, not, none, some, List, [], ◌∷◌, ◌++◌, Text, ok, err, codes,
  sorted_ids, unique, is_identifier, arith, if◌then◌else◌,
}
use affective_belief_persist.Memory.{
  Memory, MemoryInterpretation, Belief, validate_episode, memory_eq, validate_evidence, belief_eq,
  validate_belief, field_constraint,
}
use affective_belief_persist.Memory.Store.{
  EpisodeStore, RetrievalAccess, InterpretationReframe, ReframeRequest, different_evidence,
  wrong_revision, empty_store, append, raw, get, view, put_access, record_retrieval,
  interpretation_of, put_reframe, reframe, checkpoint, validate_hash, restore, find_reframe,
}
use affective_belief_persist.Memory.Store.Calls.{
  Call, append_call, retrieval_call, reframe_call, run_calls,
}
use affective_belief_persist.Memory.Store.Replay.{restore-checkpoint}
use affective_belief_persist.Memory.Store.Evidence.{KeepsEvidence, run_calls-KeepsEvidence}
use affective_belief_persist.Memory.Store.Repeats.{IsNew, reframe-outcome, record_retrieval-twice}
use affective_belief_persist.Memory.Beliefs
use affective_belief_persist.Memory.Beliefs.{
  not_disjoint, no_evidence, Versions, current, check_known, check_order, check_previous, half,
  initial_belief, distinct_ids, sorted_union, confidence_of, update_belief_evidence,
  accept_validated_proposal, BeliefCheckpoint, BeliefError, validate_versions, invalid_belief,
}
use affective_belief_persist.Memory.Beliefs.Ledger.{Reachable, opened, appended, restore-reached}
use affective_belief_persist.Memory.Beliefs.History.{IsLedger, Reachable-IsLedger}
use affective_belief_persist.Memory.Beliefs.Updates.{
  IsUpdated, update_belief_evidence-IsUpdated, append-update,
}

abbrev access_digest : Text → Text → ℕ → Text
access_digest retrieval_id id day = day ∷ retrieval_id ++ id

abbrev reframe_digest : ReframeRequest → Text → Text
reframe_digest r prior = r.interpretation.interpretation_id ++ prior

abbrev store_digest : EpisodeStore → Text
store_digest s = codes "sealed"

abbrev reading : Text → ℕ → MemoryInterpretation
reading id revision = record {
  interpretation_id = id;
  proposition = codes "a professional event";
  fact_ids = codes "fact" ∷ [];
  ledger_supported = true;
  revision = revision;
}

abbrev episode : Text → Memory
episode id = record {
  memory_id = id;
  source_event_id = codes "event";
  simulation_day = 3;
  participants = codes "ari" ∷ [];
  observable_facts =
      record { fact_id = codes "fact"; proposition = codes "they met"; truth = true } ∷ [];
  interpretation = some (reading (codes "first") 1);
  summary = codes "met";
  outcome = codes "done";
  resource_cost = 2;
  salience = record { above = 1; below = 2 };
  retrieval_count = 0;
  goal_ids = [];
  condition_tags = [];
  partner_related = true;
  retrieval_eligible = true;
  provenance = record {
    source_event_id = codes "event";
    source_record_sha256 = codes "0a";
    source_candidate_id = codes "candidate";
    formation_condition = codes "base";
  };
}

abbrev request : ReframeRequest
request = record {
  memory_id = codes "a";
  interpretation = reading (codes "second") 2;
  intervention_id = codes "reframing";
  reason = codes "declared";
}

abbrev calls : List Call
calls =
    append_call (episode (codes "a"))
    ∷ append_call (episode (codes "b"))
    ∷ retrieval_call (codes "r") (codes "a" ∷ codes "z" ∷ []) 4
    ∷ reframe_call request
    ∷ reframe_call request
    ∷ []

-- A store with the one episode.
abbrev store : EpisodeStore
store = record empty_store { episodes = episode (codes "a") ∷ [] }

test_append :
    (validate_episode (episode (codes "a")) ≡ ok tt)
    × (append empty_store (episode (codes "a")) ≡ ok (true, store))
    × (append store (episode (codes "a")) ≡ ok (false, store))
    × (append store (record (episode (codes "a")) { resource_cost = 3 }) ≡ err different_evidence)
unfolding validate_episode append memory_eq
test_append = (refl, refl, refl, refl)

-- The second of the two equal reframes is refused, and the unknown episode ends the retrieval.
test_calls :
    let s = run_calls access_digest reframe_digest empty_store calls in
    (get s (codes "a")
      ≡ ok (record (episode (codes "a")) {
        interpretation = some (reading (codes "second") 2);
        retrieval_count = 1;
      }))
    × (reframe reframe_digest s request ≡ err wrong_revision)
unfolding append raw get view record_retrieval put_access reframe put_reframe interpretation_of
test_calls = (refl, refl)

restore-checkpoint_example :
    let s = run_calls access_digest reframe_digest empty_store calls in
    (validate_hash store_digest (checkpoint store_digest s) ≡ ok tt)
    × (restore (checkpoint store_digest s) ≡ ok s)
restore-checkpoint_example = restore-checkpoint access_digest reframe_digest store_digest calls

store-get : get store (codes "a") ≡ ok (episode (codes "a"))
unfolding get raw view
store-get = refl

run_calls-KeepsEvidence_example :
    (w : Memory) × (get (run_calls access_digest reframe_digest store calls) (codes "a") ≡ ok w)
    × KeepsEvidence (episode (codes "a")) w
run_calls-KeepsEvidence_example =
    run_calls-KeepsEvidence access_digest reframe_digest store (codes "a") (episode (codes "a"))
      calls store-get

abbrev reframed : InterpretationReframe
reframed = record {
  reframe_id = codes "secondfirst";
  memory_id = codes "a";
  prior_interpretation_id = codes "first";
  interpretation = reading (codes "second") 2;
  intervention_id = codes "reframing";
  reason = codes "declared";
}

store-reframe :
    reframe reframe_digest store request ≡ ok (reframed, record store { reframes = reframed ∷ [] })
unfolding reframe get raw view interpretation_of put_reframe
store-reframe = refl

reframe-outcome_example :
    ((find_reframe reframed.reframe_id store.reframes ≡ some reframed)
      × (record store { reframes = reframed ∷ [] } ≡ store))
    ⊎ IsNew reframe_digest store request (reframed, record store { reframes = reframed ∷ [] })
reframe-outcome_example =
    reframe-outcome reframe_digest store request
      (reframed, record store { reframes = reframed ∷ [] }) store-reframe

abbrev access : RetrievalAccess
access = record {
  access_id = access_digest (codes "r") (codes "a") 4;
  retrieval_id = codes "r";
  memory_id = codes "a";
  simulation_day = 4;
}

abbrev retrieved : EpisodeStore
retrieved = record store { retrieval_accesses = access ∷ [] }

store-retrieval :
    record_retrieval access_digest store (codes "r") (codes "a" ∷ codes "a" ∷ []) 4
    ≡ (ok tt, retrieved)
unfolding record_retrieval raw put_access
store-retrieval = refl

record_retrieval-twice_example :
    record_retrieval access_digest retrieved (codes "r") (codes "a" ∷ codes "a" ∷ []) 4
    ≡ (ok tt, retrieved)
record_retrieval-twice_example =
    record_retrieval-twice access_digest (codes "r") 4 store retrieved (codes "a" ∷ codes "a" ∷ [])
      store-retrieval

abbrev belief : Text → ℕ → ℕ → List Text → Belief
belief id above day supporting = record {
  belief_id = id;
  relationship_id = codes "ari-mira";
  relationship_active = none;
  relationship_romantic = none;
  relationship_reciprocal = none;
  partner_reliability = half;
  expected_future_interaction = half;
  confidence = record { above = above; below = 1 };
  supporting_evidence_ids = supporting;
  contradicting_evidence_ids = [];
  last_update_day = day;
  update_source = codes "deterministic_evidence";
}

abbrev first_belief : Belief
first_belief = belief (codes "belief-ari-mira") 0 0 []

abbrev next_belief : Belief
next_belief = belief (codes "belief-ari-mira") 1 4 (codes "a" ∷ [])

test_initial :
    (initial_belief (codes "ari-mira") none ≡ ok first_belief)
    × (validate_evidence first_belief ≡ ok tt)
unfolding initial_belief validate_belief is_identifier validate_evidence unique
test_initial = (refl, refl)

first_belief-update :
    update_belief_evidence first_belief 4 (codes "a" ∷ codes "a" ∷ []) [] ≡ ok next_belief
unfolding update_belief_evidence sorted_union distinct_ids sorted_ids confidence_of
first_belief-update = refl

test_update : update_belief_evidence next_belief 5 [] (codes "a" ∷ []) ≡ err not_disjoint
unfolding update_belief_evidence sorted_union distinct_ids sorted_ids
test_update = refl

test_proposal :
    accept_validated_proposal first_belief
      (record {
        proposal_id = [];
        relationship_active = some true;
        relationship_romantic = none;
        relationship_reciprocal = none;
        partner_reliability = half;
        expected_future_interaction = half;
        confidence = half;
        supporting_evidence_ids = [];
        contradicting_evidence_ids = [];
      })
      4
    ≡ err no_evidence
unfolding accept_validated_proposal
test_proposal = refl

update_belief_evidence-IsUpdated_example :
    IsUpdated first_belief 4 (codes "a" ∷ codes "a" ∷ []) [] next_belief
update_belief_evidence-IsUpdated_example =
    update_belief_evidence-IsUpdated first_belief 4 (codes "a" ∷ codes "a" ∷ []) [] next_belief
      first_belief-update

first_belief-current : current (first_belief ∷ []) first_belief.belief_id ≡ some first_belief
unfolding current
first_belief-current = refl

next_belief-known :
    check_known store
      (next_belief.supporting_evidence_ids ++ next_belief.contradicting_evidence_ids)
    ≡ ok tt
unfolding check_known get raw
next_belief-known = refl

append-update_example :
    Beliefs.append store (first_belief ∷ []) next_belief
    ≡ ok (
      not (belief_eq first_belief next_belief),
      (if belief_eq first_belief next_belief
          then first_belief ∷ []
          else first_belief ∷ next_belief ∷ []),
    )
append-update_example =
    append-update store (first_belief ∷ []) first_belief 4 (codes "a" ∷ codes "a" ∷ []) []
      next_belief first_belief-current (omega arith) first_belief-update next_belief-known

first_append : Beliefs.append store [] first_belief ≡ ok (true, first_belief ∷ [])
unfolding Beliefs.append check_known current check_previous
first_append = refl

next_append :
    Beliefs.append store (first_belief ∷ []) next_belief
    ≡ ok (true, first_belief ∷ next_belief ∷ [])
unfolding Beliefs.append check_known get raw current check_previous check_order belief_eq
next_append = refl

both-Reachable : Reachable store (first_belief ∷ next_belief ∷ [])
both-Reachable =
    appended next_belief (true, first_belief ∷ next_belief ∷ [])
      (appended first_belief (true, first_belief ∷ []) opened first_append) next_append

Reachable-IsLedger_example : IsLedger store (first_belief ∷ next_belief ∷ [])
Reachable-IsLedger_example =
    Reachable-IsLedger store (first_belief ∷ next_belief ∷ []) both-Reachable

abbrev versions_digest : Versions → Text
versions_digest versions = codes "sealed"

abbrev sealed : BeliefCheckpoint
sealed = record { versions = first_belief ∷ next_belief ∷ []; checkpoint_sha256 = codes "sealed" }

-- An update of day 41 is taken by the ledger, and then there is no checkpoint.
abbrev late_belief : Belief
late_belief = belief (codes "belief-ari-mira") 1 41 (codes "a" ∷ [])

test_checkpoint :
    (Beliefs.checkpoint versions_digest (first_belief ∷ next_belief ∷ []) ≡ ok sealed)
    × (update_belief_evidence first_belief 41 (codes "a" ∷ []) [] ≡ ok late_belief)
    × (Beliefs.append store (first_belief ∷ []) late_belief
        ≡ ok (true, first_belief ∷ late_belief ∷ []))
    × (Beliefs.checkpoint versions_digest (first_belief ∷ late_belief ∷ [])
        ≡ err (invalid_belief field_constraint))
unfolding Beliefs.checkpoint Beliefs.validate_hash validate_versions validate_belief is_identifier
    validate_evidence unique update_belief_evidence sorted_union distinct_ids sorted_ids
    confidence_of Beliefs.append check_known get raw current check_previous check_order belief_eq
test_checkpoint = (refl, refl, refl, refl)

restore-reached_example :
    ((e : BeliefError) × (validate_versions (first_belief ∷ next_belief ∷ []) ≡ err e)
      × (Beliefs.checkpoint versions_digest (first_belief ∷ next_belief ∷ []) ≡ err e))
    ⊎ ((validate_versions (first_belief ∷ next_belief ∷ []) ≡ ok tt)
        × ((c : BeliefCheckpoint) × (Beliefs.checkpoint versions_digest
                (first_belief ∷ next_belief ∷ [])
              ≡ ok c)
            × (Beliefs.validate_hash versions_digest c ≡ ok tt)
            × (Beliefs.restore store c ≡ ok (first_belief ∷ next_belief ∷ []))))
restore-reached_example =
    restore-reached versions_digest store (first_belief ∷ next_belief ∷ []) both-Reachable
