-- ===== src/Orchestration/Scheduling/Artifacts.antt =====
-- orchestration/scheduler.py: `_materialize_artifacts` and `_register_handoffs`.
use affective_belief_persist.Prelude.{
  ℕ, ◌+◌, Bool, not, List, [], ◌∷◌, ◌++◌, any, if◌then◌else◌, Result, ok, err, ◌>>=◌, Text, codes,
  text_eq, text_le, sorted_ids, member, map, keep,
}
use affective_belief_persist.Orchestration.Events.{
  artifact_registered, handoff_registered, text, WorkflowEventType,
}
use affective_belief_persist.Orchestration.Contracts.{
  TaskContract, WorkerResult, WorkerArtifactProposal,
}
use affective_belief_persist.Orchestration.Workflow.{ArtifactContract, HandoffContract}
use affective_belief_persist.Orchestration.Supervisor.{Supervisor, EventDetails, record_event}
use affective_belief_persist.Orchestration.Scheduling.{
  RunError, escaping_artifact, supervised, note_of,
}

-- sorted(result.artifacts, key=lambda item: item.artifact_id)
unfoldable pub insert_artifact :
    WorkerArtifactProposal → List WorkerArtifactProposal → List WorkerArtifactProposal
insert_artifact a [] = a ∷ []
insert_artifact a (b ∷ bs) =
    let rest = insert_artifact a bs in
    if text_le a.artifact_id b.artifact_id then a ∷ b ∷ bs else b ∷ rest

unfoldable pub sorted_artifacts : List WorkerArtifactProposal → List WorkerArtifactProposal
unfolding insert_artifact
sorted_artifacts [] = []
sorted_artifacts (a ∷ as') = insert_artifact a (sorted_artifacts as')

-- task.task_id in (*dependent.dependencies, *dependent.optional_dependencies)
abbrev pub depends_on : Text → TaskContract → Bool
depends_on id t = member text_eq id (t.dependencies ++ t.optional_dependencies)

abbrev pub downstream : List TaskContract → Text → List Text
downstream tasks id = sorted_ids (map (λ t. t.task_id) (keep (depends_on id) tasks))

-- {**pairs, key: value}
abbrev pub put {ℓ} : {A : Type ℓ} → Text → A → List (Text × A) → List (Text × A)
put key a [] = (key, a) ∷ []
put key a ((k, b) ∷ rest) =
    let later = put key a rest in if text_eq k key then (k, a) ∷ rest else (k, b) ∷ later

-- The answers of the file system: whether a path escapes the output root, and the digest and the
-- size of what was written.
pub record Files : Type 0 where
  pub escapes : Text → Bool
  pub sha256 : Text → Text
  pub size_bytes : Text → ℕ

abbrev pub event_of : WorkflowEventType → Text → Text → EventDetails
event_of kind id message = record (note_of id message) { event_type = kind }

abbrev pub registered_details : Text → ArtifactContract → EventDetails
registered_details id a =
    record (event_of artifact_registered id (codes "registered " ++ a.artifact_id)) {
      payload = (codes "sha256", text a.sha256) ∷ (codes "path", text a.path) ∷ [];
    }

-- The state after the clock was read and the artifact was registered.
abbrev pub with_artifact : Supervisor → ArtifactContract → Supervisor
with_artifact v a = record {
  state = record v.state { artifacts = put a.artifact_id a v.state.artifacts };
  readings = v.readings + 1;
}

module _ (clock : ℕ → ℕ) (tasks : List TaskContract) where
  abbrev pub artifact_of :
      Files → TaskContract → Text → WorkerArtifactProposal → ℕ → ArtifactContract
  artifact_of files t agent p at = record {
    artifact_id = p.artifact_id;
    produced_by_task = t.task_id;
    produced_by_agent = agent;
    logical_name = p.logical_name;
    path = p.path;
    media_type = p.media_type;
    created_at = at;
    downstream_task_ids = downstream tasks t.task_id;
    sha256 = files.sha256 p.content;
    size_bytes = files.size_bytes p.content;
  }

  -- One round of the loop of `_materialize_artifacts`.
  unfoldable pub register_artifact :
      Files → TaskContract → Text → Supervisor → WorkerArtifactProposal → Result RunError Supervisor
  register_artifact files t agent v p =
      let a = artifact_of files t agent p (clock v.readings) in
      if files.escapes p.path
      then err (escaping_artifact p.path)
      else supervised (record_event clock (with_artifact v a) (registered_details t.task_id a))

  unfoldable pub materialize :
      Files
      → TaskContract
      → Text
      → Supervisor
      → List WorkerArtifactProposal
      → Result RunError (Supervisor × List Text)
  materialize files t agent v [] = ok (v, [])
  materialize files t agent v (p ∷ rest) = register_artifact files t agent v p >>= λ x.
      materialize files t agent x rest >>= λ (y, ids). ok (y, p.artifact_id ∷ ids)

  unfoldable pub materialize_artifacts :
      Files
      → TaskContract
      → WorkerResult
      → Text
      → Supervisor
      → Result RunError (Supervisor × List Text)
  unfolding sorted_artifacts
  materialize_artifacts files t r agent v =
      materialize files t agent v (sorted_artifacts r.artifacts)

  abbrev pub handoff_of : TaskContract → TaskContract → List Text → ℕ → HandoffContract
  handoff_of t dependent ids at = record {
    handoff_id = codes "handoff-" ++ t.task_id ++ codes "-to-" ++ dependent.task_id;
    from_task_id = t.task_id;
    to_task_id = dependent.task_id;
    artifact_ids = ids;
    summary = codes "validated outputs from " ++ t.task_id;
    created_at = at;
  }

  -- One round of the loop of `_register_handoffs`; `handoffs` is its local list.
  unfoldable pub hand_to :
      TaskContract
      → List Text
      → Supervisor
      → List HandoffContract
      → TaskContract
      → Result RunError (Supervisor × List HandoffContract)
  hand_to t ids v handoffs dependent =
      let h = handoff_of t dependent ids (clock v.readings) in
      let w : Supervisor = record v { readings = v.readings + 1 } in
      if not (depends_on t.task_id dependent)
      then ok (v, handoffs)
      else if any (λ e. text_eq e.handoff_id h.handoff_id) handoffs
      then ok (w, handoffs)
      else supervised (
          record_event clock w
            (event_of handoff_registered t.task_id (codes "handoff to " ++ dependent.task_id)))
        >>= λ x. ok (x, handoffs ++ h ∷ [])

  unfoldable pub hand_over :
      TaskContract
      → List Text
      → Supervisor
      → List HandoffContract
      → List TaskContract
      → Result RunError (Supervisor × List HandoffContract)
  hand_over t ids v handoffs [] = ok (v, handoffs)
  hand_over t ids v handoffs (dependent ∷ rest) =
      hand_to t ids v handoffs dependent >>= λ (x, more). hand_over t ids x more rest

  unfoldable pub register_handoffs :
      TaskContract → List Text → Supervisor → Result RunError Supervisor
  register_handoffs t [] v = ok v
  register_handoffs t (a ∷ ids) v =
      hand_over t (a ∷ ids) v v.state.handoffs tasks >>= λ (w, handoffs).
      ok (record w { state = record w.state { handoffs = handoffs } })
