-- ===== src/Memory/Store.antt =====
-- memory/store.py: `EpisodeStore`, episodes and all that happens to them as append-only lists. The
-- sha256 values are parameters. A call that raises halfway leaves its object beside the error.
pub mod Calls
pub mod Growth
pub mod Repeats
pub mod Evidence
pub mod Replay
use affective_belief_persist.Prelude.{
  ℕ, ◌+◌, Bool, true, false, not, Option, none, some, List, [], ◌∷◌, ◌++◌, map, any, eqb, first,
  if◌then◌else◌, Result, ok, err, ◌>>=◌, ◌>>◌, raise_if, Text, text_eq, subset,
}
use affective_belief_persist.Memory.{Memory, MemoryInterpretation, fact_ids_of, memory_eq}

-- `MemoryStoreError` by its cause.
pub data MemoryStoreError : Type 0 where
  different_evidence nonzero_count unknown_memory no_interpretation foreign_facts : MemoryStoreError
  wrong_revision duplicate_access discontinuous_chain hash_mismatch : MemoryStoreError

pub record RetrievalAccess : Type 0 where
  pub access_id : Text
  pub retrieval_id : Text
  pub memory_id : Text
  pub simulation_day : ℕ

pub record InterpretationReframe : Type 0 where
  pub reframe_id : Text
  pub memory_id : Text
  pub prior_interpretation_id : Text
  pub interpretation : MemoryInterpretation
  pub intervention_id : Text
  pub reason : Text

pub record EpisodeStore : Type 0 where
  pub episodes : List Memory
  pub retrieval_accesses : List RetrievalAccess
  pub reframes : List InterpretationReframe

abbrev pub empty_store : EpisodeStore
empty_store = record { episodes = []; retrieval_accesses = []; reframes = [] }

abbrev pub find_episode : Text → List Memory → Option Memory
find_episode id episodes = first (λ m. text_eq m.memory_id id) episodes

unfoldable pub append : EpisodeStore → Memory → Result MemoryStoreError (Bool × EpisodeStore)
append s m = elim (find_episode m.memory_id s.episodes) [
  | some existing ↦ if memory_eq existing m then ok (false, s) else err different_evidence
  | none ↦ do
    raise_if (not (eqb m.retrieval_count 0)) nonzero_count
    ok (true, record s { episodes = s.episodes ++ m ∷ [] })
]

-- `_raw`
unfoldable pub raw : EpisodeStore → Text → Result MemoryStoreError Memory
raw s id = elim (find_episode id s.episodes) [ none ↦ err unknown_memory | some m ↦ ok m ]

-- The loop of `get` over the reframes.
unfoldable pub latest :
    Text → Option MemoryInterpretation → List InterpretationReframe → Option MemoryInterpretation
latest id i [] = i
latest id i (r ∷ rest) =
    latest id (if text_eq r.memory_id id then some r.interpretation else i) rest

unfoldable pub count_accesses : Text → List RetrievalAccess → ℕ
count_accesses id [] = 0
count_accesses id (a ∷ rest) = (if text_eq a.memory_id id then 1 else 0) + count_accesses id rest

-- The episode as the later events leave it.
unfoldable pub view : EpisodeStore → Text → Memory → Memory
unfolding latest count_accesses
view s id m = record m {
  interpretation = latest id m.interpretation s.reframes;
  retrieval_count = count_accesses id s.retrieval_accesses;
}

unfoldable pub get : EpisodeStore → Text → Result MemoryStoreError Memory
get s id = raw s id >>= λ m. ok (view s id m)

-- The generator of `all`.
unfoldable pub get_each : EpisodeStore → List Memory → Result MemoryStoreError (List Memory)
get_each s [] = ok []
get_each s (m ∷ rest) =
    let later = get_each s rest in do v ← get s m.memory_id; vs ← later; ok (v ∷ vs)

-- `all`
unfoldable pub all_memories : EpisodeStore → Result MemoryStoreError (List Memory)
all_memories s = get_each s s.episodes

-- The arguments of `reframe`.
pub record ReframeRequest : Type 0 where
  pub memory_id : Text
  pub interpretation : MemoryInterpretation
  pub intervention_id : Text
  pub reason : Text

pub record MemoryStoreCheckpoint : Type 0 where
  pub episodes : List Memory
  pub retrieval_accesses : List RetrievalAccess
  pub reframes : List InterpretationReframe
  pub checkpoint_sha256 : Text

-- The current interpretation of an episode, without which it cannot be reframed.
unfoldable pub interpretation_of : Memory → Result MemoryStoreError MemoryInterpretation
interpretation_of m = elim m.interpretation [ none ↦ err no_interpretation | some i ↦ ok i ]

abbrev pub has_access : Text → List RetrievalAccess → Bool
has_access access_id accesses = any (λ a. text_eq a.access_id access_id) accesses

-- The access is stored unless one with its identifier is.
unfoldable pub put_access : EpisodeStore → RetrievalAccess → EpisodeStore
put_access s a =
    if has_access a.access_id s.retrieval_accesses
    then s
    else record s { retrieval_accesses = s.retrieval_accesses ++ a ∷ [] }

module _ (access_digest : Text → Text → ℕ → Text) where
  abbrev pub access_of : Text → Text → ℕ → RetrievalAccess
  access_of retrieval_id id day = record {
    access_id = access_digest retrieval_id id day;
    retrieval_id = retrieval_id;
    memory_id = id;
    simulation_day = day;
  }

  unfoldable pub record_retrieval :
      EpisodeStore → Text → List Text → ℕ → Result MemoryStoreError (Unit {0}) × EpisodeStore
  record_retrieval s retrieval_id [] day = (ok tt, s)
  record_retrieval s retrieval_id (id ∷ ids) day = elim (raw s id) [
    | err e ↦ (err e, s)
    | ok m ↦ record_retrieval (put_access s (access_of retrieval_id id day)) retrieval_id ids day
  ]

abbrev pub find_reframe : Text → List InterpretationReframe → Option InterpretationReframe
find_reframe reframe_id reframes = first (λ r. text_eq r.reframe_id reframe_id) reframes

-- The reframe is stored and returned unless one with its identifier is.
unfoldable pub put_reframe :
    EpisodeStore → InterpretationReframe → InterpretationReframe × EpisodeStore
put_reframe s r = elim (find_reframe r.reframe_id s.reframes) [
  | some existing ↦ (existing, s)
  | none ↦ (r, record s { reframes = s.reframes ++ r ∷ [] })
]

module _ (reframe_digest : ReframeRequest → Text → Text) where
  abbrev pub reframe_of : ReframeRequest → MemoryInterpretation → InterpretationReframe
  reframe_of r prior = record {
    reframe_id = reframe_digest r prior.interpretation_id;
    memory_id = r.memory_id;
    prior_interpretation_id = prior.interpretation_id;
    interpretation = r.interpretation;
    intervention_id = r.intervention_id;
    reason = r.reason;
  }

  unfoldable pub reframe :
      EpisodeStore → ReframeRequest → Result MemoryStoreError (InterpretationReframe × EpisodeStore)
  reframe s r = do
    current ← get s r.memory_id
    prior ← interpretation_of current
    raise_if (not (subset r.interpretation.fact_ids (fact_ids_of current))) foreign_facts
    raise_if (not (eqb r.interpretation.revision (prior.revision + 1))) wrong_revision
    ok (put_reframe s (reframe_of r prior))

module _ (store_digest : EpisodeStore → Text) where
  -- `checkpoint`, with `MemoryStoreCheckpoint.capture`
  unfoldable pub checkpoint : EpisodeStore → MemoryStoreCheckpoint
  checkpoint s = record {
    episodes = s.episodes;
    retrieval_accesses = s.retrieval_accesses;
    reframes = s.reframes;
    checkpoint_sha256 = store_digest s;
  }

  -- `MemoryStoreCheckpoint.validate_hash`
  unfoldable pub validate_hash : MemoryStoreCheckpoint → Result MemoryStoreError (Unit {0})
  validate_hash c =
      raise_if
        (not (
          text_eq c.checkpoint_sha256 (
            store_digest (record {
              episodes = c.episodes;
              retrieval_accesses = c.retrieval_accesses;
              reframes = c.reframes;
            }))))
        hash_mismatch

-- The three loops of `restore`.
unfoldable pub append_all : EpisodeStore → List Memory → Result MemoryStoreError EpisodeStore
append_all s [] = ok s
append_all s (m ∷ rest) = append s m >>= λ out. append_all out.1 rest

unfoldable pub restore_accesses :
    EpisodeStore → List RetrievalAccess → Result MemoryStoreError EpisodeStore
restore_accesses s [] = ok s
restore_accesses s (a ∷ rest) = do
  m ← raw s a.memory_id
  raise_if (any (λ b. text_eq b.access_id a.access_id) s.retrieval_accesses) duplicate_access
  restore_accesses (record s { retrieval_accesses = s.retrieval_accesses ++ a ∷ [] }) rest

-- The checks of one reframe.
unfoldable pub check_reframe :
    EpisodeStore → InterpretationReframe → Result MemoryStoreError (Unit {0})
check_reframe s r = do
  current ← get s r.memory_id
  prior ← interpretation_of current
  raise_if (not (text_eq r.prior_interpretation_id prior.interpretation_id)) discontinuous_chain
  raise_if (not (subset r.interpretation.fact_ids (fact_ids_of current))) foreign_facts

unfoldable pub restore_reframes :
    EpisodeStore → List InterpretationReframe → Result MemoryStoreError EpisodeStore
restore_reframes s [] = ok s
restore_reframes s (r ∷ rest) = do
  check_reframe s r
  restore_reframes (record s { reframes = s.reframes ++ r ∷ [] }) rest

unfoldable pub restore : MemoryStoreCheckpoint → Result MemoryStoreError EpisodeStore
restore c = do
  s ← append_all empty_store c.episodes
  t ← restore_accesses s c.retrieval_accesses
  restore_reframes t c.reframes
