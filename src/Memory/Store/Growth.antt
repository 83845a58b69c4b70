-- ===== src/Memory/Store/Growth.antt =====
-- What the calls may do to a store: add a new episode, a new access of a known one, or a reframe
-- that passes the checks.
use affective_belief_persist.Prelude.{
  not-eq-false, ℕ, ◌+◌, ◌≡◌, refl, inl, inr, Bool, true, false, none, List, [], ◌∷◌, ◌++◌, subst,
  eqb, Bool-cases, Option-cases, Result-cases, Result, ok, err, >>=-eq-ok, >>-eq-ok, raise_if-ok,
  ok_unique, eqb_iff, Text, text_eq_refl, subset, if◌then◌else◌,
}
use affective_belief_persist.Memory.{Memory, MemoryInterpretation, fact_ids_of, memory_eq}
use affective_belief_persist.Memory.Store.{
  MemoryStoreError, different_evidence, RetrievalAccess, InterpretationReframe, EpisodeStore,
  ReframeRequest, find_episode, append, raw, get, has_access, put_access, access_of,
  record_retrieval, find_reframe, put_reframe, interpretation_of, reframe_of, reframe,
  check_reframe,
}
use affective_belief_persist.Memory.Store.Calls.{
  Call, append_call, retrieval_call, reframe_call, after, run_calls,
}

abbrev pub with_episode : EpisodeStore → Memory → EpisodeStore
with_episode s m = record s { episodes = s.episodes ++ m ∷ [] }

abbrev pub with_access : EpisodeStore → RetrievalAccess → EpisodeStore
with_access s a = record s { retrieval_accesses = s.retrieval_accesses ++ a ∷ [] }

abbrev pub with_reframe : EpisodeStore → InterpretationReframe → EpisodeStore
with_reframe s r = record s { reframes = s.reframes ++ r ∷ [] }

-- One addition to the store.
pub data Adds (s : EpisodeStore) : EpisodeStore → Type 0 where
  adds_episode :
      (m : Memory)
      → find_episode m.memory_id s.episodes ≡ none
      → eqb m.retrieval_count 0 ≡ true
      → Adds s (with_episode s m)
  adds_access :
      (a : RetrievalAccess) (m : Memory)
      → raw s a.memory_id ≡ ok m
      → has_access a.access_id s.retrieval_accesses ≡ false
      → Adds s (with_access s a)
  adds_reframe : (r : InterpretationReframe) → check_reframe s r ≡ ok tt → Adds s (with_reframe s r)

-- Additions one after another.
pub data Grows (s : EpisodeStore) : EpisodeStore → Type 0 where
  stays : Grows s s
  grows : {t u : EpisodeStore} → Grows s t → Adds t u → Grows s u

pub Grows-trans : {s t u : EpisodeStore} → Grows s t → Grows t u → Grows s u
Grows-trans g stays = g
Grows-trans g (grows h a) = grows (Grows-trans g h) a

retried-Grows :
    (s : EpisodeStore) (b : Bool)
    → Grows s
        (elim (if◌then◌else◌ {A = Result MemoryStoreError (Bool × EpisodeStore)} b
          (ok (false, s))
          (err different_evidence)) [ ok out ↦ out.1 | err e ↦ s ])
retried-Grows s true = stays
retried-Grows s false = stays

append-Grows :
    (s : EpisodeStore) (m : Memory) → Grows s (elim (append s m) [ ok out ↦ out.1 | err e ↦ s ])
unfolding append
append-Grows s m = elim (Option-cases (find_episode m.memory_id s.episodes)) [
  | inl new ↦ elim (Bool-cases (eqb m.retrieval_count 0)) [
    | inl zero_count ↦ rw (new, zero_count) (grows stays (adds_episode m new zero_count))
    | inr counted ↦ rw (new, counted) stays
  ]
  | inr (old, found) ↦ rw found (retried-Grows s (memory_eq old m))
]

put_access-Grows :
    (s : EpisodeStore) (a : RetrievalAccess) (m : Memory)
    → raw s a.memory_id ≡ ok m
    → Grows s (put_access s a)
unfolding put_access
put_access-Grows s a m known = elim (Bool-cases (has_access a.access_id s.retrieval_accesses)) [
  | inl old ↦ rw old stays
  | inr new ↦ rw new (grows stays (adds_access a m known new))
]

module _ (access_digest : Text → Text → ℕ → Text) where
  record_retrieval-Grows :
      (s : EpisodeStore) (retrieval_id : Text) (ids : List Text) (day : ℕ)
      → Grows s (record_retrieval access_digest s retrieval_id ids day).1
  unfolding record_retrieval
  record_retrieval-Grows s retrieval_id [] day = stays
  record_retrieval-Grows s retrieval_id (id ∷ ids) day = elim (Result-cases (raw s id)) [
    | inl (m, known) ↦
        let a : RetrievalAccess = access_of access_digest retrieval_id id day in
        rw (record_retrieval, known)
          (Grows-trans (put_access-Grows s a m known)
            (record_retrieval-Grows (put_access s a) retrieval_id ids day))
    | inr (e, unknown) ↦ rw (record_retrieval, unknown) stays
  ]

put_reframe-Grows :
    (s : EpisodeStore) (r : InterpretationReframe)
    → check_reframe s r ≡ ok tt
    → Grows s (put_reframe s r).1
unfolding put_reframe
put_reframe-Grows s r checked = elim (Option-cases (find_reframe r.reframe_id s.reframes)) [
  | inl new ↦ rw (put_reframe, new) (grows stays (adds_reframe r checked))
  | inr (old, found) ↦ rw (put_reframe, found) stays
]

-- What `reframe` found when it succeeded.
pub record IsReframed (reframe_digest : ReframeRequest → Text → Text) (s : EpisodeStore)
    (r : ReframeRequest) (out : InterpretationReframe × EpisodeStore) : Type 0 where
  pub current : Memory
  pub prior : MemoryInterpretation
  pub known : get s r.memory_id ≡ ok current
  pub interpreted : interpretation_of current ≡ ok prior
  pub facts : subset r.interpretation.fact_ids (fact_ids_of current) ≡ true
  pub revision : r.interpretation.revision ≡ prior.revision + 1
  pub stored : put_reframe s (reframe_of reframe_digest r prior) ≡ out

module _ (reframe_digest : ReframeRequest → Text → Text) where
  pub reframe-IsReframed :
      (s : EpisodeStore) (r : ReframeRequest) (out : InterpretationReframe × EpisodeStore)
      → reframe reframe_digest s r ≡ ok out
      → IsReframed reframe_digest s r out
  unfolding reframe
  reframe-IsReframed s r out h =
      let (current, known, h₁) = >>=-eq-ok (get s r.memory_id) _ h in
      let (prior, interpreted, h₂) = >>=-eq-ok (interpretation_of current) _ h₁ in
      let (same_facts, h₃) = >>-eq-ok _ _ h₂ in
      let (next_revision, h₄) = >>-eq-ok _ _ h₃ in
      record {
        current = current;
        prior = prior;
        known = known;
        interpreted = interpreted;
        facts = not-eq-false _ (raise_if-ok _ _ same_facts);
        revision = (eqb_iff _ _).0 (not-eq-false _ (raise_if-ok _ _ next_revision));
        stored = ok_unique _ refl h₄;
      }

  IsReframed-Grows :
      (s : EpisodeStore) (r : ReframeRequest) (out : InterpretationReframe × EpisodeStore)
      → IsReframed reframe_digest s r out
      → Grows s out.1
  unfolding check_reframe
  IsReframed-Grows s r out k =
      let f : InterpretationReframe = reframe_of reframe_digest r k.prior in
      let checked : check_reframe s f ≡ ok tt =
        rw (k.known, k.interpreted, text_eq_refl k.prior.interpretation_id, k.facts) refl in
      subst (λ (o : InterpretationReframe × EpisodeStore). Grows s o.1) k.stored
        (put_reframe-Grows s f checked)

  reframe-Grows :
      (s : EpisodeStore) (r : ReframeRequest)
      → Grows s (elim (reframe reframe_digest s r) [ ok out ↦ out.1 | err e ↦ s ])
  reframe-Grows s r = elim (Result-cases (reframe reframe_digest s r)) [
    | inl (out, h) ↦ rw h (IsReframed-Grows s r out (reframe-IsReframed s r out h))
    | inr (e, h) ↦ rw h stays
  ]

module _ (access_digest : Text → Text → ℕ → Text)
    (reframe_digest : ReframeRequest → Text → Text) where
  after-Grows : (s : EpisodeStore) (c : Call) → Grows s (after access_digest reframe_digest s c)
  after-Grows s (append_call m) = append-Grows s m
  after-Grows s (retrieval_call retrieval_id ids day) =
      record_retrieval-Grows access_digest s retrieval_id ids day
  after-Grows s (reframe_call r) = reframe-Grows reframe_digest s r

  -- Whatever is called, the store only changes by additions that pass the checks.
  pub run_calls-Grows :
      (s : EpisodeStore) (calls : List Call)
      → Grows s (run_calls access_digest reframe_digest s calls)
  run_calls-Grows s [] = stays
  run_calls-Grows s (c ∷ calls) =
      Grows-trans (after-Grows s c) (run_calls-Grows (after access_digest reframe_digest s c) calls)
