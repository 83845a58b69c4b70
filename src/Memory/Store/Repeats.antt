-- ===== src/Memory/Store/Repeats.antt =====
-- Calls of the store that are made a second time.
use affective_belief_persist.Prelude.{
  ℕ, ◌+◌, ◌≡◌, refl, sym, ap, ◌∙◌, subst, ◌⊎◌, inl, inr, true, false, none, some, List, [], ◌∷◌,
  ◌++◌, any-append, eqb, Bool-cases, Option-cases, Result-cases, Result, ok, err, All, ok_unique,
  Text, text_eq, text_eq_refl, text_eq_iff, first-holds, arith, ◌||◌,
}
use affective_belief_persist.Memory.{Memory, MemoryInterpretation}
use affective_belief_persist.Memory.Store.{
  MemoryStoreError, wrong_revision, no_interpretation, RetrievalAccess, InterpretationReframe,
  EpisodeStore, ReframeRequest, raw, get, view, latest, has_access, put_access, access_of,
  record_retrieval, find_reframe, put_reframe, interpretation_of, reframe_of, reframe,
}
use affective_belief_persist.Memory.Store.Growth.{with_reframe, reframe-IsReframed}
use affective_belief_persist.Memory.Store.Evidence.{
  latest-snoc, get-view, raw-get, raw-with_reframe,
}

put_reframe-outcome :
    (s : EpisodeStore) (f : InterpretationReframe)
    → ((find_reframe f.reframe_id s.reframes ≡ none) × (put_reframe s f ≡ (f, with_reframe s f)))
      ⊎ ((g : InterpretationReframe) × (find_reframe f.reframe_id s.reframes ≡ some g)
          × (put_reframe s f ≡ (g, s)))
unfolding put_reframe
put_reframe-outcome s f = elim (Option-cases (find_reframe f.reframe_id s.reframes)) [
  | inl new ↦ inl (new, rw (put_reframe, new) refl)
  | inr (g, found) ↦ inr (g, found, rw (put_reframe, found) refl)
]

get-with_reframe :
    (s : EpisodeStore) (f : InterpretationReframe) (v : Memory)
    → get s f.memory_id ≡ ok v
    → get (with_reframe s f) f.memory_id ≡ ok (record v { interpretation = some f.interpretation })
unfolding view
get-with_reframe s f v h =
    let (m, known, seen) = get-view s f.memory_id v h in
    let interpreted : latest f.memory_id m.interpretation (s.reframes ++ f ∷ [])
        ≡ some f.interpretation =
      rw (latest-snoc f.memory_id m.interpretation s.reframes f, text_eq_refl f.memory_id) refl in
    raw-get (with_reframe s f) f.memory_id m (raw-with_reframe s f f.memory_id ∙ known)
    ∙ ap ok (rw (interpreted, sym seen) refl)

interpretation_of-some :
    (m : Memory) (i : MemoryInterpretation) → interpretation_of m ≡ ok i → m.interpretation ≡ some i
unfolding interpretation_of
interpretation_of-some m i h = elim (Option-cases m.interpretation) [
  | inl nothing ↦
      let raised : interpretation_of m ≡ err no_interpretation = rw nothing refl in
      absurd (cc (raised, h))
  | inr (j, stands) ↦
      let found : interpretation_of m ≡ ok j = rw stands refl in
      stands ∙ ap some (ok_unique (interpretation_of m) found h)
]

eqb_suc : (n : ℕ) → eqb n (n + 1) ≡ false
eqb_suc n = ground arith

module _ (reframe_digest : ReframeRequest → Text → Text) where
  -- What is known of the reframe and the store after a new reframe.
  pub record IsNew (s : EpisodeStore) (r : ReframeRequest)
      (out : InterpretationReframe × EpisodeStore) : Type 0 where
    pub current : Memory
    pub prior : MemoryInterpretation
    pub known : get s r.memory_id ≡ ok current
    pub interpreted : current.interpretation ≡ some prior
    pub next : r.interpretation.revision ≡ prior.revision + 1
    pub fresh : find_reframe (reframe_of reframe_digest r prior).reframe_id s.reframes ≡ none
    pub appended : out ≡ (
      reframe_of reframe_digest r prior,
      record s { reframes = s.reframes ++ reframe_of reframe_digest r prior ∷ [] },
    )
    pub shown :
        get out.1 r.memory_id ≡ ok (record current { interpretation = some r.interpretation })
    pub refused : reframe reframe_digest out.1 r ≡ err wrong_revision

  -- An accepted `reframe` either returns a reframe that is stored under the same identifier and
  -- leaves the store alone, or it appends one that was not stored at the end of the reframes and
  -- changes nothing else: then `get` shows the new interpretation, whose revision is the next one, and
  -- the very same call made again raises the error on the revision.
  pub reframe-outcome :
      (s : EpisodeStore) (r : ReframeRequest) (out : InterpretationReframe × EpisodeStore)
      → reframe reframe_digest s r ≡ ok out
      → ((find_reframe out.0.reframe_id s.reframes ≡ some out.0) × (out.1 ≡ s)) ⊎ IsNew s r out
  unfolding reframe interpretation_of
  reframe-outcome s r out h =
      let k = reframe-IsReframed reframe_digest s r out h in
      let f : InterpretationReframe = reframe_of reframe_digest r k.prior in
      elim (put_reframe-outcome s f) [
        | inl (fresh, added) ↦
            let same : (f, with_reframe s f) ≡ out = sym added ∙ k.stored in
            let shown = get-with_reframe s f k.current k.known in
            let refused : reframe reframe_digest (with_reframe s f) r ≡ err wrong_revision =
              rw (shown, k.facts, eqb_suc r.interpretation.revision) refl in
            inr (record {
              current = k.current;
              prior = k.prior;
              known = k.known;
              interpreted = interpretation_of-some k.current k.prior k.interpreted;
              next = k.revision;
              fresh = fresh;
              appended = sym same;
              shown =
                  subst
                    (λ (o : InterpretationReframe × EpisodeStore).
                      get o.1 r.memory_id
                      ≡ ok (record k.current { interpretation = some r.interpretation }))
                    same shown;
              refused =
                  subst
                    (λ (o : InterpretationReframe × EpisodeStore).
                      reframe reframe_digest o.1 r ≡ err wrong_revision)
                    same refused;
            })
        | inr (g, found, unchanged) ↦
            let same : (g, s) ≡ out = sym unchanged ∙ k.stored in
            let named : g.reframe_id ≡ f.reframe_id =
              (text_eq_iff g.reframe_id f.reframe_id).0
                (first-holds (λ q. text_eq q.reframe_id f.reframe_id) s.reframes g found) in
            let stored : find_reframe g.reframe_id s.reframes ≡ some g =
              subst (λ i. find_reframe i s.reframes ≡ some g) (sym named) found in
            inl (
              subst
                (λ (o : InterpretationReframe × EpisodeStore).
                  (find_reframe o.0.reframe_id s.reframes ≡ some o.0) × (o.1 ≡ s))
                same (stored, refl))
      ]

raw-put_access :
    (s : EpisodeStore) (a : RetrievalAccess) (id : Text) → raw (put_access s a) id ≡ raw s id
unfolding put_access raw
raw-put_access s a id = elim (Bool-cases (has_access a.access_id s.retrieval_accesses)) [
  | inl old ↦ rw (put_access, old) refl
  | inr new ↦ rw (put_access, new) refl
]

-- An access that was stored is stored after `put_access`, and so is the new one.
put_access-has_access :
    (s : EpisodeStore) (a : RetrievalAccess) (access_id : Text)
    → (text_eq a.access_id access_id || has_access access_id s.retrieval_accesses) ≡ true
    → has_access access_id (put_access s a).retrieval_accesses ≡ true
unfolding put_access
put_access-has_access s a access_id h =
    elim (Bool-cases (has_access a.access_id s.retrieval_accesses)) [
      | inl old ↦
          rw (put_access, old)
            (elim (Bool-cases (text_eq a.access_id access_id)) [
              | inl eq ↦
                  subst (λ i. has_access i s.retrieval_accesses ≡ true)
                    ((text_eq_iff a.access_id access_id).0 eq) old
              | inr ne ↦ sym (rw ne refl) ∙ h
            ])
      | inr new ↦
          rw
            (
              put_access,
              new,
              any-append (λ b. text_eq b.access_id access_id) s.retrieval_accesses (a ∷ []),
            )
            (ground arith)
    ]

module _ (access_digest : Text → Text → ℕ → Text) (retrieval_id : Text) (day : ℕ) where
  -- The episode is known and its access is stored.
  IsStored : EpisodeStore → Text → Type 0
  IsStored s id =
      ((m : Memory) × (raw s id ≡ ok m))
      × (has_access (access_digest retrieval_id id day) s.retrieval_accesses ≡ true)

  put_access-IsStored :
      (s : EpisodeStore) (a : RetrievalAccess) (id : Text)
      → IsStored s id
      → IsStored (put_access s a) id
  unfolding IsStored
  put_access-IsStored s a id ((m, known), stored) = (
    (m, raw-put_access s a id ∙ known),
    put_access-has_access s a (access_digest retrieval_id id day) (ground (arith, stored)),
  )

  record_retrieval-keeps :
      (s : EpisodeStore) (ids : List Text) (id : Text)
      → IsStored s id
      → IsStored (record_retrieval access_digest s retrieval_id ids day).1 id
  unfolding record_retrieval
  record_retrieval-keeps s [] id k = k
  record_retrieval-keeps s (j ∷ ids) id k = elim (Result-cases (raw s j)) [
    | inl (m, known) ↦
        let a : RetrievalAccess = access_of access_digest retrieval_id j day in
        rw (record_retrieval, known)
          (record_retrieval-keeps (put_access s a) ids id (put_access-IsStored s a id k))
    | inr (e, unknown) ↦ rw (record_retrieval, unknown) k
  ]

  record_retrieval-IsStored :
      (s t : EpisodeStore) (ids : List Text)
      → record_retrieval access_digest s retrieval_id ids day ≡ (ok tt, t)
      → All (IsStored t) ids
  unfolding record_retrieval IsStored
  record_retrieval-IsStored s t [] h = tt
  record_retrieval-IsStored s t (id ∷ ids) h = elim (Result-cases (raw s id)) [
    | inl (m, known) ↦
        let a : RetrievalAccess = access_of access_digest retrieval_id id day in
        let later : record_retrieval access_digest (put_access s a) retrieval_id ids day
            ≡ (ok tt, t) =
          sym (rw (record_retrieval, known) refl) ∙ h in
        let here_stored : IsStored (put_access s a) id = (
          (m, raw-put_access s a id ∙ known),
          put_access-has_access s a a.access_id (rw (text_eq_refl a.access_id) refl),
        ) in
        (
          subst (λ (o : Result MemoryStoreError (Unit {0}) × EpisodeStore). IsStored o.1 id) later
              (record_retrieval-keeps (put_access s a) ids id here_stored),
          record_retrieval-IsStored (put_access s a) t ids later,
        )
    | inr (e, unknown) ↦
        let raised : record_retrieval access_digest s retrieval_id (id ∷ ids) day ≡ (err e, s) =
          rw (record_retrieval, unknown) refl in
        absurd (cc (ap (λ o. o.0) (sym raised ∙ h)))
  ]

  record_retrieval-stays :
      (t : EpisodeStore) (ids : List Text)
      → All (IsStored t) ids
      → record_retrieval access_digest t retrieval_id ids day ≡ (ok tt, t)
  unfolding record_retrieval IsStored put_access
  record_retrieval-stays t [] k = refl
  record_retrieval-stays t (id ∷ ids) k =
      let ((m, known), stored) = k.0 in
      let same : put_access t (access_of access_digest retrieval_id id day) ≡ t =
        rw (put_access, stored) refl in
      rw (record_retrieval, known, same) (record_retrieval-stays t ids k.1)

  -- A retrieval that was recorded is recorded once: the same call again succeeds and changes
  -- nothing.
  pub record_retrieval-twice :
      (s t : EpisodeStore) (ids : List Text)
      → record_retrieval access_digest s retrieval_id ids day ≡ (ok tt, t)
      → record_retrieval access_digest t retrieval_id ids day ≡ (ok tt, t)
  record_retrieval-twice s t ids h =
      record_retrieval-stays t ids (record_retrieval-IsStored s t ids h)
