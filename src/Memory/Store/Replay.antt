-- ===== src/Memory/Store/Replay.antt =====
-- `checkpoint` and `restore`: replaying what a store recorded gives the store back.
use affective_belief_persist.Prelude.{
  ℕ, ◌≡◌, refl, ap, ◌∙◌, inl, inr, true, Option, none, some, List, [], ◌∷◌, ◌++◌, eqb, Bool-cases,
  Result-cases, ok, err, ◌>>=◌, >>=-eq-ok, >>-eq-ok, raise_if, ok_unique, Text, text_eq_refl, arith,
}
use affective_belief_persist.Memory.{Memory}
use affective_belief_persist.Memory.Store.{
  unknown_memory, duplicate_access, RetrievalAccess, InterpretationReframe, EpisodeStore,
  ReframeRequest, empty_store, find_episode, append, raw, get, view, has_access, interpretation_of,
  checkpoint, validate_hash, append_all, restore_accesses, check_reframe, restore_reframes, restore,
}
use affective_belief_persist.Memory.Store.Calls.{Call, run_calls}
use affective_belief_persist.Memory.Store.Growth.{
  Adds, adds_episode, adds_access, adds_reframe, Grows, stays, grows, with_episode, with_access,
  with_reframe, run_calls-Grows,
}

pub find_episode-append :
    (id : Text) (episodes : List Memory) (m n : Memory)
    → find_episode id episodes ≡ some n
    → find_episode id (episodes ++ m ∷ []) ≡ some n
find_episode-append id [] m n h = absurd (cc h)
find_episode-append id (k ∷ episodes) m n h = ground (arith, find_episode-append id episodes m n)

pub append-new :
    (s : EpisodeStore) (m : Memory)
    → find_episode m.memory_id s.episodes ≡ none
    → eqb m.retrieval_count 0 ≡ true
    → append s m ≡ ok (true, with_episode s m)
unfolding append
append-new s m new zero_count = rw (append, new, zero_count) refl

append_all-snoc :
    (s : EpisodeStore) (episodes : List Memory) (m : Memory)
    → append_all s (episodes ++ m ∷ [])
      ≡ (append_all s episodes >>= λ t. append t m >>= λ out. ok out.1)
unfolding append_all
append_all-snoc s [] m = ap (λ f. append s m >>= f) refl
append_all-snoc s (k ∷ episodes) m = elim (Result-cases (append s k)) [
  | inl (out, h) ↦ rw h (append_all-snoc out.1 episodes m)
  | inr (e, h) ↦ rw h refl
]

restore_accesses-snoc :
    (s : EpisodeStore) (accesses : List RetrievalAccess) (a : RetrievalAccess)
    → restore_accesses s (accesses ++ a ∷ [])
      ≡ (restore_accesses s accesses >>= λ t. restore_accesses t (a ∷ []))
unfolding restore_accesses
restore_accesses-snoc s [] a = refl
restore_accesses-snoc s (b ∷ accesses) a = elim (Result-cases (raw s b.memory_id)) [
  | inl (m, h) ↦ elim (Bool-cases (has_access b.access_id s.retrieval_accesses)) [
    | inl old ↦ rw (h, old) refl
    | inr new ↦ rw (h, new) (restore_accesses-snoc (with_access s b) accesses a)
  ]
  | inr (e, h) ↦ rw h refl
]

restore_reframes-snoc :
    (s : EpisodeStore) (reframes : List InterpretationReframe) (r : InterpretationReframe)
    → restore_reframes s (reframes ++ r ∷ [])
      ≡ (restore_reframes s reframes >>= λ t. restore_reframes t (r ∷ []))
unfolding restore_reframes
restore_reframes-snoc s [] r = refl
restore_reframes-snoc s (f ∷ reframes) r = elim (Result-cases (check_reframe s f)) [
  | inl (u, h) ↦ rw h (restore_reframes-snoc (with_reframe s f) reframes r)
  | inr (e, h) ↦ rw h refl
]

found_of :
    (o : Option Memory) (n : Memory)
    → (elim o [ none ↦ err unknown_memory | some m ↦ ok m ]) ≡ ok n
    → o ≡ some n
found_of none n h = cc
found_of (some m) n h = ap some (ok_unique _ refl h)

pub raw-found :
    (s : EpisodeStore) (n : Memory) (id : Text)
    → raw s id ≡ ok n
    → find_episode id s.episodes ≡ some n
unfolding raw
raw-found s n id h = found_of (find_episode id s.episodes) n h

pub raw-with_episode :
    (s : EpisodeStore) (m n : Memory) (id : Text)
    → raw s id ≡ ok n
    → raw (with_episode s m) id ≡ ok n
unfolding raw
raw-with_episode s m n id h =
    rw (raw, find_episode-append id s.episodes m n (raw-found s n id h)) refl

check_reframe-with_episode :
    (s : EpisodeStore) (m : Memory) (r : InterpretationReframe)
    → check_reframe s r ≡ ok tt
    → check_reframe (with_episode s m) r ≡ ok tt
unfolding check_reframe get view interpretation_of
check_reframe-with_episode s m r h = elim (Result-cases (raw s r.memory_id)) [
  | inl (n, known) ↦
      let same : check_reframe (with_episode s m) r ≡ check_reframe s r =
        rw (raw-with_episode s m n r.memory_id known, known) refl in
      same ∙ h
  | inr (e, unknown) ↦
      let raised : check_reframe s r ≡ err e = rw unknown refl in absurd (cc (raised, h))
]

raw-same :
    (s : EpisodeStore) (accesses : List RetrievalAccess) (reframes : List InterpretationReframe)
    (id : Text)
    → raw (record s { retrieval_accesses = accesses; reframes = reframes }) id ≡ raw s id
unfolding raw
raw-same s accesses reframes id = refl

-- More accesses do not change what a reframe is checked against.
check_reframe-with_accesses :
    (s : EpisodeStore) (accesses : List RetrievalAccess) (r : InterpretationReframe)
    → check_reframe (record s { retrieval_accesses = accesses }) r ≡ check_reframe s r
unfolding check_reframe get view interpretation_of
check_reframe-with_accesses s accesses r = elim (Result-cases (raw s r.memory_id)) [
  | inl (m, known) ↦ rw (raw-same s accesses s.reframes r.memory_id, known) refl
  | inr (e, unknown) ↦ rw (raw-same s accesses s.reframes r.memory_id, unknown) refl
]

-- A loop of `restore` that succeeded succeeds on a store that has more elsewhere.
restore_accesses-with_episode :
    (s t : EpisodeStore) (m : Memory) (accesses : List RetrievalAccess)
    → restore_accesses s accesses ≡ ok t
    → restore_accesses (with_episode s m) accesses ≡ ok (with_episode t m)
unfolding restore_accesses
restore_accesses-with_episode s t m [] h = ap (λ u. ok (with_episode u m)) (ok_unique _ refl h)
restore_accesses-with_episode s t m (a ∷ accesses) h =
    let (n, known, h₁) = >>=-eq-ok (raw s a.memory_id) _ h in
    let (fresh, h₂) =
      >>-eq-ok (raise_if (has_access a.access_id s.retrieval_accesses) duplicate_access) _ h₁ in
    rw (raw-with_episode s m n a.memory_id known, fresh)
      (restore_accesses-with_episode (with_access s a) t m accesses h₂)

restore_reframes-with_episode :
    (s t : EpisodeStore) (m : Memory) (reframes : List InterpretationReframe)
    → restore_reframes s reframes ≡ ok t
    → restore_reframes (with_episode s m) reframes ≡ ok (with_episode t m)
unfolding restore_reframes
restore_reframes-with_episode s t m [] h = ap (λ u. ok (with_episode u m)) (ok_unique _ refl h)
restore_reframes-with_episode s t m (r ∷ reframes) h =
    let (checked, h₁) = >>-eq-ok (check_reframe s r) _ h in
    rw (check_reframe-with_episode s m r checked)
      (restore_reframes-with_episode (with_reframe s r) t m reframes h₁)

abbrev with_accesses : EpisodeStore → List RetrievalAccess → EpisodeStore
with_accesses s accesses = record s { retrieval_accesses = accesses }

restore_reframes-with_accesses :
    (s t : EpisodeStore) (accesses : List RetrievalAccess) (reframes : List InterpretationReframe)
    → restore_reframes s reframes ≡ ok t
    → restore_reframes (with_accesses s accesses) reframes ≡ ok (with_accesses t accesses)
unfolding restore_reframes
restore_reframes-with_accesses s t accesses [] h =
    ap (λ u. ok (with_accesses u accesses)) (ok_unique _ refl h)
restore_reframes-with_accesses s t accesses (r ∷ reframes) h =
    let (checked, h₁) = >>-eq-ok (check_reframe s r) _ h in
    rw (check_reframe-with_accesses s accesses r, checked)
      (restore_reframes-with_accesses (with_reframe s r) t accesses reframes h₁)

-- Each loop of `restore` rebuilds its part of the store.
pub record IsReplayable (s : EpisodeStore) : Type 0 where
  pub episodes :
      append_all empty_store s.episodes ≡ ok (record empty_store { episodes = s.episodes })
  pub accesses :
      restore_accesses (record empty_store { episodes = s.episodes }) s.retrieval_accesses
      ≡ ok (record s { reframes = [] })
  pub reframes : restore_reframes (record s { reframes = [] }) s.reframes ≡ ok s

Adds-IsReplayable : (s t : EpisodeStore) → Adds s t → IsReplayable s → IsReplayable t
unfolding restore_accesses restore_reframes
Adds-IsReplayable s t (adds_episode m new zero_count) k = record {
  episodes =
      append_all-snoc empty_store s.episodes m
      ∙ rw (k.episodes, append-new (record empty_store { episodes = s.episodes }) m new zero_count)
          refl;
  accesses =
      restore_accesses-with_episode (record empty_store { episodes = s.episodes })
        (record s { reframes = [] }) m s.retrieval_accesses k.accesses;
  reframes = restore_reframes-with_episode (record s { reframes = [] }) s m s.reframes k.reframes;
}
Adds-IsReplayable s t (adds_access a m known fresh) k = record {
  episodes = k.episodes;
  accesses =
      restore_accesses-snoc (record empty_store { episodes = s.episodes }) s.retrieval_accesses a
      ∙ rw (k.accesses, raw-same s s.retrieval_accesses [] a.memory_id, known, fresh) refl;
  reframes =
      restore_reframes-with_accesses (record s { reframes = [] }) s (s.retrieval_accesses ++ a ∷ [])
        s.reframes k.reframes;
}
Adds-IsReplayable s t (adds_reframe r checked) k = record {
  episodes = k.episodes;
  accesses = k.accesses;
  reframes =
      restore_reframes-snoc (record s { reframes = [] }) s.reframes r
      ∙ rw (k.reframes, checked) refl;
}

pub Grows-IsReplayable : {s t : EpisodeStore} → Grows s t → IsReplayable s → IsReplayable t
Grows-IsReplayable stays k = k
Grows-IsReplayable (grows g a) k = Adds-IsReplayable _ _ a (Grows-IsReplayable g k)

empty_store-IsReplayable : IsReplayable empty_store
unfolding append_all restore_accesses restore_reframes
empty_store-IsReplayable = record { episodes = refl; accesses = refl; reframes = refl }

restore-IsReplayable :
    (store_digest : EpisodeStore → Text) (s : EpisodeStore)
    → IsReplayable s
    → restore (checkpoint store_digest s) ≡ ok s
unfolding restore checkpoint
restore-IsReplayable store_digest s k = rw (k.episodes, k.accesses) k.reframes

-- Whatever was called on a new store, accepted or not, its checkpoint passes the check of the hash
-- and `restore` gives the same store back.
pub restore-checkpoint :
    (access_digest : Text → Text → ℕ → Text) (reframe_digest : ReframeRequest → Text → Text)
    (store_digest : EpisodeStore → Text) (calls : List Call)
    → let s = run_calls access_digest reframe_digest empty_store calls in
      (validate_hash store_digest (checkpoint store_digest s) ≡ ok tt)
      × (restore (checkpoint store_digest s) ≡ ok s)
unfolding validate_hash checkpoint
restore-checkpoint access_digest reframe_digest store_digest calls =
    let s = run_calls access_digest reframe_digest empty_store calls in
    (
      rw (text_eq_refl (store_digest s)) refl,
      restore-IsReplayable store_digest s (
          Grows-IsReplayable (run_calls-Grows access_digest reframe_digest empty_store calls)
            empty_store-IsReplayable),
    )
