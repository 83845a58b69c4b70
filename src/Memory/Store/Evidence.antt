-- ===== src/Memory/Store/Evidence.antt =====
-- What the calls leave of an episode: its evidence is never rewritten.
use affective_belief_persist.Prelude.{
  not-eq-false, ℕ, ◌≤◌, ◌≡◌, refl, sym, ap, ◌∙◌, subst, inl, inr, true, false, not, Option, some,
  List, [], ◌∷◌, ◌++◌, Bool-cases, ok, >>=-eq-ok, >>-eq-ok, raise_if-ok, ok_unique, Text, text_eq,
  text_eq_iff, subset, arith, if◌then◌else◌,
}
use affective_belief_persist.Memory.{Memory, MemoryInterpretation, fact_ids_of, cites_other_facts}
use affective_belief_persist.Memory.Store.{
  foreign_facts, RetrievalAccess, InterpretationReframe, EpisodeStore, ReframeRequest, raw, get,
  view, latest, count_accesses, interpretation_of, check_reframe,
}
use affective_belief_persist.Memory.Store.Calls.{Call, run_calls}
use affective_belief_persist.Memory.Store.Growth.{
  Adds, adds_episode, adds_access, adds_reframe, Grows, stays, grows, with_access, with_reframe,
  run_calls-Grows,
}
use affective_belief_persist.Memory.Store.Replay.{raw-with_episode}

-- `w` differs from `v` only in the interpretation, which cites facts of the episode if that of `v`
-- does, and in the number of retrievals, which is no smaller.
pub record KeepsEvidence (v w : Memory) : Type 0 where
  pub same : w ≡ record v { interpretation = w.interpretation; retrieval_count = w.retrieval_count }
  pub counted : v.retrieval_count ≤ w.retrieval_count
  pub grounded :
      cites_other_facts v.interpretation (fact_ids_of v) ≡ false
      → cites_other_facts w.interpretation (fact_ids_of w) ≡ false

KeepsEvidence-refl : (v : Memory) → KeepsEvidence v v
KeepsEvidence-refl v = record { same = refl; counted = omega arith; grounded = λ h. h }

KeepsEvidence-trans : (u v w : Memory) → KeepsEvidence u v → KeepsEvidence v w → KeepsEvidence u w
KeepsEvidence-trans u v w k l = record {
  same =
      l.same
      ∙ ap
          (λ (x : Memory). record x {
            interpretation = w.interpretation;
            retrieval_count = w.retrieval_count;
          })
          k.same;
  counted = omega (arith, k.counted, l.counted);
  grounded = λ h. l.grounded (k.grounded h);
}

pub latest-snoc :
    (id : Text) (i : Option MemoryInterpretation) (reframes : List InterpretationReframe)
    (r : InterpretationReframe)
    → latest id i (reframes ++ r ∷ [])
      ≡ (if text_eq r.memory_id id then some r.interpretation else latest id i reframes)
unfolding latest
latest-snoc id i [] r = refl
latest-snoc id i (f ∷ reframes) r =
    latest-snoc id (if text_eq f.memory_id id then some f.interpretation else i) reframes r

count_accesses-snoc :
    (id : Text) (accesses : List RetrievalAccess) (a : RetrievalAccess)
    → count_accesses id accesses ≤ count_accesses id (accesses ++ a ∷ [])
unfolding count_accesses
count_accesses-snoc id [] a = omega arith
count_accesses-snoc id (b ∷ accesses) a = omega (arith, count_accesses-snoc id accesses a)

pub get-view :
    (s : EpisodeStore) (id : Text) (v : Memory)
    → get s id ≡ ok v
    → (m : Memory) × (raw s id ≡ ok m) × (view s id m ≡ v)
unfolding get
get-view s id v h =
    let (m, known, seen) = >>=-eq-ok (raw s id) _ h in (m, known, ok_unique _ refl seen)

pub raw-get :
    (s : EpisodeStore) (id : Text) (m : Memory) → raw s id ≡ ok m → get s id ≡ ok (view s id m)
unfolding get
raw-get s id m known = rw known refl

pub raw-with_reframe :
    (s : EpisodeStore) (r : InterpretationReframe) (id : Text)
    → raw (with_reframe s r) id ≡ raw s id
unfolding raw
raw-with_reframe s r id = refl

raw-with_access :
    (s : EpisodeStore) (a : RetrievalAccess) (id : Text) → raw (with_access s a) id ≡ raw s id
unfolding raw
raw-with_access s a id = refl

check_reframe-subset :
    (s : EpisodeStore) (r : InterpretationReframe) (m : Memory)
    → check_reframe s r ≡ ok tt
    → raw s r.memory_id ≡ ok m
    → subset r.interpretation.fact_ids (fact_ids_of m) ≡ true
unfolding check_reframe view
check_reframe-subset s r m checked known =
    let (current, seen, h₁) = >>=-eq-ok (get s r.memory_id) _ checked in
    let (prior, interpreted, h₂) = >>=-eq-ok (interpretation_of current) _ h₁ in
    let (linked, h₃) = >>-eq-ok _ _ h₂ in
    let same : current ≡ view s r.memory_id m = ok_unique _ seen (raw-get s r.memory_id m known) in
    subst (λ (v : Memory). subset r.interpretation.fact_ids (fact_ids_of v) ≡ true) same
      (not-eq-false (subset r.interpretation.fact_ids (fact_ids_of current)) (
        raise_if-ok (not (subset r.interpretation.fact_ids (fact_ids_of current))) foreign_facts
          h₃))

latest-grounded :
    (id : Text) (i : Option MemoryInterpretation) (reframes : List InterpretationReframe)
    (r : InterpretationReframe) (facts : List Text)
    → (r.memory_id ≡ id → subset r.interpretation.fact_ids facts ≡ true)
    → cites_other_facts (latest id i reframes) facts ≡ false
    → cites_other_facts (latest id i (reframes ++ r ∷ [])) facts ≡ false
latest-grounded id i reframes r facts checked h = elim (Bool-cases (text_eq r.memory_id id)) [
  | inl eq ↦ rw (latest-snoc id i reframes r, eq, checked ((text_eq_iff r.memory_id id).0 eq)) refl
  | inr ne ↦ rw (latest-snoc id i reframes r, ne) h
]

view-Adds :
    (s t : EpisodeStore) (id : Text) (m : Memory)
    → Adds s t
    → raw s id ≡ ok m
    → (raw t id ≡ ok m) × KeepsEvidence (view s id m) (view t id m)
unfolding view
view-Adds s t id m (adds_episode n new zero_count) known =
    (raw-with_episode s n m id known, KeepsEvidence-refl (view s id m))
view-Adds s t id m (adds_access a n listed fresh) known = (
  raw-with_access s a id ∙ known,
  record {
    same = refl;
    counted = count_accesses-snoc id s.retrieval_accesses a;
    grounded = λ h. h;
  },
)
view-Adds s t id m (adds_reframe r checked) known = (
  raw-with_reframe s r id ∙ known,
  record {
    same = refl;
    counted = omega arith;
    grounded =
        latest-grounded id m.interpretation s.reframes r (fact_ids_of m) (λ same.
          check_reframe-subset s r m checked (subst (λ j. raw s j ≡ ok m) (sym same) known));
  },
)

pub view-Grows :
    {s t : EpisodeStore} (id : Text) (m : Memory)
    → Grows s t
    → raw s id ≡ ok m
    → (raw t id ≡ ok m) × KeepsEvidence (view s id m) (view t id m)
view-Grows {s} id m stays known = (known, KeepsEvidence-refl (view s id m))
view-Grows {s} {t} id m (grows {t = mid} g a) known =
    let (there_known, k) = view-Grows id m g known in
    let (kept, l) = view-Adds mid t id m a there_known in
    (kept, KeepsEvidence-trans (view s id m) (view mid id m) (view t id m) k l)

-- An episode that `get` returns is still there after any calls, accepted or not. Only its
-- interpretation and its retrieval count may differ: the count is no smaller, and the
-- interpretation cites facts of the episode if it did before.
pub run_calls-KeepsEvidence :
    (access_digest : Text → Text → ℕ → Text) (reframe_digest : ReframeRequest → Text → Text)
    (s : EpisodeStore) (id : Text) (v : Memory) (calls : List Call)
    → get s id ≡ ok v
    → (w : Memory) × (get (run_calls access_digest reframe_digest s calls) id ≡ ok w)
      × KeepsEvidence v w
run_calls-KeepsEvidence access_digest reframe_digest s id v calls h =
    let t = run_calls access_digest reframe_digest s calls in
    let (m, known, seen) = get-view s id v h in
    let (kept, k) = view-Grows id m (run_calls-Grows access_digest reframe_digest s calls) known in
    (view t id m, raw-get t id m kept, subst (λ (u : Memory). KeepsEvidence u (view t id m)) seen k)
