-- ===== src/Memory/Beliefs/Ledger.antt =====
-- The versions of a ledger: what they cite, how they follow each other, and their replay.
use affective_belief_persist.Prelude.{
  ◌≡◌, refl, sym, ◌∙◌, subst, ◌⊎◌, inl, inr, Bool, true, false, List, [], ◌∷◌, ◌++◌, Result-cases,
  ok, err, ◌>>=◌, >>=-eq-ok, >>-eq-ok, ok_unique, Text, text_eq_refl, if◌then◌else◌,
}
use affective_belief_persist.Memory.{Memory, Belief}
use affective_belief_persist.Memory.Store.{EpisodeStore, get, view}
use affective_belief_persist.Memory.Store.Growth.{Grows}
use affective_belief_persist.Memory.Store.Evidence.{get-view, raw-get, view-Grows}
use affective_belief_persist.Memory.Beliefs.{
  unknown_evidence, Versions, current, check_known, check_previous, append, checkpoint,
  validate_hash, append_all, restore, BeliefError, BeliefCheckpoint, validate_versions, captured,
}

-- A ledger after calls of `append`, between which its store may grow.
pub data Reachable : EpisodeStore → Versions → Type 0 where
  opened : {s : EpisodeStore} → Reachable s []
  store_grown :
      {s t : EpisodeStore} {versions : Versions}
      → Reachable s versions
      → Grows s t
      → Reachable t versions
  appended :
      {s : EpisodeStore} {versions : Versions} (b : Belief) (out : Bool × Versions)
      → Reachable s versions
      → append s versions b ≡ ok out
      → Reachable s out.1

abbrev pub evidence : Belief → List Text
evidence b = b.supporting_evidence_ids ++ b.contradicting_evidence_ids

get-Grows :
    {s t : EpisodeStore} (id : Text) (v : Memory)
    → Grows s t
    → get s id ≡ ok v
    → (w : Memory) × (get t id ≡ ok w)
get-Grows {s} {t} id v g h =
    let (m, known, seen) = get-view s id v h in
    (view t id m, raw-get t id m (view-Grows id m g known).0)

pub check_known-Grows :
    {s t : EpisodeStore} (ids : List Text)
    → Grows s t
    → check_known s ids ≡ ok tt
    → check_known t ids ≡ ok tt
unfolding check_known
check_known-Grows [] g h = refl
check_known-Grows {s} {t} (id ∷ ids) g h = elim (Result-cases (get s id)) [
  | inl (v, known) ↦
      let (w, still) = get-Grows id v g known in
      rw (check_known, still) (check_known-Grows ids g (sym (rw (check_known, known) refl) ∙ h))
  | inr (e, unknown) ↦
      let raised : check_known s (id ∷ ids) ≡ err (unknown_evidence e) =
        rw (check_known, unknown) refl in
      absurd (cc (raised, h))
]

append-Grows :
    {s t : EpisodeStore} (versions : Versions) (b : Belief) (out : Bool × Versions)
    → Grows s t
    → append s versions b ≡ ok out
    → append t versions b ≡ ok out
unfolding append
append-Grows {s} versions b out g h =
    let (known, h₁) = >>-eq-ok (check_known s (evidence b)) _ h in
    rw (check_known-Grows (evidence b) g known) h₁

append_all-Grows :
    {s t : EpisodeStore} (versions rest out : Versions)
    → Grows s t
    → append_all s versions rest ≡ ok out
    → append_all t versions rest ≡ ok out
unfolding append_all
append_all-Grows versions [] out g h = h
append_all-Grows {s} versions (b ∷ rest) out g h =
    let (mid, first_call, h₁) = >>=-eq-ok (append s versions b) _ h in
    rw (append-Grows versions b mid g first_call) (append_all-Grows mid.1 rest out g h₁)

append_all-snoc :
    (s : EpisodeStore) (versions rest : Versions) (b : Belief)
    → append_all s versions (rest ++ b ∷ [])
      ≡ (append_all s versions rest >>= λ mid. append s mid b >>= λ out. ok out.1)
unfolding append_all
append_all-snoc s versions [] b = refl
append_all-snoc s versions (c ∷ rest) b = elim (Result-cases (append s versions c)) [
  | inl (out, h) ↦ rw h (append_all-snoc s out.1 rest b)
  | inr (e, h) ↦ rw h refl
]

-- What an accepted `append` found and did.
pub record IsAppended (s : EpisodeStore) (versions : Versions) (b : Belief) (out : Bool × Versions)
    : Type 0 where
  pub known : check_known s (evidence b) ≡ ok tt
  pub allowed : check_previous (current versions b.belief_id) b ≡ ok out.0
  pub stored : (if out.0 then versions ++ b ∷ [] else versions) ≡ out.1

pub append-IsAppended :
    (s : EpisodeStore) (versions : Versions) (b : Belief) (out : Bool × Versions)
    → append s versions b ≡ ok out
    → IsAppended s versions b out
unfolding append
append-IsAppended s versions b out h =
    let (known, h₁) = >>-eq-ok (check_known s (evidence b)) _ h in
    let (is_new, allowed, h₂) = >>=-eq-ok (check_previous (current versions b.belief_id) b) _ h₁ in
    let same : (is_new, (if is_new then versions ++ b ∷ [] else versions)) ≡ out =
      ok_unique _ refl h₂ in
    subst (λ (o : Bool × Versions). IsAppended s versions b o) same
      (record { known = known; allowed = allowed; stored = refl })

append_all-appended :
    (s : EpisodeStore) (versions : Versions) (b : Belief) (out : Bool × Versions)
    → append_all s [] versions ≡ ok versions
    → append s versions b ≡ ok out
    → append_all s [] out.1 ≡ ok out.1
append_all-appended s versions b (false, after) h call =
    let k = append-IsAppended s versions b (false, after) call in
    subst (λ v. append_all s [] v ≡ ok v) k.stored h
append_all-appended s versions b (true, after) h call =
    let k = append-IsAppended s versions b (true, after) call in
    let extended : append_all s [] (versions ++ b ∷ []) ≡ ok after =
      append_all-snoc s [] versions b ∙ rw (h, call) refl in
    subst (λ v. append_all s [] v ≡ ok after) k.stored extended

checkpoint-ok :
    (versions_digest : Versions → Text) (versions : Versions)
    → validate_versions versions ≡ ok tt
    → checkpoint versions_digest versions ≡ ok (captured versions_digest versions)
unfolding checkpoint validate_hash
checkpoint-ok versions_digest versions valid =
    rw (valid, text_eq_refl (versions_digest versions)) refl

checkpoint-err :
    (versions_digest : Versions → Text) (versions : Versions) (e : BeliefError)
    → validate_versions versions ≡ err e
    → checkpoint versions_digest versions ≡ err e
unfolding checkpoint
checkpoint-err versions_digest versions e invalid = rw invalid refl

Reachable-append_all :
    {s : EpisodeStore} {versions : Versions}
    → Reachable s versions
    → append_all s [] versions ≡ ok versions
unfolding append_all
Reachable-append_all opened = refl
Reachable-append_all (store_grown {versions = versions} r g) =
    append_all-Grows [] versions versions g (Reachable-append_all r)
Reachable-append_all (appended {s = s} {versions = versions} b out r call) =
    append_all-appended s versions b out (Reachable-append_all r) call

-- The checkpoint of a ledger that was ever reached raises when some version fails the validation of
-- the model, with that error; otherwise it is returned, with a hash that passes its check, and
-- `restore` gives the ledger back from it, on the store as it is by then.
pub restore-reached :
    (versions_digest : Versions → Text) (s : EpisodeStore) (versions : Versions)
    → Reachable s versions
    → ((e : BeliefError) × (validate_versions versions ≡ err e)
        × (checkpoint versions_digest versions ≡ err e))
      ⊎ ((validate_versions versions ≡ ok tt)
          × ((c : BeliefCheckpoint) × (checkpoint versions_digest versions ≡ ok c)
              × (validate_hash versions_digest c ≡ ok tt)
              × (restore s c ≡ ok versions)))
unfolding validate_hash restore
restore-reached versions_digest s versions r = elim (Result-cases (validate_versions versions)) [
  | inr (e, invalid) ↦ inl (e, invalid, checkpoint-err versions_digest versions e invalid)
  | inl (u, valid) ↦ inr (
    valid,
    (
      captured versions_digest versions,
      checkpoint-ok versions_digest versions valid,
      rw (text_eq_refl (versions_digest versions)) refl,
      Reachable-append_all r,
    ),
  )
]
