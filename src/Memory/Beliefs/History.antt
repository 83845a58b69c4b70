-- ===== src/Memory/Beliefs/History.antt =====
-- How the versions of one belief follow each other in a ledger.
use affective_belief_persist.Prelude.{
  not-eq-false, ◌≤◌, ◌≡◌, refl, sym, ap, ◌∙◌, subst, ◌⊎◌, inl, inr, Bool, true, false, not, ◌||◌,
  none, some, List, [], ◌∷◌, In, here, there, All, Pairs, All-In, All-map, All-snoc, Pairs-snoc,
  some_unique, ltb, ltb→ge, ||-eq-false, Bool-cases, Option-cases, ok, >>-eq-ok, raise_if,
  raise_if-ok, Text, text_eq, text_eq_iff, subset, subset-Within, Within-subset, arith,
}
use affective_belief_persist.Memory.{Belief, belief_eq}
use affective_belief_persist.Memory.Store.{EpisodeStore}
use affective_belief_persist.Memory.Beliefs.{
  Versions, current, check_known, check_previous, check_order, backward_in_time, discarded_evidence,
}
use affective_belief_persist.Memory.Beliefs.Ledger.{
  Reachable, opened, store_grown, appended, evidence, check_known-Grows, IsAppended,
  append-IsAppended,
}

-- `b` may follow `a`: if they are versions of one belief, `b` is not of an earlier day and cites
-- all that `a` cites, on the same side.
abbrev pub Follows : Belief → Belief → Type 0
Follows a b =
    text_eq a.belief_id b.belief_id ≡ true
    → (a.last_update_day ≤ b.last_update_day)
      × (subset a.supporting_evidence_ids b.supporting_evidence_ids ≡ true)
      × (subset a.contradicting_evidence_ids b.contradicting_evidence_ids ≡ true)

subset_refl : (xs : List Text) → subset xs xs ≡ true
subset_refl xs = Within-subset xs xs (λ x h. h)

subset_trans :
    (xs ys zs : List Text) → subset xs ys ≡ true → subset ys zs ≡ true → subset xs zs ≡ true
subset_trans xs ys zs h k =
    Within-subset xs zs (λ x i. subset-Within ys zs k x (subset-Within xs ys h x i))

Follows-refl : (a : Belief) → Follows a a
Follows-refl a h =
    (omega arith, subset_refl a.supporting_evidence_ids, subset_refl a.contradicting_evidence_ids)

Follows-trans :
    (a p b : Belief) → p.belief_id ≡ b.belief_id → Follows a p → Follows p b → Follows a b
Follows-trans a p b same h k eq =
    let (day, supporting, contradicting) =
      h (subst (λ i. text_eq a.belief_id i ≡ true) (sym same) eq) in
    let (day', supporting', contradicting') = k ((text_eq_iff p.belief_id b.belief_id).1 same) in
    (
      omega (arith, day, day'),
      subset_trans a.supporting_evidence_ids p.supporting_evidence_ids b.supporting_evidence_ids
          supporting supporting',
      subset_trans a.contradicting_evidence_ids p.contradicting_evidence_ids
          b.contradicting_evidence_ids contradicting contradicting',
    )

-- What the search for the last version of a belief finds.
abbrev CurrentCases : Text → Belief → Versions → Type 0
CurrentCases id b rest =
    ((q : Belief) × (current rest id ≡ some q) × (current (b ∷ rest) id ≡ some q))
    ⊎ (((current rest id ≡ none)
          × (text_eq b.belief_id id ≡ true)
          × (current (b ∷ rest) id ≡ some b))
        ⊎ ((current rest id ≡ none)
            × (text_eq b.belief_id id ≡ false)
            × (current (b ∷ rest) id ≡ none)))

current-cases : (id : Text) (b : Belief) (rest : Versions) → CurrentCases id b rest
unfolding current
current-cases id b rest = elim (Option-cases (current rest id)) [
  | inl nothing ↦ elim (Bool-cases (text_eq b.belief_id id)) [
    | inl eq ↦ inr (inl (nothing, eq, rw (current, nothing, eq) refl))
    | inr ne ↦ inr (inr (nothing, ne, rw (current, nothing, ne) refl))
  ]
  | inr (q, found) ↦ inl (q, found, rw (current, found) refl)
]

current-absent :
    (versions : Versions) (id : Text)
    → current versions id ≡ none
    → All (λ b. text_eq b.belief_id id ≡ false) versions
current-absent [] id h = tt
current-absent (b ∷ rest) id h = elim (current-cases id b rest) [
  | inl (q, found, answer) ↦ absurd (cc (answer, h))
  | inr (inl (nothing, eq, answer)) ↦ absurd (cc (answer, h))
  | inr (inr (nothing, ne, answer)) ↦ (ne, current-absent rest id nothing)
]

current-In :
    (versions : Versions) (id : Text) (p : Belief)
    → current versions id ≡ some p
    → In p versions × (p.belief_id ≡ id)
unfolding current
current-In [] id p h = absurd (cc h)
current-In (b ∷ rest) id p h = elim (current-cases id b rest) [
  | inl (q, found, answer) ↦
      let same : q ≡ p = some_unique _ answer h in
      let (i, eq) = current-In rest id p (found ∙ ap some same) in (there i, eq)
  | inr (inl (nothing, eq, answer)) ↦
      let same : b ≡ p = some_unique _ answer h in
      subst (λ (x : Belief). In x (b ∷ rest) × (x.belief_id ≡ id)) same
        (here, (text_eq_iff b.belief_id id).0 eq)
  | inr (inr (nothing, ne, answer)) ↦ absurd (cc (answer, h))
]

-- The last version follows every other one of the belief.
current-Follows :
    (versions : Versions) (id : Text) (p : Belief)
    → Pairs Follows versions
    → current versions id ≡ some p
    → All (λ a. Follows a p) versions
current-Follows [] id p k h = tt
current-Follows (b ∷ rest) id p k h = elim (current-cases id b rest) [
  | inl (q, found, answer) ↦
      let here_too : current rest id ≡ some p = found ∙ ap some (some_unique _ answer h) in
      (
        All-In (Follows b) k.0 (current-In rest id p here_too).0,
        current-Follows rest id p k.1 here_too,
      )
  | inr (inl (nothing, eq, answer)) ↦
      let same : b ≡ p = some_unique _ answer h in
      let named : b.belief_id ≡ id = (text_eq_iff b.belief_id id).0 eq in
      subst (λ (x : Belief). All (λ a. Follows a x) (b ∷ rest)) same
        (
          Follows-refl b,
          All-map (λ (a : Belief). text_eq a.belief_id id ≡ false) rest
              (λ a ne eq'. absurd (cc (ne, subst (λ i. text_eq a.belief_id i ≡ true) named eq')))
              (current-absent rest id nothing),
        )
  | inr (inr (nothing, ne, answer)) ↦ absurd (cc (answer, h))
]

check_order-Follows : (p b : Belief) → check_order p b ≡ ok true → Follows p b
unfolding check_order
check_order-Follows p b h eq =
    let early = ltb b.last_update_day p.last_update_day in
    let fewer = not (subset p.supporting_evidence_ids b.supporting_evidence_ids) in
    let fewer' = not (subset p.contradicting_evidence_ids b.contradicting_evidence_ids) in
    let (in_time, h₁) = >>-eq-ok (raise_if early backward_in_time) _ h in
    let (cited, h₂) = >>-eq-ok (raise_if (fewer || fewer') discarded_evidence) (ok true) h₁ in
    let day : early ≡ false = raise_if-ok early backward_in_time in_time in
    let (one_side, other_side) =
      ||-eq-false fewer fewer' (raise_if-ok (fewer || fewer') discarded_evidence cited) in
    (ltb→ge _ _ day, not-eq-false _ one_side, not-eq-false _ other_side)

check_previous-Follows : (p b : Belief) → check_previous (some p) b ≡ ok true → Follows p b
unfolding check_previous
check_previous-Follows p b h = elim (Bool-cases (belief_eq p b)) [
  | inl same ↦
      let skipped : check_previous (some p) b ≡ ok false = rw (check_previous, same) refl in
      absurd (cc (skipped, h))
  | inr other ↦
      let checked : check_previous (some p) b ≡ check_order p b = rw (check_previous, other) refl in
      check_order-Follows p b (sym checked ∙ h)
]

appended-Follows :
    (versions : Versions) (b : Belief)
    → Pairs Follows versions
    → check_previous (current versions b.belief_id) b ≡ ok true
    → All (λ a. Follows a b) versions
appended-Follows versions b k h = elim (Option-cases (current versions b.belief_id)) [
  | inl nothing ↦
      All-map (λ (a : Belief). text_eq a.belief_id b.belief_id ≡ false) versions
        (λ a ne eq. absurd (cc (ne, eq))) (current-absent versions b.belief_id nothing)
  | inr (p, found) ↦
      let allowed : check_previous (some p) b ≡ ok true =
        subst (λ o. check_previous o b ≡ ok true) found h in
      All-map (λ (a : Belief). Follows a p) versions
        (λ a f.
          Follows-trans a p b (current-In versions b.belief_id p found).1 f
            (check_previous-Follows p b allowed))
        (current-Follows versions b.belief_id p k found)
]

-- The versions of a ledger cite known evidence and follow one another.
pub record IsLedger (s : EpisodeStore) (versions : Versions) : Type 0 where
  pub known : All (λ b. check_known s (evidence b) ≡ ok tt) versions
  pub ordered : Pairs Follows versions

appended-IsLedger :
    (s : EpisodeStore) (versions : Versions) (b : Belief) (out : Bool × Versions)
    → IsAppended s versions b out
    → IsLedger s versions
    → IsLedger s out.1
appended-IsLedger s versions b (false, after) a k = subst (IsLedger s) a.stored k
appended-IsLedger s versions b (true, after) a k = subst (IsLedger s) a.stored (record {
  known = All-snoc (λ (c : Belief). check_known s (evidence c) ≡ ok tt) versions b k.known a.known;
  ordered =
      Pairs-snoc Follows versions b k.ordered (appended-Follows versions b k.ordered a.allowed);
})

-- In every ledger that is reached by calls of `append`, accepted or not, on a store that may grow
-- between them, each version cites only episodes of the store, and a later version of a belief is
-- not of an earlier day and cites all that the earlier ones cite, on the same side.
pub Reachable-IsLedger :
    (s : EpisodeStore) (versions : Versions) → Reachable s versions → IsLedger s versions
Reachable-IsLedger s versions opened = record { known = tt; ordered = tt }
Reachable-IsLedger t versions (store_grown {s = s} r g) =
    let k = Reachable-IsLedger s versions r in
    record {
      known =
          All-map (λ (b : Belief). check_known s (evidence b) ≡ ok tt) versions
            (λ b h. check_known-Grows (evidence b) g h) k.known;
      ordered = k.ordered;
    }
Reachable-IsLedger s after (appended {versions = versions} b out r call) =
    appended-IsLedger s versions b out (append-IsAppended s versions b out call)
      (Reachable-IsLedger s versions r)
