-- ===== src/Memory/Beliefs/Updates.antt =====
-- What an accepted update of a belief's evidence returns.
use affective_belief_persist.Prelude.{
  ℕ, ◌≤◌, ◌<◌, ◌≡◌, refl, sym, ap, ◌∙◌, subst, inl, inr, ◌↔◌, true, false, not, ◌||◌, some, List,
  [], ◌∷◌, ◌++◌, any, all, leb, ◌&&◌, is_identifier, Bool, ltb, le→ltb, length, Bool-cases, ok,
  >>-eq-ok, raise_if, raise_if-ok, ok_unique, Text, text_eq, text_eq_iff, text_eq_refl, member,
  unique, Within-subset, count, count-sorted_ids, count-member, member-count, arith, if◌then◌else◌,
  codes,
}
use affective_belief_persist.Memory.{
  Belief, validate_evidence, validate_belief, names_fit, scores_fit, evidence_fits, last_day,
  is_score, belief_eq,
}
use affective_belief_persist.Memory.Store.{EpisodeStore}
use affective_belief_persist.Memory.Beliefs.{
  not_disjoint, Versions, current, check_known, check_order, check_previous, append, distinct_ids,
  sorted_union, confidence_of, update_belief_evidence,
}

member-distinct_ids :
    (j : Text) (xs : List Text) → member text_eq j (distinct_ids xs) ≡ member text_eq j xs
unfolding distinct_ids
member-distinct_ids j [] = refl
member-distinct_ids j (x ∷ xs) =
    ground (arith, text_eq_iff j x, member-distinct_ids j xs, member-distinct_ids x xs)

count-distinct_ids : (j : Text) (xs : List Text) → count j (distinct_ids xs) ≤ 1
unfolding distinct_ids
count-distinct_ids j [] = omega arith
count-distinct_ids j (x ∷ xs) =
    ground (arith, text_eq_iff j x, count-distinct_ids j xs, count-member j (distinct_ids xs))

any-member : (x : Text) (xs : List Text) → any (λ y. text_eq x y) xs ≡ member text_eq x xs
any-member x [] = refl
any-member x (y ∷ ys) = ground (arith, any-member x ys)

count-unique : (xs : List Text) → ((j : Text) → count j xs ≤ 1) → unique xs ≡ true
unfolding unique
count-unique [] h = refl
count-unique (x ∷ xs) h =
    let rest = count-unique xs (λ j. omega (arith, h j)) in
    ground (arith, any-member x xs, member-count x xs, text_eq_refl x, h x, rest)

member-of-count :
    (j : Text) (xs ys : List Text)
    → count j xs ≡ count j ys
    → member text_eq j xs ≡ member text_eq j ys
member-of-count j xs ys h =
    ground (arith, count-member j xs, count-member j ys, member-count j xs, member-count j ys)

member-append :
    (j : Text) (xs ys : List Text)
    → member text_eq j (xs ++ ys) ≡ (member text_eq j xs || member text_eq j ys)
member-append j [] ys = refl
member-append j (x ∷ xs) ys = ground (arith, member-append j xs ys)

sorted_union-unique : (xs ys : List Text) → unique (sorted_union xs ys) ≡ true
unfolding sorted_union
sorted_union-unique xs ys = count-unique (sorted_union xs ys) λ j.
    omega (arith, count-sorted_ids j (distinct_ids (xs ++ ys)), count-distinct_ids j (xs ++ ys))

member-sorted_union :
    (j : Text) (xs ys : List Text)
    → member text_eq j (sorted_union xs ys) ≡ (member text_eq j xs || member text_eq j ys)
unfolding sorted_union
member-sorted_union j xs ys =
    member-of-count j (sorted_union xs ys) (distinct_ids (xs ++ ys))
      (count-sorted_ids j (distinct_ids (xs ++ ys)))
    ∙ member-distinct_ids j (xs ++ ys)
    ∙ member-append j xs ys

all-of-member :
    (p : Text → Bool) (xs : List Text)
    → ((x : Text) → member text_eq x xs ≡ true → p x ≡ true)
    → all p xs ≡ true
all-of-member p [] h = refl
all-of-member p (x ∷ xs) h =
    let rest = all-of-member p xs (λ y i. h y (ground (arith, i))) in
    let first_one = h x (rw (text_eq_refl x) refl) in ground (arith, first_one, rest)

member-of-all :
    (p : Text → Bool) (xs : List Text) (x : Text)
    → all p xs ≡ true
    → member text_eq x xs ≡ true
    → p x ≡ true
member-of-all p [] x h i = absurd (cc i)
member-of-all p (y ∷ ys) x h i = elim (Bool-cases (text_eq x y)) [
  | inl eq ↦
      let named : x ≡ y = (text_eq_iff x y).0 eq in
      let fits : p y ≡ true = ground (arith, h) in subst (λ z. p z ≡ true) (sym named) fits
  | inr ne ↦ member-of-all p ys x (ground (arith, h)) (ground (arith, i, ne))
]

all-sorted_union :
    (p : Text → Bool) (xs ys : List Text) → all p (sorted_union xs ys) ≡ (all p xs && all p ys)
all-sorted_union p xs ys = elim (Bool-cases (all p xs && all p ys)) [
  | inl both ↦
      let one : all p xs ≡ true = ground (arith, both) in
      let other : all p ys ≡ true = ground (arith, both) in
      all-of-member p (sorted_union xs ys) (λ x i.
        let here_too = sym (member-sorted_union x xs ys) ∙ i in
        elim (Bool-cases (member text_eq x xs)) [
          | inl old ↦ member-of-all p xs x one old
          | inr new ↦ member-of-all p ys x other (sym (rw new refl) ∙ here_too)
        ])
      ∙ sym both
  | inr some_not ↦ elim (Bool-cases (all p (sorted_union xs ys))) [
    | inr none_fit ↦ none_fit ∙ sym some_not
    | inl every ↦
        let one = all-of-member p xs (λ x i.
          member-of-all p (sorted_union xs ys) x every (member-sorted_union x xs ys ∙ rw i refl)) in
        let other = all-of-member p ys (λ x i.
          member-of-all p (sorted_union xs ys) x every
            (member-sorted_union x xs ys ∙ rw i (ground arith))) in
        let both : (all p xs && all p ys) ≡ true = rw (one, other) refl in
        absurd (cc (both, some_not))
  ]
]

-- What the fields of a model have to fulfil, of the belief that is updated and of the arguments.
abbrev pub update_fits : Belief → ℕ → List Text → List Text → Bool
update_fits b day supporting contradicting =
    (names_fit b && scores_fit b)
    && ((evidence_fits b && (all is_identifier supporting && all is_identifier contradicting))
        && leb day last_day)

-- `u` is the belief with the evidence added, each side without repetitions, and with a confidence
-- from 0 to 1, which is 0 exactly when as much speaks for it as against it.
pub record IsUpdated (b : Belief) (day : ℕ) (supporting contradicting : List Text) (u : Belief)
    : Type 0 where
  pub same : u ≡ record b {
    supporting_evidence_ids = u.supporting_evidence_ids;
    contradicting_evidence_ids = u.contradicting_evidence_ids;
    confidence = u.confidence;
    last_update_day = day;
    update_source = codes "deterministic_evidence";
  }
  pub supports :
      (x : Text)
      → member text_eq x u.supporting_evidence_ids
        ≡ (member text_eq x b.supporting_evidence_ids || member text_eq x supporting)
  pub contradicts :
      (x : Text)
      → member text_eq x u.contradicting_evidence_ids
        ≡ (member text_eq x b.contradicting_evidence_ids || member text_eq x contradicting)
  pub consistent : validate_evidence u ≡ ok tt
  pub valid : (validate_belief u ≡ ok tt) ↔ (update_fits b day supporting contradicting ≡ true)
  pub bounded : (u.confidence.above ≤ u.confidence.below) × (0 < u.confidence.below)
  pub balanced :
      (u.confidence.above ≡ 0)
      ↔ (length u.supporting_evidence_ids ≡ length u.contradicting_evidence_ids)

confidence_of-bounded :
    (s c : ℕ)
    → ((confidence_of s c).above ≤ (confidence_of s c).below) × (0 < (confidence_of s c).below)
unfolding confidence_of
confidence_of-bounded s c = ground arith

confidence_of-balanced : (s c : ℕ) → ((confidence_of s c).above ≡ 0) ↔ (s ≡ c)
unfolding confidence_of
confidence_of-balanced s c = ground arith

abbrev updated : Belief → ℕ → List Text → List Text → Belief
updated b day xs ys = record b {
  supporting_evidence_ids = xs;
  contradicting_evidence_ids = ys;
  confidence = confidence_of (length xs) (length ys);
  last_update_day = day;
  update_source = codes "deterministic_evidence";
}

updated-valid :
    (b : Belief) (day : ℕ) (xs ys : List Text)
    → any (λ x. member text_eq x ys) xs ≡ false
    → unique xs ≡ true
    → unique ys ≡ true
    → validate_evidence (updated b day xs ys) ≡ ok tt
unfolding validate_evidence confidence_of
updated-valid b day [] [] d u v = refl
updated-valid b day [] (y ∷ ys) d u v = ground (arith, u, v)
updated-valid b day (x ∷ xs) ys d u v = ground (arith, d, u, v)

confidence_of-is_score : (s c : ℕ) → is_score (confidence_of s c) ≡ true
unfolding confidence_of
confidence_of-is_score s c = ground arith

updated-validate_belief :
    (b : Belief) (day : ℕ) (xs ys : List Text)
    → validate_evidence (updated b day xs ys) ≡ ok tt
    → (validate_belief (updated b day xs ys) ≡ ok tt) ↔ (
        ((names_fit b && scores_fit b)
          && ((all is_identifier xs && all is_identifier ys) && leb day last_day))
        ≡ true)
unfolding validate_belief
updated-validate_belief b day xs ys consistent =
    let score = confidence_of-is_score (length xs) (length ys) in
    (λ h. ground (arith, h, score, consistent), λ h. ground (arith, h, score, consistent))

updated-update_fits :
    (b : Belief) (day : ℕ) (supporting contradicting : List Text)
    → ((names_fit b && scores_fit b)
        && ((all is_identifier (sorted_union b.supporting_evidence_ids supporting)
              && all is_identifier (sorted_union b.contradicting_evidence_ids contradicting))
            && leb day last_day))
      ≡ update_fits b day supporting contradicting
updated-update_fits b day supporting contradicting =
    rw
      (
        all-sorted_union is_identifier b.supporting_evidence_ids supporting,
        all-sorted_union is_identifier b.contradicting_evidence_ids contradicting,
      )
      (ground arith)

-- An update that is accepted adds exactly the given evidence on its two sides and changes no
-- proposition; its confidence is between 0 and 1, and 0 exactly when both sides have as many entries.
-- The belief it returns passes the validation of the model exactly when the kept fields fit, all
-- evidence is given by identifiers and the day is at most 40.
pub update_belief_evidence-IsUpdated :
    (b : Belief) (day : ℕ) (supporting contradicting : List Text) (u : Belief)
    → update_belief_evidence b day supporting contradicting ≡ ok u
    → IsUpdated b day supporting contradicting u
unfolding update_belief_evidence
update_belief_evidence-IsUpdated b day supporting contradicting u h =
    let xs = sorted_union b.supporting_evidence_ids supporting in
    let ys = sorted_union b.contradicting_evidence_ids contradicting in
    let both = any (λ x. member text_eq x ys) xs in
    let (apart, h₁) = >>-eq-ok (raise_if both not_disjoint) (ok (updated b day xs ys)) h in
    let consistent =
      updated-valid b day xs ys (raise_if-ok both not_disjoint apart)
        (sorted_union-unique b.supporting_evidence_ids supporting)
        (sorted_union-unique b.contradicting_evidence_ids contradicting) in
    let (to, from) = updated-validate_belief b day xs ys consistent in
    let fits = updated-update_fits b day supporting contradicting in
    subst (IsUpdated b day supporting contradicting) (ok_unique _ refl h₁) (record {
      same = refl;
      supports = λ x. member-sorted_union x b.supporting_evidence_ids supporting;
      contradicts = λ x. member-sorted_union x b.contradicting_evidence_ids contradicting;
      consistent = consistent;
      valid = (λ h. sym fits ∙ to h, λ h. from (fits ∙ h));
      bounded = confidence_of-bounded (length xs) (length ys);
      balanced = confidence_of-balanced (length xs) (length ys);
    })

-- The ledger takes an update of its current version of a belief, if the day does not go back and
-- the evidence is known: it is stored unless it is the same version again.
pub append-update :
    (s : EpisodeStore) (versions : Versions) (b : Belief) (day : ℕ)
    (supporting contradicting : List Text) (u : Belief)
    → current versions b.belief_id ≡ some b
    → b.last_update_day ≤ day
    → update_belief_evidence b day supporting contradicting ≡ ok u
    → check_known s (u.supporting_evidence_ids ++ u.contradicting_evidence_ids) ≡ ok tt
    → append s versions u
      ≡ ok (not (belief_eq b u), (if belief_eq b u then versions else versions ++ u ∷ []))
unfolding append check_previous check_order
append-update s versions b day supporting contradicting u now later h known =
    let k = update_belief_evidence-IsUpdated b day supporting contradicting u h in
    let named : u.belief_id ≡ b.belief_id = ap (λ (x : Belief). x.belief_id) k.same in
    let found : current versions u.belief_id ≡ some b =
      subst (λ i. current versions i ≡ some b) (sym named) now in
    let in_time : ltb u.last_update_day b.last_update_day ≡ false =
      subst (λ d. ltb d b.last_update_day ≡ false)
        (sym (ap (λ (x : Belief). x.last_update_day) k.same))
        (le→ltb day b.last_update_day later) in
    let support =
      Within-subset b.supporting_evidence_ids u.supporting_evidence_ids
        (λ x i. k.supports x ∙ rw i refl) in
    let contradict =
      Within-subset b.contradicting_evidence_ids u.contradicting_evidence_ids
        (λ x i. k.contradicts x ∙ rw i refl) in
    elim (Bool-cases (belief_eq b u)) [
      | inl eq ↦ rw (known, found, check_previous, eq) refl
      | inr ne ↦
          rw (known, found, check_previous, ne, check_order, in_time, support, contradict) refl
    ]
