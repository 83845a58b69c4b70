-- ===== src/Orchestration/Graph/Counting.antt =====
-- How often an identifier occurs, and what the inner loop of the topological sort does with it.
use affective_belief_persist.Prelude.{
  count, count-append, count-insert_id, count-member, insert_id, member-count, ℕ, ◌+◌, ◌≤◌, ◌≡◌,
  refl, sym, subst, inl, inr, false, ◌&&◌, List, [], ◌∷◌, eqb, arith, if◌then◌else◌, Text, text_eq,
  text_eq_iff, text_eq_refl, member, Bool-cases,
}
use affective_belief_persist.Orchestration.Contracts.{TaskContract}
use affective_belief_persist.Orchestration.Graph.{
  all_dependencies, ids, repeated, dependents, Degrees, lowered, release,
}

pub count-repeated :
    (j id d : Text) (xs : List Text)
    → count j (repeated id d xs) ≡ (if text_eq j id then count d xs else 0)
count-repeated j id d [] = ground arith
count-repeated j id d (x ∷ xs) =
    ground (arith, text_eq_iff x d, text_eq_iff d x, count-repeated j id d xs)

-- A task's identifier stands among the dependents of `d` once for each of its dependencies that
-- is `d`, provided that no other task has the identifier.
pub count-dependents_other :
    (ts : List TaskContract) (j d : Text)
    → member text_eq j (ids ts) ≡ false
    → count j (dependents ts d) ≡ 0
unfolding dependents
count-dependents_other [] j d h = refl
count-dependents_other (t ∷ ts) j d h = ground (
  arith,
  count-append j (repeated t.task_id d (all_dependencies t)) (dependents ts d),
  count-repeated j t.task_id d (all_dependencies t),
  count-dependents_other ts j d,
)

-- What the inner loop leaves: each degree less the occurrences in the list that it walks, and the
-- old available identifiers with those whose degree it brought to zero.
pub record Released (deg : Degrees) (available ds : List Text) (deg' : Degrees)
    (available' : List Text) : Type 0 where
  pub degrees : (j : Text) → deg' j + count j ds ≡ deg j
  pub added :
      (j : Text)
      → count j available'
        ≡ count j available + (if eqb (deg' j) 0 && member text_eq j ds then 1 else 0)

lowered-covers :
    (deg : Degrees) (d : Text) (ds : List Text)
    → ((j : Text) → count j (d ∷ ds) ≤ deg j)
    → (j : Text) → count j ds ≤ lowered deg d j
lowered-covers deg d ds h j = ground (arith, h j, text_eq_iff d j, text_eq_iff j d)

module _ (deg : Degrees) (available : List Text) (d : Text) (ds : List Text) (deg' : Degrees)
    (e : deg' d + count d ds ≡ lowered deg d d) where
  -- The identifiers available after the first round.
  abbrev first_round : List Text
  first_round = if eqb (lowered deg d d) 0 then insert_id d available else available

  abbrev Added : ℕ → Text → List Text → List Text → Type 0
  Added n j avail xs = n ≡ count j avail + (if eqb (deg' j) 0 && member text_eq j xs then 1 else 0)

  Added-same : {n : ℕ} → Added n d first_round ds → Added n d available (d ∷ ds)
  Added-same h =
      ground
        (arith, count-insert_id d d available, text_eq_refl d, count-member d ds, member-count d ds)

  Added-other :
      {n : ℕ} (j : Text)
      → text_eq j d ≡ false
      → Added n j first_round ds
      → Added n j available (d ∷ ds)
  Added-other j f h = ground (arith, count-insert_id j d available)

  Added-step : {n : ℕ} (j : Text) → Added n j first_round ds → Added n j available (d ∷ ds)
  Added-step {n} j h = elim (Bool-cases (text_eq j d)) [
    | inl t ↦
        let same : j ≡ d = (text_eq_iff j d).0 t in
        subst (λ k. Added n k first_round ds → Added n k available (d ∷ ds)) (sym same) Added-same h
    | inr f ↦ Added-other j f h
  ]

pub release-Released :
    (deg : Degrees) (available ds : List Text)
    → ((j : Text) → count j ds ≤ deg j)
    → Released deg available ds (release deg available ds).0 (release deg available ds).1
unfolding release
release-Released deg available [] h = record {
  degrees = λ j. omega arith;
  added = λ j. ground arith;
}
release-Released deg available (d ∷ ds) h =
    let available₁ = if eqb (lowered deg d d) 0 then insert_id d available else available in
    let rest = release-Released (lowered deg d) available₁ ds (lowered-covers deg d ds h) in
    record {
      degrees = λ j. ground (arith, h j, rest.degrees j, text_eq_iff d j, text_eq_iff j d);
      added = λ j.
          Added-step deg available d ds (release (lowered deg d) available₁ ds).0 (rest.degrees d) j
            (rest.added j);
    }
