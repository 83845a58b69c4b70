-- ===== src/Prelude/Sets.antt =====
-- Sets of texts as lists: uniqueness, inclusion, sorting, and how often an element occurs.
use Prim.Native.Nat.{ℕ, ◌+◌, ◌≤◌}
use mathlib.Core.Path.{◌≡◌, refl}
use mathlib.Core.Logic.{◌⊎◌, inl}
use mathlib.Core.Bool.{Bool, true, not, ◌&&◌}
use mathlib.Core.List.{List, [], ◌∷◌, ◌++◌}
use native.Mathlib.Omega.{arith}
use affective_belief_persist.Prelude.Tests.{if◌then◌else◌}
use affective_belief_persist.Prelude.Lists.{any, all}
use affective_belief_persist.Prelude.Texts.{Text, text_eq, text_eq_iff, text_eq_refl, text_le}
use affective_belief_persist.Prelude.Distinct.{member}

-- len(xs) == len(set(xs))
unfoldable pub unique : List Text → Bool
unique [] = true
unique (x ∷ xs) = not (any (λ y. text_eq x y) xs) && unique xs

abbrev pub subset : List Text → List Text → Bool
subset xs ys = all (λ x. member text_eq x ys) xs

-- sorted(...), keeping duplicates
unfoldable pub insert_id : Text → List Text → List Text
insert_id x [] = x ∷ []
insert_id x (y ∷ ys) = if text_le x y then x ∷ y ∷ ys else y ∷ insert_id x ys

unfoldable pub sorted_ids : List Text → List Text
unfolding insert_id
sorted_ids [] = []
sorted_ids (x ∷ xs) = insert_id x (sorted_ids xs)

-- Every element of the one list stands in the other.
abbrev pub Within : List Text → List Text → Type 0
Within xs ys = (x : Text) → member text_eq x xs ≡ true → member text_eq x ys ≡ true

pub subset-Within : (xs ys : List Text) → subset xs ys ≡ true → Within xs ys
subset-Within [] ys h z i = ground arith
subset-Within (x ∷ xs) ys h z i =
    let rest : subset xs ys ≡ true = ground arith in
    ground (arith, subset-Within xs ys rest z, (text_eq_iff z x).0)

pub Within-subset : (xs ys : List Text) → Within xs ys → subset xs ys ≡ true
Within-subset [] ys h = refl
Within-subset (x ∷ xs) ys h =
    let first = h x (ground (arith, text_eq_refl x)) in
    let rest = Within-subset xs ys (λ z i. h z (ground arith)) in ground arith

abbrev pub count : Text → List Text → ℕ
count j [] = 0
count j (x ∷ xs) = (if text_eq j x then 1 else 0) + count j xs

pub count-append : (j : Text) (xs ys : List Text) → count j (xs ++ ys) ≡ count j xs + count j ys
count-append j [] ys = omega arith
count-append j (x ∷ xs) ys = omega (arith, count-append j xs ys)

pub count-insert_id : (j x : Text) (xs : List Text) → count j (insert_id x xs) ≡ count j (x ∷ xs)
unfolding insert_id
count-insert_id j x [] = refl
count-insert_id j x (y ∷ ys) = ground (arith, count-insert_id j x ys)

pub count-sorted_ids : (j : Text) (xs : List Text) → count j (sorted_ids xs) ≡ count j xs
unfolding sorted_ids
count-sorted_ids j [] = refl
count-sorted_ids j (x ∷ xs) =
    omega (arith, count-insert_id j x (sorted_ids xs), count-sorted_ids j xs)

pub count-member : (j : Text) (xs : List Text) → (count j xs ≡ 0) ⊎ (member text_eq j xs ≡ true)
count-member j [] = inl refl
count-member j (x ∷ xs) = ground (arith, count-member j xs)

pub member-count : (j : Text) (xs : List Text) → member text_eq j xs ≡ true → 1 ≤ count j xs
member-count j [] h = cc
member-count j (x ∷ xs) h = ground (arith, member-count j xs)
