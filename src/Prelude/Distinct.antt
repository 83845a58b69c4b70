-- ===== src/Prelude/Distinct.antt =====
-- Sets as lists: membership by a Boolean equality, removal, and the number of distinct elements.
use Prim.Native.Nat.{ℕ, suc, ◌+◌, ◌≤◌}
use mathlib.Core.Path.{◌≡◌, refl}
use mathlib.Core.Logic.{◌↔◌, inl, inr}
use mathlib.Core.Bool.{Bool, true, false, not, ◌&&◌, ◌||◌}
use mathlib.Core.List.{List, [], ◌∷◌}
use native.Mathlib.Omega.{arith}
use affective_belief_persist.Prelude.Tests.{if◌then◌else◌, Bool-cases}

module _ {ℓ} {A : Type ℓ} (eq : A → A → Bool) where
  -- x in xs
  abbrev pub member : A → List A → Bool
  member x [] = false
  member x (y ∷ ys) = eq x y || member x ys

  abbrev pub without : A → List A → List A
  without x [] = []
  without x (y ∷ ys) = let rest = without x ys in if eq x y then rest else y ∷ rest

  -- len(set(xs))
  abbrev pub count_distinct : List A → ℕ
  count_distinct [] = 0
  count_distinct (x ∷ xs) = let rest = count_distinct xs in if member x xs then rest else suc rest

module _ {ℓ} {A : Type ℓ} (eq : A → A → Bool) (law : (a b : A) → (eq a b ≡ true) ↔ (a ≡ b)) where
  member-without :
      (x y : A) (xs : List A) → member eq y (without eq x xs) ≡ (member eq y xs && not (eq x y))
  member-without x y [] = refl
  member-without x y (z ∷ zs) = ground (arith, law x z, law y z, law x y, member-without x y zs)

  count-without :
      (x : A) (xs : List A)
      → count_distinct eq xs
        ≡ (if member eq x xs then 1 else 0) + count_distinct eq (without eq x xs)
  count-without x [] = omega arith
  count-without x (y ∷ ys) =
      ground (arith, law x y, law y x, member-without x y ys, count-without x ys)

  -- A set within another has at most as many elements.
  pub count_mono :
      (xs ys : List A)
      → ((a : A) → member eq a xs ≡ true → member eq a ys ≡ true)
      → count_distinct eq xs ≤ count_distinct eq ys
  count_mono [] ys h = omega arith
  count_mono (x ∷ xs) ys h = elim (Bool-cases (member eq x xs)) [
    | inl old ↦ rw old (count_mono xs ys (λ a m. h a (ground arith)))
    | inr new ↦
        let smaller = count_mono xs (without eq x ys) (λ a m. within a m new) in
        rw new (omega (arith, smaller, counted))
  ]
    where
      within :
          (a : A)
          → member eq a xs ≡ true
          → member eq x xs ≡ false
          → member eq a (without eq x ys) ≡ true
      within a m new = ground (arith, member-without x a ys, h a, law x a)

      counted : count_distinct eq ys ≡ suc (count_distinct eq (without eq x ys))
      counted = ground (arith, count-without x ys, h x, law x x)
