-- ===== src/Prelude/Lists.antt =====
-- Lists over the native numbers: tests, membership by recursion and their laws.
use Prim.Native.Nat.{ℕ, suc, ◌+◌, ◌≤◌}
use mathlib.Core.Path.{◌≡◌, refl, sym, ◌∙◌, subst}
use mathlib.Core.Logic.{inl, inr}
use mathlib.Core.Bool.{Bool, true, false, ◌&&◌, ◌||◌}
use mathlib.Core.Option.{Option, none, some}
use mathlib.Core.List.{List, [], ◌∷◌, ◌++◌}
use native.Mathlib.Omega.{arith}
use affective_belief_persist.Prelude.Tests.{if◌then◌else◌, Bool-cases}

module _ {ℓ} {A : Type ℓ} where
  abbrev pub length : List A → ℕ
  length [] = 0
  length (x ∷ xs) = suc (length xs)

  -- any(p(x) for x in xs)
  abbrev pub any : (A → Bool) → List A → Bool
  any p [] = false
  any p (x ∷ xs) = p x || any p xs

  -- all(p(x) for x in xs)
  abbrev pub all : (A → Bool) → List A → Bool
  all p [] = true
  all p (x ∷ xs) = p x && all p xs

  -- [x for x in xs if p(x)]
  abbrev pub keep : (A → Bool) → List A → List A
  keep p [] = []
  keep p (x ∷ xs) = let rest = keep p xs in if p x then x ∷ rest else rest

  -- next((x for x in xs if p(x)), None)
  abbrev pub first : (A → Bool) → List A → Option A
  first p [] = none
  first p (x ∷ xs) = if p x then some x else first p xs

  some-injective : (x y : A) → some x ≡ some y → x ≡ y
  some-injective x y h = cc

  pub first-holds : (p : A → Bool) (xs : List A) (x : A) → first p xs ≡ some x → p x ≡ true
  first-holds p [] x h = absurd (cc h)
  first-holds p (y ∷ ys) x h = elim (Bool-cases (p y)) [
    | inl this ↦
        let same : y ≡ x = some-injective _ _ (sym (rw this refl) ∙ h) in
        subst (λ z. p z ≡ true) same this
    | inr later ↦ first-holds p ys x (sym (rw later refl) ∙ h)
  ]

  abbrev pub last? : List A → Option A
  last? [] = none
  last? (x ∷ []) = some x
  last? (x ∷ y ∷ xs) = last? (y ∷ xs)

  -- Every element satisfies `P`.
  abbrev pub All {κ} : (A → Type κ) → List A → Type κ
  All P [] = Unit
  All P (x ∷ xs) = P x × All P xs

  pub length-append : (xs ys : List A) → length (xs ++ ys) ≡ length xs + length ys
  length-append [] ys = omega arith
  length-append (x ∷ xs) ys = omega (arith, length-append xs ys)

  pub any-append : (p : A → Bool) (xs ys : List A) → any p (xs ++ ys) ≡ (any p xs || any p ys)
  any-append p [] ys = refl
  any-append p (x ∷ xs) ys = ground (arith, any-append p xs ys)

  pub length-keep : (p : A → Bool) (xs : List A) → length (keep p xs) ≤ length xs
  length-keep p [] = omega arith
  length-keep p (x ∷ xs) = ground (arith, length-keep p xs)

-- `x` stands in the list.
pub data In {ℓ} {A : Type ℓ} (x : A) : List A → Type ℓ where
  here : {xs : List A} → In x (x ∷ xs)
  there : {y : A} {xs : List A} → In x xs → In x (y ∷ xs)

pub In_none {ℓ} : {A : Type ℓ} {x : A} → In x [] → ⊥
In_none i = elim i [ ]

-- Every element is related to all that come after it.
abbrev pub Pairs {ℓ κ} : {A : Type ℓ} → (A → A → Type κ) → List A → Type κ
Pairs R [] = Unit
Pairs R (x ∷ xs) = All (R x) xs × Pairs R xs

module _ {ℓ κ} {A : Type ℓ} (P : A → Type κ) where
  pub All-In : {x : A} {xs : List A} → All P xs → In x xs → P x
  All-In h here = h.0
  All-In h (there i) = All-In h.1 i

  pub All-keep : (p : A → Bool) (xs : List A) → All P xs → All P (keep p xs)
  All-keep p [] h = tt
  All-keep p (x ∷ xs) h = ground (arith, All-keep p xs h.1)

  pub All-map : {Q : A → Type κ} (xs : List A) → ((x : A) → P x → Q x) → All P xs → All Q xs
  All-map [] f h = tt
  All-map (x ∷ xs) f h = (f x h.0, All-map xs f h.1)

  pub All-snoc : (xs : List A) (x : A) → All P xs → P x → All P (xs ++ x ∷ [])
  All-snoc [] x h p = (p, tt)
  All-snoc (y ∷ ys) x h p = (h.0, All-snoc ys x h.1 p)

pub Pairs-snoc {ℓ κ} :
    {A : Type ℓ} (R : A → A → Type κ) (xs : List A) (x : A)
    → Pairs R xs
    → All (λ y. R y x) xs
    → Pairs R (xs ++ x ∷ [])
Pairs-snoc R [] x h k = (tt, tt)
Pairs-snoc R (y ∷ ys) x h k = (All-snoc (R y) ys x h.0 k.0, Pairs-snoc R ys x h.1 k.1)

pub Pairs-keep {ℓ κ} :
    {A : Type ℓ} (R : A → A → Type κ) (p : A → Bool) (xs : List A)
    → Pairs R xs
    → Pairs R (keep p xs)
Pairs-keep R p [] h = tt
Pairs-keep R p (x ∷ xs) h = elim (p x) as (λ b. Pairs R (if b then x ∷ keep p xs else keep p xs)) [
  | true ↦ (All-keep (R x) p xs h.0, Pairs-keep R p xs h.1)
  | false ↦ Pairs-keep R p xs h.1
]

-- A symmetric and reflexive relation that holds of the pairs holds of any two elements.
pub Pairs-In {ℓ κ} :
    {A : Type ℓ} (R : A → A → Type κ)
    → ((x : A) → R x x)
    → ((x y : A) → R x y → R y x)
    → {x y : A} {xs : List A} → Pairs R xs
    → In x xs
    → In y xs
    → R x y
Pairs-In R r s {x} h here here = r x
Pairs-In R r s {x} h here (there j) = All-In (R x) h.0 j
Pairs-In R r s {x} {y} h (there i) here = s y x (All-In (R y) h.0 i)
Pairs-In R r s h (there i) (there j) = Pairs-In R r s h.1 i j
