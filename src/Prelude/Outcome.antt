-- ===== src/Prelude/Outcome.antt =====
-- Fallible code: a value or a raised error, and `do` blocks over it.
use mathlib.Core.Path.{◌≡◌, refl}
use mathlib.Core.Logic.{◌↔◌, ◌⊎◌, inl, inr}
use mathlib.Core.Bool.{Bool, true, false}

pub data Result {ℓ} (E A : Type ℓ) : Type ℓ where
  ok : A → Result E A
  err : E → Result E A

infixl 5 ◌>>=◌ ◌>>◌
abbrev pub ◌>>=◌ {ℓ} : {E A B : Type ℓ} → Result E A → (A → Result E B) → Result E B
ok a >>= rest = rest a
err raised >>= rest = err raised

abbrev pub ◌>>◌ : {E B : Type 0} → Result E (Unit {0}) → Result E B → Result E B
m >> k = m >>= λ _. k

-- if test: raise e
abbrev pub raise_if : {E : Type 0} → Bool → E → Result E (Unit {0})
raise_if true e = err e
raise_if false e = ok tt

pub raise_if-ok : {E : Type 0} (b : Bool) (e : E) → raise_if b e ≡ ok tt → b ≡ false
raise_if-ok true e h = cc
raise_if-ok false e h = refl

-- The inversion of a `do` block that succeeded.
pub >>=-eq-ok {ℓ} :
    {E A B : Type ℓ} (call : Result E A) (rest : A → Result E B) {out : B}
    → (call >>= rest) ≡ ok out
    → (mid : A) × (call ≡ ok mid) × (rest mid ≡ ok out)
>>=-eq-ok (ok mid) rest returned = (mid, refl, returned)
>>=-eq-ok (err raised) rest returned = cc

pub >>-eq-ok :
    {E B : Type 0} (m : Result E (Unit {0})) (k : Result E B) {b : B}
    → (m >> k) ≡ ok b
    → (m ≡ ok tt) × (k ≡ ok b)
>>-eq-ok (ok u) k h = (refl, h)
>>-eq-ok (err e) k h = cc

pub >>-ok : {E : Type 0} (m : Result E (Unit {0})) → (m >> ok tt) ≡ m
>>-ok (ok u) = refl
>>-ok (err e) = refl

pub >>_assoc :
    {E B : Type 0} (m n : Result E (Unit {0})) (k : Result E B) → (m >> n >> k) ≡ (m >> (n >> k))
>>_assoc (ok u) n k = refl
>>_assoc (err e) n k = refl

-- Two checks in a row succeed exactly when each does.
pub >>-ok_iff :
    {E : Type 0} (m n : Result E (Unit {0})) → ((m >> n) ≡ ok tt) ↔ ((m ≡ ok tt) × (n ≡ ok tt))
>>-ok_iff (ok u) n = (λ h. (refl, h), λ h. h.1)
>>-ok_iff (err e) n = (λ h. cc, λ h. cc h.0)

pub ok_unique {ℓ} : {E A : Type ℓ} {a b : A} (r : Result E A) → r ≡ ok a → r ≡ ok b → a ≡ b
ok_unique r h k = cc

-- To split on what a call returned.
pub Result-cases {ℓ} :
    {E A : Type ℓ} (r : Result E A) → ((a : A) × (r ≡ ok a)) ⊎ ((e : E) × (r ≡ err e))
Result-cases (ok a) = inl (a, refl)
Result-cases (err e) = inr (e, refl)
