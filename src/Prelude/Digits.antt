-- ===== src/Prelude/Digits.antt =====
-- Decimal numerals, as `str(n)` and the format `{n:06d}` print them.
use Prim.Native.Nat.{ℕ, zero, suc, ◌+◌, ◌-◌, ◌*◌, ◌/◌, ◌%◌, ◌≤◌, ◌<◌}
use mathlib.Core.Path.{◌≡◌, refl, sym, ◌∙◌, ap}
use mathlib.Core.List.{[], ◌∷◌, ◌++◌}
use native.Mathlib.Omega.{arith}
use affective_belief_persist.Prelude.Tests.{ltb, if◌then◌else◌}
use affective_belief_persist.Prelude.Lists.{length}
use affective_belief_persist.Prelude.Texts.{Text}

-- Fuel above the number is enough, since a quotient by ten is smaller.
unfoldable pub digits : ℕ → ℕ → Text
digits zero n = []
digits (suc fuel) n =
    let front = digits fuel (n / 10) in
    if ltb n 10 then (b'0' + n) ∷ [] else front ++ (b'0' + n % 10) ∷ []

unfoldable pub zeros : ℕ → Text
zeros zero = []
zeros (suc n) = b'0' ∷ zeros n

-- f"{n:06d}"
unfoldable pub six_digits : ℕ → Text
unfolding digits zeros
six_digits n = let s = digits (n + 1) n in zeros (6 - length s) ++ s

-- The number that a numeral after `acc` reads as.
abbrev read_number : ℕ → Text → ℕ
read_number acc [] = acc
read_number acc (c ∷ s) = read_number (acc * 10 + (c - b'0')) s

read_number-snoc :
    (acc : ℕ) (s : Text) (c : ℕ)
    → read_number acc (s ++ c ∷ []) ≡ read_number acc s * 10 + (c - b'0')
read_number-snoc acc [] c = refl
read_number-snoc acc (d ∷ s) c = read_number-snoc (acc * 10 + (d - b'0')) s c

read_number-digits : (fuel n : ℕ) → n < fuel → read_number 0 (digits fuel n) ≡ n
unfolding digits
read_number-digits zero n h = ground arith
read_number-digits (suc fuel) n h =
    let smaller : (10 ≤ n) → n / 10 < fuel = λ k. omega arith in
    let front = read_number-digits fuel (n / 10) in
    let last = read_number-snoc 0 (digits fuel (n / 10)) (b'0' + n % 10) in
    ground (arith, front, last, smaller)

read_number-zeros : (k : ℕ) (s : Text) → read_number 0 (zeros k ++ s) ≡ read_number 0 s
unfolding zeros
read_number-zeros zero s = refl
read_number-zeros (suc k) s = read_number-zeros k s

read_number-six_digits : (n : ℕ) → read_number 0 (six_digits n) ≡ n
unfolding six_digits
read_number-six_digits n =
    read_number-zeros (6 - length (digits (n + 1) n)) _ ∙ read_number-digits (n + 1) n (omega arith)

-- Two numbers with one numeral are one.
pub six_digits-injective : (m n : ℕ) → six_digits m ≡ six_digits n → m ≡ n
six_digits-injective m n h =
    sym (read_number-six_digits m) ∙ ap (read_number 0) h ∙ read_number-six_digits n
