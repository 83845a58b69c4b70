-- ===== src/Gate3/Balance.antt =====
-- The pilot's budget of gate3/budget.py over any sequence of calls.
use affective_belief_persist.Prelude.{
  All-snoc, ℕ, ◌+◌, ◌≤◌, ◌<◌, ◌≡◌, refl, sym, ◌⊎◌, inl, inr, true, false, Bool-cases, Result-cases,
  ltb, Option, none, some, List, [], ◌∷◌, ◌++◌, eqb, Result, ok, err, arith, All, subst,
}
use affective_belief_persist.Gate3.{
  Gate3Budget, Usage, BudgetReservation, PilotError, Money, negative_value, unknown_reservation,
  usage_overrun, Open, LivePilotBudgetAccount, open_account, check_time, check_limits,
  reservation_of, reserving, reserve_call, find_open, drop_open, is_current, overruns, settling,
  settle_call,
}

-- The sum of the tokens of the open reservations, on both sides.
abbrev pub open_total : Open → ℕ × ℕ
open_total [] = (0, 0)
open_total ((k, r) ∷ rs) =
    let rest = open_total rs in
    (r.reserved.input_tokens + rest.0, r.reserved.output_tokens + rest.1)

-- What is asked of the arithmetic: a rounded difference is not positive when what is subtracted is
-- no less, and adding what is not positive does not raise a sum.
pub record IsRounding (money : Money) : Type 0 where
  pub difference : (a b : ℕ) → a ≤ b → money.minus a b ≤ money.zero_cost
  pub sum : (a b : ℕ) → b ≤ money.zero_cost → money.plus a b ≤ a

-- The open reservations have keys below `n`, each once.
abbrev pub Keyed : ℕ → Open → Type 0
Keyed n [] = Unit
Keyed n ((k, r) ∷ rs) =
    (k < n) × (r.reservation_id ≡ k) × All (λ q. eqb k q.0 ≡ false) rs × Keyed n rs

-- The tokens used are what was paid and what is open; all usage stays within the limits.
pub record IsBalanced (paid : ℕ × ℕ) (a : LivePilotBudgetAccount) : Type 0 where
  pub input : a.used.input_tokens ≡ paid.0 + (open_total a.open_reservations).0
  pub output : a.used.output_tokens ≡ paid.1 + (open_total a.open_reservations).1
  pub calls_within : a.calls ≤ a.budget.max_model_calls
  pub input_within : a.used.input_tokens ≤ a.budget.max_input_tokens
  pub output_within : a.used.output_tokens ≤ a.budget.max_output_tokens
  pub cost_within : a.used.cost_usd ≤ a.budget.max_estimated_cost_usd
  pub keyed : Keyed a.next_id a.open_reservations

pub data Call : Type 0 where
  reserve : Usage → ℕ → Call
  settle : BudgetReservation → Usage → Call

abbrev pub run_call : Money → LivePilotBudgetAccount → Call → LivePilotBudgetAccount
run_call money a (reserve u now) = (reserve_call money a u now).1
run_call money a (settle r actual) = (settle_call money a r actual).1

abbrev pub run_calls : Money → LivePilotBudgetAccount → List Call → LivePilotBudgetAccount
run_calls money a [] = a
run_calls money a (c ∷ cs) = run_calls money (run_call money a c) cs

-- The paid tokens after a settlement: with the actual ones, unless it was refused.
abbrev pub paid_after : Result PilotError (Unit {0}) → Usage → ℕ × ℕ → ℕ × ℕ
paid_after (ok u) actual paid = (paid.0 + actual.input_tokens, paid.1 + actual.output_tokens)
paid_after (err e) actual paid = paid

abbrev pub paid_by : Money → LivePilotBudgetAccount → Call → ℕ × ℕ → ℕ × ℕ
paid_by money a (reserve u now) paid = paid
paid_by money a (settle r actual) paid = paid_after (settle_call money a r actual).0 actual paid

abbrev pub paid_over : Money → LivePilotBudgetAccount → List Call → ℕ × ℕ → ℕ × ℕ
paid_over money a [] paid = paid
paid_over money a (c ∷ cs) paid = paid_over money (run_call money a c) cs (paid_by money a c paid)

open_total-snoc :
    (o : Open) (k : ℕ) (r : BudgetReservation)
    → ((open_total (o ++ (k, r) ∷ [])).0 ≡ (open_total o).0 + r.reserved.input_tokens)
      × ((open_total (o ++ (k, r) ∷ [])).1 ≡ (open_total o).1 + r.reserved.output_tokens)
open_total-snoc [] k r = (omega arith, omega arith)
open_total-snoc ((j, q) ∷ o) k r =
    let (a, b) = open_total-snoc o k r in (omega (arith, a), omega (arith, b))

open_total-drop_open :
    (o : Open) (id : ℕ) (r : BudgetReservation)
    → find_open id o ≡ some r
    → ((open_total (drop_open id o)).0 + r.reserved.input_tokens ≡ (open_total o).0)
      × ((open_total (drop_open id o)).1 + r.reserved.output_tokens ≡ (open_total o).1)
open_total-drop_open [] id r h = absurd (cc h)
open_total-drop_open ((k, q) ∷ o) id r h = elim (Bool-cases (eqb k id)) [
  | inl eq ↦
      let same : q ≡ r = ground arith in
      let input : q.reserved.input_tokens ≡ r.reserved.input_tokens = cc same in
      let output : q.reserved.output_tokens ≡ r.reserved.output_tokens = cc same in
      (ground arith, ground arith)
  | inr ne ↦
      let later : find_open id o ≡ some r = ground arith in
      let (a, b) = open_total-drop_open o id r later in (ground arith, ground arith)
]

module _ (money : Money) where
  settle_call-ok :
      (a : LivePilotBudgetAccount) (r : BudgetReservation) (actual : Usage)
      → ((e : PilotError) × (settle_call money a r actual ≡ (err e, a)))
        ⊎ ((settle_call money a r actual ≡ (ok tt, settling money a r actual))
            × (is_current (find_open r.reservation_id a.open_reservations) r ≡ true)
            × (overruns actual r.reserved ≡ false))
  unfolding settle_call
  settle_call-ok a r actual =
      elim (Bool-cases (is_current (find_open r.reservation_id a.open_reservations) r)) [
        | inr unknown ↦ inl (unknown_reservation, rw unknown refl)
        | inl current ↦ elim (Bool-cases (overruns actual r.reserved)) [
          | inl over ↦ elim (Bool-cases (ltb actual.cost_usd money.zero_cost)) [
            | inl negative ↦ inl (negative_value, rw (current, negative) refl)
            | inr proper ↦ inl (usage_overrun, rw (current, proper, over) refl)
          ]
          | inr fits ↦ elim (Bool-cases (ltb actual.cost_usd money.zero_cost)) [
            | inl negative ↦ inl (negative_value, rw (current, negative) refl)
            | inr proper ↦ inr (rw (current, proper, fits) refl, current, fits)
          ]
        ]
      ]

  reserve_call-ok :
      (a : LivePilotBudgetAccount) (u : Usage) (now : ℕ)
      → ((e : PilotError) × (reserve_call money a u now ≡ (err e, a)))
        ⊎ ((reserve_call money a u now ≡ (ok (reservation_of a u), reserving money a u))
            × (check_limits money a u ≡ ok tt))
  unfolding reserve_call
  reserve_call-ok a u now = elim (Bool-cases (ltb u.cost_usd money.zero_cost)) [
    | inl negative ↦ inl (negative_value, rw negative refl)
    | inr proper ↦ elim (Result-cases (check_time a now)) [
      | inr (e, late) ↦ inl (e, rw (proper, late) refl)
      | inl (_, early) ↦ elim (Result-cases (check_limits money a u)) [
        | inr (e, full) ↦ inl (e, rw (proper, early, full) refl)
        | inl (_, fits) ↦ inr (rw (proper, early, fits) refl, fits)
      ]
    ]
  ]

  is_current-fields :
      (o : Option BudgetReservation) (r : BudgetReservation)
      → is_current o r ≡ true
      → (c : BudgetReservation) × (o ≡ some c)
        × (c.reserved.input_tokens ≡ r.reserved.input_tokens)
        × (c.reserved.output_tokens ≡ r.reserved.output_tokens)
        × (c.reserved.cost_usd ≡ r.reserved.cost_usd)
  is_current-fields none r h = absurd (cc h)
  is_current-fields (some c) r h = (c, refl, ground arith, ground arith, ground arith)

  All-drop_open :
      (k id : ℕ) (o : Open)
      → All (λ q. eqb k q.0 ≡ false) o
      → All (λ q. eqb k q.0 ≡ false) (drop_open id o)
  All-drop_open k id [] h = tt
  All-drop_open k id ((j, q) ∷ o) h = ground (arith, All-drop_open k id o h.1)

  Keyed-drop_open : (n id : ℕ) (o : Open) → Keyed n o → Keyed n (drop_open id o)
  Keyed-drop_open n id [] h = tt
  Keyed-drop_open n id ((k, r) ∷ o) (below, filed, once, rest) =
      ground (arith, All-drop_open k id o once, Keyed-drop_open n id o rest)

  Keyed-snoc :
      (n : ℕ) (o : Open) (u : Usage)
      → Keyed n o
      → Keyed (n + 1) (o ++ (n, record { reservation_id = n; reserved = u }) ∷ [])
  Keyed-snoc n [] u h = (omega arith, refl, tt, tt)
  Keyed-snoc n ((k, r) ∷ o) u (below, filed, once, rest) =
      (omega arith, filed, All-snoc _ o _ once (ground arith), Keyed-snoc n o u rest)

  reserving-IsBalanced :
      (paid : ℕ × ℕ) (a : LivePilotBudgetAccount) (u : Usage)
      → check_limits money a u ≡ ok tt
      → IsBalanced paid a
      → IsBalanced paid (reserving money a u)
  unfolding check_limits
  reserving-IsBalanced paid a u h b =
      let (i, o) = open_total-snoc a.open_reservations a.next_id (reservation_of a u) in
      record {
        input = omega (arith, i, b.input);
        output = omega (arith, o, b.output);
        calls_within = ground arith;
        input_within = ground arith;
        output_within = ground arith;
        cost_within = ground arith;
        keyed = Keyed-snoc a.next_id a.open_reservations u b.keyed;
      }

  settling-IsBalanced :
      (rounding : IsRounding money) (paid : ℕ × ℕ) (a : LivePilotBudgetAccount)
      (r : BudgetReservation) (actual : Usage)
      → is_current (find_open r.reservation_id a.open_reservations) r ≡ true
      → overruns actual r.reserved ≡ false
      → IsBalanced paid a
      → IsBalanced
          (paid.0 + actual.input_tokens, paid.1 + actual.output_tokens)
          (settling money a r actual)
  settling-IsBalanced rounding paid a r actual h f b =
      let (c, found, ci, co, cc') =
        is_current-fields (find_open r.reservation_id a.open_reservations) r h in
      let (i, o) = open_total-drop_open a.open_reservations r.reservation_id c found in
      let fi : actual.input_tokens ≤ r.reserved.input_tokens = ground arith in
      let fo : actual.output_tokens ≤ r.reserved.output_tokens = ground arith in
      let fc : actual.cost_usd ≤ r.reserved.cost_usd = ground arith in
      record {
        input = omega (arith, i, b.input, ci);
        output = omega (arith, o, b.output, co);
        calls_within = b.calls_within;
        input_within = omega (arith, i, b.input, b.input_within, ci, fi);
        output_within = omega (arith, o, b.output, b.output_within, co, fo);
        cost_within = omega (
          arith,
          rounding.sum a.used.cost_usd (money.minus actual.cost_usd r.reserved.cost_usd)
              (rounding.difference actual.cost_usd r.reserved.cost_usd fc),
          b.cost_within,
        );
        keyed = Keyed-drop_open a.next_id r.reservation_id a.open_reservations b.keyed;
      }

  run_call-IsBalanced :
      (rounding : IsRounding money) (paid : ℕ × ℕ) (a : LivePilotBudgetAccount) (c : Call)
      → IsBalanced paid a
      → IsBalanced (paid_by money a c paid) (run_call money a c)
  run_call-IsBalanced rounding paid a (reserve u now) b = elim (reserve_call-ok a u now) [
    | inl (e, raised) ↦ rw (raised, run_call) b
    | inr (done, fits) ↦ rw (done, run_call) (reserving-IsBalanced paid a u fits b)
  ]
  run_call-IsBalanced rounding paid a (settle r actual) b =
      let Left : Type 0 = Result PilotError (Unit {0}) × LivePilotBudgetAccount in
      let Fine : Left → Type 0 = λ left. IsBalanced (paid_after left.0 actual paid) left.1 in
      elim (settle_call-ok a r actual) [
        | inl (e, raised) ↦ subst Fine (sym raised) b
        | inr (done, current, fits) ↦
            subst Fine (sym done) (settling-IsBalanced rounding paid a r actual current fits b)
      ]

  -- With sums that round as those of floats do, over any calls, accepted or not, from a balanced
  -- account: calls, tokens and money stay within their limits, open reservations included, and the
  -- tokens used are exactly what was paid by the settled calls plus what is still reserved.
  pub run_calls-IsBalanced :
      (rounding : IsRounding money) (paid : ℕ × ℕ) (a : LivePilotBudgetAccount) (cs : List Call)
      → IsBalanced paid a
      → IsBalanced (paid_over money a cs paid) (run_calls money a cs)
  run_calls-IsBalanced rounding paid a [] b = b
  run_calls-IsBalanced rounding paid a (c ∷ cs) b =
      run_calls-IsBalanced rounding (paid_by money a c paid) (run_call money a c) cs
        (run_call-IsBalanced rounding paid a c b)

  -- A new account is balanced, with nothing paid, if the limit of money is not negative.
  pub open_account-IsBalanced :
      (budget : Gate3Budget) (now : ℕ)
      → money.zero_cost ≤ budget.max_estimated_cost_usd
      → IsBalanced (0, 0) (open_account money budget now)
  unfolding open_account
  open_account-IsBalanced budget now affordable = record {
    input = refl;
    output = refl;
    calls_within = omega arith;
    input_within = omega arith;
    output_within = omega arith;
    cost_within = affordable;
    keyed = tt;
  }

  settle_call-unknown :
      (a : LivePilotBudgetAccount) (r : BudgetReservation) (actual : Usage)
      → find_open r.reservation_id a.open_reservations ≡ none
      → settle_call money a r actual ≡ (err unknown_reservation, a)
  unfolding settle_call
  settle_call-unknown a r actual h = rw h refl

  find_open-absent : (id : ℕ) (o : Open) → All (λ q. eqb id q.0 ≡ false) o → find_open id o ≡ none
  find_open-absent id [] h = refl
  find_open-absent id ((k, r) ∷ o) h = ground (arith, find_open-absent id o h.1)

  find_open-drop_open : (n id : ℕ) (o : Open) → Keyed n o → find_open id (drop_open id o) ≡ none
  find_open-drop_open n id [] h = refl
  find_open-drop_open n id ((k, r) ∷ o) (below, filed, once, rest) = elim (Bool-cases (eqb k id)) [
    | inl eq ↦
        let same : k ≡ id = ground arith in
        let gone = find_open-absent k o once in rw eq (subst (λ i. find_open i o ≡ none) same gone)
    | inr ne ↦ let gone = find_open-drop_open n id o rest in rw (ne, ne) gone
  ]

  -- In a balanced account a reservation is settled once: when a settlement was accepted, another one
  -- of the same reservation is refused and changes nothing.
  pub settle_call-once :
      (paid : ℕ × ℕ) (a b : LivePilotBudgetAccount) (r : BudgetReservation) (actual again : Usage)
      → IsBalanced paid a
      → settle_call money a r actual ≡ (ok tt, b)
      → settle_call money b r again ≡ (err unknown_reservation, b)
  settle_call-once paid a b r actual again k h = elim (settle_call-ok a r actual) [
    | inl (e, raised) ↦ absurd (cc (h, raised))
    | inr (done, _, _) ↦
        let same : settling money a r actual ≡ b = cc (h, done) in
        let gone = find_open-drop_open a.next_id r.reservation_id a.open_reservations k.keyed in
        subst (λ c. settle_call money c r again ≡ (err unknown_reservation, c)) same
          (settle_call-unknown (settling money a r actual) r again gone)
  ]
