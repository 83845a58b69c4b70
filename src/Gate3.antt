-- ===== src/Gate3.antt =====
-- gate3/budget.py: the budget of a live pilot, reserved before each call and settled after it.
-- Calls and tokens are natural numbers, so the checks for negative ones have nothing to refuse. Money
-- is a float, given by its rank among the floats; its sums are those of the machine, a parameter. A
-- method that reads the clock takes the instant as an argument.
pub mod Balance
mod Examples
use affective_belief_persist.Prelude.{
  ℕ, ◌+◌, ◌-◌, Bool, true, false, not, ◌&&◌, ◌||◌, Option, none, some, List, [], ◌∷◌, ◌++◌, ltb,
  leb, eqb, null, if◌then◌else◌, Result, ok, err, ◌>>=◌, ◌>>◌, raise_if,
}

-- The arithmetic of floats on their ranks: the rank of 0.0, and the rounded sum and difference.
pub record Money : Type 0 where
  pub zero_cost : ℕ
  pub plus : ℕ → ℕ → ℕ
  pub minus : ℕ → ℕ → ℕ

pub record Gate3Budget : Type 0 where
  pub max_model_calls : ℕ
  pub max_input_tokens : ℕ
  pub max_output_tokens : ℕ
  pub max_estimated_cost_usd : ℕ
  pub max_wall_clock_seconds : ℕ

-- Input tokens, output tokens and dollars, as one call reserves or uses them.
pub record Usage : Type 0 where
  pub input_tokens : ℕ
  pub output_tokens : ℕ
  pub cost_usd : ℕ

pub record BudgetReservation : Type 0 where
  pub reservation_id : ℕ
  pub reserved : Usage

pub data PilotError : Type 0 where
  wall_clock_exhausted model_calls_exceeded input_tokens_exceeded : PilotError
  output_tokens_exceeded cost_exceeded unknown_reservation usage_overrun unsettled negative_value :
      PilotError

-- `_open: dict[int, BudgetReservation]`
abbrev pub Open : Type 0
Open = List (ℕ × BudgetReservation)

pub record LivePilotBudgetAccount : Type 0 where
  pub budget : Gate3Budget
  pub started_at : ℕ
  pub calls : ℕ
  pub used : Usage
  pub next_id : ℕ
  pub open_reservations : Open

unfoldable pub open_account : Money → Gate3Budget → ℕ → LivePilotBudgetAccount
open_account money budget now = record {
  budget = budget;
  started_at = now;
  calls = 0;
  used = record { input_tokens = 0; output_tokens = 0; cost_usd = money.zero_cost };
  next_id = 1;
  open_reservations = [];
}

-- max(0.0, clock() - started_at), as subtraction on ℕ does
abbrev pub elapsed_seconds : LivePilotBudgetAccount → ℕ → ℕ
elapsed_seconds a now = now - a.started_at

unfoldable pub check_time : LivePilotBudgetAccount → ℕ → Result PilotError (Unit {0})
check_time a now =
    raise_if (leb a.budget.max_wall_clock_seconds (elapsed_seconds a now)) wall_clock_exhausted

abbrev pub added : Money → Usage → Usage → Usage
added money u v = record {
  input_tokens = u.input_tokens + v.input_tokens;
  output_tokens = u.output_tokens + v.output_tokens;
  cost_usd = money.plus u.cost_usd v.cost_usd;
}

-- The loop over the projected values and their limits.
unfoldable pub check_limits : Money → LivePilotBudgetAccount → Usage → Result PilotError (Unit {0})
check_limits money a u = do
  raise_if (ltb a.budget.max_model_calls (a.calls + 1)) model_calls_exceeded
  raise_if (ltb a.budget.max_input_tokens (a.used.input_tokens + u.input_tokens))
      input_tokens_exceeded
  raise_if (ltb a.budget.max_output_tokens (a.used.output_tokens + u.output_tokens))
      output_tokens_exceeded
  raise_if (ltb a.budget.max_estimated_cost_usd (money.plus a.used.cost_usd u.cost_usd))
      cost_exceeded

abbrev pub reservation_of : LivePilotBudgetAccount → Usage → BudgetReservation
reservation_of a u = record { reservation_id = a.next_id; reserved = u }

-- The account with the reservation; `next_id` is a new key of the dict.
abbrev pub reserving : Money → LivePilotBudgetAccount → Usage → LivePilotBudgetAccount
reserving money a u = record a {
  calls = a.calls + 1;
  used = added money a.used u;
  next_id = a.next_id + 1;
  open_reservations = a.open_reservations ++ (a.next_id, reservation_of a u) ∷ [];
}

-- The account that a call leaves: the new one, or the old one when it raised.
abbrev pub left_by :
    {A : Type 0}
    → LivePilotBudgetAccount
    → Result PilotError (A × LivePilotBudgetAccount)
    → Result PilotError A × LivePilotBudgetAccount
left_by a (ok (x, b)) = (ok x, b)
left_by a (err e) = (err e, a)

unfoldable pub reserve_call :
    Money
    → LivePilotBudgetAccount
    → Usage
    → ℕ
    → Result PilotError BudgetReservation × LivePilotBudgetAccount
reserve_call money a u now = left_by a (do
  raise_if (ltb u.cost_usd money.zero_cost) negative_value
  check_time a now
  check_limits money a u
  ok (reservation_of a u, reserving money a u))

abbrev pub find_open : ℕ → Open → Option BudgetReservation
find_open id [] = none
find_open id ((k, r) ∷ rs) = if eqb k id then some r else find_open id rs

-- del self._open[id]
abbrev pub drop_open : ℕ → Open → Open
drop_open id [] = []
drop_open id ((k, r) ∷ rs) = let rest = drop_open id rs in if eqb k id then rs else (k, r) ∷ rest

abbrev pub same_usage : Usage → Usage → Bool
same_usage u v =
    eqb u.input_tokens v.input_tokens
    && (eqb u.output_tokens v.output_tokens && eqb u.cost_usd v.cost_usd)

-- current == reservation
abbrev pub is_current : Option BudgetReservation → BudgetReservation → Bool
is_current none r = false
is_current (some c) r = eqb c.reservation_id r.reservation_id && same_usage c.reserved r.reserved

abbrev pub overruns : Usage → Usage → Bool
overruns actual reserved =
    ltb reserved.input_tokens actual.input_tokens
    || (ltb reserved.output_tokens actual.output_tokens || ltb reserved.cost_usd actual.cost_usd)

-- `used += actual - reserved`, where `used` counts the reservation while it is open.
abbrev pub settling :
    Money → LivePilotBudgetAccount → BudgetReservation → Usage → LivePilotBudgetAccount
settling money a r actual = record a {
  used = record {
    input_tokens = a.used.input_tokens + actual.input_tokens - r.reserved.input_tokens;
    output_tokens = a.used.output_tokens + actual.output_tokens - r.reserved.output_tokens;
    cost_usd = money.plus a.used.cost_usd (money.minus actual.cost_usd r.reserved.cost_usd);
  };
  open_reservations = drop_open r.reservation_id a.open_reservations;
}

unfoldable pub settle_call :
    Money
    → LivePilotBudgetAccount
    → BudgetReservation
    → Usage
    → Result PilotError (Unit {0}) × LivePilotBudgetAccount
settle_call money a r actual = left_by a (do
  raise_if (not (is_current (find_open r.reservation_id a.open_reservations) r)) unknown_reservation
  raise_if (ltb actual.cost_usd money.zero_cost) negative_value
  raise_if (overruns actual r.reserved) usage_overrun
  ok (tt, settling money a r actual))

unfoldable pub assert_settled : LivePilotBudgetAccount → ℕ → Result PilotError (Unit {0})
unfolding check_time
assert_settled a now = do
  check_time a now
  elim a.open_reservations [ [] ↦ ok tt | r ∷ rs ↦ err unsettled ]
