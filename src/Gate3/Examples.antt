-- ===== src/Gate3/Examples.antt =====
-- Tests of the pilot's budget, and its theorems at a concrete account.
use affective_belief_persist.Prelude.{◌≡◌, ◌+◌, ◌-◌, refl, [], ◌∷◌, List, ok, err, arith}
use affective_belief_persist.Gate3.{
  Money, negative_value, Gate3Budget, Usage, BudgetReservation, LivePilotBudgetAccount,
  wall_clock_exhausted, model_calls_exceeded, unknown_reservation, usage_overrun, open_account,
  check_time, check_limits, reserving, settling, reserve_call, settle_call, assert_settled,
  unsettled,
}
use affective_belief_persist.Gate3.Balance.{
  IsRounding, IsBalanced, Call, reserve, settle, run_calls, paid_over, run_calls-IsBalanced,
  open_account-IsBalanced, settle_call-once,
}

abbrev budget : Gate3Budget
budget = record {
  max_model_calls = 2;
  max_input_tokens = 100;
  max_output_tokens = 50;
  max_estimated_cost_usd = 1010;
  max_wall_clock_seconds = 60;
}

abbrev usage : Usage
usage = record { input_tokens = 40; output_tokens = 20; cost_usd = 1003 }

abbrev less : Usage
less = record { input_tokens = 30; output_tokens = 5; cost_usd = 1001 }

-- Whole sums: 1000 is the rank of no money, and an amount more is one rank more.
abbrev money : Money
money = record { zero_cost = 1000; plus = λ a b. a + b - 1000; minus = λ a b. a + 1000 - b }

money-IsRounding : IsRounding money
money-IsRounding = record {
  difference = λ a b h. omega (arith, h);
  sum = λ a b h. omega (arith, h);
}

abbrev account : LivePilotBudgetAccount
account = open_account money budget 1000

abbrev reservation : BudgetReservation
reservation = record { reservation_id = 1; reserved = usage }

test_reserve :
    (reserve_call money account usage 1059 ≡ (ok reservation, reserving money account usage))
    × (reserve_call money account usage 1060 ≡ (err wall_clock_exhausted, account))
    × (reserve_call money account (record usage { cost_usd = 999 }) 1059
        ≡ (err negative_value, account))
unfolding reserve_call check_time check_limits open_account
test_reserve = (refl, refl, refl)

test_calls :
    (reserve_call money
      (run_calls money account (reserve less 1000 ∷ reserve less 1001 ∷ []))
      less
      1002).0
    ≡ err model_calls_exceeded
unfolding reserve_call check_time check_limits open_account
test_calls = refl

test_settle :
    ((settle_call money
        (reserving money account less)
        (record { reservation_id = 1; reserved = less })
        usage).0
      ≡ err usage_overrun)
    × (assert_settled (reserving money account less) 1000 ≡ err unsettled)
unfolding settle_call open_account assert_settled
test_settle = (refl, refl)

abbrev calls : List Call
calls =
    reserve usage 1000 ∷ settle reservation less ∷ settle reservation less ∷ reserve usage 1001 ∷ []

run_calls-IsBalanced_example :
    IsBalanced (paid_over money account calls (0, 0)) (run_calls money account calls)
run_calls-IsBalanced_example =
    run_calls-IsBalanced money money-IsRounding (0, 0) account calls
      (open_account-IsBalanced money budget 1000 (omega arith))

reserved-IsBalanced : IsBalanced (0, 0) (reserving money account usage)
unfolding open_account
reserved-IsBalanced = record {
  input = refl;
  output = refl;
  calls_within = omega arith;
  input_within = omega arith;
  output_within = omega arith;
  cost_within = omega arith;
  keyed = (omega arith, refl, tt, tt);
}

accepted :
    settle_call money (reserving money account usage) reservation less
    ≡ (ok tt, settling money (reserving money account usage) reservation less)
unfolding settle_call open_account
accepted = refl

settle_call-once_example :
    settle_call money
      (settling money (reserving money account usage) reservation less)
      reservation
      usage
    ≡ (err unknown_reservation, settling money (reserving money account usage) reservation less)
settle_call-once_example =
    settle_call-once money (0, 0) (reserving money account usage)
      (settling money (reserving money account usage) reservation less) reservation less usage
      reserved-IsBalanced accepted
