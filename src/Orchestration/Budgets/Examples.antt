-- ===== src/Orchestration/Budgets/Examples.antt =====
-- Tests of the budget ledger, and its theorems at a concrete account.
use affective_belief_persist.Prelude.{
  ℕ, ◌+◌, ◌-◌, eqb, if◌then◌else◌, false, ◌≡◌, ◌⊎◌, refl, true, none, some, [], ◌∷◌, arith, ok, err,
}
use affective_belief_persist.Orchestration.Budgets.{
  BudgetError, BudgetLimits, Amounts, BudgetAccount, Arithmetic, nothing, exceeded_error, gpu_hours,
  training_gpu_hours, deadline, exceeded, can_start, charge, charged_request, admitted,
  training_decision, configuration_error,
}
use affective_belief_persist.Orchestration.Budgets.Ledger.{
  IsConsistent, IsCharged, Keeps, charging, checkpointing, run_calls, charge-atomic,
  run_calls-Keeps,
}

abbrev gpu_request : ℕ → Amounts
gpu_request hours = record nothing { gpu_hours = hours; training_gpu_hours = hours }

-- Whole hours and seconds.
abbrev whole : Arithmetic
whole = record { plus = λ a b. a + b; minus = λ a b. a - b; seconds = λ n. n }

abbrev limits : BudgetLimits
limits = record {
  max_wall_clock_seconds = 100;
  max_tokens = some 1000;
  max_gpu_hours = some 8;
  max_training_gpu_hours = 6;
  max_automatic_retries = 2;
  max_malformed_output_retries = 1;
  deadline = some 90;
}

abbrev account : BudgetAccount
account = record {
  arithmetic = whole;
  limits = limits;
  usage = record nothing { tokens = 10; gpu_hours = 2; training_gpu_hours = 1 };
  started_at = 0;
}

account-IsConsistent : IsConsistent account
account-IsConsistent = omega arith

test_exceeded : exceeded limits (record nothing { gpu_hours = 9 }) 91 ≡ gpu_hours ∷ deadline ∷ []
unfolding exceeded
test_exceeded = refl

abbrev charged : Amounts
charged = record nothing {
  wall_clock_seconds = 20;
  tokens = 10;
  gpu_hours = 5;
  training_gpu_hours = 4;
}

test_charge :
    charge account none (gpu_request 3) 20 20 ≡ (ok charged, record account { usage = charged })
unfolding charge charged_request admitted
test_charge = refl

test_charge_refused :
    charge account none (gpu_request 7) 20 20
    ≡ (err (exceeded_error (gpu_hours ∷ training_gpu_hours ∷ [])), account)
unfolding charge charged_request admitted
test_charge_refused = refl

test_charge_both :
    charge account (some nothing) (gpu_request 3) 20 20 ≡ (err configuration_error, account)
unfolding charge charged_request admitted
test_charge_both = refl

test_decision : (training_decision account 3 20).should_train ≡ true
unfolding training_decision
test_decision = refl

charge-atomic_example :
    ((e : BudgetError) × (charge account none (gpu_request 3) 20 20 ≡ (err e, account)))
    ⊎ ((r u : Amounts) × (charged_request none (gpu_request 3) ≡ ok r)
        × (charge account none (gpu_request 3) 20 20 ≡ (ok u, record account { usage = u }))
        × IsCharged account r 20 20 u)
charge-atomic_example = charge-atomic account none (gpu_request 3) 20 20

run_calls-Keeps_example :
    Keeps account
      (run_calls account (charging none (gpu_request 3) 20 20 ∷ checkpointing 30 30 ∷ []))
run_calls-Keeps_example =
    run_calls-Keeps account (charging none (gpu_request 3) 20 20 ∷ checkpointing 30 30 ∷ [])
      (λ a b. omega arith) account-IsConsistent

test_request : charged_request none (gpu_request 3) ≡ ok (gpu_request 3)
unfolding charged_request
test_request = refl

test_charged : (charge account none (gpu_request 3) 20 20).0 ≡ ok charged
unfolding charge charged_request admitted
test_charged = refl

-- Hours in tenths, with two roundings of the machine: 0.6 + 1.1 is a little more than 1.7, and
-- 1.7 - 0.6 is 1.1. The decision is to train, and the task may not start.
abbrev rounding : Arithmetic
rounding = record {
  plus = λ a b. if eqb a 0 then b else a + b + 1;
  minus = λ a b. a - b;
  seconds = λ n. n;
}

abbrev tight : BudgetAccount
tight = record {
  arithmetic = rounding;
  limits = record limits { max_gpu_hours = some 17; max_training_gpu_hours = 17 };
  usage = record nothing { gpu_hours = 6; training_gpu_hours = 6 };
  started_at = 0;
}

test_disagreement :
    ((training_decision tight 11 20).should_train ≡ true)
    × (can_start tight (gpu_request 11) 20 20 ≡ ok false)
unfolding training_decision can_start
test_disagreement = (refl, refl)
