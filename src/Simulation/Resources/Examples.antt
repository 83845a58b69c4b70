-- ===== src/Simulation/Resources/Examples.antt =====
-- Tests of a day's ledger, and its theorems at a concrete one.
use affective_belief_persist.Prelude.{ℕ, ◌+◌, ◌≡◌, refl, List, [], ◌∷◌, err, Text, codes}
use affective_belief_persist.Simulation.Resources.{
  DailyResourceLedger, Request, new_ledger, spent, all_distinct, validate_balance, check_request,
  debit, debited, event_already_debited, over_budget,
}
use affective_belief_persist.Simulation.Resources.Balance.{
  IsSound, new_ledger-IsSound, run_debits, run_debits-IsSound,
}

-- A digest that keeps the event.
abbrev digest : Request → ℕ → Text → Text
digest r day budget = r.event_id

abbrev request : Text → ℕ → Request
request event amount = record {
  event_id = event;
  decision_id = event;
  action_id = codes "rest";
  amount = amount;
}

abbrev ledger : DailyResourceLedger
ledger = new_ledger 3 (codes "day-3")

abbrev requests : List Request
requests =
    request (codes "a") 4
    ∷ request (codes "a") 1
    ∷ request (codes "b") 7
    ∷ request (codes "c") 6
    ∷ []

test_debit :
    (debit digest (debited digest ledger (request (codes "a") 4)) (request (codes "a") 1)
      ≡ err event_already_debited)
    × (debit digest (debited digest ledger (request (codes "a") 4)) (request (codes "b") 7)
        ≡ err over_budget)
unfolding debit check_request
test_debit = (refl, refl)

test_run : (run_debits digest (λ r s day budget h. h) ledger requests).remaining ≡ 0
unfolding debit check_request validate_balance all_distinct
test_run = refl

ledger-IsSound : IsSound digest (λ r s day budget h. h) ledger
ledger-IsSound = new_ledger-IsSound digest (λ r s day budget h. h) 3 (codes "day-3")

run_debits-IsSound_example :
    IsSound digest
      (λ r s day budget h. h)
      (run_debits digest (λ r s day budget h. h) ledger requests)
    × ((run_debits digest (λ r s day budget h. h) ledger requests).remaining
          + spent (run_debits digest (λ r s day budget h. h) ledger requests).debits
        ≡ 10)
run_debits-IsSound_example =
    run_debits-IsSound digest (λ r s day budget h. h) ledger requests ledger-IsSound
