-- ===== src/Simulation/Resources.antt =====
-- simulation/resources.py: one day's ledger of action points. The sha256 of a debit is a parameter,
-- `digest`, of the debit's fields and the ledger's day and budget.
pub mod Columns
pub mod Balance
mod Examples
use affective_belief_persist.Prelude.{
  ℕ, ◌+◌, ◌-◌, Bool, true, false, not, List, [], ◌∷◌, ◌++◌, any, map, ltb, eqb, length,
  count_distinct, if◌then◌else◌, Result, ok, err, ◌>>=◌, ◌>>◌, raise_if, Text, text_eq,
}

abbrev pub daily_action_points : ℕ
daily_action_points = 10

pub record ResourceDebit : Type 0 where
  pub debit_id : Text
  pub event_id : Text
  pub decision_id : Text
  pub action_id : Text
  pub amount : ℕ

pub record DailyResourceLedger : Type 0 where
  pub day : ℕ
  pub budget_id : Text
  pub total : ℕ
  pub remaining : ℕ
  pub debits : List ResourceDebit

pub data ResourceError : Type 0 where
  duplicate_debit_id event_debited_twice decision_debited_twice wrong_balance : ResourceError
  amount_not_positive event_already_debited decision_already_debited over_budget : ResourceError

abbrev pub new_ledger : ℕ → Text → DailyResourceLedger
new_ledger day budget_id = record {
  day = day;
  budget_id = budget_id;
  total = daily_action_points;
  remaining = daily_action_points;
  debits = [];
}

abbrev pub spent : List ResourceDebit → ℕ
spent [] = 0
spent (d ∷ ds) = d.amount + spent ds

-- len(ids) == len(set(ids))
unfoldable pub all_distinct : List Text → Bool
all_distinct ids = eqb (count_distinct text_eq ids) (length ids)

-- The balance is tested as `remaining + spent == total`, as negative numbers are not at hand.
unfoldable pub validate_balance : DailyResourceLedger → Result ResourceError (Unit {0})
validate_balance l = do
  raise_if (not (all_distinct (map (λ d. d.debit_id) l.debits))) duplicate_debit_id
  raise_if (not (all_distinct (map (λ d. d.event_id) l.debits))) event_debited_twice
  raise_if (not (all_distinct (map (λ d. d.decision_id) l.debits))) decision_debited_twice
  raise_if (not (eqb (l.remaining + spent l.debits) l.total)) wrong_balance

-- The arguments of `debit`; an amount below one is one error, so naturals serve.
pub record Request : Type 0 where
  pub event_id : Text
  pub decision_id : Text
  pub action_id : Text
  pub amount : ℕ

unfoldable pub check_request : DailyResourceLedger → Request → Result ResourceError (Unit {0})
check_request l r = do
  raise_if (eqb r.amount 0) amount_not_positive
  raise_if (any (λ d. text_eq d.event_id r.event_id) l.debits) event_already_debited
  raise_if (any (λ d. text_eq d.decision_id r.decision_id) l.debits) decision_already_debited
  raise_if (ltb l.remaining r.amount) over_budget

module _ (digest : Request → ℕ → Text → Text) where
  abbrev pub debit_of : DailyResourceLedger → Request → ResourceDebit
  debit_of l r = record {
    debit_id = digest r l.day l.budget_id;
    event_id = r.event_id;
    decision_id = r.decision_id;
    action_id = r.action_id;
    amount = r.amount;
  }

  abbrev pub debited : DailyResourceLedger → Request → DailyResourceLedger
  debited l r = record l {
    remaining = l.remaining - r.amount;
    debits = l.debits ++ debit_of l r ∷ [];
  }

  -- The new ledger is validated when it is built.
  unfoldable pub debit : DailyResourceLedger → Request → Result ResourceError DailyResourceLedger
  debit l r = do check_request l r; validate_balance (debited l r); ok (debited l r)
