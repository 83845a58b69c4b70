-- ===== src/Orchestration/Budgets.antt =====
-- orchestration/budgets.py: the supervisor's budget ledger.
-- Seconds and GPU hours are floats that are not negative, given by their ranks, 0 for 0.0; their sums
-- and differences are those of the machine, a field of the account. Instants are timezone-aware. Where a method reads the clock twice it
-- takes two instants, which are one where the caller passes `at`.
pub mod Ledger
mod Examples
use affective_belief_persist.Prelude.{
  ℕ, ◌+◌, ◌-◌, Bool, true, false, not, ◌&&◌, ◌||◌, Option, none, some, List, [], ◌∷◌, ◌++◌, max,
  ltb, leb, eqb, if◌then◌else◌, Result, ok, err, ◌>>=◌, ◌>>◌, raise_if,
}
use affective_belief_persist.Orchestration.Task.{is_none}

pub data Meter : Type 0 where
  wall_clock_seconds tokens gpu_hours training_gpu_hours automatic_retries : Meter
  malformed_output_retries deadline : Meter

pub data BudgetError : Type 0 where
  exceeded_error : List Meter → BudgetError
  configuration_error validation_error : BudgetError

pub record BudgetLimits : Type 0 where
  pub max_wall_clock_seconds : ℕ
  pub max_tokens : Option ℕ
  pub max_gpu_hours : Option ℕ
  pub max_training_gpu_hours : ℕ
  pub max_automatic_retries : ℕ
  pub max_malformed_output_retries : ℕ
  pub deadline : Option ℕ

-- `BudgetUsage` and `BudgetRequest` have the same fields and the same check.
pub record Amounts : Type 0 where
  pub wall_clock_seconds : ℕ
  pub tokens : ℕ
  pub gpu_hours : ℕ
  pub training_gpu_hours : ℕ
  pub automatic_retries : ℕ
  pub malformed_output_retries : ℕ

abbrev pub nothing : Amounts
nothing = record {
  wall_clock_seconds = 0;
  tokens = 0;
  gpu_hours = 0;
  training_gpu_hours = 0;
  automatic_retries = 0;
  malformed_output_retries = 0;
}

-- `validate_gpu_usage`, `validate_gpu_request`
unfoldable pub validate_gpu : Amounts → Result BudgetError Amounts
validate_gpu a = if ltb a.gpu_hours a.training_gpu_hours then err validation_error else ok a

-- `limit is not None and value > limit`
abbrev pub over : ℕ → Option ℕ → Bool
over value none = false
over value (some limit) = ltb limit value

unfoldable pub validate_limits : BudgetLimits → Result BudgetError BudgetLimits
validate_limits l = do
  raise_if (over l.max_training_gpu_hours l.max_gpu_hours) validation_error
  ok l

-- The arithmetic of floats on ranks: the rounded sum, the rounded difference of a float and one that
-- is less, and the float of a duration.
pub record Arithmetic : Type 0 where
  pub plus : ℕ → ℕ → ℕ
  pub minus : ℕ → ℕ → ℕ
  pub seconds : ℕ → ℕ

pub record BudgetAccount : Type 0 where
  pub arithmetic : Arithmetic
  pub limits : BudgetLimits
  pub usage : Amounts
  pub started_at : ℕ

unfoldable pub observed_usage : BudgetAccount → ℕ → Amounts
observed_usage b now =
    let elapsed = b.arithmetic.seconds (now - b.started_at) in
    if leb elapsed b.usage.wall_clock_seconds
    then b.usage
    else record (b.usage) { wall_clock_seconds = elapsed }

-- `if test: exceeded.append(name)`
abbrev pub noted : Bool → Meter → List Meter → List Meter
noted true m rest = m ∷ rest
noted false m rest = rest

unfoldable pub exceeded : BudgetLimits → Amounts → ℕ → List Meter
exceeded l u now = noted (ltb l.max_wall_clock_seconds u.wall_clock_seconds) wall_clock_seconds (
    noted (over u.tokens l.max_tokens) tokens (
      noted (over u.gpu_hours l.max_gpu_hours) gpu_hours (
        noted (ltb l.max_training_gpu_hours u.training_gpu_hours) training_gpu_hours (
          noted (ltb l.max_automatic_retries u.automatic_retries) automatic_retries (
            noted (ltb l.max_malformed_output_retries u.malformed_output_retries)
              malformed_output_retries (noted (over now l.deadline) deadline []))))))

abbrev pub raise_exceeded : List Meter → Result BudgetError (Unit {0})
raise_exceeded [] = ok tt
raise_exceeded (m ∷ ms) = err (exceeded_error (m ∷ ms))

unfoldable pub assert_within_limits : BudgetLimits → Amounts → ℕ → Result BudgetError (Unit {0})
unfolding exceeded
assert_within_limits l u now = raise_exceeded (exceeded l u now)

-- `BudgetAccount.__init__` with the instants `started_at` and the one that the check reads.
unfoldable pub open_account :
    Arithmetic → BudgetLimits → Option Amounts → ℕ → ℕ → Result BudgetError BudgetAccount
unfolding assert_within_limits
open_account arithmetic l usage started now = do
  let b : BudgetAccount = record {
    arithmetic = arithmetic;
    limits = l;
    usage = elim usage [ none ↦ nothing | some u ↦ u ];
    started_at = started;
  }
  assert_within_limits l b.usage now
  ok b

abbrev pub add : Arithmetic → Amounts → Amounts → Amounts
add f a b = record {
  wall_clock_seconds = f.plus a.wall_clock_seconds b.wall_clock_seconds;
  tokens = a.tokens + b.tokens;
  gpu_hours = f.plus a.gpu_hours b.gpu_hours;
  training_gpu_hours = f.plus a.training_gpu_hours b.training_gpu_hours;
  automatic_retries = a.automatic_retries + b.automatic_retries;
  malformed_output_retries = a.malformed_output_retries + b.malformed_output_retries;
}

unfoldable pub project : BudgetAccount → Amounts → ℕ → Result BudgetError Amounts
unfolding observed_usage validate_gpu
project b request now = validate_gpu (add b.arithmetic (observed_usage b now) request)

-- A method returns its result, or what it raises, and the account after it.
abbrev pub Outcome : Type 0 → Type 0
Outcome A = Result BudgetError A × BudgetAccount

-- `self._usage = u` for a `u` that was computed without an exception
abbrev pub settle : BudgetAccount → Result BudgetError Amounts → Outcome Amounts
settle b (ok u) = (ok u, record b { usage = u })
settle b (err e) = (err e, b)

unfoldable pub checkpoint : BudgetAccount → ℕ → ℕ → Outcome Amounts
checkpoint b t₁ t₂ =
    let u = observed_usage b t₁ in settle b (assert_within_limits b.limits u t₂ >> ok u)

unfoldable pub admitted : BudgetAccount → Amounts → ℕ → ℕ → Result BudgetError Amounts
unfolding project assert_within_limits
admitted b request t₁ t₂ = do u ← project b request t₁; assert_within_limits b.limits u t₂; ok u

abbrev pub is_ok : {E A : Type 0} → Result E A → Bool
is_ok (ok a) = true
is_ok (err e) = false

abbrev pub is_nil {ℓ} : {A : Type ℓ} → List A → Bool
is_nil [] = true
is_nil (x ∷ xs) = false

unfoldable pub can_start : BudgetAccount → Amounts → ℕ → ℕ → Result BudgetError Bool
unfolding project exceeded
can_start b request t₁ t₂ = do u ← project b request t₁; ok (is_nil (exceeded b.limits u t₂))

unfoldable pub require_start : BudgetAccount → Amounts → ℕ → ℕ → Result BudgetError Amounts
unfolding admitted
require_start b request t₁ t₂ = do u ← admitted b request t₁ t₂; ok request

abbrev pub some_nonzero : Amounts → Bool
some_nonzero f =
    not (eqb f.wall_clock_seconds 0)
    || (not (eqb f.tokens 0)
        || (not (eqb f.gpu_hours 0)
            || (not (eqb f.training_gpu_hours 0)
                || (not (eqb f.automatic_retries 0) || not (eqb f.malformed_output_retries 0)))))

-- The request that `charge` charges: the one given, or one built from the individual fields.
unfoldable pub charged_request : Option Amounts → Amounts → Result BudgetError Amounts
unfolding validate_gpu
charged_request (some r) fields = if some_nonzero fields then err configuration_error else ok r
charged_request none fields = elim (validate_gpu fields) [
  | ok r ↦ ok r
  | err e ↦ err configuration_error
]

unfoldable pub charge : BudgetAccount → Option Amounts → Amounts → ℕ → ℕ → Outcome Amounts
charge b request fields t₁ t₂ =
    settle b (charged_request request fields >>= λ r. admitted b r t₁ t₂)

pub record BudgetRemaining : Type 0 where
  pub wall_clock_seconds : ℕ
  pub tokens : Option ℕ
  pub gpu_hours : Option ℕ
  pub training_gpu_hours : ℕ
  pub automatic_retries : ℕ
  pub malformed_output_retries : ℕ

-- `None if limit is None else max(0, limit - used)`, of tokens
abbrev pub left_of : Option ℕ → ℕ → Option ℕ
left_of none used = none
left_of (some limit) used = some (limit - used)

-- `max(0.0, limit - used)`
abbrev pub hours_left : Arithmetic → ℕ → ℕ → ℕ
hours_left f limit used = if leb limit used then 0 else f.minus limit used

abbrev pub hours_left_of : Arithmetic → Option ℕ → ℕ → Option ℕ
hours_left_of f none used = none
hours_left_of f (some limit) used = some (hours_left f limit used)

unfoldable pub remaining : BudgetAccount → ℕ → BudgetRemaining
unfolding observed_usage
remaining b now =
    let l = b.limits in
    let u = observed_usage b now in
    record {
      wall_clock_seconds = hours_left b.arithmetic l.max_wall_clock_seconds u.wall_clock_seconds;
      tokens = left_of l.max_tokens u.tokens;
      gpu_hours = hours_left_of b.arithmetic l.max_gpu_hours u.gpu_hours;
      training_gpu_hours = hours_left b.arithmetic l.max_training_gpu_hours u.training_gpu_hours;
      automatic_retries = l.max_automatic_retries - u.automatic_retries;
      malformed_output_retries = l.max_malformed_output_retries - u.malformed_output_retries;
    }

pub data TrainingDecisionReason : Type 0 where
  approved not_required deadline_exceeded wall_clock_budget_unavailable : TrainingDecisionReason
  training_budget_unavailable gpu_budget_unavailable : TrainingDecisionReason

pub record TrainingBudgetDecision : Type 0 where
  pub should_train : Bool
  pub required_gpu_hours : ℕ
  pub remaining_training_gpu_hours : ℕ
  pub remaining_total_gpu_hours : Option ℕ
  pub reason : TrainingDecisionReason

abbrev pub is_approved : TrainingDecisionReason → Bool
is_approved approved = true
is_approved _ = false

unfoldable pub training_reason : BudgetAccount → ℕ → ℕ → TrainingDecisionReason
unfolding remaining
training_reason b required now =
    let r = remaining b now in
    if over now b.limits.deadline
    then deadline_exceeded
    else if leb r.wall_clock_seconds 0
    then wall_clock_budget_unavailable
    else if ltb r.training_gpu_hours required
    then training_budget_unavailable
    else if over required r.gpu_hours
    then gpu_budget_unavailable
    else approved

unfoldable pub training_decision : BudgetAccount → ℕ → ℕ → TrainingBudgetDecision
unfolding training_reason
training_decision b required now =
    let r = remaining b now in
    let reason = if eqb required 0 then not_required else training_reason b required now in
    record {
      should_train = is_approved reason;
      required_gpu_hours = required;
      remaining_training_gpu_hours = r.training_gpu_hours;
      remaining_total_gpu_hours = r.gpu_hours;
      reason = reason;
    }
