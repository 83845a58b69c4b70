-- ===== src/Orchestration/Budgets/Ledger.antt =====
-- The ledger of orchestration/budgets.py over any sequence of calls.
use affective_belief_persist.Prelude.{
  ℕ, ◌≤◌, ◌≡◌, refl, sym, ◌∙◌, ap, Result-cases, subst, ◌↔◌, Option, none, some, List, [], ◌∷◌,
  arith, Result, ok, err, ◌>>=◌, >>=-eq-ok, >>-eq-ok, ◌⊎◌, inl, inr,
}
use affective_belief_persist.Orchestration.Budgets.{
  BudgetError, BudgetLimits, Amounts, BudgetAccount, Arithmetic, add, observed_usage, exceeded,
  assert_within_limits, validate_gpu, project, settle, checkpoint, admitted, charged_request,
  charge,
}

-- A value within an optional limit.
abbrev pub AtMost : ℕ → Option ℕ → Type 0
AtMost value none = Unit
AtMost value (some limit) = value ≤ limit

-- Every meter within its limit, at an instant that is not past the deadline.
pub record IsWithin (l : BudgetLimits) (u : Amounts) : Type 0 where
  pub wall_clock : u.wall_clock_seconds ≤ l.max_wall_clock_seconds
  pub tokens : AtMost u.tokens l.max_tokens
  pub gpu : AtMost u.gpu_hours l.max_gpu_hours
  pub training : u.training_gpu_hours ≤ l.max_training_gpu_hours
  pub retries : u.automatic_retries ≤ l.max_automatic_retries
  pub malformed : u.malformed_output_retries ≤ l.max_malformed_output_retries

-- No meter is reported exactly when every one is within its limit and the deadline is not past.
pub exceeded_iff :
    (l : BudgetLimits) (u : Amounts) (now : ℕ)
    → (exceeded l u now ≡ []) ↔ (IsWithin l u × AtMost now l.deadline)
unfolding exceeded
exceeded_iff l u now = (
  λ h. (
    record {
      wall_clock = ground arith;
      tokens = ground arith;
      gpu = ground arith;
      training = ground arith;
      retries = ground arith;
      malformed = ground arith;
    },
    ground arith,
  ),
  λ h. ground arith,
)

-- The ledger's invariant: within its limits, and no more training hours than GPU hours.
pub record IsConsistent (b : BudgetAccount) : Type 0 where
  pub within : IsWithin b.limits b.usage
  pub gpu_covers : b.usage.training_gpu_hours ≤ b.usage.gpu_hours

-- Each counter of `u` is at least that of `v`.
pub record Grows (v u : Amounts) : Type 0 where
  pub wall_clock : v.wall_clock_seconds ≤ u.wall_clock_seconds
  pub tokens : v.tokens ≤ u.tokens
  pub gpu : v.gpu_hours ≤ u.gpu_hours
  pub training : v.training_gpu_hours ≤ u.training_gpu_hours
  pub retries : v.automatic_retries ≤ u.automatic_retries
  pub malformed : v.malformed_output_retries ≤ u.malformed_output_retries

Grows-refl : (u : Amounts) → Grows u u
Grows-refl u = omega arith

Grows-trans : {u v w : Amounts} → Grows u v → Grows v w → Grows u w
Grows-trans p q = omega arith

Grows-observed : (b : BudgetAccount) (now : ℕ) → Grows b.usage (observed_usage b now)
unfolding observed_usage
Grows-observed b now = ground arith

-- What is asked of the arithmetic: a sum is no less than its first part.
abbrev pub IsGrowing : Arithmetic → Type 0
IsGrowing f = (a b : ℕ) → a ≤ f.plus a b

Grows-add : (f : Arithmetic) (u r : Amounts) → IsGrowing f → Grows u (add f u r)
Grows-add f u r g = record {
  wall_clock = g u.wall_clock_seconds r.wall_clock_seconds;
  tokens = omega arith;
  gpu = g u.gpu_hours r.gpu_hours;
  training = g u.training_gpu_hours r.training_gpu_hours;
  retries = omega arith;
  malformed = omega arith;
}

observed-covers :
    (b : BudgetAccount) (now : ℕ)
    → b.usage.training_gpu_hours ≤ b.usage.gpu_hours
    → (observed_usage b now).training_gpu_hours ≤ (observed_usage b now).gpu_hours
unfolding observed_usage
observed-covers b now h = ground arith

assert-ok :
    (l : BudgetLimits) (u : Amounts) (now : ℕ)
    → assert_within_limits l u now ≡ ok tt
    → IsWithin l u × AtMost now l.deadline
unfolding assert_within_limits
assert-ok l u now h = (exceeded_iff l u now).0 (ground arith)

ok-assert :
    (l : BudgetLimits) (u : Amounts) (now : ℕ)
    → IsWithin l u
    → AtMost now l.deadline
    → assert_within_limits l u now ≡ ok tt
unfolding assert_within_limits
ok-assert l u now h d = rw ((exceeded_iff l u now).1 (h, d))

project-ok :
    (b : BudgetAccount) (r : Amounts) (now : ℕ) {u : Amounts}
    → project b r now ≡ ok u
    → (u ≡ add b.arithmetic (observed_usage b now) r) × (u.training_gpu_hours ≤ u.gpu_hours)
unfolding project validate_gpu
project-ok b r now h = ground arith

-- `u` is the usage observed at `t₁` with the request added, within every limit at `t₂`.
pub record IsCharged (b : BudgetAccount) (r : Amounts) (t₁ t₂ : ℕ) (u : Amounts) : Type 0 where
  pub total : u ≡ add b.arithmetic (observed_usage b t₁) r
  pub covered : u.training_gpu_hours ≤ u.gpu_hours
  pub within : IsWithin b.limits u
  pub in_time : AtMost t₂ b.limits.deadline

-- What an admitted request becomes, and what is known of it.
admitted-ok :
    (b : BudgetAccount) (r : Amounts) (t₁ t₂ : ℕ) {u : Amounts}
    → admitted b r t₁ t₂ ≡ ok u
    → IsCharged b r t₁ t₂ u
unfolding admitted
admitted-ok b r t₁ t₂ {u} h =
    let (v, p, q) = >>=-eq-ok (project b r t₁) _ h in
    let (a, e) = >>-eq-ok (assert_within_limits b.limits v t₂) (ok v) q in
    let same : v ≡ u = cc e in
    let (w, d) = assert-ok b.limits v t₂ a in
    let (s, c) = project-ok b r t₁ p in
    record {
      total = sym same ∙ s;
      covered = subst (λ x. x.training_gpu_hours ≤ x.gpu_hours) same c;
      within = subst (IsWithin b.limits) same w;
      in_time = d;
    }

-- A charge is atomic: it either raises and leaves the account as it was, or returns the observed
-- usage plus exactly the request, within every limit and not past the deadline, and stores that.
pub charge-atomic :
    (b : BudgetAccount) (request : Option Amounts) (fields : Amounts) (t₁ t₂ : ℕ)
    → ((e : BudgetError) × (charge b request fields t₁ t₂ ≡ (err e, b)))
      ⊎ ((r u : Amounts) × (charged_request request fields ≡ ok r)
          × (charge b request fields t₁ t₂ ≡ (ok u, record b { usage = u }))
          × IsCharged b r t₁ t₂ u)
unfolding charge
charge-atomic b request fields t₁ t₂ =
    let m = charged_request request fields >>= λ r. admitted b r t₁ t₂ in
    elim (Result-cases m) [
      | inl (u, e) ↦
          let (r, p, q) = >>=-eq-ok (charged_request request fields) _ e in
          inr (r, u, p, ap (settle b) e, admitted-ok b r t₁ t₂ q)
      | inr (x, e) ↦ inl (x, ap (settle b) e)
    ]

-- The calls that change an account.
pub data Call : Type 0 where
  charging : Option Amounts → Amounts → ℕ → ℕ → Call
  checkpointing : ℕ → ℕ → Call

abbrev pub run_call : BudgetAccount → Call → BudgetAccount
run_call b (charging request fields t₁ t₂) = (charge b request fields t₁ t₂).1
run_call b (checkpointing t₁ t₂) = (checkpoint b t₁ t₂).1

abbrev pub run_calls : BudgetAccount → List Call → BudgetAccount
run_calls b [] = b
run_calls b (c ∷ cs) = run_calls (run_call b c) cs

-- What each call keeps.
pub record Keeps (b b' : BudgetAccount) : Type 0 where
  pub arithmetic : b'.arithmetic ≡ b.arithmetic
  pub limits : b'.limits ≡ b.limits
  pub started : b'.started_at ≡ b.started_at
  pub grows : Grows b.usage b'.usage
  pub consistent : IsConsistent b'

settle-Keeps :
    (b : BudgetAccount) (m : Result BudgetError Amounts)
    → IsConsistent b
    → ((u : Amounts)
        → m ≡ ok u
        → Grows b.usage u × IsWithin b.limits u × (u.training_gpu_hours ≤ u.gpu_hours))
    → Keeps b (settle b m).1
settle-Keeps b (ok u) k h =
    let (g, w, c) = h u refl in
    record {
      arithmetic = refl;
      limits = refl;
      started = refl;
      grows = g;
      consistent = record { within = w; gpu_covers = c };
    }
settle-Keeps b (err e) k h = record {
  arithmetic = refl;
  limits = refl;
  started = refl;
  grows = Grows-refl b.usage;
  consistent = k;
}

charge-Keeps :
    (b : BudgetAccount) (request : Option Amounts) (fields : Amounts) (t₁ t₂ : ℕ)
    → IsGrowing b.arithmetic
    → IsConsistent b
    → Keeps b (charge b request fields t₁ t₂).1
unfolding charge
charge-Keeps b request fields t₁ t₂ f k = settle-Keeps b _ k λ u e.
    let (r, p, q) = >>=-eq-ok (charged_request request fields) _ e in
    let c = admitted-ok b r t₁ t₂ q in
    (
      subst (Grows b.usage) (sym c.total)
          (Grows-trans (Grows-observed b t₁) (Grows-add b.arithmetic _ r f)),
      c.within,
      c.covered,
    )

checkpoint-Keeps : (b : BudgetAccount) (t₁ t₂ : ℕ) → IsConsistent b → Keeps b (checkpoint b t₁ t₂).1
unfolding checkpoint
checkpoint-Keeps b t₁ t₂ k = settle-Keeps b _ k λ u e.
    let (a, s) = >>-eq-ok (assert_within_limits b.limits (observed_usage b t₁) t₂) _ e in
    let same : observed_usage b t₁ ≡ u = cc s in
    subst (λ x. Grows b.usage x × IsWithin b.limits x × (x.training_gpu_hours ≤ x.gpu_hours)) same
      (Grows-observed b t₁, (assert-ok b.limits _ t₂ a).0, observed-covers b t₁ k.gpu_covers)

run_call-Keeps :
    (b : BudgetAccount) (c : Call)
    → IsGrowing b.arithmetic
    → IsConsistent b
    → Keeps b (run_call b c)
run_call-Keeps b (charging request fields t₁ t₂) f k = charge-Keeps b request fields t₁ t₂ f k
run_call-Keeps b (checkpointing t₁ t₂) f k = checkpoint-Keeps b t₁ t₂ k

-- With sums of floats that are no less than their first part, over any calls of `charge` and
-- `checkpoint`, accepted or not, at any instants: the limits stay, no counter ever falls, and the
-- stored usage stays within every limit.
pub run_calls-Keeps :
    (b : BudgetAccount) (cs : List Call)
    → IsGrowing b.arithmetic
    → IsConsistent b
    → Keeps b (run_calls b cs)
run_calls-Keeps b [] f k = record {
  arithmetic = refl;
  limits = refl;
  started = refl;
  grows = Grows-refl b.usage;
  consistent = k;
}
run_calls-Keeps b (c ∷ cs) f k =
    let h = run_call-Keeps b c f k in
    let growing = subst IsGrowing (sym h.arithmetic) f in
    let rest = run_calls-Keeps (run_call b c) cs growing h.consistent in
    record {
      arithmetic = rest.arithmetic ∙ h.arithmetic;
      limits = rest.limits ∙ h.limits;
      started = rest.started ∙ h.started;
      grows = Grows-trans h.grows rest.grows;
      consistent = rest.consistent;
    }
