-- ===== src/Simulation/Resources/Balance.antt =====
-- A day's ledger of simulation/resources.py over any sequence of debits, and the debits it takes.
use affective_belief_persist.Prelude.{
  ℕ, ◌+◌, ◌≤◌, ◌≡◌, refl, sym, ◌∙◌, ◌↔◌, inl, inr, true, false, Bool-cases, List, [], ◌∷◌, ◌++◌,
  any, map, All, subst, Result, ok, err, >>-eq-ok, Text, text_eq, text_eq_iff, arith,
}
use affective_belief_persist.Simulation.Resources.{
  ResourceDebit, DailyResourceLedger, ResourceError, new_ledger, spent, all_distinct,
  validate_balance, Request, check_request, debit_of, debited, debit,
}
use affective_belief_persist.Simulation.Resources.Columns.{column-distinct, spent-snoc}

abbrev pub IsValid : DailyResourceLedger → Type 0
IsValid l = validate_balance l ≡ ok tt

-- The tests of `debit`.
pub record IsPayable (l : DailyResourceLedger) (r : Request) : Type 0 where
  pub positive : 1 ≤ r.amount
  pub new_event : any (λ d. text_eq d.event_id r.event_id) l.debits ≡ false
  pub new_decision : any (λ d. text_eq d.decision_id r.decision_id) l.debits ≡ false
  pub affordable : r.amount ≤ l.remaining

check_request_iff :
    (l : DailyResourceLedger) (r : Request) → (check_request l r ≡ ok tt) ↔ IsPayable l r
unfolding check_request
check_request_iff l r = (
  λ h. record {
    positive = ground arith;
    new_event = ground arith;
    new_decision = ground arith;
    affordable = ground arith;
  },
  λ p.
      let a : 1 ≤ r.amount = p.positive in
      let b : r.amount ≤ l.remaining = p.affordable in
      rw (p.new_event, p.new_decision) (ground arith),
)

record IsDistinct (l : DailyResourceLedger) : Type 0 where
  debit_ids : all_distinct (map (λ d. d.debit_id) l.debits) ≡ true
  event_ids : all_distinct (map (λ d. d.event_id) l.debits) ≡ true
  decision_ids : all_distinct (map (λ d. d.decision_id) l.debits) ≡ true
  balance : l.remaining + spent l.debits ≡ l.total

IsValid→IsDistinct : (l : DailyResourceLedger) → IsValid l → IsDistinct l
unfolding validate_balance
IsValid→IsDistinct l h = record {
  debit_ids = ground arith;
  event_ids = ground arith;
  decision_ids = ground arith;
  balance = ground arith;
}

IsDistinct→IsValid : (l : DailyResourceLedger) → IsDistinct l → IsValid l
unfolding validate_balance
IsDistinct→IsValid l k =
    let b : l.remaining + spent l.debits ≡ l.total = k.balance in
    rw (k.debit_ids, k.event_ids, k.decision_ids) (ground arith)

request_of : ResourceDebit → Request
request_of d = record {
  event_id = d.event_id;
  decision_id = d.decision_id;
  action_id = d.action_id;
  amount = d.amount;
}

module _ (digest : Request → ℕ → Text → Text)
    (distinguishes : (r s : Request) (day : ℕ) (budget : Text)
      → digest r day budget ≡ digest s day budget
      → r.event_id ≡ s.event_id) where
  -- The identifier of each debit is the digest of its fields.
  pub Hashed : DailyResourceLedger → Type 0
  unfolding request_of
  Hashed l = All (λ d. d.debit_id ≡ digest (request_of d) l.day l.budget_id) l.debits

  pub record IsSound (l : DailyResourceLedger) : Type 0 where
    pub valid : IsValid l
    pub hashed : Hashed l

  -- A new day's ledger is sound.
  pub new_ledger-IsSound : (day : ℕ) (budget_id : Text) → IsSound (new_ledger day budget_id)
  unfolding Hashed validate_balance all_distinct
  new_ledger-IsSound day budget_id = record { valid = refl; hashed = tt }

  new_id :
      (day : ℕ) (budget : Text) (r : Request) (ds : List ResourceDebit)
      → All (λ d. d.debit_id ≡ digest (request_of d) day budget) ds
      → any (λ d. text_eq d.event_id r.event_id) ds ≡ false
      → any (λ d. text_eq d.debit_id (digest r day budget)) ds ≡ false
  unfolding request_of
  new_id day budget r [] h k = refl
  new_id day budget r (d ∷ ds) (own, rest) k =
      let tail = new_id day budget r ds rest (ground arith) in
      let other : text_eq d.event_id r.event_id ≡ false = ground arith in
      elim (Bool-cases (text_eq d.debit_id (digest r day budget))) [
        | inl eq ↦
            let same : d.event_id ≡ r.event_id =
              distinguishes (request_of d) r day budget
                (sym own ∙ (text_eq_iff d.debit_id (digest r day budget)).0 eq) in
            absurd (cc (other, (text_eq_iff d.event_id r.event_id).1 same))
        | inr ne ↦ rw (ne, tail) refl
      ]

  debited-IsValid :
      (l : DailyResourceLedger) (r : Request)
      → IsSound l
      → IsPayable l r
      → IsValid (debited digest l r)
  unfolding Hashed
  debited-IsValid l r s p =
      let k = IsValid→IsDistinct l s.valid in
      let b : l.remaining + spent l.debits ≡ l.total = k.balance in
      let enough : r.amount ≤ l.remaining = p.affordable in
      IsDistinct→IsValid (debited digest l r) (record {
        debit_ids =
            column-distinct (λ d. d.debit_id) l.debits (debit_of digest l r)
              (new_id l.day l.budget_id r l.debits s.hashed p.new_event) k.debit_ids;
        event_ids =
            column-distinct (λ d. d.event_id) l.debits (debit_of digest l r) p.new_event
              k.event_ids;
        decision_ids =
            column-distinct (λ d. d.decision_id) l.debits (debit_of digest l r) p.new_decision
              k.decision_ids;
        balance = omega (arith, spent-snoc l.debits (debit_of digest l r), b, enough);
      })

  All-end :
      (day : ℕ) (budget : Text) (ds : List ResourceDebit) (d : ResourceDebit)
      → All (λ e. e.debit_id ≡ digest (request_of e) day budget) ds
      → d.debit_id ≡ digest (request_of d) day budget
      → All (λ e. e.debit_id ≡ digest (request_of e) day budget) (ds ++ d ∷ [])
  All-end day budget [] d h p = (p, tt)
  All-end day budget (e ∷ ds) d h p = (h.0, All-end day budget ds d h.1 p)

  debit-ok :
      (l m : DailyResourceLedger) (r : Request)
      → debit digest l r ≡ ok m
      → IsPayable l r × (debited digest l r ≡ m)
  unfolding debit
  debit-ok l m r h =
      let (p, rest) = >>-eq-ok (check_request l r) _ h in
      let (v, done) = >>-eq-ok (validate_balance (debited digest l r)) _ rest in
      ((check_request_iff l r).0 p, cc done)

  -- A debit that is accepted leaves a sound ledger with the same total.
  debit-IsSound :
      (l m : DailyResourceLedger) (r : Request)
      → IsSound l
      → debit digest l r ≡ ok m
      → IsSound m × (m.total ≡ l.total)
  unfolding Hashed request_of
  debit-IsSound l m r s h =
      let (p, same) = debit-ok l m r h in
      subst (λ n. IsSound n × (n.total ≡ l.total)) same
        (
          record {
            valid = debited-IsValid l r s p;
            hashed = All-end l.day l.budget_id l.debits (debit_of digest l r) s.hashed refl;
          },
          refl,
        )

  -- Debits in a row; one that is refused leaves the ledger as it is.
  abbrev pub after_debit :
      DailyResourceLedger → Result ResourceError DailyResourceLedger → DailyResourceLedger
  after_debit l (ok m) = m
  after_debit l (err e) = l

  abbrev pub run_debits : DailyResourceLedger → List Request → DailyResourceLedger
  run_debits l [] = l
  run_debits l (r ∷ rs) = run_debits (after_debit l (debit digest l r)) rs

  after_debit-IsSound :
      (l : DailyResourceLedger) (o : Result ResourceError DailyResourceLedger) (r : Request)
      → IsSound l
      → debit digest l r ≡ o
      → IsSound (after_debit l o) × ((after_debit l o).total ≡ l.total)
  after_debit-IsSound l (ok m) r s h = debit-IsSound l m r s h
  after_debit-IsSound l (err e) r s h = (s, refl)

  -- Over any requests, accepted or not, a sound ledger stays sound: no event and no decision is
  -- debited twice, and what remains and what was spent add up to the same total.
  pub run_debits-IsSound :
      (l : DailyResourceLedger) (rs : List Request)
      → IsSound l
      → IsSound (run_debits l rs)
        × ((run_debits l rs).remaining + spent (run_debits l rs).debits ≡ l.total)
  run_debits-IsSound l [] s = (s, (IsValid→IsDistinct l s.valid).balance)
  run_debits-IsSound l (r ∷ rs) s =
      let (s', same) = after_debit-IsSound l (debit digest l r) r s refl in
      let (s'', sum) = run_debits-IsSound (after_debit l (debit digest l r)) rs s' in
      (s'', sum ∙ same)
