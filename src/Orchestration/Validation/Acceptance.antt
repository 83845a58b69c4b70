-- ===== src/Orchestration/Validation/Acceptance.antt =====
-- Which results the supervisor accepts.
use affective_belief_persist.Prelude.{
  Within, Within-subset, subset, subset-Within, ◌≡◌, refl, sym, ◌∙◌, ap, ◌↔◌, Bool, true, false,
  not, ◌&&◌, Option, none, some, List, [], ◌∷◌, ◌++◌, any, map, if◌then◌else◌, Text, codes, text_eq,
  text_eq_iff, arith, inl, inr, Bool-cases, subst, &&-eq-true,
}
use affective_belief_persist.Orchestration.Task.{is_none, FailureCategory, schema_mismatch}
use affective_belief_persist.Orchestration.Task.Snapshot.{is_empty}
use affective_belief_persist.Orchestration.Contracts.{TaskContract, WorkerResult}
use affective_belief_persist.Orchestration.Validation.{
  GateDefinition, Findings, safe_relative_path, set_difference, sets_differ, noted_if, reported,
  check_gate, check_claimed_success, conclude, collect_findings, validate_worker_result,
}

abbrev pub SameSet : List Text → List Text → Type 0
SameSet xs ys = Within xs ys × Within ys xs

set_difference-subset : (xs ys : List Text) → is_empty (set_difference xs ys) ≡ subset xs ys
unfolding set_difference
set_difference-subset [] ys = refl
set_difference-subset (x ∷ xs) ys = ground (arith, set_difference-subset xs ys)

is_empty-snoc : {A : Type 0} (xs : List A) (x : A) → is_empty (xs ++ x ∷ []) ≡ false
is_empty-snoc [] x = refl
is_empty-snoc (y ∷ ys) x = refl

noted_if-is_empty :
    (b : Bool) (reason : Text) (c : FailureCategory) (f : Findings)
    → is_empty (noted_if b reason c f).failures ≡ (not b && is_empty f.failures)
noted_if-is_empty true reason c f = is_empty-snoc f.failures reason
noted_if-is_empty false reason c f = refl

-- What the code calls for: the leased task and a claim of success; the declared artifacts at the
-- declared paths, each below the output root; every acceptance test among the passed checks;
-- artifacts or a reason for none; and, at a gate, its evidence consumed.
pub record IsAcceptable (t : TaskContract) (r : WorkerResult) (gate : Option GateDefinition)
    : Type 0 where
  pub same_task : r.task_id ≡ t.task_id
  pub claimed : r.succeeded ≡ true
  pub same_ids : SameSet t.expected_artifact_ids (map (λ a. a.artifact_id) r.artifacts)
  pub same_paths : SameSet t.output_paths (map (λ a. a.path) r.artifacts)
  pub safe : any (λ p. not (safe_relative_path p)) (map (λ a. a.path) r.artifacts) ≡ false
  pub checked : Within t.acceptance_tests r.passed_checks
  pub accounted : (is_empty r.artifacts && is_none r.no_artifact_reason) ≡ false
  pub evidenced :
      (g : GateDefinition)
      → gate ≡ some g
      → Within g.required_evidence_artifact_ids r.consumed_artifact_ids

abbrev gate_met : Option GateDefinition → WorkerResult → Bool
gate_met none r = true
gate_met (some g) r = subset g.required_evidence_artifact_ids r.consumed_artifact_ids

check_gate-is_empty :
    (gate : Option GateDefinition) (r : WorkerResult) (f : Findings)
    → is_empty (check_gate gate r f).failures ≡ (gate_met gate r && is_empty f.failures)
unfolding check_gate
check_gate-is_empty none r f = refl
check_gate-is_empty (some g) r f =
    let same = set_difference-subset g.required_evidence_artifact_ids r.consumed_artifact_ids in
    ground (
      arith,
      noted_if-is_empty
          (not (is_empty (set_difference g.required_evidence_artifact_ids r.consumed_artifact_ids)))
          _ _ f,
    )

five_noted-is_empty :
    (a b c d e : Bool) (r₁ r₂ r₃ r₄ r₅ : Text) (c₁ c₂ c₃ c₄ c₅ : FailureCategory) (f : Findings)
    → is_empty
        (noted_if e r₅ c₅
          (noted_if d r₄ c₄ (noted_if c r₃ c₃ (noted_if b r₂ c₂ (noted_if a r₁ c₁ f))))).failures
      ≡ (not e && (not d && (not c && (not b && (not a && is_empty f.failures)))))
five_noted-is_empty a b c d e r₁ r₂ r₃ r₄ r₅ c₁ c₂ c₃ c₄ c₅ f =
    rw
      (
        noted_if-is_empty e r₅ c₅ _,
        noted_if-is_empty d r₄ c₄ _,
        noted_if-is_empty c r₃ c₃ _,
        noted_if-is_empty b r₂ c₂ _,
        noted_if-is_empty a r₁ c₁ f,
      )
      refl

-- The tests of the branch for success.
abbrev success_met : TaskContract → WorkerResult → Bool
success_met t r =
    not (is_empty r.artifacts && is_none r.no_artifact_reason)
    && (not (not (is_empty (set_difference t.acceptance_tests r.passed_checks)))
        && (not (any (λ p. not (safe_relative_path p)) (map (λ a. a.path) r.artifacts))
            && (not (sets_differ t.output_paths (map (λ a. a.path) r.artifacts))
                && not
                    (sets_differ t.expected_artifact_ids (map (λ a. a.artifact_id) r.artifacts)))))

not-not : (b : Bool) → not (not b) ≡ b
not-not b = ground arith

not-not_and : (b : Bool) → (not (not b) && true) ≡ b
not-not_and b = ground arith

not-true : (b : Bool) → not b ≡ true → b ≡ false
not-true b h = ground arith

sets_same : (xs ys : List Text) → not (sets_differ xs ys) ≡ true → SameSet xs ys
sets_same xs ys h =
    let (p, q) = &&-eq-true (subset xs ys) (subset ys xs) (sym (not-not _) ∙ h) in
    (subset-Within xs ys p, subset-Within ys xs q)

&&-nested :
    (a b c d e z : Bool)
    → (a && (b && (c && (d && (e && z))))) ≡ ((a && (b && (c && (d && e)))) && z)
&&-nested a b c d e z = ground arith

check_claimed_success-is_empty :
    (t : TaskContract) (r : WorkerResult) (gate : Option GateDefinition) (f : Findings)
    → is_empty (check_claimed_success t r gate f).failures
      ≡ (gate_met gate r && (success_met t r && is_empty f.failures))
unfolding check_claimed_success
check_claimed_success-is_empty t r gate f =
    let a = sets_differ t.expected_artifact_ids (map (λ x. x.artifact_id) r.artifacts) in
    let b = sets_differ t.output_paths (map (λ x. x.path) r.artifacts) in
    let c = any (λ p. not (safe_relative_path p)) (map (λ x. x.path) r.artifacts) in
    let d = not (is_empty (set_difference t.acceptance_tests r.passed_checks)) in
    let e = is_empty r.artifacts && is_none r.no_artifact_reason in
    check_gate-is_empty gate r _
    ∙ ap (λ m. gate_met gate r && m)
        (five_noted-is_empty a b c d e _ _ _ _ _ _ _ _ _ _ f
          ∙ &&-nested (not e) (not d) (not c) (not b) (not a) (is_empty f.failures))

conclude-passed :
    (gate : Option GateDefinition) (f : Findings) → (conclude gate f).passed ≡ is_empty f.failures
conclude-passed gate f = elim (Bool-cases (is_empty f.failures)) [
  | inl e ↦ rw e refl
  | inr n ↦ rw n refl
]

unfoldable start_findings : TaskContract → WorkerResult → Findings
start_findings t r =
    noted_if (not (text_eq r.task_id t.task_id))
      (codes "result task_id does not match the leased task") schema_mismatch
      (record { failures = []; category = none; retryable = false })

start_findings-is_empty :
    (t : TaskContract) (r : WorkerResult)
    → is_empty (start_findings t r).failures ≡ text_eq r.task_id t.task_id
unfolding start_findings
start_findings-is_empty t r =
    let f : Findings = record { failures = []; category = none; retryable = false } in
    noted_if-is_empty (not (text_eq r.task_id t.task_id)) _ schema_mismatch f
    ∙ not-not_and (text_eq r.task_id t.task_id)

collect_findings-is_empty :
    (t : TaskContract) (r : WorkerResult) (gate : Option GateDefinition)
    → is_empty (collect_findings t r gate).failures
      ≡ (r.succeeded && (gate_met gate r && (success_met t r && text_eq r.task_id t.task_id)))
unfolding collect_findings start_findings
collect_findings-is_empty t r gate =
    let f = start_findings t r in
    elim r.succeeded
      as (λ s.
        is_empty (if s then check_claimed_success t r gate f else reported r f).failures
        ≡ (s && (gate_met gate r && (success_met t r && text_eq r.task_id t.task_id)))) [
          | true ↦
              check_claimed_success-is_empty t r gate f
              ∙ ap (λ b. gate_met gate r && (success_met t r && b)) (start_findings-is_empty t r)
          | false ↦ is_empty-snoc f.failures _
        ]

gate_met-evidenced :
    (gate : Option GateDefinition) (r : WorkerResult)
    → (gate_met gate r ≡ true) ↔ (
        (g : GateDefinition)
        → gate ≡ some g
        → Within g.required_evidence_artifact_ids r.consumed_artifact_ids)
gate_met-evidenced none r = (λ h g e. cc e, λ h. refl)
gate_met-evidenced (some g) r = (
  λ h g' e.
      let same : g ≡ g' = cc e in
      subst
        (λ (k : GateDefinition). Within k.required_evidence_artifact_ids r.consumed_artifact_ids)
        same (subset-Within _ _ h),
  λ h. Within-subset _ _ (h g refl),
)

met-IsAcceptable :
    (t : TaskContract) (r : WorkerResult) (gate : Option GateDefinition)
    → (r.succeeded && (gate_met gate r && (success_met t r && text_eq r.task_id t.task_id))) ≡ true
    → IsAcceptable t r gate
met-IsAcceptable t r gate h =
    let (claimed, h₁) = &&-eq-true r.succeeded _ h in
    let (met, h₂) = &&-eq-true (gate_met gate r) _ h₁ in
    let (success, same) = &&-eq-true (success_met t r) _ h₂ in
    let (e, s₁) = &&-eq-true _ _ success in
    let (d, s₂) = &&-eq-true _ _ s₁ in
    let (c, s₃) = &&-eq-true _ _ s₂ in
    let (b, a) = &&-eq-true _ _ s₃ in
    record {
      same_task = (text_eq_iff r.task_id t.task_id).0 same;
      claimed = claimed;
      same_ids = sets_same _ _ a;
      same_paths = sets_same _ _ b;
      safe = not-true _ c;
      checked =
          subset-Within _ _
            (sym (set_difference-subset t.acceptance_tests r.passed_checks) ∙ sym (not-not _) ∙ d);
      accounted = not-true _ e;
      evidenced = (gate_met-evidenced gate r).0 met;
    }

IsAcceptable-met :
    (t : TaskContract) (r : WorkerResult) (gate : Option GateDefinition)
    → IsAcceptable t r gate
    → (r.succeeded && (gate_met gate r && (success_met t r && text_eq r.task_id t.task_id))) ≡ true
IsAcceptable-met t r gate k =
    rw
      (
        (gate_met-evidenced gate r).1 k.evidenced,
        k.accounted,
        set_difference-subset t.acceptance_tests r.passed_checks,
        Within-subset _ _ k.checked,
        k.safe,
        Within-subset _ _ k.same_paths.0,
        Within-subset _ _ k.same_paths.1,
        Within-subset _ _ k.same_ids.0,
        Within-subset _ _ k.same_ids.1,
        (text_eq_iff r.task_id t.task_id).1 k.same_task,
        k.claimed,
      )
      refl

-- A result passes exactly when it is acceptable: it is of the leased task and claims success, its
-- artifacts have the declared identifiers and paths, each path stays below the output root, every
-- acceptance test is among the passed checks, there are artifacts or a reason for none, and the
-- evidence of the gate was consumed.
pub passed_iff :
    (t : TaskContract) (r : WorkerResult) (gate : Option GateDefinition)
    → ((validate_worker_result t r gate).passed ≡ true) ↔ IsAcceptable t r gate
unfolding validate_worker_result
passed_iff t r gate =
    let met =
      conclude-passed gate (collect_findings t r gate) ∙ collect_findings-is_empty t r gate in
    (λ h. met-IsAcceptable t r gate (sym met ∙ h), λ k. met ∙ IsAcceptable-met t r gate k)
