-- ===== src/Orchestration/Task/Snapshot.antt =====
-- orchestration/state.py: the constraints on the fields of `WorkflowTask` and
-- `validate_state_invariants`, the checks of a task's snapshot when it is built or read from a
-- checkpoint (`model_copy` runs neither). A lease is checked when it is built itself; the fields that
-- WorkflowTask leaves out here are the same in every copy.
use affective_belief_persist.Prelude.{
  unique, ℕ, ◌≡◌, subst, Bool, true, false, not, ◌&&◌, ◌||◌, Option, none, some, all, leb, null,
  is_identifier, List, [], ◌∷◌, ◌↔◌, Text, arith, Result, ok, ◌>>◌, >>-eq-ok, raise_if,
}
use affective_belief_persist.Orchestration.Task.{
  TaskStatus, completed, blocked, WorkflowTask, same_status, is_none, is_active, Change, or_default,
  check_transition, moved, transition, recover_to_ready,
}

pub data SnapshotError : Type 0 where
  active_lease_required lease_retained completed_at_required completed_at_forbidden : SnapshotError
  blocker_required duplicate_outputs outputs_with_reason category_without_error : SnapshotError
  wrong_identifier wrong_limit empty_text : SnapshotError

abbrev pub is_empty {ℓ} : {A : Type ℓ} → List A → Bool
is_empty [] = true
is_empty (x ∷ xs) = false

-- min_length=1
abbrev pub is_text : Option Text → Bool
is_text none = true
is_text (some s) = not (null s)

-- The constraints of the fields; those on counters hold of every natural number.
unfoldable pub validate_fields : WorkflowTask → Result SnapshotError (Unit {0})
validate_fields t = do
  raise_if (not (is_identifier t.task_id)) wrong_identifier
  raise_if (not (all is_identifier t.dependencies)) wrong_identifier
  raise_if (not (all is_identifier t.optional_dependencies)) wrong_identifier
  raise_if (not (leb 1 t.max_attempts && leb t.max_attempts 3)) wrong_limit
  raise_if (not (all is_identifier t.output_artifact_ids)) wrong_identifier
  raise_if (not (is_text t.blocker)) empty_text
  raise_if (not (is_text t.last_error)) empty_text
  raise_if (not (is_text t.no_artifact_reason)) empty_text

unfoldable pub validate_state_invariants : WorkflowTask → Result SnapshotError (Unit {0})
validate_state_invariants t = do
  raise_if (is_active t.status && is_none t.lease) active_lease_required
  raise_if (not (is_active t.status) && not (is_none t.lease)) lease_retained
  raise_if (same_status t.status completed && is_none t.completed_at) completed_at_required
  raise_if (not (same_status t.status completed) && not (is_none t.completed_at))
      completed_at_forbidden
  raise_if (same_status t.status blocked && is_none t.blocker) blocker_required
  raise_if (not (unique t.output_artifact_ids)) duplicate_outputs
  raise_if (not (is_empty t.output_artifact_ids) && not (is_none t.no_artifact_reason))
      outputs_with_reason
  raise_if (not (is_none t.failure_category) && is_none t.last_error) category_without_error

-- The validation of the model: the fields, then the snapshot.
unfoldable pub validate_task : WorkflowTask → Result SnapshotError (Unit {0})
unfolding validate_fields validate_state_invariants
validate_task t = do validate_fields t; validate_state_invariants t

abbrev pub IsSnapshot : WorkflowTask → Type 0
IsSnapshot t = validate_task t ≡ ok tt

-- What a caller of `transition` has to supply for the result to pass the check.
pub record Fits (t : WorkflowTask) (target : TaskStatus) (c : Change) : Type 0 where
  pub blocker : (same_status target blocked && is_none c.blocker) ≡ false
  pub blocker_text : (not (same_status target blocked) || is_text c.blocker) ≡ true
  pub error_text : is_text c.error ≡ true
  pub reason_text : is_text c.no_artifact_reason ≡ true
  pub output_ids : all is_identifier (or_default c.output_artifact_ids t.output_artifact_ids) ≡ true
  pub outputs_unique : unique (or_default c.output_artifact_ids t.output_artifact_ids) ≡ true
  pub outputs_or_reason :
      (not (is_empty (or_default c.output_artifact_ids t.output_artifact_ids))
        && not (is_none c.no_artifact_reason))
      ≡ false

-- The constraints of the fields, part by part.
record Constrained (t : WorkflowTask) : Type 0 where
  named : is_identifier t.task_id ≡ true
  required : all is_identifier t.dependencies ≡ true
  optional : all is_identifier t.optional_dependencies ≡ true
  limited : (leb 1 t.max_attempts && leb t.max_attempts 3) ≡ true
  output_ids : all is_identifier t.output_artifact_ids ≡ true
  blocker_text : is_text t.blocker ≡ true
  error_text : is_text t.last_error ≡ true
  reason_text : is_text t.no_artifact_reason ≡ true

-- The check of the snapshot, part by part.
record Consistent (t : WorkflowTask) : Type 0 where
  held : (is_active t.status && is_none t.lease) ≡ false
  released : (not (is_active t.status) && not (is_none t.lease)) ≡ false
  timed : (same_status t.status completed && is_none t.completed_at) ≡ false
  untimed : (not (same_status t.status completed) && not (is_none t.completed_at)) ≡ false
  explained : (same_status t.status blocked && is_none t.blocker) ≡ false
  distinct : unique t.output_artifact_ids ≡ true
  exclusive : (not (is_empty t.output_artifact_ids) && not (is_none t.no_artifact_reason)) ≡ false
  reported : (not (is_none t.failure_category) && is_none t.last_error) ≡ false

validate_fields→Constrained : (t : WorkflowTask) → validate_fields t ≡ ok tt → Constrained t
unfolding validate_fields
validate_fields→Constrained t v = ground arith

Constrained→validate_fields : (t : WorkflowTask) → Constrained t → validate_fields t ≡ ok tt
unfolding validate_fields
Constrained→validate_fields t k = ground arith

validate_state_invariants→Consistent :
    (t : WorkflowTask) → validate_state_invariants t ≡ ok tt → Consistent t
unfolding validate_state_invariants
validate_state_invariants→Consistent t v = ground arith

Consistent→validate_state_invariants :
    (t : WorkflowTask) → Consistent t → validate_state_invariants t ≡ ok tt
unfolding validate_state_invariants
Consistent→validate_state_invariants t k = ground arith

IsSnapshot→Both : (t : WorkflowTask) → IsSnapshot t → Constrained t × Consistent t
unfolding validate_task
IsSnapshot→Both t v =
    let (f, c) = >>-eq-ok (validate_fields t) (validate_state_invariants t) v in
    (validate_fields→Constrained t f, validate_state_invariants→Consistent t c)

Both→IsSnapshot : (t : WorkflowTask) → Constrained t → Consistent t → IsSnapshot t
unfolding validate_task
Both→IsSnapshot t f c =
    rw (Constrained→validate_fields t f) (Consistent→validate_state_invariants t c)

moved-Constrained :
    (t : WorkflowTask) (target : TaskStatus) (at : ℕ) (c : Change)
    → Constrained t
    → Fits t target c
    → Constrained (moved t target at c)
unfolding moved
moved-Constrained t blocked at c k f = ground arith
moved-Constrained t _ at c k f = ground arith

moved-Consistent :
    (t : WorkflowTask) (target : TaskStatus) (at : ℕ) (c : Change)
    → Consistent t
    → check_transition t target c ≡ ok tt
    → Fits t target c
    → Consistent (moved t target at c)
unfolding check_transition moved
moved-Consistent t completed at c k h f = ground arith
moved-Consistent t _ at c k h f = ground arith

moved-Fits :
    (t : WorkflowTask) (target : TaskStatus) (at : ℕ) (c : Change)
    → Constrained (moved t target at c)
    → Consistent (moved t target at c)
    → Fits t target c
unfolding moved
moved-Fits t blocked at c f k = ground arith
moved-Fits t _ at c f k = ground arith

transition-eq-moved :
    (t : WorkflowTask) (target : TaskStatus) (at : ℕ) (c : Change) {u : WorkflowTask}
    → transition t target at c ≡ ok u
    → (check_transition t target c ≡ ok tt) × (moved t target at c ≡ u)
unfolding transition
transition-eq-moved t target at c h =
    let (p, q) = >>-eq-ok (check_transition t target c) (ok (moved t target at c)) h in (p, cc q)

-- From a snapshot that passes the validation of the model, an accepted `transition` gives one that
-- passes it exactly when the caller gave a blocker that is not empty for BLOCKED, no empty error or
-- reason, distinct outputs that are identifiers, and no reason beside outputs.
pub transition-IsSnapshot_iff :
    (t : WorkflowTask) (target : TaskStatus) (at : ℕ) (c : Change) {u : WorkflowTask}
    → IsSnapshot t
    → transition t target at c ≡ ok u
    → IsSnapshot u ↔ Fits t target c
transition-IsSnapshot_iff t target at c v h =
    let (allowed, e) = transition-eq-moved t target at c h in
    subst (λ w. IsSnapshot w ↔ Fits t target c) e
      (
        λ w.
            let (fields, consistent) = IsSnapshot→Both (moved t target at c) w in
            moved-Fits t target at c fields consistent,
        λ f.
            let (fields, consistent) = IsSnapshot→Both t v in
            Both→IsSnapshot (moved t target at c) (moved-Constrained t target at c fields f)
              (moved-Consistent t target at c consistent allowed f),
      )

recover_to_ready-Constrained :
    (t : WorkflowTask) (at : ℕ) (reason : Text) (u : WorkflowTask)
    → null reason ≡ false
    → Constrained t
    → recover_to_ready t at reason ≡ ok u
    → Constrained u
unfolding recover_to_ready
recover_to_ready-Constrained t at reason u n k h = ground arith

recover_to_ready-Consistent :
    (t : WorkflowTask) (at : ℕ) (reason : Text) (u : WorkflowTask)
    → Consistent t
    → recover_to_ready t at reason ≡ ok u
    → Consistent u
unfolding recover_to_ready
recover_to_ready-Consistent t at reason u k h = ground arith

-- A task that is recovered with a reason that is not empty passes the validation.
pub recover_to_ready-IsSnapshot :
    (t : WorkflowTask) (at : ℕ) (reason : Text) {u : WorkflowTask}
    → null reason ≡ false
    → IsSnapshot t
    → recover_to_ready t at reason ≡ ok u
    → IsSnapshot u
recover_to_ready-IsSnapshot t at reason {u} n v h =
    let (fields, consistent) = IsSnapshot→Both t v in
    Both→IsSnapshot u (recover_to_ready-Constrained t at reason u n fields h)
      (recover_to_ready-Consistent t at reason u consistent h)
