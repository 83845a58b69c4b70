-- ===== src/Orchestration/Supervisor/Audit.antt =====
-- The status of a task as the supervisor's audit log tells it.
use affective_belief_persist.Prelude.{
  ℕ, suc, ◌+◌, ◌≤◌, ◌≡◌, refl, sym, ◌∙◌, subst, Bool, false, ◌&&◌, Option, none, some, List, [],
  ◌∷◌, ◌++◌, any, length, if◌then◌else◌, Bool-cases, inl, inr, Text, text_eq, text_eq_iff, arith,
  six_digits-injective,
}
use affective_belief_persist.Orchestration.Task.{TaskStatus, same_status}
use affective_belief_persist.Orchestration.Events.{is_status_transition, WorkflowEvent}
use affective_belief_persist.Orchestration.Supervisor.{event_name}

-- An event moves the task, if it is the event of a transition of this task.
abbrev pub moves : Text → WorkflowEvent → Bool
moves id e =
    is_status_transition e.event_type && elim e.task_id [ none ↦ false | some i ↦ text_eq i id ]

-- The status after an event; nothing, when the event starts from another status than the task's.
abbrev pub step_status : Text → WorkflowEvent → Option TaskStatus → Option TaskStatus
step_status id e none = none
step_status id e (some s) =
    if moves id e
    then elim e.previous_status [
      | none ↦ none
      | some p ↦ if same_status p s then e.new_status else none
    ]
    else some s

abbrev pub replay : Text → Option TaskStatus → List WorkflowEvent → Option TaskStatus
replay id s [] = s
replay id s (e ∷ es) = replay id (step_status id e s) es

pub replay-snoc :
    (id : Text) (s : Option TaskStatus) (es : List WorkflowEvent) (e : WorkflowEvent)
    → replay id s (es ++ e ∷ []) ≡ step_status id e (replay id s es)
replay-snoc id s [] e = refl
replay-snoc id s (f ∷ es) e = replay-snoc id (step_status id f s) es e

-- The events from the `k`-th on carry the names of their places.
abbrev pub Named : ℕ → List WorkflowEvent → Type 0
Named k [] = Unit
Named k (e ∷ es) = (e.event_id ≡ event_name k) × Named (k + 1) es

pub Named-snoc :
    (k : ℕ) (es : List WorkflowEvent) (e : WorkflowEvent)
    → Named k es
    → e.event_id ≡ event_name (k + length es)
    → Named k (es ++ e ∷ [])
Named-snoc k [] e n h =
    let same : k + 0 ≡ k = omega arith in (subst (λ i. e.event_id ≡ event_name i) same h, tt)
Named-snoc k (f ∷ es) e n h =
    let same : k + suc (length es) ≡ k + 1 + length es = omega arith in
    (n.0, Named-snoc (k + 1) es e n.1 (subst (λ i. e.event_id ≡ event_name i) same h))

event_name-injective : (m n : ℕ) → event_name m ≡ event_name n → m ≡ n
event_name-injective m n h = six_digits-injective m n (cc h)

-- The name of a later place is new.
pub Named-fresh :
    (k n : ℕ) (es : List WorkflowEvent)
    → Named k es
    → k + length es ≤ n
    → any (λ x. text_eq x.event_id (event_name n)) es ≡ false
Named-fresh k n [] h b = refl
Named-fresh k n (e ∷ es) (named, rest) b =
    let tail = Named-fresh (k + 1) n es rest (omega arith) in
    let head : text_eq e.event_id (event_name n) ≡ false =
      elim (Bool-cases (text_eq e.event_id (event_name n))) [
        | inl eq ↦
            let same =
              event_name-injective k n (sym named ∙ (text_eq_iff e.event_id (event_name n)).0 eq) in
            absurd (omega (arith, same))
        | inr ne ↦ ne
      ] in
    ground arith
