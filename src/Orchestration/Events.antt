-- ===== src/Orchestration/Events.antt =====
-- orchestration/events.py: the append-only event log of a workflow.
pub mod History
mod Examples
use affective_belief_persist.Prelude.{
  ℕ, ◌+◌, Bool, true, false, not, ◌&&◌, ◌||◌, Option, none, some, List, [], ◌∷◌, ◌++◌, Text,
  text_eq, ltb, eqb, any, all, length, last?, Result, ok, err, ◌>>=◌, ◌>>◌, raise_if, codes, map,
}
use affective_belief_persist.Orchestration.Task.{TaskStatus, is_none}

pub data WorkflowEventType : Type 0 where
  workflow_created status_transition artifact_registered handoff_registered : WorkflowEventType
  checkpoint_saved safety_boundary_detected safety_action_applied : WorkflowEventType
  safety_resolved note : WorkflowEventType

-- The values of an event's payload that the orchestration package writes.
pub data Scalar : Type 0 where
  text : Text → Scalar
  number : ℕ → Scalar
  flag : Bool → Scalar
  null : Scalar

pub record WorkflowEvent : Type 0 where
  pub event_id : Text
  pub workflow_id : Text
  pub sequence : ℕ
  pub event_type : WorkflowEventType
  pub occurred_at : ℕ
  pub actor_id : Text
  pub task_id : Option Text
  pub previous_status : Option TaskStatus
  pub new_status : Option TaskStatus
  pub message : Option Text
  pub payload : List (Text × Scalar)

pub data EventError : Type 0 where
  transition_incomplete status_reserved safety_incomplete : EventError
  foreign_event not_contiguous duplicate_event_id time_reversed : EventError

abbrev pub is_status_transition : WorkflowEventType → Bool
is_status_transition status_transition = true
is_status_transition _ = false

abbrev pub is_safety : WorkflowEventType → Bool
is_safety safety_boundary_detected = true
is_safety safety_action_applied = true
is_safety safety_resolved = true
is_safety _ = false

-- The payload keys that a safety event must carry.
abbrev pub safety_keys : List Text
safety_keys = map codes ("safety_event_id" ∷ "condition_id" ∷ "severity" ∷ "primary_action" ∷ [])

abbrev pub has_key : List (Text × Scalar) → Text → Bool
has_key [] k = false
has_key ((j, v) ∷ r) k = text_eq j k || has_key r k

unfoldable pub validate_transition_payload : WorkflowEvent → Result EventError (Unit {0})
validate_transition_payload e = do
  raise_if
      (is_status_transition e.event_type
        && (is_none e.task_id || (is_none e.previous_status || is_none e.new_status)))
      transition_incomplete
  raise_if
      (not (is_status_transition e.event_type)
        && (not (is_none e.previous_status) || not (is_none e.new_status)))
      status_reserved
  raise_if
      (is_safety e.event_type && (is_none e.task_id || not (all (has_key e.payload) safety_keys)))
      safety_incomplete

pub record EventLog : Type 0 where
  pub workflow_id : Text
  pub events : List WorkflowEvent

-- `previous_time is not None and occurred_at < previous_time`
abbrev pub precedes : ℕ → Option ℕ → Bool
precedes at none = false
precedes at (some t) = ltb at t

-- One round of the loop of `validate_history`.
check_event : Text → ℕ → List Text → Option ℕ → WorkflowEvent → Result EventError (Unit {0})
check_event workflow expected seen previous e = do
  raise_if (not (text_eq e.workflow_id workflow)) foreign_event
  raise_if (not (eqb e.sequence expected)) not_contiguous
  raise_if (any (λ i. text_eq i e.event_id) seen) duplicate_event_id
  raise_if (precedes e.occurred_at previous) time_reversed

check_events : Text → ℕ → List Text → Option ℕ → List WorkflowEvent → Result EventError (Unit {0})
check_events workflow expected seen previous [] = ok tt
check_events workflow expected seen previous (e ∷ es) =
    check_event workflow expected seen previous e
    >> check_events workflow (expected + 1) (e.event_id ∷ seen) (some e.occurred_at) es

unfoldable pub validate_history : EventLog → Result EventError (Unit {0})
unfolding check_event check_events
validate_history log = check_events log.workflow_id 1 [] none log.events

abbrev pub next_sequence : EventLog → ℕ
next_sequence log = length log.events + 1

abbrev pub last_time : List WorkflowEvent → Option ℕ
last_time [] = none
last_time (e ∷ []) = some e.occurred_at
last_time (e ∷ f ∷ es) = last_time (f ∷ es)

unfoldable pub append : EventLog → WorkflowEvent → Result EventError EventLog
append log e = do
  raise_if (not (text_eq e.workflow_id log.workflow_id)) foreign_event
  raise_if (not (eqb e.sequence (next_sequence log))) not_contiguous
  raise_if (any (λ x. text_eq x.event_id e.event_id) log.events) duplicate_event_id
  raise_if (precedes e.occurred_at (last_time log.events)) time_reversed
  ok (record log { events = log.events ++ e ∷ [] })
