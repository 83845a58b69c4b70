-- ===== src/Orchestration/Supervisor/Recording.antt =====
-- `_record_event` of the supervisor, and the log that it appends to.
use affective_belief_persist.Prelude.{
  ℕ, ◌+◌, ◌≤◌, ◌≡◌, refl, sym, ap, true, false, not, ◌&&◌, ◌||◌, some, List, [], ◌∷◌, ◌++◌, ok,
  text_eq, text_eq_iff, arith,
}
use affective_belief_persist.Orchestration.Task.{is_none}
use affective_belief_persist.Orchestration.Events.{
  is_status_transition, is_safety, WorkflowEvent, next_sequence, precedes, last_time, append,
  validate_transition_payload,
}
use affective_belief_persist.Orchestration.Events.History.{IsHistory, append-IsHistory}
use affective_belief_persist.Orchestration.Workflow.{append_event}
use affective_belief_persist.Orchestration.Supervisor.{
  Supervisor, event_name, EventDetails, is_empty_text, new_event, record_event,
}
use affective_belief_persist.Orchestration.Supervisor.Audit.{Named, Named-snoc, Named-fresh}

-- The log is this workflow's and validates, its events are named by their places, and the last one
-- is not after the next reading of the clock.
pub record IsRecorded (clock : ℕ → ℕ) (v : Supervisor) : Type 0 where
  pub history : IsHistory v.state.event_log
  pub owned : v.state.event_log.workflow_id ≡ v.state.workflow_id
  pub named : Named 1 v.state.event_log.events
  pub timely : precedes (clock v.readings) (last_time v.state.event_log.events) ≡ false

-- The details that the payload check of an event accepts.
abbrev pub IsProper : EventDetails → Type 0
IsProper d =
    (is_empty_text d.message ≡ false)
    × (is_safety d.event_type ≡ false)
    × ((is_status_transition d.event_type
          && (is_none d.task_id || (is_none d.previous_status || is_none d.new_status)))
        ≡ false)
    × ((not (is_status_transition d.event_type)
          && (not (is_none d.previous_status) || not (is_none d.new_status)))
        ≡ false)

pub last_time-snoc :
    (es : List WorkflowEvent) (e : WorkflowEvent) → last_time (es ++ e ∷ []) ≡ some e.occurred_at
last_time-snoc [] e = refl
last_time-snoc (f ∷ []) e = refl
last_time-snoc (f ∷ g ∷ es) e = last_time-snoc (g ∷ es) e

module _ (clock : ℕ → ℕ) where
  abbrev pub recorded : Supervisor → EventDetails → Supervisor
  recorded v d = record {
    state = record v.state {
      event_log = record v.state.event_log {
        events = v.state.event_log.events ++ new_event clock v.state v.readings d ∷ [];
      };
      revision = v.state.revision + 1;
      updated_at = clock v.readings;
    };
    readings = v.readings + 1;
  }

  append-new_event :
      (v : Supervisor) (d : EventDetails)
      → IsRecorded clock v
      → append v.state.event_log (new_event clock v.state v.readings d)
        ≡ ok (record v.state.event_log {
          events = v.state.event_log.events ++ new_event clock v.state v.readings d ∷ [];
        })
  unfolding append new_event
  append-new_event v d r =
      let fresh =
        Named-fresh 1 (next_sequence v.state.event_log) v.state.event_log.events r.named
          (omega arith) in
      let mine : text_eq v.state.workflow_id v.state.event_log.workflow_id ≡ true =
        (text_eq_iff _ _).1 (sym r.owned) in
      ground (arith, fresh, mine, r.timely)

  -- With proper details `_record_event` appends the event and never raises.
  pub record_event_lem :
      (v : Supervisor) (d : EventDetails)
      → IsRecorded clock v
      → IsProper d
      → record_event clock v d ≡ ok (recorded v d)
  unfolding record_event append_event validate_transition_payload new_event
  record_event_lem v d r p = ground (arith, append-new_event v d r)

  pub recorded-IsRecorded :
      (v : Supervisor) (d : EventDetails)
      → ((n : ℕ) → clock n ≤ clock (n + 1))
      → IsRecorded clock v
      → IsRecorded clock (recorded v d)
  unfolding new_event
  recorded-IsRecorded v d monotone r =
      let (h, _, _) = append-IsHistory v.state.event_log _ _ r.history (append-new_event v d r) in
      record {
        history = h;
        owned = r.owned;
        named = Named-snoc 1 v.state.event_log.events _ r.named (ap event_name (omega arith));
        timely =
            rw (last_time-snoc v.state.event_log.events (new_event clock v.state v.readings d))
              (ground (arith, monotone v.readings));
      }
