-- ===== src/Orchestration/Events/Examples.antt =====
-- Tests of the event log, and its theorems at a concrete log.
use affective_belief_persist.Prelude.{
  ◌≡◌, refl, ◌↔◌, none, some, [], ◌∷◌, ◌++◌, ok, err, codes, Text, ℕ,
}
use affective_belief_persist.Orchestration.Task.{ready}
use affective_belief_persist.Orchestration.Events.{
  WorkflowEvent, EventLog, note, status_transition, transition_incomplete, not_contiguous,
  time_reversed, validate_transition_payload, validate_history, append,
}
use affective_belief_persist.Orchestration.Events.History.{IsHistory, append-IsHistory_iff}

abbrev event : Text → ℕ → ℕ → WorkflowEvent
event id sequence at = record {
  event_id = id;
  workflow_id = codes "sprint";
  sequence = sequence;
  event_type = note;
  occurred_at = at;
  actor_id = codes "sprint-supervisor";
  task_id = none;
  previous_status = none;
  new_status = none;
  message = none;
  payload = [];
}

abbrev log : EventLog
log = record { workflow_id = codes "sprint"; events = event (codes "event-1") 1 10 ∷ [] }

abbrev second : WorkflowEvent
second = event (codes "event-2") 2 10

test_append : append log second ≡ ok (record log { events = log.events ++ second ∷ [] })
unfolding append
test_append = refl

test_append_errors :
    (append log (event (codes "event-3") 3 10) ≡ err not_contiguous)
    × (append log (event (codes "event-2") 2 9) ≡ err time_reversed)
unfolding append
test_append_errors = (refl, refl)

test_payload :
    validate_transition_payload
      (record second { event_type = status_transition; new_status = some ready })
    ≡ err transition_incomplete
unfolding validate_transition_payload
test_payload = refl

log-IsHistory : IsHistory log
unfolding validate_history
log-IsHistory = refl

append-IsHistory_iff_example :
    (append log second ≡ ok (record log { events = log.events ++ second ∷ [] })) ↔ (
      IsHistory (record log { events = log.events ++ second ∷ [] })
      × (record log { events = log.events ++ second ∷ [] }
          ≡ record log { events = log.events ++ second ∷ [] }))
append-IsHistory_iff_example =
    append-IsHistory_iff log (record log { events = log.events ++ second ∷ [] }) second
      log-IsHistory
