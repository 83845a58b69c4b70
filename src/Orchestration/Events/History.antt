-- ===== src/Orchestration/Events/History.antt =====
-- The checks of `EventLog.append` against the validation of a whole history.
use affective_belief_persist.Prelude.{
  ℕ, ◌+◌, ◌≡◌, refl, ◌∙◌, ◌↔◌, Bool, ◌||◌, Option, none, some, List, [], ◌∷◌, ◌++◌, Text, text_eq,
  arith, any, length, Result, ok, ◌>>◌, >>-ok, >>_assoc, >>-eq-ok, sym, subst, ap, ok_unique,
}
use affective_belief_persist.Orchestration.Events.{
  WorkflowEvent, EventError, EventLog, check_event, check_events, validate_history, last_time,
  append,
}

-- The identifiers seen and the time reached after some rounds of the loop.
abbrev seen_after : List Text → List WorkflowEvent → List Text
seen_after seen [] = seen
seen_after seen (e ∷ es) = seen_after (e.event_id ∷ seen) es

abbrev time_after : Option ℕ → List WorkflowEvent → Option ℕ
time_after previous [] = previous
time_after previous (e ∷ es) = time_after (some e.occurred_at) es

check_events-snoc :
    (workflow : Text) (n k : ℕ) (seen : List Text) (previous : Option ℕ) (es : List WorkflowEvent)
    (e : WorkflowEvent)
    → k ≡ n + length es
    → check_events workflow n seen previous (es ++ e ∷ []) ≡ (
        check_events workflow n seen previous es
        >> check_event workflow k (seen_after seen es) (time_after previous es) e)
unfolding check_events
check_events-snoc w n k seen previous [] e h =
    let same : k ≡ n = omega arith in rw same (>>-ok (check_event w n seen previous e))
check_events-snoc w n k seen previous (f ∷ es) e h =
    rw (check_events-snoc w (n + 1) k (f.event_id ∷ seen) (some f.occurred_at) es e (omega arith))
      (sym (>>_assoc (check_event w n seen previous f) _ _))

any-seen_after :
    (p : Text → Bool) (seen : List Text) (es : List WorkflowEvent)
    → any p (seen_after seen es) ≡ (any p seen || any (λ x. p x.event_id) es)
any-seen_after p seen [] = ground arith
any-seen_after p seen (e ∷ es) = ground (arith, any-seen_after p (e.event_id ∷ seen) es)

time_after-last :
    (e : WorkflowEvent) (es : List WorkflowEvent) (previous : Option ℕ)
    → time_after previous (e ∷ es) ≡ last_time (e ∷ es)
time_after-last e [] previous = refl
time_after-last e (f ∷ es) previous = time_after-last f es (some e.occurred_at)

time_after-none : (es : List WorkflowEvent) → time_after none es ≡ last_time es
time_after-none [] = refl
time_after-none (e ∷ es) = time_after-last e es none

-- The rounds of the loop that `append` replaces.
append_checks : EventLog → WorkflowEvent → Result EventError (Unit {0})
append_checks log e =
    check_event log.workflow_id (length log.events + 1) (seen_after [] log.events)
      (time_after none log.events) e

append-eq-checks :
    (log : EventLog) (e : WorkflowEvent)
    → append log e ≡ (append_checks log e >> ok (record log { events = log.events ++ e ∷ [] }))
unfolding append append_checks check_event
append-eq-checks log e =
    rw (any-seen_after (λ i. text_eq i e.event_id) [] log.events, time_after-none log.events)
      (simp >>_assoc)

validate_history-snoc :
    (log : EventLog) (e : WorkflowEvent)
    → validate_history (record log { events = log.events ++ e ∷ [] })
      ≡ (validate_history log >> append_checks log e)
unfolding validate_history append_checks
validate_history-snoc log e =
    check_events-snoc log.workflow_id 1 (length log.events + 1) [] none log.events e (omega arith)

abbrev pub IsHistory : EventLog → Type 0
IsHistory log = validate_history log ≡ ok tt

-- On a log that validates, `append` returns a log exactly when the whole history with the event at
-- its end validates, and the log is that history; otherwise it raises.
pub append-IsHistory_iff :
    (log new : EventLog) (e : WorkflowEvent)
    → IsHistory log
    → (append log e ≡ ok new) ↔ (
        IsHistory (record log { events = log.events ++ e ∷ [] })
        × (record log { events = log.events ++ e ∷ [] } ≡ new))
append-IsHistory_iff log new e h = (
  λ a.
      let (p, q) = >>-eq-ok (append_checks log e) _ (sym (append-eq-checks log e) ∙ a) in
      (cc (validate_history-snoc log e, h, p), ok_unique (ok _) refl q),
  λ (v, same).
      let p : append_checks log e ≡ ok tt = cc (validate_history-snoc log e, h, v) in
      append-eq-checks log e ∙ rw p (ap ok same),
)

-- A log that `append` returns is the old one with the event at its end, and it validates.
pub append-IsHistory :
    (log new : EventLog) (e : WorkflowEvent)
    → IsHistory log
    → append log e ≡ ok new
    → IsHistory new × (new.events ≡ log.events ++ e ∷ []) × (new.workflow_id ≡ log.workflow_id)
append-IsHistory log new e h a =
    let (p, q) = >>-eq-ok (append_checks log e) _ (sym (append-eq-checks log e) ∙ a) in
    let same : record log { events = log.events ++ e ∷ [] } ≡ new = cc q in
    (subst IsHistory same (cc (validate_history-snoc log e, h, p)), cc, cc)
