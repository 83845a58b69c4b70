-- ===== src/Orchestration/Task/Progress.antt =====
-- How the moves of the supervisor bring a task towards its end.
use affective_belief_persist.Prelude.{
  ℕ, ◌+◌, ◌-◌, ◌*◌, ◌≤◌, ◌<◌, ◌≡◌, refl, sym, ap, subst, inl, inr, Bool, true, ◌&&◌, ◌||◌, any, ltb,
  if◌then◌else◌, ok, >>-eq-ok, ok_unique, arith,
}
use affective_belief_persist.Orchestration.Task.{
  TaskStatus, pending, ready, leased, running, validating, completed, retry, blocked, escalated,
  cancelled, same_status, allowed_task_transitions, WorkflowTask, Change, check_transition, moved,
  transition,
}
use affective_belief_persist.Orchestration.Task.Failing.{is_waiting}
use affective_belief_persist.Orchestration.Task.Lifecycle.{Edge, transition-Edge}

-- The supervisor makes a task READY when it waits, and sends it to RETRY while attempts are left.
abbrev pub move_ok : ℕ → ℕ → TaskStatus → TaskStatus → Bool
move_ok limit attempts status retry = ltb attempts limit
move_ok limit attempts status ready = is_waiting status
move_ok limit attempts status _ = true

-- How far a task is from its end: an attempt that has not started counts eight.
abbrev pub weight : ℕ → ℕ → TaskStatus → ℕ
weight limit a pending = 8 * ((limit - (a + 1)) + 1) + 3
weight limit a retry = 8 * ((limit - (a + 1)) + 1) + 3
weight limit a ready = 8 * ((limit - (a + 1)) + 1) + 2
weight limit a leased = 8 * ((limit - (a + 1)) + 1) + 1
weight limit a running = 8 * (limit - a) + 5
weight limit a validating = 8 * (limit - a) + 4
weight limit a blocked = 2
weight limit a escalated = 1
weight limit a completed = 0
weight limit a cancelled = 0

abbrev may_move : TaskStatus → TaskStatus → Bool
may_move s target =
    any (same_status target) (allowed_task_transitions s)
    || (same_status target cancelled && (same_status s pending || same_status s ready))

-- The attempts after a move: RUNNING starts one.
abbrev pub attempts_after : ℕ → TaskStatus → ℕ
attempts_after a target = if same_status target running then a + 1 else a

move-weight :
    (limit a : ℕ) (s target : TaskStatus)
    → may_move s target ≡ true
    → move_ok limit a s target ≡ true
    → weight limit (attempts_after a target) target < weight limit a s
move-weight limit a pending target e k = ground arith
move-weight limit a ready target e k = ground arith
move-weight limit a leased target e k = ground arith
move-weight limit a running target e k = ground arith
move-weight limit a validating target e k = ground arith
move-weight limit a completed target e k = ground arith
move-weight limit a retry target e k = ground arith
move-weight limit a blocked target e k = ground arith
move-weight limit a escalated target e k = ground arith
move-weight limit a cancelled target e k = ground arith

-- A task waits for an attempt that it may still make, or has made no more than it may.
abbrev pub within_attempts : ℕ → ℕ → TaskStatus → Bool
within_attempts limit a pending = ltb a limit
within_attempts limit a retry = ltb a limit
within_attempts limit a ready = ltb a limit
within_attempts limit a leased = ltb a limit
within_attempts limit a _ = ltb a (limit + 1)

move-within :
    (limit a : ℕ) (s target : TaskStatus)
    → may_move s target ≡ true
    → move_ok limit a s target ≡ true
    → within_attempts limit a s ≡ true
    → within_attempts limit (attempts_after a target) target ≡ true
move-within limit a pending target e k w = ground arith
move-within limit a ready target e k w = ground arith
move-within limit a leased target e k w = ground arith
move-within limit a running target e k w = ground arith
move-within limit a validating target e k w = ground arith
move-within limit a completed target e k w = ground arith
move-within limit a retry target e k w = ground arith
move-within limit a blocked target e k w = ground arith
move-within limit a escalated target e k w = ground arith
move-within limit a cancelled target e k w = ground arith

Edge-may_move :
    (t : WorkflowTask) (target : TaskStatus) → Edge t target → may_move t.status target ≡ true
Edge-may_move t target (inl e) = rw e refl
Edge-may_move t target (inr (optional, same, from)) = ground (arith, same, from)

transition-attempts :
    (t : WorkflowTask) (target : TaskStatus) (at : ℕ) (c : Change) (u : WorkflowTask)
    → transition t target at c ≡ ok u
    → u.attempt_count ≡ attempts_after t.attempt_count target
unfolding transition moved
transition-attempts t target at c u h =
    let (p, q) = >>-eq-ok (check_transition t target c) (ok (moved t target at c)) h in
    sym (ap (λ (x : WorkflowTask). x.attempt_count) (ok_unique _ refl q))

pub transition-weight :
    (limit : ℕ) (t : WorkflowTask) (target : TaskStatus) (at : ℕ) (c : Change) (u : WorkflowTask)
    → transition t target at c ≡ ok u
    → move_ok limit t.attempt_count t.status target ≡ true
    → weight limit u.attempt_count u.status < weight limit t.attempt_count t.status
transition-weight limit t target at c u h k =
    let (edge, status, _, _, _, _, _) = transition-Edge t target at c h in
    let less = move-weight limit t.attempt_count t.status target (Edge-may_move t target edge) k in
    subst (λ s. weight limit u.attempt_count s < weight limit t.attempt_count t.status) (sym status)
      (subst (λ a. weight limit a target < weight limit t.attempt_count t.status)
        (sym (transition-attempts t target at c u h)) less)

pub transition-within :
    (limit : ℕ) (t : WorkflowTask) (target : TaskStatus) (at : ℕ) (c : Change) (u : WorkflowTask)
    → transition t target at c ≡ ok u
    → move_ok limit t.attempt_count t.status target ≡ true
    → within_attempts limit t.attempt_count t.status ≡ true
    → within_attempts limit u.attempt_count u.status ≡ true
transition-within limit t target at c u h k w =
    let (edge, status, _, _, _, _, _) = transition-Edge t target at c h in
    let still =
      move-within limit t.attempt_count t.status target (Edge-may_move t target edge) k w in
    subst (λ s. within_attempts limit u.attempt_count s ≡ true) (sym status)
      (subst (λ a. within_attempts limit a target ≡ true)
        (sym (transition-attempts t target at c u h)) still)

pub within_attempts_lem :
    (limit a : ℕ) (s : TaskStatus) → within_attempts limit a s ≡ true → a ≤ limit
within_attempts_lem limit a pending k = ground arith
within_attempts_lem limit a ready k = ground arith
within_attempts_lem limit a leased k = ground arith
within_attempts_lem limit a running k = ground arith
within_attempts_lem limit a validating k = ground arith
within_attempts_lem limit a completed k = ground arith
within_attempts_lem limit a retry k = ground arith
within_attempts_lem limit a blocked k = ground arith
within_attempts_lem limit a escalated k = ground arith
within_attempts_lem limit a cancelled k = ground arith
