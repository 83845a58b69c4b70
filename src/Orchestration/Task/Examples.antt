-- ===== src/Orchestration/Task/Examples.antt =====
-- Tests of the task lifecycle, and its theorems at concrete tasks.
use affective_belief_persist.Prelude.{
  is_identifier, unique, ◌≡◌, refl, ◌↔◌, true, none, some, [], ◌∷◌, arith, ok, err, codes,
}
use affective_belief_persist.Orchestration.Task.{
  pending, ready, leased, completed, blocked, cancelled, runtime_interrupted, TaskLease,
  WorkflowTask, Change, no_change, cannot_transition, leased_requires_lease, transition,
  recover_to_ready,
}
use affective_belief_persist.Orchestration.Task.Runs.{
  move, recover, Reach, here, next, IsSound, Reach-IsSound, Reach-final,
}
use affective_belief_persist.Orchestration.Task.Snapshot.{
  IsSnapshot, Fits, validate_state_invariants, validate_fields, validate_task, empty_text,
  blocker_required, transition-IsSnapshot_iff,
}

abbrev fresh : WorkflowTask
fresh = record {
  task_id = codes "train";
  dependencies = codes "data" ∷ [];
  optional_dependencies = [];
  optional = true;
  max_attempts = 2;
  status = pending;
  attempt_count = 0;
  retry_count = 0;
  lease = none;
  started_at = none;
  completed_at = none;
  updated_at = 0;
  output_artifact_ids = [];
  blocker = none;
  last_error = none;
  failure_category = none;
  no_artifact_reason = none;
}

abbrev lease : TaskLease
lease = record {
  lease_id = codes "lease-1";
  worker_id = codes "engineer";
  acquired_at = 2;
  expires_at = 902;
  authorized_files = codes "src/**" ∷ [];
}

abbrev with_lease : Change
with_lease = record no_change { lease = some lease }

abbrev ready_task : WorkflowTask
ready_task = record fresh { status = ready; updated_at = 1 }

abbrev leased_task : WorkflowTask
leased_task = record fresh { status = leased; updated_at = 2; lease = some lease }

abbrev recovered_task : WorkflowTask
recovered_task = record fresh {
  status = ready;
  updated_at = 3;
  last_error = some (codes "restart");
  failure_category = some runtime_interrupted;
}

test_lease : transition ready_task leased 2 with_lease ≡ ok leased_task
unfolding transition
test_lease = refl

test_no_lease : transition ready_task leased 2 no_change ≡ err leased_requires_lease
unfolding transition
test_no_lease = refl

test_skip : transition ready_task completed 2 no_change ≡ err (cannot_transition ready completed)
unfolding transition
test_skip = refl

-- A BLOCKED task without a blocker is made, and fails the check of snapshots.
abbrev silent : WorkflowTask
silent = record fresh { status = blocked; updated_at = 1 }

test_silent :
    (transition fresh blocked 1 no_change ≡ ok silent)
    × (validate_state_invariants silent ≡ err blocker_required)
    × (validate_task (record silent { blocker = some [] }) ≡ err empty_text)
unfolding transition validate_task validate_fields validate_state_invariants is_identifier
test_silent = (refl, refl, refl)

run : Reach fresh recovered_task
unfolding transition recover_to_ready
run =
    next
      (next (next here (move ready 1 no_change refl))
        (move {t = ready_task} leased 2 with_lease refl))
      (recover {t = leased_task} 3 (codes "restart") refl)

fresh-IsSound : IsSound fresh
fresh-IsSound = record {
  counted = omega arith;
  held = refl;
  timed = refl;
  reported = refl;
  cancel_reason = refl;
}

Reach-IsSound_example : IsSound recovered_task
Reach-IsSound_example = Reach-IsSound fresh-IsSound run

abbrev skipped : WorkflowTask
skipped = record fresh {
  status = cancelled;
  updated_at = 1;
  no_artifact_reason = some (codes "no GPU");
}

Reach-final_example : skipped ≡ skipped
Reach-final_example = Reach-final refl here

ready-IsSnapshot : IsSnapshot ready_task
unfolding validate_task validate_fields validate_state_invariants unique is_identifier
ready-IsSnapshot = refl

leased-IsSnapshot : IsSnapshot leased_task
unfolding validate_task validate_fields validate_state_invariants unique is_identifier
leased-IsSnapshot = refl

transition-IsSnapshot_iff_example : IsSnapshot leased_task ↔ Fits ready_task leased with_lease
transition-IsSnapshot_iff_example =
    transition-IsSnapshot_iff ready_task leased 2 with_lease ready-IsSnapshot test_lease

test_recover : recover_to_ready leased_task 3 (codes "restart") ≡ ok recovered_task
unfolding recover_to_ready
test_recover = refl
