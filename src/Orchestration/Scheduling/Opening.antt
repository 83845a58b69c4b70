-- ===== src/Orchestration/Scheduling/Opening.antt =====
-- orchestration/scheduler.py: `Supervisor.__init__`, from the definition or from the state that a
-- checkpoint holds. The files, and what the commit and the deadline say in the state, are left out.
use affective_belief_persist.Prelude.{
  ℕ, Bool, false, none, some, List, [], ◌∷◌, Result, ok, err, ◌>>=◌, Text, codes,
}
use affective_belief_persist.Orchestration.Events.{workflow_created, text}
use affective_belief_persist.Orchestration.Budgets.{
  Amounts, BudgetLimits, BudgetAccount, nothing, open_account,
}
use affective_belief_persist.Orchestration.Leases.{LeaseError, PathLeaseManager, new_manager}
use affective_belief_persist.Orchestration.Validation.{GateDefinition}
use affective_belief_persist.Orchestration.Workflow.{WorkflowContract, WorkflowState, from_contract}
use affective_belief_persist.Orchestration.Supervisor.{EventDetails, record_event}
use affective_belief_persist.Orchestration.Scheduling.{
  Scheduler, RunError, lease_error, supervised, budgeted, checkpoint,
}
use affective_belief_persist.Orchestration.Scheduling.Skipping.{recover_interrupted_tasks}
use affective_belief_persist.Orchestration.Scheduling.Artifacts.{put}
use affective_belief_persist.Orchestration.Scheduling.Loop.{Setting, capacity_of_wave}

abbrev pub leased_by : {A : Type 0} → Result LeaseError A → Result RunError A
leased_by (ok a) = ok a
leased_by (err e) = err (lease_error e)

-- {gate.gate_id: False for gate in gates}
unfoldable pub closed_gates : List (Text × Bool) → List GateDefinition → List (Text × Bool)
closed_gates closed [] = closed
closed_gates closed (g ∷ gs) = closed_gates (put g.gate_id false closed) gs

-- The state of a new run.
unfoldable pub new_state : WorkflowContract → List GateDefinition → WorkflowState
new_state c gates = record (from_contract c) {
  phase = codes "ready";
  gates = closed_gates [] gates;
}

abbrev pub created_details : Text → EventDetails
created_details config_sha256 = record {
  event_type = workflow_created;
  task_id = none;
  previous_status = none;
  new_status = none;
  message = some (codes "supervisor initialized validated workflow");
  payload = (codes "config_sha256", text config_sha256) ∷ [];
}

module _ (env : Setting) where
  abbrev with_state_and_account : WorkflowState → PathLeaseManager → BudgetAccount → Scheduler
  with_state_and_account state leases account = record {
    supervisor = record { state = state; readings = 1 };
    budgets = account;
    leases = leases;
  }

  -- The leases and the budgets; the check of the budgets is the first reading of the clock.
  unfoldable pub assemble : WorkflowState → BudgetLimits → Amounts → ℕ → Result RunError Scheduler
  assemble state limits usage start =
      leased_by (new_manager (capacity_of_wave env) 900) >>= λ leases.
      budgeted (open_account env.arithmetic limits (some usage) start (env.clock 0)) >>= λ account.
      ok (with_state_and_account state leases account)

  -- `resume=False`
  unfoldable pub new_scheduler : WorkflowContract → BudgetLimits → Text → Result RunError Scheduler
  new_scheduler c limits config_sha256 =
      assemble (new_state c env.definition.gates) limits nothing c.created_at >>= λ s.
      supervised (record_event env.clock s.supervisor (created_details config_sha256)) >>= λ v.
      checkpoint env.clock (record s { supervisor = v })

  -- `resume=True`, with the state and the usage that were read
  unfoldable pub resumed_scheduler :
      WorkflowState → Amounts → BudgetLimits → ℕ → Result RunError Scheduler
  resumed_scheduler state usage limits start = assemble state limits usage start >>= λ s.
      supervised (recover_interrupted_tasks env.clock s.supervisor env.order) >>= λ v.
      checkpoint env.clock (record s { supervisor = v })
