-- ===== src/Lib.antt =====
-- The orchestration of affective-belief-persistence: the supervisor that gives the tasks of a
-- workflow to agents, one lease and one budget at a time.
--
-- Parts. A task (state.py) moves along a table of statuses; each move that the supervisor makes,
-- its recovery apart, is one event of the log (events.py); the order in which tasks become ready
-- comes from the dependency graph (graph.py); an agent works on a task under a lease of repository
-- paths (leases.py, on the path functions of registry.py), and a result that passes is paid from the
-- ledger (budgets.py). A method that raises is a function into `Result`; one that also changes its
-- object returns the new object beside the result.
--
-- Files, for src/affective_belief_persistence/orchestration/:
--   Orchestration/Task        WorkflowTask of state.py, the enums of contracts.py
--   Orchestration/Events      EventLog of events.py
--   Orchestration/Budgets     BudgetAccount of budgets.py
--   Orchestration/Paths       the path functions of registry.py, the overlap of leases.py
--   Orchestration/Registry    AgentDefinition and AgentRegistry of registry.py
--   Orchestration/Leases      PathLeaseManager of leases.py
--   Orchestration/Contracts   TaskContract and WorkerResult of contracts.py
--   Orchestration/Graph       DependencyGraph of graph.py
--   Orchestration/Validation  validate_worker_result of validation.py
--   Orchestration/Workflow    WorkflowState of state.py
--   Orchestration/Supervisor  the methods of Supervisor in scheduler.py that move and record tasks;
--     its children Propagation and Marking have _propagate_dependency_failures and _mark_ready, and
--     Readiness the queries of graph.py on a state
--   Orchestration/Scheduling  the rest of Supervisor, with its checkpoints: its children Work
--     (_lease_task), Skipping (the optional tasks, the recovery), Artifacts and Results
--     (_apply_result and what it calls), Loop (run) and Opening (__init__); Moves, Passes, Rounds,
--     Changes, Leasing, Filing and Applying have the lemmas on what each method does to the tasks,
--     Termination and Opened the theorems on run
-- The budget of a live pilot, gate3/budget.py of the same package, stands by itself: it is reserved
-- before each call of a model and settled after it. Its file is Gate3.
-- The action points of a simulated day, simulation/resources.py, are in Simulation/Resources; the
-- sha256 of a debit is a parameter there, of which the theorems ask that it tells events apart.
-- The memory of a simulated person, memory/ of the same package: Memory has the records of
-- contracts.py, Memory/Store the EpisodeStore of store.py, Memory/Beliefs the BeliefLedger of
-- beliefs.py and the updates of update.py. Their sha256 values are parameters, and nothing is assumed
-- of them; a score is an exact ratio of two natural numbers. The constraints of fields are checked
-- where a model is validated whose object a `model_copy` has made: WorkflowTask and Belief.
-- Prelude has what they share: tests on numbers, lists, results, and texts as lists of code points.
-- A module's Examples has its tests and the theorems at concrete values.
--
-- Choices. A dict or set is a list in insertion order, an object is a record, and an exception is
-- its constructor without the message. Seconds, GPU hours and dollars are floats, given by their
-- ranks among the floats, which are natural numbers; their rounded sums and differences are those
-- of the machine, parameters of which the theorems ask what rounding keeps of the order. The exact
-- ratios of scores are not rounded. An instant is timezone-aware, and counted from a fixed one.
-- Strings are stripped of the blanks of `is_space`. The sha256 identifier of a lease is a
-- parameter, `digest`, of which nothing is assumed.
-- Fuel. The loop of the topological sort takes one unit of fuel a round and starts with one more
-- than the number of tasks; each round places one task.
--
-- The clock of the supervisor is any function from the number of a reading to an instant; the
-- theorems on the log ask that it never goes back, as `LogicalClock` does not. An exception that no
-- method of the supervisor catches ends the run, so the state that it leaves in memory is not kept.
-- The executor of the tasks is a function of the wave and the work, which answers with a result or an
-- exception and the seconds that passed; a wave's threads are joined before any result is applied, so
-- their order is left out. What the file system answers is a record of functions.
-- The loop of `run` takes one unit of fuel a pass. Each move lowers the weight of the tasks, and a
-- pass that does not raise makes one.
--
-- Not modelled: the files of the supervisor, the digest of its summary and the executor for tests;
-- most messages and details of errors, naive datetimes (refused by the source at its borders), the
-- type checks of pydantic, files. The rest of the simulation, the retrieval of memories, the models,
-- the evaluation and the entry points are outside this development.
pub mod Gate3
pub mod Memory
pub mod Orchestration
pub mod Prelude
pub mod Simulation
