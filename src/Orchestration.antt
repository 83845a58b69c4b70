-- ===== src/Orchestration.antt =====
-- src/affective_belief_persistence/orchestration: the supervisor's parts.
pub mod Task
pub mod Events
pub mod Budgets
pub mod Paths
pub mod Registry
pub mod Leases
pub mod Contracts
pub mod Graph
pub mod Workflow
pub mod Validation
pub mod Supervisor
pub mod Scheduling
