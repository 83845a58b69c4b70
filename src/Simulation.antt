-- ===== src/Simulation.antt =====
-- simulation/: the resources of a simulated day.
pub mod Resources
