-- ===== src/Simulation.antt =====
-- services/simulation: what-if scenarios on forks of the digital twin.
pub mod Models
pub mod Validator
pub mod Executor
pub mod Preview
pub mod Chain
pub mod Applicable
pub mod Promise
pub mod Repeats
