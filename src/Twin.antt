-- ===== src/Twin.antt =====
-- digital_twin: the authority over the operational state of the emergency.
pub mod Entities
pub mod Events
pub mod Transitions
pub mod State
pub mod Handling
pub mod Apply
pub mod Rule
pub mod Log
pub mod Capacity
pub mod Outcome
pub mod History
pub mod Queries
pub mod Snapshot
pub mod Replay
pub mod Cascade
