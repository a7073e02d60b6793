-- ===== src/Tests.antt =====
-- Concrete states and events, and the theorems applied to them.
pub mod Overlays
pub mod Twins
pub mod Decisions
pub mod Incidents
pub mod Facilities
pub mod Synchronisation
pub mod Batches
pub mod Messages
pub mod Simulations
pub mod Routes
