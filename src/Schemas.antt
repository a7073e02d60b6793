-- ===== src/Schemas.antt =====
-- The enumerations of services/api/app/schemas, of digital_twin/entities and of digital_twin/events.
pub mod Road
pub mod Facility
pub mod Incident
pub mod Event
pub mod Recommendation
