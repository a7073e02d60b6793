-- ===== src/Incidents.antt =====
-- services/api/app/repositories/incident_service.py: incidents, their versions and their history.
pub mod Records
pub mod Service
pub mod Details
pub mod Changes
pub mod History
pub mod Versions
pub mod Repeated
pub mod Atomic
