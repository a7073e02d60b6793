-- ===== src/Facilities.antt =====
-- services/api/app/repositories/facility_service.py: hospitals and shelters, their versions and history.
pub mod Records
pub mod Exposure
pub mod Service
pub mod Entries
pub mod Updates
pub mod Changes
pub mod Requests
pub mod Tables
pub mod History
pub mod Audit
pub mod Flood
pub mod Outcome
pub mod Listing
pub mod Ordering
pub mod Pages
