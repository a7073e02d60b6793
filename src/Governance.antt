-- ===== src/Governance.antt =====
-- services/recommendations: who may decide on a recommendation, when, and what the audit keeps of it.
pub mod Roles
pub mod Records
pub mod Ledger
pub mod Service
pub mod Preconditions
pub mod Decisions
pub mod Listing
pub mod Steps
pub mod Branches
pub mod Refinement
pub mod Checking
pub mod Audit
pub mod Approval
pub mod Retry
pub mod Refusal
pub mod AuditLog
