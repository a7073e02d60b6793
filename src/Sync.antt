-- ===== src/Sync.antt =====
-- services/sync: the parts of the offline synchronisation that stand on their own.
pub mod Contracts
pub mod Idempotency
pub mod Retry
pub mod Ledger
pub mod Conflict
pub mod Domain
pub mod Processor
pub mod Batch
pub mod Record
pub mod Once
pub mod Atomic
pub mod Limits
