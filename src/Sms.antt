-- ===== src/Sms.antt =====
-- services/sms: the intake of emergency messages by SMS.
pub mod Contracts
pub mod Parser
pub mod Validity
pub mod Ingestion
pub mod Replay
pub mod Intake
