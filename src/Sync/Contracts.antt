-- ===== src/Sync/Contracts.antt =====
-- services/sync/contracts.py: operations and their results.
use ai_powered_respiratory_h.Base.{
  ℕ, String, List, ◌≡◌, ◌↔◌, true, arith, Option, Dict, Value, Eq, eq_by, nat_beq,
}

pub data SyncEntityType : Type 0 where
  incident evidence resource_request status_update : SyncEntityType

pub data SyncOperationType : Type 0 where
  create update delete : SyncOperationType

pub data SyncStatus : Type 0 where
  accepted duplicate conflict rejected retryable_error : SyncStatus

pub data SyncConflictType : Type 0 where
  state_version_conflict entity_not_found invalid_transition : SyncConflictType
  idempotency_key_reuse unsafe_field_merge : SyncConflictType

pub record SyncOperationResult : Type 0 where
  pub operation_id : String
  pub entity_id : String
  pub entity_type : SyncEntityType
  pub status : SyncStatus
  pub server_state_version : Option ℕ
  pub server_timestamp : ℕ
  pub message : Option String
  pub conflict_type : Option SyncConflictType
  pub server_state : Option (Dict Value)
  pub result_data : Option (Dict Value)

abbrev pub entity_type_value : SyncEntityType → String
entity_type_value incident = "INCIDENT"
entity_type_value evidence = "EVIDENCE"
entity_type_value resource_request = "RESOURCE_REQUEST"
entity_type_value status_update = "STATUS_UPDATE"

abbrev pub operation_type_value : SyncOperationType → String
operation_type_value create = "CREATE"
operation_type_value update = "UPDATE"
operation_type_value delete = "DELETE"

abbrev pub conflict_type_value : SyncConflictType → String
conflict_type_value state_version_conflict = "STATE_VERSION_CONFLICT"
conflict_type_value entity_not_found = "ENTITY_NOT_FOUND"
conflict_type_value invalid_transition = "INVALID_TRANSITION"
conflict_type_value idempotency_key_reuse = "IDEMPOTENCY_KEY_REUSE"
conflict_type_value unsafe_field_merge = "UNSAFE_FIELD_MERGE"

-- A payload, with the two entries that an update stores as they are: a description that is a text, and
-- a priority that is a number. Payloads with other values there are left out.
pub record SyncPayload : Type 0 where
  pub entries : Dict Value
  pub description : Option String
  pub priority : Option ℕ

pub record SyncOperation : Type 0 where
  pub operation_id : String
  pub entity_type : SyncEntityType
  pub entity_id : String
  pub operation_type : SyncOperationType
  pub payload : SyncPayload
  pub schema_version : String
  pub base_state_version : Option ℕ

pub record SyncBatchResponse : Type 0 where
  pub batch_id : String
  pub processed_at : ℕ
  pub total_operations : ℕ
  pub accepted_count : ℕ
  pub duplicate_count : ℕ
  pub conflict_count : ℕ
  pub rejected_count : ℕ
  pub results : List SyncOperationResult

pub data SyncAuditEventType : Type 0 where
  sync_started operation_received operation_accepted operation_duplicate : SyncAuditEventType
  operation_conflict operation_rejected operation_failed sync_completed : SyncAuditEventType

abbrev pub event_type_rank : SyncAuditEventType → ℕ
event_type_rank sync_started = 0
event_type_rank operation_received = 1
event_type_rank operation_accepted = 2
event_type_rank operation_duplicate = 3
event_type_rank operation_conflict = 4
event_type_rank operation_rejected = 5
event_type_rank operation_failed = 6
event_type_rank sync_completed = 7

pub event_type_rank_iff :
    (a b : SyncAuditEventType) → (nat_beq (event_type_rank a) (event_type_rank b) ≡ true) ↔ (a ≡ b)
event_type_rank_iff a b = ground arith

instance abbrev pub event_type_eq : Eq SyncAuditEventType
event_type_eq = eq_by event_type_rank event_type_rank_iff

pub record SyncAuditEvent : Type 0 where
  pub event_id : String
  pub operation_id : String
  pub event_type : SyncAuditEventType
  pub entity_type : SyncEntityType
  pub entity_id : String
  pub actor_id : String
  pub timestamp : ℕ
  pub status : SyncStatus
  pub error_code : Option String
  pub state_version : Option ℕ
  pub details : Option String
