-- ===== src/Sync/Processor.antt =====
-- services/sync/queue/processor.py: the processing of one operation of a batch. The digital twin is that
-- of the incident service, as `SyncQueueProcessor()` makes them.
use ai_powered_respiratory_h.Base.{
  ℕ, String, Bool, true, false, Option, none, some, Dict, Value, Result, ok, raise, ◌==◌, string_eq,
}
use ai_powered_respiratory_h.Governance.Roles.{
  UserRole, field_officer, operator, commander, admin, Actor,
}
use ai_powered_respiratory_h.Incidents.Records.{IncidentRecord, IncidentStore}
use ai_powered_respiratory_h.Incidents.Service.{get_incident}
use ai_powered_respiratory_h.Sync.Contracts.{
  SyncEntityType, SyncStatus, SyncConflictType, SyncOperation, SyncOperationResult, SyncAuditEvent,
  SyncAuditEventType, entity_type_value, operation_type_value, conflict_type_value,
}
use ai_powered_respiratory_h.Sync.Idempotency.{
  IdempotencyRecord, IdempotencyStore, check_and_register, save_record,
}
use ai_powered_respiratory_h.Sync.Ledger.{SyncEventLedger, record_sync_event}
use ai_powered_respiratory_h.Sync.Conflict.{Conflict, evaluate_conflict}
use ai_powered_respiratory_h.Sync.Domain.{
  Notice, unsupported_schema, unauthorized_role, recognized, key_reused, conflicting, committed,
  failed, SyncEnvironment, apply_domain_mutation,
}

pub record SyncStore : Type 0 where
  pub incident_service : IncidentStore
  pub idempotency_store : IdempotencyStore
  pub event_ledger : SyncEventLedger

-- `allowed_roles`
abbrev pub may_synchronize : UserRole → Bool
may_synchronize field_officer = true
may_synchronize operator = true
may_synchronize commander = true
may_synchronize admin = true
may_synchronize _ = false

abbrev pub log : SyncAuditEvent → SyncStore → SyncStore
log event s = record s { event_ledger = record_sync_event event s.event_ledger }

-- `server_entity`, only asked for if the operation is about an incident
abbrev found_record : Result IncidentRecord → Option IncidentRecord
found_record (ok r) = some r
found_record (raise e) = none

abbrev pub server_entity : SyncEntityType → String → IncidentStore → Option IncidentRecord
server_entity SyncEntityType.incident id s = found_record (get_incident id s).0
server_entity _ id s = none

module _ (env : SyncEnvironment) where
  -- A ledger entry for an operation.
  abbrev pub entry_for :
      ℕ
      → SyncOperation
      → Actor
      → SyncAuditEventType
      → SyncStatus
      → Option String
      → Option ℕ
      → Notice
      → SyncAuditEvent
  entry_for now op actor event_type status error_code version notice = record {
    event_id = env.event_stamp now;
    operation_id = op.operation_id;
    event_type = event_type;
    entity_type = op.entity_type;
    entity_id = op.entity_id;
    actor_id = actor.actor_id;
    timestamp = now;
    status = status;
    error_code = error_code;
    state_version = version;
    details = some (env.details notice);
  }

  -- The result of an operation that was not accepted.
  abbrev pub refusal :
      ℕ
      → SyncOperation
      → SyncStatus
      → Option SyncConflictType
      → Option (Dict Value)
      → Option ℕ
      → Notice
      → SyncOperationResult
  refusal now op status conflict_type server_state version notice = record {
    operation_id = op.operation_id;
    entity_id = op.entity_id;
    entity_type = op.entity_type;
    status = status;
    server_state_version = version;
    server_timestamp = now;
    message = some (env.message notice);
    conflict_type = conflict_type;
    server_state = server_state;
    result_data = none;
  }

  -- What is answered when an operation is turned down before it reaches its domain service.
  abbrev pub turn_down :
      ℕ
      → SyncOperation
      → Actor
      → SyncAuditEventType
      → SyncStatus
      → String
      → Option SyncConflictType
      → Option (Dict Value)
      → Option ℕ
      → Notice
      → SyncStore
      → SyncOperationResult × SyncStore
  turn_down now op actor event_type status code conflict_type server_state version notice s = (
    refusal now op status conflict_type server_state version notice,
    log (entry_for now op actor event_type status (some code) version notice) s,
  )

  -- 5. to 7. Domain execution; on success the idempotency record and the ledger entry.
  abbrev pub accepted_result : ℕ → SyncOperation → ℕ → Dict Value → SyncOperationResult
  accepted_result now op version data_of = record {
    operation_id = op.operation_id;
    entity_id = op.entity_id;
    entity_type = op.entity_type;
    status = SyncStatus.accepted;
    server_state_version = some version;
    server_timestamp = now;
    message = some (env.message (committed op));
    conflict_type = none;
    server_state = none;
    result_data = some data_of;
  }

  unfoldable pub commit_operation :
      ℕ
      → SyncOperation
      → Actor
      → SyncStore
      → Result (Dict Value) × IncidentStore
      → SyncOperationResult × SyncStore
  commit_operation now op actor s (raise e, incidents) =
      turn_down now op actor SyncAuditEventType.operation_failed SyncStatus.rejected "DOMAIN_ERROR"
        none none none (failed e) (record s { incident_service = incidents })
  commit_operation now op actor s (ok data_of, incidents) =
      let version = incidents.digital_twin.version in
      let result = accepted_result now op version data_of in
      (
        result,
        log
            (entry_for now op actor SyncAuditEventType.operation_accepted SyncStatus.accepted none
              (some version) (committed op))
            (record s {
              incident_service = incidents;
              idempotency_store =
                  (save_record env.compute_payload_hash now op.operation_id op.payload.entries
                    (entity_type_value op.entity_type) op.entity_id
                    (operation_type_value op.operation_type) SyncStatus.accepted result
                    (some version) s.idempotency_store).1;
            }),
      )

  unfoldable pub unless_conflict :
      ℕ → SyncOperation → Actor → Option Conflict → SyncStore → SyncOperationResult × SyncStore
  unless_conflict now op actor (some (kind, reason, diff)) s =
      turn_down now op actor SyncAuditEventType.operation_conflict SyncStatus.conflict
        (conflict_type_value kind) (some kind) (some diff)
        (some s.incident_service.digital_twin.version) (conflicting reason) s
  unless_conflict now op actor none s =
      commit_operation now op actor s
        (apply_domain_mutation env now op.entity_type op.operation_type op actor s.incident_service)

  -- 3. and 4. A repeated operation is answered with its saved result.
  unfoldable pub unless_known :
      ℕ
      → SyncOperation
      → Actor
      → Result (Option IdempotencyRecord)
      → SyncStore
      → SyncOperationResult × SyncStore
  unless_known now op actor (raise e) s =
      turn_down now op actor SyncAuditEventType.operation_conflict SyncStatus.conflict
        "IDEMPOTENCY_KEY_REUSE" (some SyncConflictType.idempotency_key_reuse) none none
        (key_reused op.operation_id) s
  unless_known now op actor (ok (some existing)) s = (
    record existing.cached_result { status = SyncStatus.duplicate },
    log
        (entry_for now op actor SyncAuditEventType.operation_duplicate SyncStatus.duplicate none
          existing.state_version recognized)
        s,
  )
  unless_known now op actor (ok none) s =
      unless_conflict now op actor
        (evaluate_conflict env.encode op s.incident_service.digital_twin.version
          (server_entity op.entity_type op.entity_id s.incident_service))
        s

  unfoldable pub unless_refused :
      ℕ
      → SyncOperation
      → Actor
      → (supported permitted : Bool) → SyncStore
      → SyncOperationResult × SyncStore
  unless_refused now op actor false permitted s =
      turn_down now op actor SyncAuditEventType.operation_rejected SyncStatus.rejected
        "UNSUPPORTED_SCHEMA_VERSION" none none none (unsupported_schema op.schema_version) s
  unless_refused now op actor true false s =
      turn_down now op actor SyncAuditEventType.operation_rejected SyncStatus.rejected
        "UNAUTHORIZED_ROLE" none none none (unauthorized_role actor.role) s
  unless_refused now op actor true true s =
      unless_known now op actor
        (check_and_register env.compute_payload_hash op.operation_id op.payload.entries
          s.idempotency_store).0
        s

  -- `_process_single_operation`
  unfoldable pub process_single_operation :
      ℕ → SyncOperation → Actor → SyncStore → SyncOperationResult × SyncStore
  process_single_operation now op actor s =
      unless_refused now op actor (op.schema_version == "1.0.0") (may_synchronize actor.role) s
