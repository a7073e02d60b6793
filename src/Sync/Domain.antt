-- ===== src/Sync/Domain.antt =====
-- services/sync/queue/processor.py: `_apply_domain_mutation`, which passes an operation on to the
-- incident service. Library code and the texts of messages are fields of `SyncEnvironment`.
use ai_powered_respiratory_h.Base.{
  ℕ, String, [], ◌∷◌, Option, none, some, lookup, Dict, Value, null, string, document, Exception,
  attribute_error, type_error, Result, ok, raise, Action, pure, throw, ◌>>=◌, ◌>>◌, raise_if,
  string_eq, state_version_conflict,
}
use ai_powered_respiratory_h.Governance.Roles.{UserRole, Actor}
use ai_powered_respiratory_h.Incidents.Records.{Incident, IncidentRecord, IncidentStore}
use ai_powered_respiratory_h.Incidents.Service.{create_incident, get_incident, is_outdated}
use ai_powered_respiratory_h.Incidents.Details.{update_incident_details}
use ai_powered_respiratory_h.Sync.Contracts.{
  SyncEntityType, SyncOperationType, SyncOperation, SyncPayload,
}
use ai_powered_respiratory_h.Sync.Conflict.{Reason}

-- What the texts of a message and of a ledger entry are made of.
pub data Notice : Type 0 where
  unsupported_schema : (version : String) → Notice
  unauthorized_role : UserRole → Notice
  recognized : Notice
  key_reused : (id : String) → Notice
  conflicting : Reason → Notice
  committed : SyncOperation → Notice
  failed : Exception → Notice

pub record SyncEnvironment : Type 0 where
  pub compute_payload_hash : Dict Value → String
  -- `Incident(**payload)`
  pub parse_incident : Dict Value → Result Incident
  pub encode : IncidentRecord → Value
  -- `dict` of a record
  pub fields : IncidentRecord → Dict Value
  pub message : Notice → String
  pub details : Notice → String
  -- The identifier of a ledger entry, from the time.
  pub event_stamp : ℕ → String
  -- An ISO text of a time.
  pub iso : ℕ → String

-- `update_incident_status` with the status of a payload, which is no member of the enumeration: its
-- record is found and its version checked, and then a text, a number or `None` has no `value`, and a
-- list or dictionary cannot be looked up in a set. Nothing is written before.
abbrev pub status_failure : Value → Exception
status_failure (document _) = type_error
status_failure _ = attribute_error

-- An update that reads the record, checks its version, and raises.
unfoldable pub fail_update : String → Option ℕ → Exception → Action IncidentStore IncidentRecord
fail_update id base failure = get_incident id >>= λ r.
    raise_if (is_outdated base r.state_version) state_version_conflict >> throw failure

-- `update_incident_details` with the entries of a payload: a severity other than `None` has no `value`.
unfoldable pub update_details_from :
    ℕ → String → SyncPayload → Option ℕ → Option Value → Action IncidentStore IncidentRecord
update_details_from now id payload base none =
    update_incident_details now id none payload.description payload.priority base "COORDINATOR"
update_details_from now id payload base (some null) =
    update_incident_details now id none payload.description payload.priority base "COORDINATOR"
update_details_from now id payload base (some severity) = fail_update id base attribute_error

abbrev pub update_from : ℕ → SyncOperation → Option Value → Action IncidentStore IncidentRecord
update_from now op none =
    update_details_from now op.entity_id op.payload op.base_state_version
      (lookup "severity" op.payload.entries)
update_from now op (some status) =
    fail_update op.entity_id op.base_state_version (status_failure status)

-- `create_incident(Incident(**payload))`
abbrev pub create_from : ℕ → Actor → Result Incident → Action IncidentStore IncidentRecord
create_from now actor (ok i) = create_incident now i actor.actor_id
create_from now actor (raise e) = throw e

module _ (env : SyncEnvironment) where
  -- `_apply_domain_mutation`. An operation that no branch handles changes nothing.
  unfoldable pub apply_domain_mutation :
      ℕ
      → SyncEntityType
      → SyncOperationType
      → SyncOperation
      → Actor
      → Action IncidentStore (Dict Value)
  apply_domain_mutation now SyncEntityType.incident SyncOperationType.create op actor =
      create_from now actor (env.parse_incident op.payload.entries) >>= λ r. pure (env.fields r)
  apply_domain_mutation now SyncEntityType.incident SyncOperationType.update op actor =
      update_from now op (lookup "status" op.payload.entries) >>= λ r. pure (env.fields r)
  apply_domain_mutation now SyncEntityType.resource_request _ op actor = pure (
      ("request_id", string op.entity_id)
      ∷ ("status", string "SUBMITTED")
      ∷ ("synced_at", string (env.iso now))
      ∷ [])
  apply_domain_mutation now SyncEntityType.evidence _ op actor = pure (
      ("evidence_id", string op.entity_id)
      ∷ ("status", string "REGISTERED")
      ∷ ("synced_at", string (env.iso now))
      ∷ [])
  apply_domain_mutation now _ _ op actor = pure (("status", string "SUCCESS") ∷ [])
