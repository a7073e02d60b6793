-- ===== src/Sync/Limits.antt =====
-- What a synchronised operation on an incident cannot do.
use ai_powered_respiratory_h.Base.{
  ℕ, String, true, ◌≡◌, inl, inr, refl, sym, ap, subst, [], ◌∷◌, string, Option, none, some, Result,
  ok, raise, Exception, lookup, ◌==◌, string_eq, Dict, Value, Option-cases, Bool-cases,
}
use ai_powered_respiratory_h.Governance.Roles.{Actor}
use ai_powered_respiratory_h.Incidents.Records.{IncidentRecord, IncidentStore}
use ai_powered_respiratory_h.Incidents.Service.{get_incident, offered, is_outdated}
use ai_powered_respiratory_h.Sync.Contracts.{
  SyncStatus, SyncEntityType, SyncOperationType, SyncOperation,
}
use ai_powered_respiratory_h.Sync.Idempotency.{check_and_register}
use ai_powered_respiratory_h.Sync.Conflict.{
  IsFresh, IsClear, evaluate_conflict, evaluate_conflict-IsClear,
}
use ai_powered_respiratory_h.Sync.Domain.{
  SyncEnvironment, apply_domain_mutation, fail_update, status_failure,
}
use ai_powered_respiratory_h.Sync.Processor.{
  SyncStore, commit_operation, server_entity, unless_conflict, unless_known, unless_refused,
  process_single_operation, may_synchronize,
}

-- An operation that nothing before the incident service turns down: its schema and its actor are
-- allowed, it is new, and it updates or deletes a stored incident from a fresh base version or none.
abbrev pub IsAdmitted : SyncOperation → Actor → IncidentRecord → SyncStore → Type 0
IsAdmitted op actor r s =
    ((op.schema_version == "1.0.0") ≡ true)
    × (may_synchronize actor.role ≡ true)
    × (lookup op.operation_id s.idempotency_store ≡ none)
    × (op.entity_type ≡ SyncEntityType.incident)
    × (lookup op.entity_id s.incident_service.incidents ≡ some r)
    × IsFresh op.base_state_version s.incident_service.digital_twin.version

found_incident :
    (e : SyncEntityType) (id : String) (r : IncidentRecord) (s : IncidentStore)
    → e ≡ SyncEntityType.incident
    → lookup id s.incidents ≡ some r
    → server_entity e id s ≡ some (offered r)
unfolding get_incident
found_incident e id r s same found = rw (same, found) refl

-- A call that raised and wrote nothing.
abbrev Raises : {A : Type 0} → IncidentStore → Result A × IncidentStore → Type 0
Raises s p = (e : Exception) × (p ≡ (raise e, s))

fail_update-Raises :
    (id : String) (base : Option ℕ) (x : Exception) (s : IncidentStore)
    → Raises s (fail_update id base x s)
unfolding fail_update get_incident
fail_update-Raises id base x s = elim (Option-cases (lookup id s.incidents)) [
  | inl absent ↦ rw absent (_, refl)
  | inr (r, found) ↦ elim (Bool-cases (is_outdated base r.state_version)) [
    | inl old ↦ rw (found, old) (_, refl)
    | inr current ↦ rw (found, current) (_, refl)
  ]
]

module _ (env : SyncEnvironment) (now : ℕ) (op : SyncOperation) (actor : Actor) where
  delete_accepted :
      (e : SyncEntityType) (k : SyncOperationType) (s : IncidentStore)
      → e ≡ SyncEntityType.incident
      → k ≡ SyncOperationType.delete
      → apply_domain_mutation env now e k op actor s ≡ (ok (("status", string "SUCCESS") ∷ []), s)
  unfolding apply_domain_mutation
  delete_accepted e k s same kind = rw (same, kind) refl

  set_status-Raises :
      (e : SyncEntityType) (k : SyncOperationType) (status : Value) (s : IncidentStore)
      → e ≡ SyncEntityType.incident
      → k ≡ SyncOperationType.update
      → lookup "status" op.payload.entries ≡ some status
      → Raises s (apply_domain_mutation env now e k op actor s)
  unfolding apply_domain_mutation
  set_status-Raises e k status s same kind there =
      let (x, ran) =
        fail_update-Raises op.entity_id op.base_state_version (status_failure status) s in
      rw (same, kind, there, ran) (x, refl)

  rejected_with :
      (s : SyncStore) (outcome : Result (Dict Value) × IncidentStore)
      → Raises s.incident_service outcome
      → let (result, t) = commit_operation env now op actor s outcome in
        (result.status ≡ SyncStatus.rejected) × (t.incident_service ≡ s.incident_service)
  unfolding commit_operation
  rejected_with s outcome (e, ran) = rw ran (refl, refl)

  accepted_with :
      (s : SyncStore) (outcome : Result (Dict Value) × IncidentStore) (d : Dict Value)
      → outcome ≡ (ok d, s.incident_service)
      → let (result, t) = commit_operation env now op actor s outcome in
        (result.status ≡ SyncStatus.accepted) × (t.incident_service ≡ s.incident_service)
  unfolding commit_operation
  accepted_with s outcome d ran = rw ran (refl, refl)

module _ (env : SyncEnvironment) (now : ℕ) (op : SyncOperation) (actor : Actor) (r : IncidentRecord)
    (s : SyncStore) (admitted : IsAdmitted op actor r s) where
  no_conflict :
      IsClear op.operation_type op.base_state_version s.incident_service.digital_twin.version
        (some (offered r))
      → evaluate_conflict env.encode op s.incident_service.digital_twin.version
          (server_entity op.entity_type op.entity_id s.incident_service)
        ≡ none
  no_conflict allowed =
      subst (λ o. evaluate_conflict env.encode op s.incident_service.digital_twin.version o ≡ none)
        (sym
          (found_incident op.entity_type op.entity_id r s.incident_service admitted.3 admitted.4))
        ((evaluate_conflict-IsClear env.encode op s.incident_service.digital_twin.version
            (some (offered r))).1
          allowed)

  reaches :
      IsClear op.operation_type op.base_state_version s.incident_service.digital_twin.version
        (some (offered r))
      → process_single_operation env now op actor s
        ≡ commit_operation env now op actor s (
            apply_domain_mutation env now op.entity_type op.operation_type op actor
              s.incident_service)
  unfolding process_single_operation unless_refused unless_known unless_conflict check_and_register
  reaches allowed =
      rw (admitted.0, admitted.1, admitted.2)
        (ap (λ o. unless_conflict env now op actor o s) (no_conflict allowed))

  clear :
      (k : SyncOperationType)
      → op.operation_type ≡ k
      → IsClear k op.base_state_version s.incident_service.digital_twin.version (some (offered r))
      → IsClear op.operation_type op.base_state_version s.incident_service.digital_twin.version
          (some (offered r))
  clear k kind h =
      subst
        (λ m.
          IsClear m op.base_state_version s.incident_service.digital_twin.version
            (some (offered r)))
        (sym kind) h

  -- Two limits of an operation on an incident that nothing before the incident service turns down. A
  -- deletion is accepted, and yet the incidents and the digital twin stay as they were. An update whose
  -- payload has a status is rejected, whatever the status, and the incidents and the digital twin stay
  -- as they were.
  pub process_single_operation_limits :
      let (result, t) = process_single_operation env now op actor s in
      (op.operation_type ≡ SyncOperationType.delete
        → (result.status ≡ SyncStatus.accepted) × (t.incident_service ≡ s.incident_service))
      × ((status : Value)
          → op.operation_type ≡ SyncOperationType.update
          → lookup "status" op.payload.entries ≡ some status
          → (result.status ≡ SyncStatus.rejected) × (t.incident_service ≡ s.incident_service))
  process_single_operation_limits = (
    λ kind. rw (reaches (clear SyncOperationType.delete kind admitted.5)) (
        accepted_with env now op actor s _ _ (
          delete_accepted env now op actor op.entity_type op.operation_type s.incident_service
            admitted.3 kind)),
    λ status kind there. rw (reaches (clear SyncOperationType.update kind admitted.5)) (
        rejected_with env now op actor s _ (
          set_status-Raises env now op actor op.entity_type op.operation_type status
            s.incident_service admitted.3 kind there)),
  )
