-- ===== src/Sync/Atomic.antt =====
-- What an operation that is not accepted leaves, and the histories of incidents under a batch.
use ai_powered_respiratory_h.Base.{
  ℕ, String, Bool, true, false, ◌≡◌, ◌⊎◌, inl, inr, refl, subst, sym, List, [], ◌∷◌, Option, none,
  some, lookup, Result, ok, raise, Exception, continue, pure, state_version_conflict,
  attribute_error, Dict, Value, null, Bool-cases, Option-cases,
}
use ai_powered_respiratory_h.Governance.Roles.{Actor}
use ai_powered_respiratory_h.Twin.Handling.{Clock, later}
use ai_powered_respiratory_h.Incidents.Records.{Incident, IncidentStore}
use ai_powered_respiratory_h.Incidents.Service.{is_outdated, get_incident, create_incident}
use ai_powered_respiratory_h.Incidents.Details.{update_incident_details}
use ai_powered_respiratory_h.Incidents.Changes.{open_incident, set_details, handle}
use ai_powered_respiratory_h.Incidents.History.{IsAudited, handle-IsAudited}
use ai_powered_respiratory_h.Incidents.Atomic.{
  IsAtomic, raise_if-IsAtomic, read-IsAtomic, create_incident-IsAtomic,
  update_incident_details-IsAtomic,
}
use ai_powered_respiratory_h.Sync.Contracts.{
  SyncStatus, SyncEntityType, SyncOperationType, SyncOperation, SyncOperationResult, SyncPayload,
}
use ai_powered_respiratory_h.Sync.Idempotency.{IdempotencyRecord}
use ai_powered_respiratory_h.Sync.Conflict.{Conflict}
use ai_powered_respiratory_h.Sync.Domain.{
  SyncEnvironment, create_from, update_from, update_details_from, fail_update, status_failure,
  apply_domain_mutation,
}
use ai_powered_respiratory_h.Sync.Processor.{
  SyncStore, commit_operation, unless_conflict, unless_known, unless_refused,
  process_single_operation,
}
use ai_powered_respiratory_h.Sync.Batch.{Counts, process_operations, process_batch}

-- What a call of the incident service keeps: the histories, and everything if it raises.
abbrev Keeps : {A : Type 0} → IncidentStore → Result A × IncidentStore → Type 0
Keeps s p = IsAtomic s p × IsAudited p.1

mapped-Keeps :
    {A B : Type 0} (s : IncidentStore) (p : Result A × IncidentStore) (f : A → B)
    → Keeps s p
    → Keeps s (continue p (λ a. pure (f a)))
mapped-Keeps s (ok a, t) f h = h
mapped-Keeps s (raise e, t) f h = h

created-IsAudited :
    (now : ℕ) (i : Incident) (actor : String) (s : IncidentStore)
    → IsAudited s
    → IsAudited (create_incident now i actor s).1
unfolding handle
created-IsAudited now i actor s audited = handle-IsAudited (open_incident now i actor) s audited

updated-Keeps :
    (now : ℕ) (id : String) (payload : SyncPayload) (base : Option ℕ) (s : IncidentStore)
    → IsAudited s
    → Keeps s (
        update_incident_details now id none payload.description payload.priority base "COORDINATOR"
          s)
unfolding handle
updated-Keeps now id payload base s audited = (
  update_incident_details-IsAtomic now id none payload.description payload.priority base
      "COORDINATOR" s audited,
  handle-IsAudited (set_details now id none payload.description payload.priority base "COORDINATOR")
      s audited,
)

fail_update_same :
    (id : String) (base : Option ℕ) (x : Exception) (s : IncidentStore)
    → (fail_update id base x s).1 ≡ s
unfolding fail_update get_incident
fail_update_same id base x s = elim (Option-cases (lookup id s.incidents)) [
  | inl absent ↦ rw absent refl
  | inr (r, found) ↦ elim (Bool-cases (is_outdated base r.state_version)) [
    | inl old ↦ rw (found, old) refl
    | inr current ↦ rw (found, current) refl
  ]
]

fail_update-Keeps :
    (id : String) (base : Option ℕ) (x : Exception) (s : IncidentStore)
    → IsAudited s
    → Keeps s (fail_update id base x s)
unfolding fail_update
fail_update-Keeps id base x s audited = (
  read-IsAtomic id _ s λ r found.
      raise_if-IsAtomic (is_outdated base r.state_version) state_version_conflict _ s
        (λ current. refl),
  subst IsAudited (sym (fail_update_same id base x s)) audited,
)

create_from-Keeps :
    (now : ℕ) (actor : Actor) (parsed : Result Incident) (s : IncidentStore)
    → IsAudited s
    → Keeps s (create_from now actor parsed s)
create_from-Keeps now actor (raise e) s audited = (refl, audited)
create_from-Keeps now actor (ok i) s audited = (
  create_incident-IsAtomic now i actor.actor_id s,
  created-IsAudited now i actor.actor_id s audited,
)

update_details_from-Keeps :
    (now : ℕ) (id : String) (payload : SyncPayload) (base : Option ℕ) (o : Option Value)
    (s : IncidentStore)
    → IsAudited s
    → Keeps s (update_details_from now id payload base o s)
unfolding update_details_from
update_details_from-Keeps now id payload base none s audited =
    updated-Keeps now id payload base s audited
update_details_from-Keeps now id payload base (some null) s audited =
    updated-Keeps now id payload base s audited
update_details_from-Keeps now id payload base (some _) s audited =
    fail_update-Keeps id base attribute_error s audited

update_from-Keeps :
    (now : ℕ) (op : SyncOperation) (o : Option Value) (s : IncidentStore)
    → IsAudited s
    → Keeps s (update_from now op o s)
update_from-Keeps now op none s audited =
    update_details_from-Keeps now op.entity_id op.payload op.base_state_version _ s audited
update_from-Keeps now op (some status) s audited =
    fail_update-Keeps op.entity_id op.base_state_version (status_failure status) s audited

-- The operation was accepted, or the incidents, the digital twin and the registry are as before.
abbrev pub IsSettled : SyncStore → SyncOperationResult × SyncStore → Type 0
IsSettled s (result, t) =
    (result.status ≡ SyncStatus.accepted)
    ⊎ ((t.incident_service ≡ s.incident_service) × (t.idempotency_store ≡ s.idempotency_store))

abbrev Settles : SyncStore → SyncOperationResult × SyncStore → Type 0
Settles s p = IsSettled s p × IsAudited p.1.incident_service

module _ (env : SyncEnvironment) (now : ℕ) (actor : Actor) where
  apply_domain_mutation-Keeps :
      (entity : SyncEntityType) (kind : SyncOperationType) (op : SyncOperation) (s : IncidentStore)
      → IsAudited s
      → Keeps s (apply_domain_mutation env now entity kind op actor s)
  unfolding apply_domain_mutation
  apply_domain_mutation-Keeps SyncEntityType.incident SyncOperationType.create op s audited =
      mapped-Keeps s _ env.fields (create_from-Keeps now actor _ s audited)
  apply_domain_mutation-Keeps SyncEntityType.incident SyncOperationType.update op s audited =
      mapped-Keeps s _ env.fields (update_from-Keeps now op _ s audited)
  apply_domain_mutation-Keeps SyncEntityType.incident SyncOperationType.delete op s audited =
      (tt, audited)
  apply_domain_mutation-Keeps SyncEntityType.evidence _ op s audited = (tt, audited)
  apply_domain_mutation-Keeps SyncEntityType.resource_request _ op s audited = (tt, audited)
  apply_domain_mutation-Keeps SyncEntityType.status_update _ op s audited = (tt, audited)

  commit_operation-Settles :
      (op : SyncOperation) (s : SyncStore) (outcome : Result (Dict Value) × IncidentStore)
      → Keeps s.incident_service outcome
      → Settles s (commit_operation env now op actor s outcome)
  unfolding commit_operation
  commit_operation-Settles op s (raise e, t) (same, audited) = (inr (same, refl), audited)
  commit_operation-Settles op s (ok d, t) (atomic, audited) = (inl refl, audited)

  unless_conflict-Settles :
      (op : SyncOperation) (o : Option Conflict) (s : SyncStore)
      → IsAudited s.incident_service
      → Settles s (unless_conflict env now op actor o s)
  unfolding unless_conflict
  unless_conflict-Settles op none s audited =
      commit_operation-Settles op s _
        (apply_domain_mutation-Keeps op.entity_type op.operation_type op s.incident_service audited)
  unless_conflict-Settles op (some (kind, reason, diff)) s audited = (inr (refl, refl), audited)

  unless_known-Settles :
      (op : SyncOperation) (o : Result (Option IdempotencyRecord)) (s : SyncStore)
      → IsAudited s.incident_service
      → Settles s (unless_known env now op actor o s)
  unfolding unless_known
  unless_known-Settles op (raise e) s audited = (inr (refl, refl), audited)
  unless_known-Settles op (ok (some existing)) s audited = (inr (refl, refl), audited)
  unless_known-Settles op (ok none) s audited = unless_conflict-Settles op _ s audited

  unless_refused-Settles :
      (op : SyncOperation) (supported permitted : Bool) (s : SyncStore)
      → IsAudited s.incident_service
      → Settles s (unless_refused env now op actor supported permitted s)
  unfolding unless_refused
  unless_refused-Settles op false permitted s audited = (inr (refl, refl), audited)
  unless_refused-Settles op true false s audited = (inr (refl, refl), audited)
  unless_refused-Settles op true true s audited = unless_known-Settles op _ s audited

  -- Where every incident has its history, an operation is accepted, or it leaves the incidents, the
  -- digital twin and the registry of processed operations as they were.
  pub process_single_operation-IsSettled :
      (op : SyncOperation) (s : SyncStore)
      → IsAudited s.incident_service
      → IsSettled s (process_single_operation env now op actor s)
  unfolding process_single_operation
  process_single_operation-IsSettled op s audited = (unless_refused-Settles op _ _ s audited).0

  pub process_single_operation-IsAudited :
      (op : SyncOperation) (s : SyncStore)
      → IsAudited s.incident_service
      → IsAudited (process_single_operation env now op actor s).1.incident_service
  unfolding process_single_operation
  process_single_operation-IsAudited op s audited = (unless_refused-Settles op _ _ s audited).1

module _ (env : SyncEnvironment) (actor : Actor) where
  process_operations-IsAudited :
      (clock : Clock) (operations : List SyncOperation) (c : Counts) (s : SyncStore)
      → IsAudited s.incident_service
      → IsAudited (process_operations env clock operations actor c s).2.incident_service
  unfolding process_operations
  process_operations-IsAudited clock [] c s audited = audited
  process_operations-IsAudited clock (op ∷ operations) c s audited =
      process_operations-IsAudited (later clock) operations _ _
        (process_single_operation-IsAudited env (clock 0) actor op s audited)

  -- A batch keeps the audit of the incident service: if every incident's history has exactly one entry
  -- for each version of it, in order, up to the present one, that is so after any batch of operations,
  -- accepted or not.
  pub process_batch-IsAudited :
      (clock : Clock) (batch_id : String) (operations : List SyncOperation) (s : SyncStore)
      → IsAudited s.incident_service
      → IsAudited (process_batch env clock batch_id operations actor s).1.incident_service
  unfolding process_batch
  process_batch-IsAudited clock batch_id operations s audited =
      process_operations-IsAudited (later clock) operations _ s audited
