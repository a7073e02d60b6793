-- ===== src/Tests/Batches.antt =====
-- A field officer's batch: an incident reported twice, then its deletion.
use ai_powered_respiratory_h.Base.{
  ◌+◌, String, ◌≡◌, ◌↔◌, refl, List, [], ◌∷◌, none, some, lookup, insert, ok, Dict, Value, string,
  document, or_else, to_text, decimal, length,
}
use ai_powered_respiratory_h.Governance.Roles.{Actor, field_officer, commander}
use ai_powered_respiratory_h.Twin.State.{new_twin, commit_event}
use ai_powered_respiratory_h.Twin.Handling.{Clock, conclude, report}
use ai_powered_respiratory_h.Twin.Apply.{apply_event, dispatch, handle_incident_created}
use ai_powered_respiratory_h.Incidents.Service.{
  on_twin, store_new, create_incident, get_incident, new_record,
}
use ai_powered_respiratory_h.Incidents.History.{IsAudited}
use ai_powered_respiratory_h.Tests.Incidents.{blocked_road, nothing, one}
use ai_powered_respiratory_h.Sync.Contracts.{
  SyncStatus, SyncEntityType, SyncOperationType, SyncOperation,
}
use ai_powered_respiratory_h.Sync.Idempotency.{check_and_register, save_record}
use ai_powered_respiratory_h.Sync.Ledger.{record_sync_event}
use ai_powered_respiratory_h.Sync.Conflict.{IsClear, evaluate_conflict, evaluate_conflict-IsClear}
use ai_powered_respiratory_h.Sync.Domain.{SyncEnvironment, apply_domain_mutation}
use ai_powered_respiratory_h.Sync.Processor.{
  SyncStore, commit_operation, unless_conflict, unless_known, unless_refused,
  process_single_operation,
}
use ai_powered_respiratory_h.Sync.Batch.{process_batch}
use ai_powered_respiratory_h.Sync.Record.{
  AreLogged, how_many, is_accepted, is_duplicate, is_conflict, is_rejected, process_batch-AreLogged,
}
use ai_powered_respiratory_h.Sync.Once.{IsRepeated, process_single_operation_once}
use ai_powered_respiratory_h.Sync.Atomic.{IsSettled, process_single_operation-IsSettled}
use ai_powered_respiratory_h.Sync.Limits.{process_single_operation_limits}

abbrev clock : Clock
clock k = 1000 + k

abbrev environment : SyncEnvironment
environment = record {
  compute_payload_hash = λ p. to_text (or_else (lookup "description" p) (string ""));
  parse_incident = λ p. ok blocked_road;
  encode = λ r. document r.incident.incident_id;
  fields = λ r. ("incident_id", string r.incident.incident_id) ∷ [];
  message = λ n. "message";
  details = λ n. "details";
  event_stamp = λ now. decimal now;
  iso = λ now. decimal now;
}

abbrev empty : SyncStore
empty = record { incident_service = nothing; idempotency_store = []; event_ledger = [] }

abbrev reported : SyncStore
reported = record { incident_service = one; idempotency_store = []; event_ledger = [] }

abbrev officer : Actor
officer = record { actor_id = "OFFICER-1"; role = field_officer }

abbrev chief : Actor
chief = record { actor_id = "CHIEF-1"; role = commander }

abbrev operation : String → SyncOperationType → Dict Value → SyncOperation
operation id kind payload = record {
  operation_id = id;
  entity_type = SyncEntityType.incident;
  entity_id = "INC-1";
  operation_type = kind;
  payload = record { entries = payload; description = none; priority = none };
  schema_version = "1.0.0";
  base_state_version = none;
}

abbrev reporting : SyncOperation
reporting =
    operation "OP-1" SyncOperationType.create (("description", string "Road under water") ∷ [])

abbrev deleting : SyncOperation
deleting = operation "OP-2" SyncOperationType.delete []

abbrev operations : List SyncOperation
operations = reporting ∷ reporting ∷ deleting ∷ []

nothing-IsAudited : IsAudited nothing
unfolding lookup
nothing-IsAudited id r there = cc

process_batch-AreLogged_example :
    let (response, t) = process_batch environment clock "BATCH-1" operations officer empty in
    AreLogged operations empty response.results t
    × (length response.results ≡ 3)
    × (response.accepted_count ≡ how_many is_accepted response.results)
    × (response.duplicate_count ≡ how_many is_duplicate response.results)
    × (response.conflict_count ≡ how_many is_conflict response.results)
    × (response.rejected_count ≡ how_many is_rejected response.results)
    × (response.total_operations
        ≡ response.accepted_count + response.duplicate_count + response.conflict_count
          + response.rejected_count)
process_batch-AreLogged_example =
    process_batch-AreLogged environment officer clock "BATCH-1" operations empty

process_single_operation-IsSettled_example :
    IsSettled empty (process_single_operation environment 1000 deleting officer empty)
process_single_operation-IsSettled_example =
    process_single_operation-IsSettled environment 1000 officer deleting empty nothing-IsAudited

evaluate_conflict-IsClear_example :
    (evaluate_conflict environment.encode deleting 7 none ≡ none)
    ↔ IsClear SyncOperationType.delete none 7 none
evaluate_conflict-IsClear_example = evaluate_conflict-IsClear environment.encode deleting 7 none

process_single_operation_once_example :
    let (result, t) = process_single_operation environment 1000 reporting officer empty in
    IsRepeated result t (process_single_operation environment 1100 reporting chief t)
unfolding process_single_operation unless_refused unless_known check_and_register unless_conflict
    evaluate_conflict get_incident lookup commit_operation apply_domain_mutation create_incident
    on_twin store_new apply_event dispatch handle_incident_created conclude report commit_event
    new_twin insert save_record record_sync_event
process_single_operation_once_example =
    process_single_operation_once environment 1000 1100 reporting officer chief empty refl refl

process_single_operation_limits_example :
    let (result, t) = process_single_operation environment 1100 deleting officer reported in
    (SyncOperationType.delete ≡ SyncOperationType.delete
      → (result.status ≡ SyncStatus.accepted) × (t.incident_service ≡ one))
    × ((status : Value)
        → SyncOperationType.delete ≡ SyncOperationType.update
        → lookup {V = Value} "status" [] ≡ some status
        → (result.status ≡ SyncStatus.rejected) × (t.incident_service ≡ one))
unfolding create_incident on_twin store_new apply_event dispatch handle_incident_created conclude
    report commit_event new_twin insert lookup
process_single_operation_limits_example =
    process_single_operation_limits environment 1100 deleting officer (new_record 1000 blocked_road)
      reported (refl, refl, refl, refl, refl, tt)
