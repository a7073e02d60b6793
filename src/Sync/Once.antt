-- ===== src/Sync/Once.antt =====
-- An accepted operation is carried out once.
use text.Mathlib.TextPositions.{eq_refl}
use ai_powered_respiratory_h.Base.{
  ℕ, Bool, true, false, ◌≡◌, refl, ap, Option, none, some, Result, ok, raise, ◌==◌, string_eq,
  lookup, lookup-insert_self, Dict, Value,
}
use ai_powered_respiratory_h.Governance.Roles.{Actor}
use ai_powered_respiratory_h.Incidents.Records.{IncidentStore}
use ai_powered_respiratory_h.Sync.Contracts.{
  accepted, duplicate, SyncOperation, SyncOperationResult, SyncAuditEvent,
}
use ai_powered_respiratory_h.Sync.Idempotency.{
  IdempotencyRecord, IdempotencyStore, check_and_register, save_record,
}
use ai_powered_respiratory_h.Sync.Conflict.{Conflict}
use ai_powered_respiratory_h.Sync.Domain.{SyncEnvironment}
use ai_powered_respiratory_h.Sync.Processor.{
  SyncStore, log, commit_operation, unless_conflict, unless_known, unless_refused,
  process_single_operation, may_synchronize,
}

-- The registry answers a repetition of an operation with a result.
abbrev pub IsSaved :
    SyncEnvironment → SyncOperation → SyncOperationResult → IdempotencyStore → Type 0
IsSaved env op result s =
    (saved : IdempotencyRecord) × (lookup op.operation_id s ≡ some saved)
    × (saved.request_hash ≡ env.compute_payload_hash op.payload.entries)
    × (saved.cached_result ≡ result)

module _ (env : SyncEnvironment) (now : ℕ) (op : SyncOperation) (actor : Actor)
    (s : SyncStore) where
  abbrev Saves : SyncOperationResult × SyncStore → Type 0
  Saves (result, t) = result.status ≡ accepted → IsSaved env op result t.idempotency_store

  commit_operation-Saves :
      (outcome : Result (Dict Value) × IncidentStore)
      → Saves (commit_operation env now op actor s outcome)
  unfolding commit_operation save_record
  commit_operation-Saves (raise e, t) done = cc
  commit_operation-Saves (ok d, t) done =
      (_, lookup-insert_self op.operation_id _ s.idempotency_store, refl, refl)

  unless_conflict-Saves : (o : Option Conflict) → Saves (unless_conflict env now op actor o s)
  unfolding unless_conflict
  unless_conflict-Saves none done = commit_operation-Saves _ done
  unless_conflict-Saves (some (kind, reason, diff)) done = cc

  unless_known-Saves :
      (o : Result (Option IdempotencyRecord)) → Saves (unless_known env now op actor o s)
  unfolding unless_known
  unless_known-Saves (raise e) done = cc
  unless_known-Saves (ok (some existing)) done = cc
  unless_known-Saves (ok none) done = unless_conflict-Saves _ done

  unless_refused-Saves :
      (supported permitted : Bool)
      → (unless_refused env now op actor supported permitted s).0.status ≡ accepted
      → (supported ≡ true)
        × IsSaved env op
            (unless_refused env now op actor supported permitted s).0
            (unless_refused env now op actor supported permitted s).1.idempotency_store
  unfolding unless_refused
  unless_refused-Saves false permitted done = cc
  unless_refused-Saves true false done = cc
  unless_refused-Saves true true done = (refl, unless_known-Saves _ done)

-- A repetition is answered from the registry, and adds an entry to the log alone.
abbrev pub IsRepeated : SyncOperationResult → SyncStore → SyncOperationResult × SyncStore → Type 0
IsRepeated result t (again, u) =
    (again ≡ record result { status = duplicate }) × ((e : SyncAuditEvent) × (u ≡ log e t))

abbrev as_duplicate : SyncOperationResult → SyncOperationResult
as_duplicate r = record r { status = duplicate }

repeated :
    (env : SyncEnvironment) (now : ℕ) (op : SyncOperation) (actor : Actor)
    (result : SyncOperationResult) (t : SyncStore)
    → (op.schema_version == "1.0.0") ≡ true
    → may_synchronize actor.role ≡ true
    → IsSaved env op result t.idempotency_store
    → IsRepeated result t (process_single_operation env now op actor t)
unfolding process_single_operation unless_refused unless_known check_and_register
repeated env now op actor result t supported permitted (saved, there, hash, cached) =
    rw (supported, permitted, there, hash, eq_refl) (ap as_duplicate cached, (_, refl))

-- If an operation is accepted, then submitting it again, later and by anyone who may synchronize, is
-- answered by the same result with the status DUPLICATE, and leaves the incidents, the digital twin
-- and the registry as they were; the log takes one entry.
pub process_single_operation_once :
    (env : SyncEnvironment) (now later : ℕ) (op : SyncOperation) (first second : Actor)
    (s : SyncStore)
    → let (result, t) = process_single_operation env now op first s in
      result.status ≡ accepted
      → may_synchronize second.role ≡ true
      → IsRepeated result t (process_single_operation env later op second t)
unfolding process_single_operation
process_single_operation_once env now later op first second s done permitted =
    let (supported, saved) =
      unless_refused-Saves env now op first s (op.schema_version == "1.0.0")
        (may_synchronize first.role) done in
    repeated env later op second _ _ supported permitted saved
