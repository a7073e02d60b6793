-- ===== src/Sync/Record.antt =====
-- What a batch leaves in the log of synchronisation, and what it answers.
use mathlib.Core.List.{append_assoc, append-nil}
use ai_powered_respiratory_h.Base.{
  ℕ, suc, ◌+◌, String, Bool, true, false, ◌≡◌, refl, sym, ap, ◌∙◌, arith, List, [], ◌∷◌, ◌++◌, map,
  Option, none, some, Result, ok, raise, string_eq, length, filter, Dict, Value,
}
use ai_powered_respiratory_h.Governance.Roles.{Actor}
use ai_powered_respiratory_h.Twin.Handling.{Clock, later}
use ai_powered_respiratory_h.Incidents.Records.{IncidentStore}
use ai_powered_respiratory_h.Sync.Contracts.{
  SyncStatus, accepted, duplicate, conflict, rejected, retryable_error, SyncOperation,
  SyncOperationResult, SyncAuditEvent,
}
use ai_powered_respiratory_h.Sync.Idempotency.{IdempotencyRecord}
use ai_powered_respiratory_h.Sync.Ledger.{record_sync_event}
use ai_powered_respiratory_h.Sync.Conflict.{Conflict}
use ai_powered_respiratory_h.Sync.Domain.{SyncEnvironment}
use ai_powered_respiratory_h.Sync.Processor.{
  SyncStore, commit_operation, unless_conflict, unless_known, unless_refused,
  process_single_operation,
}
use ai_powered_respiratory_h.Sync.Batch.{Counts, tally, process_operations, process_batch}

-- One entry of the log for an operation, with the status that its result has.
abbrev pub IsLoggedAs : SyncOperation → Actor → SyncStore → SyncOperationResult × SyncStore → Type 0
IsLoggedAs op actor s (result, t) =
    (e : SyncAuditEvent) × (t.event_ledger ≡ s.event_ledger ++ e ∷ [])
    × (e.operation_id ≡ op.operation_id)
    × (e.actor_id ≡ actor.actor_id)
    × (e.status ≡ result.status)

module _ (env : SyncEnvironment) (now : ℕ) (op : SyncOperation) (actor : Actor)
    (s : SyncStore) where
  commit_operation-IsLoggedAs :
      (outcome : Result (Dict Value) × IncidentStore)
      → IsLoggedAs op actor s (commit_operation env now op actor s outcome)
  unfolding commit_operation record_sync_event
  commit_operation-IsLoggedAs (raise e, t) = (_, refl, refl, refl, refl)
  commit_operation-IsLoggedAs (ok d, t) = (_, refl, refl, refl, refl)

  unless_conflict-IsLoggedAs :
      (o : Option Conflict) → IsLoggedAs op actor s (unless_conflict env now op actor o s)
  unfolding unless_conflict record_sync_event
  unless_conflict-IsLoggedAs none = commit_operation-IsLoggedAs _
  unless_conflict-IsLoggedAs (some (kind, reason, diff)) = (_, refl, refl, refl, refl)

  unless_known-IsLoggedAs :
      (o : Result (Option IdempotencyRecord))
      → IsLoggedAs op actor s (unless_known env now op actor o s)
  unfolding unless_known record_sync_event
  unless_known-IsLoggedAs (raise e) = (_, refl, refl, refl, refl)
  unless_known-IsLoggedAs (ok (some existing)) = (_, refl, refl, refl, refl)
  unless_known-IsLoggedAs (ok none) = unless_conflict-IsLoggedAs _

  unless_refused-IsLoggedAs :
      (supported permitted : Bool)
      → IsLoggedAs op actor s (unless_refused env now op actor supported permitted s)
  unfolding unless_refused record_sync_event
  unless_refused-IsLoggedAs false permitted = (_, refl, refl, refl, refl)
  unless_refused-IsLoggedAs true false = (_, refl, refl, refl, refl)
  unless_refused-IsLoggedAs true true = unless_known-IsLoggedAs _

  process_single_operation-IsLoggedAs :
      IsLoggedAs op actor s (process_single_operation env now op actor s)
  unfolding process_single_operation
  process_single_operation-IsLoggedAs = unless_refused-IsLoggedAs _ _

-- The number of results with a status.
abbrev pub how_many : (SyncStatus → Bool) → List SyncOperationResult → ℕ
how_many test results = length (filter (λ r. test r.status) results)

abbrev pub is_accepted : SyncStatus → Bool
is_accepted accepted = true
is_accepted _ = false

abbrev pub is_duplicate : SyncStatus → Bool
is_duplicate duplicate = true
is_duplicate _ = false

abbrev pub is_conflict : SyncStatus → Bool
is_conflict conflict = true
is_conflict _ = false

abbrev pub is_rejected : SyncStatus → Bool
is_rejected rejected = true
is_rejected retryable_error = true
is_rejected _ = false

-- The counters moved by what the results say.
abbrev pub IsTallied : Counts → List SyncOperationResult → Counts → Type 0
IsTallied c results c' =
    (c'.accepted_count ≡ c.accepted_count + how_many is_accepted results)
    × (c'.duplicate_count ≡ c.duplicate_count + how_many is_duplicate results)
    × (c'.conflict_count ≡ c.conflict_count + how_many is_conflict results)
    × (c'.rejected_count ≡ c.rejected_count + how_many is_rejected results)

tally-IsTallied :
    (r : SyncOperationResult) (results : List SyncOperationResult) (k : SyncStatus) (c c' : Counts)
    → r.status ≡ k
    → IsTallied (tally k c) results c'
    → IsTallied c (r ∷ results) c'
tally-IsTallied r results accepted c c' e h = rw e (ground arith)
tally-IsTallied r results duplicate c c' e h = rw e (ground arith)
tally-IsTallied r results conflict c c' e h = rw e (ground arith)
tally-IsTallied r results rejected c c' e h = rw e (ground arith)
tally-IsTallied r results retryable_error c c' e h = rw e (ground arith)

-- The new entries of the log, one for each operation in order, with the statuses of the results.
abbrev pub AreLogged :
    List SyncOperation → SyncStore → List SyncOperationResult → SyncStore → Type 0
AreLogged operations s results t =
    (new : List SyncAuditEvent) × (t.event_ledger ≡ s.event_ledger ++ new)
    × (map (λ e. e.operation_id) new ≡ map (λ op. op.operation_id) operations)
    × (map (λ e. e.status) new ≡ map (λ r. r.status) results)

cons-cong {ℓ} : {A : Type ℓ} {a b : A} {xs ys : List A} → a ≡ b → xs ≡ ys → a ∷ xs ≡ b ∷ ys
cons-cong e f = cc

length_of_map {ℓ κ} :
    {A : Type ℓ} {B : Type κ} (f : A → B) (xs : List A) → length (map f xs) ≡ length xs
length_of_map f [] = refl
length_of_map f (x ∷ xs) = omega (arith, length_of_map f xs)

length_of_AreLogged :
    (operations : List SyncOperation) (s : SyncStore) (results : List SyncOperationResult)
    (t : SyncStore)
    → AreLogged operations s results t
    → length results ≡ length operations
length_of_AreLogged operations s results t (new, ledger, ids, statuses) =
    sym (length_of_map (λ r. r.status) results)
    ∙ (sym (ap length statuses)
        ∙ (length_of_map (λ e. e.status) new
            ∙ (sym (length_of_map (λ e. e.operation_id) new)
                ∙ (ap length ids ∙ length_of_map (λ op. op.operation_id) operations))))

-- The number of results with one of the four outcomes.
abbrev all_outcomes : List SyncOperationResult → ℕ
all_outcomes results =
    how_many is_accepted results
    + how_many is_duplicate results
    + how_many is_conflict results
    + how_many is_rejected results

one_outcome :
    (r : SyncOperationResult) (results : List SyncOperationResult) (k : SyncStatus)
    → r.status ≡ k
    → all_outcomes (r ∷ results) ≡ suc (all_outcomes results)
one_outcome r results accepted e = rw e (omega arith)
one_outcome r results duplicate e = rw e (omega arith)
one_outcome r results conflict e = rw e (omega arith)
one_outcome r results rejected e = rw e (omega arith)
one_outcome r results retryable_error e = rw e (omega arith)

how_many_all : (results : List SyncOperationResult) → length results ≡ all_outcomes results
how_many_all [] = refl
how_many_all (r ∷ results) =
    ap suc (how_many_all results) ∙ sym (one_outcome r results r.status refl)

module _ (env : SyncEnvironment) (actor : Actor) where
  process_operations-AreLogged :
      (clock : Clock) (operations : List SyncOperation) (c : Counts) (s : SyncStore)
      → let (results, c', t) = process_operations env clock operations actor c s in
        AreLogged operations s results t × IsTallied c results c'
  unfolding process_operations
  process_operations-AreLogged clock [] c s = (
    ([], sym (append-nil s.event_ledger), refl, refl),
    (omega arith, omega arith, omega arith, omega arith),
  )
  process_operations-AreLogged clock (op ∷ operations) c s =
      let (e, ledger, id, who, status) =
        process_single_operation-IsLoggedAs env (clock 0) op actor s in
      let (result, t) = process_single_operation env (clock 0) op actor s in
      let (results, c', u) =
        process_operations env (later clock) operations actor (tally result.status c) t in
      let ((new, ledger', ids, statuses), tallied) =
        process_operations-AreLogged (later clock) operations (tally result.status c) t in
      (
        (
          e ∷ new,
          ledger' ∙ (ap (λ l. l ++ new) ledger ∙ append_assoc s.event_ledger (e ∷ []) new),
          cons-cong id ids,
          cons-cong status statuses,
        ),
        tally-IsTallied result results result.status c c' refl tallied,
      )

  -- A batch is answered by one result for each of its operations, and leaves one new entry for each in
  -- the log, in the order of the operations, with the identifier of the operation and the status of its
  -- result; its total is the number of operations, each counter is the number of results with that
  -- outcome, and the counters add up to the total.
  pub process_batch-AreLogged :
      (clock : Clock) (batch_id : String) (operations : List SyncOperation) (s : SyncStore)
      → let (response, t) = process_batch env clock batch_id operations actor s in
        AreLogged operations s response.results t
        × (length response.results ≡ length operations)
        × (response.accepted_count ≡ how_many is_accepted response.results)
        × (response.duplicate_count ≡ how_many is_duplicate response.results)
        × (response.conflict_count ≡ how_many is_conflict response.results)
        × (response.rejected_count ≡ how_many is_rejected response.results)
        × (response.total_operations
            ≡ response.accepted_count + response.duplicate_count + response.conflict_count
              + response.rejected_count)
  unfolding process_batch
  process_batch-AreLogged clock batch_id operations s =
      let zeros : Counts = record {
        accepted_count = 0;
        duplicate_count = 0;
        conflict_count = 0;
        rejected_count = 0;
      } in
      let (logged, (a, d, c, r)) = process_operations-AreLogged (later clock) operations zeros s in
      let results = (process_operations env (later clock) operations actor zeros s).0 in
      let same =
        length_of_AreLogged operations s results
          (process_operations env (later clock) operations actor zeros s).2 logged in
      (
        logged,
        same,
        omega (arith, a),
        omega (arith, d),
        omega (arith, c),
        omega (arith, r),
        omega (arith, a, d, c, r, same, how_many_all results),
      )
