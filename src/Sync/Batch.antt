-- ===== src/Sync/Batch.antt =====
-- services/sync/queue/processor.py: `process_batch`. Each operation takes its own reading of the clock.
use ai_powered_respiratory_h.Base.{ℕ, ◌+◌, String, List, [], ◌∷◌, length}
use ai_powered_respiratory_h.Governance.Roles.{Actor}
use ai_powered_respiratory_h.Twin.Handling.{Clock, later}
use ai_powered_respiratory_h.Sync.Contracts.{
  SyncStatus, accepted, duplicate, conflict, rejected, retryable_error, SyncOperation,
  SyncOperationResult, SyncBatchResponse,
}
use ai_powered_respiratory_h.Sync.Domain.{SyncEnvironment}
use ai_powered_respiratory_h.Sync.Processor.{SyncStore, process_single_operation}

-- The counters of the loop.
pub record Counts : Type 0 where
  pub accepted_count : ℕ
  pub duplicate_count : ℕ
  pub conflict_count : ℕ
  pub rejected_count : ℕ

abbrev pub tally : SyncStatus → Counts → Counts
tally accepted c = record c { accepted_count = c.accepted_count + 1 }
tally duplicate c = record c { duplicate_count = c.duplicate_count + 1 }
tally conflict c = record c { conflict_count = c.conflict_count + 1 }
tally rejected c = record c { rejected_count = c.rejected_count + 1 }
tally retryable_error c = record c { rejected_count = c.rejected_count + 1 }

module _ (env : SyncEnvironment) where
  -- The loop: the counters go forward, the results are appended in order.
  unfoldable pub process_operations :
      Clock
      → List SyncOperation
      → Actor
      → Counts
      → SyncStore
      → List SyncOperationResult × Counts × SyncStore
  process_operations clock [] actor c s = ([], c, s)
  process_operations clock (op ∷ ops) actor c s =
      let (result, t) = process_single_operation env (clock 0) op actor s in
      let (results, c', u) = process_operations (later clock) ops actor (tally result.status c) t in
      (result ∷ results, c', u)

  unfoldable pub process_batch :
      Clock → String → List SyncOperation → Actor → SyncStore → SyncBatchResponse × SyncStore
  process_batch clock batch_id operations actor s =
      let (results, c, t) =
        process_operations (later clock) operations actor
          (record {
            accepted_count = 0;
            duplicate_count = 0;
            conflict_count = 0;
            rejected_count = 0;
          })
          s in
      (
        record {
          batch_id = batch_id;
          processed_at = clock 0;
          total_operations = length operations;
          accepted_count = c.accepted_count;
          duplicate_count = c.duplicate_count;
          conflict_count = c.conflict_count;
          rejected_count = c.rejected_count;
          results = results;
        },
        t,
      )
