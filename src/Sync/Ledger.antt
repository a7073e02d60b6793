-- ===== src/Sync/Ledger.antt =====
-- services/sync/event_log/ledger.py: the append-only log of synchronisation. `stamp` gives the text of
-- the identifier that is made from the time.
use ai_powered_respiratory_h.Base.{
  ℕ, String, List, [], ◌∷◌, ◌++◌, Option, none, some, truthy, ◌==◌, string_eq, filter, take, drop,
  length,
}
use ai_powered_respiratory_h.Sync.Contracts.{SyncAuditEventType, event_type_eq, SyncAuditEvent}

abbrev pub SyncEventLedger : Type 0
SyncEventLedger = List SyncAuditEvent

unfoldable pub record_sync_event : SyncAuditEvent → SyncEventLedger → SyncEventLedger
record_sync_event event events = events ++ event ∷ []

-- `if wanted: filtered = [e for e in filtered if key(e) == wanted]`
abbrev filter_text :
    (SyncAuditEvent → String) → Option String → List SyncAuditEvent → List SyncAuditEvent
filter_text key none events = events
filter_text key (some wanted) events = filter (λ e. key e == wanted) events

abbrev filter_type : Option SyncAuditEventType → List SyncAuditEvent → List SyncAuditEvent
filter_type none events = events
filter_type (some wanted) events = filter (λ e. e.event_type == wanted) events

unfoldable pub list_sync_events :
    (operation_id entity_id : Option String)
    → Option SyncAuditEventType
    → (limit offset : ℕ) → SyncEventLedger
    → List SyncAuditEvent
list_sync_events operation_id entity_id event_type limit offset events = take limit (
    drop offset (
      filter_type event_type (
        filter_text (λ e. e.entity_id) (truthy entity_id)
          (filter_text (λ e. e.operation_id) (truthy operation_id) events))))

abbrev pub count : SyncEventLedger → ℕ
count events = length events
