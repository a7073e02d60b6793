-- ===== src/Governance/Ledger.antt =====
-- services/recommendations/governance/audit_ledger.py: the append-only ledger. Copies of stored
-- values are the values themselves.
use ai_powered_respiratory_h.Base.{
  ℕ, ◌≡◌, String, Bool, true, List, [], ◌∷◌, ◌++◌, Option, none, some, Dict, lookup, insert, ◌==◌,
  string_eq, truthy, length, take, drop, filter, newest_first, Eq, eq_by, nat_beq, ◌↔◌, arith,
}
use ai_powered_respiratory_h.Governance.Records.{
  AuditEvent, AuditEventType, DecisionRecord, recommendation_created, recommendation_viewed,
  recommendation_approved, recommendation_rejected, recommendation_expired, approval_blocked,
}

pub record AuditLedger : Type 0 where
  pub events : List AuditEvent
  pub decision_records : List DecisionRecord
  pub idempotency_map : Dict DecisionRecord

abbrev pub empty_ledger : AuditLedger
empty_ledger = record { events = []; decision_records = []; idempotency_map = [] }

unfoldable pub append_event : AuditEvent → AuditLedger → AuditLedger
append_event e l = record l { events = l.events ++ e ∷ [] }

-- The records under each idempotency key; an empty key is as no key.
abbrev pub index_decision :
    Option String → DecisionRecord → Dict DecisionRecord → Dict DecisionRecord
index_decision none r m = m
index_decision (some k) r m = insert k r m

unfoldable pub save_decision_record : DecisionRecord → AuditLedger → AuditLedger
save_decision_record r l = record l {
  decision_records = l.decision_records ++ r ∷ [];
  idempotency_map = index_decision (truthy r.idempotency_key) r l.idempotency_map;
}

abbrev pub get_decision_by_idempotency_key : String → AuditLedger → Option DecisionRecord
get_decision_by_idempotency_key k l = lookup k l.idempotency_map

abbrev type_rank : AuditEventType → ℕ
type_rank recommendation_created = 0
type_rank recommendation_viewed = 1
type_rank recommendation_approved = 2
type_rank recommendation_rejected = 3
type_rank recommendation_expired = 4
type_rank approval_blocked = 5

type_rank_iff : (a b : AuditEventType) → (nat_beq (type_rank a) (type_rank b) ≡ true) ↔ (a ≡ b)
type_rank_iff a b = ground arith

instance abbrev type_eq : Eq AuditEventType
type_eq = eq_by type_rank type_rank_iff

-- Applies a filter if there is something to filter by.
abbrev select :
    {B : Type 0} → Option B → (B → AuditEvent → Bool) → List AuditEvent → List AuditEvent
select none test es = es
select (some b) test es = filter (test b) es

unfoldable pub matching :
    Option String → Option AuditEventType → Option String → List AuditEvent → List AuditEvent
matching id type actor es =
    select (truthy actor) (λ a e. e.actor_id == a)
      (select type (λ t e. e.event_type == t)
        (select (truthy id) (λ i e. e.recommendation_id == i) es))

unfoldable pub list_events :
    Option String → Option AuditEventType → Option String → ℕ → ℕ → AuditLedger → List AuditEvent
list_events id type actor limit offset l =
    take limit (drop offset (newest_first (λ e. e.timestamp) (matching id type actor l.events)))

unfoldable pub count_events : Option String → Option AuditEventType → AuditLedger → ℕ
count_events id type l = length (matching id type none l.events)
