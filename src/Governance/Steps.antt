-- ===== src/Governance/Steps.antt =====
-- What the recommendation service may do to its store, as an abstract step relation.
use ai_powered_respiratory_h.Base.{String, ◌≡◌, string_eq, Option, none, some, lookup}
use ai_powered_respiratory_h.Schemas.Recommendation.{
  ApprovalStatus, pending, approved, rejected, expired, approval_status_eq,
}
use ai_powered_respiratory_h.Governance.Records.{
  Recommendation, AuditEvent, DecisionRecord, recommendation_approved, recommendation_rejected,
}
use ai_powered_respiratory_h.Governance.Service.{Store, record_event, put}
use ai_powered_respiratory_h.Governance.Decisions.{record_decision}

-- The recommendation, the decision and who took it.
abbrev pub Verdict : Type 0
Verdict = String × (ApprovalStatus × String)

abbrev pub verdict_of : AuditEvent → Option Verdict
verdict_of e = elim e.event_type [
  | recommendation_approved ↦ some (e.recommendation_id, (approved, e.actor_id))
  | recommendation_rejected ↦ some (e.recommendation_id, (rejected, e.actor_id))
  | _ ↦ none
]

abbrev pub verdict_in : DecisionRecord → Verdict
verdict_in r = (r.recommendation_id, (r.decision, r.decision_by))

abbrev pub lapsed : Recommendation → Recommendation
lapsed rec = record rec { approval_status = expired }

pub data Step : Store → Store → Type 0 where
  -- An event that decides nothing is recorded.
  note : (e : AuditEvent) (s : Store) → verdict_of e ≡ none → Step s (record_event e s)
  -- A recommendation is written back as it was.
  keep :
      (id : String) (rec : Recommendation) (s : Store)
      → lookup id s.recommendations ≡ some rec
      → Step s (put id rec s)
  -- A pending recommendation expires.
  lapse :
      (id : String) (rec : Recommendation) (s : Store)
      → lookup id s.recommendations ≡ some rec
      → rec.approval_status ≡ pending
      → Step s (put id (lapsed rec) s)
  -- A pending recommendation is decided, with one event and one record that say the same.
  decide :
      (id : String) (rec new : Recommendation) (e : AuditEvent) (r : DecisionRecord) (s : Store)
      → lookup id s.recommendations ≡ some rec
      → rec.approval_status ≡ pending
      → verdict_of e ≡ some (verdict_in r)
      → verdict_in r ≡ (id, (new.approval_status, r.decision_by))
      → Step s (record_decision r (record_event e (put id new s)))

pub data Steps : Store → Store → Type 0 where
  done : (s : Store) → Steps s s
  after : {s t u : Store} → Steps s t → Step t u → Steps s u

abbrev pub once : {s t : Store} → Step s t → Steps s t
once {s} step = after (done s) step

abbrev pub joined : {s t u : Store} → Steps s t → Steps t u → Steps s u
joined a (done s) = a
joined a (after b step) = after (joined a b) step
