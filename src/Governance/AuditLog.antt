-- ===== src/Governance/AuditLog.antt =====
-- What the older form of the audit log takes for a decision.
use ai_powered_respiratory_h.Base.{
  String, ◌≡◌, refl, ap, sym, subst, arith, Bool, ◌&&◌, ◌==◌, false, [], ◌∷◌, some, lookup,
  newest_first, length, length-append, ◌<◌, ◌≤◌, List, ◌∷◌, Option, none, inl, inr, arith,
}
use ai_powered_respiratory_h.Base.Membership.{
  Has, Has-append_last, Has-take, Has-newest_first, length-newest_first,
}
use ai_powered_respiratory_h.Schemas.Recommendation.{
  ApprovalStatus, pending, approved, rejected, expired, approval_status_eq,
}
use ai_powered_respiratory_h.Governance.Roles.{Actor}
use ai_powered_respiratory_h.Governance.Records.{Recommendation, AuditEvent, AuditEntry}
use ai_powered_respiratory_h.Governance.Ledger.{append_event, list_events, matching}
use ai_powered_respiratory_h.Governance.Service.{
  Environment, Store, record_event, get_recommendation, expire_if_stale, record_view, is_stale,
  view_event,
}
use ai_powered_respiratory_h.Governance.Listing.{get_audit_log, entry, add_entry, entries_from}

-- An event among others is listed if its status is that of an approval.
Has-add_entry :
    (s : Store) (e : AuditEvent) (x : AuditEntry) (status : Option ApprovalStatus)
    (entries : List AuditEntry)
    → Has x entries
    → Has x (add_entry s e status entries)
Has-add_entry s e x none entries h = h
Has-add_entry s e x (some approved) entries h = inr h
Has-add_entry s e x (some rejected) entries h = inr h
Has-add_entry s e x (some pending) entries h = h
Has-add_entry s e x (some expired) entries h = h

Has-entries_from :
    (s : Store) (e : AuditEvent) (es : List AuditEvent)
    → e.new_state ≡ some approved
    → Has e es
    → Has (entry s e approved) (entries_from s es)
Has-entries_from s e [] status h = absurd h
Has-entries_from s e (x ∷ es) status (inl here) =
    subst (λ y. Has (entry s e approved) (add_entry s y y.new_state (entries_from s es))) here
      (rw status (inl refl))
Has-entries_from s e (x ∷ es) status (inr there) =
    Has-add_entry s x (entry s e approved) x.new_state (entries_from s es)
      (Has-entries_from s e es status there)

Has-get_audit_log :
    (s : Store) (e : AuditEvent)
    → e.new_state ≡ some approved
    → Has e s.audit_ledger.events
    → length s.audit_ledger.events ≤ 500
    → Has (entry s e approved) (get_audit_log s)
unfolding get_audit_log list_events matching
Has-get_audit_log s e status h few = Has-entries_from s e _ status (
    Has-take e 500 (newest_first (λ x. x.timestamp) s.audit_ledger.events)
      (omega (arith, few, length-newest_first (λ x. x.timestamp) s.audit_ledger.events))
      (Has-newest_first (λ x. x.timestamp) e s.audit_ledger.events h))

unstale :
    (b : Bool) (rec : Recommendation)
    → rec.approval_status ≡ approved
    → (b && rec.approval_status == pending) ≡ false
unstale b rec done = subst (λ t. (b && t == pending) ≡ false) (sym done) (ground arith)

seen :
    (env : Environment) (id : String) (a : Actor) (rec : Recommendation) (s : Store)
    → lookup id s.recommendations ≡ some rec
    → rec.approval_status ≡ approved
    → (get_recommendation env id (some a) s).1 ≡ record_view env (some a) rec s
unfolding get_recommendation expire_if_stale
seen env id a rec s found done = rw (found, unstale (is_stale env rec) rec done) refl

-- `get_audit_log` goes by the status that an event mentions, not by its type: an actor who only looks
-- at an approved recommendation is then listed as having decided to approve it, wherever the ledger
-- holds fewer than the 500 events that are listed at most.
pub get_audit_log-get_recommendation :
    (env : Environment) (id : String) (a : Actor) (rec : Recommendation) (s : Store)
    → length s.audit_ledger.events < 500
    → lookup id s.recommendations ≡ some rec
    → rec.approval_status ≡ approved
    → (entry : AuditEntry) × Has entry (get_audit_log (get_recommendation env id (some a) s).1)
      × (entry.recommendation_id ≡ rec.recommendation_id)
      × (entry.decision_by ≡ a.actor_id)
      × (entry.decision ≡ approved)
unfolding record_view record_event append_event
get_audit_log-get_recommendation env id a rec s few found done =
    let e = view_event env rec a s in
    let t = record_view env (some a) rec s in
    (
      entry t e approved,
      rw (seen env id a rec s found done) (
          Has-get_audit_log t e (ap some done) (Has-append_last s.audit_ledger.events e)
            (omega (arith, few, length-append s.audit_ledger.events (e ∷ [])))),
      refl,
      refl,
      refl,
    )
