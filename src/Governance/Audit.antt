-- ===== src/Governance/Audit.antt =====
-- What every request keeps of the recommendations and of the audit ledger.
use mathlib.Core.List.{append_assoc, append-nil}
use ai_powered_respiratory_h.Base.{
  String, ◌≡◌, ◌≢◌, inl, inr, refl, sym, ap, ◌∙◌, subst, ◌==◌, string_eq, List, [], ◌∷◌, ◌++◌, map,
  Option, none, some, Bool-cases, lookup, lookup-insert, Dict, Value,
}
use ai_powered_respiratory_h.Schemas.Recommendation.{pending}
use ai_powered_respiratory_h.Governance.Roles.{Actor}
use ai_powered_respiratory_h.Governance.Records.{Recommendation, AuditEvent}
use ai_powered_respiratory_h.Governance.Ledger.{append_event, save_decision_record}
use ai_powered_respiratory_h.Governance.Service.{
  Environment, Store, record_event, put, save_recommendation,
}
use ai_powered_respiratory_h.Governance.Decisions.{record_decision}
use ai_powered_respiratory_h.Governance.Steps.{
  Step, note, keep, lapse, decide, Steps, done, after, verdict_of, verdict_in, Verdict,
}
use ai_powered_respiratory_h.Governance.Refinement.{Request, handle, handle-Steps}

same_entry : {A : Type 0} (o : Option A) (a b : A) → o ≡ some a → o ≡ some b → a ≡ b
same_entry o a b h k = cc

-- Another recommendation's entry, or the same one that is known to be waiting, leaves a closed one.
put_keeps :
    (id other : String) (rec old new : Recommendation) (s : Store)
    → lookup id s.recommendations ≡ some rec
    → lookup other s.recommendations ≡ some old
    → (old ≡ rec → new ≡ rec)
    → lookup id (put other new s).recommendations ≡ some rec
unfolding put
put_keeps id other rec old new s found there same =
    lookup-insert other id new s.recommendations ∙ elim (Bool-cases (other == id)) [
      | inl here ↦
          let key = (string_eq.same_iff other id).0 here in
          let there' = subst (λ k. lookup k s.recommendations ≡ some old) key there in
          rw here (ap some (same (same_entry (lookup id s.recommendations) old rec there' found)))
      | inr elsewhere ↦ rw elsewhere found
    ]

Step-closed :
    (id : String) (rec : Recommendation) {s t : Store}
    → Step s t
    → rec.approval_status ≢ pending
    → lookup id s.recommendations ≡ some rec
    → lookup id t.recommendations ≡ some rec
unfolding record_event record_decision
Step-closed id rec (note e s h) closed found = found
Step-closed id rec (keep other old s there) closed found =
    put_keeps id other rec old old s found there (λ same. same)
Step-closed id rec (lapse other old s there waiting) closed found =
    put_keeps id other rec old _ s found there
      (λ same. absurd (closed (subst (λ r. r.approval_status ≡ pending) same waiting)))
Step-closed id rec (decide other old new e r s there waiting said same) closed found =
    put_keeps id other rec old new s found there
      (λ same. absurd (closed (subst (λ r. r.approval_status ≡ pending) same waiting)))

Steps-closed :
    (id : String) (rec : Recommendation) {s t : Store}
    → Steps s t
    → rec.approval_status ≢ pending
    → lookup id s.recommendations ≡ some rec
    → lookup id t.recommendations ≡ some rec
Steps-closed id rec (done s) closed found = found
Steps-closed id rec (after before step) closed found =
    Step-closed id rec step closed (Steps-closed id rec before closed found)

-- A recommendation that is approved, rejected or expired stays stored exactly as it is under every
-- request to get, list, approve, reject or expire, in whatever state of the twin and with whatever
-- facilities and incidents.
pub handle_closed :
    (env : Environment) (r : Request) (id : String) (rec : Recommendation) (s : Store)
    → rec.approval_status ≢ pending
    → lookup id s.recommendations ≡ some rec
    → lookup id (handle env r s).recommendations ≡ some rec
handle_closed env r id rec s closed found = Steps-closed id rec (handle-Steps env r s) closed found

-- Entries were added at the end.
abbrev Grows : {A : Type 0} → List A → List A → Type 0
Grows {A} old new = (more : List A) × (new ≡ old ++ more)

Grows-refl : {A : Type 0} (xs : List A) → Grows xs xs
Grows-refl xs = ([], sym (append-nil xs))

Grows-trans : {A : Type 0} (xs ys zs : List A) → Grows xs ys → Grows ys zs → Grows xs zs
Grows-trans xs ys zs (a, e) (b, f) = (a ++ b, f ∙ (ap (λ l. l ++ b) e ∙ append_assoc xs a b))

abbrev pub IsExtended : Store → Store → Type 0
IsExtended s t =
    Grows s.audit_ledger.events t.audit_ledger.events
    × Grows s.audit_ledger.decision_records t.audit_ledger.decision_records

Step-IsExtended : {s t : Store} → Step s t → IsExtended s t
unfolding record_event record_decision put append_event save_decision_record
Step-IsExtended (note e s h) = ((e ∷ [], refl), Grows-refl _)
Step-IsExtended (keep id rec s h) = (Grows-refl _, Grows-refl _)
Step-IsExtended (lapse id rec s h w) = (Grows-refl _, Grows-refl _)
Step-IsExtended (decide id rec new e r s h w said same) = ((e ∷ [], refl), (r ∷ [], refl))

Steps-IsExtended : {s t : Store} → Steps s t → IsExtended s t
Steps-IsExtended (done s) = (Grows-refl _, Grows-refl _)
Steps-IsExtended (after before step) =
    let (a, b) = Steps-IsExtended before in
    let (c, d) = Step-IsExtended step in (Grows-trans _ _ _ a c, Grows-trans _ _ _ b d)

-- The audit ledger is append-only: every request to get, list, approve, reject or expire leaves the
-- events and the decision records that were there, in their order, and adds what it adds at the end.
pub handle-IsExtended :
    (env : Environment) (r : Request) (s : Store) → IsExtended s (handle env r s)
handle-IsExtended env r s = Steps-IsExtended (handle-Steps env r s)

-- The decisions that the events report, in order.
abbrev consed : Option Verdict → List Verdict → List Verdict
consed none vs = vs
consed (some v) vs = v ∷ vs

abbrev pub reported : List AuditEvent → List Verdict
reported [] = []
reported (e ∷ es) = consed (verdict_of e) (reported es)

abbrev pub IsRecorded : Store → Type 0
IsRecorded s = reported s.audit_ledger.events ≡ map verdict_in s.audit_ledger.decision_records

reported_silent :
    (es : List AuditEvent) (e : AuditEvent)
    → verdict_of e ≡ none
    → reported (es ++ e ∷ []) ≡ reported es
reported_silent [] e h = rw h refl
reported_silent (x ∷ es) e h = ap (consed (verdict_of x)) (reported_silent es e h)

consed-append :
    (o : Option Verdict) (vs : List Verdict) (v : Verdict)
    → consed o (vs ++ v ∷ []) ≡ consed o vs ++ v ∷ []
consed-append none vs v = refl
consed-append (some w) vs v = refl

reported_verdict :
    (es : List AuditEvent) (e : AuditEvent) (v : Verdict)
    → verdict_of e ≡ some v
    → reported (es ++ e ∷ []) ≡ reported es ++ v ∷ []
reported_verdict [] e v h = rw h refl
reported_verdict (x ∷ es) e v h =
    ap (consed (verdict_of x)) (reported_verdict es e v h)
    ∙ consed-append (verdict_of x) (reported es) v

map-snoc :
    {A B : Type 0} (f : A → B) (xs : List A) (x : A) → map f (xs ++ x ∷ []) ≡ map f xs ++ f x ∷ []
map-snoc f [] x = refl
map-snoc f (y ∷ xs) x = ap (λ l. f y ∷ l) (map-snoc f xs x)

Step-IsRecorded : {s t : Store} → Step s t → IsRecorded s → IsRecorded t
unfolding record_event record_decision put append_event save_decision_record
Step-IsRecorded (note e s h) before = reported_silent s.audit_ledger.events e h ∙ before
Step-IsRecorded (keep id rec s h) before = before
Step-IsRecorded (lapse id rec s h w) before = before
Step-IsRecorded (decide id rec new e r s h w said same) before =
    reported_verdict s.audit_ledger.events e (verdict_in r) said
    ∙ (ap (λ l. l ++ verdict_in r ∷ []) before
        ∙ sym (map-snoc verdict_in s.audit_ledger.decision_records r))

Steps-IsRecorded : {s t : Store} → Steps s t → IsRecorded s → IsRecorded t
Steps-IsRecorded (done s) before = before
Steps-IsRecorded (after first step) before = Step-IsRecorded step (Steps-IsRecorded first before)

-- The ledger's two accounts agree, and stay so under every request and every recommendation saved:
-- the approvals and rejections among the audit's events are the durable decision records, in the
-- same order, with the same recommendation, decision and actor.
pub requests-IsRecorded :
    (env : Environment) (s : Store)
    → IsRecorded s
    → ((r : Request) → IsRecorded (handle env r s))
      × ((rec : Recommendation) (actor : Option Actor) (mode : String) (supersedes : Option String)
            (metadata : Dict Value)
          → IsRecorded (save_recommendation env rec actor mode supersedes metadata s).1)
unfolding save_recommendation record_event append_event put
requests-IsRecorded env s before = (
  λ r. Steps-IsRecorded (handle-Steps env r s) before,
  λ rec actor mode supersedes metadata. reported_silent s.audit_ledger.events _ refl ∙ before,
)
