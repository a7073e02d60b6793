-- ===== src/Governance/Approval.antt =====
-- What an approval takes, and what a refused one leaves.
use ai_powered_respiratory_h.Base.{
  String, Bool, true, false, not, ◌≡◌, inl, inr, refl, sym, subst, arith, ◌==◌, string_eq, Option,
  none, some, Bool-cases, Result-cases, lookup, lookup-insert, lookup-insert_self, length, [], ◌∷◌,
  ◌++◌, Result, ok, raise, Exception, Action, continue, raise_if, precondition_failed,
  recommendation_not_found, unauthorized_action, or_raise,
}
use ai_powered_respiratory_h.Schemas.Recommendation.{pending, approved, approval_status_eq}
use ai_powered_respiratory_h.Governance.Roles.{
  Actor, has_permission, approve_recommendation as to_approve, validate_transition,
  validate_transition_pending,
}
use ai_powered_respiratory_h.Governance.Records.{
  Recommendation, AuditEvent, DecisionRecord, recommendation_approved,
}
use ai_powered_respiratory_h.Governance.Ledger.{append_event, save_decision_record}
use ai_powered_respiratory_h.Governance.Service.{Environment, Store, put, state_text, record_event}
use ai_powered_respiratory_h.Governance.Preconditions.{validate_operational_preconditions}
use ai_powered_respiratory_h.Governance.Checking.{Checked, preconditions-Checked}
use ai_powered_respiratory_h.Governance.Decisions.{
  apply_approval, record_decision, refuse_stale, find_recommendation, require_live, approve_found,
  approve_recommendation, cached, is_simulated, ensure_fresh, approve_new,
}

contradicts : {A : Type 0} {r : Result A} {e : Exception} {x : A} → r ≡ raise e → r ≡ ok x → ⊥
contradicts h k = cc

-- The recommendation as that actor approved it, and what an approval leaves of the store.
abbrev pub IsApproved :
    Environment
    → String
    → Actor
    → String
    → Option String
    → Store
    → Recommendation
    → Result Recommendation × Store
    → Type 0
IsApproved env id a why key s rec p =
    let done = record rec {
      approval_status = approved;
      approved_by = some a.actor_id;
      approved_at = some (env.now (length s.audit_ledger.events));
    } in
    (p.0 ≡ ok done)
    × (lookup id p.1.recommendations ≡ some done)
    × ((other : String)
        → (id == other) ≡ false
        → lookup other p.1.recommendations ≡ lookup other s.recommendations)
    × ((e : AuditEvent) × (p.1.audit_ledger.events ≡ s.audit_ledger.events ++ e ∷ [])
        × (e.event_type ≡ recommendation_approved)
        × (e.recommendation_id ≡ id)
        × (e.actor_id ≡ a.actor_id)
        × (e.new_state ≡ some approved)
        × (e.reason ≡ why))
    × ((d : DecisionRecord) × (p.1.audit_ledger.decision_records
          ≡ s.audit_ledger.decision_records ++ d ∷ [])
        × (d.recommendation_id ≡ id)
        × (d.decision ≡ approved)
        × (d.decision_by ≡ a.actor_id)
        × (d.decision_reason ≡ why)
        × (d.idempotency_key ≡ key)
        × (d.source_state_version ≡ rec.source_state_version)
        × (d.recommendation_snapshot ≡ done))

apply_approval-IsApproved :
    (env : Environment) (id : String) (a : Actor) (why : String) (key : Option String)
    (rec : Recommendation) (s : Store)
    → IsApproved env id a why key s rec (apply_approval env id rec a why key (put id rec s))
unfolding apply_approval put record_event append_event record_decision save_decision_record
apply_approval-IsApproved env id a why key rec s = (
  refl,
  lookup-insert_self id _ _,
  λ other apart. rw (lookup-insert, apart, lookup-insert, apart) refl,
  (_, refl, refl, refl, refl, refl, refl),
  (_, refl, refl, refl, refl, refl, refl, refl, refl),
)

-- What holds when an approval that is no retry succeeds.
abbrev pub Grounds :
    Environment
    → String
    → Actor
    → String
    → Option String
    → Store
    → Recommendation
    → Result Recommendation × Store
    → Type 0
Grounds env id a why key s rec p =
    (lookup id s.recommendations ≡ some rec)
    × (rec.approval_status ≡ pending)
    × (rec.requires_human_approval ≡ true)
    × (rec.source_state_version ≡ state_text env.state_version)
    × (is_simulated id s ≡ false)
    × ((validate_operational_preconditions env rec.target rec).0 ≡ ok tt)
    × IsApproved env id a why key s rec p

-- The same, with the step that the approval took last.
abbrev pub Reached :
    Environment
    → String
    → Actor
    → String
    → Option String
    → Store
    → Recommendation
    → Result Recommendation × Store
    → Type 0
Reached env id a why key s rec p =
    (lookup id s.recommendations ≡ some rec)
    × (rec.approval_status ≡ pending)
    × (rec.requires_human_approval ≡ true)
    × (rec.source_state_version ≡ state_text env.state_version)
    × (is_simulated id s ≡ false)
    × ((validate_operational_preconditions env rec.target rec).0 ≡ ok tt)
    × (p ≡ apply_approval env id rec a why key (put id rec s))

module _ (env : Environment) (id : String) (a : Actor) (why : String) (key : Option String)
    (s : Store) where
  -- If the outcome is an answer, there were grounds for it.
  abbrev IsGrounded : Result Recommendation × Store → Type 0
  IsGrounded p =
      (r : Recommendation) → p.0 ≡ ok r → (rec : Recommendation) × Reached env id a why key s rec p

  excused : (e : Exception) (t : Store) → IsGrounded (raise e, t)
  excused e t r h = cc

  raise_if-IsGrounded :
      (c : Bool) (e : Exception) (f : Action Store Recommendation)
      → (c ≡ false → IsGrounded (f s))
      → IsGrounded (continue (raise_if c e s) (λ u. f))
  raise_if-IsGrounded true e f next = excused e s
  raise_if-IsGrounded false e f next = next refl

  fresh-IsGrounded :
      (rec : Recommendation) (f : Action Store Recommendation)
      → (rec.source_state_version ≡ state_text env.state_version → IsGrounded (f s))
      → IsGrounded (continue (ensure_fresh env id rec a s) (λ u. f))
  unfolding refuse_stale
  fresh-IsGrounded rec f next =
      elim (Bool-cases (rec.source_state_version == state_text env.state_version)) [
        | inl fresh ↦ rw fresh (next ((string_eq.same_iff _ _).0 fresh))
        | inr late ↦ rw late (λ r h. cc)
      ]

  fit-IsGrounded :
      (rec : Recommendation) (p : Result (Unit {0}) × Recommendation)
      (f : Action Store Recommendation)
      → Checked rec p
      → (p.0 ≡ ok tt → IsGrounded (f (put id rec s)))
      → IsGrounded (continue (p.0, put id p.1 s) (λ u. f))
  fit-IsGrounded rec (ok tt, r) f (inl same) next = rw same (next refl)
  fit-IsGrounded rec (ok tt, r) f (inr (h, e)) next = cc
  fit-IsGrounded rec (raise x, r) f h next = λ q e. cc

  approve_found-IsGrounded :
      (rec : Recommendation)
      → lookup id s.recommendations ≡ some rec
      → IsGrounded (approve_found env id a why key rec s)
  unfolding approve_found require_live
  approve_found-IsGrounded rec found =
      elim (Result-cases (validate_transition rec.approval_status approved)) [
        | inr (e, refused) ↦ rw refused (excused e s)
        | inl (u, valid) ↦
            let waiting = (validate_transition_pending rec.approval_status approved valid).0 in
            rw valid (
              raise_if-IsGrounded (not rec.requires_human_approval) precondition_failed _ λ human.
                fresh-IsGrounded rec _ λ fresh.
                  raise_if-IsGrounded (is_simulated id s) precondition_failed _ λ live.
                    fit-IsGrounded rec (validate_operational_preconditions env rec.target rec) _
                      (preconditions-Checked env rec.target rec)
                      (λ fit r h. (rec, (found, waiting, ground arith, fresh, live, fit, refl))))
      ]

  found-IsGrounded :
      (o : Option Recommendation) (e : Exception) (f : Recommendation → Action Store Recommendation)
      → ((rec : Recommendation) → o ≡ some rec → IsGrounded (f rec s))
      → IsGrounded (continue (or_raise o e s) f)
  found-IsGrounded none e f next = excused e s
  found-IsGrounded (some rec) e f next = next rec refl

  approve_new-IsGrounded :
      has_permission to_approve a ≡ true → IsGrounded (approve_new env id a why key s)
  unfolding find_recommendation
  approve_new-IsGrounded allowed = rw allowed (
      found-IsGrounded (lookup id s.recommendations) recommendation_not_found
        (approve_found env id a why key) approve_found-IsGrounded)

  refused-approval :
      has_permission to_approve a ≡ false
      → (approve_new env id a why key s).0 ≡ raise unauthorized_action
  refused-approval refused = rw refused refl

pub approval-Reached :
    (env : Environment) (id : String) (a : Actor) (why : String) (key : Option String) (s : Store)
    (r : Recommendation)
    → cached id key s ≡ none
    → (approve_recommendation env id a why key s).0 ≡ ok r
    → (has_permission to_approve a ≡ true)
      × ((rec : Recommendation) × Reached env id a why key s rec
            (approve_recommendation env id a why key s))
unfolding approve_recommendation
approval-Reached env id a why key s r new success =
    elim (Bool-cases (has_permission to_approve a)) [
      | inl allowed ↦ (
        allowed,
        rw new (approve_new-IsGrounded env id a why key s allowed r (rw new at success)),
      )
      | inr refused ↦
          let raised = refused-approval env id a why key s refused in
          let answered = rw new at success in absurd (contradicts raised answered)
    ]

-- An approval that is no retry succeeds only for an actor with the permission, on a stored
-- recommendation that is pending, requires human approval, was made for the twin's current version
-- and not in a simulation, and whose target passes the preconditions; and then the answer
-- is that recommendation, approved by that actor at the time of the call, which is also what is stored,
-- with the other recommendations as they were; the ledger has one more event, the approval by that actor
-- for the given reason, and one more decision record, with that actor, the reason, the key and the
-- approved recommendation.
pub approve_recommendation-Grounds :
    (env : Environment) (id : String) (a : Actor) (why : String) (key : Option String) (s : Store)
    (r : Recommendation)
    → cached id key s ≡ none
    → (approve_recommendation env id a why key s).0 ≡ ok r
    → (has_permission to_approve a ≡ true)
      × ((rec : Recommendation) × Grounds env id a why key s rec
            (approve_recommendation env id a why key s))
approve_recommendation-Grounds env id a why key s r new success =
    let (allowed, (rec, (found, waiting, human, fresh, live, fit, reached))) =
      approval-Reached env id a why key s r new success in
    let done =
      subst (IsApproved env id a why key s rec) (sym reached)
        (apply_approval-IsApproved env id a why key rec s) in
    (allowed, (rec, (found, waiting, human, fresh, live, fit, done)))
