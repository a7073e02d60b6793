-- ===== src/Governance/Refusal.antt =====
-- Approvals that come too late, or whose target no longer stands.
use mathlib.Core.List.{append_assoc}
use ai_powered_respiratory_h.Base.{
  not_same, ℕ, String, Bool, true, false, not, ◌≡◌, ◌≢◌, inl, inr, refl, sym, ap, ◌∙◌, subst,
  string_eq, [], ◌∷◌, ◌++◌, Option, none, some, Bool-cases, lookup, lookup-insert_self, Result, ok,
  raise, precondition_failed, stale_recommendation, decimal-injective, append_inj_left, Action,
  Exception, continue, raise_if, ◌⊎◌, Dict, Value, string, number,
}
use ai_powered_respiratory_h.Schemas.Recommendation.{pending, approved, expired, hospital}
use ai_powered_respiratory_h.Governance.Roles.{
  Actor, has_permission, approve_recommendation as to_approve, validate_transition,
}
use ai_powered_respiratory_h.Governance.Records.{
  Recommendation, Target, AuditEvent, approval_blocked, recommendation_expired,
}
use ai_powered_respiratory_h.Governance.Ledger.{append_event}
use ai_powered_respiratory_h.Governance.Service.{
  Environment, Store, Facilities, record_event, put, is_stale, state_text, record_blocked_event,
  record_expiration_event,
}
use ai_powered_respiratory_h.Governance.Preconditions.{
  is_one_of, facility_unfit, inspect, check_facility, validate_operational_preconditions,
}
use ai_powered_respiratory_h.Governance.Decisions.{
  refuse_stale, find_recommendation, require_live, approve_found, approve_recommendation, cached,
  is_simulated,
}
use ai_powered_respiratory_h.Governance.Steps.{lapsed}

-- Two version texts are the same only for the same version.
state_text-injective : (m n : ℕ) → state_text m ≡ state_text n → m ≡ n
state_text-injective m n h = decimal-injective m n (append_inj_left "state-v" _ _ h)

found-new :
    (env : Environment) (id : String) (a : Actor) (why : String) (key : Option String)
    (rec : Recommendation) (s : Store)
    → cached id key s ≡ none
    → has_permission to_approve a ≡ true
    → lookup id s.recommendations ≡ some rec
    → approve_recommendation env id a why key s ≡ approve_found env id a why key rec s
unfolding approve_recommendation find_recommendation
found-new env id a why key rec s new allowed found = rw (new, allowed, found) refl

pending-valid :
    (rec : Recommendation)
    → rec.approval_status ≡ pending
    → validate_transition rec.approval_status approved ≡ ok tt
unfolding validate_transition
pending-valid rec waiting = subst (λ t. validate_transition t approved ≡ ok tt) (sym waiting) refl

raise_if_passes :
    (c : Bool) (e : Exception) (f : Action Store Recommendation) (s : Store)
    → c ≡ false
    → continue (raise_if c e s) (λ u. f) ≡ f s
raise_if_passes true e f s h = cc
raise_if_passes false e f s h = refl

stale :
    (env : Environment) (rec : Recommendation) (made_for : ℕ)
    → rec.source_state_version ≡ state_text made_for
    → made_for ≢ env.state_version
    → is_stale env rec ≡ true
stale env rec made_for source other = ap not (
    not_same rec.source_state_version (state_text env.state_version)
      (λ same. other (state_text-injective made_for env.state_version (sym source ∙ same))))

found-stale :
    (env : Environment) (id : String) (a : Actor) (why : String) (key : Option String)
    (rec : Recommendation) (s : Store)
    → rec.approval_status ≡ pending
    → rec.requires_human_approval ≡ true
    → is_stale env rec ≡ true
    → approve_found env id a why key rec s
      ≡ (raise stale_recommendation, (refuse_stale env id rec a s).1)
unfolding approve_found refuse_stale
found-stale env id a why key rec s waiting human late = rw (pending-valid rec waiting) (
    raise_if_passes (not rec.requires_human_approval) precondition_failed _ s (ap not human)
    ∙ rw late refl)

-- A hospital that is closed, evacuating or full, as the facility service describes it.
abbrev pub IsClosedOrFull : Dict Value → Type 0
IsClosedOrFull found =
    (lookup "status" found ≡ some (string "CLOSED"))
    ⊎ ((lookup "status" found ≡ some (string "EVACUATING"))
        ⊎ (lookup "available_capacity" found ≡ some (number 0)))

unfit :
    (found : Dict Value)
    → IsClosedOrFull found
    → facility_unfit "CLOSED" "EVACUATING" found ≡ ok true
unfit found (inl closed) = rw closed refl
unfit found (inr (inl evacuating)) = rw evacuating refl
unfit found (inr (inr full)) =
    elim (Bool-cases (is_one_of "CLOSED" "EVACUATING" (lookup "status" found))) [
      | inl shut ↦ rw shut refl
      | inr other ↦ rw (other, full) refl
    ]

-- A description with a key is not the empty one.
inspected :
    (key : String) (v : Value) (found : Dict Value)
    → lookup key found ≡ some v
    → inspect (facility_unfit "CLOSED" "EVACUATING") (ok (some found))
      ≡ facility_unfit "CLOSED" "EVACUATING" found
unfolding lookup
inspected key v [] h = cc
inspected key v (x ∷ d) h = refl

inspected-unfit :
    (found : Dict Value)
    → IsClosedOrFull found
    → inspect (facility_unfit "CLOSED" "EVACUATING") (ok (some found)) ≡ ok true
inspected-unfit found (inl h) = inspected "status" _ found h ∙ unfit found (inl h)
inspected-unfit found (inr (inl h)) = inspected "status" _ found h ∙ unfit found (inr (inl h))
inspected-unfit found (inr (inr h)) =
    inspected "available_capacity" _ found h ∙ unfit found (inr (inr h))

check_facility-unfit :
    (f : Facilities) (target : Target) (found : Dict Value) (rec : Recommendation)
    → target.entity_type ≡ hospital
    → f.get_hospital target.entity_id ≡ ok (some found)
    → IsClosedOrFull found
    → check_facility (some f) target rec ≡ (raise precondition_failed, lapsed rec)
check_facility-unfit f target found rec type known h =
    rw (type, known, inspected-unfit found h) refl

-- The outcome for a target that no longer stands: the recommendation expires, and nothing is on record.
abbrev pub IsRefusedUnfit : String → Recommendation → Store → Result Recommendation × Store → Type 0
IsRefusedUnfit id rec s p =
    (p.0 ≡ raise precondition_failed)
    × (lookup id p.1.recommendations ≡ some (record rec { approval_status = expired }))
    × (p.1.audit_ledger ≡ s.audit_ledger)

found-unfit :
    (env : Environment) (id : String) (a : Actor) (why : String) (key : Option String)
    (rec : Recommendation) (s : Store)
    → rec.approval_status ≡ pending
    → rec.requires_human_approval ≡ true
    → rec.source_state_version ≡ state_text env.state_version
    → is_simulated id s ≡ false
    → validate_operational_preconditions env rec.target rec
      ≡ (raise precondition_failed, lapsed rec)
    → approve_found env id a why key rec s ≡ (raise precondition_failed, put id (lapsed rec) s)
unfolding approve_found require_live
found-unfit env id a why key rec s waiting human fresh live unfit = rw (pending-valid rec waiting) (
    raise_if_passes (not rec.requires_human_approval) precondition_failed _ s (ap not human)
    ∙ rw ((string_eq.same_iff rec.source_state_version (state_text env.state_version)).1 fresh)
        (raise_if_passes (is_simulated id s) precondition_failed _ s live ∙ rw unfit refl))

-- The outcome of an approval that came too late.
abbrev pub IsRefusedStale : String → Recommendation → Store → Result Recommendation × Store → Type 0
IsRefusedStale id rec s p =
    (p.0 ≡ raise stale_recommendation)
    × (lookup id p.1.recommendations ≡ some (lapsed rec))
    × ((blocked : AuditEvent) × (expiry : AuditEvent) × (p.1.audit_ledger.events
          ≡ s.audit_ledger.events ++ blocked ∷ expiry ∷ [])
        × (blocked.event_type ≡ approval_blocked)
        × (expiry.event_type ≡ recommendation_expired))

refuse_stale-IsRefusedStale :
    (env : Environment) (id : String) (a : Actor) (rec : Recommendation) (s : Store)
    → IsRefusedStale id rec s (raise stale_recommendation, (refuse_stale env id rec a s).1)
unfolding refuse_stale put record_blocked_event record_expiration_event record_event append_event
refuse_stale-IsRefusedStale env id a rec s =
    rw lookup-insert_self (refl, refl, (_, _, append_assoc s.audit_ledger.events _ _, refl, refl))

-- An authorised approval of a pending recommendation that was made for another version of the twin
-- raises StaleRecommendationError, leaves the recommendation expired, and adds two events to the
-- ledger: the blocked attempt, then the expiration.
pub approve_recommendation_stale :
    (env : Environment) (id : String) (a : Actor) (why : String) (key : Option String)
    (rec : Recommendation) (made_for : ℕ) (s : Store)
    → cached id key s ≡ none
    → has_permission to_approve a ≡ true
    → lookup id s.recommendations ≡ some rec
    → rec.approval_status ≡ pending
    → rec.requires_human_approval ≡ true
    → rec.source_state_version ≡ state_text made_for
    → made_for ≢ env.state_version
    → IsRefusedStale id rec s (approve_recommendation env id a why key s)
approve_recommendation_stale env id a why key rec made_for s new allowed found waiting human source
      other =
    let late = stale env rec made_for source other in
    let outcome =
      found-new env id a why key rec s new allowed found
      ∙ found-stale env id a why key rec s waiting human late in
    subst (IsRefusedStale id rec s) (sym outcome) (refuse_stale-IsRefusedStale env id a rec s)

put-IsRefusedUnfit :
    (id : String) (rec : Recommendation) (s : Store)
    → IsRefusedUnfit id rec s (raise precondition_failed, put id (lapsed rec) s)
unfolding put
put-IsRefusedUnfit id rec s = (refl, lookup-insert_self id _ s.recommendations, refl)

-- An authorised approval of a fresh, pending recommendation for a hospital that is by now closed,
-- evacuating or full raises PreconditionFailedError and leaves the recommendation expired, and the
-- ledger is as it was: neither the attempt nor the expiration is on record.
pub approve_recommendation_unfit :
    (env : Environment) (id : String) (a : Actor) (why : String) (key : Option String)
    (rec : Recommendation) (f : Facilities) (found : Dict Value) (s : Store)
    → cached id key s ≡ none
    → has_permission to_approve a ≡ true
    → lookup id s.recommendations ≡ some rec
    → rec.approval_status ≡ pending
    → rec.requires_human_approval ≡ true
    → rec.source_state_version ≡ state_text env.state_version
    → is_simulated id s ≡ false
    → rec.target.entity_type ≡ hospital
    → env.facility_service ≡ some f
    → f.get_hospital rec.target.entity_id ≡ ok (some found)
    → IsClosedOrFull found
    → IsRefusedUnfit id rec s (approve_recommendation env id a why key s)
unfolding validate_operational_preconditions
approve_recommendation_unfit env id a why key rec f found s new allowed known waiting human fresh
      live type service described closed =
    let failed : validate_operational_preconditions env rec.target rec
        ≡ (raise precondition_failed, lapsed rec) =
      rw (service, check_facility-unfit f rec.target found rec type described closed) refl in
    let outcome =
      found-new env id a why key rec s new allowed known
      ∙ found-unfit env id a why key rec s waiting human fresh live failed in
    subst (IsRefusedUnfit id rec s) (sym outcome) (put-IsRefusedUnfit id rec s)
