-- ===== src/Governance/Checking.antt =====
-- What the check of the preconditions leaves of a recommendation.
use text.Mathlib.Text.{starts_with}
use ai_powered_respiratory_h.Base.{
  String, Bool, true, false, ◌≡◌, ◌⊎◌, inl, inr, refl, subst, string_eq, Option, none, some,
  Bool-cases, Result, ok, raise, continue, precondition_failed, Action,
}
use ai_powered_respiratory_h.Schemas.Recommendation.{
  approval_status_eq, EntityType, hospital, shelter,
}
use ai_powered_respiratory_h.Governance.Records.{Recommendation, Target}
use ai_powered_respiratory_h.Governance.Service.{Environment, Facilities, Lookup}
use ai_powered_respiratory_h.Governance.Preconditions.{
  judge, inspect, incident_over, check_facility, check_entity, check_incident,
  validate_operational_preconditions,
}
use ai_powered_respiratory_h.Governance.Steps.{lapsed}

-- What a check leaves of the recommendation.
abbrev pub Checked : Recommendation → Result (Unit {0}) × Recommendation → Type 0
Checked rec p = (p.1 ≡ rec) ⊎ ((p.0 ≡ raise precondition_failed) × (p.1 ≡ lapsed rec))

judge-Checked : (r : Result Bool) (rec : Recommendation) → Checked rec (judge r rec)
judge-Checked (ok true) rec = inr (refl, refl)
judge-Checked (ok false) rec = inl refl
judge-Checked (raise precondition_failed) rec = inl refl
judge-Checked (raise _) rec = inl refl

check_entity-Checked :
    (f : Facilities) (type : EntityType) (id : String) (rec : Recommendation)
    → Checked rec (check_entity f type id rec)
check_entity-Checked f hospital id rec = judge-Checked _ rec
check_entity-Checked f shelter id rec = judge-Checked _ rec
check_entity-Checked f _ id rec = inl refl

check_facility-Checked :
    (f : Option Facilities) (t : Target) (rec : Recommendation)
    → Checked rec (check_facility f t rec)
check_facility-Checked none t rec = inl refl
check_facility-Checked (some f) t rec = check_entity-Checked f t.entity_type t.entity_id rec

check_incident-Checked :
    (f : Option Lookup) (t : Target) (rec : Recommendation) → Checked rec (check_incident f t rec)
check_incident-Checked none t rec = inl refl
check_incident-Checked (some f) t rec = elim (Bool-cases (starts_with t.entity_id "INC-")) [
  | inl named ↦ rw named (judge-Checked (inspect incident_over (f t.entity_id)) rec)
  | inr other ↦ rw other (inl refl)
]

continue-Checked :
    (p : Result (Unit {0}) × Recommendation) (rec : Recommendation)
    (f : Unit {0} → Action Recommendation (Unit {0}))
    → Checked rec p
    → ((r : Recommendation) → Checked r (f tt r))
    → Checked rec (continue p f)
continue-Checked (ok tt, r) rec f (inl same) next = subst (λ q. Checked q (f tt r)) same (next r)
continue-Checked (ok tt, r) rec f (inr (h, e)) next = cc
continue-Checked (raise x, r) rec f h next = h

pub preconditions-Checked :
    (env : Environment) (t : Target) (rec : Recommendation)
    → Checked rec (validate_operational_preconditions env t rec)
unfolding validate_operational_preconditions
preconditions-Checked env t rec =
    continue-Checked (check_facility env.facility_service t rec) rec _
      (check_facility-Checked env.facility_service t rec)
      (check_incident-Checked env.incident_service t)
