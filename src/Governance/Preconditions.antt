-- ===== src/Governance/Preconditions.antt =====
-- services/recommendations/service.py, `_validate_operational_preconditions`: whether the target of a
-- recommendation still stands.
use text.Mathlib.Text.{starts_with}
use ai_powered_respiratory_h.Base.{
  String, Bool, true, false, not, ◌||◌, [], ◌∷◌, Option, none, some, Dict, lookup, Value, ◌==◌,
  string_eq, leb, if◌then◌else◌, Result, ok, raise, Action, pure, ◌>>◌, precondition_failed,
  type_error,
}
use ai_powered_respiratory_h.Schemas.Recommendation.{
  expired, approval_status_eq, EntityType, hospital, shelter,
}
use ai_powered_respiratory_h.Governance.Records.{Recommendation, Target}
use ai_powered_respiratory_h.Governance.Service.{Lookup, Facilities, Environment}

-- `status_val in statuses or avail_cap <= 0`; a capacity that is no number cannot be compared.
abbrev pub exhausted : Option Value → Result Bool
exhausted none = ok true
exhausted (some (Value.number n)) = ok (leb n 0)
exhausted (some (Value.flag b)) = ok (not b)
exhausted (some _) = raise type_error

abbrev pub is_one_of : String → String → Option Value → Bool
is_one_of s t (some (Value.string v)) = v == s || v == t
is_one_of s t _ = false

abbrev pub facility_unfit : String → String → Dict Value → Result Bool
facility_unfit s t found =
    if is_one_of s t (lookup "status" found)
    then ok true
    else exhausted (lookup "available_capacity" found)

abbrev pub incident_over : Dict Value → Result Bool
incident_over found = ok (is_one_of "RESOLVED" "CANCELLED" (lookup "status" found))

-- What a check does with what it found: a target that is unfit expires the recommendation and
-- fails, and any other exception than a failed precondition is passed over.
abbrev pub judge : Result Bool → Action Recommendation (Unit {0})
judge (ok true) rec = (raise precondition_failed, record rec { approval_status = expired })
judge (ok false) rec = (ok tt, rec)
judge (raise precondition_failed) rec = (raise precondition_failed, rec)
judge (raise _) rec = (ok tt, rec)

-- An answer that is `None` or an empty dictionary is no target to check.
abbrev pub inspect : (Dict Value → Result Bool) → Result (Option (Dict Value)) → Result Bool
inspect test (raise e) = raise e
inspect test (ok none) = ok false
inspect test (ok (some [])) = ok false
inspect test (ok (some (x ∷ d))) = test (x ∷ d)

abbrev pub check_entity : Facilities → EntityType → String → Action Recommendation (Unit {0})
check_entity f hospital id =
    judge (inspect (facility_unfit "CLOSED" "EVACUATING") (f.get_hospital id))
check_entity f shelter id =
    judge (inspect (facility_unfit "CLOSED" "AT_CAPACITY") (f.get_shelter id))
check_entity f _ id = pure tt

abbrev pub check_facility : Option Facilities → Target → Action Recommendation (Unit {0})
check_facility none target = pure tt
check_facility (some f) target = check_entity f target.entity_type target.entity_id

abbrev pub check_incident : Option Lookup → Target → Action Recommendation (Unit {0})
check_incident none target = pure tt
check_incident (some find) target =
    if starts_with target.entity_id "INC-"
    then judge (inspect incident_over (find target.entity_id))
    else pure tt

module _ (env : Environment) where
  -- `_validate_operational_preconditions`, on the stored recommendation
  unfoldable pub validate_operational_preconditions : Target → Action Recommendation (Unit {0})
  validate_operational_preconditions target =
      check_facility env.facility_service target >> check_incident env.incident_service target
