-- ===== src/Simulation/Validator.antt =====
-- services/simulation/validator.py. The guards against negative numbers cannot fail, since the models
-- have refused those.
use mathlib.Core.Option
use ai_powered_respiratory_h.Base.{
  ℕ, ◌≤◌, Bool, true, false, ◌≡◌, ◌⊎◌, List, [], ◌∷◌, Option, none, some, lookup, leb, ◌==◌, nat_eq,
  if◌then◌else◌, is_some, ◌||◌, Result, ok, raise, and_then, scenario_validation_error,
  scenario_version_conflict,
}
use ai_powered_respiratory_h.Twin.Entities.{HospitalEntity, ShelterEntity, BridgeEntity}
use ai_powered_respiratory_h.Twin.State.{Twin}
use ai_powered_respiratory_h.Simulation.Models.{
  Modification, flood_level, bridge_failure, hospital_capacity, shelter_capacity, resource_shortage,
  Scenario,
}

abbrev pub refuse_unless : Bool → Result (Unit {0})
refuse_unless true = ok tt
refuse_unless false = raise scenario_validation_error

abbrev pub check_bridge : Option BridgeEntity → Result (Unit {0})
check_bridge none = raise scenario_validation_error
check_bridge (some b) = ok tt

abbrev pub check_hospital : ℕ → Option HospitalEntity → Result (Unit {0})
check_hospital available none = raise scenario_validation_error
check_hospital available (some h) = refuse_unless (leb available h.capacity)

abbrev pub check_shelter : ℕ → Option ShelterEntity → Result (Unit {0})
check_shelter available none = raise scenario_validation_error
check_shelter available (some h) = refuse_unless (leb available h.capacity)

abbrev pub check_modification : Twin → Modification → Result (Unit {0})
check_modification t (bridge_failure id propagate) = check_bridge (lookup id t.bridges)
check_modification t (hospital_capacity id available icu) =
    check_hospital available (lookup id t.hospitals)
check_modification t (shelter_capacity id available) =
    check_shelter available (lookup id t.shelters)
check_modification t (flood_level f) = refuse_unless (
    is_some f.water_level_delta_meters
    || is_some f.absolute_water_level_meters
    || is_some f.flood_polygon)
check_modification t (resource_shortage kind quantity teams) = ok tt

abbrev pub check_all : Twin → List Modification → Result (Unit {0})
check_all t [] = ok tt
check_all t (m ∷ ms) = and_then (check_modification t m) (λ u. check_all t ms)

unfoldable pub validate_scenario_against_state : Scenario → Twin → Result (Unit {0})
validate_scenario_against_state s t =
    if s.base_state_version == t.version
    then check_all t s.modifications
    else raise scenario_version_conflict

-- The room of a facility that is there.
abbrev pub Fits : ℕ → Option ℕ → Type 0
Fits room none = ⊥
Fits room (some capacity) = room ≤ capacity

-- What a scenario may modify in a twin.
abbrev pub IsApplicable : Twin → Modification → Type 0
IsApplicable t (bridge_failure id propagate) = is_some (lookup id t.bridges) ≡ true
IsApplicable t (hospital_capacity id room icu) =
    Fits room (Option.map (λ h. h.capacity) (lookup id t.hospitals))
IsApplicable t (shelter_capacity id room) =
    Fits room (Option.map (λ h. h.capacity) (lookup id t.shelters))
IsApplicable t (flood_level f) =
    (is_some f.water_level_delta_meters ≡ true)
    ⊎ ((is_some f.absolute_water_level_meters ≡ true) ⊎ (is_some f.flood_polygon ≡ true))
IsApplicable t (resource_shortage kind quantity teams) = Unit
