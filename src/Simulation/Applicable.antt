-- ===== src/Simulation/Applicable.antt =====
-- services/simulation/validator.py: which scenarios pass.
use mathlib.Core.Option
use ai_powered_respiratory_h.Base.{
  ℕ, ◌≤◌, Bool, true, ◌≡◌, ◌↔◌, ◌⊎◌, refl, arith, List, [], ◌∷◌, Option, lookup, leb, ◌==◌,
  if◌then◌else◌, is_some, ◌||◌, Result, ok, raise, and_then, All, scenario_version_conflict, nat_eq,
}
use ai_powered_respiratory_h.Twin.Entities.{HospitalEntity, ShelterEntity, BridgeEntity}
use ai_powered_respiratory_h.Twin.State.{Twin}
use ai_powered_respiratory_h.Simulation.Models.{
  Modification, flood_level, bridge_failure, hospital_capacity, shelter_capacity, resource_shortage,
  Scenario,
}
use ai_powered_respiratory_h.Simulation.Validator.{
  refuse_unless, check_bridge, check_hospital, check_shelter, check_modification, check_all,
  validate_scenario_against_state, IsApplicable, Fits,
}

refuse_unless_iff : (c : Bool) → (refuse_unless c ≡ ok tt) ↔ (c ≡ true)
refuse_unless_iff c = ground arith

check_bridge_iff : (b : Option BridgeEntity) → (check_bridge b ≡ ok tt) ↔ (is_some b ≡ true)
check_bridge_iff b = ground arith

leb_iff : (a b : ℕ) → (leb a b ≡ true) ↔ (a ≤ b)
leb_iff a b = ground arith

check_hospital_iff :
    (n : ℕ) (h : Option HospitalEntity)
    → (check_hospital n h ≡ ok tt) ↔ Fits n (Option.map (λ h. h.capacity) h)
check_hospital_iff n h = ground arith

check_shelter_iff :
    (n : ℕ) (h : Option ShelterEntity)
    → (check_shelter n h ≡ ok tt) ↔ Fits n (Option.map (λ h. h.capacity) h)
check_shelter_iff n h = ground arith

any_of_three :
    (a b c : Bool)
    → (refuse_unless (a || b || c) ≡ ok tt) ↔ ((a ≡ true) ⊎ ((b ≡ true) ⊎ (c ≡ true)))
any_of_three a b c = ground arith

check_modification_iff :
    (t : Twin) (m : Modification) → (check_modification t m ≡ ok tt) ↔ IsApplicable t m
check_modification_iff t (bridge_failure id propagate) = check_bridge_iff (lookup id t.bridges)
check_modification_iff t (hospital_capacity id room icu) =
    check_hospital_iff room (lookup id t.hospitals)
check_modification_iff t (shelter_capacity id room) = check_shelter_iff room (lookup id t.shelters)
check_modification_iff t (flood_level f) = any_of_three _ _ _
check_modification_iff t (resource_shortage kind quantity teams) = ((λ e. tt), (λ u. refl))

and_then_iff :
    (r q : Result (Unit {0})) → (and_then r (λ u. q) ≡ ok tt) ↔ ((r ≡ ok tt) × (q ≡ ok tt))
and_then_iff (ok u) q = ((λ e. (refl, e)), (λ e. e.1))
and_then_iff (raise x) q = ground arith

check_all_iff :
    (t : Twin) (ms : List Modification) → (check_all t ms ≡ ok tt) ↔ All (IsApplicable t) ms
check_all_iff t [] = ((λ e. tt), (λ u. refl))
check_all_iff t (m ∷ ms) =
    let step = and_then_iff (check_modification t m) (check_all t ms) in
    let first = check_modification_iff t m in
    let rest = check_all_iff t ms in
    ((λ e. (first.0 (step.0 e).0, rest.0 (step.0 e).1)), (λ h. step.1 (first.1 h.0, rest.1 h.1)))

version_gate :
    (a b : ℕ) (r : Result (Unit {0}))
    → ((if a == b then r else raise scenario_version_conflict) ≡ ok tt) ↔ ((a ≡ b) × (r ≡ ok tt))
version_gate a b r = ground arith

-- A scenario passes the validation exactly when its base version is the twin's and each of its
-- modifications is applicable: the bridge is there, the room of a hospital or a shelter that is there
-- is at most its capacity, a flood level is given in one of three ways.
pub validate_scenario_iff :
    (s : Scenario) (t : Twin)
    → (validate_scenario_against_state s t ≡ ok tt)
      ↔ ((s.base_state_version ≡ t.version) × All (IsApplicable t) s.modifications)
unfolding validate_scenario_against_state
validate_scenario_iff s t =
    let gate = version_gate s.base_state_version t.version (check_all t s.modifications) in
    let rest = check_all_iff t s.modifications in
    ((λ e. ((gate.0 e).0, rest.0 (gate.0 e).1)), (λ h. gate.1 (h.0, rest.1 h.1)))
