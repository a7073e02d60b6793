-- ===== src/Tests/Simulations.antt =====
-- A scenario that empties the clinic, and a flood engine that finds one zone and closes no road.
use ai_powered_respiratory_h.Base.{
  ℕ, ◌≡◌, refl, arith, [], ◌∷◌, none, some, Result, ok, raise, lookup, insert, length,
}
use ai_powered_respiratory_h.Schemas.Event.{severe}
use ai_powered_respiratory_h.Simulation.Models.{
  hospital_capacity, resource_shortage, Scenario, Preview,
}
use ai_powered_respiratory_h.Simulation.Validator.{validate_scenario_against_state}
use ai_powered_respiratory_h.Simulation.Applicable.{validate_scenario_iff}
use ai_powered_respiratory_h.Simulation.Executor.{
  FloodEngine, Run, add_step, apply_shortage, disable_teams,
}
use ai_powered_respiratory_h.Simulation.Preview.{
  Baseline, change_hospital, execute_preview, start, apply_modifications, apply_modification,
}
use ai_powered_respiratory_h.Simulation.Promise.{IsFaithful, execute_preview-IsFaithful}
use ai_powered_respiratory_h.Simulation.Repeats.{change_hospital_repeated}
use ai_powered_respiratory_h.Twin.State.{
  register_hospital, new_twin, sync_all_roads_to_overlay, sync_each,
}
use ai_powered_respiratory_h.Twin.Snapshot.{fork, restore_from_snapshot, create_snapshot}
use ai_powered_respiratory_h.Twin.Transitions.{apply_hospital_capacity_transition}
use ai_powered_respiratory_h.Twin.Handling.{conclude, report}
use ai_powered_respiratory_h.Twin.Apply.{
  apply_event, dispatch, handle_capacity_updated, transition, settle,
}
use ai_powered_respiratory_h.Tests.Twins.{clock, base}

abbrev engine : FloodEngine
engine = record {
  simulate = λ scenario level. ok (record {
    flood_zone_id = "ZONE-1";
    name = "Flood";
    geometry = "{}";
    severity = severe;
    maximum_depth_m = some 900;
  });
  list_text = λ ids. "[]";
  closure = λ road extent level. ok none;
}

abbrev full_clinic : Scenario
full_clinic = record {
  scenario_id = "S-1";
  name = "Full clinic";
  base_state_version = base.version;
  modifications = hospital_capacity "HOSP-1" 0 none ∷ resource_shortage "BOAT" 2 [] ∷ [];
  assumptions = [];
}

abbrev clinic_baseline : Baseline
clinic_baseline = record { name = some "Clinic"; capacity = 100; room = 40 }

abbrev emptied : Run
emptied =
    (change_hospital clock 990 engine "S-1" clinic_baseline "HOSP-1" 0 none
      (start clock 990 engine base)).1

validate_scenario_iff_example : validate_scenario_against_state full_clinic base ≡ ok tt
unfolding lookup insert register_hospital new_twin
validate_scenario_iff_example =
    (validate_scenario_iff full_clinic base).1 (refl, (omega arith, (tt, tt)))

execute_preview-IsFaithful_example :
    IsFaithful full_clinic base (execute_preview clock 990 engine full_clinic base)
execute_preview-IsFaithful_example = execute_preview-IsFaithful clock 990 engine full_clinic base

change_hospital_repeated_example :
    change_hospital clock 990 engine "S-1" clinic_baseline "HOSP-1" 25 none emptied
    ≡ (ok tt, emptied)
unfolding apply_event lookup register_hospital new_twin dispatch handle_capacity_updated transition
    insert settle apply_hospital_capacity_transition conclude report
change_hospital_repeated_example =
    change_hospital_repeated clock 990 engine "S-1" "HOSP-1" clinic_baseline clinic_baseline 0 25
      none none (start clock 990 engine base) emptied refl

abbrev step_count : Result Preview → ℕ
step_count (ok p) = length p.causal_chain
step_count (raise e) = 0

full_clinic_has_two_steps : step_count (execute_preview clock 990 engine full_clinic base) ≡ 2
unfolding execute_preview validate_scenario_against_state register_hospital new_twin lookup insert
    fork restore_from_snapshot sync_all_roads_to_overlay sync_each create_snapshot
    apply_modifications apply_modification apply_event dispatch handle_capacity_updated transition
    settle apply_hospital_capacity_transition conclude report add_step apply_shortage disable_teams
full_clinic_has_two_steps = refl
