-- ===== src/Facilities/Exposure.antt =====
-- services/api/app/repositories/facility_service.py: the exposure of a location to the active flood. The
-- geometric test of a third-party library is a parameter, with `none` for an exception that it raises;
-- a polygon is its canonical JSON text.
use ai_powered_respiratory_h.Base.{
  String, Bool, true, false, Option, none, some, or_else, truthy, ◌==◌, string_eq, if◌then◌else◌,
}
use ai_powered_respiratory_h.Incidents.Records.{Location}
use ai_powered_respiratory_h.Facilities.Records.{
  not_evaluated, exposed, clear, evaluation_error, FloodExposure, FacilityStore,
}

unfoldable pub set_active_flood_scenario :
    Option String → Option String → FacilityStore → FacilityStore
set_active_flood_scenario scenario_id polygon s = record s {
  active_flood_scenario_id = scenario_id;
  active_flood_polygon = polygon;
}

abbrev unevaluated : FloodExposure
unevaluated = record {
  is_exposed = false;
  status = not_evaluated;
  scenario_id = none;
  mode = none;
  evaluated = false;
}

-- The answer for a polygon, from the outcome of the geometric test; `none` is an exception of it.
abbrev pub exposure : Option String → Option Bool → FloodExposure
exposure scenario none = record {
  is_exposed = false;
  status = evaluation_error;
  scenario_id = scenario;
  mode = some "SIMULATION";
  evaluated = false;
}
exposure scenario (some hit) = record {
  is_exposed = hit;
  status = if hit then exposed else clear;
  scenario_id = some (or_else (truthy scenario) "SIMULATED-FLOOD-CURRENT");
  mode = some "SIMULATION";
  evaluated = true;
}

-- `None` and an empty dictionary are false in a test.
abbrev pub active : Option String → Option String
active none = none
active (some polygon) = if polygon == "{}" then none else some polygon

-- The outcome of the guards and of the test for the active polygon.
abbrev pub exposed_to :
    (String → Location → Option Bool) → Option String → Option String → Location → FloodExposure
exposed_to intersects scenario none l = unevaluated
exposed_to intersects scenario (some polygon) l = exposure scenario (intersects polygon l)

unfoldable pub evaluate_flood_exposure :
    (String → Location → Option Bool) → Location → FacilityStore → FloodExposure
evaluate_flood_exposure intersects l s =
    exposed_to intersects s.active_flood_scenario_id (active s.active_flood_polygon) l
