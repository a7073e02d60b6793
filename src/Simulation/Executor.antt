-- ===== src/Simulation/Executor.antt =====
-- services/simulation/executor.py: the modifications of a scenario on a fork of the digital twin. The
-- flood simulation and the exposure of a road to it are parameters.
use Prim.Native.String.{◌++◌ as concat}
use ai_powered_respiratory_h.Base.{
  ℕ, ◌+◌, ◌-◌, String, Bool, true, false, List, [], ◌∷◌, ◌++◌, Option, none, some, lookup, insert,
  values, truthy, leb, ltb, if◌then◌else◌, filter, length, Dict, ℤ, pos, negsuc, Result, ok, Action,
  zero, suc,
}
use ai_powered_respiratory_h.Schemas.Road.{blocked_bridge}
use ai_powered_respiratory_h.Schemas.Event.{EventSource, FloodSeverity}
use ai_powered_respiratory_h.Twin.Entities.{
  RoadEntity, BridgeEntity, RescueTeamEntity, RescueTeamStatus, available, off_duty,
}
use ai_powered_respiratory_h.Twin.Events.{TwinEvent, Payload, FacilityType}
use ai_powered_respiratory_h.Twin.State.{Twin, TransitionResult}
use ai_powered_respiratory_h.Simulation.Models.{
  FloodLevel, FacilityImpact, ResourceImpact, CausalStep,
}

-- What the flood simulation returns, with the name of its scenario.
pub record Extent : Type 0 where
  pub flood_zone_id : String
  pub name : String
  pub geometry : String
  pub severity : FloodSeverity
  pub maximum_depth_m : Option ℕ

pub record FloodEngine : Type 0 where
  pub simulate : String → FloodLevel → Result Extent
  -- `str(…)` of a list of identifiers.
  pub list_text : List String → String
  -- The reason why a road is to be closed, if it has a geometry and is to be closed.
  pub closure : RoadEntity → Extent → FloodLevel → Result (Option (Option String))

-- The variables of the loop.
pub record Run : Type 0 where
  pub twin : Twin
  pub changed_entities : List String
  pub causal_steps : List CausalStep
  pub step_counter : ℕ
  pub facility_impacts : List FacilityImpact
  pub resource_impacts : List ResourceImpact

abbrev pub on_fork : {A : Type 0} → Action Twin A → Action Run A
on_fork m run = let (r, t) = m run.twin in (r, record run { twin = t })

abbrev pub add_changed : String → Run → Run
add_changed id run = record run { changed_entities = run.changed_entities ++ id ∷ [] }

-- `causal_steps.append(CausalStep(step_number=step_counter, …)); step_counter += 1`
unfoldable pub add_step : String → Run → Run
add_step entity run = record run {
  causal_steps =
      run.causal_steps ++ record { step_number = run.step_counter; affected_entity = entity } ∷ [];
  step_counter = run.step_counter + 1;
}

-- `a - b` of two numbers that are not negative.
abbrev pub difference : ℕ → ℕ → ℤ
difference a b = if leb b a then pos (a - b) else negsuc (b - a - 1)

abbrev pub scenario_event :
    ℕ → String → String → Option String → Option String → Payload → TwinEvent
scenario_event now id kind reason cause p = record {
  event_id = concat "SCEN-EVT-" id;
  event_type = kind;
  timestamp = now;
  source = EventSource.simulation;
  reason = reason;
  caused_by_event_id = cause;
  metadata = [];
  payload = p;
}

abbrev pub bridge_event : ℕ → String → String → Bool → TwinEvent
bridge_event now scenario id propagate =
    scenario_event now (concat scenario (concat "-B-" id)) "BRIDGE_STATUS_CHANGED"
      (some (concat "SCENARIO [" (concat scenario (concat "]: Simulated failure of bridge " id))))
      none
      (Payload.bridge_status_changed (record {
        bridge_id = id;
        previous_status = none;
        new_status = blocked_bridge;
        propagate_to_road = propagate;
      }))

abbrev pub facility_event :
    ℕ → String → FacilityType → String → (capacity room : ℕ) → Option ℕ → TwinEvent
facility_event now mark kind id capacity room icu =
    scenario_event now (concat mark id) "CAPACITY_UPDATED" none none (
      Payload.capacity_updated (record {
        facility_type = kind;
        facility_id = id;
        capacity = capacity;
        available_capacity = room;
        icu_available = icu;
        accessibility = none;
      }))

abbrev pub note_passed : Option String → Run → Run
note_passed none run = run
note_passed (some road) run = add_step road (add_changed road run)

-- The road of a bridge that failed, whether or not the failure was propagated to it.
abbrev pub note_road : Option BridgeEntity → Run → Run
note_road none run = run
note_road (some b) run = note_passed (truthy b.road_id) run

abbrev pub note_bridge : String → Run → Run
note_bridge id run = note_road (lookup id run.twin.bridges) (add_step id (add_changed id run))

-- `if res.applied: …`
abbrev pub if_applied : (Run → Run) → TransitionResult → Action Run (Unit {0})
if_applied f result run = (ok tt, if result.applied then f run else run)

abbrev pub facility_impact : String → String → Option String → (before after : ℕ) → FacilityImpact
facility_impact id kind name before after = record {
  facility_id = id;
  facility_type = kind;
  name = name;
  baseline_available_capacity = before;
  scenario_available_capacity = after;
  capacity_delta = difference after before;
  status = if ltb after before then "CAPACITY_REDUCED" else "CAPACITY_CHANGED";
}

abbrev pub note_facility : FacilityImpact → Run → Run
note_facility impact run =
    let changed = add_changed impact.facility_id run in
    add_step impact.facility_id
      (record changed { facility_impacts = changed.facility_impacts ++ impact ∷ [] })

abbrev pub is_available : RescueTeamStatus → Bool
is_available available = true
is_available _ = false

-- `sum(1 for t in teams if t.status == AVAILABLE)`
abbrev pub count_available : Dict RescueTeamEntity → ℕ
count_available teams = length (filter (λ t. is_available t.status) (values teams))

-- The loop over the fork's teams; the first argument counts those still to be disabled.
unfoldable pub disable_teams :
    ℕ → List RescueTeamEntity → Dict RescueTeamEntity → Dict RescueTeamEntity × List String
disable_teams zero teams registry = (registry, [])
disable_teams (suc n) [] registry = (registry, [])
disable_teams (suc n) (team ∷ teams) registry =
    let skipped = disable_teams (suc n) teams registry in
    let (after, ids) =
      disable_teams n teams
        (insert team.rescue_team_id (record team { status = off_duty }) registry) in
    if is_available team.status then (after, team.rescue_team_id ∷ ids) else skipped

unfoldable pub apply_shortage : Twin → String → ℕ → Run → Run
apply_shortage live kind quantity run =
    let current = count_available live.rescue_teams in
    let (teams, affected) =
      disable_teams (current - quantity) (values run.twin.rescue_teams) run.twin.rescue_teams in
    let noted = record run {
      twin = record run.twin { rescue_teams = teams };
      resource_impacts =
          run.resource_impacts
          ++ record {
            resource_type = kind;
            baseline_available_quantity = current;
            scenario_available_quantity = quantity;
            quantity_delta = difference quantity current;
            affected_team_ids = affected;
          }
            ∷ [];
    } in
    add_step kind noted
