-- ===== src/Simulation/Preview.antt =====
-- services/simulation/executor.py: the modifications of a scenario in their order, and the preview.
-- The registries are keyed by the entities' own identifiers. The evaluation of a test route is left out.
use Prim.Native.String.{◌++◌ as concat}
use ai_powered_respiratory_h.Base.{
  ℕ, ◌+◌, String, Bool, false, List, [], ◌∷◌, ◌++◌, map, Option, none, some, lookup, values, truthy,
  or_else, if◌then◌else◌, filter, length, not, ◌==◌, ◌&&◌, ◌||◌, string_eq, Result, ok, raise,
  Action, ◌>>=◌, ◌>>◌, pure, modify, lift, and_then,
}
use ai_powered_respiratory_h.Base.Order.{arrange, text_leb}
use ai_powered_respiratory_h.Schemas.Road.{RoadStatus, road_status_eq, restricted, blocked}
use ai_powered_respiratory_h.Twin.Entities.{RoadEntity, HospitalEntity, ShelterEntity}
use ai_powered_respiratory_h.Twin.Events.{TwinEvent, Payload, hospital_facility, shelter_facility}
use ai_powered_respiratory_h.Twin.State.{Twin}
use ai_powered_respiratory_h.Twin.Handling.{Clock}
use ai_powered_respiratory_h.Twin.Apply.{apply_event}
use ai_powered_respiratory_h.Twin.Snapshot.{fork}
use ai_powered_respiratory_h.Simulation.Models.{
  FloodLevel, Modification, flood_level, bridge_failure, hospital_capacity, shelter_capacity,
  resource_shortage, Scenario, Preview,
}
use ai_powered_respiratory_h.Simulation.Validator.{validate_scenario_against_state}
use ai_powered_respiratory_h.Simulation.Executor.{
  Extent, FloodEngine, Run, on_fork, add_changed, add_step, scenario_event, bridge_event,
  facility_event, note_bridge, if_applied, facility_impact, note_facility, apply_shortage,
}

-- The live entity's name, capacity and room, or what stands in for a missing one.
pub record Baseline : Type 0 where
  pub name : Option String
  pub capacity : ℕ
  pub room : ℕ

abbrev pub hospital_baseline : Option HospitalEntity → Baseline
hospital_baseline none = record { name = none; capacity = 100; room = 0 }
hospital_baseline (some h) = record {
  name = some h.name;
  capacity = h.capacity;
  room = h.available_capacity;
}

abbrev pub shelter_baseline : Option ShelterEntity → Baseline
shelter_baseline none = record { name = none; capacity = 200; room = 0 }
shelter_baseline (some h) = record {
  name = some h.name;
  capacity = h.capacity;
  room = h.available_capacity;
}

abbrev pub flood_event : ℕ → String → Extent → TwinEvent
flood_event now scenario extent =
    scenario_event now (concat scenario "-FLOOD") "FLOOD_UPDATED" none none (
      Payload.flood_updated (record {
        flood_zone_id = extent.flood_zone_id;
        name = some extent.name;
        geometry = extent.geometry;
        severity = extent.severity;
        water_depth_m = extent.maximum_depth_m;
      }))

abbrev pub closure_event : ℕ → String → String → Option String → TwinEvent
closure_event now scenario road reason =
    scenario_event now (concat scenario (concat "-R-" road)) "ROAD_STATUS_CHANGED"
      (some (or_else (truthy reason) "Submerged above vehicle threshold"))
      (some (concat "SCEN-EVT-" (concat scenario "-FLOOD")))
      (Payload.road_status_changed (record {
        road_id = road;
        previous_status = none;
        new_status = blocked;
        new_accessibility = none;
        new_speed_kmh = none;
      }))

module _ (clock : Clock) (now : ℕ) (engine : FloodEngine) where
  abbrev pub fail_bridge : String → String → Bool → Action Run (Unit {0})
  fail_bridge scenario id propagate =
      on_fork (apply_event clock (bridge_event now scenario id propagate))
      >>= if_applied (note_bridge id)

  abbrev pub change_hospital : String → Baseline → String → ℕ → Option ℕ → Action Run (Unit {0})
  change_hospital scenario base id room icu =
      on_fork (
        apply_event clock
          (facility_event now (concat scenario "-H-") hospital_facility id base.capacity room icu))
      >>= if_applied (note_facility (facility_impact id "HOSPITAL" base.name base.room room))

  abbrev pub change_shelter : String → Baseline → String → ℕ → Action Run (Unit {0})
  change_shelter scenario base id room =
      on_fork (
        apply_event clock
          (facility_event now (concat scenario "-S-") shelter_facility id base.capacity room none))
      >>= if_applied (note_facility (facility_impact id "SHELTER" base.name base.room room))

  -- One road that is to be closed, and whether it was.
  abbrev pub close_road : String → RoadEntity → Option (Option String) → Action Run (List String)
  close_road scenario road none run = (ok [], run)
  close_road scenario road (some reason) run =
      (on_fork (apply_event clock (closure_event now scenario road.road_id reason))
          >>= λ result run.
              if result.applied
              then (ok (road.road_id ∷ []), add_changed road.road_id run)
              else (ok [], run))
        run

  abbrev pub close_roads : String → Extent → FloodLevel → List RoadEntity → Action Run (List String)
  close_roads scenario extent level [] = pure []
  close_roads scenario extent level (road ∷ roads) =
      lift (engine.closure road extent level)
      >>= (λ reason. close_road scenario road reason)
      >>= λ closed. close_roads scenario extent level roads >>= λ rest. pure (closed ++ rest)

  abbrev pub note_closures : List String → Run → Run
  note_closures [] run = run
  note_closures (id ∷ ids) run = add_step (engine.list_text (id ∷ ids)) run

  abbrev pub flood_roads : String → Extent → FloodLevel → Action Run (Unit {0})
  flood_roads scenario extent level run =
      (close_roads scenario extent level (values run.twin.roads) >>= λ closed.
      modify (note_closures closed))
        run

  abbrev pub raise_water : String → FloodLevel → Action Run (Unit {0})
  raise_water scenario level = lift (engine.simulate scenario level) >>= λ extent.
      on_fork (apply_event clock (flood_event now scenario extent))
      >> modify (λ run. add_step extent.flood_zone_id (add_changed extent.flood_zone_id run))
      >> flood_roads scenario extent level

  unfoldable pub apply_modification : Twin → String → Modification → Action Run (Unit {0})
  apply_modification live scenario (bridge_failure id propagate) = fail_bridge scenario id propagate
  apply_modification live scenario (hospital_capacity id room icu) =
      change_hospital scenario (hospital_baseline (lookup id live.hospitals)) id room icu
  apply_modification live scenario (shelter_capacity id room) =
      change_shelter scenario (shelter_baseline (lookup id live.shelters)) id room
  apply_modification live scenario (resource_shortage kind quantity teams) =
      modify (apply_shortage live kind quantity)
  apply_modification live scenario (flood_level level) = raise_water scenario level

  unfoldable pub apply_modifications : Twin → String → List Modification → Action Run (Unit {0})
  apply_modifications live scenario [] = pure tt
  apply_modifications live scenario (m ∷ ms) =
      apply_modification live scenario m >> apply_modifications live scenario ms

  abbrev pub start : Twin → Run
  start twin = record {
    twin = twin;
    changed_entities = [];
    causal_steps = [];
    step_counter = 1;
    facility_impacts = [];
    resource_impacts = [];
  }

  abbrev has_status : RoadStatus → Option RoadEntity → Bool
  has_status s none = false
  has_status s (some road) = road.status == s

  -- The fork's roads with a status that the live ones do not have.
  abbrev pub newly : RoadStatus → (live after : Twin) → List String
  newly s live after =
      map (λ road. road.road_id)
        (filter (λ road. road.status == s && not (has_status s (lookup road.road_id live.roads)))
          (values after.roads))

  abbrev is_among : String → List String → Bool
  is_among id [] = false
  is_among id (other ∷ others) = other == id || is_among id others

  -- `set(…)`
  abbrev pub distinct : List String → List String
  distinct [] = []
  distinct (id ∷ ids) = let rest = distinct ids in if is_among id ids then rest else id ∷ rest

  abbrev pub conclude_preview : Scenario → Twin → Run → Preview
  conclude_preview s live run =
      let closed = newly blocked live run.twin in
      let limited = newly restricted live run.twin in
      record {
        scenario_id = s.scenario_id;
        name = s.name;
        base_state_version = s.base_state_version;
        scenario_state_version = run.twin.version;
        newly_blocked_roads = closed;
        newly_restricted_roads = limited;
        total_roads_affected = length closed + length limited;
        facility_impacts = run.facility_impacts;
        resource_impacts = run.resource_impacts;
        changed_entity_ids = arrange text_leb (distinct run.changed_entities);
        causal_chain = run.causal_steps;
        assumptions = s.assumptions;
      }

  abbrev pub conclude_run : Scenario → Twin → Result (Unit {0}) × Run → Result Preview
  conclude_run s live (ok u, run) = ok (conclude_preview s live run)
  conclude_run s live (raise e, run) = raise e

  abbrev pub run_preview : Scenario → Twin → Result (Unit {0}) × Twin → Result Preview
  run_preview s live (ok u, forked) =
      conclude_run s live (apply_modifications live s.scenario_id s.modifications (start forked))
  run_preview s live (raise e, forked) = raise e

  unfoldable pub execute_preview : Scenario → Twin → Result Preview
  execute_preview s live =
      and_then (validate_scenario_against_state s live)
        (λ u. run_preview s live (fork now none live))
