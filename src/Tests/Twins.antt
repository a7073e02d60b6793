-- ===== src/Tests/Twins.antt =====
-- A twin with one hospital, an event that creates an incident, and an event that shrinks the hospital.
use ai_powered_respiratory_h.Base.{
  ◌+◌, ◌≤◌, ◌<◌, String, true, false, ◌≡◌, refl, arith, [], none, some, lookup, insert, ok, raise,
  validation_error, IsOk, length,
}
use ai_powered_respiratory_h.Schemas.Facility.{operational}
use ai_powered_respiratory_h.Schemas.Incident.{opened, IncidentSeverity}
use ai_powered_respiratory_h.Schemas.Road.{open_bridge, collapsed}
use ai_powered_respiratory_h.Twin.Cascade.{status_of, apply_event-carried_status}
use ai_powered_respiratory_h.Schemas.Event.{EventSource}
use ai_powered_respiratory_h.Twin.Entities.{BridgeEntity, HospitalEntity}
use ai_powered_respiratory_h.Twin.Events.{
  TwinEvent, Payload, IncidentCreated, BridgeStatusChanged, CapacityUpdated, hospital_facility,
}
use ai_powered_respiratory_h.Twin.State.{
  Twin, TransitionResult, new_twin, register_hospital, register_bridge, sync_bridge, carried_status,
  commit_event,
}
use ai_powered_respiratory_h.Twin.Handling.{Clock, conclude, report}
use ai_powered_respiratory_h.Twin.Apply.{apply_event, dispatch, handle_incident_created}
use ai_powered_respiratory_h.Twin.Log.{IsLogged, apply_event-IsLogged}
use ai_powered_respiratory_h.Twin.Outcome.{
  IsAccounted, apply_event-IsAccounted, apply_event_idempotent,
}
use ai_powered_respiratory_h.Twin.Capacity.{
  IsBounded, apply_event-IsBounded, beds_of, capacity_update_cases,
}
use ai_powered_respiratory_h.Twin.History.{Extends, apply_event-Extends}
use ai_powered_respiratory_h.Twin.Replay.{detached}

abbrev pub clock : Clock
clock k = 1000 + k

abbrev clinic : HospitalEntity
clinic = record {
  hospital_id = "HOSP-1";
  name = "Clinic";
  capacity = 100;
  available_capacity = 40;
  emergency_available = true;
  icu_available = 4;
  accessibility = "ACCESSIBLE";
  status = operational;
  location = none;
  updated_at = 900;
  source = "SYSTEM";
  metadata = [];
}

abbrev pub base : Twin
base = register_hospital clinic (new_twin none 1 900)

abbrev fire : IncidentCreated
fire = record {
  incident_id = "INC-1";
  incident_type = "FIRE";
  severity = IncidentSeverity.high;
  status = opened;
  location = "{}";
  reported_by = none;
  description = none;
  evidence = none;
  priority = none;
}

abbrev event : String → Payload → TwinEvent
event id p = record {
  event_id = id;
  event_type = "EVENT";
  timestamp = 950;
  source = EventSource.system;
  reason = none;
  caused_by_event_id = none;
  metadata = [];
  payload = p;
}

abbrev fire_event : TwinEvent
fire_event = event "EVT-1" (Payload.incident_created fire)

abbrev smaller : CapacityUpdated
smaller = record {
  facility_type = hospital_facility;
  facility_id = "HOSP-1";
  capacity = 30;
  available_capacity = 10;
  icu_available = none;
  accessibility = none;
}

abbrev smaller_event : TwinEvent
smaller_event = event "EVT-2" (Payload.capacity_updated smaller)

-- The bridge of a road that is not registered.
abbrev span : BridgeEntity
span = record {
  bridge_id = "BRIDGE-7";
  name = none;
  road_id = some "OSM-ROAD-7";
  status = open_bridge;
  clearance_m = none;
  updated_at = 900;
  source = "SYSTEM";
  reason = none;
  metadata = [];
}

abbrev pub bridged : Twin
bridged = (register_bridge span (new_twin none 1 900)).1

abbrev collapse : BridgeStatusChanged
collapse = record {
  bridge_id = "BRIDGE-7";
  previous_status = none;
  new_status = collapsed;
  propagate_to_road = true;
}

abbrev collapse_event : TwinEvent
collapse_event = event "EVT-3" (Payload.bridge_status_changed collapse)

apply_event-carried_status_example :
    IsOk (apply_event clock collapse_event (detached bridged)).0
    × (status_of (lookup "OSM-ROAD-7" (apply_event clock collapse_event (detached bridged)).1.roads)
        ≡ some (carried_status collapsed))
unfolding register_bridge sync_bridge new_twin insert lookup
apply_event-carried_status_example =
    apply_event-carried_status clock collapse_event collapse span "OSM-ROAD-7" bridged refl refl
      refl refl refl refl refl

apply_event-IsLogged_example :
    let t' = (apply_event clock fire_event base).1 in
    IsLogged 1 t' × (1 + length t'.event_log ≡ t'.version)
unfolding register_hospital new_twin
apply_event-IsLogged_example = apply_event-IsLogged 1 clock fire_event base refl

apply_event-IsAccounted_example : IsAccounted fire_event base (apply_event clock fire_event base)
apply_event-IsAccounted_example = apply_event-IsAccounted clock fire_event base

abbrev applied : TransitionResult
applied = record {
  event_id = "EVT-1";
  applied = true;
  state_version = 2;
  is_duplicate = false;
  is_no_op = false;
  cascaded_event_ids = [];
}

apply_event_idempotent_example :
    apply_event clock fire_event (apply_event clock fire_event base).1 ≡ (
      ok (record {
        event_id = "EVT-1";
        applied = false;
        state_version = (apply_event clock fire_event base).1.version;
        is_duplicate = true;
        is_no_op = false;
        cascaded_event_ids = [];
      }),
      (apply_event clock fire_event base).1,
    )
unfolding apply_event dispatch handle_incident_created conclude report commit_event
    register_hospital new_twin lookup insert
apply_event_idempotent_example =
    apply_event_idempotent clock clock fire_event fire_event base
      (apply_event clock fire_event base).1 applied refl refl

apply_event-IsBounded_example : IsBounded (apply_event clock smaller_event base).1
unfolding register_hospital new_twin insert
apply_event-IsBounded_example =
    apply_event-IsBounded clock smaller_event base ((omega arith, tt), tt)

capacity_update_cases_example :
    (smaller.capacity < clinic.available_capacity
      → apply_event clock smaller_event base ≡ (raise validation_error, base))
    × (clinic.available_capacity ≤ smaller.capacity
        → IsOk (apply_event clock smaller_event base).0
          × (beds_of (lookup smaller.facility_id (apply_event clock smaller_event base).1.hospitals)
              ≡ some (smaller.capacity, smaller.available_capacity)))
unfolding register_hospital new_twin insert lookup
capacity_update_cases_example =
    capacity_update_cases clock smaller_event smaller clinic base refl refl refl refl (omega arith)

apply_event-Extends_example : Extends base (apply_event clock fire_event base).1
apply_event-Extends_example = apply_event-Extends clock fire_event base
