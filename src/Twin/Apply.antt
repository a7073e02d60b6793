-- ===== src/Twin/Apply.antt =====
-- digital_twin/state/state_manager.py: `apply_event` and its handlers.
use Prim.Native.String.{◌++◌ as concat}
use ai_powered_respiratory_h.Base.{
  String, Bool, true, false, List, [], ◌∷◌, Option, none, some, lookup, insert, truthy, or_else,
  if◌then◌else◌, Result, ok, raise, Action, ◌>>=◌, ◌>>◌, pure, throw, modify,
  state_transition_error,
}
use ai_powered_respiratory_h.Schemas.Road.{bridge_value}
use ai_powered_respiratory_h.Schemas.Event.{source_value}
use ai_powered_respiratory_h.Twin.Entities.{BridgeEntity, IncidentEntity}
use ai_powered_respiratory_h.Twin.Events.{
  TwinEvent, Payload, RoadStatusChanged, BridgeStatusChanged, CapacityUpdated,
  FacilityStatusChanged, IncidentCreated, IncidentStatusChanged, FloodUpdated, VulnerabilityUpdated,
  PopulationUpdated, FacilityType, hospital_facility, shelter_facility, other_facility,
}
use ai_powered_respiratory_h.Twin.Transitions.{
  apply_bridge_status_transition, apply_hospital_capacity_transition,
  apply_shelter_capacity_transition, apply_hospital_status_transition,
  apply_shelter_status_transition, apply_incident_status_transition, apply_flood_transition,
  apply_vulnerability_transition, apply_population_transition,
}
use ai_powered_respiratory_h.Twin.State.{
  Twin, TransitionResult, commit_event, with_overlay, sync_bridge, carried_status,
}
use ai_powered_respiratory_h.Twin.Handling.{
  Clock, later, unless_seen, finish_no_op, report, conclude, set_default, new_bridge,
  handle_road_status_changed, apply_road_event,
}

-- The causal event for the road of a bridge.
unfoldable pub cascaded_event_id : TwinEvent → String → String
cascaded_event_id e road_id = concat "CAUSED-" (concat e.event_id (concat "-" road_id))

unfoldable pub cascaded_change : BridgeStatusChanged → String → RoadStatusChanged
cascaded_change c road_id = record {
  road_id = road_id;
  previous_status = none;
  new_status = carried_status c.new_status;
  new_accessibility = none;
  new_speed_kmh = none;
}

abbrev cascade_reason : BridgeStatusChanged → String
cascade_reason c =
    concat "Cascading closure caused by Bridge "
      (concat c.bridge_id (concat " status " (bridge_value c.new_status)))

unfoldable pub cascaded_event : TwinEvent → BridgeStatusChanged → String → TwinEvent
cascaded_event e c road_id = record {
  event_id = cascaded_event_id e road_id;
  event_type = "ROAD_STATUS_CHANGED";
  timestamp = e.timestamp;
  source = e.source;
  reason = some (cascade_reason c);
  caused_by_event_id = some e.event_id;
  metadata = [];
  payload = Payload.road_status_changed (cascaded_change c road_id);
}

-- The road to propagate to: `event.propagate_to_road and updated_entity.road_id`.
abbrev pub cascade_target : BridgeStatusChanged → BridgeEntity → Option String
cascade_target c b = if c.propagate_to_road then truthy b.road_id else none

abbrev pub applied_ids : TwinEvent → String → TransitionResult → List String
applied_ids e road_id done = if done.applied then cascaded_event_id e road_id ∷ [] else []

unfoldable pub cascade :
    Clock → TwinEvent → BridgeStatusChanged → Option String → Action Twin (List String)
cascade clock e c none = pure []
cascade clock e c (some road_id) = do
  done ← apply_road_event clock (cascaded_event e c road_id) (cascaded_change c road_id)
  pure (applied_ids e road_id done)

unfoldable pub finish_bridge :
    Clock → TwinEvent → BridgeStatusChanged → BridgeEntity × Bool → Action Twin TransitionResult
finish_bridge clock e c (updated, true) = finish_no_op e
finish_bridge clock e c (updated, false) =
    modify (λ t. record t { bridges = insert c.bridge_id updated t.bridges })
    >> modify (commit_event e)
    >> with_overlay (sync_bridge updated)
    >> cascade clock e c (cascade_target c updated)
    >>= report e

unfoldable pub handle_bridge_status_changed :
    Clock → TwinEvent → BridgeStatusChanged → Action Twin TransitionResult
handle_bridge_status_changed clock e c t =
    let bridge = or_else (lookup c.bridge_id t.bridges) (new_bridge c.bridge_id (clock 0)) in
    finish_bridge (later clock) e c (apply_bridge_status_transition bridge e c)
      (record t { bridges = set_default c.bridge_id bridge t.bridges })

-- An exception of the rule ends the handler.
unfoldable pub settle :
    {A : Type 0} → TwinEvent → (A → Twin → Twin) → Result (A × Bool) → Action Twin TransitionResult
settle e write (raise x) = throw x
settle e write (ok outcome) = conclude e write outcome

-- A handler that needs its entity: look it up, run the rule, conclude.
unfoldable pub transition :
    {A : Type 0}
    → TwinEvent
    → (A → Result (A × Bool))
    → (A → Twin → Twin)
    → Option A
    → Action Twin TransitionResult
transition e rule write none = throw state_transition_error
transition e rule write (some entity) = settle e write (rule entity)

unfoldable pub handle_capacity_updated :
    TwinEvent → CapacityUpdated → FacilityType → Action Twin TransitionResult
handle_capacity_updated e c hospital_facility t =
    transition e (λ h. apply_hospital_capacity_transition h e c)
      (λ h t. record t { hospitals = insert c.facility_id h t.hospitals })
      (lookup c.facility_id t.hospitals) t
handle_capacity_updated e c shelter_facility t =
    transition e (λ s. apply_shelter_capacity_transition s e c)
      (λ s t. record t { shelters = insert c.facility_id s t.shelters })
      (lookup c.facility_id t.shelters) t
handle_capacity_updated e c other_facility t = throw state_transition_error t

unfoldable pub handle_facility_status_changed :
    TwinEvent → FacilityStatusChanged → FacilityType → Action Twin TransitionResult
handle_facility_status_changed e c hospital_facility t =
    transition e (λ h. apply_hospital_status_transition h e c)
      (λ h t. record t { hospitals = insert c.facility_id h t.hospitals })
      (lookup c.facility_id t.hospitals) t
handle_facility_status_changed e c shelter_facility t =
    transition e (λ s. apply_shelter_status_transition s e c)
      (λ s t. record t { shelters = insert c.facility_id s t.shelters })
      (lookup c.facility_id t.shelters) t
handle_facility_status_changed e c other_facility t = throw state_transition_error t

unfoldable pub created_incident : TwinEvent → IncidentCreated → IncidentEntity
created_incident e c = record {
  incident_id = c.incident_id;
  event_type = c.incident_type;
  severity = c.severity;
  status = c.status;
  location = c.location;
  reported_at = e.timestamp;
  reported_by = c.reported_by;
  description = c.description;
  evidence = c.evidence;
  source = source_value e.source;
  priority = c.priority;
  updated_at = e.timestamp;
  metadata = [];
}

unfoldable pub handle_incident_created : TwinEvent → IncidentCreated → Action Twin TransitionResult
handle_incident_created e c =
    conclude e (λ i t. record t { incidents = insert c.incident_id i t.incidents })
      (created_incident e c, false)

unfoldable pub handle_incident_status_changed :
    TwinEvent → IncidentStatusChanged → Action Twin TransitionResult
handle_incident_status_changed e c t =
    transition e (λ i. apply_incident_status_transition i e c)
      (λ i t. record t { incidents = insert c.incident_id i t.incidents })
      (lookup c.incident_id t.incidents) t

unfoldable pub handle_flood_updated : TwinEvent → FloodUpdated → Action Twin TransitionResult
handle_flood_updated e c t =
    conclude e (λ z t. record t { flood_zones = insert c.flood_zone_id z t.flood_zones })
      (apply_flood_transition (lookup c.flood_zone_id t.flood_zones) e c) t

unfoldable pub handle_vulnerability_updated :
    TwinEvent → VulnerabilityUpdated → Action Twin TransitionResult
handle_vulnerability_updated e c t =
    conclude e
      (λ g t. record t { vulnerable_groups = insert c.vulnerable_group_id g t.vulnerable_groups })
      (apply_vulnerability_transition (lookup c.vulnerable_group_id t.vulnerable_groups) e c) t

unfoldable pub handle_population_updated :
    TwinEvent → PopulationUpdated → Action Twin TransitionResult
handle_population_updated e c t =
    conclude e (λ p t. record t { populations = insert c.population_id p t.populations })
      (apply_population_transition (lookup c.population_id t.populations) e c) t

-- The dispatch on the class of the event.
unfoldable pub dispatch : Clock → TwinEvent → Payload → Action Twin TransitionResult
dispatch clock e (Payload.road_status_changed c) = handle_road_status_changed clock e c
dispatch clock e (Payload.bridge_status_changed c) = handle_bridge_status_changed clock e c
dispatch clock e (Payload.capacity_updated c) = handle_capacity_updated e c c.facility_type
dispatch clock e (Payload.facility_status_changed c) =
    handle_facility_status_changed e c c.facility_type
dispatch clock e (Payload.incident_created c) = handle_incident_created e c
dispatch clock e (Payload.incident_status_changed c) = handle_incident_status_changed e c
dispatch clock e (Payload.flood_updated c) = handle_flood_updated e c
dispatch clock e (Payload.vulnerability_updated c) = handle_vulnerability_updated e c
dispatch clock e (Payload.population_updated c) = handle_population_updated e c
dispatch clock e Payload.unsupported = throw state_transition_error

unfoldable pub apply_event : Clock → TwinEvent → Action Twin TransitionResult
apply_event clock e = unless_seen e (dispatch clock e e.payload)
