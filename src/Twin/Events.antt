-- ===== src/Twin/Events.antt =====
-- digital_twin/events: a domain event is the fields of `TwinEvent` and a payload for its class.
use ai_powered_respiratory_h.Base.{ℕ, String, Bool, Option, Dict, Value}
use ai_powered_respiratory_h.Schemas.Road.{RoadStatus, Accessibility, BridgeStatus}
use ai_powered_respiratory_h.Schemas.Incident.{IncidentStatus, IncidentSeverity}
use ai_powered_respiratory_h.Schemas.Event.{EventSource, FloodSeverity, VulnerabilityCategory}

pub record RoadStatusChanged : Type 0 where
  pub road_id : String
  pub previous_status : Option RoadStatus
  pub new_status : RoadStatus
  pub new_accessibility : Option Accessibility
  pub new_speed_kmh : Option ℕ

pub record BridgeStatusChanged : Type 0 where
  pub bridge_id : String
  pub previous_status : Option BridgeStatus
  pub new_status : BridgeStatus
  pub propagate_to_road : Bool

-- `facility_type`, as `.upper()` reads it; any other text is `other_facility`.
pub data FacilityType : Type 0 where
  hospital_facility shelter_facility other_facility : FacilityType

pub record CapacityUpdated : Type 0 where
  pub facility_type : FacilityType
  pub facility_id : String
  pub capacity : ℕ
  pub available_capacity : ℕ
  pub icu_available : Option ℕ
  pub accessibility : Option String

pub record FacilityStatusChanged : Type 0 where
  pub facility_type : FacilityType
  pub facility_id : String
  pub previous_status : String
  pub new_status : String

pub record IncidentCreated : Type 0 where
  pub incident_id : String
  pub incident_type : String
  pub severity : IncidentSeverity
  pub status : IncidentStatus
  pub location : String
  pub reported_by : Option String
  pub description : Option String
  pub evidence : Option String
  pub priority : Option ℕ

pub record IncidentStatusChanged : Type 0 where
  pub incident_id : String
  pub previous_status : Option IncidentStatus
  pub new_status : IncidentStatus
  pub assigned_team_id : Option String

pub record FloodUpdated : Type 0 where
  pub flood_zone_id : String
  pub name : Option String
  pub geometry : String
  pub severity : FloodSeverity
  pub water_depth_m : Option ℕ

pub record VulnerabilityUpdated : Type 0 where
  pub vulnerable_group_id : String
  pub name : Option String
  pub category : VulnerabilityCategory
  pub count : ℕ
  pub location : Option String

pub record PopulationUpdated : Type 0 where
  pub population_id : String
  pub count : ℕ
  pub location : Option String

-- The class of an event; `unsupported` is a subclass that `apply_event` does not know.
pub data Payload : Type 0 where
  road_status_changed : RoadStatusChanged → Payload
  bridge_status_changed : BridgeStatusChanged → Payload
  capacity_updated : CapacityUpdated → Payload
  facility_status_changed : FacilityStatusChanged → Payload
  incident_created : IncidentCreated → Payload
  incident_status_changed : IncidentStatusChanged → Payload
  flood_updated : FloodUpdated → Payload
  vulnerability_updated : VulnerabilityUpdated → Payload
  population_updated : PopulationUpdated → Payload
  unsupported : Payload

pub record TwinEvent : Type 0 where
  pub event_id : String
  pub event_type : String
  pub timestamp : ℕ
  pub source : EventSource
  pub reason : Option String
  pub caused_by_event_id : Option String
  pub metadata : Dict Value
  pub payload : Payload
