-- ===== src/Twin/Entities.antt =====
-- digital_twin/entities: the entities that the twin keeps. A time is a number of microseconds, a
-- length or speed a number of thousandths, and a GeoJSON value its canonical text. pydantic's field
-- constraints `ge=0` are the type ℕ.
use ai_powered_respiratory_h.Base.{ℕ, String, Bool, List, Option, Dict, Value}
use ai_powered_respiratory_h.Schemas.Road.{RoadStatus, Accessibility, BridgeStatus}
use ai_powered_respiratory_h.Schemas.Facility.{HospitalStatus, ShelterStatus}
use ai_powered_respiratory_h.Schemas.Incident.{IncidentStatus, IncidentSeverity}
use ai_powered_respiratory_h.Schemas.Event.{FloodSeverity, VulnerabilityCategory}

pub record RoadEntity : Type 0 where
  pub road_id : String
  pub name : Option String
  pub status : RoadStatus
  pub accessibility : Accessibility
  pub speed_kmh : Option ℕ
  pub associated_bridge_ids : List String
  pub updated_at : ℕ
  pub source : String
  pub reason : Option String
  pub metadata : Dict Value

pub record BridgeEntity : Type 0 where
  pub bridge_id : String
  pub name : Option String
  pub road_id : Option String
  pub status : BridgeStatus
  pub clearance_m : Option ℕ
  pub updated_at : ℕ
  pub source : String
  pub reason : Option String
  pub metadata : Dict Value

pub record HospitalEntity : Type 0 where
  pub hospital_id : String
  pub name : String
  pub capacity : ℕ
  pub available_capacity : ℕ
  pub emergency_available : Bool
  pub icu_available : ℕ
  pub accessibility : String
  pub status : HospitalStatus
  pub location : Option String
  pub updated_at : ℕ
  pub source : String
  pub metadata : Dict Value

pub record ShelterEntity : Type 0 where
  pub shelter_id : String
  pub name : String
  pub capacity : ℕ
  pub available_capacity : ℕ
  pub accessibility : String
  pub status : ShelterStatus
  pub location : Option String
  pub updated_at : ℕ
  pub source : String
  pub metadata : Dict Value

pub data RescueTeamStatus : Type 0 where
  available dispatched on_scene returning off_duty maintenance : RescueTeamStatus

pub record RescueTeamEntity : Type 0 where
  pub rescue_team_id : String
  pub name : Option String
  pub status : RescueTeamStatus
  pub location : Option String
  pub vehicle_type : Option String
  pub capacity : ℕ
  pub current_assignment : Option String
  pub updated_at : ℕ
  pub source : String
  pub metadata : Dict Value

pub record IncidentEntity : Type 0 where
  pub incident_id : String
  pub event_type : String
  pub severity : IncidentSeverity
  pub status : IncidentStatus
  pub location : String
  pub reported_at : ℕ
  pub reported_by : Option String
  pub description : Option String
  pub evidence : Option String
  pub source : String
  pub priority : Option ℕ
  pub updated_at : ℕ
  pub metadata : Dict Value

pub record FloodZoneEntity : Type 0 where
  pub flood_zone_id : String
  pub name : Option String
  pub geometry : String
  pub severity : FloodSeverity
  pub water_depth_m : Option ℕ
  pub updated_at : ℕ
  pub source : String
  pub metadata : Dict Value

pub record PopulationEntity : Type 0 where
  pub population_id : String
  pub location : Option String
  pub count : ℕ
  pub updated_at : ℕ
  pub source : String
  pub metadata : Dict Value

pub record VulnerableGroupEntity : Type 0 where
  pub vulnerable_group_id : String
  pub name : Option String
  pub category : VulnerabilityCategory
  pub count : ℕ
  pub location : Option String
  pub updated_at : ℕ
  pub source : String
  pub metadata : Dict Value
