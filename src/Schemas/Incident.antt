-- ===== src/Schemas/Incident.antt =====
-- services/api/app/schemas/incident.py.
use ai_powered_respiratory_h.Base.{ℕ, String, ◌≡◌, ◌↔◌, true, arith, Eq, eq_by, nat_beq}

pub data IncidentStatus : Type 0 where
  opened acknowledged in_progress resolved cancelled : IncidentStatus

abbrev pub incident_rank : IncidentStatus → ℕ
incident_rank opened = 0
incident_rank acknowledged = 1
incident_rank in_progress = 2
incident_rank resolved = 3
incident_rank cancelled = 4

pub incident_rank_iff :
    (a b : IncidentStatus) → (nat_beq (incident_rank a) (incident_rank b) ≡ true) ↔ (a ≡ b)
incident_rank_iff a b = ground arith

instance abbrev pub incident_status_eq : Eq IncidentStatus
incident_status_eq = eq_by incident_rank incident_rank_iff

abbrev pub incident_value : IncidentStatus → String
incident_value opened = "OPEN"
incident_value acknowledged = "ACKNOWLEDGED"
incident_value in_progress = "IN_PROGRESS"
incident_value resolved = "RESOLVED"
incident_value cancelled = "CANCELLED"

pub data IncidentSeverity : Type 0 where
  low medium high critical : IncidentSeverity

abbrev pub severity_rank : IncidentSeverity → ℕ
severity_rank low = 0
severity_rank medium = 1
severity_rank high = 2
severity_rank critical = 3

pub severity_rank_iff :
    (a b : IncidentSeverity) → (nat_beq (severity_rank a) (severity_rank b) ≡ true) ↔ (a ≡ b)
severity_rank_iff a b = ground arith

instance abbrev pub incident_severity_eq : Eq IncidentSeverity
incident_severity_eq = eq_by severity_rank severity_rank_iff

pub data IncidentSource : Type 0 where
  field_officer sms manual_entry simulator osm historical_flood_dataset synthetic_demo :
      IncidentSource

abbrev pub severity_value : IncidentSeverity → String
severity_value low = "LOW"
severity_value medium = "MEDIUM"
severity_value high = "HIGH"
severity_value critical = "CRITICAL"

-- `IncidentEventType`
pub data IncidentType : Type 0 where
  flood_inundation road_blocked bridge_failure embankment_breach : IncidentType
  medical_emergency trapped_persons shelter_needed resource_request : IncidentType

abbrev pub incident_type_value : IncidentType → String
incident_type_value flood_inundation = "FLOOD_INUNDATION"
incident_type_value road_blocked = "ROAD_BLOCKED"
incident_type_value bridge_failure = "BRIDGE_FAILURE"
incident_type_value embankment_breach = "EMBANKMENT_BREACH"
incident_type_value medical_emergency = "MEDICAL_EMERGENCY"
incident_type_value trapped_persons = "TRAPPED_PERSONS"
incident_type_value shelter_needed = "SHELTER_NEEDED"
incident_type_value resource_request = "RESOURCE_REQUEST"
