-- ===== src/Incidents/Records.antt =====
-- services/api/app/repositories/incident_service.py: what `IncidentService` stores.
--
-- An incident's record is a Python dictionary with fixed keys, and so a record here.
use ai_powered_respiratory_h.Base.{
  ℕ, String, Bool, List, Option, Dict, nat_eq, string_eq, option_eq,
}
use ai_powered_respiratory_h.Schemas.Incident.{
  IncidentStatus, IncidentSeverity, incident_severity_eq, IncidentSource, IncidentType,
}
use ai_powered_respiratory_h.Twin.State.{Twin}

-- Degrees, in millionths, with a sign.
pub record Coordinate : Type 0 where
  pub negative : Bool
  pub magnitude : ℕ

-- `PointLocation`, with the GeoJSON text of it.
pub record Location : Type 0 where
  pub longitude : Coordinate
  pub latitude : Coordinate
  pub geometry : String

-- `Incident`
pub record Incident : Type 0 where
  pub incident_id : String
  pub event_type : IncidentType
  pub severity : IncidentSeverity
  pub status : IncidentStatus
  pub priority : ℕ
  pub location : Location
  pub description : String
  pub reported_at : ℕ
  pub reported_by : String
  pub source : IncidentSource
  pub evidence : Option String

-- What the service stores of an incident.
pub record IncidentRecord : Type 0 where
  pub incident : Incident
  pub state_version : ℕ
  pub created_at : ℕ
  pub updated_at : ℕ
  pub assigned_team_id : Option String
  pub allowed_transitions : Option (List IncidentStatus)

-- `IncidentAuditEntry`
pub record IncidentAuditEntry : Type 0 where
  pub timestamp : ℕ
  pub actor : String
  pub action : String
  pub previous_state : Option IncidentRecord
  pub new_state : IncidentRecord
  pub state_version : ℕ
  pub details : String

pub record IncidentStore : Type 0 where
  pub digital_twin : Twin
  pub incidents : Dict IncidentRecord
  pub audit_logs : Dict (List IncidentAuditEntry)
