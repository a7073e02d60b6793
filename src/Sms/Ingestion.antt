-- ===== src/Sms/Ingestion.antt =====
-- services/sms/ingestion.py: `SMSIngestionService`, whose digital twin is that of the incident service.
-- The digest of a text, the texts of exceptions and the GeoJSON text of a point are parameters; so are
-- the hexadecimal digits of the identifiers that a call draws.
use Prim.Native.String.{◌++◌ as concat}
use ai_powered_respiratory_h.Base.{
  ℕ, String, Bool, true, false, List, [], ◌∷◌, ◌++◌, Option, none, some, or_else, lookup, insert,
  Dict, strip, Exception, Result, ok, raise,
}
use ai_powered_respiratory_h.Schemas.Incident.{
  IncidentSeverity, IncidentSource, IncidentType, opened, sms, synthetic_demo, flood_inundation,
  road_blocked, bridge_failure, medical_emergency, shelter_needed, trapped_persons,
}
use ai_powered_respiratory_h.Incidents.Records.{Coordinate, Incident, IncidentRecord, IncidentStore}
use ai_powered_respiratory_h.Incidents.Service.{create_incident}
use ai_powered_respiratory_h.Sms.Contracts.{
  SmsEventType, flood, road, bridge, medical, shelter, rescue, SmsSeverity, low_severity,
  medium_severity, high_severity, critical_severity, SmsSource, sms_source, simulated_sms_demo,
  sms_status_value, sms_source_value, SmsMessage, SmsParseResult,
}
use ai_powered_respiratory_h.Sms.Parser.{TextLibrary, parse}

pub data IngestionStatus : Type 0 where
  duplicate_rejected parse_error ingested domain_rejected : IngestionStatus

-- `SMSIngestionResult`
pub record IngestionResult : Type 0 where
  pub success : Bool
  pub message_id : String
  pub status : IngestionStatus
  pub error : Option String
  pub incident_id : Option String
  pub raw_message : String
  pub is_duplicate : Bool

pub record ArchiveEntry : Type 0 where
  pub archive_id : String
  pub raw_text : String
  pub sender_reference : String
  pub received_at : ℕ
  pub source : String

pub record SmsStore : Type 0 where
  pub incident_service : IncidentStore
  pub raw_inbound_archive : List ArchiveEntry
  pub seen_message_hashes : Dict String

pub record Gateway : Type 0 where
  pub library : TextLibrary
  pub sha256 : String → String
  pub describe : Exception → String
  pub point : (longitude latitude : Coordinate) → String

-- What a call is given besides the text.
pub record Delivery : Type 0 where
  pub now : ℕ
  pub archive_digits : String
  pub message_digits : String
  pub incident_digits : String
  pub sender_reference : String
  pub source : SmsSource

abbrev pub severity_of : SmsSeverity → IncidentSeverity
severity_of low_severity = IncidentSeverity.low
severity_of medium_severity = IncidentSeverity.medium
severity_of high_severity = IncidentSeverity.high
severity_of critical_severity = IncidentSeverity.critical

abbrev pub incident_type_of : SmsEventType → IncidentType
incident_type_of flood = flood_inundation
incident_type_of road = road_blocked
incident_type_of bridge = bridge_failure
incident_type_of medical = medical_emergency
incident_type_of shelter = shelter_needed
incident_type_of rescue = trapped_persons

abbrev pub priority_of : SmsSeverity → ℕ
priority_of critical_severity = 1
priority_of _ = 2

abbrev pub incident_source_of : SmsSource → IncidentSource
incident_source_of sms_source = sms
incident_source_of simulated_sms_demo = synthetic_demo

abbrev pub incident_id_of : Delivery → String
incident_id_of d = concat "INC-SMS-" d.incident_digits

-- An entity is the second word of a message, and so never empty.
abbrev pub incident_of : Gateway → Delivery → SmsMessage → Incident
incident_of g d m = record {
  incident_id = incident_id_of d;
  event_type = incident_type_of m.event_type;
  severity = severity_of m.severity;
  status = opened;
  priority = priority_of m.severity;
  location = record {
    longitude = m.longitude;
    latitude = m.latitude;
    geometry = g.point m.longitude m.latitude;
  };
  description = concat "[SMS FALLBACK] Entity: " (
      concat m.entity_id (
        concat ", Status: " (concat (sms_status_value m.status) (concat ". Raw: " m.raw_message))));
  reported_at = d.now;
  reported_by = m.sender_reference;
  source = incident_source_of d.source;
  evidence = none;
}

abbrev pub archived : Delivery → String → SmsStore → SmsStore
archived d raw s = record s {
  raw_inbound_archive =
      s.raw_inbound_archive
      ++ record {
        archive_id = concat "RAW-" d.archive_digits;
        raw_text = raw;
        sender_reference = d.sender_reference;
        received_at = d.now;
        source = sms_source_value d.source;
      }
        ∷ [];
}

-- 5. The answer, by the outcome of the incident service.
unfoldable pub conclude_ingestion :
    Gateway
    → Delivery
    → (raw message_id : String) → Result IncidentRecord × IncidentStore
    → SmsStore
    → IngestionResult × SmsStore
conclude_ingestion g d raw message_id (ok r, incidents) s = (
  record {
    success = true;
    message_id = message_id;
    status = ingested;
    error = none;
    incident_id = some (incident_id_of d);
    raw_message = raw;
    is_duplicate = false;
  },
  record s { incident_service = incidents },
)
conclude_ingestion g d raw message_id (raise e, incidents) s = (
  record {
    success = false;
    message_id = message_id;
    status = domain_rejected;
    error = some (g.describe e);
    incident_id = none;
    raw_message = raw;
    is_duplicate = false;
  },
  record s { incident_service = incidents },
)

-- 3. and 4. What is done with a text that was not seen, by the message that it says.
unfoldable pub ingest_parsed :
    Gateway
    → Delivery
    → String
    → (error : Option String) → Option SmsMessage
    → SmsStore
    → IngestionResult × SmsStore
ingest_parsed g d raw error none s = (
  record {
    success = false;
    message_id = "INVALID";
    status = parse_error;
    error = some (or_else error "Unknown parse error");
    incident_id = none;
    raw_message = raw;
    is_duplicate = false;
  },
  s,
)
ingest_parsed g d raw error (some m) s =
    conclude_ingestion g d raw m.message_id
      (create_incident d.now (incident_of g d m) (concat "SMS_GATEWAY_" (sms_source_value d.source))
        s.incident_service)
      (record s {
        seen_message_hashes = insert (g.sha256 (strip raw)) m.message_id s.seen_message_hashes;
      })

abbrev pub parsed : Gateway → Delivery → String → SmsParseResult
parsed g d raw =
    parse g.library
      (record {
        message_id = concat "SMS-" d.message_digits;
        received_at = d.now;
        sender_reference = d.sender_reference;
        source = d.source;
      })
      raw

-- 2. A text whose digest was seen is answered at once.
unfoldable pub ingest_unseen :
    Gateway → Delivery → String → Option String → SmsStore → IngestionResult × SmsStore
ingest_unseen g d raw (some existing) s = (
  record {
    success = true;
    message_id = existing;
    status = duplicate_rejected;
    error = some "Duplicate SMS detected. Replay rejected to protect state integrity.";
    incident_id = none;
    raw_message = raw;
    is_duplicate = true;
  },
  s,
)
ingest_unseen g d raw none s =
    ingest_parsed g d raw (parsed g d raw).error_message (parsed g d raw).parsed_message s

unfoldable pub ingest_sms : Gateway → Delivery → String → SmsStore → IngestionResult × SmsStore
ingest_sms g d raw s =
    ingest_unseen g d raw (lookup (g.sha256 (strip raw)) s.seen_message_hashes) (archived d raw s)
