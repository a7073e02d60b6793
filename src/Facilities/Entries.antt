-- ===== src/Facilities/Entries.antt =====
-- services/api/app/repositories/facility_service.py: what the updates of capacity and of status send to
-- the digital twin, write to the record, and append to the history.
use Prim.Native.String.{◌++◌ as concat}
use ai_powered_respiratory_h.Base.{
  ℕ, ◌+◌, String, [], Option, none, some, or_else, decimal, truthy, string_eq,
}
use ai_powered_respiratory_h.Schemas.Event.{EventSource}
use ai_powered_respiratory_h.Twin.Events.{
  TwinEvent, Payload, FacilityType, hospital_facility, shelter_facility,
}
use ai_powered_respiratory_h.Facilities.Records.{
  FacilityKind, hospital_kind, shelter_kind, Amenities, hospital_amenities, shelter_amenities,
  FacilityRecord, FacilityAuditEntry,
}

abbrev pub event_kind : FacilityKind → FacilityType
event_kind hospital_kind = hospital_facility
event_kind shelter_kind = shelter_facility

-- `record.get("icu_available")`
abbrev pub beds_in : Amenities → Option ℕ
beds_in (hospital_amenities emergency icu) = some icu
beds_in (shelter_amenities power water) = none

-- `record["icu_available"] = n`, which only the hospital's method writes.
abbrev pub with_beds : Option ℕ → Amenities → Amenities
with_beds (some n) (hospital_amenities emergency icu) = hospital_amenities emergency n
with_beds _ amenities = amenities

-- The part of an event's identifier that all updates share.
abbrev numbered : String → String → ℕ → String
numbered prefix id version = concat prefix (concat id (concat "-v" (decimal version)))

abbrev pub capacity_event :
    FacilityKind
    → ℕ
    → String
    → FacilityRecord
    → (total room : ℕ) → Option ℕ
    → Option String
    → TwinEvent
capacity_event kind now id r total room beds reason = record {
  event_id = numbered "EVT-CAP-" id (r.state_version + 1);
  event_type = "CAPACITY_UPDATED";
  timestamp = now;
  source = EventSource.command_center;
  reason = reason;
  caused_by_event_id = none;
  metadata = [];
  payload = Payload.capacity_updated (record {
    facility_type = event_kind kind;
    facility_id = id;
    capacity = total;
    available_capacity = room;
    icu_available = elim beds [ none ↦ beds_in r.amenities | some n ↦ some n ];
    accessibility = none;
  });
}

abbrev pub with_capacity : ℕ → (total room : ℕ) → Option ℕ → FacilityRecord → FacilityRecord
with_capacity now total room beds r = record r {
  capacity = total;
  available_capacity = room;
  amenities = with_beds beds r.amenities;
  state_version = r.state_version + 1;
  last_updated = now;
}

-- The texts of an entry's details when the caller gives no reason.
abbrev capacity_words : FacilityKind → String
capacity_words hospital_kind = "Available capacity updated to "
capacity_words shelter_kind = "Shelter available capacity updated to "

abbrev status_words : FacilityKind → String
status_words hospital_kind = "Hospital status transitioned to "
status_words shelter_kind = "Shelter status transitioned to "

abbrev capacity_details : FacilityKind → FacilityRecord → String
capacity_details kind after =
    concat (capacity_words kind)
      (concat (decimal after.available_capacity) (concat "/" (decimal after.capacity)))

abbrev pub capacity_entry :
    FacilityKind → ℕ → String → Option String → FacilityRecord → FacilityRecord → FacilityAuditEntry
capacity_entry kind now actor reason before after = record {
  timestamp = now;
  actor = actor;
  action = "CAPACITY_UPDATED";
  previous_state = some before;
  new_state = after;
  state_version = after.state_version;
  details = or_else (truthy reason) (capacity_details kind after);
}

abbrev pub facility_status_event :
    FacilityKind → ℕ → String → FacilityRecord → String → Option String → TwinEvent
facility_status_event kind now id r new reason = record {
  event_id = numbered "EVT-STATUS-" id (r.state_version + 1);
  event_type = "FACILITY_STATUS_CHANGED";
  timestamp = now;
  source = EventSource.command_center;
  reason = reason;
  caused_by_event_id = none;
  metadata = [];
  payload = Payload.facility_status_changed (record {
    facility_type = event_kind kind;
    facility_id = id;
    previous_status = r.status;
    new_status = new;
  });
}

abbrev pub with_facility_status : ℕ → String → FacilityRecord → FacilityRecord
with_facility_status now new r = record r {
  status = new;
  state_version = r.state_version + 1;
  last_updated = now;
}

abbrev pub facility_status_entry :
    FacilityKind → ℕ → String → Option String → FacilityRecord → FacilityRecord → FacilityAuditEntry
facility_status_entry kind now actor reason before after = record {
  timestamp = now;
  actor = actor;
  action = concat "STATUS_TRANSITION_" after.status;
  previous_state = some before;
  new_state = after;
  state_version = after.state_version;
  details = or_else (truthy reason) (concat (status_words kind) after.status);
}
