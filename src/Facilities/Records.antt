-- ===== src/Facilities/Records.antt =====
-- services/api/app/repositories/facility_service.py: what `FacilityService` stores.
-- services/api/app/schemas/hospital.py and shelter.py: what it is given.
--
-- The records of hospitals and of shelters are Python dictionaries, which share most of their keys;
-- they are one record type here, with the keys that only one of them has in `Amenities`.
use ai_powered_respiratory_h.Base.{ℕ, String, Bool, List, [], Option, none, some, Dict}
use ai_powered_respiratory_h.Schemas.Road.{Accessibility, access_value}
use ai_powered_respiratory_h.Schemas.Facility.{
  HospitalStatus, ShelterStatus, hospital_value, shelter_value,
}
use ai_powered_respiratory_h.Incidents.Records.{Location}
use ai_powered_respiratory_h.Twin.State.{Twin}
use ai_powered_respiratory_h.Twin.Entities.{HospitalEntity, ShelterEntity}

pub data HospitalSource : Type 0 where
  osm health_registry manual_entry simulator synthetic_demo : HospitalSource

abbrev hospital_source_value : HospitalSource → String
hospital_source_value osm = "osm"
hospital_source_value health_registry = "health_registry"
hospital_source_value manual_entry = "manual_entry"
hospital_source_value simulator = "simulator"
hospital_source_value synthetic_demo = "synthetic_demo"

pub data ShelterSource : Type 0 where
  osm_shelter district_registry manual_shelter simulated_shelter demo_shelter : ShelterSource

abbrev shelter_source_value : ShelterSource → String
shelter_source_value osm_shelter = "osm"
shelter_source_value district_registry = "district_registry"
shelter_source_value manual_shelter = "manual_entry"
shelter_source_value simulated_shelter = "simulator"
shelter_source_value demo_shelter = "synthetic_demo"

pub record Hospital : Type 0 where
  pub hospital_id : String
  pub name : String
  pub location : Location
  pub status : HospitalStatus
  pub accessibility : Accessibility
  pub capacity : ℕ
  pub available_capacity : ℕ
  pub emergency_available : Bool
  pub icu_available : ℕ
  pub source : HospitalSource

pub record Shelter : Type 0 where
  pub shelter_id : String
  pub name : String
  pub location : Location
  pub status : ShelterStatus
  pub accessibility : Accessibility
  pub capacity : ℕ
  pub available_capacity : ℕ
  pub has_power_backup : Bool
  pub has_potable_water : Bool
  pub source : ShelterSource

pub data FacilityKind : Type 0 where
  hospital_kind shelter_kind : FacilityKind

pub data Amenities : Type 0 where
  hospital_amenities : (emergency_available : Bool) (icu_available : ℕ) → Amenities
  shelter_amenities : (has_power_backup has_potable_water : Bool) → Amenities

-- The "status" of an exposure.
pub data ExposureStatus : Type 0 where
  not_evaluated exposed clear evaluation_error : ExposureStatus

pub record FloodExposure : Type 0 where
  pub is_exposed : Bool
  pub status : ExposureStatus
  pub scenario_id : Option String
  pub mode : Option String
  pub evaluated : Bool

pub record FacilityRecord : Type 0 where
  pub facility_id : String
  pub name : String
  pub location : Location
  pub status : String
  pub accessibility : String
  pub capacity : ℕ
  pub available_capacity : ℕ
  pub amenities : Amenities
  pub source : String
  pub state_version : ℕ
  pub created_at : ℕ
  pub last_updated : ℕ
  pub flood_exposure : Option FloodExposure

pub record FacilityAuditEntry : Type 0 where
  pub timestamp : ℕ
  pub actor : String
  pub action : String
  pub previous_state : Option FacilityRecord
  pub new_state : FacilityRecord
  pub state_version : ℕ
  pub details : String

pub record FacilityStore : Type 0 where
  pub digital_twin : Twin
  pub hospitals : Dict FacilityRecord
  pub shelters : Dict FacilityRecord
  pub audit_logs : Dict (List FacilityAuditEntry)
  pub active_flood_polygon : Option String
  pub active_flood_scenario_id : Option String

-- `model_dump(mode="json")` of a new facility, with the keys that the service adds.
abbrev pub hospital_record : ℕ → Hospital → FacilityRecord
hospital_record now h = record {
  facility_id = h.hospital_id;
  name = h.name;
  location = h.location;
  status = hospital_value h.status;
  accessibility = access_value h.accessibility;
  capacity = h.capacity;
  available_capacity = h.available_capacity;
  amenities = hospital_amenities h.emergency_available h.icu_available;
  source = hospital_source_value h.source;
  state_version = 1;
  created_at = now;
  last_updated = now;
  flood_exposure = none;
}

abbrev pub shelter_record : ℕ → Shelter → FacilityRecord
shelter_record now h = record {
  facility_id = h.shelter_id;
  name = h.name;
  location = h.location;
  status = shelter_value h.status;
  accessibility = access_value h.accessibility;
  capacity = h.capacity;
  available_capacity = h.available_capacity;
  amenities = shelter_amenities h.has_power_backup h.has_potable_water;
  source = shelter_source_value h.source;
  state_version = 1;
  created_at = now;
  last_updated = now;
  flood_exposure = none;
}

-- What is registered in the digital twin.
abbrev pub hospital_entity : ℕ → Hospital → HospitalEntity
hospital_entity now h = record {
  hospital_id = h.hospital_id;
  name = h.name;
  capacity = h.capacity;
  available_capacity = h.available_capacity;
  emergency_available = h.emergency_available;
  icu_available = h.icu_available;
  accessibility = access_value h.accessibility;
  status = h.status;
  location = some h.location.geometry;
  updated_at = now;
  source = hospital_source_value h.source;
  metadata = [];
}

abbrev pub shelter_entity : ℕ → Shelter → ShelterEntity
shelter_entity now h = record {
  shelter_id = h.shelter_id;
  name = h.name;
  capacity = h.capacity;
  available_capacity = h.available_capacity;
  accessibility = access_value h.accessibility;
  status = h.status;
  location = some h.location.geometry;
  updated_at = now;
  source = shelter_source_value h.source;
  metadata = [];
}
