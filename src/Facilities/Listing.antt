-- ===== src/Facilities/Listing.antt =====
-- services/api/app/repositories/facility_service.py: the lists of hospitals and of shelters. Times are
-- whole numbers here, which compare as the ISO texts that the service compares.
use ai_powered_respiratory_h.Base.{
  ℕ, String, Bool, true, false, ◌&&◌, ◌||◌, List, map, Option, none, some, values, ◌==◌, string_eq,
  nat_eq, bool_eq, ltb, if◌then◌else◌, filter, take, drop, length,
}
use ai_powered_respiratory_h.Base.Order.{text_leb, pair_leb, arrange}
use ai_powered_respiratory_h.Schemas.Road.{Accessibility, access_value}
use ai_powered_respiratory_h.Schemas.Facility.{
  HospitalStatus, ShelterStatus, hospital_value, shelter_value,
}
use ai_powered_respiratory_h.Incidents.Records.{Location}
use ai_powered_respiratory_h.Facilities.Records.{
  FacilityKind, hospital_kind, shelter_kind, Amenities, hospital_amenities, shelter_amenities,
  FacilityRecord, FacilityStore,
}
use ai_powered_respiratory_h.Facilities.Service.{table, with_exposure}

-- A filter on a key, if it is given.
abbrev pub asks : Option String → String → Bool
asks none value = true
asks (some wanted) value = value == wanted

abbrev pub status_text : {S : Type 0} → (S → String) → Option S → Option String
status_text value none = none
status_text value (some status) = some (value status)

-- `h.get("emergency_available") == wanted`; a shelter has no such key.
abbrev pub asks_emergency : Option Bool → Amenities → Bool
asks_emergency none amenities = true
asks_emergency (some wanted) (hospital_amenities emergency icu) = emergency == wanted
asks_emergency (some wanted) (shelter_amenities power water) = false

abbrev pub asks_room : Option Bool → ℕ → Bool
asks_room none room = true
asks_room (some true) room = ltb 0 room
asks_room (some false) room = room == 0

abbrev pub keep_hospital :
    Option HospitalStatus
    → Option Accessibility
    → (emergency_available has_available_capacity : Option Bool) → FacilityRecord
    → Bool
keep_hospital status access emergency has_room r =
    asks (status_text hospital_value status) r.status
    && asks (status_text access_value access) r.accessibility
    && asks_emergency emergency r.amenities
    && asks_room has_room r.available_capacity

abbrev pub keep_shelter :
    Option ShelterStatus → Option Accessibility → Option Bool → FacilityRecord → Bool
keep_shelter status access has_room r =
    asks (status_text shelter_value status) r.status
    && asks (status_text access_value access) r.accessibility
    && asks_room has_room r.available_capacity

-- The order of the sort key.
abbrev pub ordered : String → FacilityRecord → FacilityRecord → Bool
ordered sort_by a b =
    if sort_by == "available_capacity"
    then pair_leb a.available_capacity a.name b.available_capacity b.name
    else if (sort_by == "updated_at") || (sort_by == "last_updated")
    then pair_leb a.last_updated a.name b.last_updated b.name
    else text_leb a.name b.name

-- Whether one record may stand before another.
abbrev pub precedes : String → Bool → FacilityRecord → FacilityRecord → Bool
precedes sort_by false a b = ordered sort_by a b
precedes sort_by true a b = ordered sort_by b a

pub record Page : Type 0 where
  pub total : ℕ
  pub limit : ℕ
  pub offset : ℕ
  pub items : List FacilityRecord

module _ (intersects : String → Location → Option Bool) where
  -- Every record of a table as `get_hospital` or `get_shelter` returns it.
  abbrev pub listed : FacilityKind → FacilityStore → List FacilityRecord
  listed kind s = map (with_exposure intersects s) (values (table kind s))

  abbrev pub page :
      (FacilityRecord → Bool) → String → Bool → (limit offset : ℕ) → List FacilityRecord → Page
  page keep sort_by sort_desc limit offset records =
      let items = arrange (precedes sort_by sort_desc) (filter keep records) in
      record {
        total = length items;
        limit = limit;
        offset = offset;
        items = take limit (drop offset items);
      }

  unfoldable pub list_hospitals :
      Option HospitalStatus
      → Option Accessibility
      → (emergency_available has_available_capacity : Option Bool) (sort_by : String)
      → (sort_desc : Bool) → (limit offset : ℕ) → FacilityStore
      → Page
  list_hospitals status access emergency has_room sort_by sort_desc limit offset s =
      page (keep_hospital status access emergency has_room) sort_by sort_desc limit offset
        (listed hospital_kind s)

  unfoldable pub list_shelters :
      Option ShelterStatus
      → Option Accessibility
      → Option Bool
      → (sort_by : String) → (sort_desc : Bool) → (limit offset : ℕ) → FacilityStore
      → Page
  list_shelters status access has_room sort_by sort_desc limit offset s =
      page (keep_shelter status access has_room) sort_by sort_desc limit offset
        (listed shelter_kind s)
