-- ===== src/Facilities/Service.antt =====
-- services/api/app/repositories/facility_service.py: creating hospitals and shelters, reading them, and
-- the updates of capacity and status. The methods of hospitals and of shelters are the same but for
-- their table, their kind of event and the intensive-care beds; they are instances of one function.
use Prim.Native.String.{◌++◌ as concat}
use ai_powered_respiratory_h.Base.{
  ℕ, String, Bool, not, [], ◌∷◌, Option, none, some, lookup, insert, contains, Dict, decimal,
  string_eq, ltb, Result, ok, raise, Action, ◌>>◌, raise_if, modify, value_error,
  facility_not_found,
}
use ai_powered_respiratory_h.Twin.State.{Twin, register_hospital, register_shelter}
use ai_powered_respiratory_h.Incidents.Records.{Location}
use ai_powered_respiratory_h.Incidents.Service.{within_bounds}
use ai_powered_respiratory_h.Facilities.Exposure.{evaluate_flood_exposure}
use ai_powered_respiratory_h.Facilities.Records.{
  Hospital, Shelter, FacilityKind, hospital_kind, shelter_kind, FacilityRecord, FacilityAuditEntry,
  FacilityStore, hospital_record, shelter_record, hospital_entity, shelter_entity,
}

abbrev pub table : FacilityKind → FacilityStore → Dict FacilityRecord
table hospital_kind s = s.hospitals
table shelter_kind s = s.shelters

abbrev pub with_table : FacilityKind → Dict FacilityRecord → FacilityStore → FacilityStore
with_table hospital_kind d s = record s { hospitals = d }
with_table shelter_kind d s = record s { shelters = d }

-- A call of the digital twin.
unfoldable pub call_twin : {A : Type 0} → Action Twin A → Action FacilityStore A
call_twin m s = let (r, t) = m s.digital_twin in (r, record s { digital_twin = t })

-- A copy of a record with its exposure to the present flood.
abbrev pub with_exposure :
    (String → Location → Option Bool) → FacilityStore → FacilityRecord → FacilityRecord
with_exposure intersects s r = record r {
  flood_exposure = some (evaluate_flood_exposure intersects r.location s);
}

abbrev kind_name : FacilityKind → String
kind_name hospital_kind = "Hospital '"
kind_name shelter_kind = "Shelter '"

-- The entry keeps a copy of the record, taken before the exposure is added to it.
abbrev pub facility_created_entry : ℕ → String → FacilityKind → FacilityRecord → FacilityAuditEntry
facility_created_entry now actor kind r = record {
  timestamp = now;
  actor = actor;
  action = "CREATED";
  previous_state = none;
  new_state = r;
  state_version = 1;
  details = concat (kind_name kind) (
      concat r.name (
        concat "' created with capacity " (
          concat (decimal r.capacity)
            (concat " (available: " (concat (decimal r.available_capacity) ")")))));
}

module _ (intersects : String → Location → Option Bool) where
  abbrev pub store_facility :
      ℕ → String → FacilityKind → FacilityRecord → FacilityStore → FacilityStore
  store_facility now actor kind r s =
      let t =
        with_table kind (insert r.facility_id (with_exposure intersects s r) (table kind s)) s in
      record t {
        audit_logs =
            insert r.facility_id (facility_created_entry now actor kind r ∷ []) s.audit_logs;
      }

  unfoldable pub create_facility :
      FacilityKind
      → ℕ
      → FacilityRecord
      → (Twin → Twin)
      → String
      → Action FacilityStore FacilityRecord
  create_facility kind now r register actor s =
      (raise_if (contains r.facility_id (table kind s)) value_error
          >> (raise_if (not (within_bounds r.location)) value_error
              >> (raise_if (ltb r.capacity r.available_capacity) value_error
                  >> (call_twin (modify register) >> λ s.
                      (ok (with_exposure intersects s r), store_facility now actor kind r s)))))
        s

  unfoldable pub create_hospital : ℕ → Hospital → String → Action FacilityStore FacilityRecord
  create_hospital now h actor =
      create_facility hospital_kind now (hospital_record now h)
        (register_hospital (hospital_entity now h)) actor

  unfoldable pub create_shelter : ℕ → Shelter → String → Action FacilityStore FacilityRecord
  create_shelter now h actor =
      create_facility shelter_kind now (shelter_record now h)
        (register_shelter (shelter_entity now h)) actor

  abbrev answer : FacilityStore → Option FacilityRecord → Result FacilityRecord
  answer s none = raise facility_not_found
  answer s (some r) = ok (with_exposure intersects s r)

  unfoldable pub get_facility : FacilityKind → String → Action FacilityStore FacilityRecord
  get_facility kind id s = (answer s (lookup id (table kind s)), s)

  abbrev pub get_hospital : String → Action FacilityStore FacilityRecord
  get_hospital = get_facility hospital_kind

  abbrev pub get_shelter : String → Action FacilityStore FacilityRecord
  get_shelter = get_facility shelter_kind
