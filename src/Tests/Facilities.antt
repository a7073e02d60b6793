-- ===== src/Tests/Facilities.antt =====
-- A hospital and a shelter beside a flooded river.
use ai_powered_respiratory_h.Base.{
  IsOk, ◌≤◌, ◌<◌, ◌≡◌, ◌↔◌, String, Bool, true, false, refl, arith, [], ◌∷◌, Option, none, some,
  lookup, insert, ok, raise, validation_error, pos, decimal,
}
use ai_powered_respiratory_h.Base.{ℕ, ◌-◌, min, length, filter, All}
use ai_powered_respiratory_h.Base.Membership.{Has}
use ai_powered_respiratory_h.Facilities.Pages.{Passes, list_hospitals_page}
use ai_powered_respiratory_h.Facilities.Ordering.{Adjacent, InDirection}
use ai_powered_respiratory_h.Facilities.Listing.{list_hospitals, keep_hospital, listed}
use ai_powered_respiratory_h.Schemas.Road.{all_vehicles}
use ai_powered_respiratory_h.Schemas.Facility.{operational, open_shelter}
use ai_powered_respiratory_h.Incidents.Records.{Location}
use ai_powered_respiratory_h.Twin.State.{new_twin, register_hospital}
use ai_powered_respiratory_h.Twin.Capacity.{beds_of}
use ai_powered_respiratory_h.Facilities.Records.{
  Hospital, Shelter, HospitalSource, ShelterSource, FacilityRecord, FloodExposure, FacilityStore,
  FacilityKind, hospital_kind, shelter_kind, hospital_record, hospital_entity,
}
use ai_powered_respiratory_h.Facilities.Exposure.{
  set_active_flood_scenario, evaluate_flood_exposure,
}
use ai_powered_respiratory_h.Facilities.Service.{
  table, create_hospital, create_facility, call_twin, get_hospital, with_exposure,
  facility_created_entry,
}
use ai_powered_respiratory_h.Facilities.Updates.{update_hospital_capacity}
use ai_powered_respiratory_h.Facilities.Requests.{
  Request, add_hospital, add_shelter, resize_hospital, handle,
}
use ai_powered_respiratory_h.Facilities.History.{IsBounded, handle-IsBounded}
use ai_powered_respiratory_h.Facilities.Audit.{IsTraced, handle-IsTraced}
use ai_powered_respiratory_h.Facilities.Flood.{
  IsFlagged, IsHit, set_active_flood_scenario-get_hospital,
}
use ai_powered_respiratory_h.Facilities.Outcome.{room_of, update_hospital_capacity_cases}

-- Everything is hit.
abbrev everywhere : String → Location → Option Bool
everywhere polygon l = some true

abbrev riverside : Location
riverside = record {
  longitude = record { negative = false; magnitude = 90000000 };
  latitude = record { negative = false; magnitude = 24000000 };
  geometry = "{}";
}

abbrev clinic : Hospital
clinic = record {
  hospital_id = "HOSP-1";
  name = "Clinic";
  location = riverside;
  status = operational;
  accessibility = all_vehicles;
  capacity = 100;
  available_capacity = 40;
  emergency_available = true;
  icu_available = 4;
  source = HospitalSource.osm;
}

abbrev school : Shelter
school = record {
  shelter_id = "SHEL-1";
  name = "School";
  location = riverside;
  status = open_shelter;
  accessibility = all_vehicles;
  capacity = 200;
  available_capacity = 200;
  has_power_backup = false;
  has_potable_water = true;
  source = ShelterSource.district_registry;
}

abbrev nothing : FacilityStore
nothing = record {
  digital_twin = new_twin none 1 900;
  hospitals = [];
  shelters = [];
  audit_logs = [];
  active_flood_polygon = none;
  active_flood_scenario_id = none;
}

abbrev one : FacilityStore
one = (create_hospital everywhere 1000 clinic "SYSTEM" nothing).1

abbrev clinic_record : FacilityRecord
clinic_record = with_exposure everywhere nothing (hospital_record 1000 clinic)

abbrev admit : Request
admit = resize_hospital 1100 "HOSP-1" (pos 30) none none none "CHIEF" none

nothing_there :
    (k : FacilityKind) (j : String) (q : FacilityRecord) → lookup j (table k nothing) ≡ some q → ⊥
unfolding lookup
nothing_there hospital_kind j q found = cc
nothing_there shelter_kind j q found = cc

handle-IsBounded_example :
    IsBounded
      (handle everywhere admit (handle everywhere (add_hospital 1000 clinic "SYSTEM") nothing))
unfolding lookup
handle-IsBounded_example =
    handle-IsBounded everywhere admit
      (handle everywhere (add_hospital 1000 clinic "SYSTEM") nothing)
      (handle-IsBounded everywhere (add_hospital 1000 clinic "SYSTEM") nothing
        (λ k j q found. absurd (nothing_there k j q found)))

handle-IsTraced_example : IsTraced (
    handle everywhere
      (add_shelter 1100 school "SYSTEM")
      (handle everywhere (add_hospital 1000 clinic "SYSTEM") nothing))
unfolding handle create_hospital create_facility call_twin register_hospital insert lookup
    evaluate_flood_exposure
handle-IsTraced_example =
    handle-IsTraced everywhere (add_shelter 1100 school "SYSTEM")
      (handle everywhere (add_hospital 1000 clinic "SYSTEM") nothing) refl
      (handle-IsTraced everywhere (add_hospital 1000 clinic "SYSTEM") nothing refl (
        λ k j q found. absurd (nothing_there k j q found),
        λ k j q found. absurd (nothing_there k j q found),
      ))

set_active_flood_scenario-get_hospital_example :
    let t = set_active_flood_scenario (some "SURGE") (some "POLYGON") one in
    ((e : FloodExposure) × (get_hospital everywhere "HOSP-1" t
        ≡ (ok (record clinic_record { flood_exposure = some e }), t))
      × (IsFlagged e ↔ IsHit everywhere (some "POLYGON") riverside))
    × (t.hospitals ≡ one.hospitals)
    × (t.shelters ≡ one.shelters)
    × (t.audit_logs ≡ one.audit_logs)
    × (t.digital_twin ≡ one.digital_twin)
unfolding create_hospital create_facility call_twin register_hospital insert lookup
    evaluate_flood_exposure
set_active_flood_scenario-get_hospital_example =
    set_active_flood_scenario-get_hospital everywhere (some "SURGE") (some "POLYGON") "HOSP-1"
      clinic_record one refl

update_hospital_capacity_cases_example :
    let (answer, t) =
      update_hospital_capacity everywhere 1100 "HOSP-1"
        (pos 20)
        (some (pos 60))
        none
        none
        "CHIEF"
        none
        one in
    (60 < 40
      → update_hospital_capacity everywhere 1100 "HOSP-1"
          (pos 20)
          (some (pos 60))
          none
          none
          "CHIEF"
          none
          one
        ≡ (raise validation_error, one))
    × (40 ≤ 60
        → IsOk answer
          × (room_of (lookup "HOSP-1" t.hospitals) ≡ some (60, 20))
          × (beds_of (lookup "HOSP-1" t.digital_twin.hospitals) ≡ some (60, 20)))
unfolding create_hospital create_facility call_twin register_hospital insert lookup
    evaluate_flood_exposure new_twin decimal
update_hospital_capacity_cases_example =
    update_hospital_capacity_cases everywhere 1100 "HOSP-1" "CHIEF" none none none 20 60
      clinic_record one (hospital_entity 1000 clinic)
      (facility_created_entry 1000 "SYSTEM" hospital_kind (hospital_record 1000 clinic) ∷ []) none
      refl refl refl refl refl (omega arith) refl

list_hospitals_page_example :
    let p = list_hospitals everywhere none none (some true) none "name" true 10 0 one in
    let keep = keep_hospital none none (some true) none in
    let hospitals = listed everywhere hospital_kind one in
    let Wanted = Passes none none (some true) none in
    let first : ℕ = 0 in
    ((r : FacilityRecord) → (keep r ≡ true) ↔ Wanted r)
    × (p.total ≡ length (filter keep hospitals))
    × (length p.items ≡ min 10 (p.total - 0))
    × All (λ r. Has r hospitals × Wanted r) p.items
    × Adjacent (InDirection "name" true) p.items
    × (first ≡ first
        → p.total ≤ 10
        → (r : FacilityRecord) → Has r hospitals
        → Wanted r
        → Has r p.items)
list_hospitals_page_example =
    list_hospitals_page everywhere none none (some true) none "name" true 10 0 one
