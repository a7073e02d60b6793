-- ===== src/Facilities/Pages.antt =====
-- services/api/app/repositories/facility_service.py: what the list of hospitals holds, and in what order.
use ai_powered_respiratory_h.Base.{
  ℕ, ◌-◌, ◌<◌, ◌≤◌, min, String, Bool, true, false, ◌&&◌, ◌≡◌, ◌↔◌, refl, arith, List, [], ◌∷◌,
  Option, none, some, string_eq, nat_eq, bool_eq, filter, take, drop, length, All,
}
use ai_powered_respiratory_h.Base.Membership.{
  Has, Has-take, Has-filter, Has-arrange, All-Has, All-filter_of, All-map,
}
use ai_powered_respiratory_h.Base.Order.{
  arrange, length-arrange, All-arrange, arrange-IsArranged, drop-IsArranged, take-IsArranged,
  All-filter, All-drop, All-take, length_of_slice,
}
use ai_powered_respiratory_h.Schemas.Road.{Accessibility, access_value}
use ai_powered_respiratory_h.Schemas.Facility.{HospitalStatus, hospital_value}
use ai_powered_respiratory_h.Incidents.Records.{Location}
use ai_powered_respiratory_h.Facilities.Records.{
  hospital_kind, Amenities, hospital_amenities, shelter_amenities, FacilityRecord, FacilityStore,
}
use ai_powered_respiratory_h.Facilities.Ordering.{
  InDirection, Adjacent, precedes-InDirection, IsArranged-Adjacent, precedes-total,
}
use ai_powered_respiratory_h.Facilities.Listing.{
  asks, asks_emergency, asks_room, status_text, keep_hospital, precedes, listed, list_hospitals,
}

-- What is asked for, if anything is.
abbrev pub Given : {B : Type 0} → Option B → (B → Type 0) → Type 0
Given none P = Unit
Given (some b) P = P b

abbrev pub HasEmergency : Bool → Amenities → Type 0
HasEmergency wanted (hospital_amenities emergency icu) = emergency ≡ wanted
HasEmergency wanted (shelter_amenities power water) = ⊥

abbrev pub HasRoom : Bool → ℕ → Type 0
HasRoom true room = 0 < room
HasRoom false room = room ≡ 0

-- A hospital that a list with these filters is to hold.
abbrev pub Passes :
    Option HospitalStatus
    → Option Accessibility
    → (emergency has_room : Option Bool) → FacilityRecord
    → Type 0
Passes status access emergency has_room r =
    ((Given status (λ wanted. r.status ≡ hospital_value wanted)
        × Given access (λ wanted. r.accessibility ≡ access_value wanted))
      × Given emergency (λ wanted. HasEmergency wanted r.amenities))
    × Given has_room (λ wanted. HasRoom wanted r.available_capacity)

both_iff :
    {P Q : Type 0} (b c : Bool) → (b ≡ true) ↔ P → (c ≡ true) ↔ Q → ((b && c) ≡ true) ↔ (P × Q)
both_iff true c (f, g) (h, k) = ((λ e. (f refl, h e)), (λ m. k m.1))
both_iff false c (f, g) (h, k) = ((λ e. cc), (λ m. cc (g m.0)))

status_iff :
    (wanted : Option HospitalStatus) (value : String)
    → (asks (status_text hospital_value wanted) value ≡ true)
      ↔ Given wanted (λ w. value ≡ hospital_value w)
status_iff none value = ((λ e. tt), (λ u. refl))
status_iff (some w) value = string_eq.same_iff value (hospital_value w)

access_iff :
    (wanted : Option Accessibility) (value : String)
    → (asks (status_text access_value wanted) value ≡ true)
      ↔ Given wanted (λ w. value ≡ access_value w)
access_iff none value = ((λ e. tt), (λ u. refl))
access_iff (some w) value = string_eq.same_iff value (access_value w)

emergency_iff :
    (wanted : Option Bool) (amenities : Amenities)
    → (asks_emergency wanted amenities ≡ true) ↔ Given wanted (λ w. HasEmergency w amenities)
emergency_iff none amenities = ((λ e. tt), (λ u. refl))
emergency_iff (some w) (hospital_amenities emergency icu) = bool_eq.same_iff emergency w
emergency_iff (some w) (shelter_amenities power water) = ((λ e. cc), (λ h. absurd h))

room_iff :
    (wanted : Option Bool) (room : ℕ)
    → (asks_room wanted room ≡ true) ↔ Given wanted (λ w. HasRoom w room)
room_iff none room = ((λ e. tt), (λ u. refl))
room_iff (some true) room = ground arith
room_iff (some false) room = nat_eq.same_iff room 0

keep_hospital_iff :
    (status : Option HospitalStatus) (access : Option Accessibility)
    (emergency has_room : Option Bool) (r : FacilityRecord)
    → (keep_hospital status access emergency has_room r ≡ true)
      ↔ Passes status access emergency has_room r
keep_hospital_iff status access emergency has_room r =
    both_iff _ _
      (both_iff _ _ (both_iff _ _ (status_iff status r.status) (access_iff access r.accessibility))
        (emergency_iff emergency r.amenities))
      (room_iff has_room r.available_capacity)

All-zip :
    (P Q : FacilityRecord → Type 0) (xs : List FacilityRecord)
    → All P xs
    → All Q xs
    → All (λ r. P r × Q r) xs
All-zip P Q [] h k = tt
All-zip P Q (x ∷ xs) h k = ((h.0, k.0), All-zip P Q xs h.1 k.1)

All-page :
    (P : FacilityRecord → Type 0) (before : FacilityRecord → FacilityRecord → Bool)
    (limit offset : ℕ) (kept : List FacilityRecord)
    → All P kept
    → All P (take limit (drop offset (arrange before kept)))
All-page P before limit offset kept h =
    All-take P limit (drop offset (arrange before kept))
      (All-drop P offset (arrange before kept) (All-arrange before P kept h))

All-both :
    (P : FacilityRecord → Type 0) (keep : FacilityRecord → Bool) (xs : List FacilityRecord)
    → ((r : FacilityRecord) → (keep r ≡ true) ↔ P r)
    → All (λ r. Has r xs × P r) (filter keep xs)
All-both P keep xs iff =
    All-zip (λ r. Has r xs) P (filter keep xs) (All-filter_of (λ r. Has r xs) keep xs (All-Has xs))
      (All-map (λ r. keep r ≡ true) P (filter keep xs) (λ r. (iff r).0) (All-filter keep xs))

-- The list of hospitals. A hospital passes the filters when its status, accessibility and emergency
-- service are those asked for, and it has room or none as asked. The total counts the hospitals that pass; the
-- items are as many as the limit and the offset leave of them, are hospitals of the service that
-- pass, and stand in the order of the sort key and the direction, by name among equals; and a list from the
-- start whose limit is at least the total holds every hospital that passes.
pub list_hospitals_page :
    (intersects : String → Location → Option Bool) (status : Option HospitalStatus)
    (access : Option Accessibility) (emergency has_room : Option Bool) (sort_by : String)
    (sort_desc : Bool) (limit offset : ℕ) (s : FacilityStore)
    → let p =
        list_hospitals intersects status access emergency has_room sort_by sort_desc limit offset
          s in
      let keep = keep_hospital status access emergency has_room in
      let hospitals = listed intersects hospital_kind s in
      let Wanted = Passes status access emergency has_room in
      ((r : FacilityRecord) → (keep r ≡ true) ↔ Wanted r)
      × (p.total ≡ length (filter keep hospitals))
      × (length p.items ≡ min limit (p.total - offset))
      × All (λ r. Has r hospitals × Wanted r) p.items
      × Adjacent (InDirection sort_by sort_desc) p.items
      × (offset ≡ 0
          → p.total ≤ limit
          → (r : FacilityRecord) → Has r hospitals
          → Wanted r
          → Has r p.items)
unfolding list_hospitals
list_hospitals_page intersects status access emergency has_room sort_by sort_desc limit offset s =
    let keep = keep_hospital status access emergency has_room in
    let before = precedes sort_by sort_desc in
    let hospitals = listed intersects hospital_kind s in
    let kept = filter keep hospitals in
    let items = arrange before kept in
    let wanted = keep_hospital_iff status access emergency has_room in
    (
      wanted,
      length-arrange before kept,
      length_of_slice limit offset items,
      All-page (λ r. Has r hospitals × Passes status access emergency has_room r) before limit
          offset kept (All-both (Passes status access emergency has_room) keep hospitals wanted),
      IsArranged-Adjacent before (InDirection sort_by sort_desc) (take limit (drop offset items))
          (precedes-InDirection sort_by sort_desc)
          (take-IsArranged before limit (drop offset items) (
            drop-IsArranged before offset items
              (arrange-IsArranged before (precedes-total sort_by sort_desc) kept))),
      λ start enough r there passes. rw start (
          Has-take r limit items enough
            (Has-arrange before r kept (Has-filter keep r hospitals ((wanted r).1 passes) there))),
    )
