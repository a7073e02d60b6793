-- ===== src/Facilities/Requests.antt =====
-- The requests to the facility service that may change its store.
use ai_powered_respiratory_h.Base.{
  ℕ, ◌≡◌, inl, inr, refl, String, Bool, Option, none, some, Option-cases, lookup, Action, continue,
  ℤ,
}
use ai_powered_respiratory_h.Schemas.Facility.{
  HospitalStatus, ShelterStatus, hospital_value, shelter_value,
}
use ai_powered_respiratory_h.Incidents.Records.{Location}
use ai_powered_respiratory_h.Twin.State.{register_hospital, register_shelter}
use ai_powered_respiratory_h.Facilities.Records.{
  Hospital, Shelter, FacilityKind, hospital_kind, shelter_kind, FacilityRecord, FacilityStore,
  hospital_record, shelter_record, hospital_entity, shelter_entity,
}
use ai_powered_respiratory_h.Facilities.Exposure.{set_active_flood_scenario}
use ai_powered_respiratory_h.Facilities.Service.{
  table, with_exposure, create_hospital, create_shelter, get_facility,
}
use ai_powered_respiratory_h.Facilities.Updates.{
  update_hospital_capacity, update_shelter_capacity, update_hospital_status, update_shelter_status,
}
use ai_powered_respiratory_h.Facilities.Changes.{
  Changes, done, after, scenario, create_facility-Changes, change_capacity-Changes,
  change_status-Changes,
}

pub data Request : Type 0 where
  set_scenario : (id polygon : Option String) → Request
  add_hospital : (now : ℕ) → Hospital → (actor : String) → Request
  add_shelter : (now : ℕ) → Shelter → (actor : String) → Request
  resize_hospital :
      (now : ℕ) (id : String)
      → (room : ℤ) → (total beds : Option ℤ) (expected : Option ℕ) (actor : String)
      → (reason : Option String) → Request
  resize_shelter :
      (now : ℕ) (id : String)
      → (room : ℤ) → (total : Option ℤ) (expected : Option ℕ) (actor : String)
      → (reason : Option String) → Request
  move_hospital :
      (now : ℕ) (id : String)
      → HospitalStatus
      → (expected : Option ℕ) (actor : String) → (reason : Option String) → Request
  move_shelter :
      (now : ℕ) (id : String)
      → ShelterStatus
      → (expected : Option ℕ) (actor : String) → (reason : Option String) → Request

module _ (intersects : String → Location → Option Bool) where
  unfoldable pub handle : Request → FacilityStore → FacilityStore
  handle (set_scenario id polygon) s = set_active_flood_scenario id polygon s
  handle (add_hospital now h actor) s = (create_hospital intersects now h actor s).1
  handle (add_shelter now h actor) s = (create_shelter intersects now h actor s).1
  handle (resize_hospital now id room total beds expected actor reason) s =
      (update_hospital_capacity intersects now id room total beds expected actor reason s).1
  handle (resize_shelter now id room total expected actor reason) s =
      (update_shelter_capacity intersects now id room total expected actor reason s).1
  handle (move_hospital now id new expected actor reason) s =
      (update_hospital_status intersects now id new expected actor reason s).1
  handle (move_shelter now id new expected actor reason) s =
      (update_shelter_status intersects now id new expected actor reason s).1

-- A condition on the identifier that a request would take.
abbrev pub Takes :
    (FacilityKind → String → FacilityStore → Type 0) → Request → FacilityStore → Type 0
Takes Free (add_hospital now h actor) s = Free hospital_kind h.hospital_id s
Takes Free (add_shelter now h actor) s = Free shelter_kind h.shelter_id s
Takes Free _ s = Unit

module _ (intersects : String → Location → Option Bool)
    (Free : FacilityKind → String → FacilityStore → Type 0) where
  read-Changes :
      (kind : FacilityKind) (id : String) (f : FacilityRecord → Action FacilityStore FacilityRecord)
      (s : FacilityStore)
      → ((r : FacilityRecord)
          → lookup id (table kind s) ≡ some r
          → Changes intersects Free s (f (with_exposure intersects s r) s).1)
      → Changes intersects Free s (continue (get_facility intersects kind id s) f).1
  unfolding get_facility
  read-Changes kind id f s next = elim (Option-cases (lookup id (table kind s))) [
    | inl absent ↦ rw absent (done s)
    | inr (r, found) ↦ rw found (next r found)
  ]

  pub handle-Changes :
      (q : Request) (s : FacilityStore)
      → Takes Free q s
      → Changes intersects Free s (handle intersects q s)
  unfolding handle create_hospital create_shelter update_hospital_capacity update_shelter_capacity
      update_hospital_status update_shelter_status
  handle-Changes (set_scenario id polygon) s free = after (done s) (scenario id polygon s)
  handle-Changes (add_hospital now h actor) s free =
      create_facility-Changes intersects Free hospital_kind now (hospital_record now h)
        (register_hospital (hospital_entity now h)) actor s refl free
  handle-Changes (add_shelter now h actor) s free =
      create_facility-Changes intersects Free shelter_kind now (shelter_record now h)
        (register_shelter (shelter_entity now h)) actor s refl free
  handle-Changes (resize_hospital now id room total beds expected actor reason) s free =
      read-Changes hospital_kind id _ s (λ r found.
        change_capacity-Changes intersects Free hospital_kind now id room total beds expected actor
          reason r s found)
  handle-Changes (resize_shelter now id room total expected actor reason) s free =
      read-Changes shelter_kind id _ s (λ r found.
        change_capacity-Changes intersects Free shelter_kind now id room total none expected actor
          reason r s found)
  handle-Changes (move_hospital now id new expected actor reason) s free =
      read-Changes hospital_kind id _ s (λ r found.
        change_status-Changes intersects Free hospital_kind now id (hospital_value new) expected
          actor reason r s found)
  handle-Changes (move_shelter now id new expected actor reason) s free =
      read-Changes shelter_kind id _ s (λ r found.
        change_status-Changes intersects Free shelter_kind now id (shelter_value new) expected actor
          reason r s found)
