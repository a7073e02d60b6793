-- ===== src/Facilities/Updates.antt =====
-- services/api/app/repositories/facility_service.py: the updates of capacity and of status, and the
-- audit history.
use ai_powered_respiratory_h.Base.{
  ℕ, String, Bool, true, false, List, [], ◌∷◌, ◌++◌, Option, none, some, or_else, lookup, insert,
  contains, string_eq, ltb, if◌then◌else◌, Result, ok, raise, Action, ◌>>=◌, ◌>>◌, raise_if, lift,
  value_error, key_error, validation_error, facility_not_found, facility_version_conflict, ℤ, pos,
  negsuc,
}
use ai_powered_respiratory_h.Schemas.Facility.{
  HospitalStatus, ShelterStatus, hospital_value, shelter_value,
}
use ai_powered_respiratory_h.Twin.Events.{TwinEvent}
use ai_powered_respiratory_h.Twin.Apply.{apply_event}
use ai_powered_respiratory_h.Incidents.Records.{Location}
use ai_powered_respiratory_h.Incidents.Service.{is_outdated}
use ai_powered_respiratory_h.Facilities.Service.{table, with_table, call_twin, get_facility}
use ai_powered_respiratory_h.Facilities.Records.{
  FacilityKind, hospital_kind, shelter_kind, FacilityRecord, FacilityAuditEntry, FacilityStore,
}
use ai_powered_respiratory_h.Facilities.Entries.{
  capacity_event, with_capacity, capacity_entry, facility_status_event, with_facility_status,
  facility_status_entry,
}

-- The guards on the two numbers, which are then natural.
unfoldable pub checked_capacity : ℤ → ℤ → Result (ℕ × ℕ)
checked_capacity (negsuc _) total = raise value_error
checked_capacity (pos available) (negsuc _) = raise value_error
checked_capacity (pos available) (pos total) =
    if ltb total available then raise value_error else ok (available, total)

-- The event's own validation of the beds.
abbrev pub checked_beds : Option ℤ → Result (Option ℕ)
checked_beds none = ok none
checked_beds (some (pos n)) = ok (some n)
checked_beds (some (negsuc n)) = raise validation_error

abbrev append_facility_entry :
    String → FacilityAuditEntry → Option (List FacilityAuditEntry) → Action FacilityStore (Unit {0})
append_facility_entry id e none s = (raise key_error, s)
append_facility_entry id e (some log) s =
    (ok tt, record s { audit_logs = insert id (log ++ e ∷ []) s.audit_logs })

-- Writes the record back and appends to its history, which raises if there is none.
unfoldable pub store_facility_update :
    FacilityKind → String → FacilityRecord → FacilityAuditEntry → Action FacilityStore (Unit {0})
store_facility_update kind id r e s =
    append_facility_entry id e (lookup id s.audit_logs)
      (with_table kind (insert id r (table kind s)) s)

module _ (intersects : String → Location → Option Bool) where
  -- The end of each update: the digital twin first, then the record and its history.
  abbrev pub commit_update :
      FacilityKind
      → ℕ
      → String
      → TwinEvent
      → FacilityRecord
      → FacilityAuditEntry
      → Action FacilityStore FacilityRecord
  commit_update kind now id event after e =
      call_twin (apply_event (λ k. now) event)
      >> (store_facility_update kind id after e >> get_facility intersects kind id)

  -- An update of the capacity with numbers that have passed the guards.
  abbrev pub resize :
      FacilityKind
      → ℕ
      → String
      → String
      → Option String
      → FacilityRecord
      → ℕ × ℕ
      → Option ℕ
      → Action FacilityStore FacilityRecord
  resize kind now id actor reason r (room, total) beds =
      let after = with_capacity now total room beds r in
      commit_update kind now id (capacity_event kind now id r total room beds reason) after
        (capacity_entry kind now actor reason r after)

  unfoldable pub change_capacity :
      FacilityKind
      → ℕ
      → String
      → ℤ
      → (new_total new_beds : Option ℤ) → Option ℕ
      → String
      → Option String
      → FacilityRecord
      → Action FacilityStore FacilityRecord
  change_capacity kind now id room new_total new_beds expected actor reason r =
      raise_if (is_outdated expected r.state_version) facility_version_conflict
      >> (lift (checked_capacity room (or_else new_total (pos r.capacity))) >>= λ numbers.
          lift (checked_beds new_beds) >>= resize kind now id actor reason r numbers)

  unfoldable pub update_hospital_capacity :
      ℕ
      → String
      → ℤ
      → (new_total new_beds : Option ℤ) → Option ℕ
      → String
      → Option String
      → Action FacilityStore FacilityRecord
  update_hospital_capacity now id room new_total new_beds expected actor reason =
      get_facility intersects hospital_kind id
      >>= change_capacity hospital_kind now id room new_total new_beds expected actor reason

  unfoldable pub update_shelter_capacity :
      ℕ
      → String
      → ℤ
      → (new_total : Option ℤ) → Option ℕ
      → String
      → Option String
      → Action FacilityStore FacilityRecord
  update_shelter_capacity now id room new_total expected actor reason =
      get_facility intersects shelter_kind id
      >>= change_capacity shelter_kind now id room new_total none expected actor reason

  unfoldable pub change_status :
      FacilityKind
      → ℕ
      → String
      → String
      → Option ℕ
      → String
      → Option String
      → FacilityRecord
      → Action FacilityStore FacilityRecord
  change_status kind now id new expected actor reason r =
      let after = with_facility_status now new r in
      raise_if (is_outdated expected r.state_version) facility_version_conflict
      >> commit_update kind now id (facility_status_event kind now id r new reason) after
          (facility_status_entry kind now actor reason r after)

  unfoldable pub update_hospital_status :
      ℕ
      → String
      → HospitalStatus
      → Option ℕ
      → String
      → Option String
      → Action FacilityStore FacilityRecord
  update_hospital_status now id new expected actor reason =
      get_facility intersects hospital_kind id
      >>= change_status hospital_kind now id (hospital_value new) expected actor reason

  unfoldable pub update_shelter_status :
      ℕ
      → String
      → ShelterStatus
      → Option ℕ
      → String
      → Option String
      → Action FacilityStore FacilityRecord
  update_shelter_status now id new expected actor reason =
      get_facility intersects shelter_kind id
      >>= change_status shelter_kind now id (shelter_value new) expected actor reason

abbrev history_of : String → Bool → FacilityStore → Result (List FacilityAuditEntry)
history_of id false s = raise facility_not_found
history_of id true s = ok (or_else (lookup id s.audit_logs) [])

abbrev pub get_hospital_history : String → FacilityStore → Result (List FacilityAuditEntry)
get_hospital_history id s = history_of id (contains id s.hospitals) s

abbrev pub get_shelter_history : String → FacilityStore → Result (List FacilityAuditEntry)
get_shelter_history id s = history_of id (contains id s.shelters) s
