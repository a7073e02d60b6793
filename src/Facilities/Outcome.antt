-- ===== src/Facilities/Outcome.antt =====
-- What an update of a hospital answers, and how the digital twin takes part in it.
use ai_powered_respiratory_h.Base.{
  IsOk, ℕ, ◌≤◌, ◌<◌, ◌≢◌, ◌≡◌, String, Bool, false, refl, ap, ◌∙◌, arith, List, Option, none, some,
  or_else, lookup, contains, lookup-insert_self, nat_eq, Result, ok, raise, continue, value_error,
  validation_error, facility_not_found, facility_version_conflict, ℤ, pos, negsuc,
}
use ai_powered_respiratory_h.Incidents.Records.{Location}
use ai_powered_respiratory_h.Incidents.Service.{is_outdated}
use ai_powered_respiratory_h.Incidents.Versions.{not_equal, ok_of}
use ai_powered_respiratory_h.Twin.Entities.{HospitalEntity}
use ai_powered_respiratory_h.Twin.Events.{TwinEvent}
use ai_powered_respiratory_h.Twin.Apply.{apply_event}
use ai_powered_respiratory_h.Twin.Capacity.{beds_of, capacity_update_cases}
use ai_powered_respiratory_h.Facilities.Records.{
  hospital_kind, FacilityRecord, FacilityAuditEntry, FacilityStore,
}
use ai_powered_respiratory_h.Facilities.Service.{with_exposure, call_twin, get_facility}
use ai_powered_respiratory_h.Facilities.Entries.{capacity_event, with_capacity, capacity_entry}
use ai_powered_respiratory_h.Facilities.Updates.{
  checked_capacity, checked_beds, store_facility_update, resize, change_capacity,
  update_hospital_capacity,
}

-- Numbers that no facility may have.
abbrev pub IsOutside : ℤ → ℤ → Type 0
IsOutside (negsuc _) total = Unit
IsOutside (pos room) (negsuc _) = Unit
IsOutside (pos room) (pos total) = total < room

checked_capacity-IsOutside :
    (room total : ℤ) → IsOutside room total → checked_capacity room total ≡ raise value_error
unfolding checked_capacity
checked_capacity-IsOutside (negsuc _) total h = refl
checked_capacity-IsOutside (pos room) (negsuc _) h = refl
checked_capacity-IsOutside (pos room) (pos total) h = ground arith

checked_capacity-fits :
    (room total : ℕ) → room ≤ total → checked_capacity (pos room) (pos total) ≡ ok (room, total)
unfolding checked_capacity
checked_capacity-fits room total h = ground arith

module _ (intersects : String → Location → Option Bool) where
  -- An update of the capacity that names a missing hospital raises FacilityNotFoundError; one that
  -- expects another version than the stored one raises the version conflict; and one that expects no
  -- version but whose numbers are negative, or whose room exceeds the total it gives or that the
  -- hospital has, raises ValueError. All three leave the service and the digital twin as they were.
  pub update_hospital_capacity_refused :
      (now : ℕ) (id : String) (room : ℤ) (total beds : Option ℤ) (actor : String)
      (reason : Option String) (s : FacilityStore)
      → ((expected : Option ℕ)
          → lookup id s.hospitals ≡ none
          → update_hospital_capacity intersects now id room total beds expected actor reason s
            ≡ (raise facility_not_found, s))
        × ((expected : ℕ) (r : FacilityRecord)
            → lookup id s.hospitals ≡ some r
            → expected ≢ r.state_version
            → update_hospital_capacity intersects now id room total beds
                (some expected)
                actor
                reason
                s
              ≡ (raise facility_version_conflict, s))
        × ((r : FacilityRecord)
            → lookup id s.hospitals ≡ some r
            → IsOutside room (or_else total (pos r.capacity))
            → update_hospital_capacity intersects now id room total beds none actor reason s
              ≡ (raise value_error, s))
  unfolding update_hospital_capacity get_facility change_capacity
  update_hospital_capacity_refused now id room total beds actor reason s = (
    λ expected absent. rw absent refl,
    λ expected r found other. rw (found, not_equal expected r.state_version other) refl,
    λ r found outside.
        rw (found, checked_capacity-IsOutside room (or_else total (pos r.capacity)) outside) refl,
  )

-- The capacity and the room of a stored record.
abbrev pub room_of : Option FacilityRecord → Option (ℕ × ℕ)
room_of none = none
room_of (some r) = some (r.capacity, r.available_capacity)

stored :
    (intersects : String → Location → Option Bool) (id : String) (r : FacilityRecord)
    (e : FacilityAuditEntry) (log : List FacilityAuditEntry) (s : FacilityStore)
    → lookup id s.audit_logs ≡ some log
    → let (answer, t) =
        continue
          (store_facility_update hospital_kind id r e s)
          (λ u. get_facility intersects hospital_kind id) in
      IsOk answer × (lookup id t.hospitals ≡ some r) × (t.digital_twin ≡ s.digital_twin)
unfolding store_facility_update get_facility
stored intersects id r e log s there = rw (there, lookup-insert_self) (tt, refl, refl)

module _ (intersects : String → Location → Option Bool) (now : ℕ) (id actor : String)
    (reason : Option String) (expected : Option ℕ) (new_beds : Option ℤ) (room total : ℕ)
    (r : FacilityRecord) (s : FacilityStore) where
  abbrev pub resized : Result FacilityRecord × FacilityStore
  resized =
      update_hospital_capacity intersects now id (pos room) (some (pos total)) new_beds expected
        actor reason s

  resized-commit :
      (beds : Option ℕ)
      → lookup id s.hospitals ≡ some r
      → is_outdated expected r.state_version ≡ false
      → checked_beds new_beds ≡ ok beds
      → room ≤ total
      → resized
        ≡ resize intersects hospital_kind now id actor reason
            (with_exposure intersects s r)
            (room, total)
            beds
            s
  unfolding update_hospital_capacity get_facility change_capacity
  resized-commit beds found current natural valid =
      rw (found, current, checked_capacity-fits room total valid, natural) refl

  abbrev pub event : Option ℕ → TwinEvent
  event beds =
      capacity_event hospital_kind now id (with_exposure intersects s r) total room beds reason

  resize-refused :
      (beds : Option ℕ)
      → apply_event (λ k. now) (event beds) s.digital_twin
        ≡ (raise validation_error, s.digital_twin)
      → resize intersects hospital_kind now id actor reason
          (with_exposure intersects s r)
          (room, total)
          beds
          s
        ≡ (raise validation_error, s)
  unfolding call_twin
  resize-refused beds refused = rw refused refl

  resize-accepted :
      (beds : Option ℕ) (log : List FacilityAuditEntry)
      → lookup id s.audit_logs ≡ some log
      → IsOk (apply_event (λ k. now) (event beds) s.digital_twin).0
      → beds_of (lookup id (apply_event (λ k. now) (event beds) s.digital_twin).1.hospitals)
        ≡ some (total, room)
      → let (answer, t) =
          resize intersects hospital_kind now id actor reason
            (with_exposure intersects s r)
            (room, total)
            beds
            s in
        IsOk answer
        × (room_of (lookup id t.hospitals) ≡ some (total, room))
        × (beds_of (lookup id t.digital_twin.hospitals) ≡ some (total, room))
  unfolding call_twin
  resize-accepted beds log recorded accepted agreed =
      let (a, ran) = ok_of (apply_event (λ k. now) (event beds) s.digital_twin).0 accepted in
      let (answered, kept, same) =
        stored intersects id (with_capacity now total room beds (with_exposure intersects s r))
          (capacity_entry hospital_kind now actor reason (with_exposure intersects s r)
            (with_capacity now total room beds (with_exposure intersects s r)))
          log (record s { digital_twin = (apply_event (λ k. now) (event beds) s.digital_twin).1 })
          recorded in
      rw ran (answered, ap room_of kept, ap (λ w. beds_of (lookup id w.hospitals)) same ∙ agreed)

  -- A stored and registered hospital, with valid numbers (room at most the total), a version that is
  -- current or none, and an event that the digital twin has not seen: if the new total is below the
  -- room that the digital twin has for the hospital, the update raises the twin's validation error
  -- and changes nothing; otherwise it returns, and the service and the digital twin both have the new
  -- numbers.
  pub update_hospital_capacity_cases :
      (h : HospitalEntity) (log : List FacilityAuditEntry) (beds : Option ℕ)
      → lookup id s.hospitals ≡ some r
      → lookup id s.audit_logs ≡ some log
      → lookup id s.digital_twin.hospitals ≡ some h
      → is_outdated expected r.state_version ≡ false
      → checked_beds new_beds ≡ ok beds
      → room ≤ total
      → contains (event beds).event_id s.digital_twin.seen_event_ids ≡ false
      → (total < h.available_capacity → resized ≡ (raise validation_error, s))
        × (h.available_capacity ≤ total
            → IsOk resized.0
              × (room_of (lookup id resized.1.hospitals) ≡ some (total, room))
              × (beds_of (lookup id resized.1.digital_twin.hospitals) ≡ some (total, room)))
  update_hospital_capacity_cases h log beds found recorded registered current natural valid unseen =
      let (shrinks, fits) =
        capacity_update_cases (λ k. now) (event beds) _ h s.digital_twin refl refl unseen registered
          valid in
      let commit = resized-commit beds found current natural valid in
      (
        λ below. commit ∙ resize-refused beds (shrinks below),
        λ above. rw commit (resize-accepted beds log recorded (fits above).0 (fits above).1),
      )
