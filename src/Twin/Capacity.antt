-- ===== src/Twin/Capacity.antt =====
-- Capacities of hospitals and shelters under `apply_event`.
use ai_powered_respiratory_h.Base.{
  ap, ◌∙◌, IsOk, ℕ, ◌≤◌, ◌<◌, Bool, true, false, ◌≡◌, refl, Option, some, none, arith, lookup,
  insert, lookup-insert_self, Every, Every-insert, Every-lookup, Result, ok, raise,
  validation_error, contains,
}
use ai_powered_respiratory_h.Twin.Entities.{HospitalEntity, ShelterEntity}
use ai_powered_respiratory_h.Twin.Events.{
  TwinEvent, Payload, CapacityUpdated, FacilityStatusChanged, hospital_facility,
}
use ai_powered_respiratory_h.Twin.Transitions.{
  apply_hospital_capacity_transition, apply_shelter_capacity_transition,
  apply_hospital_status_transition, apply_shelter_status_transition,
}
use ai_powered_respiratory_h.Twin.State.{Twin, commit_event}
use ai_powered_respiratory_h.Twin.Rule.{Keeps, keeps-apply_event}
use ai_powered_respiratory_h.Twin.Handling.{Clock, conclude, report, finish_no_op}
use ai_powered_respiratory_h.Twin.Apply.{
  apply_event, dispatch, transition, settle, handle_capacity_updated,
}

abbrev pub IsWithinHospital : HospitalEntity → Type 0
IsWithinHospital h = h.available_capacity ≤ h.capacity

abbrev pub IsWithinShelter : ShelterEntity → Type 0
IsWithinShelter s = s.available_capacity ≤ s.capacity

-- No registered facility has more room than its capacity.
abbrev pub IsBounded : Twin → Type 0
IsBounded t = Every IsWithinHospital t.hospitals × Every IsWithinShelter t.shelters

hospital_capacity-within :
    (h h' : HospitalEntity) (e : TwinEvent) (c : CapacityUpdated)
    → apply_hospital_capacity_transition h e c ≡ ok (h', false)
    → IsWithinHospital h'
unfolding apply_hospital_capacity_transition
hospital_capacity-within h h' e c ran = ground arith

shelter_capacity-within :
    (s s' : ShelterEntity) (e : TwinEvent) (c : CapacityUpdated)
    → apply_shelter_capacity_transition s e c ≡ ok (s', false)
    → IsWithinShelter s'
unfolding apply_shelter_capacity_transition
shelter_capacity-within s s' e c ran = ground arith

hospital_status-within :
    (h h' : HospitalEntity) (e : TwinEvent) (c : FacilityStatusChanged)
    → apply_hospital_status_transition h e c ≡ ok (h', false)
    → IsWithinHospital h
    → IsWithinHospital h'
unfolding apply_hospital_status_transition
hospital_status-within h h' e c ran w = ground arith

shelter_status-within :
    (s s' : ShelterEntity) (e : TwinEvent) (c : FacilityStatusChanged)
    → apply_shelter_status_transition s e c ≡ ok (s', false)
    → IsWithinShelter s
    → IsWithinShelter s'
unfolding apply_shelter_status_transition
shelter_status-within s s' e c ran w = ground arith

Keeps-IsBounded : Keeps IsBounded
unfolding commit_event
Keeps-IsBounded = record {
  commit = λ e t h. h;
  seen = λ id t h. h;
  overlay = λ o t h. h;
  roads = λ d t h. h;
  bridges = λ d t h. h;
  flood_zones = λ d t h. h;
  populations = λ d t h. h;
  vulnerable_groups = λ d t h. h;
  hospital_capacity = λ e c a b t found ran h. (
    Every-insert IsWithinHospital c.facility_id b t.hospitals (hospital_capacity-within a b e c ran)
        h.0,
    h.1,
  );
  shelter_capacity = λ e c a b t found ran h. (
    h.0,
    Every-insert IsWithinShelter c.facility_id b t.shelters (shelter_capacity-within a b e c ran)
        h.1,
  );
  hospital_status = λ e c a b t found ran h. (
    Every-insert IsWithinHospital c.facility_id b t.hospitals
        (hospital_status-within a b e c ran
          (Every-lookup IsWithinHospital _ a t.hospitals h.0 found))
        h.0,
    h.1,
  );
  shelter_status = λ e c a b t found ran h. (
    h.0,
    Every-insert IsWithinShelter c.facility_id b t.shelters
        (shelter_status-within a b e c ran (Every-lookup IsWithinShelter _ a t.shelters h.1 found))
        h.1,
  );
  incident_created = λ e c t h. h;
  incident_status = λ e c a b t found ran h. h;
}

-- If no registered hospital or shelter has more room than its capacity, none has after any event,
-- also after one that raises, and whether or not the event's own numbers were validated.
pub apply_event-IsBounded :
    (clock : Clock) (e : TwinEvent) (t : Twin) → IsBounded t → IsBounded (apply_event clock e t).1
apply_event-IsBounded clock e t h = keeps-apply_event Keeps-IsBounded clock e t h

refused :
    (h : HospitalEntity) (e : TwinEvent) (c : CapacityUpdated)
    → c.available_capacity ≤ c.capacity
    → c.capacity < h.available_capacity
    → apply_hospital_capacity_transition h e c ≡ raise validation_error
unfolding apply_hospital_capacity_transition
refused h e c valid shrinks = ground arith

-- The capacity and the room of what a rule returned, or of what is registered.
abbrev beds : Result (HospitalEntity × Bool) → Option (ℕ × ℕ)
beds (ok (h, _)) = some (h.capacity, h.available_capacity)
beds (raise _) = none

abbrev pub beds_of : Option HospitalEntity → Option (ℕ × ℕ)
beds_of none = none
beds_of (some h) = some (h.capacity, h.available_capacity)

accepted :
    (h : HospitalEntity) (e : TwinEvent) (c : CapacityUpdated)
    → c.available_capacity ≤ c.capacity
    → h.available_capacity ≤ c.capacity
    → beds (apply_hospital_capacity_transition h e c) ≡ some (c.capacity, c.available_capacity)
unfolding apply_hospital_capacity_transition
accepted h e c valid fits = ground arith

-- An event without effect repeats the numbers of the hospital.
repeats :
    (h h' : HospitalEntity) (e : TwinEvent) (c : CapacityUpdated)
    → apply_hospital_capacity_transition h e c ≡ ok (h', true)
    → beds_of (some h) ≡ beds_of (some h')
unfolding apply_hospital_capacity_transition
repeats h h' e c ran = ground arith

module _ (clock : Clock) (e : TwinEvent) (c : CapacityUpdated) (h : HospitalEntity) (t : Twin)
    (is_capacity : e.payload ≡ Payload.capacity_updated c)
    (is_hospital : c.facility_type ≡ hospital_facility)
    (new : contains e.event_id t.seen_event_ids ≡ false)
    (found : lookup c.facility_id t.hospitals ≡ some h) where
  write : HospitalEntity → Twin → Twin
  write h' s = record s { hospitals = insert c.facility_id h' s.hospitals }

  -- Such an event is settled by the outcome of the capacity rule.
  apply_event-settle :
      apply_event clock e t ≡ settle e write (apply_hospital_capacity_transition h e c) t
  unfolding apply_event dispatch handle_capacity_updated transition write
  apply_event-settle = rw new (
      ap (λ p. dispatch clock e p t) is_capacity
      ∙ ap (λ k. handle_capacity_updated e c k t) is_hospital
      ∙ ap (λ f. transition e (λ h'. apply_hospital_capacity_transition h' e c) write f t) found)

  settled :
      (ran : Result (HospitalEntity × Bool))
      → beds ran ≡ some (c.capacity, c.available_capacity)
      → ((h' : HospitalEntity) → ran ≡ ok (h', true) → beds_of (some h) ≡ beds_of (some h'))
      → beds_of (lookup c.facility_id (settle e write ran t).1.hospitals)
        ≡ some (c.capacity, c.available_capacity)
  unfolding settle conclude report finish_no_op commit_event write
  settled (ok (h', true)) done repeated = rw found (repeated h' refl ∙ done)
  settled (ok (h', false)) done repeated = rw lookup-insert_self done
  settled (raise x) done repeated = cc

  settle-IsOk :
      (ran : Result (HospitalEntity × Bool)) {room : ℕ × ℕ}
      → beds ran ≡ some room
      → IsOk (settle e write ran t).0
  unfolding settle conclude report finish_no_op
  settle-IsOk (ok (h', true)) done = tt
  settle-IsOk (ok (h', false)) done = tt
  settle-IsOk (raise x) done = cc

  -- An unseen capacity event with valid numbers (room at most the capacity) for a registered hospital
  -- is refused with a validation error, and the twin left as it was, whenever the new capacity is
  -- below the room that the hospital had before the event; otherwise the event returns, and the
  -- hospital has the event's capacity and room from then on.
  pub capacity_update_cases :
      c.available_capacity ≤ c.capacity
      → (c.capacity < h.available_capacity → apply_event clock e t ≡ (raise validation_error, t))
        × (h.available_capacity ≤ c.capacity
            → IsOk (apply_event clock e t).0
              × (beds_of (lookup c.facility_id (apply_event clock e t).1.hospitals)
                  ≡ some (c.capacity, c.available_capacity)))
  unfolding settle
  capacity_update_cases valid = (
    λ shrinks. apply_event-settle ∙ ap (λ r. settle e write r t) (refused h e c valid shrinks),
    λ fits.
        let done = accepted h e c valid fits in
        rw apply_event-settle (settle-IsOk _ done, settled _ done (λ h' ran. repeats h h' e c ran)),
  )
