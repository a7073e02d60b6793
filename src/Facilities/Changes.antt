-- ===== src/Facilities/Changes.antt =====
-- What the facility service may do to its store, and that its methods do nothing else.
use ai_powered_respiratory_h.Base.{
  ℕ, ◌+◌, ◌≤◌, String, Bool, true, false, not, ◌≡◌, inl, inr, refl, subst, arith, Option, some,
  or_else, Result-cases, lookup, contains, Result, ok, raise, Exception, Action, continue, raise_if,
  ltb, value_error, facility_version_conflict, ℤ, pos, negsuc,
}
use ai_powered_respiratory_h.Incidents.Records.{Location}
use ai_powered_respiratory_h.Incidents.Service.{within_bounds, is_outdated}
use ai_powered_respiratory_h.Twin.State.{Twin}
use ai_powered_respiratory_h.Twin.Events.{TwinEvent}
use ai_powered_respiratory_h.Twin.Apply.{apply_event}
use ai_powered_respiratory_h.Facilities.Records.{
  FacilityKind, hospital_kind, shelter_kind, FacilityRecord, FacilityAuditEntry, FacilityStore,
}
use ai_powered_respiratory_h.Facilities.Exposure.{set_active_flood_scenario}
use ai_powered_respiratory_h.Facilities.Service.{
  table, with_exposure, call_twin, store_facility, create_facility, get_facility,
}
use ai_powered_respiratory_h.Facilities.Updates.{
  checked_capacity, checked_beds, store_facility_update, commit_update, change_capacity,
  change_status,
}

abbrev pub Holds : FacilityRecord → Type 0
Holds r = r.available_capacity ≤ r.capacity

-- `Free kind id s` is what is asked of an identifier that is taken, besides that its kind lacks it.
module _ (intersects : String → Location → Option Bool)
    (Free : FacilityKind → String → FacilityStore → Type 0) where
  pub data Change : FacilityStore → FacilityStore → Type 0 where
    -- The digital twin alone is called.
    twin : (t : Twin) (s : FacilityStore) → Change s (record s { digital_twin = t })
    scenario :
        (id polygon : Option String) (s : FacilityStore)
        → Change s (set_active_flood_scenario id polygon s)
    -- A new identifier takes its first record and its first entry.
    create :
        (now : ℕ) (actor : String) (kind : FacilityKind) (r : FacilityRecord) (t : Twin)
        (s : FacilityStore)
        → contains r.facility_id (table kind s) ≡ false
        → Free kind r.facility_id s
        → r.state_version ≡ 1
        → Holds r
        → Change s (store_facility intersects now actor kind r (record s { digital_twin = t }))
    -- A record takes its next version, and its history an entry for it.
    update :
        (kind : FacilityKind) (id : String) (r after : FacilityRecord) (e : FacilityAuditEntry)
        (s : FacilityStore)
        → lookup id (table kind s) ≡ some r
        → after.state_version ≡ r.state_version + 1
        → e.state_version ≡ r.state_version + 1
        → (Holds r → Holds after)
        → Change s (store_facility_update kind id after e s).1

  pub data Changes : FacilityStore → FacilityStore → Type 0 where
    done : (s : FacilityStore) → Changes s s
    after : {s t u : FacilityStore} → Changes s t → Change t u → Changes s u

  raise_if-Changes :
      {A : Type 0} (c : Bool) (e : Exception) (f : Action FacilityStore A) (s : FacilityStore)
      → (c ≡ false → Changes s (f s).1)
      → Changes s (continue (raise_if c e s) (λ u. f)).1
  raise_if-Changes true e f s next = done s
  raise_if-Changes false e f s next = next refl

  pub create_facility-Changes :
      (kind : FacilityKind) (now : ℕ) (r : FacilityRecord) (register : Twin → Twin) (actor : String)
      (s : FacilityStore)
      → r.state_version ≡ 1
      → Free kind r.facility_id s
      → Changes s (create_facility intersects kind now r register actor s).1
  unfolding create_facility call_twin
  create_facility-Changes kind now r register actor s first free =
      raise_if-Changes (contains r.facility_id (table kind s)) value_error _ s λ new.
        raise_if-Changes (not (within_bounds r.location)) value_error _ s λ inside.
          raise_if-Changes (ltb r.capacity r.available_capacity) value_error _ s λ fits.
            after (done s)
              (create now actor kind r (register s.digital_twin) s new free first (ground arith))

  pub read_back :
      (kind : FacilityKind) (id : String) (p : Result (Unit {0}) × FacilityStore)
      → p.1 ≡ (continue p (λ u. get_facility intersects kind id)).1
  unfolding get_facility
  read_back kind id (ok u, t) = refl
  read_back kind id (raise e, t) = refl

  table-twin :
      (kind : FacilityKind) (t : Twin) (s : FacilityStore)
      → table kind (record s { digital_twin = t }) ≡ table kind s
  table-twin hospital_kind t s = refl
  table-twin shelter_kind t s = refl

  -- The twin is called; if it accepts, the record and its history are written.
  commit_update-Changes :
      (kind : FacilityKind) (now : ℕ) (id : String) (event : TwinEvent) (r r' : FacilityRecord)
      (e : FacilityAuditEntry) (s : FacilityStore)
      → lookup id (table kind s) ≡ some r
      → r'.state_version ≡ r.state_version + 1
      → e.state_version ≡ r.state_version + 1
      → (Holds r → Holds r')
      → Changes s (commit_update intersects kind now id event r' e s).1
  unfolding call_twin
  commit_update-Changes kind now id event r r' e s found v w keeps =
      let m = apply_event (λ k. now) event s.digital_twin in
      let t : FacilityStore = record s { digital_twin = m.1 } in
      let called : Changes s t = after (done s) (twin m.1 s) in
      elim (Result-cases m.0) [
        | inr (x, refused) ↦ rw refused called
        | inl (a, ran) ↦ rw ran (
            subst (Changes s) (read_back kind id (store_facility_update kind id r' e t))
              (after called (update kind id r r' e t (rw table-twin found) v w keeps)))
      ]

  -- The guards let through only numbers that fit.
  checked_capacity-fits :
      (room total : ℤ) (m n : ℕ) → checked_capacity room total ≡ ok (m, n) → m ≤ n
  unfolding checked_capacity
  checked_capacity-fits (negsuc a) total m n h = cc
  checked_capacity-fits (pos a) (negsuc b) m n h = cc
  checked_capacity-fits (pos a) (pos b) m n h = ground arith

  pub change_capacity-Changes :
      (kind : FacilityKind) (now : ℕ) (id : String) (room : ℤ) (new_total new_beds : Option ℤ)
      (expected : Option ℕ) (actor : String) (reason : Option String) (r : FacilityRecord)
      (s : FacilityStore)
      → lookup id (table kind s) ≡ some r
      → Changes s
          (change_capacity intersects kind now id room new_total new_beds expected actor reason
            (with_exposure intersects s r)
            s).1
  unfolding change_capacity
  change_capacity-Changes kind now id room new_total new_beds expected actor reason r s found =
      raise_if-Changes (is_outdated expected r.state_version) facility_version_conflict _ s
        λ current.
          elim (Result-cases (checked_capacity room (or_else new_total (pos r.capacity)))) [
            | inr (e, refused) ↦ rw refused (done s)
            | inl ((m, n), valid) ↦ rw valid (elim (Result-cases (checked_beds new_beds)) [
              | inr (e, refused) ↦ rw refused (done s)
              | inl (beds, natural) ↦ rw natural (
                  commit_update-Changes kind now id _ r _ _ s found refl refl
                    (λ h. checked_capacity-fits room _ m n valid))
            ])
          ]

  pub change_status-Changes :
      (kind : FacilityKind) (now : ℕ) (id new : String) (expected : Option ℕ) (actor : String)
      (reason : Option String) (r : FacilityRecord) (s : FacilityStore)
      → lookup id (table kind s) ≡ some r
      → Changes s
          (change_status intersects kind now id new expected actor reason
            (with_exposure intersects s r)
            s).1
  unfolding change_status
  change_status-Changes kind now id new expected actor reason r s found =
      raise_if-Changes (is_outdated expected r.state_version) facility_version_conflict _ s
        λ current. commit_update-Changes kind now id _ r _ _ s found refl refl (λ h. h)
