-- ===== src/Facilities/Flood.antt =====
-- What the active flood does to the facilities: they are reported as exposed, and stay as they are.
use ai_powered_respiratory_h.Base.{
  String, Bool, true, false, ◌≡◌, ◌↔◌, refl, sym, subst, Option, none, some, lookup, ok,
}
use ai_powered_respiratory_h.Incidents.Records.{Location}
use ai_powered_respiratory_h.Facilities.Records.{
  exposed, FloodExposure, FacilityRecord, FacilityStore,
}
use ai_powered_respiratory_h.Facilities.Exposure.{
  set_active_flood_scenario, active, exposure, exposed_to, evaluate_flood_exposure,
}
use ai_powered_respiratory_h.Facilities.Service.{get_facility, get_hospital}

-- The active polygon meets the location.
abbrev pub IsHit : (String → Location → Option Bool) → Option String → Location → Type 0
IsHit intersects polygon l = (p : String) × (active polygon ≡ some p) × (intersects p l ≡ some true)

abbrev pub IsFlagged : FloodExposure → Type 0
IsFlagged e = (e.is_exposed ≡ true) × (e.status ≡ exposed)

exposure-IsFlagged :
    (scenario : Option String) (o : Option Bool) → IsFlagged (exposure scenario o) ↔ (o ≡ some true)
exposure-IsFlagged scenario none = (λ h. cc (h.0), λ h. cc)
exposure-IsFlagged scenario (some true) = (λ h. refl, λ h. (refl, refl))
exposure-IsFlagged scenario (some false) = (λ h. cc (h.0), λ h. cc)

exposed_to-IsFlagged :
    (intersects : String → Location → Option Bool) (scenario : Option String) (l : Location)
    (o : Option String)
    → IsFlagged (exposed_to intersects scenario o l)
      ↔ ((p : String) × (o ≡ some p) × (intersects p l ≡ some true))
exposed_to-IsFlagged intersects scenario l none = (λ h. cc (h.0), λ h. cc (h.1))
exposed_to-IsFlagged intersects scenario l (some p) = (
  λ h. (p, refl, (exposure-IsFlagged scenario (intersects p l)).0 h),
  λ (q, same, hit).
      (exposure-IsFlagged scenario (intersects p l)).1
        (subst (λ x. intersects x l ≡ some true) (cc (sym same)) hit),
)

-- Activating a flood closes nothing. After it a hospital that was there is read exactly as it is
-- stored, its status included, but for its exposure; it is reported as exposed just if there is a
-- polygon and the geometric test finds that it meets the hospital's location; and the tables, the
-- histories and the digital twin are as they were.
pub set_active_flood_scenario-get_hospital :
    (intersects : String → Location → Option Bool) (scenario polygon : Option String) (id : String)
    (r : FacilityRecord) (s : FacilityStore)
    → lookup id s.hospitals ≡ some r
    → let t = set_active_flood_scenario scenario polygon s in
      ((e : FloodExposure) × (get_hospital intersects id t
          ≡ (ok (record r { flood_exposure = some e }), t))
        × (IsFlagged e ↔ IsHit intersects polygon r.location))
      × (t.hospitals ≡ s.hospitals)
      × (t.shelters ≡ s.shelters)
      × (t.audit_logs ≡ s.audit_logs)
      × (t.digital_twin ≡ s.digital_twin)
unfolding get_facility set_active_flood_scenario evaluate_flood_exposure
set_active_flood_scenario-get_hospital intersects scenario polygon id r s found = (
  (
    exposed_to intersects scenario (active polygon) r.location,
    rw found refl,
    exposed_to-IsFlagged intersects scenario r.location (active polygon),
  ),
  refl,
  refl,
  refl,
  refl,
)
