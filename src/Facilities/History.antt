-- ===== src/Facilities/History.antt =====
-- Bounds and histories of hospitals and shelters under every request.
use ai_powered_respiratory_h.Base.{
  String, Bool, ◌≡◌, inl, inr, subst, Option, some, lookup, string_eq,
}
use ai_powered_respiratory_h.Incidents.Records.{Location}
use ai_powered_respiratory_h.Facilities.Records.{FacilityKind, FacilityRecord, FacilityStore}
use ai_powered_respiratory_h.Facilities.Service.{with_exposure}
use ai_powered_respiratory_h.Facilities.Tables.{
  Tables, tables, put_record, put_record-Found, store_facility-table, store_facility_update-table,
  table-twin, table-scenario,
}
use ai_powered_respiratory_h.Facilities.Changes.{
  Holds, Change, twin, scenario, create, update, Changes, done, after,
}
use ai_powered_respiratory_h.Facilities.Requests.{
  Request, add_hospital, add_shelter, handle, Takes, handle-Changes,
}

-- Every record of the tables has a property.
abbrev AllRecords : (FacilityRecord → Type 0) → Tables → Type 0
AllRecords P d =
    (k : FacilityKind) (j : String) (q : FacilityRecord) → lookup j (d k) ≡ some q → P q

-- No hospital or shelter has more room than its capacity.
abbrev pub IsBounded : FacilityStore → Type 0
IsBounded s = AllRecords Holds (tables s)

AllRecords-put_record :
    (P : FacilityRecord → Type 0) (kind : FacilityKind) (id : String) (r : FacilityRecord)
    (d : Tables)
    → P r
    → AllRecords P d
    → AllRecords P (put_record kind id r d)
AllRecords-put_record P kind id r d new old k j q found =
    elim (put_record-Found kind k id j r q d found) [
      | inl (same, key, value) ↦ subst P value new
      | inr (there, other) ↦ old k j q there
    ]

Takes-any : (q : Request) (s : FacilityStore) → Takes (λ k id t. Unit {0}) q s
Takes-any (add_hospital now h actor) s = tt
Takes-any (add_shelter now h actor) s = tt
Takes-any _ s = tt

module _ (intersects : String → Location → Option Bool) where
  Change-IsBounded :
      {Free : FacilityKind → String → FacilityStore → Type 0} {s t : FacilityStore}
      → Change intersects Free s t
      → IsBounded s
      → IsBounded t
  Change-IsBounded (twin t s) h k j q found = h k j q (rw table-twin at found)
  Change-IsBounded (scenario id polygon s) h k j q found = h k j q (rw table-scenario at found)
  Change-IsBounded (create now actor kind r t s new free first fits) h k j q found =
      AllRecords-put_record Holds kind r.facility_id (with_exposure intersects s r) (tables s) fits
        h k j q (rw store_facility-table at found)
  Change-IsBounded (update kind id r r' e s there v w keeps) h k j q found =
      AllRecords-put_record Holds kind id r' (tables s) (keeps (h kind id r there)) h k j q
        (rw store_facility_update-table at found)

  Changes-IsBounded :
      {Free : FacilityKind → String → FacilityStore → Type 0} {s t : FacilityStore}
      → Changes intersects Free s t
      → IsBounded s
      → IsBounded t
  Changes-IsBounded (done s) h = h
  Changes-IsBounded (after earlier last) h = Change-IsBounded last (Changes-IsBounded earlier h)

  -- If no hospital or shelter of the service has more room than its capacity, none has after any
  -- request, whether it succeeded or raised.
  pub handle-IsBounded :
      (q : Request) (s : FacilityStore) → IsBounded s → IsBounded (handle intersects q s)
  handle-IsBounded q s h =
      Changes-IsBounded (handle-Changes intersects (λ k id t. Unit) q s (Takes-any q s)) h
