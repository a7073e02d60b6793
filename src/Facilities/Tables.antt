-- ===== src/Facilities/Tables.antt =====
-- The two tables of the facility service after a write to one of them.
use ai_powered_respiratory_h.Base.{
  String, Bool, false, ◌≡◌, ◌⊎◌, inl, inr, refl, ◌∙◌, Option, some, Bool-cases, Option-cases, Dict,
  lookup, insert, lookup-insert, ◌==◌, string_eq, ℕ, List,
}
use ai_powered_respiratory_h.Incidents.Records.{Location}
use ai_powered_respiratory_h.Facilities.Records.{
  FacilityKind, hospital_kind, shelter_kind, FacilityRecord, FacilityAuditEntry, FacilityStore,
}
use ai_powered_respiratory_h.Facilities.Service.{table, with_table, with_exposure, store_facility}
use ai_powered_respiratory_h.Facilities.Exposure.{
  evaluate_flood_exposure, set_active_flood_scenario,
}
use ai_powered_respiratory_h.Twin.State.{Twin}
use ai_powered_respiratory_h.Facilities.Updates.{store_facility_update}

abbrev pub Tables : Type 0
Tables = FacilityKind → Dict FacilityRecord

abbrev pub tables : FacilityStore → Tables
tables s k = table k s

abbrev pub other_kind : FacilityKind → FacilityKind
other_kind hospital_kind = shelter_kind
other_kind shelter_kind = hospital_kind

-- The tables after a write.
abbrev pub put_record : FacilityKind → String → FacilityRecord → Tables → Tables
put_record hospital_kind id r d hospital_kind = insert id r (d hospital_kind)
put_record hospital_kind id r d shelter_kind = d shelter_kind
put_record shelter_kind id r d hospital_kind = d hospital_kind
put_record shelter_kind id r d shelter_kind = insert id r (d shelter_kind)

written :
    (kind k : FacilityKind) (id : String) (r : FacilityRecord) (s : FacilityStore)
    → table k (with_table kind (insert id r (table kind s)) s) ≡ put_record kind id r (tables s) k
written hospital_kind hospital_kind id r s = refl
written hospital_kind shelter_kind id r s = refl
written shelter_kind hospital_kind id r s = refl
written shelter_kind shelter_kind id r s = refl

table-logs :
    (k : FacilityKind) (logs : Dict (List FacilityAuditEntry)) (s : FacilityStore)
    → table k (record s { audit_logs = logs }) ≡ table k s
table-logs hospital_kind logs s = refl
table-logs shelter_kind logs s = refl

pub table-twin :
    (k : FacilityKind) (t : Twin) (s : FacilityStore)
    → table k (record s { digital_twin = t }) ≡ table k s
table-twin hospital_kind t s = refl
table-twin shelter_kind t s = refl

pub table-scenario :
    (k : FacilityKind) (id polygon : Option String) (s : FacilityStore)
    → table k (set_active_flood_scenario id polygon s) ≡ table k s
unfolding set_active_flood_scenario
table-scenario hospital_kind id polygon s = refl
table-scenario shelter_kind id polygon s = refl

pub logs-with_table :
    (kind : FacilityKind) (d : Dict FacilityRecord) (s : FacilityStore)
    → (with_table kind d s).audit_logs ≡ s.audit_logs
logs-with_table hospital_kind d s = refl
logs-with_table shelter_kind d s = refl

pub store_facility-table :
    (intersects : String → Location → Option Bool) (now : ℕ) (actor : String)
    (kind k : FacilityKind) (r : FacilityRecord) (t : Twin) (s : FacilityStore)
    → table k (store_facility intersects now actor kind r (record s { digital_twin = t }))
      ≡ put_record kind r.facility_id (with_exposure intersects s r) (tables s) k
unfolding evaluate_flood_exposure
store_facility-table intersects now actor hospital_kind hospital_kind r t s = refl
store_facility-table intersects now actor hospital_kind shelter_kind r t s = refl
store_facility-table intersects now actor shelter_kind hospital_kind r t s = refl
store_facility-table intersects now actor shelter_kind shelter_kind r t s = refl

pub store_facility_update-table :
    (kind k : FacilityKind) (id : String) (r : FacilityRecord) (e : FacilityAuditEntry)
    (s : FacilityStore)
    → table k (store_facility_update kind id r e s).1 ≡ put_record kind id r (tables s) k
unfolding store_facility_update
store_facility_update-table kind k id r e s = elim (Option-cases (lookup id s.audit_logs)) [
  | inl absent ↦ rw absent (written kind k id r s)
  | inr (log, there) ↦
      rw there
        (table-logs k _ (with_table kind (insert id r (table kind s)) s) ∙ written kind k id r s)
]

-- What a lookup finds after a write: what was written, or what was there before.
abbrev pub Found :
    FacilityKind
    → String
    → FacilityRecord
    → Tables
    → FacilityKind
    → String
    → FacilityRecord
    → Type 0
Found kind id r d k j q =
    ((k ≡ kind) × (id ≡ j) × (r ≡ q))
    ⊎ ((lookup j (d k) ≡ some q) × (((id == j) ≡ false) ⊎ (k ≡ other_kind kind)))

inserted :
    (kind : FacilityKind) (id j : String) (r q : FacilityRecord) (d : Tables)
    → lookup j (insert id r (d kind)) ≡ some q
    → Found kind id r d kind j q
inserted kind id j r q d found = elim (Bool-cases (id == j)) [
  | inl here ↦
      let e : some r ≡ some q = rw (lookup-insert, here) at found in
      inl (refl, (string_eq.same_iff id j).0 here, cc)
  | inr elsewhere ↦ inr (rw (lookup-insert, elsewhere) at found, inl elsewhere)
]

pub put_record-other :
    (kind : FacilityKind) (id : String) (r : FacilityRecord) (d : Tables)
    → put_record kind id r d (other_kind kind) ≡ d (other_kind kind)
put_record-other hospital_kind id r d = refl
put_record-other shelter_kind id r d = refl

pub put_record-Found :
    (kind k : FacilityKind) (id j : String) (r q : FacilityRecord) (d : Tables)
    → lookup j (put_record kind id r d k) ≡ some q
    → Found kind id r d k j q
put_record-Found hospital_kind hospital_kind id j r q d found =
    inserted hospital_kind id j r q d found
put_record-Found hospital_kind shelter_kind id j r q d found = inr (found, inr refl)
put_record-Found shelter_kind hospital_kind id j r q d found = inr (found, inr refl)
put_record-Found shelter_kind shelter_kind id j r q d found = inserted shelter_kind id j r q d found
