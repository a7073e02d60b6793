-- ===== src/Facilities/Audit.antt =====
-- The histories of hospitals and shelters, which share one dictionary.
use ai_powered_respiratory_h.Base.{
  ℕ, String, Bool, false, ◌≡◌, ◌⊎◌, inl, inr, refl, sym, ap, subst, List, [], ◌∷◌, ◌++◌, Option,
  none, some, Bool-cases, Option-cases, lookup, insert, Dict, lookup-insert, lookup-insert_self,
  ◌==◌, string_eq, IsNumbered, IsNumbered-snoc,
}
use ai_powered_respiratory_h.Incidents.Records.{Location}
use ai_powered_respiratory_h.Facilities.Records.{
  FacilityKind, hospital_kind, shelter_kind, FacilityRecord, FacilityAuditEntry, FacilityStore,
}
use ai_powered_respiratory_h.Facilities.Service.{table, with_exposure, facility_created_entry}
use ai_powered_respiratory_h.Facilities.Exposure.{set_active_flood_scenario}
use ai_powered_respiratory_h.Facilities.Updates.{store_facility_update}
use ai_powered_respiratory_h.Facilities.Tables.{
  Tables, tables, other_kind, put_record, put_record-Found, put_record-other, store_facility-table,
  store_facility_update-table, table-twin, table-scenario, logs-with_table,
}
use ai_powered_respiratory_h.Facilities.Changes.{
  Change, twin, scenario, create, update, Changes, done, after,
}
use ai_powered_respiratory_h.Facilities.Requests.{Request, handle, Takes, handle-Changes}

abbrev version_of : FacilityAuditEntry → Option ℕ
version_of e = some e.state_version

-- A history with one entry for each version up to the present one.
abbrev pub HasHistory : ℕ → Option (List FacilityAuditEntry) → Type 0
HasHistory version none = ⊥
HasHistory version (some log) = IsNumbered version_of 0 log version

abbrev Logs : Type 0
Logs = Dict (List FacilityAuditEntry)

abbrev HasHistories : Tables → Logs → Type 0
HasHistories d logs =
    (k : FacilityKind) (j : String) (q : FacilityRecord)
    → lookup j (d k) ≡ some q
    → HasHistory q.state_version (lookup j logs)

-- No identifier is in both tables.
abbrev IsApart : Tables → Type 0
IsApart d =
    (k : FacilityKind) (j : String) (q : FacilityRecord)
    → lookup j (d k) ≡ some q
    → lookup j (d (other_kind k)) ≡ none

abbrev pub IsTraced : FacilityStore → Type 0
IsTraced s = HasHistories (tables s) s.audit_logs × IsApart (tables s)

-- The identifier is not one of the other kind of facility.
abbrev pub IsOwn : FacilityKind → String → FacilityStore → Type 0
IsOwn kind id s = lookup id (table (other_kind kind) s) ≡ none

absent_some : (o : Option FacilityRecord) (q : FacilityRecord) → o ≡ none → o ≡ some q → ⊥
absent_some o q absent there = cc

-- Writing a record with its history keeps the others' histories.
put_record-HasHistories :
    (kind : FacilityKind) (id : String) (r : FacilityRecord) (log : List FacilityAuditEntry)
    (d : Tables) (logs : Logs)
    → IsNumbered version_of 0 log r.state_version
    → lookup id (d (other_kind kind)) ≡ none
    → HasHistories d logs
    → HasHistories (put_record kind id r d) (insert id log logs)
put_record-HasHistories kind id r log d logs numbered own old k j q found =
    elim (put_record-Found kind k id j r q d found) [
      | inl (same, key, value) ↦
          subst (λ i. HasHistory q.state_version (lookup i (insert id log logs))) key
            (rw lookup-insert_self
              (subst (λ x. IsNumbered version_of 0 log x.state_version) value numbered))
      | inr (there, inl elsewhere) ↦ rw (lookup-insert, elsewhere) (old k j q there)
      | inr (there, inr kept) ↦ elim (Bool-cases (id == j)) [
        | inr elsewhere ↦ rw (lookup-insert, elsewhere) (old k j q there)
        | inl here ↦ absurd (
            absent_some _ q own (
              subst (λ i. lookup i (d (other_kind kind)) ≡ some q)
                (sym ((string_eq.same_iff id j).0 here))
                (subst (λ m. lookup j (d m) ≡ some q) kept there)))
      ]
    ]

-- A write elsewhere adds no record for an identifier of the other table.
insert-absent :
    (id j : String) (r q : FacilityRecord) (d e : Dict FacilityRecord)
    → lookup id e ≡ none
    → lookup j e ≡ some q
    → lookup j d ≡ none
    → lookup j (insert id r d) ≡ none
insert-absent id j r q d e own there absent = elim (Bool-cases (id == j)) [
  | inl here ↦ absurd (
      absent_some _ q own
        (subst (λ i. lookup i e ≡ some q) (sym ((string_eq.same_iff id j).0 here)) there))
  | inr elsewhere ↦ rw (lookup-insert, elsewhere) absent
]

put_record-absent :
    (kind k : FacilityKind) (id j : String) (r q : FacilityRecord) (d : Tables)
    → lookup id (d (other_kind kind)) ≡ none
    → lookup j (d k) ≡ some q
    → lookup j (d (other_kind k)) ≡ none
    → ((id == j) ≡ false) ⊎ (k ≡ other_kind kind)
    → lookup j (put_record kind id r d (other_kind k)) ≡ none
put_record-absent hospital_kind hospital_kind id j r q d own there absent w = absent
put_record-absent shelter_kind shelter_kind id j r q d own there absent w = absent
put_record-absent hospital_kind shelter_kind id j r q d own there absent w =
    insert-absent id j r q (d hospital_kind) (d shelter_kind) own there absent
put_record-absent shelter_kind hospital_kind id j r q d own there absent w =
    insert-absent id j r q (d shelter_kind) (d hospital_kind) own there absent

put_record-IsApart :
    (kind : FacilityKind) (id : String) (r : FacilityRecord) (d : Tables)
    → lookup id (d (other_kind kind)) ≡ none
    → IsApart d
    → IsApart (put_record kind id r d)
put_record-IsApart kind id r d own old k j q found =
    elim (put_record-Found kind k id j r q d found) [
      | inl (same, key, value) ↦
          subst (λ i. lookup i (put_record kind id r d (other_kind k)) ≡ none) key
            (subst (λ m. lookup id (put_record kind id r d (other_kind m)) ≡ none) (sym same)
              (rw put_record-other own))
      | inr (there, which) ↦ put_record-absent kind k id j r q d own there (old k j q there) which
    ]

-- Both at once, for a store with the tables and the histories after such a write.
put_record-IsTraced :
    (kind : FacilityKind) (id : String) (r : FacilityRecord) (log : List FacilityAuditEntry)
    (s t : FacilityStore)
    → ((k : FacilityKind) → table k t ≡ put_record kind id r (tables s) k)
    → t.audit_logs ≡ insert id log s.audit_logs
    → IsNumbered version_of 0 log r.state_version
    → IsOwn kind id s
    → IsTraced s
    → IsTraced t
put_record-IsTraced kind id r log s t same logs numbered own (histories, apart) = (
  λ k j q found. rw logs (
      put_record-HasHistories kind id r log (tables s) s.audit_logs numbered own histories k j q
        (rw same at found)),
  λ k j q found.
      rw same (put_record-IsApart kind id r (tables s) own apart k j q (rw same at found)),
)

kept-IsTraced :
    (s t : FacilityStore)
    → ((k : FacilityKind) → table k t ≡ table k s)
    → t.audit_logs ≡ s.audit_logs
    → IsTraced s
    → IsTraced t
kept-IsTraced s t same logs (histories, apart) = (
  λ k j q found. rw logs (histories k j q (rw same at found)),
  λ k j q found. rw same (apart k j q (rw same at found)),
)

store_facility_update-logs :
    (kind : FacilityKind) (id : String) (r : FacilityRecord) (e : FacilityAuditEntry)
    (log : List FacilityAuditEntry) (s : FacilityStore)
    → lookup id s.audit_logs ≡ some log
    → (store_facility_update kind id r e s).1.audit_logs ≡ insert id (log ++ e ∷ []) s.audit_logs
unfolding store_facility_update
store_facility_update-logs kind id r e log s there =
    rw there (ap (insert id (log ++ e ∷ [])) (logs-with_table kind _ s))

module _ (intersects : String → Location → Option Bool) where
  Change-IsTraced : {s t : FacilityStore} → Change intersects IsOwn s t → IsTraced s → IsTraced t
  unfolding set_active_flood_scenario
  Change-IsTraced (twin t s) h = kept-IsTraced s _ (λ k. table-twin k t s) refl h
  Change-IsTraced (scenario id polygon s) h =
      kept-IsTraced s _ (λ k. table-scenario k id polygon s) refl h
  Change-IsTraced (create now actor kind r t s new free first fits) h =
      put_record-IsTraced kind r.facility_id (with_exposure intersects s r)
        (facility_created_entry now actor kind r ∷ []) s _
        (λ k. store_facility-table intersects now actor kind k r t s) refl (refl, sym first) free h
  Change-IsTraced (update kind id r r' e s there v w keeps) (histories, apart) =
      elim (Option-cases (lookup id s.audit_logs)) [
        | inl absent ↦
            absurd (subst (HasHistory r.state_version) absent (histories kind id r there))
        | inr (log, recorded) ↦
            let numbered =
              subst (HasHistory r.state_version) recorded (histories kind id r there) in
            put_record-IsTraced kind id r' (log ++ e ∷ []) s _
              (λ k. store_facility_update-table kind k id r' e s)
              (store_facility_update-logs kind id r' e log s recorded)
              (subst (IsNumbered version_of 0 (log ++ e ∷ [])) (sym v)
                (IsNumbered-snoc version_of 0 r.state_version log e numbered (ap some w)))
              (apart kind id r there) (histories, apart)
      ]

  Changes-IsTraced : {s t : FacilityStore} → Changes intersects IsOwn s t → IsTraced s → IsTraced t
  Changes-IsTraced (done s) h = h
  Changes-IsTraced (after earlier last) h = Change-IsTraced last (Changes-IsTraced earlier h)

  -- No identifier is both a hospital's and a shelter's, and the history of each has exactly one entry
  -- for each version of it, in order, from 1 up to its present version: if that is so before a
  -- request, it is so after it, whether it succeeded or raised, provided that the request does not
  -- create a hospital under the identifier of a shelter, or a shelter under that of a hospital.
  pub handle-IsTraced :
      (q : Request) (s : FacilityStore)
      → Takes IsOwn q s
      → IsTraced s
      → IsTraced (handle intersects q s)
  handle-IsTraced q s own h = Changes-IsTraced (handle-Changes intersects IsOwn q s own) h
