-- ===== src/Incidents/History.antt =====
-- The history and the progress of incidents under every request.
use ai_powered_respiratory_h.Base.{
  ℕ, ◌≤◌, String, false, ◌≡◌, inl, inr, refl, sym, ap, ◌∙◌, subst, arith, List, [], ◌∷◌, ◌++◌,
  Option, none, some, Bool-cases, Option-cases, lookup, insert, contains, Dict, lookup-insert, ◌==◌,
  string_eq, IsNumbered, IsNumbered-snoc,
}
use ai_powered_respiratory_h.Schemas.Incident.{IncidentStatus}
use ai_powered_respiratory_h.Lifecycle.{Steps, stay, next}
use ai_powered_respiratory_h.Incidents.Records.{IncidentRecord, IncidentAuditEntry, IncidentStore}
use ai_powered_respiratory_h.Incidents.Service.{
  on_twin, store_new, new_record, created_entry, store_update,
}
use ai_powered_respiratory_h.Incidents.Changes.{
  Change, twin, create, update, Changes, done, after, Moves, Request, handle, handle-Changes,
}

abbrev pub version_of : IncidentAuditEntry → Option ℕ
version_of e = some e.state_version

-- A history with one entry for each version up to the present one.
abbrev pub HasHistory : ℕ → Option (List IncidentAuditEntry) → Type 0
HasHistory version none = ⊥
HasHistory version (some log) = IsNumbered version_of 0 log version

abbrev pub IsAudited : IncidentStore → Type 0
IsAudited s =
    (id : String) (r : IncidentRecord)
    → lookup id s.incidents ≡ some r
    → HasHistory r.state_version (lookup id s.audit_logs)

some-injective : {A : Type 0} {a b : A} → some a ≡ some b → a ≡ b
some-injective h = cc

-- Writing a record with its history keeps the others' histories.
write-IsAudited :
    (id : String) (r : IncidentRecord) (log : List IncidentAuditEntry) (s : IncidentStore)
    → IsNumbered version_of 0 log r.state_version
    → IsAudited s
    → (other : String) (q : IncidentRecord) → lookup other (insert id r s.incidents) ≡ some q
    → HasHistory q.state_version (lookup other (insert id log s.audit_logs))
write-IsAudited id r log s numbered before other q found = elim (Bool-cases (id == other)) [
  | inl here ↦
      let e : some r ≡ some q = rw (lookup-insert, here) at found in
      rw (lookup-insert, here)
        (subst (λ x. IsNumbered version_of 0 log x.state_version) (some-injective e) numbered)
  | inr elsewhere ↦
      rw (lookup-insert, elsewhere) (before other q (rw (lookup-insert, elsewhere) at found))
]

-- The history of a record that is there.
history :
    (id : String) (r : IncidentRecord) (s : IncidentStore)
    → IsAudited s
    → lookup id s.incidents ≡ some r
    → (log : List IncidentAuditEntry) × (lookup id s.audit_logs ≡ some log)
      × IsNumbered version_of 0 log r.state_version
history id r s audited found = elim (Option-cases (lookup id s.audit_logs)) [
  | inl absent ↦ absurd (subst (HasHistory r.state_version) absent (audited id r found))
  | inr (log, there) ↦ (log, there, subst (HasHistory r.state_version) there (audited id r found))
]

Change-IsAudited : {s t : IncidentStore} → Change s t → IsAudited s → IsAudited t
unfolding on_twin store_new store_update
Change-IsAudited (twin m s) before = before
Change-IsAudited (create now actor i s new) before =
    write-IsAudited i.incident_id (new_record now i) (created_entry now actor i ∷ []) s (refl, refl)
      before
Change-IsAudited (update id r r' e s found v w moves) before =
    let (log, there, numbered) = history id r s before found in
    let longer : IsNumbered version_of 0 (log ++ e ∷ []) r'.state_version =
      subst (IsNumbered version_of 0 (log ++ e ∷ [])) (sym v)
        (IsNumbered-snoc version_of 0 r.state_version log e numbered (ap some w)) in
    rw there (write-IsAudited id r' (log ++ e ∷ []) s longer before)

Changes-IsAudited : {s t : IncidentStore} → Changes s t → IsAudited s → IsAudited t
Changes-IsAudited (done s) before = before
Changes-IsAudited (after earlier last) before =
    Change-IsAudited last (Changes-IsAudited earlier before)

-- Every incident's history has exactly one entry for each version of it, in order, from 1 up to its
-- present version: if that is so before a request, it is so after it, whether it succeeded or raised.
pub handle-IsAudited : (q : Request) (s : IncidentStore) → IsAudited s → IsAudited (handle q s)
handle-IsAudited q s before = Changes-IsAudited (handle-Changes q s) before

-- What became of a record that was there.
abbrev pub IsProgressed : IncidentRecord → Option IncidentRecord → Type 0
IsProgressed r none = ⊥
IsProgressed r (some r') =
    Steps r.incident.status r'.incident.status × (r.state_version ≤ r'.state_version)

Steps-append : {s t u : IncidentStatus} → Steps s t → Steps t u → Steps s u
Steps-append (stay s) more = more
Steps-append (next step rest) more = next step (Steps-append rest more)

moved : (s t : IncidentStatus) → Moves s t → Steps s t
moved s t (inl step) = next step (stay t)
moved s t (inr same) = subst (Steps s) same (stay s)

store_update-incidents :
    (id : String) (r : IncidentRecord) (e : IncidentAuditEntry) (s : IncidentStore)
    → (store_update id r e s).1.incidents ≡ insert id r s.incidents
unfolding store_update
store_update-incidents id r e s = elim (Option-cases (lookup id s.audit_logs)) [
  | inl absent ↦ rw absent refl
  | inr (log, there) ↦ rw there refl
]

written :
    (id other : String) (r r' q : IncidentRecord) (d : Dict IncidentRecord)
    → lookup id d ≡ some r
    → lookup other d ≡ some q
    → Steps r.incident.status r'.incident.status × (r.state_version ≤ r'.state_version)
    → IsProgressed q (lookup other (insert id r' d))
written id other r r' q d found there further = elim (Bool-cases (id == other)) [
  | inl here ↦
      let key = (string_eq.same_iff id other).0 here in
      let e = some-injective (sym (subst (λ k. lookup k d ≡ some r) key found) ∙ there) in
      rw (lookup-insert, here)
        (subst
          (λ x. Steps x.incident.status r'.incident.status × (x.state_version ≤ r'.state_version)) e
          further)
  | inr elsewhere ↦ rw (lookup-insert, elsewhere, there) (stay q.incident.status, omega arith)
]

absent_present :
    (other : String) (q : IncidentRecord) (d : Dict IncidentRecord)
    → contains other d ≡ false
    → lookup other d ≡ some q
    → ⊥
absent_present other q d absent there = cc (rw there at absent)

Change-IsProgressed :
    {s t : IncidentStore} (other : String) (q : IncidentRecord)
    → Change s t
    → lookup other s.incidents ≡ some q
    → IsProgressed q (lookup other t.incidents)
unfolding on_twin store_new
Change-IsProgressed other q (twin m s) there = rw there (stay q.incident.status, omega arith)
Change-IsProgressed other q (create now actor i s new) there =
    elim (Bool-cases (i.incident_id == other)) [
      | inl here ↦
          let key = (string_eq.same_iff i.incident_id other).0 here in
          absurd (
            absent_present other q s.incidents (subst (λ k. contains k s.incidents ≡ false) key new)
              there)
      | inr elsewhere ↦ rw (lookup-insert, elsewhere, there) (stay q.incident.status, omega arith)
    ]
Change-IsProgressed other q (update id r r' e s found v w moves) there =
    rw (store_update-incidents id r' e s) (
      written id other r r' q s.incidents found there
        (moved r.incident.status r'.incident.status moves, omega (arith, v)))

onward :
    (q r : IncidentRecord) (o : Option IncidentRecord)
    → IsProgressed q (some r)
    → IsProgressed r o
    → IsProgressed q o
onward q r none first last = last
onward q r (some u) first last = (Steps-append first.0 last.0, omega (arith, first.1, last.1))

Changes-IsProgressed :
    {s t : IncidentStore} (other : String) (q : IncidentRecord)
    → Changes s t
    → lookup other s.incidents ≡ some q
    → IsProgressed q (lookup other t.incidents)
Changes-IsProgressed other q (done s) there = rw there (stay q.incident.status, omega arith)
Changes-IsProgressed {s} {t} other q (after {t = m} earlier last) there =
    let before = Changes-IsProgressed other q earlier there in
    elim (Option-cases (lookup other m.incidents)) [
      | inl absent ↦ absurd (subst (IsProgressed q) absent before)
      | inr (r, found) ↦
          onward q r (lookup other t.incidents) (subst (IsProgressed q) found before)
            (Change-IsProgressed other r last found)
    ]

-- No request removes an incident, takes its status back along the lifecycle, or lowers its version:
-- an incident that is there before a request is there after it, its status reached by steps of the
-- lifecycle alone.
pub handle-IsProgressed :
    (q : Request) (id : String) (r : IncidentRecord) (s : IncidentStore)
    → lookup id s.incidents ≡ some r
    → IsProgressed r (lookup id (handle q s).incidents)
handle-IsProgressed q id r s there = Changes-IsProgressed id r (handle-Changes q s) there
