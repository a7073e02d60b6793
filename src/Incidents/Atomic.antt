-- ===== src/Incidents/Atomic.antt =====
-- Creating an incident, or updating its details, changes everything or nothing.
use ai_powered_respiratory_h.Base.{
  IsOk, ℕ, String, Bool, true, false, not, ◌≡◌, inl, inr, refl, subst, List, Option, some,
  Bool-cases, Option-cases, Result-cases, lookup, lookup-insert_self, contains, Result, ok, raise,
  Exception, Action, continue, raise_if, value_error, state_version_conflict,
}
use ai_powered_respiratory_h.Schemas.Incident.{IncidentSeverity}
use ai_powered_respiratory_h.Twin.State.{Twin}
use ai_powered_respiratory_h.Twin.Handling.{conclude, report}
use ai_powered_respiratory_h.Twin.Apply.{apply_event, dispatch, handle_incident_created}
use ai_powered_respiratory_h.Incidents.Records.{
  Incident, IncidentRecord, IncidentAuditEntry, IncidentStore,
}
use ai_powered_respiratory_h.Incidents.Service.{
  on_twin, within_bounds, reported_event, create_incident, offered, get_incident, is_outdated,
  store_update,
}
use ai_powered_respiratory_h.Incidents.Details.{
  has_changed, change_details, update_incident_details,
}
use ai_powered_respiratory_h.Incidents.History.{HasHistory, IsAudited}

-- A method that raised left the store as it was.
abbrev pub IsAtomic : {A : Type 0} → IncidentStore → Result A × IncidentStore → Type 0
IsAtomic s (ok a, t) = Unit
IsAtomic s (raise e, t) = t ≡ s

pub raise_if-IsAtomic :
    {A : Type 0} (c : Bool) (e : Exception) (f : Action IncidentStore A) (s : IncidentStore)
    → (c ≡ false → IsAtomic s (f s))
    → IsAtomic s (continue (raise_if c e s) (λ u. f))
raise_if-IsAtomic true e f s next = refl
raise_if-IsAtomic false e f s next = next refl

pub read-IsAtomic :
    {A : Type 0} (id : String) (f : IncidentRecord → Action IncidentStore A) (s : IncidentStore)
    → ((r : IncidentRecord) → lookup id s.incidents ≡ some r → IsAtomic s (f (offered r) s))
    → IsAtomic s (continue (get_incident id s) f)
unfolding get_incident
read-IsAtomic id f s next = elim (Option-cases (lookup id s.incidents)) [
  | inl absent ↦ rw absent refl
  | inr (r, found) ↦ rw found (next r found)
]

-- The digital twin accepts every report of a new incident.
pub report-accepted :
    (now : ℕ) (i : Incident) (t : Twin) → IsOk (apply_event (λ k. now) (reported_event now i) t).0
unfolding apply_event dispatch handle_incident_created conclude report
report-accepted now i t =
    elim (Bool-cases (contains (reported_event now i).event_id t.seen_event_ids)) [
      | inl seen ↦ rw seen tt
      | inr new ↦ rw new tt
    ]

reported-IsAtomic :
    {A : Type 0} (now : ℕ) (i : Incident) (f : Action IncidentStore A) (s : IncidentStore)
    → ((t : IncidentStore) → IsAtomic s (f t))
    → IsAtomic s (continue (on_twin (apply_event (λ k. now) (reported_event now i)) s) (λ u. f))
unfolding on_twin
reported-IsAtomic now i f s next =
    elim (Result-cases (apply_event (λ k. now) (reported_event now i) s.digital_twin).0) [
      | inl (a, ran) ↦ rw ran (next _)
      | inr (e, ran) ↦ absurd (subst IsOk ran (report-accepted now i s.digital_twin))
    ]

pub create_incident-IsAtomic :
    (now : ℕ) (i : Incident) (actor : String) (s : IncidentStore)
    → IsAtomic s (create_incident now i actor s)
unfolding create_incident
create_incident-IsAtomic now i actor s =
    raise_if-IsAtomic (contains i.incident_id s.incidents) value_error _ s λ new.
      raise_if-IsAtomic (not (within_bounds i.location)) value_error _ s
        λ inside. reported-IsAtomic now i _ s (λ t. tt)

stored-IsAtomic :
    (id : String) (r : IncidentRecord) (e : IncidentAuditEntry) (log : List IncidentAuditEntry)
    (s : IncidentStore)
    → lookup id s.audit_logs ≡ some log
    → IsAtomic s (continue (store_update id r e s) (λ u. get_incident id))
unfolding store_update get_incident
stored-IsAtomic id r e log s there = rw (there, lookup-insert_self) tt

change_details-IsAtomic :
    (now : ℕ) (id : String) (severity : Option IncidentSeverity) (description : Option String)
    (priority expected : Option ℕ) (actor : String) (r : IncidentRecord) (s : IncidentStore)
    → IsAudited s
    → lookup id s.incidents ≡ some r
    → IsAtomic s (change_details now id severity description priority expected actor (offered r) s)
unfolding change_details get_incident
change_details-IsAtomic now id severity description priority expected actor r s audited found =
    raise_if-IsAtomic (is_outdated expected r.state_version) state_version_conflict _ s λ current.
      elim (Bool-cases (has_changed severity description priority (offered r))) [
        | inr same ↦ rw (same, found) tt
        | inl changed ↦ elim (Option-cases (lookup id s.audit_logs)) [
          | inl absent ↦ absurd (subst (HasHistory r.state_version) absent (audited id r found))
          | inr (log, there) ↦ rw changed (stored-IsAtomic id _ _ log s there)
        ]
      ]

pub update_incident_details-IsAtomic :
    (now : ℕ) (id : String) (severity : Option IncidentSeverity) (description : Option String)
    (priority expected : Option ℕ) (actor : String) (s : IncidentStore)
    → IsAudited s
    → IsAtomic s (update_incident_details now id severity description priority expected actor s)
unfolding update_incident_details
update_incident_details-IsAtomic now id severity description priority expected actor s audited =
    read-IsAtomic id _ s λ r found.
      change_details-IsAtomic now id severity description priority expected actor r s audited found
