-- ===== src/Incidents/Repeated.antt =====
-- services/api/app/repositories/incident_service.py: an update that repeats the status.
use ai_powered_respiratory_h.Base.{
  ℕ, ◌+◌, String, false, ◌≡◌, refl, subst, List, [], ◌∷◌, ◌++◌, Option, some, lookup,
  lookup-insert_self, ok, continue, nat_eq, IsOk,
}
use ai_powered_respiratory_h.Schemas.Incident.{IncidentStatus}
use ai_powered_respiratory_h.Lifecycle.{
  validate_incident_transition, validate_incident_transition_cases,
}
use ai_powered_respiratory_h.Twin.Apply.{apply_event}
use ai_powered_respiratory_h.Incidents.Records.{IncidentRecord, IncidentAuditEntry, IncidentStore}
use ai_powered_respiratory_h.Incidents.Service.{
  on_twin, offered, get_incident, store_update, with_status, status_event, status_entry,
  move_status, update_incident_status,
}
use ai_powered_respiratory_h.Incidents.Changes.{read_back}
use ai_powered_respiratory_h.Incidents.Versions.{IsCurrent, is_outdated-IsCurrent, ok_of}

-- What storing an update leaves where there is a history.
abbrev IsStored :
    String → IncidentRecord → IncidentAuditEntry → List IncidentAuditEntry → IncidentStore → Type 0
IsStored id after e log t =
    (lookup id t.incidents ≡ some after) × (lookup id t.audit_logs ≡ some (log ++ e ∷ []))

stored :
    (id : String) (after : IncidentRecord) (e : IncidentAuditEntry) (log : List IncidentAuditEntry)
    (s : IncidentStore)
    → lookup id s.audit_logs ≡ some log
    → IsStored id after e log (continue (store_update id after e s) (λ u. get_incident id)).1
unfolding store_update
stored id after e log s there =
    subst (IsStored id after e log) (read_back id (store_update id after e s)) (
      rw there (
        lookup-insert_self id after s.incidents,
        lookup-insert_self id (log ++ e ∷ []) s.audit_logs,
      ))

same_status : (t : IncidentStatus) → validate_incident_transition t t ≡ ok false
same_status t = (validate_incident_transition_cases t t).1.1 refl

repeated :
    (now : ℕ) (id : String) (expected : Option ℕ) (actor : String) (notes team : Option String)
    (r : IncidentRecord) (log : List IncidentAuditEntry) (s : IncidentStore)
    → lookup id s.incidents ≡ some r
    → lookup id s.audit_logs ≡ some log
    → IsCurrent expected r.state_version
    → IsOk
        (apply_event
          (λ k. now)
          (status_event now id (offered r) r.incident.status team)
          s.digital_twin).0
    → let after = with_status now r.incident.status team (offered r) in
      IsStored id after
        (status_entry now actor notes (offered r) after)
        log
        (update_incident_status now id r.incident.status expected actor notes team s).1
unfolding update_incident_status get_incident move_status on_twin
repeated now id expected actor notes team r log s found there current accepted =
    let (a, ran) =
      ok_of
        (apply_event (λ k. now) (status_event now id (offered r) r.incident.status team)
          s.digital_twin).0
        accepted in
    let after = with_status now r.incident.status team (offered r) in
    rw
      (
        found,
        (is_outdated-IsCurrent expected r.state_version).1 current,
        same_status r.incident.status,
        ran,
      )
      (stored id after (status_entry now actor notes (offered r) after) log _ there)

-- An update that repeats the status of an incident is no transition to the lifecycle, and yet, with the
-- stored version expected or none and once the digital twin has accepted its event, the incident is
-- stored with the next version number and its details and status as they were, and its history has one
-- more entry, with that version and the actor.
pub update_incident_status_repeated :
    (now : ℕ) (id : String) (expected : Option ℕ) (actor : String) (notes team : Option String)
    (r : IncidentRecord) (log : List IncidentAuditEntry) (s : IncidentStore)
    → lookup id s.incidents ≡ some r
    → lookup id s.audit_logs ≡ some log
    → IsCurrent expected r.state_version
    → IsOk
        (apply_event
          (λ k. now)
          (status_event now id (offered r) r.incident.status team)
          s.digital_twin).0
    → let t = (update_incident_status now id r.incident.status expected actor notes team s).1 in
      (validate_incident_transition r.incident.status r.incident.status ≡ ok false)
      × ((after : IncidentRecord) × (lookup id t.incidents ≡ some after)
          × (after.state_version ≡ r.state_version + 1)
          × (after.incident ≡ r.incident)
          × (after.updated_at ≡ now))
      × ((e : IncidentAuditEntry) × (lookup id t.audit_logs ≡ some (log ++ e ∷ []))
          × (e.state_version ≡ r.state_version + 1)
          × (e.actor ≡ actor))
update_incident_status_repeated now id expected actor notes team r log s found there current
      accepted =
    let (kept, recorded) =
      repeated now id expected actor notes team r log s found there current accepted in
    (same_status r.incident.status, (_, kept, refl, refl, refl), (_, recorded, refl, refl))
