-- ===== src/Tests/Incidents.antt =====
-- A flooded road, reported and being handled.
use ai_powered_respiratory_h.Base.{
  false, ◌≡◌, refl, [], ◌∷◌, ◌++◌, none, some, lookup, insert, ok, raise, IsOk, ◌↔◌,
  state_version_conflict, invalid_incident_transition, decimal,
}
use ai_powered_respiratory_h.Schemas.Incident.{
  opened, acknowledged, resolved, road_blocked, IncidentSeverity, field_officer,
}
use ai_powered_respiratory_h.Lifecycle.{validate_incident_transition}
use ai_powered_respiratory_h.Twin.State.{new_twin, commit_event}
use ai_powered_respiratory_h.Twin.Transitions.{apply_incident_status_transition}
use ai_powered_respiratory_h.Twin.Handling.{conclude, report, finish_no_op}
use ai_powered_respiratory_h.Twin.Apply.{
  apply_event, dispatch, handle_incident_created, handle_incident_status_changed, transition,
  settle, created_incident,
}
use ai_powered_respiratory_h.Incidents.Records.{
  Incident, IncidentRecord, IncidentAuditEntry, IncidentStore,
}
use ai_powered_respiratory_h.Incidents.Service.{
  on_twin, offered, store_new, create_incident, new_record, created_entry, update_incident_status,
}
use ai_powered_respiratory_h.Incidents.Service.{status_event}
use ai_powered_respiratory_h.Incidents.Changes.{Request, open_incident, set_status, handle}
use ai_powered_respiratory_h.Incidents.History.{
  IsAudited, handle-IsAudited, IsProgressed, handle-IsProgressed,
}
use ai_powered_respiratory_h.Incidents.Versions.{update_incident_status_iff, IsCurrent, IsPermitted}
use ai_powered_respiratory_h.Incidents.Repeated.{update_incident_status_repeated}

abbrev pub blocked_road : Incident
blocked_road = record {
  incident_id = "INC-1";
  event_type = road_blocked;
  severity = IncidentSeverity.high;
  status = opened;
  priority = 2;
  location = record {
    longitude = record { negative = false; magnitude = 90000000 };
    latitude = record { negative = false; magnitude = 24000000 };
    geometry = "{}";
  };
  description = "Road under water";
  reported_at = 900;
  reported_by = "OFFICER-1";
  source = field_officer;
  evidence = none;
}

abbrev pub nothing : IncidentStore
nothing = record { digital_twin = new_twin none 1 900; incidents = []; audit_logs = [] }

abbrev pub one : IncidentStore
one = (create_incident 1000 blocked_road "SYSTEM" nothing).1

abbrev acknowledge : Request
acknowledge = set_status 1100 "INC-1" acknowledged none "CHIEF" none none

abbrev report_road : Request
report_road = open_incident 1000 blocked_road "SYSTEM"

handle-IsAudited_example : IsAudited (handle acknowledge (handle report_road nothing))
unfolding lookup
handle-IsAudited_example =
    handle-IsAudited acknowledge (handle report_road nothing)
      (handle-IsAudited report_road nothing (λ id r h. cc))

handle-IsProgressed_example :
    IsProgressed (new_record 1000 blocked_road) (lookup "INC-1" (handle acknowledge one).incidents)
unfolding create_incident on_twin store_new apply_event dispatch handle_incident_created conclude
    report commit_event new_twin lookup insert
handle-IsProgressed_example =
    handle-IsProgressed acknowledge "INC-1" (new_record 1000 blocked_road) one refl

update_incident_status_iff_example :
    let p = update_incident_status 1100 "INC-1" resolved (some 7) "CHIEF" none none one in
    (IsOk p.0 ↔ (
      IsCurrent (some 7) 1
      × (IsPermitted opened resolved
          × IsOk
              (apply_event
                (λ k. 1100)
                (status_event 1100 "INC-1" (offered (new_record 1000 blocked_road)) resolved none)
                one.digital_twin).0)))
    × (¬ IsCurrent (some 7) 1 → p ≡ (raise state_version_conflict, one))
    × (IsCurrent (some 7) 1
        → ¬ IsPermitted opened resolved
        → p ≡ (raise invalid_incident_transition, one))
unfolding create_incident on_twin store_new apply_event dispatch handle_incident_created
    created_incident conclude report commit_event new_twin lookup insert
update_incident_status_iff_example =
    update_incident_status_iff 1100 "INC-1" resolved (some 7) "CHIEF" none none
      (new_record 1000 blocked_road) (created_entry 1000 "SYSTEM" blocked_road ∷ []) one refl refl

update_incident_status_repeated_example :
    let t = (update_incident_status 1100 "INC-1" opened (some 1) "CHIEF" none none one).1 in
    (validate_incident_transition opened opened ≡ ok false)
    × ((after : IncidentRecord) × (lookup "INC-1" t.incidents ≡ some after)
        × (after.state_version ≡ 2)
        × (after.incident ≡ blocked_road)
        × (after.updated_at ≡ 1100))
    × ((e : IncidentAuditEntry) × (lookup "INC-1" t.audit_logs
          ≡ some ((created_entry 1000 "SYSTEM" blocked_road ∷ []) ++ e ∷ []))
        × (e.state_version ≡ 2)
        × (e.actor ≡ "CHIEF"))
unfolding create_incident on_twin store_new apply_event dispatch handle_incident_created
    handle_incident_status_changed transition settle apply_incident_status_transition
    created_incident conclude report finish_no_op commit_event new_twin lookup insert decimal
update_incident_status_repeated_example =
    update_incident_status_repeated 1100 "INC-1" (some 1) "CHIEF" none none
      (new_record 1000 blocked_road) (created_entry 1000 "SYSTEM" blocked_road ∷ []) one refl refl
      refl tt
