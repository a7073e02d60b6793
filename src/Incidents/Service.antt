-- ===== src/Incidents/Service.antt =====
-- services/api/app/repositories/incident_service.py: creating an incident, reading it, and changing its
-- status. The time of a call is an argument, and every time that the call reads.
use Prim.Native.String.{◌++◌ as concat}
use ai_powered_respiratory_h.Base.{
  ℕ, ◌+◌, String, Bool, false, not, ◌&&◌, List, [], ◌∷◌, ◌++◌, Option, none, some, or_else, lookup,
  insert, contains, decimal, truthy, ◌==◌, nat_eq, string_eq, option_eq, leb, Result, ok, raise,
  Action, ◌>>=◌, ◌>>◌, raise_if, lift, value_error, key_error, incident_not_found,
  state_version_conflict,
}
use ai_powered_respiratory_h.Schemas.Incident.{
  IncidentStatus, incident_value, incident_severity_eq, IncidentSource, simulator, synthetic_demo,
  manual_entry, incident_type_value,
}
use ai_powered_respiratory_h.Schemas.Event.{EventSource}
use ai_powered_respiratory_h.Lifecycle.{validate_incident_transition, get_allowed_transitions}
use ai_powered_respiratory_h.Twin.Events.{TwinEvent, Payload}
use ai_powered_respiratory_h.Twin.State.{Twin}
use ai_powered_respiratory_h.Twin.Apply.{apply_event}
use ai_powered_respiratory_h.Incidents.Records.{
  Location, Incident, IncidentRecord, IncidentAuditEntry, IncidentStore,
}

-- A call of the digital twin.
unfoldable pub on_twin : {A : Type 0} → Action Twin A → Action IncidentStore A
on_twin m s = let (r, t) = m s.digital_twin in (r, record s { digital_twin = t })

abbrev pub within_bounds : Location → Bool
within_bounds l = leb l.longitude.magnitude 180000000 && leb l.latitude.magnitude 90000000

abbrev pub source_event : IncidentSource → EventSource
source_event simulator = EventSource.simulation
source_event synthetic_demo = EventSource.test_fixture
source_event manual_entry = EventSource.command_center
source_event _ = EventSource.field_report

abbrev pub reported_event : ℕ → Incident → TwinEvent
reported_event now i = record {
  event_id = concat "EVT-CREATE-" i.incident_id;
  event_type = "INCIDENT_CREATED";
  timestamp = now;
  source = source_event i.source;
  reason = none;
  caused_by_event_id = none;
  metadata = [];
  payload = Payload.incident_created (record {
    incident_id = i.incident_id;
    incident_type = incident_type_value i.event_type;
    severity = i.severity;
    status = i.status;
    location = i.location.geometry;
    reported_by = some i.reported_by;
    description = some i.description;
    evidence = i.evidence;
    priority = some i.priority;
  });
}

abbrev pub new_record : ℕ → Incident → IncidentRecord
new_record now i = record {
  incident = i;
  state_version = 1;
  created_at = now;
  updated_at = now;
  assigned_team_id = none;
  allowed_transitions = none;
}

abbrev pub created_entry : ℕ → String → Incident → IncidentAuditEntry
created_entry now actor i = record {
  timestamp = now;
  actor = actor;
  action = "CREATED";
  previous_state = none;
  new_state = new_record now i;
  state_version = 1;
  details =
      concat "Incident "
        (concat i.incident_id (concat " created with status " (incident_value i.status)));
}

unfoldable pub store_new : ℕ → String → Incident → IncidentStore → IncidentStore
store_new now actor i s = record s {
  incidents = insert i.incident_id (new_record now i) s.incidents;
  audit_logs = insert i.incident_id (created_entry now actor i ∷ []) s.audit_logs;
}

unfoldable pub create_incident : ℕ → Incident → String → Action IncidentStore IncidentRecord
create_incident now i actor s =
    (raise_if (contains i.incident_id s.incidents) value_error
        >> (raise_if (not (within_bounds i.location)) value_error
            >> (on_twin (apply_event (λ k. now) (reported_event now i)) >> λ s.
                (ok (new_record now i), store_new now actor i s))))
      s

-- A copy of the record, with the statuses that may follow.
abbrev pub offered : IncidentRecord → IncidentRecord
offered r = record r { allowed_transitions = some (get_allowed_transitions r.incident.status) }

abbrev answer : Option IncidentRecord → Result IncidentRecord
answer none = raise incident_not_found
answer (some r) = ok (offered r)

unfoldable pub get_incident : String → Action IncidentStore IncidentRecord
get_incident id s = (answer (lookup id s.incidents), s)

-- `expected_state_version is not None and expected_state_version != current_version`
abbrev pub is_outdated : Option ℕ → ℕ → Bool
is_outdated none current = false
is_outdated (some expected) current = not (expected == current)

abbrev pub append_entry :
    String → IncidentAuditEntry → Option (List IncidentAuditEntry) → Action IncidentStore (Unit {0})
append_entry id e none s = (raise key_error, s)
append_entry id e (some log) s =
    (ok tt, record s { audit_logs = insert id (log ++ e ∷ []) s.audit_logs })

-- Writes the record back and appends to its history, which raises if there is none.
unfoldable pub store_update :
    String → IncidentRecord → IncidentAuditEntry → Action IncidentStore (Unit {0})
store_update id r e s =
    append_entry id e (lookup id s.audit_logs) (record s { incidents = insert id r s.incidents })

abbrev assign : Option String → Option String → Option String
assign new old = elim (truthy new) [ none ↦ old | some team ↦ some team ]

abbrev pub with_status : ℕ → IncidentStatus → Option String → IncidentRecord → IncidentRecord
with_status now new team r = record r {
  incident = record r.incident { status = new };
  state_version = r.state_version + 1;
  updated_at = now;
  assigned_team_id = assign team r.assigned_team_id;
}

abbrev pub status_event : ℕ → String → IncidentRecord → IncidentStatus → Option String → TwinEvent
status_event now id r new team = record {
  event_id = concat "EVT-STATUS-" (concat id (concat "-v" (decimal (r.state_version + 1))));
  event_type = "INCIDENT_STATUS_CHANGED";
  timestamp = now;
  source = EventSource.command_center;
  reason = none;
  caused_by_event_id = none;
  metadata = [];
  payload = Payload.incident_status_changed (record {
    incident_id = id;
    previous_status = some r.incident.status;
    new_status = new;
    assigned_team_id = team;
  });
}

abbrev pub status_entry :
    ℕ → String → Option String → IncidentRecord → IncidentRecord → IncidentAuditEntry
status_entry now actor notes before after = record {
  timestamp = now;
  actor = actor;
  action = concat "STATUS_TRANSITION_" (incident_value after.incident.status);
  previous_state = some before;
  new_state = after;
  state_version = after.state_version;
  details = or_else (truthy notes) (
      concat "Status transitioned from " (
        concat (incident_value before.incident.status)
          (concat " to " (incident_value after.incident.status))));
}

-- The transition of a record that `get_incident` returned. A repeated status passes the validation.
unfoldable pub move_status :
    ℕ
    → String
    → IncidentStatus
    → Option ℕ
    → String
    → Option String
    → Option String
    → IncidentRecord
    → Action IncidentStore IncidentRecord
move_status now id new expected actor notes team r =
    let after = with_status now new team r in
    raise_if (is_outdated expected r.state_version) state_version_conflict
    >> (lift (validate_incident_transition r.incident.status new)
        >> (on_twin (apply_event (λ k. now) (status_event now id r new team))
            >> (store_update id after (status_entry now actor notes r after) >> get_incident id)))

unfoldable pub update_incident_status :
    ℕ
    → String
    → IncidentStatus
    → Option ℕ
    → String
    → Option String
    → Option String
    → Action IncidentStore IncidentRecord
update_incident_status now id new expected actor notes team =
    get_incident id >>= move_status now id new expected actor notes team
