-- ===== src/Incidents/Details.antt =====
-- services/api/app/repositories/incident_service.py: the update of an incident's details, and its history.
use ai_powered_respiratory_h.Base.{
  ℕ, ◌+◌, String, Bool, true, false, not, ◌||◌, List, [], Option, none, some, or_else, lookup,
  contains, ◌==◌, nat_eq, string_eq, option_eq, Result, ok, raise, Action, pure, ◌>>=◌, ◌>>◌,
  raise_if, incident_not_found, state_version_conflict, Eq,
}
use ai_powered_respiratory_h.Schemas.Incident.{IncidentSeverity, incident_severity_eq}
use ai_powered_respiratory_h.Incidents.Records.{IncidentRecord, IncidentAuditEntry, IncidentStore}
use ai_powered_respiratory_h.Incidents.Service.{get_incident, is_outdated, store_update}

-- `x is not None and record[key] != x`, and the value that is then stored
abbrev pub differs : {A : Type 0} ⦃test : Eq A⦄ → Option A → A → Bool
differs none old = false
differs (some new) old = not (old == new)

abbrev pub with_details :
    ℕ → Option IncidentSeverity → Option String → Option ℕ → IncidentRecord → IncidentRecord
with_details now severity description priority r = record r {
  incident = record r.incident {
    severity = or_else severity r.incident.severity;
    description = or_else description r.incident.description;
    priority = or_else priority r.incident.priority;
  };
  state_version = r.state_version + 1;
  updated_at = now;
}

abbrev pub details_entry : ℕ → String → IncidentRecord → IncidentRecord → IncidentAuditEntry
details_entry now actor before after = record {
  timestamp = now;
  actor = actor;
  action = "DETAILS_UPDATED";
  previous_state = some before;
  new_state = after;
  state_version = after.state_version;
  details = "Incident mutable attributes updated";
}

abbrev pub has_changed : Option IncidentSeverity → Option String → Option ℕ → IncidentRecord → Bool
has_changed severity description priority r =
    differs severity r.incident.severity
    || differs description r.incident.description
    || differs priority r.incident.priority

abbrev pub store_if :
    Bool → String → IncidentRecord → IncidentAuditEntry → Action IncidentStore (Unit {0})
store_if true id r e = store_update id r e
store_if false id r e = pure tt

unfoldable pub change_details :
    ℕ
    → String
    → Option IncidentSeverity
    → Option String
    → Option ℕ
    → Option ℕ
    → String
    → IncidentRecord
    → Action IncidentStore IncidentRecord
change_details now id severity description priority expected actor r =
    let after = with_details now severity description priority r in
    raise_if (is_outdated expected r.state_version) state_version_conflict
    >> (store_if (has_changed severity description priority r) id after
          (details_entry now actor r after)
        >> get_incident id)

unfoldable pub update_incident_details :
    ℕ
    → String
    → Option IncidentSeverity
    → Option String
    → Option ℕ
    → Option ℕ
    → String
    → Action IncidentStore IncidentRecord
update_incident_details now id severity description priority expected actor =
    get_incident id >>= change_details now id severity description priority expected actor

abbrev history_of : String → Bool → IncidentStore → Result (List IncidentAuditEntry)
history_of id false s = raise incident_not_found
history_of id true s = ok (or_else (lookup id s.audit_logs) [])

unfoldable pub get_incident_history : String → Action IncidentStore (List IncidentAuditEntry)
get_incident_history id s = (history_of id (contains id s.incidents) s, s)
