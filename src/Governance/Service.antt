-- ===== src/Governance/Service.antt =====
-- services/recommendations/service.py: the recommendations, their lifecycle and its preconditions.
--
-- The digital twin is only read for its version. The facility and incident services are arguments of
-- the service's constructor, and so of the model: a lookup answers a dictionary, nothing or an
-- exception. The time and the generated identifiers are functions of the number of events recorded.
use Prim.Native.String.{◌++◌ as concat}
use ai_powered_respiratory_h.Base.{
  ℕ, String, Bool, not, ◌&&◌, [], ◌∷◌, Option, none, some, Dict, lookup, insert, Value, null,
  string, decimal, ◌==◌, string_eq, length, if◌then◌else◌, Result, ok, Action,
}
use ai_powered_respiratory_h.Schemas.Recommendation.{
  ApprovalStatus, pending, expired, approval_status_eq, action_value,
}
use ai_powered_respiratory_h.Governance.Roles.{Actor, role_value, operator}
use ai_powered_respiratory_h.Governance.Records.{
  Recommendation, AuditEvent, AuditEventType, no_snapshot, at_creation, recommendation_created,
  recommendation_viewed, recommendation_expired, approval_blocked,
}
use ai_powered_respiratory_h.Governance.Ledger.{AuditLedger, append_event}

-- A lookup of `facility_service` or `incident_service`.
abbrev pub Lookup : Type 0
Lookup = String → Result (Option (Dict Value))

pub record Facilities : Type 0 where
  pub get_hospital : Lookup
  pub get_shelter : Lookup

pub record Environment : Type 0 where
  pub state_version : ℕ
  pub facility_service : Option Facilities
  pub incident_service : Option Lookup
  pub now : ℕ → ℕ
  pub new_id : ℕ → String

pub record Store : Type 0 where
  pub audit_ledger : AuditLedger
  pub recommendations : Dict Recommendation
  pub metadata_map : Dict (Dict Value)

-- f"state-v{version}"
abbrev pub state_text : ℕ → String
state_text version = concat "state-v" (decimal version)

unfoldable pub record_event : AuditEvent → Store → Store
record_event e s = record s { audit_ledger = append_event e s.audit_ledger }

unfoldable pub put : String → Recommendation → Store → Store
put id rec s = record s { recommendations = insert id rec s.recommendations }

-- An event on a recommendation, with the time and the identifier that are next.
abbrev pub new_event :
    Environment
    → Store
    → AuditEventType
    → (by role id : String) → (before after : Option ApprovalStatus) → (reason source : String)
    → AuditEvent
new_event env s type by role id before after reason source =
    let n = length s.audit_ledger.events in
    record {
      audit_event_id = env.new_id n;
      event_type = type;
      timestamp = env.now n;
      actor_id = by;
      actor_role = role;
      recommendation_id = id;
      previous_state = before;
      new_state = after;
      reason = reason;
      source_state_version = source;
      current_state_version = state_text env.state_version;
      supersedes_recommendation_id = none;
      target_snapshot = no_snapshot;
    }

-- `{"mode": mode, "supersedes_id": supersedes_id, **(metadata or {})}`
abbrev update : Dict Value → Dict Value → Dict Value
update d [] = d
update d ((k, v) ∷ more) = update (insert k v d) more

abbrev optional_text : Option String → Value
optional_text none = null
optional_text (some s) = string s

unfoldable pub initial_metadata : String → Option String → Dict Value → Dict Value
initial_metadata mode supersedes metadata =
    update (("mode", string mode) ∷ ("supersedes_id", optional_text supersedes) ∷ []) metadata

abbrev pub actor_name : Option Actor → String
actor_name none = "SYSTEM"
actor_name (some a) = a.actor_id

abbrev pub actor_role : Option Actor → String
actor_role none = role_value operator
actor_role (some a) = role_value a.role

module _ (env : Environment) where
  abbrev generated : Recommendation → String
  generated rec =
      concat "Generated recommendation "
        (concat (action_value rec.action) (concat " targeting " rec.target.entity_id))

  abbrev pub creation_event :
      Recommendation → Option Actor → String → Option String → Store → AuditEvent
  creation_event rec actor mode supersedes s =
      record (new_event env s recommendation_created (actor_name actor) (actor_role actor)
        rec.recommendation_id none (some pending) (generated rec) rec.source_state_version) {
          supersedes_recommendation_id = supersedes;
          target_snapshot = at_creation rec.target rec.priority mode;
        }

  unfoldable pub save_recommendation :
      Recommendation
      → Option Actor
      → String
      → Option String
      → Dict Value
      → Action Store Recommendation
  save_recommendation rec actor mode supersedes metadata s =
      let kept = record (put rec.recommendation_id rec s) {
        metadata_map =
            insert rec.recommendation_id (initial_metadata mode supersedes metadata) s.metadata_map;
      } in
      (ok rec, record_event (creation_event rec actor mode supersedes kept) kept)

  -- `_record_expiration_event`
  unfoldable pub record_expiration_event :
      Recommendation → (by role reason : String) → Store → Store
  record_expiration_event rec by role reason s =
      record_event
        (new_event env s recommendation_expired by role rec.recommendation_id (some pending)
          (some expired) reason rec.source_state_version)
        s

  -- `_record_blocked_event`, which reads the recommendation as it stands
  abbrev blocked_event : String → Actor → String → Option Recommendation → Store → AuditEvent
  blocked_event id a reason none s =
      new_event env s approval_blocked a.actor_id (role_value a.role) id none none reason "unknown"
  blocked_event id a reason (some rec) s =
      new_event env s approval_blocked a.actor_id (role_value a.role) id (some rec.approval_status)
        (some rec.approval_status) reason rec.source_state_version

  unfoldable pub record_blocked_event : String → Actor → String → Store → Store
  record_blocked_event id a reason s =
      record_event (blocked_event id a reason (lookup id s.recommendations) s) s

  abbrev pub is_stale : Recommendation → Bool
  is_stale rec = not (rec.source_state_version == state_text env.state_version)

  abbrev advanced : Recommendation → String
  advanced rec =
      concat "Digital Twin state advanced from "
        (concat rec.source_state_version (concat " to " (state_text env.state_version)))

  -- A pending recommendation of an older state expires when it is read.
  unfoldable pub expire_if_stale : String → Recommendation → Store → Recommendation × Store
  expire_if_stale id rec s =
      let late = record rec { approval_status = expired } in
      if is_stale rec && rec.approval_status == pending
      then (late, record_expiration_event late "SYSTEM" "SYSTEM" (advanced rec) (put id late s))
      else (rec, s)

  abbrev pub view_event : Recommendation → Actor → Store → AuditEvent
  view_event rec a s =
      new_event env s recommendation_viewed a.actor_id (role_value a.role) rec.recommendation_id
        (some rec.approval_status) (some rec.approval_status) "Recommendation reviewed by operator"
        rec.source_state_version

  unfoldable pub record_view : Option Actor → Recommendation → Store → Store
  record_view none rec s = s
  record_view (some a) rec s = record_event (view_event rec a s) s

  abbrev view_found :
      String → Option Actor → Option Recommendation → Store → Option Recommendation × Store
  view_found id actor none s = (none, s)
  view_found id actor (some rec) s =
      let (seen, s') = expire_if_stale id rec s in (some seen, record_view actor seen s')

  unfoldable pub get_recommendation : String → Option Actor → Store → Option Recommendation × Store
  get_recommendation id actor s = view_found id actor (lookup id s.recommendations) s
