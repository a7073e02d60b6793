-- ===== src/Governance/Listing.antt =====
-- services/recommendations/service.py: the listing, which expires what is stale as it goes, and the
-- older form of the audit log.
use ai_powered_respiratory_h.Base.{
  String, Bool, true, false, List, [], ◌∷◌, ◌++◌, Option, none, some, Dict, lookup, Value, ◌==◌,
  string_eq, truthy, if◌then◌else◌, newest_first,
}
use ai_powered_respiratory_h.Schemas.Recommendation.{
  ApprovalStatus, approved, rejected, approval_status_eq, action_value,
}
use ai_powered_respiratory_h.Governance.Records.{Recommendation, AuditEvent, AuditEntry}
use ai_powered_respiratory_h.Governance.Ledger.{list_events}
use ai_powered_respiratory_h.Governance.Service.{Environment, Store, expire_if_stale}

abbrev wants_status : Option ApprovalStatus → Recommendation → Bool
wants_status none rec = true
wants_status (some s) rec = rec.approval_status == s

abbrev wants_action : Option String → Recommendation → Bool
wants_action none rec = true
wants_action (some a) rec = action_value rec.action == a

-- `self._metadata_map.get(rec_id, {}).get("mode") != mode`
abbrev mode_is : String → Option (Dict Value) → Bool
mode_is mode none = false
mode_is mode (some meta) = elim (lookup "mode" meta) [
  | some (Value.string m) ↦ m == mode
  | _ ↦ false
]

abbrev wants_mode : Option String → String → Store → Bool
wants_mode none id s = true
wants_mode (some m) id s = mode_is m (lookup id s.metadata_map)

abbrev wanted :
    Option ApprovalStatus → Option String → Option String → String → Recommendation → Store → Bool
wanted status action mode id rec s =
    if wants_status status rec
    then (if wants_action (truthy action) rec then wants_mode (truthy mode) id s else false)
    else false

module _ (env : Environment) where
  -- One round of the loop: the recommendation as it is listed, unless a filter leaves it out.
  unfoldable pub list_one :
      Option ApprovalStatus
      → Option String
      → Option String
      → String
      → Option Recommendation
      → Store
      → List Recommendation × Store
  list_one status action mode id none s = ([], s)
  list_one status action mode id (some rec) s =
      let (seen, s') = expire_if_stale env id rec s in
      (if wanted status action mode id seen s' then seen ∷ [] else [], s')

  unfoldable pub list_each :
      Option ApprovalStatus
      → Option String
      → Option String
      → Dict Recommendation
      → Store
      → List Recommendation × Store
  list_each status action mode [] s = ([], s)
  list_each status action mode ((id, r) ∷ d) s =
      let (one, s') = list_one status action mode id (lookup id s.recommendations) s in
      let (more, s'') = list_each status action mode d s' in (one ++ more, s'')

  unfoldable pub list_recommendations :
      Option ApprovalStatus → Option String → Option String → Store → List Recommendation × Store
  list_recommendations status action mode s =
      let (found, s') = list_each status action mode s.recommendations s in
      (newest_first (λ r. r.created_at) found, s')

abbrev action_of : Option Recommendation → String
action_of none = "OPERATIONAL_ACTION"
action_of (some rec) = action_value rec.action

abbrev pub entry : Store → AuditEvent → ApprovalStatus → AuditEntry
entry s e decision = record {
  recommendation_id = e.recommendation_id;
  action = action_of (lookup e.recommendation_id s.recommendations);
  decision = decision;
  decision_timestamp = e.timestamp;
  decision_by = e.actor_id;
  source_state_version = e.source_state_version;
  current_state_version = e.current_state_version;
  reason = e.reason;
}

abbrev pub add_entry :
    Store → AuditEvent → Option ApprovalStatus → List AuditEntry → List AuditEntry
add_entry s e (some approved) entries = entry s e approved ∷ entries
add_entry s e (some rejected) entries = entry s e rejected ∷ entries
add_entry s e _ entries = entries

abbrev pub entries_from : Store → List AuditEvent → List AuditEntry
entries_from s [] = []
entries_from s (e ∷ es) = add_entry s e e.new_state (entries_from s es)

unfoldable pub get_audit_log : Store → List AuditEntry
get_audit_log s = entries_from s (list_events none none none 500 0 s.audit_ledger)
