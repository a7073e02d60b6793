-- ===== src/Governance/Decisions.antt =====
-- services/recommendations/service.py: approving, rejecting and expiring a recommendation.
use Prim.Native.String.{◌++◌ as concat}
use ai_powered_respiratory_h.Base.{
  String, Bool, not, Option, none, some, or_else, Dict, lookup, Value, string, is_empty,
  stripped_length, ◌==◌, string_eq, ltb, length, if◌then◌else◌, ok, raise, Action, pure, ◌>>=◌,
  ◌>>◌, raise_if, or_raise, lift, unauthorized_action, recommendation_not_found,
  precondition_failed, stale_recommendation, value_error,
}
use ai_powered_respiratory_h.Schemas.Recommendation.{
  ApprovalStatus, pending, approved, rejected, expired, approval_status_eq,
}
use ai_powered_respiratory_h.Governance.Roles.{
  Actor, Permission, has_permission, approve_recommendation as to_approve,
  reject_recommendation as to_reject, expire_recommendation as to_expire, role_value,
  validate_transition,
}
use ai_powered_respiratory_h.Governance.Records.{
  Recommendation, AuditEvent, DecisionRecord, at_approval, recommendation_approved,
  recommendation_rejected,
}
use ai_powered_respiratory_h.Governance.Ledger.{
  save_decision_record, get_decision_by_idempotency_key,
}
use ai_powered_respiratory_h.Governance.Service.{
  Environment, Store, state_text, record_event, put, new_event, record_expiration_event,
  record_blocked_event, is_stale,
}
use ai_powered_respiratory_h.Governance.Preconditions.{
  is_one_of, validate_operational_preconditions,
}

-- Runs on the stored recommendation, which the method shares with the store.
abbrev pub on_stored :
    String → Action Recommendation (Unit {0}) → Recommendation → Action Store (Unit {0})
on_stored id m rec s = let (r, rec') = m rec in (r, put id rec' s)

abbrev pub mode_of : Option (Dict Value) → Option Value
mode_of none = some (string "REAL_DATA")
mode_of (some meta) = some (or_else (lookup "mode" meta) (string "REAL_DATA"))

abbrev pub is_simulated : String → Store → Bool
is_simulated id s = is_one_of "SIMULATION" "DEMO" (mode_of (lookup id s.metadata_map))

-- The recommendation that an earlier decision under the same key is answered with.
abbrev cached_for : String → Option DecisionRecord → Store → Option Recommendation
cached_for id none s = none
cached_for id (some r) s = if r.recommendation_id == id then lookup id s.recommendations else none

unfoldable pub cached : String → Option String → Store → Option Recommendation
cached id none s = none
cached id (some k) s =
    if is_empty k then none else cached_for id (get_decision_by_idempotency_key k s.audit_ledger) s

unfoldable pub record_decision : DecisionRecord → Store → Store
record_decision r s = record s { audit_ledger = save_decision_record r s.audit_ledger }

unfoldable pub find_recommendation : String → Action Store Recommendation
find_recommendation id s = or_raise (lookup id s.recommendations) recommendation_not_found s

unfoldable pub require_live : String → Action Store (Unit {0})
require_live id s = raise_if (is_simulated id s) precondition_failed s

-- A retry is answered at once, with the recommendation as it stands.
abbrev pub unless_cached :
    Option Recommendation → Action Store Recommendation → Action Store Recommendation
unless_cached none next s = next s
unless_cached (some rec) next s = (ok rec, s)

module _ (env : Environment) where
  abbrev approval_event : String → Recommendation → Actor → String → Store → AuditEvent
  approval_event id rec a reason s =
      record (new_event env s recommendation_approved a.actor_id (role_value a.role) id
        (some pending) (some approved) reason rec.source_state_version) {
          target_snapshot = at_approval rec.target rec.action rec.priority rec.details;
        }

  abbrev rejection_event : String → Recommendation → Actor → String → Store → AuditEvent
  rejection_event id rec a reason s =
      new_event env s recommendation_rejected a.actor_id (role_value a.role) id (some pending)
        (some rejected) reason rec.source_state_version

  abbrev decision_record :
      String
      → Recommendation
      → Actor
      → String
      → Option String
      → ApprovalStatus
      → Store
      → DecisionRecord
  decision_record id rec a reason key decision s =
      let n = length s.audit_ledger.events in
      record {
        decision_id = env.new_id n;
        recommendation_id = id;
        decision = decision;
        decision_reason = reason;
        decision_by = a.actor_id;
        decision_by_role = role_value a.role;
        decision_timestamp = env.now n;
        source_state_version = rec.source_state_version;
        current_state_version = state_text env.state_version;
        idempotency_key = key;
        recommendation_snapshot = rec;
      }

  -- Steps 8 to 10 of `approve_recommendation`. The validated previous status is PENDING.
  unfoldable pub apply_approval :
      String → Recommendation → Actor → String → Option String → Action Store Recommendation
  apply_approval id rec a reason key s =
      let done = record rec {
        approval_status = approved;
        approved_by = some a.actor_id;
        approved_at = some (env.now (length s.audit_ledger.events));
      } in
      let s' = put id done s in
      let s'' = record_event (approval_event id done a reason s') s' in
      (ok done, record_decision (decision_record id done a reason key approved s'') s'')

  unfoldable pub apply_rejection :
      String → Recommendation → Actor → String → Option String → Action Store Recommendation
  apply_rejection id rec a reason key s =
      let done = record rec { approval_status = rejected } in
      let s' = put id done s in
      let s'' = record_event (rejection_event id done a reason s') s' in
      (ok done, record_decision (decision_record id done a reason key rejected s'') s'')

  -- Step 5: a stale recommendation is expired, and the attempt is on record.
  unfoldable pub refuse_stale : String → Recommendation → Actor → Action Store (Unit {0})
  refuse_stale id rec a s =
      let current = state_text env.state_version in
      let late = record rec { approval_status = expired } in
      let blocked =
        record_blocked_event env id a
          (concat "State stale: source is "
            (concat rec.source_state_version (concat ", current is " current)))
          (put id late s) in
      let why =
        concat "Stale state invalidation upon approval attempt (current " (concat current ")") in
      (
        raise stale_recommendation,
        record_expiration_event env late a.actor_id (role_value a.role) why blocked,
      )

  abbrev pub ensure_fresh : String → Recommendation → Actor → Action Store (Unit {0})
  ensure_fresh id rec a = if is_stale env rec then refuse_stale id rec a else pure tt

  abbrev refuse : String → Actor → String → Action Store (Unit {0})
  refuse id a what s = (
    raise unauthorized_action,
    record_blocked_event env id a
        (concat "Actor '" (
          concat a.actor_id (
            concat "' with role '"
              (concat (role_value a.role) (concat "' unauthorized to " what)))))
        s,
  )

  abbrev pub authorize : Permission → String → String → Actor → Action Store (Unit {0})
  authorize p what id a = if has_permission p a then pure tt else refuse id a what

  -- Steps 3 to 10, for the stored recommendation.
  unfoldable pub approve_found :
      String → Actor → String → Option String → Recommendation → Action Store Recommendation
  approve_found id a reason key rec =
      lift (validate_transition rec.approval_status approved)
      >> (raise_if (not rec.requires_human_approval) precondition_failed
          >> (ensure_fresh id rec a
              >> (require_live id
                  >> (on_stored id (validate_operational_preconditions env rec.target) rec
                      >> apply_approval id rec a reason key))))

  abbrev pub approve_new : String → Actor → String → Option String → Action Store Recommendation
  approve_new id a reason key =
      authorize to_approve "approve" id a
      >> (find_recommendation id >>= approve_found id a reason key)

  unfoldable pub approve_recommendation :
      String → Actor → String → Option String → Action Store Recommendation
  approve_recommendation id a reason key s =
      unless_cached (cached id key s) (approve_new id a reason key) s

  unfoldable pub reject_found :
      String → Actor → String → Option String → Recommendation → Action Store Recommendation
  reject_found id a reason key rec =
      lift (validate_transition rec.approval_status rejected) >> apply_rejection id rec a reason key

  abbrev pub reject_new : String → Actor → String → Option String → Action Store Recommendation
  reject_new id a reason key =
      authorize to_reject "reject" id a >> (find_recommendation id >>= reject_found id a reason key)

  unfoldable pub reject_recommendation :
      String → Actor → String → Option String → Action Store Recommendation
  reject_recommendation id a reason key s =
      if ltb (stripped_length reason) 3
      then (raise value_error, s)
      else unless_cached (cached id key s) (reject_new id a reason key) s

  unfoldable pub expire_found :
      Actor → String → String → Recommendation → Action Store Recommendation
  expire_found a id reason rec s =
      let late = record rec { approval_status = expired } in
      (lift (validate_transition rec.approval_status expired) >> λ s. (
        ok late,
        record_expiration_event env late a.actor_id (role_value a.role) reason (put id late s),
      ))
        s

  unfoldable pub expire_recommendation : String → Actor → String → Action Store Recommendation
  expire_recommendation id a reason =
      raise_if (not (has_permission to_expire a)) unauthorized_action
      >> (find_recommendation id >>= expire_found a id reason)
