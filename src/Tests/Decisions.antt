-- ===== src/Tests/Decisions.antt =====
-- A hospital's recommendation: approved, looked at, overtaken by events, and refused for its target.
use ai_powered_respiratory_h.Base.{
  ℕ, String, true, ◌≡◌, refl, arith, [], ◌∷◌, Option, none, some, Dict, lookup, insert, Value,
  string, number, decimal, Result, ok, stripped_length,
}
use ai_powered_respiratory_h.Base.{inl}
use ai_powered_respiratory_h.Base.Membership.{Has}
use ai_powered_respiratory_h.Schemas.Recommendation.{
  pending, approved, divert_ambulances, EntityType,
}
use ai_powered_respiratory_h.Governance.Roles.{
  Actor, commander, viewer, has_permission, validate_transition,
  approve_recommendation as to_approve,
}
use ai_powered_respiratory_h.Governance.Records.{Recommendation, AuditEntry}
use ai_powered_respiratory_h.Governance.Ledger.{empty_ledger, append_event, save_decision_record}
use ai_powered_respiratory_h.Governance.Service.{
  Environment, Store, put, record_event, get_recommendation, save_recommendation, initial_metadata,
}
use ai_powered_respiratory_h.Governance.Preconditions.{validate_operational_preconditions}
use ai_powered_respiratory_h.Governance.Decisions.{
  approve_recommendation, reject_recommendation, cached, find_recommendation, require_live,
  approve_found, apply_approval, record_decision,
}
use ai_powered_respiratory_h.Governance.Listing.{get_audit_log}
use ai_powered_respiratory_h.Governance.Steps.{Steps}
use ai_powered_respiratory_h.Governance.Refinement.{approve, reject, handle, handle-Steps}
use ai_powered_respiratory_h.Governance.Audit.{handle_closed}
use ai_powered_respiratory_h.Governance.Approval.{Grounds, approve_recommendation-Grounds}
use ai_powered_respiratory_h.Governance.Retry.{approve_recommendation_retry}
use ai_powered_respiratory_h.Governance.Refusal.{
  IsRefusedStale, IsRefusedUnfit, approve_recommendation_stale, approve_recommendation_unfit,
}
use ai_powered_respiratory_h.Governance.AuditLog.{get_audit_log-get_recommendation}

-- A hospital service that knows one hospital, in the given state.
abbrev hospital_with : String → ℕ → String → Result (Option (Dict Value))
hospital_with status beds id =
    ok (some (("status", string status) ∷ ("available_capacity", number beds) ∷ []))

abbrev world : ℕ → String → ℕ → Environment
world version status beds = record {
  state_version = version;
  facility_service =
      some (record { get_hospital = hospital_with status beds; get_shelter = λ id. ok none });
  incident_service = none;
  now = λ n. n;
  new_id = λ n. "ID";
}

abbrev calm : Environment
calm = world 1 "OPERATIONAL" 40

abbrev chief : Actor
chief = record { actor_id = "CHIEF"; role = commander }

abbrev guest : Actor
guest = record { actor_id = "GUEST"; role = viewer }

abbrev proposal : Recommendation
proposal = record {
  recommendation_id = "REC-1";
  created_at = 5;
  priority = 1;
  action = divert_ambulances;
  target = record { entity_type = EntityType.hospital; entity_id = "HOSP-1"; description = none };
  details = [];
  source_state_version = "state-v1";
  requires_human_approval = true;
  approval_status = pending;
  approved_by = none;
  approved_at = none;
}

abbrev agreed : Recommendation
agreed = record proposal {
  approval_status = approved;
  approved_by = some "CHIEF";
  approved_at = some 0;
}

abbrev holding : Recommendation → Store
holding rec = record {
  audit_ledger = empty_ledger;
  recommendations = ("REC-1", rec) ∷ [];
  metadata_map = ("REC-1", ("mode", string "REAL_DATA") ∷ []) ∷ [];
}

approve_recommendation-Grounds_example :
    (has_permission to_approve chief ≡ true)
    × ((rec : Recommendation) × Grounds calm "REC-1" chief "go"
          (some "K")
          (holding proposal)
          rec
          (approve_recommendation calm "REC-1" chief "go" (some "K") (holding proposal)))
unfolding approve_recommendation cached find_recommendation approve_found require_live
    apply_approval validate_operational_preconditions validate_transition lookup insert put
    record_event record_decision decimal
approve_recommendation-Grounds_example =
    approve_recommendation-Grounds calm "REC-1" chief "go" (some "K") (holding proposal) agreed refl
      refl

handle_closed_example :
    lookup "REC-1"
      (handle calm (reject "REC-1" chief "too late" none) (holding agreed)).recommendations
    ≡ some agreed
unfolding lookup
handle_closed_example =
    handle_closed calm (reject "REC-1" chief "too late" none) "REC-1" agreed (holding agreed)
      (λ h. ground arith) refl

handle-Steps_example :
    Steps (holding proposal) (handle calm (approve "REC-1" chief "go" none) (holding proposal))
handle-Steps_example = handle-Steps calm (approve "REC-1" chief "go" none) (holding proposal)

approve_recommendation_stale_example :
    IsRefusedStale "REC-1" proposal
      (holding proposal)
      (approve_recommendation (world 2 "OPERATIONAL" 40) "REC-1" chief "go" none (holding proposal))
unfolding cached lookup decimal
approve_recommendation_stale_example =
    approve_recommendation_stale (world 2 "OPERATIONAL" 40) "REC-1" chief "go" none proposal 1
      (holding proposal) refl refl refl refl refl refl (λ h. omega arith)

approve_recommendation_unfit_example :
    IsRefusedUnfit "REC-1" proposal
      (holding proposal)
      (approve_recommendation (world 1 "CLOSED" 40) "REC-1" chief "go" none (holding proposal))
unfolding cached lookup decimal
approve_recommendation_unfit_example =
    approve_recommendation_unfit (world 1 "CLOSED" 40) "REC-1" chief "go" none proposal
      (record { get_hospital = hospital_with "CLOSED" 40; get_shelter = λ id. ok none })
      (("status", string "CLOSED") ∷ ("available_capacity", number 40) ∷ []) (holding proposal) refl
      refl refl refl refl refl refl refl refl refl (inl refl)

approve_recommendation_retry_example :
    (approve_recommendation calm "REC-1" guest "again"
        (some "K")
        (approve_recommendation calm "REC-1" chief "go" (some "K") (holding proposal)).1
      ≡ (
        ok agreed,
        (approve_recommendation calm "REC-1" chief "go" (some "K") (holding proposal)).1,
      ))
    × (reject_recommendation calm "REC-1" guest "again"
          (some "K")
          (approve_recommendation calm "REC-1" chief "go" (some "K") (holding proposal)).1
        ≡ (
          ok agreed,
          (approve_recommendation calm "REC-1" chief "go" (some "K") (holding proposal)).1,
        ))
unfolding approve_recommendation cached find_recommendation approve_found require_live
    apply_approval validate_operational_preconditions validate_transition lookup insert put
    record_event record_decision decimal stripped_length
approve_recommendation_retry_example =
    approve_recommendation_retry calm calm "REC-1" chief guest "go" "again" "K" (holding proposal)
      agreed refl refl refl refl

abbrev started : Store
started = record { audit_ledger = empty_ledger; recommendations = []; metadata_map = [] }

-- The store of a service that saved the proposal and approved it.
abbrev decided : Store
decided =
    (approve_recommendation calm "REC-1" chief "go" (some "K")
      (save_recommendation calm proposal none "REAL_DATA" none [] started).1).1

get_audit_log-get_recommendation_example :
    (entry : AuditEntry) × Has entry
      (get_audit_log (get_recommendation calm "REC-1" (some guest) decided).1)
    × (entry.recommendation_id ≡ "REC-1")
    × (entry.decision_by ≡ "GUEST")
    × (entry.decision ≡ approved)
unfolding approve_recommendation cached find_recommendation approve_found require_live
    apply_approval validate_operational_preconditions validate_transition lookup insert put
    record_event record_decision decimal save_recommendation append_event save_decision_record
    initial_metadata
get_audit_log-get_recommendation_example =
    get_audit_log-get_recommendation calm "REC-1" guest
      (record proposal {
        approval_status = approved;
        approved_by = some "CHIEF";
        approved_at = some 1;
      })
      decided (omega arith) refl refl
