-- ===== src/Governance/Records.antt =====
-- services/recommendations/contracts.py and services/api/app/schemas/recommendation.py: a
-- recommendation, the audit's events and the durable records of decisions.
use ai_powered_respiratory_h.Base.{ℕ, String, Bool, Option, Dict, Value}
use ai_powered_respiratory_h.Schemas.Recommendation.{
  ApprovalStatus, RecommendationAction, EntityType,
}

pub record Target : Type 0 where
  pub entity_type : EntityType
  pub entity_id : String
  pub description : Option String

-- `details` holds the reasoning, the factors, the confidence and the uncertainty, which the service
-- only carries along; they are floats and texts.
pub record Recommendation : Type 0 where
  pub recommendation_id : String
  pub created_at : ℕ
  pub priority : ℕ
  pub action : RecommendationAction
  pub target : Target
  pub details : Dict Value
  pub source_state_version : String
  pub requires_human_approval : Bool
  pub approval_status : ApprovalStatus
  pub approved_by : Option String
  pub approved_at : Option ℕ

pub data AuditEventType : Type 0 where
  recommendation_created recommendation_viewed recommendation_approved : AuditEventType
  recommendation_rejected recommendation_expired approval_blocked : AuditEventType

-- What an event keeps of the target, when it is created and when it is approved.
pub data TargetSnapshot : Type 0 where
  no_snapshot : TargetSnapshot
  at_creation : Target → ℕ → String → TargetSnapshot
  at_approval : Target → RecommendationAction → ℕ → Dict Value → TargetSnapshot

pub record AuditEvent : Type 0 where
  pub audit_event_id : String
  pub event_type : AuditEventType
  pub timestamp : ℕ
  pub actor_id : String
  pub actor_role : String
  pub recommendation_id : String
  pub previous_state : Option ApprovalStatus
  pub new_state : Option ApprovalStatus
  pub reason : String
  pub source_state_version : String
  pub current_state_version : String
  pub supersedes_recommendation_id : Option String
  pub target_snapshot : TargetSnapshot

pub record DecisionRecord : Type 0 where
  pub decision_id : String
  pub recommendation_id : String
  pub decision : ApprovalStatus
  pub decision_reason : String
  pub decision_by : String
  pub decision_by_role : String
  pub decision_timestamp : ℕ
  pub source_state_version : String
  pub current_state_version : String
  pub idempotency_key : Option String
  pub recommendation_snapshot : Recommendation

-- The entry of `get_audit_log`.
pub record AuditEntry : Type 0 where
  pub recommendation_id : String
  pub action : String
  pub decision : ApprovalStatus
  pub decision_timestamp : ℕ
  pub decision_by : String
  pub source_state_version : String
  pub current_state_version : String
  pub reason : String
