-- ===== src/Schemas/Recommendation.antt =====
-- services/api/app/schemas/recommendation.py.
use ai_powered_respiratory_h.Base.{ℕ, String, ◌≡◌, ◌↔◌, true, arith, Eq, eq_by, nat_beq}

pub data ApprovalStatus : Type 0 where
  pending approved rejected expired : ApprovalStatus

abbrev pub approval_rank : ApprovalStatus → ℕ
approval_rank pending = 0
approval_rank approved = 1
approval_rank rejected = 2
approval_rank expired = 3

pub approval_rank_iff :
    (a b : ApprovalStatus) → (nat_beq (approval_rank a) (approval_rank b) ≡ true) ↔ (a ≡ b)
approval_rank_iff a b = ground arith

instance abbrev pub approval_status_eq : Eq ApprovalStatus
approval_status_eq = eq_by approval_rank approval_rank_iff

pub data RecommendationAction : Type 0 where
  evacuate_zone reroute_convoy dispatch_rescue divert_ambulances open_shelter preposition_resources
        close_road :
      RecommendationAction

abbrev pub action_value : RecommendationAction → String
action_value evacuate_zone = "EVACUATE_ZONE"
action_value reroute_convoy = "REROUTE_CONVOY"
action_value dispatch_rescue = "DISPATCH_RESCUE"
action_value divert_ambulances = "DIVERT_AMBULANCES"
action_value open_shelter = "OPEN_SHELTER"
action_value preposition_resources = "PREPOSITION_RESOURCES"
action_value close_road = "CLOSE_ROAD"

pub data EntityType : Type 0 where
  zone road hospital shelter rescue_team : EntityType
