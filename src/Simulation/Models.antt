-- ===== src/Simulation/Models.antt =====
-- services/simulation/models.py and the integer parts of services/simulation/impact.py. Lengths are
-- thousandths; pydantic's `ge=0` is the type ℕ.
use ai_powered_respiratory_h.Base.{ℕ, String, Bool, List, Option, ℤ}

-- `FloodLevelModification`
pub record FloodLevel : Type 0 where
  pub water_level_delta_meters : Option ℕ
  pub absolute_water_level_meters : Option ℤ
  pub flood_polygon : Option String
  pub explicit_depth_meters : Option ℕ
  pub auto_close_roads : Bool
  pub road_closure_threshold_meters : ℕ

-- `ScenarioModification`
pub data Modification : Type 0 where
  flood_level : FloodLevel → Modification
  bridge_failure : (bridge_id : String) (propagate_to_road : Bool) → Modification
  hospital_capacity :
      (hospital_id : String) (available_capacity : ℕ) (icu_available : Option ℕ) → Modification
  shelter_capacity : (shelter_id : String) (available_capacity : ℕ) → Modification
  resource_shortage :
      (resource_type : String) (available_quantity : ℕ) (affected_team_ids : List String)
      → Modification

-- `WhatIfScenario`
pub record Scenario : Type 0 where
  pub scenario_id : String
  pub name : String
  pub base_state_version : ℕ
  pub modifications : List Modification
  pub assumptions : List String

pub record FacilityImpact : Type 0 where
  pub facility_id : String
  pub facility_type : String
  pub name : Option String
  pub baseline_available_capacity : ℕ
  pub scenario_available_capacity : ℕ
  pub capacity_delta : ℤ
  pub status : String

pub record ResourceImpact : Type 0 where
  pub resource_type : String
  pub baseline_available_quantity : ℕ
  pub scenario_available_quantity : ℕ
  pub quantity_delta : ℤ
  pub affected_team_ids : List String

-- `CausalStep`, without its wording.
pub record CausalStep : Type 0 where
  pub step_number : ℕ
  pub affected_entity : String

-- `WhatIfScenarioResult`, for a preview without a route.
pub record Preview : Type 0 where
  pub scenario_id : String
  pub name : String
  pub base_state_version : ℕ
  pub scenario_state_version : ℕ
  pub newly_blocked_roads : List String
  pub newly_restricted_roads : List String
  pub total_roads_affected : ℕ
  pub facility_impacts : List FacilityImpact
  pub resource_impacts : List ResourceImpact
  pub changed_entity_ids : List String
  pub causal_chain : List CausalStep
  pub assumptions : List String
