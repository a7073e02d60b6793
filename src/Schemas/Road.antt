-- ===== src/Schemas/Road.antt =====
-- services/api/app/schemas/road.py, digital_twin/entities/bridge.py and
-- geospatial/routing/dynamic_state.py: states of roads and bridges.
use ai_powered_respiratory_h.Base.{ℕ, String, ◌≡◌, ◌↔◌, true, arith, Eq, eq_by, nat_beq}

pub data RoadStatus : Type 0 where
  open_road restricted blocked unknown : RoadStatus

abbrev pub road_rank : RoadStatus → ℕ
road_rank open_road = 0
road_rank restricted = 1
road_rank blocked = 2
road_rank unknown = 3

pub road_rank_iff : (a b : RoadStatus) → (nat_beq (road_rank a) (road_rank b) ≡ true) ↔ (a ≡ b)
road_rank_iff a b = ground arith

instance abbrev pub road_status_eq : Eq RoadStatus
road_status_eq = eq_by road_rank road_rank_iff

-- `status.value`
abbrev pub road_value : RoadStatus → String
road_value open_road = "OPEN"
road_value restricted = "RESTRICTED"
road_value blocked = "BLOCKED"
road_value unknown = "UNKNOWN"

pub data Accessibility : Type 0 where
  all_vehicles emergency_only high_clearance_only impassable : Accessibility

abbrev pub access_rank : Accessibility → ℕ
access_rank all_vehicles = 0
access_rank emergency_only = 1
access_rank high_clearance_only = 2
access_rank impassable = 3

pub access_rank_iff :
    (a b : Accessibility) → (nat_beq (access_rank a) (access_rank b) ≡ true) ↔ (a ≡ b)
access_rank_iff a b = ground arith

instance abbrev pub accessibility_eq : Eq Accessibility
accessibility_eq = eq_by access_rank access_rank_iff

abbrev pub access_value : Accessibility → String
access_value all_vehicles = "ALL_VEHICLES"
access_value emergency_only = "EMERGENCY_ONLY"
access_value high_clearance_only = "HIGH_CLEARANCE_ONLY"
access_value impassable = "IMPASSABLE"

pub data BridgeStatus : Type 0 where
  open_bridge restricted_bridge blocked_bridge collapsed submerged closed_bridge : BridgeStatus

abbrev pub bridge_rank : BridgeStatus → ℕ
bridge_rank open_bridge = 0
bridge_rank restricted_bridge = 1
bridge_rank blocked_bridge = 2
bridge_rank collapsed = 3
bridge_rank submerged = 4
bridge_rank closed_bridge = 5

pub bridge_rank_iff :
    (a b : BridgeStatus) → (nat_beq (bridge_rank a) (bridge_rank b) ≡ true) ↔ (a ≡ b)
bridge_rank_iff a b = ground arith

instance abbrev pub bridge_status_eq : Eq BridgeStatus
bridge_status_eq = eq_by bridge_rank bridge_rank_iff

abbrev pub bridge_value : BridgeStatus → String
bridge_value open_bridge = "OPEN"
bridge_value restricted_bridge = "RESTRICTED"
bridge_value blocked_bridge = "BLOCKED"
bridge_value collapsed = "COLLAPSED"
bridge_value submerged = "SUBMERGED"
bridge_value closed_bridge = "CLOSED"

-- `OverrideSource`
pub data OverrideSource : Type 0 where
  field_report command_center simulation : OverrideSource
  infrastructure_update authorized_operator test_fixture : OverrideSource

abbrev pub override_source_value : OverrideSource → String
override_source_value field_report = "FIELD_REPORT"
override_source_value command_center = "COMMAND_CENTER"
override_source_value simulation = "SIMULATION"
override_source_value infrastructure_update = "INFRASTRUCTURE_UPDATE"
override_source_value authorized_operator = "AUTHORIZED_OPERATOR"
override_source_value test_fixture = "TEST_FIXTURE"
