-- ===== src/Schemas/Event.antt =====
-- digital_twin/events/base.py, digital_twin/entities/flood_zone.py and vulnerable_group.py.
use ai_powered_respiratory_h.Base.{ℕ, String, ◌≡◌, ◌↔◌, true, arith, Eq, eq_by, nat_beq}

pub data EventSource : Type 0 where
  field_report command_center simulation system import_feed test_fixture : EventSource

abbrev pub source_value : EventSource → String
source_value field_report = "FIELD_REPORT"
source_value command_center = "COMMAND_CENTER"
source_value simulation = "SIMULATION"
source_value system = "SYSTEM"
source_value import_feed = "IMPORT"
source_value test_fixture = "TEST_FIXTURE"

pub data FloodSeverity : Type 0 where
  low_flood moderate severe extreme : FloodSeverity

abbrev pub flood_rank : FloodSeverity → ℕ
flood_rank low_flood = 0
flood_rank moderate = 1
flood_rank severe = 2
flood_rank extreme = 3

pub flood_rank_iff :
    (a b : FloodSeverity) → (nat_beq (flood_rank a) (flood_rank b) ≡ true) ↔ (a ≡ b)
flood_rank_iff a b = ground arith

instance abbrev pub flood_severity_eq : Eq FloodSeverity
flood_severity_eq = eq_by flood_rank flood_rank_iff

pub data VulnerabilityCategory : Type 0 where
  elderly mobility healthcare socioeconomic children other_group : VulnerabilityCategory

abbrev pub category_rank : VulnerabilityCategory → ℕ
category_rank elderly = 0
category_rank mobility = 1
category_rank healthcare = 2
category_rank socioeconomic = 3
category_rank children = 4
category_rank other_group = 5

pub category_rank_iff :
    (a b : VulnerabilityCategory) → (nat_beq (category_rank a) (category_rank b) ≡ true) ↔ (a ≡ b)
category_rank_iff a b = ground arith

instance abbrev pub category_eq : Eq VulnerabilityCategory
category_eq = eq_by category_rank category_rank_iff
