-- ===== src/Twin/Transitions.antt =====
-- digital_twin/state/transitions.py: an event against one entity. Each rule returns the new entity
-- and whether the event changes nothing.
use ai_powered_respiratory_h.Base.{
  Bool, true, false, ◌&&◌, String, Option, none, some, [], leb, ◌==◌, string_eq, nat_eq, option_eq,
  if◌then◌else◌, or_else, truthy, Result, ok, raise, and_then, validation_error,
  state_transition_error,
}
use ai_powered_respiratory_h.Lifecycle.{validate_incident_transition}
use ai_powered_respiratory_h.Schemas.Road.{road_status_eq, accessibility_eq, bridge_status_eq}
use ai_powered_respiratory_h.Schemas.Facility.{
  hospital_value, shelter_value, parse_hospital_status, parse_shelter_status,
}
use ai_powered_respiratory_h.Schemas.Incident.{incident_status_eq}
use ai_powered_respiratory_h.Schemas.Event.{source_value, flood_severity_eq, category_eq}
use ai_powered_respiratory_h.Twin.Entities.{
  RoadEntity, BridgeEntity, HospitalEntity, ShelterEntity, IncidentEntity, FloodZoneEntity,
  PopulationEntity, VulnerableGroupEntity,
}
use ai_powered_respiratory_h.Twin.Events.{
  TwinEvent, RoadStatusChanged, BridgeStatusChanged, CapacityUpdated, FacilityStatusChanged,
  IncidentStatusChanged, FloodUpdated, VulnerabilityUpdated, PopulationUpdated,
}

-- `new is None or old == new`
abbrev is_same {ℓ} : {A : Type ℓ} → (A → A → Bool) → A → Option A → Bool
is_same beq old none = true
is_same beq old (some new) = beq old new

-- The same for a field that may itself be `None`.
abbrev is_same_option {ℓ} : {A : Type ℓ} → (Option A → Option A → Bool) → Option A → Option A → Bool
is_same_option beq old none = true
is_same_option beq old (some new) = beq old (some new)

-- `new if new is not None else old`, for such a field.
abbrev keep_if_none {ℓ} : {A : Type ℓ} → Option A → Option A → Option A
keep_if_none none old = old
keep_if_none (some new) old = some new

unfoldable pub apply_road_status_transition :
    RoadEntity → TwinEvent → RoadStatusChanged → RoadEntity × Bool
apply_road_status_transition r e c =
    if (r.status == c.new_status)
      && is_same (λ a b. a == b) r.accessibility c.new_accessibility
      && is_same_option (λ a b. a == b) r.speed_kmh c.new_speed_kmh
    then (r, true)
    else (
      record r {
        status = c.new_status;
        accessibility = or_else c.new_accessibility r.accessibility;
        speed_kmh = keep_if_none c.new_speed_kmh r.speed_kmh;
        updated_at = e.timestamp;
        source = source_value e.source;
        reason = e.reason;
      },
      false,
    )

unfoldable pub apply_bridge_status_transition :
    BridgeEntity → TwinEvent → BridgeStatusChanged → BridgeEntity × Bool
apply_bridge_status_transition b e c = if b.status == c.new_status then (b, true) else (
  record b {
    status = c.new_status;
    updated_at = e.timestamp;
    source = source_value e.source;
    reason = e.reason;
  },
  false,
)

-- `validate_capacity_bounds`, which pydantic runs after every assignment to a field of an entity
-- (`validate_assignment`), so after `updated.capacity = …` with the old availability still there.
unfoldable pub validated_hospital : HospitalEntity → Result HospitalEntity
validated_hospital h = if leb h.available_capacity h.capacity then ok h else raise validation_error

unfoldable pub validated_shelter : ShelterEntity → Result ShelterEntity
validated_shelter s = if leb s.available_capacity s.capacity then ok s else raise validation_error

-- The later assignments leave the two capacities alone, so their validation repeats the second.
unfoldable pub apply_hospital_capacity_transition :
    HospitalEntity → TwinEvent → CapacityUpdated → Result (HospitalEntity × Bool)
unfolding validated_hospital
apply_hospital_capacity_transition h e c =
    if (h.capacity == c.capacity)
      && (h.available_capacity == c.available_capacity)
      && is_same (λ a b. a == b) h.icu_available c.icu_available
      && is_same (λ a b. a == b) h.accessibility c.accessibility
    then ok (h, true)
    else and_then (validated_hospital (record h { capacity = c.capacity })) λ resized.
      and_then (validated_hospital (record resized { available_capacity = c.available_capacity }))
        λ filled. ok (
          record filled {
            icu_available = or_else c.icu_available h.icu_available;
            accessibility = or_else c.accessibility h.accessibility;
            updated_at = e.timestamp;
            source = source_value e.source;
          },
          false,
        )

unfoldable pub apply_shelter_capacity_transition :
    ShelterEntity → TwinEvent → CapacityUpdated → Result (ShelterEntity × Bool)
unfolding validated_shelter
apply_shelter_capacity_transition s e c =
    if (s.capacity == c.capacity)
      && (s.available_capacity == c.available_capacity)
      && is_same (λ a b. a == b) s.accessibility c.accessibility
    then ok (s, true)
    else and_then (validated_shelter (record s { capacity = c.capacity })) λ resized.
      and_then (validated_shelter (record resized { available_capacity = c.available_capacity }))
        λ filled. ok (
          record filled {
            accessibility = or_else c.accessibility s.accessibility;
            updated_at = e.timestamp;
            source = source_value e.source;
          },
          false,
        )

-- A text that is no status is assigned as it stands, and pydantic refuses the assignment.
unfoldable pub apply_hospital_status_transition :
    HospitalEntity → TwinEvent → FacilityStatusChanged → Result (HospitalEntity × Bool)
apply_hospital_status_transition h e c =
    if hospital_value h.status == c.new_status
    then ok (h, true)
    else elim (parse_hospital_status c.new_status) [
      | none ↦ raise validation_error
      | some status ↦ ok (
        record h { status = status; updated_at = e.timestamp; source = source_value e.source },
        false,
      )
    ]

unfoldable pub apply_shelter_status_transition :
    ShelterEntity → TwinEvent → FacilityStatusChanged → Result (ShelterEntity × Bool)
apply_shelter_status_transition s e c =
    if shelter_value s.status == c.new_status
    then ok (s, true)
    else elim (parse_shelter_status c.new_status) [
      | none ↦ raise validation_error
      | some status ↦ ok (
        record s { status = status; updated_at = e.timestamp; source = source_value e.source },
        false,
      )
    ]

unfoldable pub apply_incident_status_transition :
    IncidentEntity → TwinEvent → IncidentStatusChanged → Result (IncidentEntity × Bool)
apply_incident_status_transition i e c =
    if i.status == c.new_status
    then ok (i, true)
    else elim (validate_incident_transition i.status c.new_status) [
      | raise _ ↦ raise state_transition_error
      | ok _ ↦ ok (record i { status = c.new_status; updated_at = e.timestamp }, false)
    ]

-- `event.x if event.x else (entity.x if entity else None)`
abbrev inherit : Option String → Option String → Option String
inherit new old = elim (truthy new) [ none ↦ old | some s ↦ some s ]

-- The same for a document, which is false in a test when it is the empty object.
abbrev inherit_document : Option String → Option String → Option String
inherit_document none old = old
inherit_document (some d) old = if d == "{}" then old else some d

abbrev field_of {ℓ κ} : {A : Type ℓ} {B : Type κ} → (A → Option B) → Option A → Option B
field_of f none = none
field_of f (some a) = f a

abbrev holds {ℓ} : {A : Type ℓ} → (A → Bool) → Option A → Bool
holds p none = false
holds p (some a) = p a

-- The three rules below create the entity where there is none.
new_flood_zone : Option FloodZoneEntity → TwinEvent → FloodUpdated → FloodZoneEntity
new_flood_zone entity e c = record {
  flood_zone_id = c.flood_zone_id;
  name = inherit c.name (field_of (λ z. z.name) entity);
  geometry = c.geometry;
  severity = c.severity;
  water_depth_m = c.water_depth_m;
  updated_at = e.timestamp;
  source = source_value e.source;
  metadata = [];
}

unfoldable pub apply_flood_transition :
    Option FloodZoneEntity → TwinEvent → FloodUpdated → FloodZoneEntity × Bool
unfolding new_flood_zone
apply_flood_transition none e c = (new_flood_zone none e c, false)
apply_flood_transition (some z) e c =
    if (z.severity == c.severity)
      && (z.water_depth_m == c.water_depth_m)
      && (z.geometry == c.geometry)
    then (z, true)
    else (new_flood_zone (some z) e c, false)

new_vulnerable_group :
    Option VulnerableGroupEntity → TwinEvent → VulnerabilityUpdated → VulnerableGroupEntity
new_vulnerable_group entity e c = record {
  vulnerable_group_id = c.vulnerable_group_id;
  name = inherit c.name (field_of (λ g. g.name) entity);
  category = c.category;
  count = c.count;
  location = inherit_document c.location (field_of (λ g. g.location) entity);
  updated_at = e.timestamp;
  source = source_value e.source;
  metadata = [];
}

unfoldable pub apply_vulnerability_transition :
    Option VulnerableGroupEntity → TwinEvent → VulnerabilityUpdated → VulnerableGroupEntity × Bool
unfolding new_vulnerable_group
apply_vulnerability_transition none e c = (new_vulnerable_group none e c, false)
apply_vulnerability_transition (some g) e c =
    if (g.count == c.count)
      && (g.category == c.category)
      && is_same_option (λ a b. a == b) g.location c.location
    then (g, true)
    else (new_vulnerable_group (some g) e c, false)

new_population : Option PopulationEntity → TwinEvent → PopulationUpdated → PopulationEntity
new_population entity e c = record {
  population_id = c.population_id;
  location = inherit_document c.location (field_of (λ p. p.location) entity);
  count = c.count;
  updated_at = e.timestamp;
  source = source_value e.source;
  metadata = [];
}

unfoldable pub apply_population_transition :
    Option PopulationEntity → TwinEvent → PopulationUpdated → PopulationEntity × Bool
unfolding new_population
apply_population_transition none e c = (new_population none e c, false)
apply_population_transition (some p) e c =
    if p.count == c.count then (p, true) else (new_population (some p) e c, false)
