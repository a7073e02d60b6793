-- ===== src/Routing/Policy.antt =====
-- geospatial/routing/constraints.py: which edges a vehicle may use. The penalty multiplier, which the
-- policy does not read, is left out.
use ai_powered_respiratory_h.Base.{
  String, Bool, true, false, not, ◌&&◌, ◌||◌, ◌==◌, string_eq, Option, none, some, lookup, or_else,
  Dict, Value, string, to_text, if◌then◌else◌,
}

-- `VehicleType`
pub data VehicleType : Type 0 where
  general_emergency ambulance fire_response rescue_vehicle : VehicleType

abbrev pub is_ambulance : VehicleType → Bool
is_ambulance ambulance = true
is_ambulance _ = false

pub record RoutingPolicy : Type 0 where
  pub allow_blocked_roads : Bool
  pub allow_restricted_roads : Bool
  pub allow_unknown_roads : Bool
  pub allow_emergency_only : Bool
  pub allow_private_roads : Bool

-- `EmergencyRoutingPolicy()`
abbrev pub default_policy : RoutingPolicy
default_policy = record {
  allow_blocked_roads = false;
  allow_restricted_roads = true;
  allow_unknown_roads = true;
  allow_emergency_only = true;
  allow_private_roads = false;
}

-- `str.upper`, and a tag of an edge after `.lower().strip()`, empty when the edge does not have it.
pub record Words : Type 0 where
  pub upper : String → String
  pub tag : Dict Value → String → String

abbrev pub deny_if : Bool → String → Bool × Option String → Bool × Option String
deny_if c reason rest = if c then (false, some reason) else rest

-- `str(edge_data.get(key, default)).upper()`
abbrev pub word_at : Words → String → String → Dict Value → String
word_at words key default edge = words.upper (to_text (or_else (lookup key edge) (string default)))

abbrev pub is_closed_tag : String → Bool
is_closed_tag tag = tag == "no" || tag == "private"

abbrev pub is_emergency_tag : String → Bool
is_emergency_tag tag = tag == "yes" || tag == "designated" || tag == "only"

module _ (p : RoutingPolicy) where
  abbrev pub check_tags : (access emergency : String) → Bool × Option String
  check_tags access emergency =
      deny_if
        (is_closed_tag access && (not p.allow_private_roads && not (is_emergency_tag emergency)))
        "Road access is private/no" (true, none)

  abbrev pub check_access : String → VehicleType → Bool × Option String → Bool × Option String
  check_access access vehicle rest =
      deny_if (access == "IMPASSABLE") "Road accessibility is IMPASSABLE" (
        deny_if (access == "EMERGENCY_ONLY" && not p.allow_emergency_only)
          "Road is EMERGENCY_ONLY but policy disallows emergency-only access"
          (deny_if (access == "HIGH_CLEARANCE_ONLY" && is_ambulance vehicle)
            "Road requires HIGH_CLEARANCE_ONLY which is unsuitable for standard ambulance" rest))

  abbrev pub check_status : String → Bool × Option String → Bool × Option String
  check_status status rest =
      deny_if (status == "BLOCKED" && not p.allow_blocked_roads) "Road status is BLOCKED" (
        deny_if (status == "RESTRICTED" && not p.allow_restricted_roads)
          "Road status is RESTRICTED and policy disallows restricted roads"
          (deny_if (status == "UNKNOWN" && not p.allow_unknown_roads)
            "Road status is UNKNOWN and policy disallows unknown roads" rest))

  unfoldable pub evaluate_edge_traversability :
      Words → Dict Value → VehicleType → Bool × Option String
  evaluate_edge_traversability words edge vehicle =
      check_status (word_at words "status" "OPEN" edge) (
        check_access (word_at words "accessibility" "ALL_VEHICLES" edge) vehicle
          (check_tags (words.tag edge "access") (words.tag edge "emergency")))
