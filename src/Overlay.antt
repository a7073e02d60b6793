-- ===== src/Overlay.antt =====
-- geospatial/routing/state_overlay.py, `class StateOverlay`: the layer of road overrides that the
-- router reads on top of the base road graph. Random event identifiers and writing times are left
-- out: no operation reads them.
pub mod Numbering
pub mod Reads
use ai_powered_respiratory_h.Base.{
  ℕ, ◌+◌, String, Bool, true, false, ◌||◌, List, [], ◌∷◌, ◌++◌, Option, none, some, Dict, lookup,
  insert, erase, Value, string, number, flag, to_text, truthy, is_empty, replace_all, or_else,
  Result, ok, raise, value_error, Action, ◌==◌, string_eq, if◌then◌else◌, length, ltb,
}
use ai_powered_respiratory_h.Schemas.Road.{
  RoadStatus, Accessibility, OverrideSource, road_value, access_value, override_source_value,
}

-- `RoadStateOverride`; a speed is a whole number of metres per hour.
pub record RoadOverride : Type 0 where
  pub road_id : String
  pub status : RoadStatus
  pub accessibility : Option Accessibility
  pub speed_limit_kmh : Option ℕ
  pub reason : String
  pub source : OverrideSource
  pub bridge_id : Option String
  pub metadata : Dict Value

-- `RoadStateChangedEvent`
pub record OverlayEvent : Type 0 where
  pub road_id : String
  pub previous_status : Option RoadStatus
  pub new_status : Option RoadStatus
  pub reason : String
  pub source : OverrideSource
  pub state_version : ℕ

pub record Overlay : Type 0 where
  pub overrides : Dict RoadOverride
  pub bridge_to_road : Dict String
  pub road_to_edges : Dict (List String)
  pub version : ℕ
  pub events : List OverlayEvent

-- `StateOverlay()`
abbrev pub empty_overlay : Overlay
empty_overlay = record {
  overrides = [];
  bridge_to_road = [];
  road_to_edges = [];
  version = 1;
  events = [];
}

-- `set.add`, on a set as a list without repetitions
abbrev add_edge : String → List String → List String
add_edge e [] = e ∷ []
add_edge e (x ∷ xs) = if x == e then x ∷ xs else x ∷ add_edge e xs

-- `if bridge_id: self._bridge_to_road[bridge_id] = road_id`
abbrev index_bridge : Option String → String → Dict String → Dict String
index_bridge none road_id d = d
index_bridge (some b) road_id d = insert b road_id d

unfoldable pub register_road_edge : String → String → Option String → Overlay → Overlay
register_road_edge road_id edge_id bridge_id o =
    let edges = add_edge edge_id (or_else (lookup road_id o.road_to_edges) []) in
    record o {
      road_to_edges = insert road_id edges o.road_to_edges;
      bridge_to_road = index_bridge (truthy bridge_id) road_id o.bridge_to_road;
    }

abbrev status_of : Option RoadOverride → Option RoadStatus
status_of none = none
status_of (some r) = some r.status

-- `self._version += 1`, and an event stamped with the new version
abbrev log_event :
    String → Option RoadStatus → Option RoadStatus → String → OverrideSource → Overlay → Overlay
log_event road_id previous new reason source o = record o {
  version = o.version + 1;
  events =
      o.events
      ++ record {
        road_id = road_id;
        previous_status = previous;
        new_status = new;
        reason = reason;
        source = source;
        state_version = o.version + 1;
      }
        ∷ [];
}

-- `set_road_override`, with the fields of the override to be in its order. pydantic refuses an
-- override whose reason is empty.
unfoldable pub set_road_override : RoadOverride → Action Overlay RoadOverride
set_road_override r o =
    if is_empty r.road_id || is_empty r.reason then (raise value_error, o) else (
      ok r,
      log_event r.road_id (status_of (lookup r.road_id o.overrides)) (some r.status) r.reason
          r.source (record o { overrides = insert r.road_id r o.overrides }),
    )

-- The road of a bridge: the indexed one, or the bridge's own name with another prefix.
unfoldable pub road_of_bridge : String → Overlay → String
road_of_bridge bridge_id o =
    or_else (truthy (lookup bridge_id o.bridge_to_road))
      (replace_all 6 "BRIDGE-" "OSM-ROAD-" bridge_id)

unfoldable pub set_bridge_override :
    String → RoadStatus → String → OverrideSource → Action Overlay RoadOverride
set_bridge_override bridge_id status reason source o =
    set_road_override
      (record {
        road_id = road_of_bridge bridge_id o;
        status = status;
        accessibility = none;
        speed_limit_kmh = none;
        reason = reason;
        source = source;
        bridge_id = some bridge_id;
        metadata = [];
      })
      o

unfoldable pub clear_road_override : String → String → OverrideSource → Overlay → Bool × Overlay
clear_road_override road_id reason source o = elim (lookup road_id o.overrides) [
  | none ↦ (false, o)
  | some r ↦ (
    true,
    log_event road_id (some r.status) none reason source
        (record o { overrides = erase road_id o.overrides }),
  )
]

unfoldable pub clear_all_overrides : Overlay → ℕ × Overlay
clear_all_overrides o =
    let count = length o.overrides in
    if ltb 0 count
    then (
      count,
      log_event "ALL" none none "Complete rollback to baseline" OverrideSource.simulation
          (record o { overrides = [] }),
    )
    else (count, o)

abbrev pub get_road_override : String → Overlay → Option RoadOverride
get_road_override road_id o = lookup road_id o.overrides

abbrev pub set_if : String → Option Value → Dict Value → Dict Value
set_if key none d = d
set_if key (some v) d = insert key v d

abbrev access_entry : Option Accessibility → Option Value
access_entry none = none
access_entry (some a) = some (string (access_value a))

abbrev speed_entry : Option ℕ → Option Value
speed_entry none = none
speed_entry (some n) = some (number n)

-- A copy of the base data with what the override sets.
unfoldable pub overridden : RoadOverride → Dict Value → Dict Value
overridden r base = insert "override_source" (string (override_source_value r.source)) (
    insert "override_reason" (string r.reason) (
      insert "override_applied" (flag true) (
        set_if "speed_limit_kmh" (speed_entry r.speed_limit_kmh) (
          set_if "accessibility" (access_entry r.accessibility)
            (insert "status" (string (road_value r.status)) base)))))

-- The data of an edge with the override of its road on top.
unfoldable pub get_effective_edge_data : Dict Value → Overlay → Dict Value
get_effective_edge_data base o =
    let road_id = to_text (or_else (lookup "road_id" base) (string "")) in
    elim (lookup road_id o.overrides) [ none ↦ base | some r ↦ overridden r base ]

-- `clone`: values are immutable here, so the deep copies are the fields themselves.
unfoldable pub clone : Overlay → Overlay
clone o = record {
  overrides = o.overrides;
  bridge_to_road = o.bridge_to_road;
  road_to_edges = o.road_to_edges;
  version = o.version;
  events = o.events;
}
