-- ===== src/Tests/Overlays.antt =====
-- An overlay with one blocked road.
use ai_powered_respiratory_h.Base.{
  ◌+◌, ◌≡◌, refl, [], ◌∷◌, none, some, Dict, Value, string, ◌==◌, string_eq, if◌then◌else◌, length,
  ok,
}
use ai_powered_respiratory_h.Schemas.Road.{blocked, OverrideSource}
use ai_powered_respiratory_h.Overlay.{
  Overlay, RoadOverride, empty_overlay, set_road_override, get_road_override,
}
use ai_powered_respiratory_h.Overlay.Numbering.{IsCounted, start, next, set_road, Reach-IsCounted}
use ai_powered_respiratory_h.Overlay.Reads.{get_road_override-set}

abbrev pub flooded : RoadOverride
flooded = record {
  road_id = "OSM-ROAD-7";
  status = blocked;
  accessibility = none;
  speed_limit_kmh = none;
  reason = "flooded";
  source = OverrideSource.field_report;
  bridge_id = none;
  metadata = [];
}

abbrev pub one_blocked : Overlay
one_blocked = (set_road_override flooded empty_overlay).1

Reach-IsCounted_example :
    IsCounted one_blocked × (one_blocked.version ≡ length one_blocked.events + 1)
Reach-IsCounted_example = Reach-IsCounted (next start (set_road flooded empty_overlay))

get_road_override-set_example :
    let (result, o') = set_road_override flooded empty_overlay in
    (result ≡ ok flooded)
    × (o'.version ≡ empty_overlay.version + 1)
    × (get_road_override "OSM-ROAD-7" o' ≡ (
        if flooded.road_id == "OSM-ROAD-7"
        then some flooded
        else get_road_override "OSM-ROAD-7" empty_overlay))
get_road_override-set_example = get_road_override-set flooded "OSM-ROAD-7" empty_overlay refl refl

abbrev pub edge : Dict Value
edge = ("road_id", string "OSM-ROAD-7") ∷ ("status", string "OPEN") ∷ []
