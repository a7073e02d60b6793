-- ===== src/Twin/State.antt =====
-- digital_twin/state/state_manager.py: the state of `DigitalTwinStateManager`, the registration of
-- entities, the commit of an event, and the synchronisation with the routing overlay. The wording of
-- messages is left out.
use ai_powered_respiratory_h.Base.{
  ℕ, ◌+◌, String, Bool, List, [], ◌∷◌, ◌++◌, Option, none, some, Dict, insert, number, truthy,
  or_else, ◌==◌, string_eq, if◌then◌else◌, Result, ok, raise, Action, ◌>>◌, pure,
}
use ai_powered_respiratory_h.Schemas.Road.{
  RoadStatus, BridgeStatus, OverrideSource, open_road, restricted, blocked, open_bridge,
  restricted_bridge, blocked_bridge, collapsed, submerged, closed_bridge,
}
use ai_powered_respiratory_h.Overlay.{Overlay, RoadOverride, set_road_override, set_bridge_override}
use ai_powered_respiratory_h.Twin.Entities.{
  RoadEntity, BridgeEntity, HospitalEntity, ShelterEntity, RescueTeamEntity, IncidentEntity,
  FloodZoneEntity, PopulationEntity, VulnerableGroupEntity,
}
use ai_powered_respiratory_h.Twin.Events.{TwinEvent}

pub record Twin : Type 0 where
  pub version : ℕ
  pub updated_at : ℕ
  pub roads : Dict RoadEntity
  pub bridges : Dict BridgeEntity
  pub hospitals : Dict HospitalEntity
  pub shelters : Dict ShelterEntity
  pub rescue_teams : Dict RescueTeamEntity
  pub incidents : Dict IncidentEntity
  pub flood_zones : Dict FloodZoneEntity
  pub populations : Dict PopulationEntity
  pub vulnerable_groups : Dict VulnerableGroupEntity
  pub event_log : List TwinEvent
  pub seen_event_ids : Dict ℕ
  pub routing_overlay : Option Overlay

-- `DigitalTwinStateManager(routing_overlay, initial_version)` at the time `now`
unfoldable pub new_twin : Option Overlay → ℕ → ℕ → Twin
new_twin overlay initial_version now = record {
  version = initial_version;
  updated_at = now;
  roads = [];
  bridges = [];
  hospitals = [];
  shelters = [];
  rescue_teams = [];
  incidents = [];
  flood_zones = [];
  populations = [];
  vulnerable_groups = [];
  event_log = [];
  seen_event_ids = [];
  routing_overlay = overlay;
}

-- `TransitionResult`
pub record TransitionResult : Type 0 where
  pub event_id : String
  pub applied : Bool
  pub state_version : ℕ
  pub is_duplicate : Bool
  pub is_no_op : Bool
  pub cascaded_event_ids : List String

-- Runs a method of the overlay, if one is attached.
abbrev pub on_overlay :
    (Overlay → Result RoadOverride × Overlay) → Option Overlay → Result (Unit {0}) × Option Overlay
on_overlay f none = (ok tt, none)
on_overlay f (some o) = let (r, o') = f o in (elim r [ ok _ ↦ ok tt | raise e ↦ raise e ], some o')

abbrev override_source : String → OverrideSource
override_source s =
    if s == "SIMULATION"
    then OverrideSource.simulation
    else if s == "TEST_FIXTURE"
    then OverrideSource.test_fixture
    else OverrideSource.field_report

unfoldable pub road_override : RoadEntity → RoadOverride
road_override r = record {
  road_id = r.road_id;
  status = r.status;
  accessibility = none;
  speed_limit_kmh = r.speed_kmh;
  reason = or_else (truthy r.reason) "Digital Twin synchronization";
  source = override_source r.source;
  bridge_id = none;
  metadata = [];
}

-- The status of the road that a bridge carries, for each status of the bridge.
abbrev pub carried_status : BridgeStatus → RoadStatus
carried_status open_bridge = open_road
carried_status restricted_bridge = restricted
carried_status blocked_bridge = blocked
carried_status collapsed = blocked
carried_status submerged = restricted
carried_status closed_bridge = blocked

-- `_sync_road_to_overlay` and `_sync_bridge_to_overlay`, on the overlay alone
unfoldable pub sync_road : RoadEntity → Option Overlay → Result (Unit {0}) × Option Overlay
sync_road r = on_overlay (set_road_override (road_override r))

unfoldable pub sync_bridge : BridgeEntity → Option Overlay → Result (Unit {0}) × Option Overlay
sync_bridge b = on_overlay (
    set_bridge_override b.bridge_id (carried_status b.status)
      (or_else (truthy b.reason) "Digital Twin synchronization") (override_source b.source))

abbrev pub with_overlay :
    (Option Overlay → Result (Unit {0}) × Option Overlay) → Action Twin (Unit {0})
with_overlay f t = let (r, o) = f t.routing_overlay in (r, record t { routing_overlay = o })

-- The loop of `_sync_all_roads_to_overlay` over one registry; an exception ends it.
unfoldable pub sync_each :
    {A : Type 0}
    → (A → Action (Option Overlay) (Unit {0}))
    → Dict A
    → Action (Option Overlay) (Unit {0})
sync_each f [] = pure tt
sync_each f ((k, a) ∷ d) = f a >> sync_each f d

unfoldable pub sync_all_roads_to_overlay : Action Twin (Unit {0})
sync_all_roads_to_overlay t =
    (with_overlay (sync_each sync_road t.roads) >> with_overlay (sync_each sync_bridge t.bridges)) t

unfoldable pub set_routing_overlay : Overlay → Action Twin (Unit {0})
set_routing_overlay overlay t =
    sync_all_roads_to_overlay (record t { routing_overlay = some overlay })

-- Registration. An entity whose overlay entry is refused is registered all the same.
unfoldable pub register_road : RoadEntity → Action Twin (Unit {0})
register_road r t = with_overlay (sync_road r) (record t { roads = insert r.road_id r t.roads })

unfoldable pub register_bridge : BridgeEntity → Action Twin (Unit {0})
register_bridge b t =
    with_overlay (sync_bridge b) (record t { bridges = insert b.bridge_id b t.bridges })

unfoldable pub register_hospital : HospitalEntity → Twin → Twin
register_hospital h t = record t { hospitals = insert h.hospital_id h t.hospitals }

unfoldable pub register_shelter : ShelterEntity → Twin → Twin
register_shelter s t = record t { shelters = insert s.shelter_id s t.shelters }

unfoldable pub register_rescue_team : RescueTeamEntity → Twin → Twin
register_rescue_team r t = record t { rescue_teams = insert r.rescue_team_id r t.rescue_teams }

unfoldable pub register_incident : IncidentEntity → Twin → Twin
register_incident i t = record t { incidents = insert i.incident_id i t.incidents }

unfoldable pub register_flood_zone : FloodZoneEntity → Twin → Twin
register_flood_zone z t = record t { flood_zones = insert z.flood_zone_id z t.flood_zones }

unfoldable pub register_population : PopulationEntity → Twin → Twin
register_population p t = record t { populations = insert p.population_id p t.populations }

unfoldable pub register_vulnerable_group : VulnerableGroupEntity → Twin → Twin
register_vulnerable_group g t = record t {
  vulnerable_groups = insert g.vulnerable_group_id g t.vulnerable_groups;
}

-- The event as it is logged, with the version that it brought about in its metadata.
abbrev pub logged_event : TwinEvent → ℕ → TwinEvent
logged_event e version = record e { metadata = insert "state_version" (number version) e.metadata }

-- `_commit_event`
unfoldable pub commit_event : TwinEvent → Twin → Twin
commit_event e t =
    let version = t.version + 1 in
    record t {
      version = version;
      updated_at = e.timestamp;
      seen_event_ids = insert e.event_id version t.seen_event_ids;
      event_log = t.event_log ++ logged_event e version ∷ [];
    }
