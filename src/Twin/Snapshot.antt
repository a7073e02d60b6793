-- ===== src/Twin/Snapshot.antt =====
-- digital_twin/state/state_manager.py: snapshots, replay and forks. Entities are immutable values
-- here, so a deep copy of a registry is the registry.
use ai_powered_respiratory_h.Base.{
  ℕ, List, [], ◌∷◌, Option, none, some, Dict, Result, Action, ◌>>◌, pure, modify,
}
use ai_powered_respiratory_h.Overlay.{Overlay, clone}
use ai_powered_respiratory_h.Twin.Entities.{
  RoadEntity, BridgeEntity, HospitalEntity, ShelterEntity, RescueTeamEntity, IncidentEntity,
  FloodZoneEntity, PopulationEntity, VulnerableGroupEntity,
}
use ai_powered_respiratory_h.Twin.Events.{TwinEvent}
use ai_powered_respiratory_h.Twin.State.{Twin, new_twin, sync_all_roads_to_overlay}
use ai_powered_respiratory_h.Twin.Handling.{Clock}
use ai_powered_respiratory_h.Twin.Apply.{apply_event}

-- `TwinSnapshot`
pub record TwinSnapshot : Type 0 where
  pub state_version : ℕ
  pub timestamp : ℕ
  pub roads : Dict RoadEntity
  pub bridges : Dict BridgeEntity
  pub hospitals : Dict HospitalEntity
  pub shelters : Dict ShelterEntity
  pub rescue_teams : Dict RescueTeamEntity
  pub incidents : Dict IncidentEntity
  pub flood_zones : Dict FloodZoneEntity
  pub populations : Dict PopulationEntity
  pub vulnerable_groups : Dict VulnerableGroupEntity

unfoldable pub create_snapshot : Twin → TwinSnapshot
create_snapshot t = record {
  state_version = t.version;
  timestamp = t.updated_at;
  roads = t.roads;
  bridges = t.bridges;
  hospitals = t.hospitals;
  shelters = t.shelters;
  rescue_teams = t.rescue_teams;
  incidents = t.incidents;
  flood_zones = t.flood_zones;
  populations = t.populations;
  vulnerable_groups = t.vulnerable_groups;
}

unfoldable pub restore_from_snapshot : TwinSnapshot → Action Twin (Unit {0})
restore_from_snapshot s t = sync_all_roads_to_overlay (record t {
  version = s.state_version;
  updated_at = s.timestamp;
  roads = s.roads;
  bridges = s.bridges;
  hospitals = s.hospitals;
  shelters = s.shelters;
  rescue_teams = s.rescue_teams;
  incidents = s.incidents;
  flood_zones = s.flood_zones;
  populations = s.populations;
  vulnerable_groups = s.vulnerable_groups;
})

-- `for evt in events: manager.apply_event(evt)`; an exception ends the loop.
unfoldable pub apply_all : Clock → List TwinEvent → Action Twin (Unit {0})
apply_all clock [] = pure tt
apply_all clock (e ∷ es) = apply_event clock e >> apply_all clock es

-- `replay`, at the time `now`
unfoldable pub replay :
    Clock → ℕ → TwinSnapshot → List TwinEvent → Option Overlay → Result (Unit {0}) × Twin
replay clock now s events overlay =
    (restore_from_snapshot s >> apply_all clock events) (new_twin overlay s.state_version now)

-- The overlay of a fork: the one that is given, or a copy of the present one.
abbrev pub fork_overlay : Option Overlay → Option Overlay → Option Overlay
fork_overlay (some given) present = some given
fork_overlay none none = none
fork_overlay none (some o) = some (clone o)

-- `forked._event_log = …; forked._seen_event_ids = …`
abbrev pub remember : List TwinEvent → Dict ℕ → Twin → Twin
remember log seen f = record f { event_log = log; seen_event_ids = seen }

-- `fork`, at the time `now`
unfoldable pub fork : ℕ → Option Overlay → Twin → Result (Unit {0}) × Twin
fork now overlay t =
    (restore_from_snapshot (create_snapshot t) >> modify (remember t.event_log t.seen_event_ids))
      (new_twin (fork_overlay overlay t.routing_overlay) t.version now)
