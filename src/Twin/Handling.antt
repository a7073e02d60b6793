-- ===== src/Twin/Handling.antt =====
-- digital_twin/state/state_manager.py: how `apply_event` and its handlers end, and the handler of a road event.
use ai_powered_respiratory_h.Base.{
  ℕ, ◌+◌, String, Bool, true, false, List, [], none, Dict, lookup, insert, contains, or_else,
  if◌then◌else◌, ok, Action, ◌>>◌, modify,
}
use ai_powered_respiratory_h.Schemas.Road.{open_road, all_vehicles, open_bridge}
use ai_powered_respiratory_h.Twin.Entities.{RoadEntity, BridgeEntity}
use ai_powered_respiratory_h.Twin.Events.{TwinEvent, RoadStatusChanged}
use ai_powered_respiratory_h.Twin.Transitions.{apply_road_status_transition}
use ai_powered_respiratory_h.Twin.State.{
  Twin, TransitionResult, commit_event, with_overlay, sync_road,
}

-- The readings of the clock in one call, in order: an entity made without a time takes one.
abbrev pub Clock : Type 0
Clock = ℕ → ℕ

abbrev pub later : Clock → Clock
later clock k = clock (k + 1)

-- An event whose identifier was seen changes nothing.
abbrev pub unless_seen : TwinEvent → Action Twin TransitionResult → Action Twin TransitionResult
unless_seen e run t =
    if contains e.event_id t.seen_event_ids
    then (
      ok (record {
        event_id = e.event_id;
        applied = false;
        state_version = t.version;
        is_duplicate = true;
        is_no_op = false;
        cascaded_event_ids = [];
      }),
      t,
    )
    else run t

-- An event without effect is seen from now on, at the present version.
unfoldable pub finish_no_op : TwinEvent → Action Twin TransitionResult
finish_no_op e t = (
  ok (record {
    event_id = e.event_id;
    applied = false;
    state_version = t.version;
    is_duplicate = false;
    is_no_op = true;
    cascaded_event_ids = [];
  }),
  record t { seen_event_ids = insert e.event_id t.version t.seen_event_ids },
)

unfoldable pub report : TwinEvent → List String → Action Twin TransitionResult
report e cascaded t = (
  ok (record {
    event_id = e.event_id;
    applied = true;
    state_version = t.version;
    is_duplicate = false;
    is_no_op = false;
    cascaded_event_ids = cascaded;
  }),
  t,
)

-- The end of most handlers: nothing, or a write to a registry and the commit.
unfoldable pub conclude {ℓ} :
    {A : Type ℓ} → TwinEvent → (A → Twin → Twin) → A × Bool → Action Twin TransitionResult
conclude e write (updated, true) = finish_no_op e
conclude e write (updated, false) = modify (write updated) >> modify (commit_event e) >> report e []

-- `d.setdefault(k, v)`
abbrev pub set_default {ℓ} : {V : Type ℓ} → String → V → Dict V → Dict V
set_default k v d = if contains k d then d else insert k v d

unfoldable pub new_road : String → ℕ → RoadEntity
new_road road_id now = record {
  road_id = road_id;
  name = none;
  status = open_road;
  accessibility = all_vehicles;
  speed_kmh = none;
  associated_bridge_ids = [];
  updated_at = now;
  source = "SYSTEM";
  reason = none;
  metadata = [];
}

unfoldable pub new_bridge : String → ℕ → BridgeEntity
new_bridge bridge_id now = record {
  bridge_id = bridge_id;
  name = none;
  road_id = none;
  status = open_bridge;
  clearance_m = none;
  updated_at = now;
  source = "SYSTEM";
  reason = none;
  metadata = [];
}

-- What the road handler does with the outcome of the transition rule.
unfoldable pub finish_road :
    TwinEvent → RoadStatusChanged → RoadEntity × Bool → Action Twin TransitionResult
finish_road e c (updated, true) = finish_no_op e
finish_road e c (updated, false) =
    modify (λ t. record t { roads = insert c.road_id updated t.roads })
    >> modify (commit_event e)
    >> with_overlay (sync_road updated)
    >> report e []

unfoldable pub handle_road_status_changed :
    Clock → TwinEvent → RoadStatusChanged → Action Twin TransitionResult
handle_road_status_changed clock e c t =
    let road = or_else (lookup c.road_id t.roads) (new_road c.road_id (clock 0)) in
    finish_road e c (apply_road_status_transition road e c)
      (record t { roads = set_default c.road_id road t.roads })

-- `apply_event` of a road event, which the bridge handler calls.
unfoldable pub apply_road_event :
    Clock → TwinEvent → RoadStatusChanged → Action Twin TransitionResult
apply_road_event clock e c = unless_seen e (handle_road_status_changed clock e c)
