-- ===== src/Twin/Cascade.antt =====
-- A bridge's failure reaches its road.
use Prim.Native.String.{◌++◌ as concat}
use Prim.Native.String.{count}
use text.Mathlib.TextLemmas.{length-append}
use ai_powered_respiratory_h.Base.{
  String, Bool, true, false, ◌≡◌, refl, ap, sym, subst, ◌∙◌, Option, none, some, inl, inr,
  Bool-cases, Option-cases, pure, arith, Dict, lookup, insert, lookup-insert_self, lookup-insert,
  contains, truthy, or_else, ok, raise, Result, continue, IsOk, ◌==◌, string_eq, if◌then◌else◌,
}
use ai_powered_respiratory_h.Schemas.Road.{RoadStatus, bridge_status_eq, road_status_eq}
use ai_powered_respiratory_h.Twin.Entities.{RoadEntity, BridgeEntity}
use ai_powered_respiratory_h.Twin.Events.{
  TwinEvent, Payload, RoadStatusChanged, BridgeStatusChanged,
}
use ai_powered_respiratory_h.Twin.Transitions.{
  apply_road_status_transition, apply_bridge_status_transition,
}
use ai_powered_respiratory_h.Twin.State.{
  Twin, TransitionResult, commit_event, sync_road, sync_bridge, carried_status,
}
use ai_powered_respiratory_h.Twin.Handling.{
  Clock, later, finish_no_op, report, finish_road, handle_road_status_changed, apply_road_event,
  new_road, set_default,
}
use ai_powered_respiratory_h.Twin.Apply.{
  apply_event, dispatch, cascade, finish_bridge, handle_bridge_status_changed, cascade_target,
  cascaded_event, cascaded_change, cascaded_event_id, applied_ids,
}
use ai_powered_respiratory_h.Twin.Replay.{detached}

abbrev pub status_of : Option RoadEntity → Option RoadStatus
status_of none = none
status_of (some r) = some r.status

-- The road rule leaves the status that the event asks for, also where it finds nothing to change.
road_rule-status :
    (r : RoadEntity) (e : TwinEvent) (c : RoadStatusChanged)
    → (apply_road_status_transition r e c).0.status ≡ c.new_status
unfolding apply_road_status_transition
road_rule-status r e c = ground arith

-- With no overlay, the end of a road event leaves the road with the rule's outcome, if the road is
-- registered with that status in case the outcome is no change.
abbrev IsPassed : String → RoadStatus → Result TransitionResult × Twin → Type 0
IsPassed road_id status p = IsOk p.0 × (status_of (lookup road_id p.1.roads) ≡ some status)

finish_road-IsPassed :
    (e : TwinEvent) (c : RoadStatusChanged) (outcome : RoadEntity × Bool) (t : Twin)
    → outcome.0.status ≡ c.new_status
    → (outcome.1 ≡ true → lookup c.road_id t.roads ≡ some outcome.0)
    → IsPassed c.road_id c.new_status (finish_road e c outcome (detached t))
unfolding finish_road finish_no_op commit_event report sync_road
finish_road-IsPassed e c (r, true) t same there = (tt, ap status_of (there refl) ∙ ap some same)
finish_road-IsPassed e c (r, false) t same there =
    (tt, ap status_of (lookup-insert_self c.road_id r t.roads) ∙ ap some same)

-- A rule that changes nothing hands back the road.
road_rule-same :
    (r : RoadEntity) (e : TwinEvent) (c : RoadStatusChanged)
    → (apply_road_status_transition r e c).1 ≡ true
    → (apply_road_status_transition r e c).0 ≡ r
unfolding apply_road_status_transition
road_rule-same r e c h = ground arith

set_default-lookup :
    (k : String) (v : RoadEntity) (d : Dict RoadEntity)
    → lookup k (set_default k (or_else (lookup k d) v) d) ≡ some (or_else (lookup k d) v)
set_default-lookup k v d = elim (Option-cases (lookup k d)) [
  | inl absent ↦ rw absent (lookup-insert_self k v d)
  | inr (r, there) ↦ rw (there, there) refl
]

apply_road_event-IsPassed :
    (clock : Clock) (e : TwinEvent) (c : RoadStatusChanged) (t : Twin)
    → contains e.event_id t.seen_event_ids ≡ false
    → IsPassed c.road_id c.new_status (apply_road_event clock e c (detached t))
unfolding apply_road_event handle_road_status_changed
apply_road_event-IsPassed clock e c t new =
    let road = or_else (lookup c.road_id t.roads) (new_road c.road_id (clock 0)) in
    rw new (
      finish_road-IsPassed e c (apply_road_status_transition road e c)
        (record t { roads = set_default c.road_id road t.roads }) (road_rule-status road e c)
        (λ same.
          set_default-lookup c.road_id (new_road c.road_id (clock 0)) t.roads
          ∙ ap some (sym (road_rule-same road e c same))))

-- Reporting leaves what the cascade did.
reported :
    (road_id : String) (status : RoadStatus) (e e' : TwinEvent) (p : Result TransitionResult × Twin)
    → IsPassed road_id status p
    → IsPassed road_id status
        (continue (continue p (λ done. pure (applied_ids e' road_id done))) (report e))
unfolding report
reported road_id status e e' (ok a, t) h = (tt, h.1)
reported road_id status e e' (raise x, t) h = absurd h.0

finish_bridge-IsPassed :
    (clock : Clock) (e : TwinEvent) (c : BridgeStatusChanged) (b : BridgeEntity) (road_id : String)
    (t : Twin)
    → cascade_target c b ≡ some road_id
    → contains (cascaded_event_id e road_id) (commit_event e t).seen_event_ids ≡ false
    → IsPassed road_id
        (carried_status c.new_status)
        (finish_bridge clock e c (b, false) (detached t))
unfolding finish_bridge cascade sync_bridge commit_event cascaded_event cascaded_change
finish_bridge-IsPassed clock e c b road_id t target new =
    let s = commit_event e (record t { bridges = insert c.bridge_id b t.bridges }) in
    rw target (
      reported road_id (carried_status c.new_status) e e
        (apply_road_event clock (cascaded_event e c road_id) (cascaded_change c road_id)
          (detached s))
        (apply_road_event-IsPassed clock (cascaded_event e c road_id) (cascaded_change c road_id) s
          new))

-- The cascaded event's identifier is longer than the one it is made from.
cascaded_event_id-ne :
    (e : TwinEvent) (road_id : String) → (e.event_id == cascaded_event_id e road_id) ≡ false
unfolding cascaded_event_id
cascaded_event_id-ne e road_id =
    elim (Bool-cases (e.event_id == concat "CAUSED-" (concat e.event_id (concat "-" road_id)))) [
      | inr other ↦ other
      | inl same ↦
          let equal = ap count ((string_eq.same_iff e.event_id _).0 same) in
          let outer = length-append "CAUSED-" (concat e.event_id (concat "-" road_id)) in
          let inner = length-append e.event_id (concat "-" road_id) in
          absurd (omega (arith, equal, outer, inner))
    ]

cascade_unseen :
    (e : TwinEvent) (road_id : String) (t : Twin)
    → contains (cascaded_event_id e road_id) t.seen_event_ids ≡ false
    → contains (cascaded_event_id e road_id) (commit_event e t).seen_event_ids ≡ false
unfolding commit_event
cascade_unseen e road_id t new = rw (lookup-insert, cascaded_event_id-ne e road_id) new

changed :
    (b : BridgeEntity) (e : TwinEvent) (c : BridgeStatusChanged)
    → (b.status == c.new_status) ≡ false
    → ((apply_bridge_status_transition b e c).1 ≡ false)
      × ((apply_bridge_status_transition b e c).0.road_id ≡ b.road_id)
unfolding apply_bridge_status_transition
changed b e c new = (rw new refl, rw new refl)

propagated :
    (c : BridgeStatusChanged) (b b' : BridgeEntity) (road_id : String)
    → c.propagate_to_road ≡ true
    → b'.road_id ≡ b.road_id
    → truthy b.road_id ≡ some road_id
    → cascade_target c b' ≡ some road_id
propagated c b b' road_id asks same road =
    ap (λ x. if x then truthy b'.road_id else none) asks ∙ (ap truthy same ∙ road)

bridge_outcome-IsPassed :
    (clock : Clock) (e : TwinEvent) (c : BridgeStatusChanged) (outcome : BridgeEntity × Bool)
    (road_id : String) (t : Twin)
    → outcome.1 ≡ false
    → cascade_target c outcome.0 ≡ some road_id
    → contains (cascaded_event_id e road_id) t.seen_event_ids ≡ false
    → IsPassed road_id (carried_status c.new_status) (finish_bridge clock e c outcome (detached t))
bridge_outcome-IsPassed clock e c (b, true) road_id t differs target unused = cc
bridge_outcome-IsPassed clock e c (b, false) road_id t differs target unused =
    finish_bridge-IsPassed clock e c b road_id t target (cascade_unseen e road_id t unused)

bridge_event-IsPassed :
    (clock : Clock) (e : TwinEvent) (c : BridgeStatusChanged) (b : BridgeEntity) (road_id : String)
    (t : Twin)
    → lookup c.bridge_id t.bridges ≡ some b
    → (b.status == c.new_status) ≡ false
    → c.propagate_to_road ≡ true
    → truthy b.road_id ≡ some road_id
    → contains (cascaded_event_id e road_id) t.seen_event_ids ≡ false
    → IsPassed road_id
        (carried_status c.new_status)
        (handle_bridge_status_changed clock e c (detached t))
unfolding handle_bridge_status_changed
bridge_event-IsPassed clock e c b road_id t found differs asks road unused =
    let (moved, same) = changed b e c differs in
    let outcome = apply_bridge_status_transition b e c in
    rw found (
      bridge_outcome-IsPassed (later clock) e c outcome road_id t moved
        (propagated c b outcome.0 road_id asks same road) unused)

-- On a twin without an overlay: an unseen event that changes the status of a registered bridge and
-- asks for propagation returns, and leaves the bridge's road with the status that the bridge's new
-- status carries over, whether the road was registered before or not, unless the identifier of the
-- event that it causes had been used already.
pub apply_event-carried_status :
    (clock : Clock) (e : TwinEvent) (c : BridgeStatusChanged) (b : BridgeEntity) (road_id : String)
    (t : Twin)
    → e.payload ≡ Payload.bridge_status_changed c
    → contains e.event_id t.seen_event_ids ≡ false
    → lookup c.bridge_id t.bridges ≡ some b
    → (b.status == c.new_status) ≡ false
    → c.propagate_to_road ≡ true
    → truthy b.road_id ≡ some road_id
    → contains (cascaded_event_id e road_id) t.seen_event_ids ≡ false
    → IsOk (apply_event clock e (detached t)).0
      × (status_of (lookup road_id (apply_event clock e (detached t)).1.roads)
          ≡ some (carried_status c.new_status))
unfolding apply_event dispatch
apply_event-carried_status clock e c b road_id t is_bridge new found differs asks road unused =
    let settled : apply_event clock e (detached t)
        ≡ handle_bridge_status_changed clock e c (detached t) =
      rw new (ap (λ p. dispatch clock e p (detached t)) is_bridge) in
    subst (IsPassed road_id (carried_status c.new_status)) (sym settled)
      (bridge_event-IsPassed clock e c b road_id t found differs asks road unused)
