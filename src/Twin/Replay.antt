-- ===== src/Twin/Replay.antt =====
-- Forks and replays against the live twin. The statements are for a twin without a routing overlay:
-- with one, restoring writes every road and bridge to the overlay first.
use ai_powered_respiratory_h.Base.{
  ℕ, ◌+◌, List, [], ◌∷◌, ◌≡◌, refl, true, Option, none, lookup, Dict, contains, ok, continue,
  modify, Action, pure, ap, ◌∙◌,
}
use ai_powered_respiratory_h.Overlay.{Overlay}
use ai_powered_respiratory_h.Twin.Events.{TwinEvent, Payload, IncidentCreated}
use ai_powered_respiratory_h.Twin.State.{
  Twin, new_twin, sync_all_roads_to_overlay, sync_each, sync_road, sync_bridge, commit_event,
}
use ai_powered_respiratory_h.Twin.Handling.{Clock, conclude, report}
use ai_powered_respiratory_h.Twin.Apply.{apply_event, dispatch, handle_incident_created}
use ai_powered_respiratory_h.Twin.Snapshot.{
  create_snapshot, restore_from_snapshot, apply_all, replay, fork, remember,
}

sync_each-none :
    {A : Type 0} (f : A → Action (Option Overlay) (Unit {0})) (d : Dict A)
    → ((a : A) → f a none ≡ (ok tt, none))
    → sync_each f d none ≡ (ok tt, none)
unfolding sync_each
sync_each-none f [] still = refl
sync_each-none f ((k, a) ∷ d) still = rw (still a) (sync_each-none f d still)

abbrev pub detached : Twin → Twin
detached t = record t { routing_overlay = none }

-- Without an overlay there is nothing to synchronise.
sync_all-none : (t : Twin) → sync_all_roads_to_overlay (detached t) ≡ (ok tt, detached t)
unfolding sync_all_roads_to_overlay
sync_all-none t = rw (
  sync_each-none sync_road t.roads (unfold sync_road in λ r. refl),
  sync_each-none sync_bridge t.bridges (unfold sync_bridge in λ b. refl),
)

-- A fork of a twin without an overlay is that twin: registries, version, log and seen identifiers.
pub fork_same : (now : ℕ) (t : Twin) → fork now none (detached t) ≡ (ok tt, detached t)
unfolding fork restore_from_snapshot create_snapshot new_twin
fork_same now t =
    ap (λ p. continue {A = Unit {0}} p (λ _. modify (remember t.event_log t.seen_event_ids)))
      (sync_all-none (record t { event_log = []; seen_event_ids = [] }))

-- A twin just restored, which has the registries and the version but no memory of events.
abbrev pub without_history : Twin → Twin
without_history t = record t { event_log = []; seen_event_ids = []; routing_overlay = none }

-- A replay without a routing overlay does what applying the events in turn does to a twin with the snapshot's
-- registries and version, no overlay and no event seen yet.
pub replay_live :
    (clock : Clock) (now : ℕ) (t : Twin) (events : List TwinEvent)
    → replay clock now (create_snapshot t) events none ≡ apply_all clock events (without_history t)
unfolding replay restore_from_snapshot create_snapshot new_twin
replay_live clock now t events =
    ap (λ p. continue {A = Unit {0}} p (λ _. apply_all clock events))
      (sync_all-none (record t { event_log = []; seen_event_ids = [] }))

created-version :
    (clock : Clock) (t : Twin) (e : TwinEvent) (c : IncidentCreated)
    → (continue {B = Unit {0}}
        (dispatch clock e (Payload.incident_created c) (without_history t))
        (λ _. pure tt)).1.version
      ≡ t.version + 1
unfolding dispatch handle_incident_created conclude report commit_event
created-version clock t e c = refl

applied_again :
    (clock : Clock) (t : Twin) (e : TwinEvent) (c : IncidentCreated)
    → e.payload ≡ Payload.incident_created c
    → (apply_all clock (e ∷ []) (without_history t)).1.version ≡ t.version + 1
unfolding apply_all apply_event lookup
applied_again clock t e c creates =
    ap
      (λ p.
        (continue {B = Unit {0}} (dispatch clock e p (without_history t)) (λ _. pure tt)).1.version)
      creates
    ∙ created-version clock t e c

-- An event that creates an incident and that the live twin has already seen: applied again it leaves
-- the live twin as it is, but a replay from the live twin's snapshot applies it once more and ends one
-- version ahead.
pub replay_reapplies :
    (clock : Clock) (now : ℕ) (t : Twin) (e : TwinEvent) (c : IncidentCreated)
    → e.payload ≡ Payload.incident_created c
    → contains e.event_id t.seen_event_ids ≡ true
    → ((apply_event clock e t).1 ≡ t)
      × ((replay clock now (create_snapshot t) (e ∷ []) none).1.version ≡ t.version + 1)
unfolding apply_event
replay_reapplies clock now t e c creates old = (
  rw old,
  ap (λ p. p.1.version) (replay_live clock now t (e ∷ [])) ∙ applied_again clock t e c creates,
)
