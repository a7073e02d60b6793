-- ===== src/Twin/Outcome.antt =====
-- What a result of `apply_event` says of the twin that it leaves.
use ai_powered_respiratory_h.Base.{
  ℕ, ◌+◌, ◌<◌, String, Bool, true, false, List, [], ◌≡◌, refl, ap, Option, none, some, inl, inr,
  Bool-cases, arith, insert, contains-insert, contains-insert_self, contains, Result, ok, raise,
  continue, continue_ensures, continue_keeps, if◌then◌else◌,
}
use ai_powered_respiratory_h.Twin.Events.{
  TwinEvent, Payload, RoadStatusChanged, BridgeStatusChanged, FacilityType, CapacityUpdated,
  FacilityStatusChanged, hospital_facility, shelter_facility, other_facility,
}
use ai_powered_respiratory_h.Twin.Entities.{RoadEntity, BridgeEntity}
use ai_powered_respiratory_h.Twin.State.{
  Twin, TransitionResult, commit_event, with_overlay, sync_road, sync_bridge,
}
use ai_powered_respiratory_h.Twin.Rule.{Keeps, keeps-cascade}
use ai_powered_respiratory_h.Twin.Handling.{
  Clock, finish_no_op, report, conclude, finish_road, handle_road_status_changed,
}
use ai_powered_respiratory_h.Twin.Apply.{
  apply_event, dispatch, settle, transition, cascade, finish_bridge, handle_bridge_status_changed,
  handle_capacity_updated, handle_facility_status_changed, handle_incident_created,
  handle_incident_status_changed, handle_flood_updated, handle_vulnerability_updated,
  handle_population_updated, cascade_target,
}

-- The identifier is seen, and the version is past `version`.
abbrev pub IsPast : ℕ → String → Twin → Type 0
IsPast version id t = (version < t.version) × (contains id t.seen_event_ids ≡ true)

-- A result that says "applied" comes with a new version; any other leaves the version, the log and
-- the registries' version alone. Either way the event is seen from then on.
abbrev pub IsAccounted : TwinEvent → Twin → Result TransitionResult × Twin → Type 0
IsAccounted e t (raise x, t') = Unit
IsAccounted e t (ok r, t') =
    (contains e.event_id t'.seen_event_ids ≡ true)
    × (r.state_version ≡ t'.version)
    × (if r.applied
        then t.version < t'.version
        else (t'.version ≡ t.version) × (t'.event_log ≡ t.event_log))

commit_event-IsPast :
    (version : ℕ) (e : TwinEvent) (t : Twin)
    → t.version ≡ version
    → IsPast version e.event_id (commit_event e t)
unfolding commit_event
commit_event-IsPast version e t same =
    (omega arith, contains-insert_self e.event_id (t.version + 1) t.seen_event_ids)

Keeps-IsPast : (version : ℕ) (id : String) → Keeps (IsPast version id)
unfolding commit_event
Keeps-IsPast version id = record {
  commit =
      λ e t h. (omega arith, contains-insert e.event_id id (t.version + 1) t.seen_event_ids h.1);
  seen = λ other t h. (h.0, contains-insert other id t.version t.seen_event_ids h.1);
  overlay = λ o t h. h;
  roads = λ d t h. h;
  bridges = λ d t h. h;
  flood_zones = λ d t h. h;
  populations = λ d t h. h;
  vulnerable_groups = λ d t h. h;
  hospital_capacity = λ e c a b t found ran h. h;
  shelter_capacity = λ e c a b t found ran h. h;
  hospital_status = λ e c a b t found ran h. h;
  shelter_status = λ e c a b t found ran h. h;
  incident_created = λ e c t h. h;
  incident_status = λ e c a b t found ran h. h;
}

report-IsAccounted :
    (e : TwinEvent) (t t' : Twin) (ids : List String)
    → IsPast t.version e.event_id t'
    → IsAccounted e t (report e ids t')
unfolding report
report-IsAccounted e t t' ids past = (past.1, refl, past.0)

-- Two twins at one version with one log.
abbrev SameLog : Twin → Twin → Type 0
SameLog t s = (s.version ≡ t.version) × (s.event_log ≡ t.event_log)

finish_no_op-IsAccounted :
    (e : TwinEvent) (t s : Twin) → SameLog t s → IsAccounted e t (finish_no_op e s)
unfolding finish_no_op
finish_no_op-IsAccounted e t s same =
    (contains-insert_self e.event_id _ s.seen_event_ids, refl, same)

conclude-IsAccounted :
    {A : Type 0} (e : TwinEvent) (write : A → Twin → Twin) (outcome : A × Bool) (t : Twin)
    → ((a : A) → (write a t).version ≡ t.version)
    → IsAccounted e t (conclude e write outcome t)
unfolding conclude
conclude-IsAccounted e write (updated, true) t same = finish_no_op-IsAccounted e t t (refl, refl)
conclude-IsAccounted e write (updated, false) t same =
    report-IsAccounted e t _ [] (commit_event-IsPast t.version e (write updated t) (same updated))

settle-IsAccounted :
    {A : Type 0} (e : TwinEvent) (write : A → Twin → Twin) (ran : Result (A × Bool)) (t : Twin)
    → ((a : A) → (write a t).version ≡ t.version)
    → IsAccounted e t (settle e write ran t)
unfolding settle
settle-IsAccounted e write (raise x) t same = tt
settle-IsAccounted e write (ok outcome) t same = conclude-IsAccounted e write outcome t same

transition-IsAccounted :
    {A : Type 0} (e : TwinEvent) (rule : A → Result (A × Bool)) (write : A → Twin → Twin)
    (found : Option A) (t : Twin)
    → ((a : A) → (write a t).version ≡ t.version)
    → IsAccounted e t (transition e rule write found t)
unfolding transition
transition-IsAccounted e rule write none t same = tt
transition-IsAccounted e rule write (some a) t same = settle-IsAccounted e write (rule a) t same

finish_road-IsAccounted :
    (e : TwinEvent) (c : RoadStatusChanged) (outcome : RoadEntity × Bool) (t s : Twin)
    → SameLog t s
    → IsAccounted e t (finish_road e c outcome s)
unfolding finish_road
finish_road-IsAccounted e c (updated, true) t s same = finish_no_op-IsAccounted e t s same
finish_road-IsAccounted e c (updated, false) t s same =
    let committed = commit_event e (record s { roads = insert c.road_id updated s.roads }) in
    let past =
      commit_event-IsPast t.version e (record s { roads = insert c.road_id updated s.roads })
        same.0 in
    continue_ensures (IsAccounted e t) (with_overlay (sync_road updated) committed)
      (λ _. report e []) (λ x s. tt) (λ _ _. report-IsAccounted e t _ [] past)

finish_bridge-IsAccounted :
    (clock : Clock) (e : TwinEvent) (c : BridgeStatusChanged) (outcome : BridgeEntity × Bool)
    (t s : Twin)
    → SameLog t s
    → IsAccounted e t (finish_bridge clock e c outcome s)
unfolding finish_bridge
finish_bridge-IsAccounted clock e c (updated, true) t s same = finish_no_op-IsAccounted e t s same
finish_bridge-IsAccounted clock e c (updated, false) t s same =
    let written = record s { bridges = insert c.bridge_id updated s.bridges } in
    let committed = commit_event e written in
    let target = cascade_target c updated in
    let past : IsPast t.version e.event_id committed =
      commit_event-IsPast t.version e written same.0 in
    let spread = λ (_ : Unit {0}). cascade clock e c target in
    let spread_past =
      continue_keeps (IsPast t.version e.event_id) (with_overlay (sync_bridge updated) committed)
        spread past
        (λ _ _. keeps-cascade (Keeps-IsPast t.version e.event_id) clock e c target _ past) in
    continue_ensures (IsAccounted e t)
      (continue (with_overlay (sync_bridge updated) committed) spread) (report e) (λ x s. tt)
      (λ ids _. report-IsAccounted e t _ ids spread_past)

facility-IsAccounted :
    (e : TwinEvent) (c : CapacityUpdated) (kind : FacilityType) (t : Twin)
    → IsAccounted e t (handle_capacity_updated e c kind t)
unfolding handle_capacity_updated
facility-IsAccounted e c hospital_facility t = transition-IsAccounted e _ _ _ t (λ a. refl)
facility-IsAccounted e c shelter_facility t = transition-IsAccounted e _ _ _ t (λ a. refl)
facility-IsAccounted e c other_facility t = tt

status-IsAccounted :
    (e : TwinEvent) (c : FacilityStatusChanged) (kind : FacilityType) (t : Twin)
    → IsAccounted e t (handle_facility_status_changed e c kind t)
unfolding handle_facility_status_changed
status-IsAccounted e c hospital_facility t = transition-IsAccounted e _ _ _ t (λ a. refl)
status-IsAccounted e c shelter_facility t = transition-IsAccounted e _ _ _ t (λ a. refl)
status-IsAccounted e c other_facility t = tt

dispatch-IsAccounted :
    (clock : Clock) (e : TwinEvent) (p : Payload) (t : Twin)
    → IsAccounted e t (dispatch clock e p t)
unfolding dispatch handle_road_status_changed handle_bridge_status_changed handle_incident_created
    handle_incident_status_changed handle_flood_updated handle_vulnerability_updated
    handle_population_updated
dispatch-IsAccounted clock e (Payload.road_status_changed c) t =
    finish_road-IsAccounted e c _ t _ (refl, refl)
dispatch-IsAccounted clock e (Payload.bridge_status_changed c) t =
    finish_bridge-IsAccounted _ e c _ t _ (refl, refl)
dispatch-IsAccounted clock e (Payload.capacity_updated c) t =
    facility-IsAccounted e c c.facility_type t
dispatch-IsAccounted clock e (Payload.facility_status_changed c) t =
    status-IsAccounted e c c.facility_type t
dispatch-IsAccounted clock e (Payload.incident_created c) t =
    conclude-IsAccounted e _ _ t (λ a. refl)
dispatch-IsAccounted clock e (Payload.incident_status_changed c) t =
    transition-IsAccounted e _ _ _ t (λ a. refl)
dispatch-IsAccounted clock e (Payload.flood_updated c) t = conclude-IsAccounted e _ _ t (λ a. refl)
dispatch-IsAccounted clock e (Payload.vulnerability_updated c) t =
    conclude-IsAccounted e _ _ t (λ a. refl)
dispatch-IsAccounted clock e (Payload.population_updated c) t =
    conclude-IsAccounted e _ _ t (λ a. refl)
dispatch-IsAccounted clock e Payload.unsupported t = tt

-- When `apply_event` returns, the event's identifier is seen, the result carries the version that the
-- twin is left at, and "applied" means that the version grew; otherwise version and log are as they
-- were.
pub apply_event-IsAccounted :
    (clock : Clock) (e : TwinEvent) (t : Twin) → IsAccounted e t (apply_event clock e t)
unfolding apply_event
apply_event-IsAccounted clock e t = elim (Bool-cases (contains e.event_id t.seen_event_ids)) [
  | inl old ↦ rw old (old, refl, (refl, refl))
  | inr new ↦ rw new (dispatch-IsAccounted clock e e.payload t)
]

seen_after :
    (e : TwinEvent) (t : Twin) (p : Result TransitionResult × Twin) {r : TransitionResult}
    {t' : Twin}
    → p ≡ (ok r, t')
    → IsAccounted e t p
    → contains e.event_id t'.seen_event_ids ≡ true
seen_after e t (ok r, s) eq h = rw (← ap (λ p. p.1.seen_event_ids) eq) h.0
seen_after e t (raise x, s) eq h = cc

-- Idempotency: once an event was applied or ignored, any event with its identifier, whatever its
-- content, is reported as a duplicate at the present version and leaves the twin as it is.
pub apply_event_idempotent :
    (clock clock' : Clock) (e e' : TwinEvent) (t t' : Twin) (r : TransitionResult)
    → apply_event clock e t ≡ (ok r, t')
    → e'.event_id ≡ e.event_id
    → apply_event clock' e' t' ≡ (
      ok (record {
        event_id = e'.event_id;
        applied = false;
        state_version = t'.version;
        is_duplicate = true;
        is_no_op = false;
        cascaded_event_ids = [];
      }),
      t',
    )
unfolding apply_event
apply_event_idempotent clock clock' e e' t t' r ran same =
    rw (same, seen_after e t (apply_event clock e t) ran (apply_event-IsAccounted clock e t))
