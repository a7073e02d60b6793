-- ===== src/Twin/Rule.antt =====
-- A proof rule for `apply_event`: what each kind of write keeps, every event keeps.
use ai_powered_respiratory_h.Base.{
  String, Bool, true, false, ◌≡◌, refl, Option, none, some, inl, inr, Bool-cases, continue,
  continue_keeps, pure, Dict, lookup, insert, Result, ok, raise, contains,
}
use ai_powered_respiratory_h.Overlay.{Overlay}
use ai_powered_respiratory_h.Twin.Events.{
  TwinEvent, Payload, RoadStatusChanged, BridgeStatusChanged, FacilityType, CapacityUpdated,
  FacilityStatusChanged, hospital_facility, shelter_facility, other_facility, IncidentCreated,
  IncidentStatusChanged,
}
use ai_powered_respiratory_h.Twin.Entities.{
  RoadEntity, BridgeEntity, HospitalEntity, ShelterEntity, IncidentEntity, FloodZoneEntity,
  PopulationEntity, VulnerableGroupEntity,
}
use ai_powered_respiratory_h.Twin.State.{Twin, commit_event, with_overlay, sync_road, sync_bridge}
use ai_powered_respiratory_h.Twin.Transitions.{
  apply_hospital_capacity_transition, apply_shelter_capacity_transition,
  apply_hospital_status_transition, apply_shelter_status_transition,
  apply_incident_status_transition,
}
use ai_powered_respiratory_h.Twin.Handling.{
  Clock, finish_no_op, report, conclude, finish_road, handle_road_status_changed, apply_road_event,
}
use ai_powered_respiratory_h.Twin.Apply.{
  apply_event, dispatch, settle, transition, cascade, finish_bridge, handle_bridge_status_changed,
  handle_capacity_updated, handle_facility_status_changed, handle_incident_created,
  handle_incident_status_changed, handle_flood_updated, handle_vulnerability_updated,
  handle_population_updated, cascade_target, cascaded_event, cascaded_change, created_incident,
  applied_ids,
}

-- The writes that handlers make. A facility is rewritten by a capacity or a status rule from the
-- entity that is registered; an incident by the status rule, or by its creation.
pub record Keeps (P : Twin → Type 0) : Type 0 where
  pub commit : (e : TwinEvent) (t : Twin) → P t → P (commit_event e t)
  pub seen :
      (id : String) (t : Twin)
      → P t
      → P (record t { seen_event_ids = insert id t.version t.seen_event_ids })
  pub overlay : (o : Option Overlay) (t : Twin) → P t → P (record t { routing_overlay = o })
  pub roads : (d : Dict RoadEntity) (t : Twin) → P t → P (record t { roads = d })
  pub bridges : (d : Dict BridgeEntity) (t : Twin) → P t → P (record t { bridges = d })
  pub flood_zones : (d : Dict FloodZoneEntity) (t : Twin) → P t → P (record t { flood_zones = d })
  pub populations : (d : Dict PopulationEntity) (t : Twin) → P t → P (record t { populations = d })
  pub vulnerable_groups :
      (d : Dict VulnerableGroupEntity) (t : Twin) → P t → P (record t { vulnerable_groups = d })
  pub hospital_capacity :
      (e : TwinEvent) (c : CapacityUpdated) (h h' : HospitalEntity) (t : Twin)
      → lookup c.facility_id t.hospitals ≡ some h
      → apply_hospital_capacity_transition h e c ≡ ok (h', false)
      → P t
      → P (record t { hospitals = insert c.facility_id h' t.hospitals })
  pub shelter_capacity :
      (e : TwinEvent) (c : CapacityUpdated) (s s' : ShelterEntity) (t : Twin)
      → lookup c.facility_id t.shelters ≡ some s
      → apply_shelter_capacity_transition s e c ≡ ok (s', false)
      → P t
      → P (record t { shelters = insert c.facility_id s' t.shelters })
  pub hospital_status :
      (e : TwinEvent) (c : FacilityStatusChanged) (h h' : HospitalEntity) (t : Twin)
      → lookup c.facility_id t.hospitals ≡ some h
      → apply_hospital_status_transition h e c ≡ ok (h', false)
      → P t
      → P (record t { hospitals = insert c.facility_id h' t.hospitals })
  pub shelter_status :
      (e : TwinEvent) (c : FacilityStatusChanged) (s s' : ShelterEntity) (t : Twin)
      → lookup c.facility_id t.shelters ≡ some s
      → apply_shelter_status_transition s e c ≡ ok (s', false)
      → P t
      → P (record t { shelters = insert c.facility_id s' t.shelters })
  pub incident_created :
      (e : TwinEvent) (c : IncidentCreated) (t : Twin)
      → P t
      → P (record t { incidents = insert c.incident_id (created_incident e c) t.incidents })
  pub incident_status :
      (e : TwinEvent) (c : IncidentStatusChanged) (i i' : IncidentEntity) (t : Twin)
      → lookup c.incident_id t.incidents ≡ some i
      → apply_incident_status_transition i e c ≡ ok (i', false)
      → P t
      → P (record t { incidents = insert c.incident_id i' t.incidents })

module _ {P : Twin → Type 0} (k : Keeps P) where
  keeps-no_op : (e : TwinEvent) (t : Twin) → P t → P (finish_no_op e t).1
  unfolding finish_no_op
  keeps-no_op e t h = k.seen e.event_id t h

  keeps-conclude :
      {A : Type 0} (e : TwinEvent) (write : A → Twin → Twin) (outcome : A × Bool) (t : Twin)
      → (outcome.1 ≡ false → P (write outcome.0 t))
      → P t
      → P (conclude e write outcome t).1
  unfolding conclude report
  keeps-conclude e write (updated, true) t written h = keeps-no_op e t h
  keeps-conclude e write (updated, false) t written h = k.commit e (write updated t) (written refl)

  keeps-settle :
      {A : Type 0} (e : TwinEvent) (write : A → Twin → Twin) (ran : Result (A × Bool)) (t : Twin)
      → ((b : A) → ran ≡ ok (b, false) → P (write b t))
      → P t
      → P (settle e write ran t).1
  unfolding settle
  keeps-settle e write (raise x) t written h = h
  keeps-settle e write (ok (b, no_op)) t written h =
      keeps-conclude e write (b, no_op) t (λ applied. written b (rw applied)) h

  keeps-transition :
      {A : Type 0} (e : TwinEvent) (rule : A → Result (A × Bool)) (write : A → Twin → Twin)
      (found : Option A) (t : Twin)
      → ((a b : A) → found ≡ some a → rule a ≡ ok (b, false) → P (write b t))
      → P t
      → P (transition e rule write found t).1
  unfolding transition
  keeps-transition e rule write none t written h = h
  keeps-transition e rule write (some a) t written h =
      keeps-settle e write (rule a) t (λ b ran. written a b refl ran) h

  keeps-finish_road :
      (e : TwinEvent) (c : RoadStatusChanged) (outcome : RoadEntity × Bool) (t : Twin)
      → P t
      → P (finish_road e c outcome t).1
  unfolding finish_road report
  keeps-finish_road e c (updated, true) t h = keeps-no_op e t h
  keeps-finish_road e c (updated, false) t h =
      let committed = commit_event e (record t { roads = insert c.road_id updated t.roads }) in
      continue_keeps P (with_overlay (sync_road updated) committed) _
        (k.overlay _ committed (k.commit e _ (k.roads _ t h)))
        (λ _ _. k.overlay _ committed (k.commit e _ (k.roads _ t h)))

  keeps-apply_road_event :
      (clock : Clock) (e : TwinEvent) (c : RoadStatusChanged) (t : Twin)
      → P t
      → P (apply_road_event clock e c t).1
  unfolding apply_road_event handle_road_status_changed
  keeps-apply_road_event clock e c t h = elim (Bool-cases (contains e.event_id t.seen_event_ids)) [
    | inl old ↦ rw old h
    | inr new ↦ rw new (keeps-finish_road e c _ _ (k.roads _ t h))
  ]

  pub keeps-cascade :
      (clock : Clock) (e : TwinEvent) (c : BridgeStatusChanged) (target : Option String) (t : Twin)
      → P t
      → P (cascade clock e c target t).1
  unfolding cascade
  keeps-cascade clock e c none t h = h
  keeps-cascade clock e c (some road_id) t h =
      let kept =
        keeps-apply_road_event clock (cascaded_event e c road_id) (cascaded_change c road_id) t h in
      continue_keeps P
        (apply_road_event clock (cascaded_event e c road_id) (cascaded_change c road_id) t)
        (λ done. pure (applied_ids e road_id done)) kept (λ _ _. kept)

  keeps-finish_bridge :
      (clock : Clock) (e : TwinEvent) (c : BridgeStatusChanged) (outcome : BridgeEntity × Bool)
      (t : Twin)
      → P t
      → P (finish_bridge clock e c outcome t).1
  unfolding finish_bridge report
  keeps-finish_bridge clock e c (updated, true) t h = keeps-no_op e t h
  keeps-finish_bridge clock e c (updated, false) t h =
      let committed =
        commit_event e (record t { bridges = insert c.bridge_id updated t.bridges }) in
      let synced = k.overlay _ committed (k.commit e _ (k.bridges _ t h)) in
      let spread = λ (_ : Unit {0}). cascade clock e c (cascade_target c updated) in
      let cascaded =
        continue_keeps P (with_overlay (sync_bridge updated) committed) spread synced
          (λ _ _. keeps-cascade clock e c (cascade_target c updated) _ synced) in
      continue_keeps P (continue (with_overlay (sync_bridge updated) committed) spread) (report e)
        cascaded (λ _ _. cascaded)

  keeps-handle_bridge :
      (clock : Clock) (e : TwinEvent) (c : BridgeStatusChanged) (t : Twin)
      → P t
      → P (handle_bridge_status_changed clock e c t).1
  unfolding handle_bridge_status_changed
  keeps-handle_bridge clock e c t h = keeps-finish_bridge _ e c _ _ (k.bridges _ t h)

  keeps-capacity :
      (e : TwinEvent) (c : CapacityUpdated) (kind : FacilityType) (t : Twin)
      → P t
      → P (handle_capacity_updated e c kind t).1
  unfolding handle_capacity_updated
  keeps-capacity e c hospital_facility t h =
      keeps-transition e _ _ (lookup c.facility_id t.hospitals) t
        (λ a b found ran. k.hospital_capacity e c a b t found ran h) h
  keeps-capacity e c shelter_facility t h =
      keeps-transition e _ _ (lookup c.facility_id t.shelters) t
        (λ a b found ran. k.shelter_capacity e c a b t found ran h) h
  keeps-capacity e c other_facility t h = h

  keeps-facility_status :
      (e : TwinEvent) (c : FacilityStatusChanged) (kind : FacilityType) (t : Twin)
      → P t
      → P (handle_facility_status_changed e c kind t).1
  unfolding handle_facility_status_changed
  keeps-facility_status e c hospital_facility t h =
      keeps-transition e _ _ (lookup c.facility_id t.hospitals) t
        (λ a b found ran. k.hospital_status e c a b t found ran h) h
  keeps-facility_status e c shelter_facility t h =
      keeps-transition e _ _ (lookup c.facility_id t.shelters) t
        (λ a b found ran. k.shelter_status e c a b t found ran h) h
  keeps-facility_status e c other_facility t h = h

  keeps-dispatch :
      (clock : Clock) (e : TwinEvent) (p : Payload) (t : Twin) → P t → P (dispatch clock e p t).1
  unfolding dispatch handle_road_status_changed handle_incident_created
      handle_incident_status_changed handle_flood_updated handle_vulnerability_updated
      handle_population_updated
  keeps-dispatch clock e (Payload.road_status_changed c) t h =
      keeps-finish_road e c _ _ (k.roads _ t h)
  keeps-dispatch clock e (Payload.bridge_status_changed c) t h = keeps-handle_bridge clock e c t h
  keeps-dispatch clock e (Payload.capacity_updated c) t h = keeps-capacity e c c.facility_type t h
  keeps-dispatch clock e (Payload.facility_status_changed c) t h =
      keeps-facility_status e c c.facility_type t h
  keeps-dispatch clock e (Payload.incident_created c) t h =
      keeps-conclude e _ _ t (λ _. k.incident_created e c t h) h
  keeps-dispatch clock e (Payload.incident_status_changed c) t h =
      keeps-transition e _ _ (lookup c.incident_id t.incidents) t
        (λ a b found ran. k.incident_status e c a b t found ran h) h
  keeps-dispatch clock e (Payload.flood_updated c) t h =
      keeps-conclude e _ _ t (λ _. k.flood_zones _ t h) h
  keeps-dispatch clock e (Payload.vulnerability_updated c) t h =
      keeps-conclude e _ _ t (λ _. k.vulnerable_groups _ t h) h
  keeps-dispatch clock e (Payload.population_updated c) t h =
      keeps-conclude e _ _ t (λ _. k.populations _ t h) h
  keeps-dispatch clock e Payload.unsupported t h = h

  -- Whether it returns or raises, `apply_event` keeps what every single write keeps.
  pub keeps-apply_event :
      (clock : Clock) (e : TwinEvent) (t : Twin) → P t → P (apply_event clock e t).1
  unfolding apply_event
  keeps-apply_event clock e t h = elim (Bool-cases (contains e.event_id t.seen_event_ids)) [
    | inl old ↦ rw old h
    | inr new ↦ rw new (keeps-dispatch clock e e.payload t h)
  ]
