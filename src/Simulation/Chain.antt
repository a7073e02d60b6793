-- ===== src/Simulation/Chain.antt =====
-- services/simulation/executor.py: the causal chain of a scenario.
use Prim.Native.String.{◌++◌ as concat}
use ai_powered_respiratory_h.Base.{
  ℕ, ◌+◌, String, ◌≡◌, arith, List, [], ◌∷◌, ◌++◌, Option, none, some, truthy, lookup, values,
  length, Action, ◌>>=◌, ◌>>◌, continue_keeps, Bool-cases, inl, inr, length-append, lift, modify,
}
use ai_powered_respiratory_h.Twin.Events.{hospital_facility, shelter_facility}
use ai_powered_respiratory_h.Twin.State.{Twin, TransitionResult}
use ai_powered_respiratory_h.Twin.Entities.{RoadEntity}
use ai_powered_respiratory_h.Twin.Handling.{Clock}
use ai_powered_respiratory_h.Twin.Apply.{apply_event}
use ai_powered_respiratory_h.Twin.Entities.{BridgeEntity}
use ai_powered_respiratory_h.Simulation.Models.{
  FloodLevel, Modification, flood_level, bridge_failure, hospital_capacity, shelter_capacity,
  resource_shortage, CausalStep, FacilityImpact,
}
use ai_powered_respiratory_h.Simulation.Executor.{
  Extent, FloodEngine, Run, add_changed, add_step, note_bridge, note_road, note_passed,
  note_facility, if_applied, apply_shortage, on_fork, bridge_event, facility_event,
}
use ai_powered_respiratory_h.Simulation.Preview.{
  close_road, close_roads, note_closures, flood_roads, raise_water, apply_modification,
  apply_modifications, closure_event, flood_event, hospital_baseline, shelter_baseline,
}

-- The steps are numbered from `n` on, one by one.
abbrev pub AreNumbered : ℕ → List CausalStep → Type 0
AreNumbered n [] = Unit
AreNumbered n (s ∷ ss) = (s.step_number ≡ n) × AreNumbered (n + 1) ss

pub AreNumbered-snoc :
    (n : ℕ) (ss : List CausalStep) (id : String) (k : ℕ)
    → AreNumbered n ss
    → k ≡ n + length ss
    → AreNumbered n (ss ++ record { step_number = k; affected_entity = id } ∷ [])
AreNumbered-snoc n [] id k h e = (omega (arith, e), tt)
AreNumbered-snoc n (s ∷ ss) id k (h, hs) e =
    (h, AreNumbered-snoc (n + 1) ss id k hs (omega (arith, e)))

-- The counter is the number that comes after those of the steps.
abbrev pub IsNumbered : Run → Type 0
IsNumbered run = AreNumbered 1 run.causal_steps × (run.step_counter ≡ 1 + length run.causal_steps)

pub add_step-IsNumbered : (id : String) (run : Run) → IsNumbered run → IsNumbered (add_step id run)
unfolding add_step
add_step-IsNumbered id run (h, e) = (
  AreNumbered-snoc 1 run.causal_steps id run.step_counter h e,
  omega (arith, e, length-append run.causal_steps _),
)

-- What an action leaves is numbered when what it starts from is.
abbrev Keeps : {A : Type 0} → Action Run A → Type 0
Keeps m = (run : Run) → IsNumbered run → IsNumbered (m run).1

Keeps-bind :
    {A B : Type 0} (m : Action Run A) (f : A → Action Run B)
    → Keeps m
    → ((a : A) → Keeps (f a))
    → Keeps (m >>= f)
Keeps-bind m f h rest run numbered =
    continue_keeps IsNumbered (m run) f (h run numbered) (λ a e. rest a (m run).1 (h run numbered))

note_passed-IsNumbered :
    (road : Option String) (run : Run) → IsNumbered run → IsNumbered (note_passed road run)
note_passed-IsNumbered none run h = h
note_passed-IsNumbered (some road) run h = add_step-IsNumbered road (add_changed road run) h

note_road-IsNumbered :
    (bridge : Option BridgeEntity) (run : Run) → IsNumbered run → IsNumbered (note_road bridge run)
note_road-IsNumbered none run h = h
note_road-IsNumbered (some b) run h = note_passed-IsNumbered (truthy b.road_id) run h

note_facility-IsNumbered :
    (impact : FacilityImpact) (run : Run) → IsNumbered run → IsNumbered (note_facility impact run)
note_facility-IsNumbered impact run h = add_step-IsNumbered impact.facility_id _ h

note_bridge-IsNumbered :
    (id : String) (run : Run) → IsNumbered run → IsNumbered (note_bridge id run)
note_bridge-IsNumbered id run h =
    note_road-IsNumbered (lookup id run.twin.bridges) (add_step id (add_changed id run))
      (add_step-IsNumbered id (add_changed id run) h)

if_applied-IsNumbered :
    (f : Run → Run) (result : TransitionResult)
    → ((r : Run) → IsNumbered r → IsNumbered (f r))
    → Keeps (if_applied f result)
if_applied-IsNumbered f result keeps run h = elim (Bool-cases result.applied) [
  | inl e ↦ rw e (keeps run h)
  | inr e ↦ rw e h
]

module _ (clock : Clock) (now : ℕ) (engine : FloodEngine) (scenario : String) where
  close_road-IsNumbered :
      (road : RoadEntity) (reason : Option (Option String))
      → Keeps (close_road clock now engine scenario road reason)
  close_road-IsNumbered road none = λ run h. h
  close_road-IsNumbered road (some reason) =
      Keeps-bind (on_fork (apply_event clock (closure_event now scenario road.road_id reason))) _
        (λ run h. h)
        (λ result run h. elim (Bool-cases result.applied) [ inl e ↦ rw e h | inr e ↦ rw e h ])

  close_roads-IsNumbered :
      (extent : Extent) (level : FloodLevel) (roads : List RoadEntity)
      → Keeps (close_roads clock now engine scenario extent level roads)
  close_roads-IsNumbered extent level [] = λ run h. h
  close_roads-IsNumbered extent level (road ∷ roads) =
      Keeps-bind
        (lift (engine.closure road extent level) >>= λ reason.
          close_road clock now engine scenario road reason)
        _
        (Keeps-bind (lift (engine.closure road extent level)) _ (λ run h. h)
          (λ reason. close_road-IsNumbered road reason))
        (λ closed.
          Keeps-bind (close_roads clock now engine scenario extent level roads) _
            (close_roads-IsNumbered extent level roads) (λ rest run h. h))

  note_closures-IsNumbered :
      (ids : List String) (run : Run)
      → IsNumbered run
      → IsNumbered (note_closures clock now engine ids run)
  note_closures-IsNumbered [] run h = h
  note_closures-IsNumbered (id ∷ ids) run h = add_step-IsNumbered _ run h

  flood_roads-IsNumbered :
      (extent : Extent) (level : FloodLevel)
      → Keeps (flood_roads clock now engine scenario extent level)
  flood_roads-IsNumbered extent level run =
      Keeps-bind (close_roads clock now engine scenario extent level (values run.twin.roads)) _
        (close_roads-IsNumbered extent level (values run.twin.roads))
        (λ closed. note_closures-IsNumbered closed) run

  raise_water-IsNumbered :
      (level : FloodLevel) → Keeps (raise_water clock now engine scenario level)
  raise_water-IsNumbered level =
      Keeps-bind (lift (engine.simulate scenario level)) _ (λ run h. h)
        (λ extent.
          Keeps-bind
            (on_fork (apply_event clock (flood_event now scenario extent))
              >> modify
                  (λ run. add_step extent.flood_zone_id (add_changed extent.flood_zone_id run)))
            _
            (Keeps-bind (on_fork (apply_event clock (flood_event now scenario extent))) _
              (λ run h. h) (λ result. λ run h. add_step-IsNumbered extent.flood_zone_id _ h))
            (λ u. flood_roads-IsNumbered extent level))

  apply_modification-IsNumbered :
      (live : Twin) (m : Modification) → Keeps (apply_modification clock now engine live scenario m)
  unfolding apply_modification apply_shortage
  apply_modification-IsNumbered live (bridge_failure id propagate) =
      Keeps-bind (on_fork (apply_event clock (bridge_event now scenario id propagate))) _
        (λ run h. h)
        (λ result. if_applied-IsNumbered (note_bridge id) result (note_bridge-IsNumbered id))
  apply_modification-IsNumbered live (hospital_capacity id room icu) =
      Keeps-bind
        (on_fork (
          apply_event clock (
            facility_event now (concat scenario "-H-") hospital_facility id
              (hospital_baseline (lookup id live.hospitals)).capacity room icu)))
        _ (λ run h. h) (λ result. if_applied-IsNumbered _ result (note_facility-IsNumbered _))
  apply_modification-IsNumbered live (shelter_capacity id room) =
      Keeps-bind
        (on_fork (
          apply_event clock (
            facility_event now (concat scenario "-S-") shelter_facility id
              (shelter_baseline (lookup id live.shelters)).capacity room none)))
        _ (λ run h. h) (λ result. if_applied-IsNumbered _ result (note_facility-IsNumbered _))
  apply_modification-IsNumbered live (resource_shortage kind quantity teams) =
      λ run h. add_step-IsNumbered kind _ h
  apply_modification-IsNumbered live (flood_level level) = raise_water-IsNumbered level

  pub apply_modifications-IsNumbered :
      (live : Twin) (ms : List Modification)
      → Keeps (apply_modifications clock now engine live scenario ms)
  unfolding apply_modifications
  apply_modifications-IsNumbered live [] = λ run h. h
  apply_modifications-IsNumbered live (m ∷ ms) =
      Keeps-bind (apply_modification clock now engine live scenario m) _
        (apply_modification-IsNumbered live m) (λ u. apply_modifications-IsNumbered live ms)
