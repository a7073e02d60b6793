-- ===== src/Simulation/Repeats.antt =====
-- services/simulation/executor.py: two modifications of one hospital in a scenario.
use Prim.Native.String.{◌++◌ as concat}
use ai_powered_respiratory_h.Base.{
  ℕ, ◌∙◌, if◌then◌else◌, continue, Bool, String, ◌≡◌, refl, sym, ap, true, false, Option, Result,
  ok, raise,
}
use ai_powered_respiratory_h.Simulation.Models.{FacilityImpact}
use ai_powered_respiratory_h.Twin.State.{Twin, TransitionResult}
use ai_powered_respiratory_h.Twin.Events.{hospital_facility}
use ai_powered_respiratory_h.Twin.Handling.{Clock}
use ai_powered_respiratory_h.Twin.Apply.{apply_event}
use ai_powered_respiratory_h.Twin.Outcome.{apply_event_idempotent}
use ai_powered_respiratory_h.Simulation.Executor.{
  FloodEngine, Run, add_step, facility_event, facility_impact, note_facility, if_applied,
}
use ai_powered_respiratory_h.Simulation.Preview.{Baseline, change_hospital}

unchanged_fork :
    (f : Run → Run)
    → ((r : Run) → (f r).twin ≡ r.twin)
    → (applied : Bool) (r : Run) → (if applied then f r else r).twin ≡ r.twin
unchanged_fork f same true r = same r
unchanged_fork f same false r = refl

-- When the first event left `run'`, it was handled, and its twin is that of `run'`.
handled :
    (f : Run → Run)
    → ((r : Run) → (f r).twin ≡ r.twin)
    → (p : Result TransitionResult × Twin) (run run' : Run)
    → continue (p.0, record run { twin = p.1 }) (if_applied f) ≡ (ok tt, run')
    → (result : TransitionResult) × (p ≡ (ok result, run'.twin))
handled f same (ok result, t) run run' e =
    let stays = unchanged_fork f same result.applied (record run { twin = t }) in
    (result, ap (λ twin. (ok result, twin)) (sym stays ∙ ap (λ q. q.1.twin) e))
handled f same (raise x, t) run run' e = cc

note_facility_twin :
    (impact : FacilityImpact) (run : Run) → (note_facility impact run).twin ≡ run.twin
unfolding add_step
note_facility_twin impact run = refl

-- Once a scenario has changed a hospital, another change of it in the same scenario leaves everything
-- as it is, whatever its numbers: the two events have one identifier.
pub change_hospital_repeated :
    (clock : Clock) (now : ℕ) (engine : FloodEngine) (scenario id : String) (base base' : Baseline)
    (room room' : ℕ) (icu icu' : Option ℕ) (run run' : Run)
    → change_hospital clock now engine scenario base id room icu run ≡ (ok tt, run')
    → change_hospital clock now engine scenario base' id room' icu' run' ≡ (ok tt, run')
change_hospital_repeated clock now engine scenario id base base' room room' icu icu' run run' e =
    let mark = concat scenario "-H-" in
    let first = facility_event now mark hospital_facility id base.capacity room icu in
    let second = facility_event now mark hospital_facility id base'.capacity room' icu' in
    let (result, ran) =
      handled (note_facility (facility_impact id "HOSPITAL" base.name base.room room))
        (note_facility_twin _) (apply_event clock first run.twin) run run' e in
    rw (apply_event_idempotent clock clock first second run.twin run'.twin result ran refl) refl
