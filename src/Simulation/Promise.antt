-- ===== src/Simulation/Promise.antt =====
-- services/simulation/executor.py: what a preview that is returned promises.
use ai_powered_respiratory_h.Base.{
  ℕ, ◌≡◌, ◌⊎◌, inl, inr, refl, All, none, Result, ok, raise, Result-cases,
}
use ai_powered_respiratory_h.Base.Order.{text_leb, text_leb-total, IsArranged, arrange-IsArranged}
use ai_powered_respiratory_h.Twin.State.{Twin}
use ai_powered_respiratory_h.Twin.Handling.{Clock}
use ai_powered_respiratory_h.Twin.Snapshot.{fork}
use ai_powered_respiratory_h.Simulation.Models.{Scenario, Preview}
use ai_powered_respiratory_h.Simulation.Validator.{IsApplicable, validate_scenario_against_state}
use ai_powered_respiratory_h.Simulation.Applicable.{validate_scenario_iff}
use ai_powered_respiratory_h.Simulation.Executor.{FloodEngine, Run}
use ai_powered_respiratory_h.Simulation.Preview.{
  start, apply_modifications, run_preview, conclude_run, execute_preview,
}
use ai_powered_respiratory_h.Simulation.Chain.{
  AreNumbered, IsNumbered, apply_modifications-IsNumbered,
}

-- A report of scenario `s` on the twin as it is, with its steps in order and its identifiers sorted.
abbrev pub IsFaithful : Scenario → Twin → Result Preview → Type 0
IsFaithful s live (ok p) =
    (p.base_state_version ≡ live.version)
    × All (IsApplicable live) s.modifications
    × AreNumbered 1 p.causal_chain
    × IsArranged text_leb p.changed_entity_ids
IsFaithful s live (raise e) =
    (validate_scenario_against_state s live ≡ raise e)
    ⊎ (validate_scenario_against_state s live ≡ ok tt)

module _ (clock : Clock) (now : ℕ) (engine : FloodEngine) (s : Scenario) (live : Twin) where
  conclude_run-IsFaithful :
      validate_scenario_against_state s live ≡ ok tt
      → (r : Result (Unit {0}) × Run) → IsNumbered r.1
      → IsFaithful s live (conclude_run clock now engine s live r)
  conclude_run-IsFaithful valid (ok u, run) h =
      let known = (validate_scenario_iff s live).0 valid in
      (known.0, known.1, h.0, arrange-IsArranged text_leb text_leb-total _)
  conclude_run-IsFaithful valid (raise e, run) h = inr valid

  run_preview-IsFaithful :
      validate_scenario_against_state s live ≡ ok tt
      → (r : Result (Unit {0}) × Twin) → IsFaithful s live (run_preview clock now engine s live r)
  run_preview-IsFaithful valid (ok u, forked) =
      conclude_run-IsFaithful valid
        (apply_modifications clock now engine live s.scenario_id s.modifications
          (start clock now engine forked))
        (apply_modifications-IsNumbered clock now engine s.scenario_id live s.modifications
          (start clock now engine forked) (tt, refl))
  run_preview-IsFaithful valid (raise e, forked) = inr valid

  -- A preview that is returned names the version of the live twin, every one of its modifications is
  -- applicable to the live twin, its causal chain is numbered 1, 2, 3 and so on, and its changed
  -- identifiers are sorted. A preview that raises an exception was refused by the validation with that
  -- exception, or its scenario is valid.
  pub execute_preview-IsFaithful : IsFaithful s live (execute_preview clock now engine s live)
  unfolding execute_preview
  execute_preview-IsFaithful = elim (Result-cases (validate_scenario_against_state s live)) [
    | inl (u, e) ↦ rw e (run_preview-IsFaithful e (fork now none live))
    | inr (x, e) ↦ rw e (inl e)
  ]
