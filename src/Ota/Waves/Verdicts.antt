-- ===== src/Ota/Waves/Verdicts.antt =====
-- What `_phase_decision` decides.
use nff_core.Prelude.{ℕ, ◌≤◌, ◌<◌, ◌≡◌, ◌↔◌, Bool, true, false, arith}
use nff_core.Float.{Float, div, lt_float}
use nff_core.Ota.Waves.{halt, advance, phase_decision}

module _ (total failures open_jobs : ℕ) (soaked is_last : Bool) (threshold : Float) where
  -- A cohort halts exactly if it released a job and its failure rate, as a double, is strictly over the
  -- threshold; neither the jobs still open nor the soak time have a say.
  pub halt_iff :
      (phase_decision total failures open_jobs soaked is_last threshold ≡ halt)
      ↔ ((0 < total) × (threshold.units < (div failures total).units))
  unfolding phase_decision lt_float
  halt_iff = ground arith

  -- A cohort advances exactly if it released a job, is not over the threshold, has no open job, has
  -- soaked, and is not the last one.
  pub advance_iff : (phase_decision total failures open_jobs soaked is_last threshold ≡ advance) ↔ (
      (0 < total)
      × ((div failures total).units ≤ threshold.units)
      × (open_jobs ≡ 0)
      × (soaked ≡ true)
      × (is_last ≡ false))
  unfolding phase_decision lt_float
  advance_iff = ground arith
