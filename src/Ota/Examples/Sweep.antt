-- ===== src/Ota/Examples/Sweep.antt =====
-- The small fleet under the supervisor and the reaper.
use nff_core.Prelude.{◌≡◌, refl, true, some, [], ◌∷◌, pos, map}
use nff_core.Float.{Float, is_zero}
use nff_core.Ota.Phases.{parse_phases}
use nff_core.Ota.Store.{Db}
use nff_core.Ota.Start.Released.{Spares}
use nff_core.Ota.Supervisor.{supervise_one, released}
use nff_core.Ota.Supervisor.Verdict.{supervise_one-Spares}
use nff_core.Ota.Supervisor.Looks.{Look, supervise_one_decides}
use nff_core.Ota.Reaper.{reaper_sweep}
use nff_core.Ota.Reaper.Timeouts.{reaped, reaper_sweep_exact}
use nff_core.Ota.Examples.{fleet, broken, roll, settings, at_100, three_keys, old_job, second_job}

supervise_one-Spares_example : Spares "roll" 1 fleet (supervise_one settings at_100 roll fleet)
supervise_one-Spares_example = supervise_one-Spares settings at_100 roll fleet three_keys

roll_phases : parse_phases roll.phases ≡ some (pos 50 ∷ pos 100 ∷ [])
unfolding parse_phases
roll_phases = refl

-- No device is in the first cohort.
abbrev thin : Db
thin = record fleet { jobs = old_job ∷ second_job ∷ [] }

none_released : released roll.id roll.current_phase thin ≡ []
unfolding released
none_released = refl

supervise_one_decides_example :
    Look settings at_100 roll
      (pos 50 ∷ pos 100 ∷ [])
      broken
      (supervise_one settings at_100 roll broken)
supervise_one_decides_example =
    supervise_one_decides settings at_100 roll (pos 50 ∷ pos 100 ∷ []) broken roll_phases

abbrev strictest : Float
strictest = record { units = 0 }

strictest-is_zero : is_zero strictest ≡ true
unfolding is_zero
strictest-is_zero = refl

reaper_sweep_exact_example :
    (reaper_sweep settings 100 fleet).0.jobs ≡ map (reaped 100 60) fleet.jobs
reaper_sweep_exact_example = reaper_sweep_exact settings 100 fleet three_keys
