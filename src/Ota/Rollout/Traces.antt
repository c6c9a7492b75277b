-- ===== src/Ota/Rollout/Traces.antt =====
-- What no sequence of events can do to the jobs.
use nff_core.Prelude.{List, [], ◌∷◌}
use nff_core.Ota.Store.{Db, Settings}
use nff_core.Ota.Settled.{Settled, Keeps, Keeps-refl, Keeps-trans, HasJobKeys, Keeps-keys}
use nff_core.Ota.Reports.Outcomes.{finalize-Keeps}
use nff_core.Ota.Progress.Ticks.{progress-Keeps}
use nff_core.Ota.Start.Released.{start_deployment-Spares, Spares-Keeps}
use nff_core.Ota.Control.Aborts.{abort_deployment-Keeps, resume_deployment-Keeps}
use nff_core.Ota.Supervisor.Sweep.{supervisor_sweep-Keeps}
use nff_core.Ota.Reaper.Timeouts.{reaper_sweep-Keeps}
use nff_core.Ota.Devices.Enrollment.{decommission_device-Keeps}
use nff_core.Ota.Rollout.{
  Event, supervisor_tick, reaper_tick, ota_result, ota_progress, start, abort, resume, decommission,
  step, run,
}

module _ (settings : Settings) where
  step-Keeps : (e : Event) (db : Db) → HasJobKeys db → Keeps db (step settings e db)
  unfolding step
  step-Keeps (supervisor_tick out) db keys = supervisor_sweep-Keeps settings out db keys
  step-Keeps (reaper_tick now) db keys = reaper_sweep-Keeps settings now db keys
  step-Keeps (ota_result now d s v r) db keys = finalize-Keeps now d s v r db keys
  step-Keeps (ota_progress now d v s p a) db keys = progress-Keeps now d v s p a db keys
  step-Keeps (start out id force) db keys =
      Spares-Keeps id _ db _ (start_deployment-Spares settings out force id db keys)
  step-Keeps (abort id) db keys = abort_deployment-Keeps id db
  step-Keeps (resume now id) db keys = resume_deployment-Keeps now id db
  step-Keeps (decommission id) db keys = decommission_device-Keeps id db

  -- With distinct job ids, through any sequence of sweeps, device messages, starts, aborts, resumes and decommissionings, no job is lost or added,
  -- and the outcome of a job that has ended never changes.
  pub run-Keeps :
      (events : List Event) (db : Db) → HasJobKeys db → Keeps db (run settings events db)
  unfolding run
  run-Keeps [] db keys = Keeps-refl db
  run-Keeps (e ∷ es) db keys =
      let first = step-Keeps e db keys in
      Keeps-trans first
        (run-Keeps es (step settings e db) (Keeps-keys db (step settings e db) first keys))
