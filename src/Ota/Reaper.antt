-- ===== src/Ota/Reaper.antt =====
-- The sweep that times out stuck jobs, observability/nff-ota/nff_ota/reaper.py.
pub mod Timeouts
use nff_core.Prelude.{
  ℕ, zero, suc, ◌+◌, ◌*◌, ◌-◌, Bool, true, false, not, ◌&&◌, ◌||◌, Option, none, some, List, [],
  ◌∷◌, String, ◌==◌, string_eq, ltb, leb, if◌then◌else◌, count, length, select, any, find,
  get_elem?, ℤ, Result, ok, err,
}
use nff_core.Float.{Float, is_zero}
use nff_core.Ota.Status.{DeploymentStatus, JobStatus, deployment_status_eq, job_status_eq}
use nff_core.Ota.Phases.{parse_phases}
use nff_core.Ota.Waves.{Decision, halt, advance, wait, phase_decision}
use nff_core.Ota.Store.{
  Db, Deployment, Job, Settings, HaltReason, find_deployment, update_deployment, update_job, truthy,
}
use nff_core.Ota.Jobs.{is_terminal, is_failed, recompute}
use nff_core.Ota.Delivery.{Outside, StartResult}
use nff_core.Ota.Start.{deliver_wave, start_deployment}
use nff_core.Ota.Gate.{GateError}
use nff_core.Ota.Creation.{Fresh, materialize_jobs}

-- A job in flight whose last sign of life is older than the download timeout
unfoldable pub is_stuck : ℕ → ℕ → Job → Bool
is_stuck now timeout j =
    (j.status == JobStatus.downloading
      || j.status == JobStatus.installing
      || j.status == JobStatus.rebooting)
    && ltb (j.last_updated + timeout) now

unfoldable pub timed : ℕ → Job → Job
timed now j = record j { status = JobStatus.timed_out; last_updated = now }

time_out : ℕ → List Job → Db → Db
time_out now [] db = db
time_out now (j ∷ js) db = time_out now js (update_job j.id (timed now) db)

-- The set `deployment_ids`, in the order of its first members
owners : List Job → List String → List String
owners [] seen = seen
owners (j ∷ js) seen = owners js (
    if j.deployment_id == "" || any (λ d. d == j.deployment_id) seen
    then seen
    else j.deployment_id ∷ seen)

recompute_all : List String → Db → Db
recompute_all [] db = db
recompute_all (id ∷ ids) db = recompute_all ids (recompute id db)

-- reaper.sweep_once
unfoldable pub reaper_sweep : Settings → ℕ → Db → Db × ℕ
unfolding time_out owners recompute_all
reaper_sweep settings now db =
    let stuck = select (is_stuck now settings.download_timeout) db.jobs in
    (recompute_all (owners stuck []) (time_out now stuck db), length stuck)
