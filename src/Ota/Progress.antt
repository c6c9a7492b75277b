-- ===== src/Ota/Progress.antt =====
-- Progress ticks of a device in mid-flight: record_ota_progress of
-- observability/nff-ota/nff_ota/tools/deployments/ops.py.
pub mod Ticks
use nff_core.Prelude.{
  update_where, ℕ, zero, suc, ◌+◌, Bool, true, false, not, ◌&&◌, ◌||◌, Option, none, some, List, [],
  ◌∷◌, String, ◌==◌, string_eq, ltb, leb, if◌then◌else◌, ◌≡◌, find, select, all, any, Result, ok,
  err,
}
use nff_core.Ota.Status.{DeploymentStatus, JobStatus, job_word, deployment_status_eq, job_status_eq}
use nff_core.Ota.Transitions.{validate_transition, TransitionError}
use nff_core.Ota.Store.{
  Db, Deployment, Job, Device, DeploymentInfo, dep_row_to_info, find_deployment, update_deployment,
  update_job, update_device, jobs_of, truthy, or_else,
}
use nff_core.Ota.Jobs.{is_terminal, is_failed, apply_job_status}
use nff_core.Ota.Reports.{find_active_job, resolve_device_id}

pub data Recorded : Type 0 where
  unknown_stage device_not_found no_active_job : Recorded
  illegal_transition not_downloading : JobStatus → Recorded
  recorded : String → JobStatus → Recorded

-- _PROGRESS_STAGES, with the status that each stage stands for
stage_status : String → Option JobStatus
stage_status stage =
    if stage == "downloading"
    then some JobStatus.downloading
    else if stage == "installing"
    then some JobStatus.installing
    else if stage == "rebooting"
    then some JobStatus.rebooting
    else none

step_checked : ℕ → Job → JobStatus → String → Db → Result TransitionError (Unit {0}) → Db × Recorded
step_checked now job stage device_id db (err e) = (db, illegal_transition job.status)
step_checked now job stage device_id db (ok _) = (
  apply_job_status now job stage job.deployment_id device_id
      (λ (j : Job). record j { progress = 100 }) db,
  recorded job.id stage,
)

-- The branch for "installing" and "rebooting"
record_step : ℕ → Job → JobStatus → String → Db → Db × Recorded
unfolding step_checked
record_step now job stage device_id db =
    if job.status == stage
    then (db, recorded job.id stage)
    else step_checked now job stage device_id db
        (validate_transition "device_deployment" (job_word job.status) (job_word stage))

attempt_bumped : Option ℕ → ℕ → Bool
attempt_bumped none attempts = false
attempt_bumped (some a) attempts = ltb attempts a

new_progress : Option ℕ → ℕ → Bool → ℕ
new_progress none old bumped = old
new_progress (some p) old bumped = if leb p 100 && (leb old p || bumped) then p else old

-- The single-row update of a "downloading" tick. A number below zero has the effect of none.
unfoldable pub tick_job : ℕ → Option ℕ → Option ℕ → Job → Job
unfolding attempt_bumped new_progress
tick_job now progress attempt j =
    let bumped = attempt_bumped attempt j.attempts in
    record j {
      last_updated = now;
      status = JobStatus.downloading;
      attempts = if bumped then or_else attempt j.attempts else j.attempts;
      progress = new_progress progress j.progress bumped;
    }

record_tick : ℕ → Job → Option ℕ → Option ℕ → Db → Db × Recorded
record_tick now job progress attempt db =
    if job.status == JobStatus.pending || job.status == JobStatus.downloading
    then (
      update_job job.id (tick_job now progress attempt) db,
      recorded job.id JobStatus.downloading,
    )
    else (db, not_downloading job.status)

record_stage : ℕ → Job → JobStatus → String → Option ℕ → Option ℕ → Db → Db × Recorded
unfolding record_tick record_step
record_stage now job JobStatus.downloading device_id progress attempt db =
    record_tick now job progress attempt db
record_stage now job stage device_id progress attempt db = record_step now job stage device_id db

record_job : ℕ → Option Job → JobStatus → String → Option ℕ → Option ℕ → Db → Db × Recorded
unfolding record_stage
record_job now none stage device_id progress attempt db = (db, no_active_job)
record_job now (some job) stage device_id progress attempt db =
    record_stage now job stage device_id progress attempt db

record_on : ℕ → Option String → JobStatus → String → Option ℕ → Option ℕ → Db → Db × Recorded
unfolding record_job
record_on now none stage version progress attempt db = (db, device_not_found)
record_on now (some device_id) stage version progress attempt db =
    record_job now (find_active_job device_id version db) stage device_id progress attempt db

record_known : ℕ → Option JobStatus → String → String → Option ℕ → Option ℕ → Db → Db × Recorded
unfolding record_on
record_known now none device_id version progress attempt db = (db, unknown_stage)
record_known now (some stage) device_id version progress attempt db =
    record_on now (resolve_device_id device_id db) stage version progress attempt db

-- record_ota_progress
unfoldable pub record_ota_progress :
    ℕ → String → String → String → Option ℕ → Option ℕ → Db → Db × Recorded
unfolding stage_status record_known
record_ota_progress now device_id version stage progress attempt db =
    record_known now (stage_status stage) device_id version progress attempt db
