-- ===== src/Ota/Reports.antt =====
-- What devices and operators report of a job: report_device_status, finalize_ota_result and their
-- look-ups in observability/nff-ota/nff_ota/tools/deployments/ops.py.
pub mod Outcomes
use nff_core.Prelude.{
  update_where, ℕ, zero, suc, ◌+◌, Bool, true, false, not, ◌&&◌, ◌||◌, Option, none, some, List, [],
  ◌∷◌, String, ◌==◌, string_eq, ltb, leb, if◌then◌else◌, ◌≡◌, find, select, all, any, Result, ok,
  err,
}
use nff_core.Ota.Status.{DeploymentStatus, JobStatus, job_word, deployment_status_eq, job_status_eq}
use nff_core.Ota.Transitions.{validate_transition, TransitionError}
use nff_core.Ota.Store.{
  Db, Deployment, Job, Device, DeploymentInfo, dep_row_to_info, find_deployment, update_deployment,
  update_job, update_device, jobs_of, truthy, or_else,
}
use nff_core.Ota.Jobs.{is_terminal, is_failed, apply_job_status}

pub data ReportError : Type 0 where
  no_active_deployment : String → String → ReportError
  bad_transition : TransitionError → ReportError

find_job : String → String → Db → Option Job
find_job device_id deployment_id db =
    find (λ (j : Job). j.device_id == device_id && j.deployment_id == deployment_id) db.jobs

info_of : Option Deployment → Option DeploymentInfo
info_of none = none
info_of (some dep) = some (dep_row_to_info dep)

report_checked :
    ℕ
    → Job
    → JobStatus
    → String
    → String
    → Db
    → Result TransitionError (Unit {0})
    → Db × Result ReportError (Option DeploymentInfo)
unfolding info_of
report_checked now job status device_id deployment_id db (err e) = (db, err (bad_transition e))
report_checked now job status device_id deployment_id db (ok _) =
    let attempts = if status == JobStatus.downloading then job.attempts + 1 else job.attempts in
    let db' =
      apply_job_status now job status deployment_id device_id
        (λ (j : Job). record j { attempts = attempts }) db in
    (db', ok (info_of (find_deployment deployment_id db')))

report_found :
    ℕ
    → Option Job
    → JobStatus
    → String
    → String
    → Db
    → Db × Result ReportError (Option DeploymentInfo)
unfolding report_checked
report_found now none status device_id deployment_id db =
    (db, err (no_active_deployment deployment_id device_id))
report_found now (some job) status device_id deployment_id db =
    report_checked now job status device_id deployment_id db
      (validate_transition "device_deployment" (job_word job.status) (job_word status))

-- report_device_status
unfoldable pub report_device_status :
    ℕ → String → String → JobStatus → Db → Db × Result ReportError (Option DeploymentInfo)
unfolding find_job report_found
report_device_status now device_id deployment_id status db =
    report_found now (find_job device_id deployment_id db) status device_id deployment_id db

newer : Job → Option Job → Option Job
newer j none = some j
newer j (some k) = if ltb j.last_updated k.last_updated then some k else some j

latest : List Job → Option Job
unfolding newer
latest [] = none
latest (j ∷ js) = newer j (latest js)

first_of_two : Option Job → Option Job → Option Job
first_of_two none other = other
first_of_two (some j) other = some j

-- _find_active_job: the newest open job for the reported version, else the newest open job. The
-- filter goes before the order here; of two jobs of one moment the first row counts as the newer.
unfoldable pub find_active_job : String → String → Db → Option Job
unfolding latest first_of_two
find_active_job device_id version db =
    first_of_two
      (latest (
        select
          (λ (j : Job).
            j.device_id == device_id && j.target_version == version && not (is_terminal j.status))
          db.jobs))
      (latest
        (select (λ (j : Job). j.device_id == device_id && not (is_terminal j.status)) db.jobs))

device_id_of : Option Device → Option String
device_id_of none = none
device_id_of (some d) = some d.id

has_mqtt : String → Option String → Bool
has_mqtt reported none = false
has_mqtt reported (some m) = m == reported

resolve_from : String → Option Device → Option Device → Option String
unfolding device_id_of
resolve_from reported none by_mqtt = device_id_of by_mqtt
resolve_from reported (some d) by_mqtt = some reported

-- _resolve_device_id
unfoldable pub resolve_device_id : String → Db → Option String
unfolding resolve_from has_mqtt
resolve_device_id reported db =
    resolve_from reported (find (λ (d : Device). d.id == reported) db.devices)
      (find (λ (d : Device). has_mqtt reported d.mqtt_id) db.devices)

pub data Finalized : Type 0 where
  device_not_found : String → Finalized
  no_active_job : String → String → Finalized
  finalized : String → String → String → JobStatus → Finalized

-- The `extra_update` of a failure with a reason
with_reason : JobStatus → Option String → Job → Job
with_reason JobStatus.failure (some reason) j = record j { failure_reason = some reason }
with_reason _ reason j = j

finalize_job : ℕ → Option Job → JobStatus → String → String → Option String → Db → Db × Finalized
unfolding with_reason
finalize_job now none new_status device_id version reason db = (db, no_active_job device_id version)
finalize_job now (some job) new_status device_id version reason db = (
  apply_job_status now job new_status job.deployment_id device_id
      (with_reason new_status (truthy reason)) db,
  finalized device_id job.deployment_id job.id new_status,
)

finalize_on : ℕ → Option String → String → JobStatus → String → Option String → Db → Db × Finalized
unfolding finalize_job
finalize_on now none device_id new_status version reason db = (db, device_not_found device_id)
finalize_on now (some ota_device_id) device_id new_status version reason db =
    finalize_job now (find_active_job ota_device_id version db) new_status ota_device_id version
      reason db

-- finalize_ota_result
unfoldable pub finalize_ota_result :
    ℕ → String → String → String → Option String → Db → Db × Finalized
unfolding finalize_on
finalize_ota_result now device_id status version reason db =
    finalize_on now (resolve_device_id device_id db) device_id
      (if status == "committed" then JobStatus.success else JobStatus.failure) version reason db
