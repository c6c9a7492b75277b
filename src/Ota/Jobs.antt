-- ===== src/Ota/Jobs.antt =====
-- Job states and their roll-up into the deployment: _apply_job_status and
-- _recompute_deployment_status of observability/nff-ota/nff_ota/tools/deployments/ops.py.
pub mod Rollup
use nff_core.Prelude.{
  update_where, ℕ, zero, suc, ◌+◌, Bool, true, false, not, ◌&&◌, ◌||◌, Option, none, some, List, [],
  ◌∷◌, String, ◌==◌, string_eq, ltb, leb, if◌then◌else◌, ◌≡◌, find, select, all, any, Result, ok,
  err,
}
use nff_core.Ota.Status.{DeploymentStatus, JobStatus, job_word, deployment_status_eq, job_status_eq}
use nff_core.Ota.Transitions.{validate_transition, TransitionError}
use nff_core.Ota.Store.{
  Db, Deployment, Job, Device, DeploymentInfo, dep_row_to_info, find_deployment, update_deployment,
  update_job, update_device, jobs_of, truthy, or_else,
}

-- _TERMINAL_DD
abbrev pub is_terminal : JobStatus → Bool
is_terminal JobStatus.success = true
is_terminal JobStatus.already_installed = true
is_terminal JobStatus.aborted = true
is_terminal JobStatus.decommissioned = true
is_terminal JobStatus.failure = true
is_terminal JobStatus.timed_out = true
is_terminal _ = false

-- _FAILED_DD
abbrev pub is_failed : JobStatus → Bool
is_failed JobStatus.failure = true
is_failed JobStatus.timed_out = true
is_failed _ = false

-- _NO_FINISH_DEP
abbrev pub is_no_finish : DeploymentStatus → Bool
is_no_finish DeploymentStatus.finished = true
is_no_finish DeploymentStatus.aborted = true
is_no_finish DeploymentStatus.paused = true
is_no_finish _ = false

unfoldable pub all_done : List Job → Bool
all_done [] = false
all_done (j ∷ js) = all (λ (k : Job). is_terminal k.status) (j ∷ js)

read_status : Option Deployment → List Job → Option DeploymentStatus
unfolding all_done
read_status none jobs = none
read_status (some dep) jobs =
    if is_no_finish dep.status then none else if all_done jobs then some dep.status else none

-- _recompute_deployment_status up to its write: the status it read, where all jobs are done
unfoldable pub recompute_read : String → Db → Option DeploymentStatus
unfolding read_status
recompute_read deployment_id db =
    read_status (find_deployment deployment_id db) (jobs_of deployment_id db)

is_row : String → DeploymentStatus → Deployment → Bool
is_row id read d = d.id == id && d.status == read

-- Its write: compare-and-swap on the status that was read; the winner hands off to the agent.
unfoldable pub recompute_write : String → DeploymentStatus → Db → Db
unfolding is_row
recompute_write id read db =
    if any (is_row id read) db.deployments
    then record db {
      deployments =
          update_where (is_row id read)
            (λ (d : Deployment). record d { status = DeploymentStatus.finished }) db.deployments;
      notices = (id, DeploymentStatus.finished) ∷ db.notices;
    }
    else db

-- _recompute_deployment_status
unfoldable pub recompute : String → Db → Db
recompute id db = elim (recompute_read id db) [ none ↦ db | some read ↦ recompute_write id read db ]

-- status in ("success", "already-installed")
abbrev pub is_success_like : JobStatus → Bool
is_success_like JobStatus.success = true
is_success_like JobStatus.already_installed = true
is_success_like _ = false

-- The row that `_apply_job_status` writes; `extra` is its `extra_update`.
unfoldable pub written_job : ℕ → JobStatus → (Job → Job) → Job → Job
written_job now new_status extra job =
    let j = extra (record job { status = new_status; last_updated = now }) in
    if is_success_like new_status
    then record j { progress = 100; completed_at = some now; failure_reason = none }
    else j

set_version : Option Deployment → String → Db → Db
set_version none device_id db = db
set_version (some dep) device_id db =
    update_device device_id (λ d. record d { current_firmware_version = some dep.target_version })
      db

unfoldable pub advance_device : JobStatus → String → String → Db → Db
unfolding set_version
advance_device JobStatus.success deployment_id device_id db =
    set_version (find_deployment deployment_id db) device_id db
advance_device _ deployment_id device_id db = db

-- _apply_job_status
unfoldable pub apply_job_status : ℕ → Job → JobStatus → String → String → (Job → Job) → Db → Db
unfolding advance_device
apply_job_status now job new_status deployment_id device_id extra db =
    let written = update_job job.id (written_job now new_status extra) db in
    recompute deployment_id (advance_device new_status deployment_id device_id written)
