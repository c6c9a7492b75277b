-- ===== src/Ota/Creation.antt =====
-- create_deployment, _insert_jobs and _materialize_jobs of
-- observability/nff-ota/nff_ota/tools/deployments/ops.py, and the request of models/deployment.py.
pub mod Targets
use nff_core.Prelude.{
  ℕ, zero, suc, ◌+◌, Bool, true, false, not, ◌&&◌, ◌||◌, Option, none, some, List, [], ◌∷◌, ◌++◌,
  String, ◌==◌, string_eq, ltb, leb, if◌then◌else◌, find, length, map, ℤ, Text, Result, ok, err,
}
use nff_core.Float.{Float}
use nff_core.Ota.Status.{DeploymentStatus, JobStatus}
use nff_core.Ota.Phases.{phases_csv, parse_phases}
use nff_core.Ota.Waves.{Waves, wave_of, assign_waves}
use nff_core.Ota.Store.{
  Db, Deployment, Job, Device, Firmware, Group, Settings, DeploymentInfo, dep_row_to_info,
  find_deployment, truthy, or_else,
}
use nff_core.Ota.Gate.{GateError, resolve_deployable_devices}

-- CreateDeploymentParams
pub record CreateParams : Type 0 where
  pub name : String
  pub target_version : String
  pub device_group_id : String
  pub start_time : Option String
  pub max_devices_in_flight : ℕ
  pub retries : ℕ
  pub phases : Option (List ℤ)
  pub failure_threshold : Float
  pub soak_seconds : ℕ
  pub confirm : Bool

-- The clock, `datetime.fromisoformat` (none for its ValueError), and the ids that uuid4 draws for
-- the deployment and for each deployment's job of each device.
pub record Fresh : Type 0 where
  pub now : ℕ
  pub parse_time : String → Option ℕ
  pub deployment_id : String
  pub job_id : String → String → String

pub data CreateError : Type 0 where
  firmware_not_found no_artifact group_not_found no_project invalid_start_time :
      String → CreateError
  not_deployable : GateError → CreateError
  needs_confirmation : ℕ → ℕ → CreateError

new_job : Fresh → String → String → Option String → Waves → Device → Job
new_job fresh deployment_id target_version project_id waves dev = record {
  id = fresh.job_id deployment_id dev.id;
  deployment_id = deployment_id;
  device_id = dev.id;
  project_id = project_id;
  from_version =
      or_else (truthy dev.current_firmware_version)
        (or_else (truthy dev.firmware_version) "unknown");
  target_version = target_version;
  status = JobStatus.pending;
  progress = 0;
  attempts = 0;
  wave = wave_of dev.id waves;
  started_at = fresh.now;
  last_updated = fresh.now;
  completed_at = none;
  failure_reason = none;
}

-- The rows of _insert_jobs
unfoldable pub job_rows :
    Fresh → String → String → List Device → Option String → Option (List ℤ) → List Job
unfolding new_job
job_rows fresh deployment_id target_version accepted project_id phases =
    let waves = assign_waves (map (λ (d : Device). d.id) accepted) phases in
    map (new_job fresh deployment_id target_version project_id waves) accepted

unfoldable pub insert_jobs :
    Fresh → String → String → List Device → Option String → Option (List ℤ) → Db → Db
insert_jobs fresh deployment_id target_version accepted project_id phases db = record db {
  jobs = db.jobs ++ job_rows fresh deployment_id target_version accepted project_id phases;
}

-- The initial status, or the error for a start_time that does not parse
initial_status : Fresh → Option String → Result CreateError DeploymentStatus
initial_status fresh none = ok DeploymentStatus.active
initial_status fresh (some start_time) = elim (fresh.parse_time start_time) [
  | none ↦ err (invalid_start_time start_time)
  | some st ↦ ok (if leb st fresh.now then DeploymentStatus.active else DeploymentStatus.scheduled)
]

csv_of : Option (List ℤ) → Option Text
csv_of none = none
csv_of (some []) = none
csv_of (some (p ∷ ps)) = some (phases_csv (p ∷ ps))

unfoldable pub deployment_row : Fresh → CreateParams → String → DeploymentStatus → Deployment
unfolding csv_of
deployment_row fresh params project_id status = record {
  id = fresh.deployment_id;
  name = params.name;
  target_version = params.target_version;
  device_group_id = params.device_group_id;
  project_id = some project_id;
  status = status;
  max_devices_in_flight = params.max_devices_in_flight;
  retries = params.retries;
  created_at = fresh.now;
  start_time = params.start_time;
  phases = csv_of params.phases;
  current_phase = 0;
  phase_entered_at = some fresh.now;
  failure_threshold = some params.failure_threshold;
  soak_seconds = params.soak_seconds;
  halted_reason = none;
  rate_limit_override = false;
}

create_with_status :
    Fresh
    → CreateParams
    → String
    → List Device
    → Db
    → Result CreateError DeploymentStatus
    → Db × Result CreateError DeploymentInfo
create_with_status fresh params project_id deployable db (err e) = (db, err e)
create_with_status fresh params project_id deployable db (ok status) =
    let row = deployment_row fresh params project_id status in
    (
      insert_jobs fresh fresh.deployment_id params.target_version deployable (some project_id)
          params.phases (record db { deployments = db.deployments ++ row ∷ [] }),
      ok (dep_row_to_info row),
    )

-- Blast-radius confirmation, then the start time
create_for :
    Settings
    → Fresh
    → CreateParams
    → String
    → Result GateError (List Device)
    → Db
    → Db × Result CreateError DeploymentInfo
unfolding create_with_status initial_status
create_for settings fresh params project_id (err e) db = (db, err (not_deployable e))
create_for settings fresh params project_id (ok deployable) db =
    if not params.confirm && ltb settings.confirm_threshold_devices (length deployable)
    then (db, err (needs_confirmation (length deployable) settings.confirm_threshold_devices))
    else create_with_status fresh params project_id deployable db
        (initial_status fresh (truthy params.start_time))

group_project : Group → Option String
group_project g = truthy g.project_id

create_in :
    Settings → Fresh → CreateParams → Option Group → Db → Db × Result CreateError DeploymentInfo
unfolding create_for group_project
create_in settings fresh params none db = (db, err (group_not_found params.device_group_id))
create_in settings fresh params (some g) db = elim (group_project g) [
  | none ↦ (db, err (no_project params.device_group_id))
  | some project_id ↦
      create_for settings fresh params project_id
        (resolve_deployable_devices params.device_group_id params.target_version db) db
]

create_of :
    Settings → Fresh → CreateParams → Option Firmware → Db → Db × Result CreateError DeploymentInfo
unfolding create_in
create_of settings fresh params none db = (db, err (firmware_not_found params.target_version))
create_of settings fresh params (some fw) db = elim (truthy fw.storage_path) [
  | none ↦ (db, err (no_artifact params.target_version))
  | some path ↦
      create_in settings fresh params
        (find (λ (g : Group). g.id == params.device_group_id) db.groups) db
]

-- create_deployment
unfoldable pub create_deployment :
    Settings → Fresh → CreateParams → Db → Db × Result CreateError DeploymentInfo
unfolding create_of
create_deployment settings fresh params db =
    create_of settings fresh params
      (find (λ (f : Firmware). f.version == params.target_version) db.firmware) db

phases_of : Option Deployment → Option (List ℤ)
phases_of none = none
phases_of (some dep) = parse_phases dep.phases

project_of : Option Group → Option String
project_of none = none
project_of (some g) = g.project_id

materialize :
    Fresh → String → String → String → Db → Result GateError (List Device) → Db × Result GateError ℕ
unfolding phases_of project_of
materialize fresh deployment_id target_version group_id db (err e) = (db, err e)
materialize fresh deployment_id target_version group_id db (ok deployable) = (
  insert_jobs fresh deployment_id target_version deployable
      (project_of (find (λ (g : Group). g.id == group_id) db.groups))
      (phases_of (find_deployment deployment_id db)) db,
  ok (length deployable),
)

-- _materialize_jobs
unfoldable pub materialize_jobs : Fresh → String → String → String → Db → Db × Result GateError ℕ
unfolding materialize
materialize_jobs fresh deployment_id target_version group_id db =
    materialize fresh deployment_id target_version group_id db
      (resolve_deployable_devices group_id target_version db)
