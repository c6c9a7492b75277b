-- ===== src/Ota/Delivery.antt =====
-- Delivery of a wave: start_deployment, _deliver_wave and the rate limit of
-- observability/nff-ota/nff_ota/tools/deployments/ops.py. What nff-fleet and the storage answer is
-- an argument (`Outside`); jobs are delivered in the order of their rows.
pub mod BlastRadius
pub mod RateLimit
use nff_core.Prelude.{
  ℕ, zero, suc, ◌+◌, Bool, true, false, not, ◌&&◌, ◌||◌, Option, none, some, List, [], ◌∷◌, String,
  ◌==◌, string_eq, ltb, leb, nat_eqb, if◌then◌else◌, ◌≡◌, find, select, any, count, length, map,
}
use nff_core.Ota.Status.{DeploymentStatus, JobStatus, deployment_status_eq, job_status_eq}
use nff_core.Ota.Store.{
  Db, Deployment, Job, Device, Firmware, Project, Settings, HaltReason, rate_limited,
  DeploymentInfo, dep_row_to_info, find_deployment, update_deployment, update_job, truthy, or_else,
}
use nff_core.Ota.Jobs.{recompute}

-- The arguments of fleet.deliver_ota
pub record Command : Type 0 where
  pub mqtt_id : String
  pub version : String
  pub sha256 : String
  pub url : String
  pub project_id : String
  pub build_id : Option String
  pub size : Option ℕ

-- What a handler is given from outside: the clock, the signed URL of an artifact (none where the
-- storage raises), and the fleet's answer to an OTA command (none for a `FleetError`).
pub record Outside : Type 0 where
  pub now : ℕ
  pub create_signed_url : String → Option String
  pub deliver_ota : Command → Option String

pub data StartError : Type 0 where
  deployment_not_found : String → StartError
  bad_status : DeploymentStatus → StartError
  firmware_not_found no_checksum no_url : String → StartError
  no_pending : StartError

pub data Outcome : Type 0 where
  delivered failed skipped_rate_limited skipped_no_project : Outcome

-- DeviceDeliveryResult
pub record DeviceDelivery : Type 0 where
  pub device_id : String
  pub outcome : Outcome

-- StartDeploymentResult
pub record StartResult : Type 0 where
  pub deployment : Option DeploymentInfo
  pub delivered : ℕ
  pub failed : ℕ
  pub skipped : ℕ
  pub devices : List DeviceDelivery
  pub error : Option StartError

abbrev pub start_error : Option DeploymentInfo → StartError → StartResult
start_error dep e = record {
  deployment = dep;
  delivered = 0;
  failed = 0;
  skipped = 0;
  devices = [];
  error = some e;
}

-- _project_rate_limit_window; a failed read of the settings row is a project with no row
project_window : Settings → Option Project → ℕ
project_window settings none = settings.rate_limit
project_window settings (some p) = or_else p.ota_rate_limit settings.rate_limit

window_of : Settings → Option String → Db → ℕ
unfolding project_window
window_of settings none db = settings.rate_limit
window_of settings (some id) db =
    project_window settings (find (λ (p : Project). p.id == id) db.projects)

unfoldable pub project_rate_limit_window : Settings → Option String → Db → ℕ
unfolding window_of
project_rate_limit_window settings project_id db = window_of settings (truthy project_id) db

-- A job that holds its device back: another deployment's, moved within the window, not pending.
unfoldable pub holds_back : ℕ → ℕ → String → String → Job → Bool
holds_back now window exclude_deployment device_id j =
    j.device_id == device_id
    && ltb now (j.last_updated + window)
    && not (j.deployment_id == exclude_deployment)
    && not (j.status == JobStatus.pending)

-- _rate_limited_devices: is this device in the set?
unfoldable pub is_rate_limited : ℕ → ℕ → String → List Job → String → Bool
unfolding holds_back
is_rate_limited now window exclude_deployment jobs device_id =
    if nat_eqb window 0
    then false
    else any (holds_back now window exclude_deployment device_id) jobs

-- What the firmware row and the storage give for the command of every device
pub record Shipment : Type 0 where
  pub version : String
  pub sha256 : String
  pub url : String
  pub build_id : Option String
  pub size : Option ℕ

command_to : Shipment → String → String → Command
command_to ship mqtt_id project_id = record {
  mqtt_id = mqtt_id;
  version = ship.version;
  sha256 = ship.sha256;
  url = ship.url;
  project_id = project_id;
  build_id = ship.build_id;
  size = ship.size;
}

-- pending → downloading, which counts as an attempt
unfoldable pub dispatched : ℕ → Job → Job → Job
dispatched now job j = record j {
  status = JobStatus.downloading;
  attempts = job.attempts + 1;
  last_updated = now;
}

unfoldable pub undelivered : ℕ → Job → Job
undelivered now j = record j { status = JobStatus.failure; last_updated = now }

settle : ℕ → Job → Option String → Db → Db × DeviceDelivery
settle now job (some status) db = (db, record { device_id = job.device_id; outcome = delivered })
settle now job none db =
    (update_job job.id (undelivered now) db, record { device_id = job.device_id; outcome = failed })

device_mqtt : Option Device → Option String
device_mqtt none = none
device_mqtt (some d) = truthy d.mqtt_id

device_project : Option Device → Option String
device_project none = none
device_project (some d) = truthy d.project_id

send : Outside → Shipment → Job → String → Option String → Db → Db × DeviceDelivery
unfolding settle command_to
send out ship job mqtt_id none db =
    (db, record { device_id = job.device_id; outcome = skipped_no_project })
send out ship job mqtt_id (some project) db =
    settle out.now job (out.deliver_ota (command_to ship mqtt_id project))
      (update_job job.id (dispatched out.now job) db)

-- _deliver_one, with the two tables that were read before the first delivery
unfoldable pub deliver_one :
    Outside → Shipment → List Device → (String → Bool) → Job → Db → Db × DeviceDelivery
unfolding send device_mqtt device_project
deliver_one out ship devices limited job db =
    if limited job.device_id
    then (db, record { device_id = job.device_id; outcome = skipped_rate_limited })
    else (let row = find (λ (d : Device). d.id == job.device_id) devices in
        send out ship job (or_else (device_mqtt row) job.device_id) (device_project row) db)

unfoldable pub deliver_all :
    Outside → Shipment → List Device → (String → Bool) → List Job → Db → Db × List DeviceDelivery
deliver_all out ship devices limited [] db = (db, [])
deliver_all out ship devices limited (job ∷ jobs) db =
    let (db₁, result) = deliver_one out ship devices limited job db in
    let (db₂, results) = deliver_all out ship devices limited jobs db₁ in (db₂, result ∷ results)

pub is_delivered : DeviceDelivery → Bool
is_delivered r = elim r.outcome [ delivered ↦ true | _ ↦ false ]

pub is_failed_delivery : DeviceDelivery → Bool
is_failed_delivery r = elim r.outcome [ failed ↦ true | _ ↦ false ]

pub is_skipped : DeviceDelivery → Bool
is_skipped r = elim r.outcome [
  | skipped_rate_limited ↦ true
  | skipped_no_project ↦ true
  | _ ↦ false
]
