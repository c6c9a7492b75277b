-- ===== src/Ota/Store.antt =====
-- The Supabase tables that nff-ota reads and writes, as one state, with the query forms the code
-- uses: filtered selects are `select` and `find`, filtered updates are `update_where`. An id is the
-- text that the column holds; a moment is a number of microseconds; JSON null is `none`.
pub mod Lookup
use nff_core.Prelude.{
  ℕ, zero, suc, ◌+◌, ◌*◌, Bool, true, false, Option, none, some, List, [], ◌∷◌, String, ◌==◌,
  string_eq, if◌then◌else◌, ℤ, find, select, update_where, Text,
}
use nff_core.Float.{Float}
use nff_core.Ota.Status.{DeviceStatus, DeploymentStatus, JobStatus}
use nff_core.Ota.Phases.{parse_phases}

-- What `halted_reason` says, with the values that its text shows.
pub data HaltReason : Type 0 where
  rate_limited : ℕ → ℕ → HaltReason
  auto_halt : ℕ → ℤ → ℕ → ℕ → Float → HaltReason

-- A row of `deployments`
pub record Deployment : Type 0 where
  pub id : String
  pub name : String
  pub target_version : String
  pub device_group_id : String
  pub project_id : Option String
  pub status : DeploymentStatus
  pub max_devices_in_flight : ℕ
  pub retries : ℕ
  pub created_at : ℕ
  pub start_time : Option String
  pub phases : Option Text
  pub current_phase : ℕ
  pub phase_entered_at : Option ℕ
  pub failure_threshold : Option Float
  pub soak_seconds : ℕ
  pub halted_reason : Option HaltReason
  pub rate_limit_override : Bool

-- A row of `ota_jobs`
pub record Job : Type 0 where
  pub id : String
  pub deployment_id : String
  pub device_id : String
  pub project_id : Option String
  pub from_version : String
  pub target_version : String
  pub status : JobStatus
  pub progress : ℕ
  pub attempts : ℕ
  pub wave : ℕ
  pub started_at : ℕ
  pub last_updated : ℕ
  pub completed_at : Option ℕ
  pub failure_reason : Option String

-- A row of `devices`; `mqtt_id` is `identity_attributes["mqtt_id"]`
pub record Device : Type 0 where
  pub id : String
  pub current_firmware_version : Option String
  pub firmware_version : Option String
  pub device_type : Option Text
  pub ota_status : DeviceStatus
  pub project_id : Option String
  pub mqtt_id : Option String
  pub public_key : Option String
  pub tags : List String
  pub created_at : ℕ

-- A row of `firmware_versions`
pub record Firmware : Type 0 where
  pub version : String
  pub storage_path : Option String
  pub checksum_sha256 : Option String
  pub release_version : Option String
  pub build_id : Option String
  pub size_bytes : Option ℕ
  pub device_types : List Text

-- A row of `device_groups`
pub record Group : Type 0 where
  pub id : String
  pub project_id : Option String

-- A row of `device_group_members`
pub record Member : Type 0 where
  pub group_id : String
  pub device_id : String

-- A row of `projects`: the rate limit override, in microseconds
pub record Project : Type 0 where
  pub id : String
  pub ota_rate_limit : Option ℕ

pub record Db : Type 0 where
  pub deployments : List Deployment
  pub jobs : List Job
  pub devices : List Device
  pub firmware : List Firmware
  pub groups : List Group
  pub members : List Member
  pub projects : List Project
  -- the calls of agent_notify.notify_deployment_terminal, the latest in front
  pub notices : List (String × DeploymentStatus)

-- config.py: the settings that the rollout reads; spans of time in microseconds
pub record Settings : Type 0 where
  pub confirm_threshold_devices : ℕ
  pub default_failure_threshold : Float
  pub rate_limit : ℕ
  pub download_timeout : ℕ

-- `x or y` of Python on an optional text: the empty text is false
abbrev pub truthy : Option String → Option String
truthy none = none
truthy (some s) = if s == "" then none else some s

abbrev pub or_else {ℓ} : {A : Type ℓ} → Option A → A → A
or_else none d = d
or_else (some a) d = a

unfoldable pub find_deployment : String → Db → Option Deployment
find_deployment id db = find (λ (d : Deployment). d.id == id) db.deployments

unfoldable pub find_device : String → Db → Option Device
find_device id db = find (λ (d : Device). d.id == id) db.devices

unfoldable pub update_deployment : String → (Deployment → Deployment) → Db → Db
update_deployment id f db = record db {
  deployments = update_where (λ d. d.id == id) f db.deployments;
}

unfoldable pub update_job : String → (Job → Job) → Db → Db
update_job id f db = record db { jobs = update_where (λ j. j.id == id) f db.jobs }

unfoldable pub update_device : String → (Device → Device) → Db → Db
update_device id f db = record db { devices = update_where (λ d. d.id == id) f db.devices }

unfoldable pub jobs_of : String → Db → List Job
jobs_of deployment_id db = select (λ (j : Job). j.deployment_id == deployment_id) db.jobs

-- DeploymentInfo and _dep_row_to_info
pub record DeploymentInfo : Type 0 where
  pub id : String
  pub name : String
  pub target_version : String
  pub device_group_id : String
  pub status : DeploymentStatus
  pub max_devices_in_flight : ℕ
  pub retries : ℕ
  pub created_at : ℕ
  pub start_time : Option String
  pub phases : Option (List ℤ)
  pub current_phase : ℕ
  pub phase_entered_at : Option ℕ
  pub halted_reason : Option HaltReason

unfoldable pub dep_row_to_info : Deployment → DeploymentInfo
dep_row_to_info row = record {
  id = row.id;
  name = row.name;
  target_version = row.target_version;
  device_group_id = row.device_group_id;
  status = row.status;
  max_devices_in_flight = row.max_devices_in_flight;
  retries = row.retries;
  created_at = row.created_at;
  start_time = truthy row.start_time;
  phases = parse_phases row.phases;
  current_phase = row.current_phase;
  phase_entered_at = row.phase_entered_at;
  halted_reason = row.halted_reason;
}
