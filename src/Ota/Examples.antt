-- ===== src/Ota/Examples.antt =====
-- A small fleet to evaluate the rollout code of observability/nff-ota/nff_ota on.
pub mod Cohort
pub mod Outcome
pub mod Release
pub mod Sweep
pub mod Operator
pub mod Trace
pub mod Enrolled
pub mod Fixes
pub mod HandedOff
pub mod Shelved
use nff_core.Prelude.{
  ℕ, refl, unequal, ◌≢◌, Option, none, some, List, [], ◌∷◌, String, false, ℤ, pos, All, Distinct,
  Text,
}
use nff_core.Float.{Float, div}
use nff_core.Ota.Status.{DeviceStatus, DeploymentStatus, JobStatus}
use nff_core.Ota.Store.{Db, Deployment, Job, Device, Firmware, Group, Member, Project, Settings}
use nff_core.Ota.Settled.{HasJobKeys}
use nff_core.Ota.Delivery.{Outside, Command}
use nff_core.Ota.Creation.{CreateParams, Fresh}

abbrev pub half_then_all : Text
half_then_all = b'5' ∷ b'0' ∷ b',' ∷ b'1' ∷ b'0' ∷ b'0' ∷ []

-- Half of the fleet first.
abbrev pub roll : Deployment
roll = record {
  id = "roll";
  name = "spring";
  target_version = "2.0";
  device_group_id = "g";
  project_id = some "p";
  status = DeploymentStatus.active;
  max_devices_in_flight = 5;
  retries = 1;
  created_at = 10;
  start_time = none;
  phases = some half_then_all;
  current_phase = 0;
  phase_entered_at = some 10;
  failure_threshold = some (record { units = 0 });
  soak_seconds = 0;
  halted_reason = none;
  rate_limit_override = false;
}

abbrev pub first_job : Job
first_job = record {
  id = "j1";
  deployment_id = "roll";
  device_id = "a";
  project_id = some "p";
  from_version = "1.0";
  target_version = "2.0";
  status = JobStatus.downloading;
  progress = 40;
  attempts = 1;
  wave = 0;
  started_at = 10;
  last_updated = 20;
  completed_at = none;
  failure_reason = none;
}

abbrev pub second_job : Job
second_job = record first_job {
  id = "j2";
  device_id = "b";
  status = JobStatus.pending;
  progress = 0;
  attempts = 0;
  wave = 1;
}

abbrev pub old_job : Job
old_job = record first_job {
  id = "j0";
  deployment_id = "winter";
  status = JobStatus.success;
  last_updated = 5;
}

abbrev pub device_a : Device
device_a = record {
  id = "a";
  current_firmware_version = some "1.0";
  firmware_version = none;
  device_type = none;
  ota_status = DeviceStatus.accepted;
  project_id = some "p";
  mqtt_id = some "nff-a";
  public_key = none;
  tags = [];
  created_at = 1;
}

abbrev pub device_b : Device
device_b = record device_a { id = "b"; mqtt_id = none }

abbrev pub fleet : Db
fleet = record {
  deployments = roll ∷ [];
  jobs = old_job ∷ first_job ∷ second_job ∷ [];
  devices = device_a ∷ device_b ∷ [];
  firmware =
      record {
        version = "2.0";
        storage_path = some "fw/2.0.bin";
        checksum_sha256 = some "aa";
        release_version = none;
        build_id = none;
        size_bytes = some 4096;
        device_types = [];
      }
      ∷ [];
  groups = record { id = "g"; project_id = some "p" } ∷ [];
  members =
      record { group_id = "g"; device_id = "a" } ∷ record { group_id = "g"; device_id = "b" } ∷ [];
  projects = [];
  notices = [];
}

-- The fleet before its first dispatch, and with its first job failed
abbrev pub waiting : Db
waiting = record fleet {
  jobs = old_job ∷ record first_job { status = JobStatus.pending } ∷ second_job ∷ [];
}

abbrev pub broken : Db
broken = record fleet {
  jobs = old_job ∷ record first_job { status = JobStatus.failure } ∷ second_job ∷ [];
}

-- All jobs of the deployment have ended.
abbrev pub done : Db
done = record fleet {
  jobs =
      old_job
      ∷ record first_job { status = JobStatus.failure }
      ∷ record second_job { status = JobStatus.success }
      ∷ [];
}

abbrev pub settings : Settings
settings = record {
  confirm_threshold_devices = 10;
  default_failure_threshold = record { units = 1 };
  rate_limit = 100;
  download_timeout = 60;
}

abbrev pub at_100 : Outside
at_100 = record {
  now = 100;
  create_signed_url = λ version. some "https://store/2.0";
  deliver_ota = λ command. some "ok";
}

abbrev pub draw : Fresh
draw = record {
  now = 100;
  parse_time = λ text. none;
  deployment_id = "next";
  job_id = λ deployment device. device;
}

abbrev pub request : CreateParams
request = record {
  name = "summer";
  target_version = "2.0";
  device_group_id = "g";
  start_time = none;
  max_devices_in_flight = 5;
  retries = 1;
  phases = some (pos 50 ∷ pos 100 ∷ []);
  failure_threshold = record { units = 1 };
  soak_seconds = 0;
  confirm = false;
}

pub three_keys : HasJobKeys fleet
three_keys = (
  (unequal "j0" "j1" refl, (unequal "j0" "j2" refl, tt)),
  ((unequal "j1" "j2" refl, tt), (tt, tt)),
)
