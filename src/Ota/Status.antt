-- ===== src/Ota/Status.antt =====
-- The status columns of the tables `devices`, `deployments` and `ota_jobs`: the `Literal` types of
-- models/deployment.py and the checks of supabase/migrations/0001_initial.sql.
use nff_core.Prelude.{String, ◌≡◌, ◌↔◌, Bool, true, arith, ℕ, Eq, nat_eqb}

pub data DeviceStatus : Type 0 where
  pending preauthorized accepted rejected decommissioned : DeviceStatus

pub data DeploymentStatus : Type 0 where
  scheduled active paused finished aborted : DeploymentStatus

-- `verifying`, `committed` and `rolled_back` are in the column's vocabulary for other writers.
pub data JobStatus : Type 0 where
  pending downloading verifying installing rebooting committed success already_installed failure
        rolled_back aborted timed_out decommissioned :
      JobStatus

-- The words that the columns hold.
abbrev pub device_word : DeviceStatus → String
device_word DeviceStatus.pending = "pending"
device_word DeviceStatus.preauthorized = "preauthorized"
device_word DeviceStatus.accepted = "accepted"
device_word DeviceStatus.rejected = "rejected"
device_word DeviceStatus.decommissioned = "decommissioned"

abbrev pub deployment_word : DeploymentStatus → String
deployment_word DeploymentStatus.scheduled = "scheduled"
deployment_word DeploymentStatus.active = "active"
deployment_word DeploymentStatus.paused = "paused"
deployment_word DeploymentStatus.finished = "finished"
deployment_word DeploymentStatus.aborted = "aborted"

abbrev pub job_word : JobStatus → String
job_word JobStatus.pending = "pending"
job_word JobStatus.downloading = "downloading"
job_word JobStatus.verifying = "verifying"
job_word JobStatus.installing = "installing"
job_word JobStatus.rebooting = "rebooting"
job_word JobStatus.committed = "committed"
job_word JobStatus.success = "success"
job_word JobStatus.already_installed = "already-installed"
job_word JobStatus.failure = "failure"
job_word JobStatus.rolled_back = "rolled_back"
job_word JobStatus.aborted = "aborted"
job_word JobStatus.timed_out = "timed_out"
job_word JobStatus.decommissioned = "decommissioned"

abbrev deployment_index : DeploymentStatus → ℕ
deployment_index DeploymentStatus.scheduled = 0
deployment_index DeploymentStatus.active = 1
deployment_index DeploymentStatus.paused = 2
deployment_index DeploymentStatus.finished = 3
deployment_index DeploymentStatus.aborted = 4

abbrev job_index : JobStatus → ℕ
job_index JobStatus.pending = 0
job_index JobStatus.downloading = 1
job_index JobStatus.verifying = 2
job_index JobStatus.installing = 3
job_index JobStatus.rebooting = 4
job_index JobStatus.committed = 5
job_index JobStatus.success = 6
job_index JobStatus.already_installed = 7
job_index JobStatus.failure = 8
job_index JobStatus.rolled_back = 9
job_index JobStatus.aborted = 10
job_index JobStatus.timed_out = 11
job_index JobStatus.decommissioned = 12

abbrev pub deployment_eqb : DeploymentStatus → DeploymentStatus → Bool
deployment_eqb s t = nat_eqb (deployment_index s) (deployment_index t)

abbrev pub job_eqb : JobStatus → JobStatus → Bool
job_eqb s t = nat_eqb (job_index s) (job_index t)

pub deployment_eqb_iff : (s t : DeploymentStatus) → (deployment_eqb s t ≡ true) ↔ (s ≡ t)
deployment_eqb_iff s t = ground arith

pub job_eqb_iff : (s t : JobStatus) → (job_eqb s t ≡ true) ↔ (s ≡ t)
job_eqb_iff s t = ground arith

instance abbrev pub deployment_status_eq : Eq DeploymentStatus
deployment_status_eq = record { test = deployment_eqb; decides = deployment_eqb_iff }

instance abbrev pub job_status_eq : Eq JobStatus
job_status_eq = record { test = job_eqb; decides = job_eqb_iff }
