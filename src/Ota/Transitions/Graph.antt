-- ===== src/Ota/Transitions/Graph.antt =====
-- The diagrams that the registries draw, over the status types, and what they allow.
use nff_core.Prelude.{◌≡◌, refl, Bool, true, false, Result, ok, err}
use nff_core.Ota.Status.{
  DeviceStatus, DeploymentStatus, JobStatus, device_word, deployment_word, job_word,
}
use nff_core.Ota.Transitions.{validate_transition, TransitionError}

abbrev pub passes {ℓ} : {A : Type ℓ} → Result TransitionError A → Bool
passes (ok a) = true
passes (err e) = false

abbrev pub deployment_edge : DeploymentStatus → DeploymentStatus → Bool
deployment_edge DeploymentStatus.scheduled DeploymentStatus.active = true
deployment_edge DeploymentStatus.scheduled DeploymentStatus.aborted = true
deployment_edge DeploymentStatus.active DeploymentStatus.paused = true
deployment_edge DeploymentStatus.active DeploymentStatus.finished = true
deployment_edge DeploymentStatus.active DeploymentStatus.aborted = true
deployment_edge DeploymentStatus.paused DeploymentStatus.active = true
deployment_edge DeploymentStatus.paused DeploymentStatus.aborted = true
deployment_edge _ _ = false

-- The validator lets a deployment go from `s` to `t` exactly along the seven edges of this diagram.
pub deployment_edge_lem :
    (s t : DeploymentStatus)
    → passes (validate_transition "deployment" (deployment_word s) (deployment_word t))
      ≡ deployment_edge s t
unfolding validate_transition
deployment_edge_lem DeploymentStatus.scheduled DeploymentStatus.scheduled = refl
deployment_edge_lem DeploymentStatus.scheduled _ = refl
deployment_edge_lem DeploymentStatus.active DeploymentStatus.scheduled = refl
deployment_edge_lem DeploymentStatus.active _ = refl
deployment_edge_lem DeploymentStatus.paused DeploymentStatus.scheduled = refl
deployment_edge_lem DeploymentStatus.paused _ = refl
deployment_edge_lem DeploymentStatus.finished DeploymentStatus.scheduled = refl
deployment_edge_lem DeploymentStatus.finished _ = refl
deployment_edge_lem DeploymentStatus.aborted DeploymentStatus.scheduled = refl
deployment_edge_lem DeploymentStatus.aborted _ = refl

abbrev pub job_edge : JobStatus → JobStatus → Bool
job_edge JobStatus.pending JobStatus.downloading = true
job_edge JobStatus.pending JobStatus.aborted = true
job_edge JobStatus.pending JobStatus.decommissioned = true
job_edge JobStatus.downloading JobStatus.installing = true
job_edge JobStatus.downloading JobStatus.failure = true
job_edge JobStatus.downloading JobStatus.aborted = true
job_edge JobStatus.installing JobStatus.rebooting = true
job_edge JobStatus.installing JobStatus.failure = true
job_edge JobStatus.installing JobStatus.aborted = true
job_edge JobStatus.rebooting JobStatus.success = true
job_edge JobStatus.rebooting JobStatus.failure = true
job_edge JobStatus.rebooting JobStatus.aborted = true
job_edge JobStatus.failure JobStatus.pending = true
job_edge _ _ = false

-- The validator lets a job go from `s` to `t` exactly along the thirteen edges of this diagram.
pub job_edge_lem :
    (s t : JobStatus)
    → passes (validate_transition "device_deployment" (job_word s) (job_word t)) ≡ job_edge s t
unfolding validate_transition
job_edge_lem JobStatus.pending JobStatus.pending = refl
job_edge_lem JobStatus.pending _ = refl
job_edge_lem JobStatus.downloading JobStatus.pending = refl
job_edge_lem JobStatus.downloading _ = refl
job_edge_lem JobStatus.verifying JobStatus.pending = refl
job_edge_lem JobStatus.verifying _ = refl
job_edge_lem JobStatus.installing JobStatus.pending = refl
job_edge_lem JobStatus.installing _ = refl
job_edge_lem JobStatus.rebooting JobStatus.pending = refl
job_edge_lem JobStatus.rebooting _ = refl
job_edge_lem JobStatus.committed JobStatus.pending = refl
job_edge_lem JobStatus.committed _ = refl
job_edge_lem JobStatus.success JobStatus.pending = refl
job_edge_lem JobStatus.success _ = refl
job_edge_lem JobStatus.already_installed JobStatus.pending = refl
job_edge_lem JobStatus.already_installed _ = refl
job_edge_lem JobStatus.failure JobStatus.pending = refl
job_edge_lem JobStatus.failure _ = refl
job_edge_lem JobStatus.rolled_back JobStatus.pending = refl
job_edge_lem JobStatus.rolled_back _ = refl
job_edge_lem JobStatus.aborted JobStatus.pending = refl
job_edge_lem JobStatus.aborted _ = refl
job_edge_lem JobStatus.timed_out JobStatus.pending = refl
job_edge_lem JobStatus.timed_out _ = refl
job_edge_lem JobStatus.decommissioned JobStatus.pending = refl
job_edge_lem JobStatus.decommissioned _ = refl

abbrev pub device_edge : DeviceStatus → DeviceStatus → Bool
device_edge DeviceStatus.pending DeviceStatus.accepted = true
device_edge DeviceStatus.pending DeviceStatus.rejected = true
device_edge DeviceStatus.preauthorized DeviceStatus.accepted = true
device_edge DeviceStatus.accepted DeviceStatus.rejected = true
device_edge DeviceStatus.accepted DeviceStatus.decommissioned = true
device_edge DeviceStatus.rejected DeviceStatus.accepted = true
device_edge _ _ = false

-- The validator lets a device go from `s` to `t` exactly along the edges of this diagram.
pub device_edge_lem :
    (s t : DeviceStatus)
    → passes (validate_transition "device" (device_word s) (device_word t)) ≡ device_edge s t
unfolding validate_transition
device_edge_lem DeviceStatus.pending DeviceStatus.pending = refl
device_edge_lem DeviceStatus.pending _ = refl
device_edge_lem DeviceStatus.preauthorized DeviceStatus.pending = refl
device_edge_lem DeviceStatus.preauthorized _ = refl
device_edge_lem DeviceStatus.accepted DeviceStatus.pending = refl
device_edge_lem DeviceStatus.accepted _ = refl
device_edge_lem DeviceStatus.rejected DeviceStatus.pending = refl
device_edge_lem DeviceStatus.rejected _ = refl
device_edge_lem DeviceStatus.decommissioned DeviceStatus.pending = refl
device_edge_lem DeviceStatus.decommissioned _ = refl
