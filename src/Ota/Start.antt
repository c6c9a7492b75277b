-- ===== src/Ota/Start.antt =====
-- start_deployment and _deliver_wave of observability/nff-ota/nff_ota/tools/deployments/ops.py,
-- over the deliveries of single jobs.
pub mod Released
use nff_core.Prelude.{
  ℕ, zero, suc, ◌+◌, Bool, true, false, not, ◌&&◌, ◌||◌, Option, none, some, List, [], ◌∷◌, String,
  ◌==◌, string_eq, ltb, leb, nat_eqb, if◌then◌else◌, find, select, any, count, length,
}
use nff_core.Ota.Status.{
  DeploymentStatus, JobStatus, deployment_word, deployment_status_eq, job_status_eq,
}
use nff_core.Ota.Store.{
  Db, Deployment, Job, Device, Firmware, Settings, HaltReason, DeploymentInfo, dep_row_to_info,
  find_deployment, update_deployment, truthy, or_else,
}
use nff_core.Ota.Jobs.{recompute}
use nff_core.Ota.Delivery.{
  Outside, StartError, StartResult, start_error, deployment_not_found, bad_status,
  firmware_not_found, no_checksum, no_url, no_pending, Shipment, project_rate_limit_window,
  is_rate_limited, deliver_all, DeviceDelivery, is_delivered, is_failed_delivery, is_skipped,
}

-- A pending job of the deployment whose wave has been released
unfoldable pub is_due : String → ℕ → Job → Bool
is_due deployment_id max_wave j =
    j.deployment_id == deployment_id && j.status == JobStatus.pending && leb j.wave max_wave

unfoldable pub due_jobs : String → ℕ → Db → List Job
due_jobs deployment_id max_wave db = select (is_due deployment_id max_wave) db.jobs

-- The ids of the set `rate_limited`
limited_ids : (String → Bool) → List Job → List String
limited_ids limited [] = []
limited_ids limited (j ∷ js) =
    let rest = limited_ids limited js in
    if limited j.device_id && not (any (λ d. d == j.device_id) rest)
    then j.device_id ∷ rest
    else rest

consume_override : Deployment → String → Db → Db
consume_override dep deployment_id db =
    if dep.rate_limit_override
    then update_deployment deployment_id (λ d. record d { rate_limit_override = false }) db
    else db

-- The pause of a wave that the rate limit holds back whole, or the roll-up
after_wave : Deployment → String → Bool → ℕ → ℕ → ℕ → Db → Db
after_wave dep deployment_id bypass window delivered_now limited db =
    if not bypass
      && nat_eqb delivered_now 0
      && not (nat_eqb limited 0)
      && dep.status == DeploymentStatus.active
    then update_deployment deployment_id
        (λ d. record d {
          status = DeploymentStatus.paused;
          halted_reason = some (HaltReason.rate_limited limited window);
        })
        db
    else recompute deployment_id db

-- `dep` where the row is gone: what the handler wrote to its own copy
info_after : Option Deployment → Deployment → DeploymentInfo
info_after none dep = dep_row_to_info dep
info_after (some row) dep = dep_row_to_info row

wave_result : Deployment → String → Db → List DeviceDelivery → Db × StartResult
unfolding info_after
wave_result dep deployment_id db results = (
  db,
  record {
    deployment = some (info_after (find_deployment deployment_id db) dep);
    delivered = count is_delivered results;
    failed = count is_failed_delivery results;
    skipped = count is_skipped results;
    devices = results;
    error = none;
  },
)

-- _deliver_wave from the point where there are jobs to deliver
unfoldable pub ship_wave :
    Settings → Outside → Deployment → String → Bool → Shipment → List Job → Db → Db × StartResult
unfolding limited_ids consume_override after_wave wave_result
ship_wave settings out dep deployment_id bypass_rate_limit ship pending db =
    let bypass = bypass_rate_limit || dep.rate_limit_override in
    let window = project_rate_limit_window settings dep.project_id db in
    let limited =
      λ (d : String). not bypass && is_rate_limited out.now window deployment_id db.jobs d in
    let (db₁, results) =
      deliver_all out ship db.devices limited pending (consume_override dep deployment_id db) in
    let db₂ =
      after_wave dep deployment_id bypass window (count is_delivered results)
        (length (limited_ids limited pending)) db₁ in
    wave_result dep deployment_id db₂ results

ship_pending :
    Settings → Outside → Deployment → String → Bool → Shipment → List Job → Db → Db × StartResult
ship_pending settings out dep deployment_id bypass ship [] db =
    (db, start_error (some (dep_row_to_info dep)) no_pending)
ship_pending settings out dep deployment_id bypass ship (job ∷ jobs) db =
    ship_wave settings out dep deployment_id bypass ship (job ∷ jobs) db

with_url :
    Settings
    → Outside
    → Deployment
    → String
    → ℕ
    → Bool
    → Firmware
    → String
    → Option String
    → Db
    → Db × StartResult
unfolding ship_pending due_jobs
with_url settings out dep deployment_id max_wave bypass fw sha256 none db =
    (db, start_error none (no_url dep.target_version))
with_url settings out dep deployment_id max_wave bypass fw sha256 (some url) db =
    ship_pending settings out dep deployment_id bypass
      (record {
        version = or_else (truthy fw.release_version) dep.target_version;
        sha256 = sha256;
        url = url;
        build_id = fw.build_id;
        size = fw.size_bytes;
      })
      (due_jobs deployment_id max_wave db) db

with_checksum :
    Settings
    → Outside
    → Deployment
    → String
    → ℕ
    → Bool
    → Firmware
    → Option String
    → Db
    → Db × StartResult
unfolding with_url
with_checksum settings out dep deployment_id max_wave bypass fw none db =
    (db, start_error none (no_checksum dep.target_version))
with_checksum settings out dep deployment_id max_wave bypass fw (some sha256) db =
    with_url settings out dep deployment_id max_wave bypass fw sha256
      (out.create_signed_url dep.target_version) db

with_firmware :
    Settings → Outside → Deployment → String → ℕ → Bool → Option Firmware → Db → Db × StartResult
unfolding with_checksum
with_firmware settings out dep deployment_id max_wave bypass none db =
    (db, start_error none (firmware_not_found dep.target_version))
with_firmware settings out dep deployment_id max_wave bypass (some fw) db =
    with_checksum settings out dep deployment_id max_wave bypass fw (truthy fw.checksum_sha256) db

-- _deliver_wave
unfoldable pub deliver_wave :
    Settings → Outside → Deployment → String → ℕ → Bool → Db → Db × StartResult
unfolding with_firmware
deliver_wave settings out dep deployment_id max_wave bypass_rate_limit db =
    with_firmware settings out dep deployment_id max_wave bypass_rate_limit
      (find (λ (f : Firmware). f.version == dep.target_version) db.firmware) db

-- Its deployment once it may start: a scheduled one becomes active first.
start_row : Settings → Outside → Bool → String → Deployment → Db → Db × StartResult
start_row settings out force deployment_id dep db =
    if dep.status == DeploymentStatus.scheduled
    then deliver_wave settings out (record dep { status = DeploymentStatus.active }) deployment_id
        dep.current_phase force
        (update_deployment deployment_id (λ d. record d { status = DeploymentStatus.active }) db)
    else if dep.status == DeploymentStatus.active
    then deliver_wave settings out dep deployment_id dep.current_phase force db
    else (db, start_error none (bad_status dep.status))

start_found : Settings → Outside → Bool → String → Option Deployment → Db → Db × StartResult
unfolding start_row
start_found settings out force deployment_id none db =
    (db, start_error none (deployment_not_found deployment_id))
start_found settings out force deployment_id (some dep) db =
    start_row settings out force deployment_id dep db

-- start_deployment
unfoldable pub start_deployment : Settings → Outside → String → Bool → Db → Db × StartResult
unfolding start_found
start_deployment settings out deployment_id force db =
    start_found settings out force deployment_id (find_deployment deployment_id db) db
