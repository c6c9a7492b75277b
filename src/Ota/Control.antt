-- ===== src/Ota/Control.antt =====
-- The operator's controls: get_deployment_status, abort_deployment and resume_deployment
-- of observability/nff-ota/nff_ota/tools/deployments/ops.py.
pub mod Counts
pub mod Aborts
use nff_core.Prelude.{
  update_where, ℕ, zero, suc, Bool, true, false, not, ◌&&◌, ◌||◌, Option, none, some, List, [], ◌∷◌,
  String, ◌==◌, string_eq, if◌then◌else◌, count, length, select, map, any, Result, ok, err, ltb,
}
use nff_core.Ota.Status.{
  DeploymentStatus, JobStatus, deployment_word, deployment_status_eq, job_status_eq,
}
use nff_core.Ota.Transitions.{validate_transition, TransitionError}
use nff_core.Ota.Store.{
  Db, Deployment, Job, DeploymentInfo, dep_row_to_info, find_deployment, update_deployment, jobs_of,
}

-- DeploymentStatus of models/deployment.py
pub record StatusCounts : Type 0 where
  pub deployment : DeploymentInfo
  pub total_count : ℕ
  pub pending_count : ℕ
  pub downloading_count : ℕ
  pub installing_count : ℕ
  pub rebooting_count : ℕ
  pub success_count : ℕ
  pub failure_count : ℕ
  pub aborted_count : ℕ
  pub already_installed_count : ℕ

-- `counts.get(status, 0)`
unfoldable pub count_status : JobStatus → List Job → ℕ
count_status s jobs = count (λ (j : Job). j.status == s) jobs

unfoldable pub status_counts : Deployment → List Job → StatusCounts
status_counts dep jobs = record {
  deployment = dep_row_to_info dep;
  total_count = length jobs;
  pending_count = count_status JobStatus.pending jobs;
  downloading_count = count_status JobStatus.downloading jobs;
  installing_count = count_status JobStatus.installing jobs;
  rebooting_count = count_status JobStatus.rebooting jobs;
  success_count = count_status JobStatus.success jobs;
  failure_count = count_status JobStatus.failure jobs;
  aborted_count = count_status JobStatus.aborted jobs;
  already_installed_count = count_status JobStatus.already_installed jobs;
}

-- get_deployment_status; none for a deployment that is not found
unfoldable pub get_deployment_status : String → Db → Option StatusCounts
get_deployment_status id db = elim (find_deployment id db) [
  | none ↦ none
  | some dep ↦ some (status_counts dep (jobs_of id db))
]

pub data ControlError : Type 0 where
  not_found : String → ControlError
  bad_transition : TransitionError → ControlError

-- `non_terminal`, the states whose jobs an abort ends: not all that are not terminal, as `verifying`, `committed`
-- and `rolled_back` are missing
abbrev pub is_open : JobStatus → Bool
is_open JobStatus.pending = true
is_open JobStatus.downloading = true
is_open JobStatus.installing = true
is_open JobStatus.rebooting = true
is_open _ = false

unfoldable pub is_open_in : String → Job → Bool
is_open_in id j = j.deployment_id == id && is_open j.status

-- The writes of abort_deployment once its check has passed
unfoldable pub abort_write : String → Db → Db
abort_write id db =
    let db₁ = update_deployment id (λ d. record d { status = DeploymentStatus.aborted }) db in
    record db₁ {
      jobs =
          update_where (is_open_in id) (λ (j : Job). record j { status = JobStatus.aborted })
            db₁.jobs;
      notices = (id, DeploymentStatus.aborted) ∷ db₁.notices;
    }

abort_checked :
    String
    → Deployment
    → Db
    → Result TransitionError (Unit {0})
    → Db × Result ControlError DeploymentInfo
abort_checked id dep db (err e) = (db, err (bad_transition e))
abort_checked id dep db (ok _) =
    (abort_write id db, ok (dep_row_to_info (record dep { status = DeploymentStatus.aborted })))

-- The check of abort_deployment: reads the row, and validates its status
unfoldable pub abort_check : Deployment → Result TransitionError (Unit {0})
abort_check dep =
    validate_transition "deployment" (deployment_word dep.status)
      (deployment_word DeploymentStatus.aborted)

abort_found : String → Option Deployment → Db → Db × Result ControlError DeploymentInfo
unfolding abort_checked
abort_found id none db = (db, err (not_found id))
abort_found id (some dep) db = abort_checked id dep db (abort_check dep)

-- abort_deployment
unfoldable pub abort_deployment : String → Db → Db × Result ControlError DeploymentInfo
unfolding abort_found
abort_deployment id db = abort_found id (find_deployment id db) db

resumed : ℕ → Deployment → Deployment
resumed now d = record d {
  status = DeploymentStatus.active;
  halted_reason = none;
  phase_entered_at = some now;
}

resume_checked :
    ℕ
    → String
    → Deployment
    → Db
    → Result TransitionError (Unit {0})
    → Db × Result ControlError DeploymentInfo
unfolding resumed
resume_checked now id dep db (err e) = (db, err (bad_transition e))
resume_checked now id dep db (ok _) =
    (update_deployment id (resumed now) db, ok (dep_row_to_info (resumed now dep)))

resume_found : ℕ → String → Option Deployment → Db → Db × Result ControlError DeploymentInfo
unfolding resume_checked
resume_found now id none db = (db, err (not_found id))
resume_found now id (some dep) db = resume_checked now id dep db (
    validate_transition "deployment" (deployment_word dep.status)
      (deployment_word DeploymentStatus.active))

-- resume_deployment
unfoldable pub resume_deployment : ℕ → String → Db → Db × Result ControlError DeploymentInfo
unfolding resume_found
resume_deployment now id db = resume_found now id (find_deployment id db) db
