-- ===== src/Ota/Handoff.antt =====
-- The hand-off of an ended deployment to the agent, observability/nff-ota/nff_ota/agent_notify.py. The prompt is
-- the facts that it states; its sentences are left out. Moments are milliseconds of the monotonic clock.
-- The answers of the other tables, projects, pipeline_runs and github_connections, are arguments; a query
-- that fails ends the hand-off without an insert, as the source swallows it, and is not a case of the model.
-- The commit, the wave and the cut of a reason to 300 characters are texts of the prompt and left out too.
pub mod Cooldown
pub mod Spacing
use nff_core.Prelude.{
  ℕ, zero, suc, ◌+◌, ◌-◌, ltb, nat_eqb, Bool, true, false, not, ◌&&◌, ◌||◌, Option, none, some,
  List, [], ◌∷◌, String, ◌==◌, string_eq, if◌then◌else◌, select, count, length, Dict, get, put,
}
use nff_core.Ota.Status.{JobStatus, job_status_eq, DeploymentStatus}
use nff_core.Ota.Store.{Deployment, Job}

-- `_FAILED_DD`
is_failed_job : Job → Bool
is_failed_job j = j.status == JobStatus.failure || j.status == JobStatus.timed_out

pub failed_jobs : List Job → List Job
unfolding is_failed_job
failed_jobs jobs = select is_failed_job jobs

count_of : JobStatus → List Job → ℕ
count_of status jobs = count (λ (j : Job). j.status == status) jobs

take : ℕ → List Job → List Job
take zero js = []
take (suc n) [] = []
take (suc n) (j ∷ js) = j ∷ take n js

-- The devices with a reason each, `_MAX_FAILED_LISTED` of them at most
listed : List Job → List (String × Option String)
listed [] = []
listed (j ∷ js) = (j.device_id, j.failure_reason) ∷ listed js

-- What a fix goes through: a pull request on a repository, or the queue of firmware fixes
pub data Playbook : Type 0 where
  open_fix_pr : String → Playbook
  submit_firmware_fix : Playbook

pub record Prompt : Type 0 where
  pub deployment : Deployment
  pub final_status : DeploymentStatus
  pub total : ℕ
  pub succeeded : ℕ
  pub already_installed : ℕ
  pub failed : ℕ
  pub timed_out : ℕ
  pub aborted : ℕ
  pub decommissioned : ℕ
  pub failed_devices : List (String × Option String)
  pub more_failed : ℕ
  -- "repo <name>, run <id>" of a pipeline with a connection
  pub repo_ctx : Option (String × String)
  -- "ONLY summarize here; do NOT open a PR and do NOT submit a firmware fix"
  pub summarize_only : Bool
  pub playbook : Option Playbook

-- `build_failure_playbook`'s choice
pub playbook_for : Option String → Playbook
playbook_for none = submit_firmware_fix
playbook_for (some repo) = if repo == "" then submit_firmware_fix else open_fix_pr repo

pub has_any : List Job → Bool
has_any [] = false
has_any (j ∷ js) = true

-- A row of pipeline_runs: its id, and its connection's repository, where it has a connection
pub record Run : Type 0 where
  pub id : String
  pub connection : Option (Option String)

repo_name : Option String → String
repo_name none = "?"
repo_name (some repo) = repo

run_ctx : Run → Option (Option String) → Option (String × String)
unfolding repo_name
run_ctx run none = none
run_ctx run (some repo) = some (repo_name repo, run.id)

build_summary_prompt :
    Deployment
    → DeploymentStatus
    → List Job
    → Option (String × String)
    → Bool
    → Option Playbook
    → Prompt
unfolding failed_jobs count_of take listed has_any
build_summary_prompt dep status jobs ctx managed playbook = record {
  deployment = dep;
  final_status = status;
  total = length jobs;
  succeeded = count_of JobStatus.success jobs;
  already_installed = count_of JobStatus.already_installed jobs;
  failed = count_of JobStatus.failure jobs;
  timed_out = count_of JobStatus.timed_out jobs;
  aborted = count_of JobStatus.aborted jobs;
  decommissioned = count_of JobStatus.decommissioned jobs;
  failed_devices = listed (take 10 (failed_jobs jobs));
  more_failed = length (failed_jobs jobs) - 10;
  repo_ctx = ctx;
  summarize_only = managed && has_any (failed_jobs jobs);
  playbook = playbook;
}

pub record Settings : Type 0 where
  pub agent_on_finish : Bool
  pub skip_demo : Bool
  pub cooldown : ℕ

-- What the tables answer about the deployment
pub record Ended : Type 0 where
  pub row : Option Deployment
  pub is_demo_or_pool : Bool
  pub jobs : List Job
  pub run : Option Run
  -- the repository of the project's connection
  pub connected : Option String

is_cooling : ℕ → ℕ → Option ℕ → Bool
is_cooling now cooldown none = false
is_cooling now cooldown (some last) = ltb now (last + cooldown)

prompt_of : Ended → Deployment → DeploymentStatus → Option Run → Prompt
unfolding build_summary_prompt run_ctx playbook_for has_any failed_jobs
prompt_of e dep status (some run) =
    build_summary_prompt dep status e.jobs (run_ctx run run.connection) true none
prompt_of e dep status none =
    build_summary_prompt dep status e.jobs none false
      (if has_any (failed_jobs e.jobs) then some (playbook_for e.connected) else none)

-- The stamps after it, and the inserted message with its project
emitted :
    ℕ
    → Settings
    → Ended
    → Deployment
    → DeploymentStatus
    → String
    → Dict ℕ
    → Dict ℕ × Option (String × Prompt)
unfolding is_cooling prompt_of has_any failed_jobs
emitted now cfg e dep status project stamps =
    if not (has_any (failed_jobs e.jobs))
      && not (nat_eqb cfg.cooldown 0)
      && is_cooling now cfg.cooldown (get project stamps)
    then (stamps, none)
    else (
      if has_any (failed_jobs e.jobs) then stamps else put project now stamps,
      some (project, prompt_of e dep status e.run),
    )

for_project :
    ℕ
    → Settings
    → Ended
    → Deployment
    → DeploymentStatus
    → Option String
    → Dict ℕ
    → Dict ℕ × Option (String × Prompt)
unfolding emitted
for_project now cfg e dep status none stamps = (stamps, none)
for_project now cfg e dep status (some project) stamps =
    if project == "" || cfg.skip_demo && e.is_demo_or_pool
    then (stamps, none)
    else emitted now cfg e dep status project stamps

for_row :
    ℕ
    → Settings
    → Ended
    → DeploymentStatus
    → Option Deployment
    → Dict ℕ
    → Dict ℕ × Option (String × Prompt)
unfolding for_project
for_row now cfg e status none stamps = (stamps, none)
for_row now cfg e status (some dep) stamps = for_project now cfg e dep status dep.project_id stamps

unfoldable pub notify_deployment_terminal :
    ℕ → Settings → Ended → DeploymentStatus → Dict ℕ → Dict ℕ × Option (String × Prompt)
unfolding for_row
notify_deployment_terminal now cfg e status stamps =
    if cfg.agent_on_finish then for_row now cfg e status e.row stamps else (stamps, none)
