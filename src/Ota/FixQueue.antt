-- ===== src/Ota/FixQueue.antt =====
-- The queue of firmware fixes: observability/nff-ota/nff_ota/source/jobs.py and the sweep of
-- source/fix_worker.py. A build is an argument; a moment is a number of microseconds.
pub mod Claims
pub mod Attempts
use nff_core.Prelude.{
  ℕ, zero, suc, ◌+◌, Bool, true, false, ◌&&◌, Option, none, some, List, [], ◌∷◌, ◌++◌, String, ◌==◌,
  string_eq, if◌then◌else◌, ltb, leb, any, find, select, update_where, length,
}
use nff_core.Ota.Store.{or_else}

pub data FixStatus : Type 0 where
  pending running done error : FixStatus

abbrev pub is_pending : FixStatus → Bool
is_pending FixStatus.pending = true
is_pending _ = false

abbrev pub is_running : FixStatus → Bool
is_running FixStatus.running = true
is_running _ = false

-- A row of `firmware_fix_jobs`
pub record FixJob : Type 0 where
  pub id : String
  pub project_id : Option String
  pub device_id : String
  pub version : String
  pub source : String
  pub parent_version : Option String
  pub changelog : Option String
  pub author : String
  pub status : FixStatus
  pub attempts : ℕ
  pub created_at : ℕ
  pub started_at : Option ℕ
  pub finished_at : Option ℕ
  pub updated_at : ℕ
  pub deployment_id : Option String
  pub fault_remaining : Bool
  pub failure : Option String

-- The arguments of enqueue, with the id that uuid4 draws
pub record FixRequest : Type 0 where
  pub id : String
  pub project_id : Option String
  pub device_id : String
  pub version : String
  pub source : String
  pub parent_version : Option String
  pub changelog : Option String
  pub author : String

-- enqueue: the columns that it leaves out have their defaults
unfoldable pub enqueue : ℕ → FixRequest → List FixJob → List FixJob
enqueue now r queue =
    queue
    ++ record {
      id = r.id;
      project_id = r.project_id;
      device_id = r.device_id;
      version = r.version;
      source = r.source;
      parent_version = r.parent_version;
      changelog = r.changelog;
      author = r.author;
      status = FixStatus.pending;
      attempts = 0;
      created_at = now;
      started_at = none;
      finished_at = none;
      updated_at = now;
      deployment_id = none;
      fault_remaining = false;
      failure = none;
    }
      ∷ []

-- get, without the projection to the agent's model
unfoldable pub get_job : String → List FixJob → Option FixJob
get_job id queue = find (λ (j : FixJob). j.id == id) queue

started_before : Option ℕ → ℕ → ℕ → Bool
started_before none stale now = false
started_before (some t) stale now = ltb (t + stale) now

unfoldable pub is_stale : ℕ → ℕ → FixJob → Bool
unfolding started_before
is_stale now stale j = is_running j.status && started_before j.started_at stale now

unfoldable pub is_running_row : String → FixJob → Bool
is_running_row id j = j.id == id && is_running j.status

-- What reclaim_stale makes of a running row, by the attempts it read: an error, or pending again
unfoldable pub requeued : ℕ → ℕ → ℕ → FixJob → FixJob
requeued now max_attempts attempts row =
    if leb max_attempts attempts
    then record row {
      status = FixStatus.error;
      failure = some "compile did not finish";
      finished_at = some now;
      updated_at = now;
    }
    else record row { status = FixStatus.pending; updated_at = now }

reclaim_each : ℕ → ℕ → List FixJob → List FixJob → List FixJob
reclaim_each now max_attempts [] queue = queue
reclaim_each now max_attempts (j ∷ js) queue =
    reclaim_each now max_attempts js
      (update_where (is_running_row j.id) (requeued now max_attempts j.attempts) queue)

-- reclaim_stale
unfoldable pub reclaim_stale : ℕ → ℕ → ℕ → List FixJob → List FixJob × ℕ
unfolding reclaim_each
reclaim_stale now stale max_attempts queue =
    let found = select (is_stale now stale) queue in
    (reclaim_each now max_attempts found queue, length found)

older : FixJob → Option FixJob → Option FixJob
older j none = some j
older j (some k) = if ltb k.created_at j.created_at then some k else some j

oldest : List FixJob → Option FixJob
unfolding older
oldest [] = none
oldest (j ∷ js) = older j (oldest js)

-- The probe of claim_next: the oldest pending job
unfoldable pub probe : List FixJob → Option FixJob
unfolding oldest
probe queue = oldest (select (λ (j : FixJob). is_pending j.status) queue)

is_claimable : String → FixJob → Bool
is_claimable id j = j.id == id && is_pending j.status

unfoldable pub claimed : ℕ → ℕ → FixJob → FixJob
claimed now attempts j = record j {
  status = FixStatus.running;
  started_at = some now;
  attempts = attempts + 1;
  updated_at = now;
}

-- The claim of a job that was probed: a conditional update, then the read of the row that it won
unfoldable pub claim : ℕ → FixJob → List FixJob → List FixJob × Option FixJob
unfolding is_claimable
claim now job queue =
    if any (is_claimable job.id) queue
    then (let won = update_where (is_claimable job.id) (claimed now job.attempts) queue in
        (won, get_job job.id won))
    else (queue, none)

claim_probed : ℕ → Option FixJob → List FixJob → List FixJob × Option FixJob
claim_probed now none queue = (queue, none)
claim_probed now (some job) queue = claim now job queue

-- claim_next
unfoldable pub claim_next : ℕ → List FixJob → List FixJob × Option FixJob
unfolding claim_probed
claim_next now queue = claim_probed now (probe queue) queue

-- The keyword arguments of finish
pub record Verdict : Type 0 where
  pub status : FixStatus
  pub deployment_id : Option String
  pub version : Option String
  pub fault_remaining : Bool
  pub failure : Option String

or_old : Option String → Option String → Option String
or_old none old = old
or_old (some new) old = some new

unfoldable pub finished_row : ℕ → Verdict → FixJob → FixJob
unfolding or_old
finished_row now v j = record j {
  status = v.status;
  fault_remaining = v.fault_remaining;
  failure = v.failure;
  finished_at = some now;
  updated_at = now;
  deployment_id = or_old v.deployment_id j.deployment_id;
  version = or_else v.version j.version;
}

-- finish: by the id alone, whatever the status
unfoldable pub finish : ℕ → String → Verdict → List FixJob → List FixJob
finish now job_id v queue = update_where (λ (j : FixJob). j.id == job_id) (finished_row now v) queue

-- What build_and_deploy_source does: it raises, answers with an error, or deploys
pub data Built : Type 0 where
  crashed : String → Built
  refused : String → Built
  deployed : Option String → Option String → Bool → Built

abbrev pub verdict_of : Built → Verdict
verdict_of (crashed e) = record {
  status = FixStatus.error;
  deployment_id = none;
  version = none;
  fault_remaining = false;
  failure = some e;
}
verdict_of (refused e) = record {
  status = FixStatus.error;
  deployment_id = none;
  version = none;
  fault_remaining = false;
  failure = some e;
}
verdict_of (deployed d v f) = record {
  status = FixStatus.done;
  deployment_id = d;
  version = v;
  fault_remaining = f;
  failure = none;
}

run_claimed : ℕ → (FixJob → Built) → List FixJob × Option FixJob → List FixJob × Bool
run_claimed now build (queue, none) = (queue, false)
run_claimed now build (queue, some job) = (finish now job.id (verdict_of (build job)) queue, true)

-- fix_worker.sweep_once
unfoldable pub fix_sweep : ℕ → ℕ → ℕ → (FixJob → Built) → List FixJob → List FixJob × Bool
unfolding run_claimed
fix_sweep now stale max_attempts build queue =
    run_claimed now build (claim_next now (reclaim_stale now stale max_attempts queue).0)
