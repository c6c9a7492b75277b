-- ===== src/Ota/Control/Aborts.antt =====
-- What an abort does to the jobs and to the row of the deployment.
use nff_core.Prelude.{
  ℕ, ◌≡◌, refl, sym, true, false, Option, none, some, String, string_eq, arith, ◌≢◌, ◌⊎◌, inl, inr,
  ◌==◌, List, [], ◌∷◌, if◌then◌else◌, Bool-cases, eq_iff, AllZip, update_where, AllZip-update_where,
  All-of, Result, ok, err, true≢false, ◌∙◌,
}
use nff_core.Ota.Status.{
  DeploymentStatus, JobStatus, deployment_word, deployment_status_eq, job_status_eq,
}
use nff_core.Ota.Transitions.{TransitionError, validate_transition}
use nff_core.Ota.Transitions.Graph.{passes, deployment_edge, deployment_edge_lem}
use nff_core.Ota.Store.{Db, Deployment, Job, find_deployment, update_deployment}
use nff_core.Ota.Store.Lookup.{find_deployment-update_deployment}
use nff_core.Ota.Settled.{Settled, Keeps, Keeps-refl, Keeps-of_jobs}
use nff_core.Ota.Control.{
  is_open, is_open_in, abort_write, abort_check, abort_checked, abort_found, abort_deployment,
  resume_deployment, resume_found, resume_checked, resumed,
}

aborted_row : Job → Job
aborted_row j = record j { status = JobStatus.aborted }

settles : (id : String) (j : Job) → is_open_in id j ≡ true → Settled j (aborted_row j)
unfolding is_open_in aborted_row
settles id j h = ground arith

abort_write-Keeps : (id : String) (db : Db) → Keeps db (abort_write id db)
unfolding abort_write aborted_row update_deployment
abort_write-Keeps id db = record {
  rows =
      AllZip-update_where Settled (is_open_in id) aborted_row db.jobs (λ j. ground arith)
        (All-of _ db.jobs (λ j. settles id j));
}

checked-Keeps :
    (id : String) (dep : Deployment) (db : Db) (r : Result TransitionError (Unit {0}))
    → Keeps db (abort_checked id dep db r).0
unfolding abort_checked
checked-Keeps id dep db (err e) = Keeps-refl db
checked-Keeps id dep db (ok u) = abort_write-Keeps id db

found-Keeps : (id : String) (o : Option Deployment) (db : Db) → Keeps db (abort_found id o db).0
unfolding abort_found
found-Keeps id none db = Keeps-refl db
found-Keeps id (some dep) db = checked-Keeps id dep db (abort_check dep)

-- An abort, refused or not, loses no job and overwrites no outcome.
pub abort_deployment-Keeps : (id : String) (db : Db) → Keeps db (abort_deployment id db).0
unfolding abort_deployment
abort_deployment-Keeps id db = found-Keeps id (find_deployment id db) db

-- The check of an abort passes exactly along the edges into `aborted`.
check_edge :
    (dep : Deployment)
    → passes (abort_check dep) ≡ deployment_edge dep.status DeploymentStatus.aborted
unfolding abort_check
check_edge dep = deployment_edge_lem dep.status DeploymentStatus.aborted

-- The states that an abort ends: it leaves those of `verifying`, `committed` and `rolled_back` alone.
abbrev pub IsUnderway : JobStatus → Type 0
IsUnderway JobStatus.pending = Unit
IsUnderway JobStatus.downloading = Unit
IsUnderway JobStatus.installing = Unit
IsUnderway JobStatus.rebooting = Unit
IsUnderway _ = ⊥

-- A job of the deployment that was underway is aborted, and the rest of its row kept; every other row is as before.
abbrev pub Closed : String → Job → Job → Type 0
Closed id before after =
    ((before.deployment_id ≡ id)
      × IsUnderway before.status
      × (after ≡ record before { status = JobStatus.aborted }))
    ⊎ (((before.deployment_id ≢ id) ⊎ (IsUnderway before.status → ⊥)) × (after ≡ before))

abbrev pub Aborted : String → Deployment → Db → Db → Type 0
Aborted id dep before after =
    (find_deployment id after ≡ some (record dep { status = DeploymentStatus.aborted }))
    × AllZip (Closed id) before.jobs after.jobs
    × (after.notices ≡ (id, DeploymentStatus.aborted) ∷ before.notices)

open_lem :
    (status : JobStatus)
    → ((is_open status ≡ true) × IsUnderway status)
      ⊎ ((is_open status ≡ false) × (IsUnderway status → ⊥))
open_lem JobStatus.pending = inl (refl, tt)
open_lem JobStatus.downloading = inl (refl, tt)
open_lem JobStatus.installing = inl (refl, tt)
open_lem JobStatus.rebooting = inl (refl, tt)
open_lem JobStatus.verifying = inr (refl, λ u. u)
open_lem JobStatus.committed = inr (refl, λ u. u)
open_lem JobStatus.success = inr (refl, λ u. u)
open_lem JobStatus.already_installed = inr (refl, λ u. u)
open_lem JobStatus.failure = inr (refl, λ u. u)
open_lem JobStatus.rolled_back = inr (refl, λ u. u)
open_lem JobStatus.aborted = inr (refl, λ u. u)
open_lem JobStatus.timed_out = inr (refl, λ u. u)
open_lem JobStatus.decommissioned = inr (refl, λ u. u)

Closed-if : (id : String) (j : Job) → Closed id j (if is_open_in id j then aborted_row j else j)
unfolding is_open_in aborted_row
Closed-if id j = elim (Bool-cases (j.deployment_id == id)) [
  | inr other ↦
      rw other
        (inr (inl (λ same. true≢false (sym ((eq_iff j.deployment_id id).1 same) ∙ other)), refl))
  | inl own ↦ elim (open_lem j.status) [
    | inl (underway, u) ↦ rw (own, underway) (inl ((eq_iff j.deployment_id id).0 own, u, refl))
    | inr (ended, u) ↦ rw (own, ended) (inr (inr u, refl))
  ]
]

Closed-rows :
    (id : String) (js : List Job)
    → AllZip (Closed id) js (update_where (is_open_in id) aborted_row js)
Closed-rows id [] = tt
Closed-rows id (j ∷ js) = (Closed-if id j, Closed-rows id js)

write-Aborted :
    (id : String) (dep : Deployment) (db : Db)
    → find_deployment id db ≡ some dep
    → Aborted id dep db (abort_write id db)
unfolding abort_write aborted_row update_deployment find_deployment
write-Aborted id dep db found = (
  find_deployment-update_deployment id (λ d. record d { status = DeploymentStatus.aborted }) db dep
      (λ d. refl) found,
  Closed-rows id db.jobs,
  refl,
)

checked-Aborted :
    (id : String) (dep : Deployment) (db : Db) (r : Result TransitionError (Unit {0}))
    → find_deployment id db ≡ some dep
    → passes r ≡ true
    → Aborted id dep db (abort_checked id dep db r).0
unfolding abort_checked
checked-Aborted id dep db (err e) found p = absurd (true≢false (sym p))
checked-Aborted id dep db (ok u) found p = write-Aborted id dep db found

checked-refused :
    (id : String) (dep : Deployment) (db : Db) (r : Result TransitionError (Unit {0}))
    → passes r ≡ false
    → (abort_checked id dep db r).0 ≡ db
unfolding abort_checked
checked-refused id dep db (err e) p = refl
checked-refused id dep db (ok u) p = absurd (true≢false p)

module _ (id : String) (dep : Deployment) (db : Db) (found : find_deployment id db ≡ some dep) where
  -- Aborting a deployment whose status may go to aborted leaves its row aborted, and the rest of the row as it was;
  -- each of its jobs that was pending, downloading, installing or rebooting is aborted, with the rest of its row
  -- kept, and every other job is as it was; the agent is told once.
  pub abort_closes_jobs :
      deployment_edge dep.status DeploymentStatus.aborted ≡ true
      → Aborted id dep db (abort_deployment id db).0
  unfolding abort_deployment abort_found
  abort_closes_jobs edge =
      rw found (checked-Aborted id dep db (abort_check dep) found (check_edge dep ∙ edge))

  -- Aborting a deployment that is finished or aborted changes nothing.
  pub abort_refused :
      deployment_edge dep.status DeploymentStatus.aborted ≡ false → (abort_deployment id db).0 ≡ db
  unfolding abort_deployment abort_found
  abort_refused edge =
      rw found (checked-refused id dep db (abort_check dep) (check_edge dep ∙ edge))

  resume_written :
      (now : ℕ) (r : Result TransitionError (Unit {0}))
      → passes r ≡ true
      → (find_deployment id (resume_checked now id dep db r).0 ≡ some (resumed now dep))
        × ((resume_checked now id dep db r).0.jobs ≡ db.jobs)
  unfolding resume_checked update_deployment resumed
  resume_written now (err e) p = absurd (true≢false (sym p))
  resume_written now (ok u) p =
      (find_deployment-update_deployment id (resumed now) db dep (λ d. refl) found, refl)

  -- Resuming a deployment that is scheduled or paused makes it active, clears the reason of its halt,
  -- restarts its soak clock, and leaves every job as it was.
  pub resume_restarts :
      (now : ℕ)
      → deployment_edge dep.status DeploymentStatus.active ≡ true
      → (find_deployment id (resume_deployment now id db).0
          ≡ some (record dep {
            status = DeploymentStatus.active;
            halted_reason = none;
            phase_entered_at = some now;
          }))
        × ((resume_deployment now id db).0.jobs ≡ db.jobs)
  unfolding resume_deployment resume_found resumed
  resume_restarts now edge = rw found (
      resume_written now
        (validate_transition "deployment" (deployment_word dep.status)
          (deployment_word DeploymentStatus.active))
        (deployment_edge_lem dep.status DeploymentStatus.active ∙ edge))

resume_checked-jobs :
    (now : ℕ) (id : String) (dep : Deployment) (db : Db) (r : Result TransitionError (Unit {0}))
    → (resume_checked now id dep db r).0.jobs ≡ db.jobs
unfolding resume_checked update_deployment
resume_checked-jobs now id dep db (err e) = refl
resume_checked-jobs now id dep db (ok u) = refl

resume_found-jobs :
    (now : ℕ) (id : String) (o : Option Deployment) (db : Db)
    → (resume_found now id o db).0.jobs ≡ db.jobs
unfolding resume_found
resume_found-jobs now id none db = refl
resume_found-jobs now id (some dep) db = resume_checked-jobs now id dep db _

pub resume_deployment-Keeps :
    (now : ℕ) (id : String) (db : Db) → Keeps db (resume_deployment now id db).0
unfolding resume_deployment
resume_deployment-Keeps now id db =
    Keeps-of_jobs db (resume_found now id (find_deployment id db) db).0
      (resume_found-jobs now id (find_deployment id db) db)
