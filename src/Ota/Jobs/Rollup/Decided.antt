-- ===== src/Ota/Jobs/Rollup/Decided.antt =====
-- When the roll-up finishes a deployment, and when it changes nothing.
use nff_core.Prelude.{
  ◌≡◌, ◌≢◌, refl, sym, ◌∙◌, true, false, Option, none, some, List, [], ◌∷◌, String, ◌==◌, string_eq,
  select, All, All-weaken, Among, Bool-cases, Option-cases, true≢false, eq_iff, ◌⊎◌, inl, inr,
}
use nff_core.Ota.Status.{JobStatus, DeploymentStatus}
use nff_core.Ota.Store.{Db, Deployment, Job, find_deployment, jobs_of}
use nff_core.Ota.Jobs.{is_terminal, is_no_finish, all_done, read_status, recompute_read, recompute}
use nff_core.Ota.Jobs.Rollup.{
  won, read_wins, recompute-some, recompute-none, read_status_open, read_status_done,
  recompute_waits, recompute_finishes,
}

-- The states in which the job of a device has ended
abbrev pub HasEnded : JobStatus → Type 0
HasEnded JobStatus.success = Unit
HasEnded JobStatus.already_installed = Unit
HasEnded JobStatus.failure = Unit
HasEnded JobStatus.timed_out = Unit
HasEnded JobStatus.aborted = Unit
HasEnded JobStatus.decommissioned = Unit
HasEnded _ = ⊥

-- A deployment that a roll-up may finish
abbrev pub IsOngoing : DeploymentStatus → Type 0
IsOngoing DeploymentStatus.scheduled = Unit
IsOngoing DeploymentStatus.active = Unit
IsOngoing _ = ⊥

abbrev pub IsOwn : String → List Job → Job → Type 0
IsOwn id jobs j = Among j jobs × (j.deployment_id ≡ id)

-- The deployment is scheduled or active, and has jobs, which have all ended.
pub record IsDone (id : String) (db : Db) (d : Deployment) : Type 0 where
  pub found : find_deployment id db ≡ some d
  pub ongoing : IsOngoing d.status
  pub job : Job
  pub has_job : IsOwn id db.jobs job
  pub ended : All (λ (j : Job). (j.deployment_id ≢ id) ⊎ HasEnded j.status) db.jobs

-- It is finished, with the rest of its row kept; no job moves, and the agent is told once.
pub record IsFinished (id : String) (d : Deployment) (before after : Db) : Type 0 where
  pub row : find_deployment id after ≡ some (record d { status = DeploymentStatus.finished })
  pub jobs : after.jobs ≡ before.jobs
  pub told : after.notices ≡ (id, DeploymentStatus.finished) ∷ before.notices

-- It is not there, or neither scheduled nor active, or has no job, or a job that has not ended.
abbrev pub IsUnfinished : String → Db → Type 0
IsUnfinished id db =
    (find_deployment id db ≡ none)
    ⊎ ((d : Deployment) × (find_deployment id db ≡ some d) × (IsOngoing d.status → ⊥))
    ⊎ All (λ (j : Job). j.deployment_id ≢ id) db.jobs
    ⊎ ((j : Job) × IsOwn id db.jobs j × (HasEnded j.status → ⊥))

pub ended_lem :
    (status : JobStatus)
    → ((is_terminal status ≡ true) × HasEnded status)
      ⊎ ((is_terminal status ≡ false) × (HasEnded status → ⊥))
ended_lem JobStatus.pending = inr (refl, λ u. u)
ended_lem JobStatus.downloading = inr (refl, λ u. u)
ended_lem JobStatus.installing = inr (refl, λ u. u)
ended_lem JobStatus.rebooting = inr (refl, λ u. u)
ended_lem JobStatus.verifying = inr (refl, λ u. u)
ended_lem JobStatus.committed = inr (refl, λ u. u)
ended_lem JobStatus.success = inl (refl, tt)
ended_lem JobStatus.already_installed = inl (refl, tt)
ended_lem JobStatus.failure = inl (refl, tt)
ended_lem JobStatus.rolled_back = inr (refl, λ u. u)
ended_lem JobStatus.aborted = inl (refl, tt)
ended_lem JobStatus.timed_out = inl (refl, tt)
ended_lem JobStatus.decommissioned = inl (refl, tt)

ongoing_lem :
    (status : DeploymentStatus)
    → ((is_no_finish status ≡ false) × IsOngoing status)
      ⊎ ((is_no_finish status ≡ true) × (IsOngoing status → ⊥))
ongoing_lem DeploymentStatus.scheduled = inl (refl, tt)
ongoing_lem DeploymentStatus.active = inl (refl, tt)
ongoing_lem DeploymentStatus.paused = inr (refl, λ u. u)
ongoing_lem DeploymentStatus.finished = inr (refl, λ u. u)
ongoing_lem DeploymentStatus.aborted = inr (refl, λ u. u)

-- What the jobs of the deployment are like: none, all ended, or one that has not
abbrev JobsView : String → List Job → Type 0
JobsView id jobs =
    All (λ (j : Job). j.deployment_id ≢ id) jobs
    ⊎ ((all_done (select (λ (j : Job). j.deployment_id == id) jobs) ≡ true)
        × ((j : Job) × IsOwn id jobs j)
        × All (λ (j : Job). (j.deployment_id ≢ id) ⊎ HasEnded j.status) jobs)
    ⊎ ((j : Job) × IsOwn id jobs j × (is_terminal j.status ≡ false) × (HasEnded j.status → ⊥))

pub differs : (a b : String) → (a == b) ≡ false → a ≢ b
differs a b h same = true≢false (sym ((eq_iff a b).1 same) ∙ h)

all_done_front :
    (j : Job) (js : List Job)
    → is_terminal j.status ≡ true
    → all_done js ≡ true
    → all_done (j ∷ js) ≡ true
unfolding all_done
all_done_front j [] t h = rw t refl
all_done_front j (k ∷ ks) t h = rw t h

no_own :
    (id : String) (js : List Job)
    → All (λ (j : Job). j.deployment_id ≢ id) js
    → select (λ (j : Job). j.deployment_id == id) js ≡ []
no_own id [] h = refl
no_own id (j ∷ js) h = elim (Bool-cases (j.deployment_id == id)) [
  | inl e ↦ absurd (h.0 ((eq_iff j.deployment_id id).0 e))
  | inr e ↦ rw e (no_own id js h.1)
]

other_job :
    (id : String) (j : Job) (js : List Job)
    → (j.deployment_id == id) ≡ false
    → JobsView id js
    → JobsView id (j ∷ js)
other_job id j js other (inl bare) = inl (differs j.deployment_id id other, bare)
other_job id j js other (inr (inl (done, (k, (m, own)), ended))) =
    inr (inl (rw other done, (k, (inr m, own)), (inl (differs j.deployment_id id other), ended)))
other_job id j js other (inr (inr (k, (m, own), f, u))) = inr (inr (k, (inr m, own), f, u))

ended_job :
    (id : String) (j : Job) (js : List Job)
    → (j.deployment_id == id) ≡ true
    → is_terminal j.status ≡ true
    → HasEnded j.status
    → JobsView id js
    → JobsView id (j ∷ js)
unfolding all_done
ended_job id j js own t e (inl bare) = inr (
    inl (
      rw (own, no_own id js bare) (single j t),
      (j, (inl refl, (eq_iff j.deployment_id id).0 own)),
      (inr e, All-weaken js (λ k h. inl h) bare),
    ))
  where
    single : (x : Job) → is_terminal x.status ≡ true → all_done (x ∷ []) ≡ true
    single x h = rw h refl
ended_job id j js own t e (inr (inl (done, k, ended))) = inr (
    inl (
      rw own (all_done_front j (select (λ (x : Job). x.deployment_id == id) js) t done),
      (j, (inl refl, (eq_iff j.deployment_id id).0 own)),
      (inr e, ended),
    ))
ended_job id j js own t e (inr (inr (k, (m, mine), f, u))) = inr (inr (k, (inr m, mine), f, u))

jobs_view : (id : String) (jobs : List Job) → JobsView id jobs
jobs_view id [] = inl tt
jobs_view id (j ∷ js) = elim (Bool-cases (j.deployment_id == id)) [
  | inr other ↦ other_job id j js other (jobs_view id js)
  | inl own ↦ elim (ended_lem j.status) [
    | inl (t, e) ↦ ended_job id j js own t e (jobs_view id js)
    | inr (f, u) ↦ inr (inr (j, (inl refl, (eq_iff j.deployment_id id).0 own), f, u))
  ]
]

none_read : (id : String) (db : Db) → find_deployment id db ≡ none → recompute id db ≡ db
none_read id db e =
    recompute-none id db (unfold recompute_read in rw e (unfold read_status in refl))

no_jobs_read : (o : Option Deployment) → read_status o [] ≡ none
no_jobs_read o = read_status_open o [] (unfold all_done in refl)

finished_told :
    (id : String) (db : Db) (read : DeploymentStatus)
    → recompute_read id db ≡ some read
    → ((recompute id db).jobs ≡ db.jobs)
      × ((recompute id db).notices ≡ (id, DeploymentStatus.finished) ∷ db.notices)
finished_told id db read h =
    let (wins, _) = read_wins id db read h in
    rw (recompute-some id db read h, won id read db wins) (refl, refl)

ongoing_recompute :
    (id : String) (db : Db) (d : Deployment)
    → find_deployment id db ≡ some d
    → is_no_finish d.status ≡ false
    → IsOngoing d.status
    → ((x : Deployment) × IsDone id db x × IsFinished id x db (recompute id db))
      ⊎ (IsUnfinished id db × (recompute id db ≡ db))
unfolding jobs_of
ongoing_recompute id db d e h going = elim (jobs_view id db.jobs) [
  | inl bare ↦ inr (
    inr (inr (inl bare)),
    recompute-none id db (
        unfold recompute_read in
        rw (no_own id db.jobs bare) (no_jobs_read (find_deployment id db))),
  )
  | inr (inl (done, (j, own), ended)) ↦
      let read : recompute_read id db ≡ some d.status =
        unfold recompute_read in
        rw e (read_status_done d (jobs_of id db) h (unfold jobs_of in done)) in
      let (jobs, told) = finished_told id db d.status read in
      inl (
        d,
        record { found = e; ongoing = going; job = j; has_job = own; ended = ended },
        record {
          row = recompute_finishes id db d e h (unfold jobs_of in done);
          jobs = jobs;
          told = told;
        },
      )
  | inr (inr (j, own, f, u)) ↦
      inr (inr (inr (inr (j, own, u))), recompute_waits id db (inl (j, own.0, own.1, f)))
]

-- A roll-up finishes a deployment, from active or from scheduled, exactly if it is there with one of these
-- statuses and has jobs, which have all ended: then its row becomes finished, with the rest of it kept, no job
-- moves, and the agent is told once. Otherwise, while a job has not ended, while there is none, or where the
-- deployment is paused, finished, aborted or not there, nothing changes.
pub recompute_decides :
    (id : String) (db : Db)
    → ((d : Deployment) × IsDone id db d × IsFinished id d db (recompute id db))
      ⊎ (IsUnfinished id db × (recompute id db ≡ db))
recompute_decides id db = elim (Option-cases (find_deployment id db)) [
  | inl e ↦ inr (inl e, none_read id db e)
  | inr (d, e) ↦ elim (ongoing_lem d.status) [
    | inl (h, going) ↦ ongoing_recompute id db d e h going
    | inr (held, u) ↦ inr (inr (inl (d, e, u)), recompute_waits id db (inr (d, e, held)))
  ]
]
