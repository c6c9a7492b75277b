-- ===== src/Ota/Progress/Ticks.antt =====
-- What progress ticks can do: nothing to a finished job, and no step backwards.
use nff_core.Prelude.{
  ◌≡◌, refl, false, ◌||◌, Option, none, some, String, ◌==◌, string_eq, ℕ, ◌≤◌, ◌<◌, arith, Among,
  Result, ok, err, Bool-cases, inl, inr,
}
use nff_core.Ota.Status.{JobStatus, job_word, job_status_eq}
use nff_core.Ota.Transitions.{validate_transition, TransitionError}
use nff_core.Ota.Store.{Db, Job}
use nff_core.Ota.Jobs.{is_terminal}
use nff_core.Ota.Settled.{
  SameJob, Keeps, Keeps-refl, HasJobKeys, apply_job_status-Keeps, update_job-Keeps,
}
use nff_core.Ota.Reports.{find_active_job, resolve_device_id}
use nff_core.Ota.Reports.Outcomes.{find_active_job-open}
use nff_core.Ota.Progress.{
  stage_status, step_checked, record_step, tick_job, record_tick, record_stage, record_job,
  record_on, record_known, record_ota_progress,
}

tick-SameJob : (now : ℕ) (p a : Option ℕ) (j : Job) → SameJob j (tick_job now p a j)
unfolding tick_job
tick-SameJob now p a j = ground arith

module _ (now : ℕ) (job : Job) (db : Db) (keys : HasJobKeys db) (found : Among job db.jobs)
    (live : is_terminal job.status ≡ false) where
  tick-Keeps : (p a : Option ℕ) → Keeps db (record_tick now job p a db).0
  unfolding record_tick
  tick-Keeps p a =
      elim (Bool-cases (job.status == JobStatus.pending || job.status == JobStatus.downloading)) [
        | inl e ↦
            rw e (update_job-Keeps db job (tick_job now p a) keys found live (tick-SameJob now p a))
        | inr e ↦ rw e (Keeps-refl db)
      ]

  checked-Keeps :
      (s : JobStatus) (d : String) (r : Result TransitionError (Unit {0}))
      → Keeps db (step_checked now job s d db r).0
  unfolding step_checked
  checked-Keeps s d (err e) = Keeps-refl db
  checked-Keeps s d (ok u) =
      apply_job_status-Keeps now job s job.deployment_id d
        (λ (j : Job). record j { progress = 100 }) db keys found live (λ j. ground arith)

  step-Keeps : (s : JobStatus) (d : String) → Keeps db (record_step now job s d db).0
  unfolding record_step
  step-Keeps s d = elim (Bool-cases (job.status == s)) [
    | inl e ↦ rw e (Keeps-refl db)
    | inr e ↦ rw e (
        checked-Keeps s d
          (validate_transition "device_deployment" (job_word job.status) (job_word s)))
  ]

  stage-Keeps :
      (s : JobStatus) (d : String) (p a : Option ℕ) → Keeps db (record_stage now job s d p a db).0
  unfolding record_stage
  stage-Keeps JobStatus.downloading d p a = tick-Keeps p a
  stage-Keeps s d p a = step-Keeps s d

job-Keeps :
    (now : ℕ) (o : Option Job) (s : JobStatus) (d : String) (p a : Option ℕ) (db : Db)
    → HasJobKeys db
    → ((j : Job) → o ≡ some j → Among j db.jobs × (is_terminal j.status ≡ false))
    → Keeps db (record_job now o s d p a db).0
unfolding record_job
job-Keeps now none s d p a db keys h = Keeps-refl db
job-Keeps now (some job) s d p a db keys h =
    let (found, live) = h job refl in stage-Keeps now job db keys found live s d p a

on-Keeps :
    (now : ℕ) (o : Option String) (s : JobStatus) (v : String) (p a : Option ℕ) (db : Db)
    → HasJobKeys db
    → Keeps db (record_on now o s v p a db).0
unfolding record_on
on-Keeps now none s v p a db keys = Keeps-refl db
on-Keeps now (some d) s v p a db keys =
    job-Keeps now (find_active_job d v db) s d p a db keys (λ j e. find_active_job-open d v db j e)

known-Keeps :
    (now : ℕ) (o : Option JobStatus) (d v : String) (p a : Option ℕ) (db : Db)
    → HasJobKeys db
    → Keeps db (record_known now o d v p a db).0
unfolding record_known
known-Keeps now none d v p a db keys = Keeps-refl db
known-Keeps now (some s) d v p a db keys = on-Keeps now (resolve_device_id d db) s v p a db keys

-- A progress message, however late or out of order, overwrites no outcome that a job already has.
pub progress-Keeps :
    (now : ℕ) (device_id version stage : String) (progress attempt : Option ℕ) (db : Db)
    → HasJobKeys db
    → Keeps db (record_ota_progress now device_id version stage progress attempt db).0
unfolding record_ota_progress
progress-Keeps now device_id version stage progress attempt db keys =
    known-Keeps now (stage_status stage) device_id version progress attempt db keys

-- A download tick never lowers the attempts, keeps a percentage a percentage, and lowers the progress
-- only where it raises the attempts.
pub tick_job_forward :
    (now : ℕ) (progress attempt : Option ℕ) (j : Job)
    → j.progress ≤ 100
    → (j.attempts ≤ (tick_job now progress attempt j).attempts)
      × ((tick_job now progress attempt j).progress ≤ 100)
      × ((tick_job now progress attempt j).progress < j.progress
          → j.attempts < (tick_job now progress attempt j).attempts)
unfolding tick_job
tick_job_forward now progress attempt j h = ground arith
