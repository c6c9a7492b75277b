-- ===== src/Ota/Reports/Outcomes.antt =====
-- What the reports do to outcomes that are already known.
use nff_core.Prelude.{
  ◌≡◌, refl, sym, ◌∙◌, Bool, true, false, not, ◌&&◌, Option, none, some, List, [], ◌∷◌, String,
  ◌==◌, string_eq, ℕ, arith, find-Among, Among, Among-select, select, AllZip, AllZip-refl, inl, inr,
  Result, ok, err, Bool-cases, some_inj, ltb, ◌⊎◌, AllZip-update_where, All-weaken, unique_row,
}
use nff_core.Ota.Status.{JobStatus, job_word, job_status_eq}
use nff_core.Ota.Transitions.{validate_transition, TransitionError}
use nff_core.Ota.Transitions.Graph.{passes, job_edge, job_edge_lem}
use nff_core.Ota.Store.{Db, Job, truthy}
use nff_core.Ota.Jobs.{is_terminal, apply_job_status, written_job}
use nff_core.Ota.Settled.{
  SameJob, Keeps, Keeps-refl, HasJobKeys, apply_job_status-Keeps, apply_job_status-jobs,
  written-SameJob,
}
use nff_core.Ota.Reports.{
  newer, latest, first_of_two, find_active_job, with_reason, finalize_job, finalize_on,
  finalize_ota_result, resolve_device_id, find_job, report_checked, report_found,
  report_device_status,
}

newer_cases : (k : Job) (o : Option Job) (j : Job) → newer k o ≡ some j → (k ≡ j) ⊎ (o ≡ some j)
unfolding newer
newer_cases k none j h = inl (some_inj h)
newer_cases k (some m) j h = elim (Bool-cases (ltb k.last_updated m.last_updated)) [
  | inl e ↦ inr (rw e at h)
  | inr e ↦ inl (some_inj (rw e at h))
]

latest-cons : (k : Job) (js : List Job) → latest (k ∷ js) ≡ newer k (latest js)
unfolding latest
latest-cons k js = refl

latest-Among : (js : List Job) (j : Job) → latest js ≡ some j → Among j js
latest-Among [] j h = unfold latest in cc
latest-Among (k ∷ js) j h = elim (newer_cases k (latest js) j (sym (latest-cons k js) ∙ h)) [
  | inl e ↦ inl e
  | inr e ↦ inr (latest-Among js j e)
]

latest_open :
    (p : Job → Bool) (js : List Job) (j : Job)
    → ((k : Job) → p k ≡ true → is_terminal k.status ≡ false)
    → latest (select p js) ≡ some j
    → Among j js × (is_terminal j.status ≡ false)
latest_open p js j live h =
    let (found, t) = Among-select p js j (latest-Among (select p js) j h) in (found, live j t)

first_of_two_cases :
    (a b : Option Job) (j : Job) → first_of_two a b ≡ some j → (a ≡ some j) ⊎ (b ≡ some j)
unfolding first_of_two
first_of_two_cases none b j h = inr h
first_of_two_cases (some k) b j h = inl h

abbrev matches : String → String → Job → Bool
matches device_id version j =
    j.device_id == device_id && j.target_version == version && not (is_terminal j.status)

abbrev open_on : String → Job → Bool
open_on device_id j = j.device_id == device_id && not (is_terminal j.status)

-- The job that a report is about is a row of the table, and open.
pub find_active_job-open :
    (device_id version : String) (db : Db) (j : Job)
    → find_active_job device_id version db ≡ some j
    → Among j db.jobs × (is_terminal j.status ≡ false)
find_active_job-open device_id version db j h =
    elim (first_of_two_cases (latest (select (matches device_id version) db.jobs))
      (latest (select (open_on device_id) db.jobs)) j (unfold find_active_job in h)) [
        | inl e ↦ latest_open (matches device_id version) db.jobs j (λ k t. ground arith) e
        | inr e ↦ latest_open (open_on device_id) db.jobs j (λ k t. ground arith) e
      ]

with_reason-SameJob : (s : JobStatus) (r : Option String) (j : Job) → SameJob j (with_reason s r j)
unfolding with_reason
with_reason-SameJob s r j = ground arith

finalize_job-Keeps :
    (now : ℕ) (found : Option Job) (s : JobStatus) (d v : String) (r : Option String) (db : Db)
    → HasJobKeys db
    → ((j : Job) → found ≡ some j → Among j db.jobs × (is_terminal j.status ≡ false))
    → Keeps db (finalize_job now found s d v r db).0
finalize_job-Keeps now none s d v r db keys h = unfold finalize_job in Keeps-refl db
finalize_job-Keeps now (some job) s d v r db keys h =
    unfold finalize_job in
    (let (found, live) = h job refl in
      apply_job_status-Keeps now job s job.deployment_id d (with_reason s (truthy r)) db keys found
        live (with_reason-SameJob s (truthy r)))

finalize_on-Keeps :
    (now : ℕ) (id : Option String) (d : String) (s : JobStatus) (v : String) (r : Option String)
    (db : Db)
    → HasJobKeys db
    → Keeps db (finalize_on now id d s v r db).0
unfolding finalize_on
finalize_on-Keeps now none d s v r db keys = Keeps-refl db
finalize_on-Keeps now (some id) d s v r db keys =
    finalize_job-Keeps now (find_active_job id v db) s id v r db keys
      (λ j e. find_active_job-open id v db j e)

-- With distinct job ids, a device's final report overwrites no outcome that a job already has, whatever it claims, and
-- neither adds nor removes a job.
pub finalize-Keeps :
    (now : ℕ) (device_id status version : String) (reason : Option String) (db : Db)
    → HasJobKeys db
    → Keeps db (finalize_ota_result now device_id status version reason db).0
unfolding finalize_ota_result
finalize-Keeps now device_id status version reason db keys =
    finalize_on-Keeps now (resolve_device_id device_id db) device_id _ version reason db keys

-- The job rows after a manual report: the same job, and a step of the diagram or none.
pub record Stepped (j k : Job) : Type 0 where
  pub same : SameJob j k
  pub step : (k.status ≡ j.status) ⊎ (job_edge j.status k.status ≡ true)

Stepped-refl : (j : Job) → Stepped j j
Stepped-refl j = record { same = ground arith; step = inl refl }

written-status :
    (now n : ℕ) (s : JobStatus) (j : Job)
    → (written_job now s (λ (i : Job). record i { attempts = n }) j).status ≡ s
unfolding written_job
written-status now n s j = ground arith

apply-Stepped :
    (now n : ℕ) (job : Job) (s : JobStatus) (dep dev : String) (db : Db)
    → HasJobKeys db
    → Among job db.jobs
    → job_edge job.status s ≡ true
    → AllZip Stepped db.jobs
        (apply_job_status now job s dep dev (λ (i : Job). record i { attempts = n }) db).jobs
apply-Stepped now n job s dep dev db keys found edge =
    let f = written_job now s (λ (i : Job). record i { attempts = n }) in
    rw (apply_job_status-jobs now job s dep dev (λ (i : Job). record i { attempts = n }) db) (
      AllZip-update_where Stepped (λ j. j.id == job.id) f db.jobs Stepped-refl
        (All-weaken db.jobs
          (λ (j : Job) (only : (j.id == job.id) ≡ true → j ≡ job) t. record {
            same =
                written-SameJob now s (λ (i : Job). record i { attempts = n })
                  (λ (i : Job). ground arith) j;
            step = inr (rw (written-status now n s j, only t) edge);
          })
          (unique_row (λ (j : Job). j.id) job db.jobs keys found)))

checked-Stepped :
    (now : ℕ) (job : Job) (s : JobStatus) (dev dep : String) (db : Db)
    (r : Result TransitionError (Unit {0}))
    → HasJobKeys db
    → Among job db.jobs
    → passes r ≡ job_edge job.status s
    → AllZip Stepped db.jobs (report_checked now job s dev dep db r).0.jobs
unfolding report_checked
checked-Stepped now job s dev dep db (err e) keys found edge =
    AllZip-refl Stepped db.jobs Stepped-refl
checked-Stepped now job s dev dep db (ok u) keys found edge =
    apply-Stepped now _ job s dep dev db keys found (sym edge)

found-Stepped :
    (now : ℕ) (o : Option Job) (s : JobStatus) (dev dep : String) (db : Db)
    → HasJobKeys db
    → ((j : Job) → o ≡ some j → Among j db.jobs)
    → AllZip Stepped db.jobs (report_found now o s dev dep db).0.jobs
unfolding report_found
found-Stepped now none s dev dep db keys h = AllZip-refl Stepped db.jobs Stepped-refl
found-Stepped now (some job) s dev dep db keys h =
    checked-Stepped now job s dev dep db
      (validate_transition "device_deployment" (job_word job.status) (job_word s)) keys (h job refl)
      (job_edge_lem job.status s)

-- With distinct job ids, a manual report leaves each job where it was or moves it along one edge of the job diagram, so it
-- cannot reopen a job that succeeded or was aborted.
pub report-Stepped :
    (now : ℕ) (device_id deployment_id : String) (status : JobStatus) (db : Db)
    → HasJobKeys db
    → AllZip Stepped db.jobs (report_device_status now device_id deployment_id status db).0.jobs
unfolding report_device_status
report-Stepped now device_id deployment_id status db keys =
    found-Stepped now (find_job device_id deployment_id db) status device_id deployment_id db keys
      (λ j e. (find-Among _ db.jobs j (unfold find_job in e)).0)
