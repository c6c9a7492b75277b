-- ===== src/Ota/Reaper/Timeouts.antt =====
-- What a sweep of the reaper does to the jobs.
use nff_core.Prelude.{
  ℕ, ◌+◌, ltb, Bool, ◌&&◌, ◌≡◌, refl, ap, sym, ◌∙◌, subst, true, false, List, [], ◌∷◌, String, ◌==◌,
  string_eq, if◌then◌else◌, arith, select, any, All-among, All-rows, AllZip, Among, Among-select,
  Among-select_intro, any-Among, any-none, map, map-id, map-rows, map-update_where, AllZip-map,
  true≢false, eq_iff, unique_row, inl, inr, Bool-cases, length,
}
use nff_core.Ota.Status.{JobStatus, job_status_eq}
use nff_core.Ota.Store.{Db, Job, Settings, update_job}
use nff_core.Ota.Jobs.{recompute}
use nff_core.Ota.Settled.{Settled, Keeps, HasJobKeys, recompute-jobs}
use nff_core.Ota.Reaper.{is_stuck, timed, time_out, owners, recompute_all, reaper_sweep}

abbrev pub in_flight : JobStatus → Bool
in_flight JobStatus.downloading = true
in_flight JobStatus.installing = true
in_flight JobStatus.rebooting = true
in_flight _ = false

-- What a job becomes: one in flight that was silent for longer than the timeout ends as timed out, now.
abbrev pub reaped : ℕ → ℕ → Job → Job
reaped now timeout j =
    if in_flight j.status && ltb (j.last_updated + timeout) now
    then record j { status = JobStatus.timed_out; last_updated = now }
    else j

stuck_lem :
    (now timeout : ℕ) (j : Job)
    → is_stuck now timeout j ≡ (in_flight j.status && ltb (j.last_updated + timeout) now)
unfolding is_stuck
stuck_lem now timeout j = ground arith

reaped_lem :
    (now timeout : ℕ) (j : Job)
    → reaped now timeout j ≡ (if is_stuck now timeout j then timed now j else j)
unfolding timed
reaped_lem now timeout j = rw (stuck_lem now timeout j) refl

recompute_all-jobs : (ids : List String) (db : Db) → (recompute_all ids db).jobs ≡ db.jobs
unfolding recompute_all
recompute_all-jobs [] db = refl
recompute_all-jobs (id ∷ ids) db = recompute_all-jobs ids (recompute id db) ∙ recompute-jobs id db

-- The row after the updates that the ids of `js` make
through : ℕ → List Job → Job → Job
through now [] k = k
through now (j ∷ js) k = through now js (if k.id == j.id then timed now k else k)

through-id :
    (now : ℕ) (js : List Job) (k : Job)
    → any (λ (j : Job). k.id == j.id) js ≡ false
    → through now js k ≡ k
unfolding through
through-id now [] k h = refl
through-id now (j ∷ js) k h = elim (Bool-cases (k.id == j.id)) [
  | inl e ↦ absurd (true≢false (rw e at h))
  | inr e ↦ rw e (through-id now js k (rw e at h))
]

through-timed :
    (now : ℕ) (js : List Job) (k : Job)
    → any (λ (j : Job). k.id == j.id) js ≡ true
    → through now js k ≡ timed now k
unfolding through timed
through-timed now [] k h = absurd (true≢false (sym h))
through-timed now (j ∷ js) k h = elim (Bool-cases (k.id == j.id)) [
  | inl e ↦ rw e (elim (Bool-cases (any (λ (y : Job). k.id == y.id) js)) [
    | inl t ↦ through-timed now js (timed now k) t
    | inr t ↦ through-id now js (timed now k) t
  ])
  | inr e ↦ rw e (through-timed now js k (rw e at h))
]

time_out-jobs :
    (now : ℕ) (js : List Job) (db : Db) → (time_out now js db).jobs ≡ map (through now js) db.jobs
unfolding time_out through update_job
time_out-jobs now [] db = sym (map-id db.jobs)
time_out-jobs now (j ∷ js) db =
    time_out-jobs now js (update_job j.id (timed now) db)
    ∙ map-update_where (through now js) (λ k. k.id == j.id) (timed now) db.jobs

not_stuck : (now timeout : ℕ) (j : Job) → is_stuck now timeout (reaped now timeout j) ≡ false
unfolding is_stuck
not_stuck now timeout j = ground arith

none_stuck :
    (now timeout : ℕ) (js : List Job)
    → select (is_stuck now timeout) (map (reaped now timeout) js) ≡ []
none_stuck now timeout [] = refl
none_stuck now timeout (j ∷ js) = rw (not_stuck now timeout j) (none_stuck now timeout js)

module _ (settings : Settings) (now : ℕ) (db : Db) (keys : HasJobKeys db) where
  abbrev stuck : List Job
  stuck = select (is_stuck now settings.download_timeout) db.jobs

  none_with_id :
      (k : Job)
      → Among k db.jobs
      → is_stuck now settings.download_timeout k ≡ false
      → any (λ (j : Job). k.id == j.id) stuck ≡ false
  none_with_id k m out =
      any-none (λ (j : Job). k.id == j.id) stuck
        (All-rows _ stuck (λ j q. elim (Bool-cases (k.id == j.id)) [
          | inr e ↦ e
          | inl e ↦
              let (found, is) = Among-select (is_stuck now settings.download_timeout) db.jobs j q in
              let same : j ≡ k =
                All-among (λ (y : Job). (y.id == k.id) ≡ true → y ≡ k) db.jobs j
                  (unique_row (λ (y : Job). y.id) k db.jobs keys m) found
                  ((eq_iff j.id k.id).1 (sym ((eq_iff k.id j.id).0 e))) in
              cc (same, is, out, e)
        ]))

  through_row :
      (k : Job) → Among k db.jobs → through now stuck k ≡ reaped now settings.download_timeout k
  through_row k m = elim (Bool-cases (is_stuck now settings.download_timeout k)) [
    | inl e ↦
        rw (reaped_lem now settings.download_timeout k, e)
          (through-timed now stuck k (
            any-Among (λ (j : Job). k.id == j.id) stuck k
              (Among-select_intro (is_stuck now settings.download_timeout) db.jobs k m e)
              ((eq_iff k.id k.id).1 refl)))
    | inr e ↦
        rw (reaped_lem now settings.download_timeout k, e)
          (through-id now stuck k (none_with_id k m e))
  ]

  -- With distinct job ids, a sweep times out exactly the jobs that have been in flight without a sign of life for longer than
  -- the download timeout, and leaves every other row as it was.
  pub reaper_sweep_exact :
      (reaper_sweep settings now db).0.jobs ≡ map (reaped now settings.download_timeout) db.jobs
  unfolding reaper_sweep
  reaper_sweep_exact =
      recompute_all-jobs (owners stuck []) (time_out now stuck db)
      ∙ time_out-jobs now stuck db
      ∙ map-rows (through now stuck) (reaped now settings.download_timeout) db.jobs
          (All-rows _ db.jobs through_row)

  -- A second sweep at the same moment finds no job to time out.
  reaper_sweep_again : (reaper_sweep settings now (reaper_sweep settings now db).0).1 ≡ 0
  unfolding reaper_sweep
  reaper_sweep_again = ap length (
      ap (select (is_stuck now settings.download_timeout)) reaper_sweep_exact
      ∙ none_stuck now settings.download_timeout db.jobs)

reaped-Settled : (now timeout : ℕ) (j : Job) → Settled j (reaped now timeout j)
reaped-Settled now timeout j = ground arith

-- A sweep overwrites no outcome.
pub reaper_sweep-Keeps :
    (settings : Settings) (now : ℕ) (db : Db)
    → HasJobKeys db
    → Keeps db (reaper_sweep settings now db).0
reaper_sweep-Keeps settings now db keys = record {
  rows =
      subst (λ js. AllZip Settled db.jobs js) (sym (reaper_sweep_exact settings now db keys))
        (AllZip-map Settled (reaped now settings.download_timeout) db.jobs
          (reaped-Settled now settings.download_timeout));
}
