-- ===== src/Ota/Settled.antt =====
-- The outcome of a job is final: a relation between the job rows before and after an operation,
-- and what the writes of the operations owe to it.
use nff_core.Prelude.{
  ◌≡◌, refl, sym, ◌∙◌, subst, true, false, List, [], ◌∷◌, String, ◌==◌, string_eq, map, All-weaken,
  AllZip, AllZip-refl, AllZip-compose, AllZip-update_where, Among, Distinct, unique_row,
  update_where, arith, ℕ,
}
use nff_core.Ota.Status.{JobStatus}
use nff_core.Ota.Store.{Db, Job, update_job, update_device}
use nff_core.Ota.Jobs.{
  is_terminal, recompute, recompute_write, advance_device, apply_job_status, written_job,
}

-- The columns of a row that say which job it is.
pub record SameJob (j k : Job) : Type 0 where
  pub id : k.id ≡ j.id
  pub deployment : k.deployment_id ≡ j.deployment_id
  pub device : k.device_id ≡ j.device_id
  pub wave : k.wave ≡ j.wave

-- The same job, whose status has not moved if it was terminal.
pub record Settled (j k : Job) : Type 0 where
  pub same : SameJob j k
  pub kept : is_terminal j.status ≡ true → k.status ≡ j.status

pub Settled-refl : (j : Job) → Settled j j
Settled-refl j = ground arith

Settled-trans : (i j k : Job) → Settled i j → Settled j k → Settled i k
Settled-trans i j k p q = record {
  same = ground arith;
  kept = λ t. q.kept (subst (λ s. is_terminal s ≡ true) (sym (p.kept t)) t) ∙ p.kept t;
}

-- No job is lost or added, and no outcome is overwritten.
pub record Keeps (a b : Db) : Type 0 where
  pub rows : AllZip Settled a.jobs b.jobs

pub Keeps-refl : (db : Db) → Keeps db db
Keeps-refl db = record { rows = AllZip-refl Settled db.jobs Settled-refl }

pub Keeps-trans : {a b c : Db} → Keeps a b → Keeps b c → Keeps a c
Keeps-trans {a} {b} {c} p q = record {
  rows = AllZip-compose Settled Settled Settled a.jobs b.jobs c.jobs Settled-trans p.rows q.rows;
}

pub Keeps-of_jobs : (a b : Db) → b.jobs ≡ a.jobs → Keeps a b
Keeps-of_jobs a b e = record {
  rows = subst (λ js. AllZip Settled a.jobs js) (sym e) (Keeps-refl a).rows;
}

-- The ids of the jobs are a primary key.
abbrev pub HasJobKeys : Db → Type 0
HasJobKeys db = Distinct (map (λ (j : Job). j.id) db.jobs)

pub recompute-jobs : (id : String) (db : Db) → (recompute id db).jobs ≡ db.jobs
unfolding recompute recompute_write
recompute-jobs id db = ground arith

pub recompute-Keeps : (id : String) (db : Db) → Keeps db (recompute id db)
recompute-Keeps id db = Keeps-of_jobs db (recompute id db) (recompute-jobs id db)

advance_device-jobs :
    (s : JobStatus) (dep dev : String) (db : Db) → (advance_device s dep dev db).jobs ≡ db.jobs
unfolding advance_device update_device
advance_device-jobs s dep dev db = ground arith

-- A write to the row of an open job.
pub update_job-Keeps :
    (db : Db) (job : Job) (f : Job → Job)
    → HasJobKeys db
    → Among job db.jobs
    → is_terminal job.status ≡ false
    → ((j : Job) → SameJob j (f j))
    → Keeps db (update_job job.id f db)
unfolding update_job
update_job-Keeps db job f keys found live same = record {
  rows =
      AllZip-update_where Settled (λ j. j.id == job.id) f db.jobs Settled-refl
        (All-weaken db.jobs
          (λ (j : Job) (only : (j.id == job.id) ≡ true → j ≡ job) t. record {
            same = same j;
            kept = λ done. cc (only t, live, done);
          })
          (unique_row (λ (j : Job). j.id) job db.jobs keys found));
}

pub written-SameJob :
    (now : ℕ) (s : JobStatus) (extra : Job → Job)
    → ((j : Job) → SameJob j (extra j))
    → (j : Job) → SameJob j (written_job now s extra j)
unfolding written_job
written-SameJob now s extra same j =
    let moved = same (record j { status = s; last_updated = now }) in ground arith

pub apply_job_status-jobs :
    (now : ℕ) (job : Job) (s : JobStatus) (dep dev : String) (extra : Job → Job) (db : Db)
    → (apply_job_status now job s dep dev extra db).jobs
      ≡ update_where (λ j. j.id == job.id) (written_job now s extra) db.jobs
unfolding apply_job_status
apply_job_status-jobs now job s dep dev extra db =
    let written = update_job job.id (written_job now s extra) db in
    recompute-jobs dep (advance_device s dep dev written)
    ∙ advance_device-jobs s dep dev written
    ∙ unfold update_job in refl

pub apply_job_status-Keeps :
    (now : ℕ) (job : Job) (s : JobStatus) (dep dev : String) (extra : Job → Job) (db : Db)
    → HasJobKeys db
    → Among job db.jobs
    → is_terminal job.status ≡ false
    → ((j : Job) → SameJob j (extra j))
    → Keeps db (apply_job_status now job s dep dev extra db)
apply_job_status-Keeps now job s dep dev extra db keys found live same =
    Keeps-trans
      (update_job-Keeps db job (written_job now s extra) keys found live
        (written-SameJob now s extra same))
      (Keeps-of_jobs (update_job job.id (written_job now s extra) db)
        (apply_job_status now job s dep dev extra db)
        (apply_job_status-jobs now job s dep dev extra db ∙ unfold update_job in refl))

same_ids :
    (xs ys : List Job)
    → AllZip Settled xs ys
    → map (λ (j : Job). j.id) ys ≡ map (λ (j : Job). j.id) xs
same_ids [] [] h = refl
same_ids [] (y ∷ ys) h = absurd h
same_ids (x ∷ xs) [] h = absurd h
same_ids (x ∷ xs) (y ∷ ys) h = rw (h.0.same.id, same_ids xs ys h.1) refl

pub Keeps-keys : (a b : Db) → Keeps a b → HasJobKeys a → HasJobKeys b
Keeps-keys a b h keys = subst (λ l. Distinct l) (sym (same_ids a.jobs b.jobs h.rows)) keys
