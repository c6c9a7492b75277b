-- ===== src/Ota/Delivery/BlastRadius.antt =====
-- A delivery writes to the rows of the jobs that it was given, and to no others.
use nff_core.Prelude.{
  ◌≡◌, ◌≢◌, refl, sym, ◌∙◌, subst, Bool, Option, none, some, List, [], ◌∷◌, String, ◌==◌, string_eq,
  All, All-of, AllZip, AllZip-refl, AllZip-compose, AllZip-update_where, arith, ℕ, eq_iff,
  Bool-cases, inl, inr, find,
}
use nff_core.Ota.Store.{Db, Job, Device, update_job, or_else}
use nff_core.Ota.Settled.{SameJob}
use nff_core.Ota.Delivery.{
  Outside, Shipment, dispatched, undelivered, settle, send, command_to, device_mqtt, device_project,
  deliver_one, deliver_all,
}

-- Before and after: the same job, and the same row unless its id is that of a job in the list.
pub record Touched (jobs : List Job) (j k : Job) : Type 0 where
  pub same : SameJob j k
  pub rest : All (λ (p : Job). j.id ≢ p.id) jobs → k ≡ j

pub record Rows (jobs : List Job) (a b : Db) : Type 0 where
  pub rows : AllZip (Touched jobs) a.jobs b.jobs

Touched-refl : (jobs : List Job) (j : Job) → Touched jobs j j
Touched-refl jobs j = record { same = ground arith; rest = λ h. refl }

Rows-refl : (jobs : List Job) (db : Db) → Rows jobs db db
Rows-refl jobs db = record { rows = AllZip-refl (Touched jobs) db.jobs (Touched-refl jobs) }

Touched-next :
    (p : Job) (ps : List Job) (i j k : Job)
    → Touched (p ∷ []) i j
    → Touched ps j k
    → Touched (p ∷ ps) i k
Touched-next p ps i j k t u = record {
  same = ground arith;
  rest = λ h.
      let first = t.rest (h.0, tt) in
      u.rest (subst (λ (x : Job). All (λ (q : Job). x.id ≢ q.id) ps) (sym first) h.1) ∙ first;
}

Rows-next :
    (p : Job) (ps : List Job) {a b c : Db} → Rows (p ∷ []) a b → Rows ps b c → Rows (p ∷ ps) a c
Rows-next p ps {a} {b} {c} h k = record {
  rows =
      AllZip-compose (Touched (p ∷ [])) (Touched ps) (Touched (p ∷ ps)) a.jobs b.jobs c.jobs
        (Touched-next p ps) h.rows k.rows;
}

update_job-Rows :
    (job : Job) (f : Job → Job) (db : Db)
    → ((j : Job) → SameJob j (f j))
    → Rows (job ∷ []) db (update_job job.id f db)
unfolding update_job
update_job-Rows job f db same = record {
  rows =
      AllZip-update_where (Touched (job ∷ [])) (λ j. j.id == job.id) f db.jobs
        (Touched-refl (job ∷ []))
        (All-of _ db.jobs (λ (j : Job) t. record {
          same = same j;
          rest = λ h. absurd (h.0 ((eq_iff j.id job.id).0 t));
        }));
}

Touched-twice : (p i j k : Job) → Touched (p ∷ []) i j → Touched (p ∷ []) j k → Touched (p ∷ []) i k
Touched-twice p i j k t u = record {
  same = ground arith;
  rest = λ h.
      let first = t.rest h in
      u.rest (subst (λ (x : Job). All (λ (q : Job). x.id ≢ q.id) (p ∷ [])) (sym first) h) ∙ first;
}

Rows-twice : (p : Job) {a b c : Db} → Rows (p ∷ []) a b → Rows (p ∷ []) b c → Rows (p ∷ []) a c
Rows-twice p {a} {b} {c} h k = record {
  rows =
      AllZip-compose (Touched (p ∷ [])) (Touched (p ∷ [])) (Touched (p ∷ [])) a.jobs b.jobs c.jobs
        (Touched-twice p) h.rows k.rows;
}

settle-Rows :
    (now : ℕ) (job : Job) (o : Option String) (db : Db) → Rows (job ∷ []) db (settle now job o db).0
unfolding settle
settle-Rows now job (some s) db = Rows-refl (job ∷ []) db
settle-Rows now job none db =
    update_job-Rows job (undelivered now) db (λ j. unfold undelivered in ground arith)

send-Rows :
    (out : Outside) (ship : Shipment) (job : Job) (m : String) (p : Option String) (db : Db)
    → Rows (job ∷ []) db (send out ship job m p db).0
unfolding send
send-Rows out ship job m none db = Rows-refl (job ∷ []) db
send-Rows out ship job m (some p) db =
    Rows-twice job
      (update_job-Rows job (dispatched out.now job) db (λ j. unfold dispatched in ground arith))
      (settle-Rows out.now job (out.deliver_ota (command_to ship m p))
        (update_job job.id (dispatched out.now job) db))

deliver_one-Rows :
    (out : Outside) (ship : Shipment) (devices : List Device) (limited : String → Bool) (job : Job)
    (db : Db)
    → Rows (job ∷ []) db (deliver_one out ship devices limited job db).0
unfolding deliver_one
deliver_one-Rows out ship devices limited job db = elim (Bool-cases (limited job.device_id)) [
  | inl e ↦ rw e (Rows-refl (job ∷ []) db)
  | inr e ↦ rw e (
      send-Rows out ship job
        (or_else (device_mqtt (find (λ (d : Device). d.id == job.device_id) devices)) job.device_id)
        (device_project (find (λ (d : Device). d.id == job.device_id) devices)) db)
]

pub deliver_all-Rows :
    (out : Outside) (ship : Shipment) (devices : List Device) (limited : String → Bool)
    (jobs : List Job) (db : Db)
    → Rows jobs db (deliver_all out ship devices limited jobs db).0
unfolding deliver_all
deliver_all-Rows out ship devices limited [] db = Rows-refl [] db
deliver_all-Rows out ship devices limited (job ∷ jobs) db =
    let mid = (deliver_one out ship devices limited job db).0 in
    Rows-next job jobs (deliver_one-Rows out ship devices limited job db)
      (deliver_all-Rows out ship devices limited jobs mid)
