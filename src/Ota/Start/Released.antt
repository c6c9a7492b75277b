-- ===== src/Ota/Start/Released.antt =====
-- The blast radius of a delivery: the jobs of released waves alone.
use nff_core.Prelude.{
  ◌≡◌, ◌≢◌, refl, ap, sym, subst, Bool, true, false, not, ◌||◌, ◌&&◌, Option, none, some, List, [],
  ◌∷◌, String, ◌==◌, string_eq, All, All-among, All-of, AllZip, AllZip-refl, AllZip-weaken,
  All-rows, Among, Among-select, unique_row, eq_iff, arith, ℕ, ◌<◌, Bool-cases, inl, inr, ◌⊎◌,
  select, count, length, find,
}
use nff_core.Ota.Status.{
  JobStatus, DeploymentStatus, job_status_eq, job_eqb_iff, deployment_status_eq,
}
use nff_core.Ota.Store.{
  Db, Job, Deployment, Firmware, Settings, find_deployment, update_deployment, truthy,
}
use nff_core.Ota.Jobs.{is_terminal}
use nff_core.Ota.Settled.{SameJob, HasJobKeys, recompute-jobs, Settled, Keeps}
use nff_core.Ota.Delivery.{
  Outside, Shipment, deliver_all, is_delivered, project_rate_limit_window, is_rate_limited,
}
use nff_core.Ota.Delivery.BlastRadius.{Touched, deliver_all-Rows}
use nff_core.Ota.Start.{
  is_due, due_jobs, limited_ids, consume_override, after_wave, ship_wave, ship_pending, with_url,
  with_checksum, with_firmware, deliver_wave, start_row, start_found, start_deployment,
}

-- Of another deployment, not waiting, or of a wave after `max_wave`.
abbrev pub Unreleased : String → ℕ → Job → Type 0
Unreleased id max_wave j =
    (j.deployment_id ≢ id) ⊎ (j.status ≢ JobStatus.pending) ⊎ (max_wave < j.wave)

not_due : (id : String) (w : ℕ) (j : Job) → Unreleased id w j → is_due id w j ≡ false
unfolding is_due
not_due id w j (inl other) = elim (Bool-cases (j.deployment_id == id)) [
  | inl e ↦ absurd (other ((eq_iff j.deployment_id id).0 e))
  | inr e ↦ rw e refl
]
not_due id w j (inr (inl moved)) = elim (Bool-cases (j.status == JobStatus.pending)) [
  | inl e ↦ absurd (moved ((job_eqb_iff j.status JobStatus.pending).0 e))
  | inr e ↦ ground arith
]
not_due id w j (inr (inr later)) = ground arith

-- The same job, and the same row unless it was pending in a released wave of the deployment.
pub record Spared (id : String) (max_wave : ℕ) (j k : Job) : Type 0 where
  pub same : SameJob j k
  pub rest : Unreleased id max_wave j → k ≡ j

abbrev pub Spares : String → ℕ → Db → Db → Type 0
Spares id w a b = AllZip (Spared id w) a.jobs b.jobs

pub Spares-refl : (id : String) (w : ℕ) (db : Db) → Spares id w db db
Spares-refl id w db =
    AllZip-refl (Spared id w) db.jobs (λ j. record { same = ground arith; rest = λ h. refl })

after_wave-jobs :
    (dep : Deployment) (id : String) (b : Bool) (w d l : ℕ) (db : Db)
    → (after_wave dep id b w d l db).jobs ≡ db.jobs
unfolding after_wave update_deployment
after_wave-jobs dep id b w d l db = ground (arith, recompute-jobs id db)

consume-jobs :
    (dep : Deployment) (id : String) (db : Db) → (consume_override dep id db).jobs ≡ db.jobs
unfolding consume_override update_deployment
consume-jobs dep id db = ground arith

delivered-Rows :
    (out : Outside) (dep : Deployment) (id : String) (ship : Shipment) (pending : List Job)
    (db : Db) (limited : String → Bool) (b : Bool) (w d l : ℕ)
    → AllZip
        (Touched pending)
        db.jobs
        (after_wave dep id b w d l
          (deliver_all out ship db.devices limited pending (consume_override dep id db)).0).jobs
delivered-Rows out dep id ship pending db limited b w d l =
    let sent = deliver_all out ship db.devices limited pending (consume_override dep id db) in
    subst (λ js. AllZip (Touched pending) db.jobs js) (sym (after_wave-jobs dep id b w d l sent.0))
      (subst (λ js. AllZip (Touched pending) js sent.0.jobs) (consume-jobs dep id db)
        (deliver_all-Rows out ship db.devices limited pending (consume_override dep id db)).rows)

module _ (settings : Settings) (out : Outside) (dep : Deployment) (id : String) (b : Bool)
    (db : Db) where
  ship_wave-Rows :
      (ship : Shipment) (pending : List Job)
      → AllZip (Touched pending) db.jobs (ship_wave settings out dep id b ship pending db).0.jobs
  unfolding ship_wave
  ship_wave-Rows ship pending =
      let bypass = b || dep.rate_limit_override in
      let window = project_rate_limit_window settings dep.project_id db in
      let limited = λ (d : String). not bypass && is_rate_limited out.now window id db.jobs d in
      let sent = deliver_all out ship db.devices limited pending (consume_override dep id db) in
      delivered-Rows out dep id ship pending db limited bypass window (count is_delivered sent.1)
        (length (limited_ids limited pending))

  module _ (keys : HasJobKeys db) (w : ℕ) where
    -- A row that is not due has the id of no due job.
    apart :
        (j : Job)
        → Among j db.jobs
        → is_due id w j ≡ false
        → All (λ (p : Job). j.id ≢ p.id) (due_jobs id w db)
    unfolding due_jobs
    apart j m out_of = All-rows _ (select (is_due id w) db.jobs) (λ p q e.
        let (found, due) = Among-select (is_due id w) db.jobs p q in
        let same : p ≡ j =
          All-among (λ (y : Job). (y.id == j.id) ≡ true → y ≡ j) db.jobs p
            (unique_row (λ (y : Job). y.id) j db.jobs keys m) found
            ((eq_iff p.id j.id).1 (sym e)) in
        cc (same, due, out_of))

    due-Spares :
        (after : Db) → AllZip (Touched (due_jobs id w db)) db.jobs after.jobs → Spares id w db after
    due-Spares after h =
        AllZip-weaken (λ j. Among j db.jobs) (Touched (due_jobs id w db)) (Spared id w) db.jobs
          after.jobs (All-rows _ db.jobs (λ j m. m))
          (λ j k m t. record { same = t.same; rest = λ o. t.rest (apart j m (not_due id w j o)) }) h

    pending-Spares :
        (ship : Shipment) (due : List Job)
        → due ≡ due_jobs id w db
        → Spares id w db (ship_pending settings out dep id b ship due db).0
    unfolding ship_pending
    pending-Spares ship [] e = Spares-refl id w db
    pending-Spares ship (j ∷ js) e =
        due-Spares (ship_wave settings out dep id b ship (j ∷ js) db).0 (
          subst
            (λ l.
              AllZip (Touched l) db.jobs (ship_wave settings out dep id b ship (j ∷ js) db).0.jobs)
            e (ship_wave-Rows ship (j ∷ js)))

    url-Spares :
        (fw : Firmware) (sha : String) (url : Option String)
        → Spares id w db (with_url settings out dep id w b fw sha url db).0
    unfolding with_url
    url-Spares fw sha none = Spares-refl id w db
    url-Spares fw sha (some url) = pending-Spares _ (due_jobs id w db) refl

    checksum-Spares :
        (fw : Firmware) (sha : Option String)
        → Spares id w db (with_checksum settings out dep id w b fw sha db).0
    unfolding with_checksum
    checksum-Spares fw none = Spares-refl id w db
    checksum-Spares fw (some sha) = url-Spares fw sha (out.create_signed_url dep.target_version)

    firmware-Spares :
        (fw : Option Firmware) → Spares id w db (with_firmware settings out dep id w b fw db).0
    unfolding with_firmware
    firmware-Spares none = Spares-refl id w db
    firmware-Spares (some fw) = checksum-Spares fw (truthy fw.checksum_sha256)

    -- With distinct job ids, delivering the waves up to `w` changes only the rows of jobs of this deployment that were pending
    -- in a wave up to `w`; every later wave, every other deployment and every finished job is as before.
    pub deliver_wave-Spares : Spares id w db (deliver_wave settings out dep id w b db).0
    unfolding deliver_wave
    deliver_wave-Spares =
        firmware-Spares (find (λ (f : Firmware). f.version == dep.target_version) db.firmware)

-- What `start_deployment` may touch: the waves up to the phase that the row stands at.
abbrev phase_of : Option Deployment → ℕ
phase_of none = 0
phase_of (some dep) = dep.current_phase

module _ (settings : Settings) (out : Outside) (force : Bool) (id : String) (db : Db)
    (keys : HasJobKeys db) where
  row-Spares :
      (dep : Deployment) → Spares id dep.current_phase db (start_row settings out force id dep db).0
  unfolding start_row update_deployment
  row-Spares dep = elim (Bool-cases (dep.status == DeploymentStatus.scheduled)) [
    | inl e ↦ rw e (
        deliver_wave-Spares settings out (record dep { status = DeploymentStatus.active }) id force
          (update_deployment id (λ d. record d { status = DeploymentStatus.active }) db) keys
          dep.current_phase)
    | inr e ↦ rw e (elim (Bool-cases (dep.status == DeploymentStatus.active)) [
      | inl a ↦ rw a (deliver_wave-Spares settings out dep id force db keys dep.current_phase)
      | inr a ↦ rw a (Spares-refl id dep.current_phase db)
    ])
  ]

  found-Spares :
      (o : Option Deployment) → Spares id (phase_of o) db (start_found settings out force id o db).0
  unfolding start_found
  found-Spares none = Spares-refl id 0 db
  found-Spares (some dep) = row-Spares dep

  -- With distinct job ids, starting a deployment, forced or not, changes only rows of its own jobs that were pending in a wave
  -- up to its current phase; without such a row, or in a status other than scheduled and active, none.
  pub start_deployment-Spares :
      Spares id (phase_of (find_deployment id db)) db (start_deployment settings out id force db).0
  unfolding start_deployment
  start_deployment-Spares = found-Spares (find_deployment id db)

terminal_moved : (j : Job) → is_terminal j.status ≡ true → j.status ≢ JobStatus.pending
terminal_moved j done = ground arith

-- A delivery overwrites no outcome.
pub Spares-Keeps : (id : String) (w : ℕ) (a b : Db) → Spares id w a b → Keeps a b
Spares-Keeps id w a b h = record {
  rows =
      AllZip-weaken (λ j. Unit {0}) (Spared id w) Settled a.jobs b.jobs (All-of _ a.jobs (λ j. tt))
        (λ j k u s. record {
          same = s.same;
          kept = λ done. ap (λ (x : Job). x.status) (s.rest (inr (inl (terminal_moved j done))));
        })
        h;
}
