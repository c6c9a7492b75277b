-- ===== src/Ota/Jobs/Rollup.antt =====
-- When a deployment finishes, and that the hand-off is made once.
pub mod Decided
use nff_core.Prelude.{
  ◌≡◌, refl, ap, ◌∙◌, Bool, true, false, Option, none, some, List, [], ◌∷◌, String, ◌==◌, string_eq,
  arith, if◌then◌else◌, any, Among, find-Among, any-Among, all-Among, any-update_where,
  find-update_where, updated, Among-select_intro, update_where, ◌⊎◌, inl, inr, eqb_refl,
}
use nff_core.Ota.Status.{DeploymentStatus, deployment_status_eq}
use nff_core.Ota.Store.{Db, Deployment, Job, find_deployment, jobs_of}
use nff_core.Ota.Jobs.{
  is_terminal, is_no_finish, all_done, read_status, recompute_read, is_row, recompute_write,
  recompute,
}

abbrev finish : Deployment → Deployment
finish d = record d { status = DeploymentStatus.finished }

left_behind :
    (id : String) (read : DeploymentStatus)
    → is_no_finish read ≡ false
    → (d : Deployment) → is_row id read d ≡ true
    → is_row id read (finish d) ≡ false
unfolding is_row
left_behind id read h d t = ground arith

won :
    (id : String) (read : DeploymentStatus) (db : Db)
    → any (is_row id read) db.deployments ≡ true
    → recompute_write id read db ≡ record db {
      deployments = update_where (is_row id read) finish db.deployments;
      notices = (id, DeploymentStatus.finished) ∷ db.notices;
    }
unfolding recompute_write
won id read db h = rw h

lost :
    (id : String) (read : DeploymentStatus) (db : Db)
    → any (is_row id read) db.deployments ≡ false
    → recompute_write id read db ≡ db
unfolding recompute_write
lost id read db h = rw h

read_status_parts :
    (o : Option Deployment) (jobs : List Job) (s : DeploymentStatus)
    → read_status o jobs ≡ some s
    → (d : Deployment) × (o ≡ some d)
      × (d.status ≡ s)
      × (is_no_finish s ≡ false)
      × (all_done jobs ≡ true)
unfolding read_status
read_status_parts none jobs s h = cc
read_status_parts (some d) jobs s h = (d, refl, ground arith, ground arith, ground arith)

read_wins :
    (id : String) (db : Db) (read : DeploymentStatus)
    → recompute_read id db ≡ some read
    → (any (is_row id read) db.deployments ≡ true) × (is_no_finish read ≡ false)
read_wins id db read h =
    let (d, e, s, open_status, done) =
      read_status_parts (find_deployment id db) (jobs_of id db) read (unfold recompute_read in h) in
    let (m, t) =
      find-Among (λ (x : Deployment). x.id == id) db.deployments d (unfold find_deployment in e) in
    (
      any-Among (is_row id read) db.deployments d m (unfold is_row in rw (t, s, eqb_refl read)),
      open_status,
    )

recompute-some :
    (id : String) (db : Db) (read : DeploymentStatus)
    → recompute_read id db ≡ some read
    → recompute id db ≡ recompute_write id read db
unfolding recompute
recompute-some id db read h = rw (h, recompute)

recompute-none : (id : String) (db : Db) → recompute_read id db ≡ none → recompute id db ≡ db
unfolding recompute
recompute-none id db h = rw (h, recompute)

-- Two sweeps that both read the deployment before either writes: the second write changes nothing, so
-- the outcome is that of one sweep and the agent is told once.
pub recompute_race :
    (id : String) (db : Db) (read : DeploymentStatus)
    → recompute_read id db ≡ some read
    → (recompute_write id read (recompute_write id read db) ≡ recompute id db)
      × ((recompute id db).notices ≡ (id, DeploymentStatus.finished) ∷ db.notices)
recompute_race id db read h =
    let (wins, open_status) = read_wins id db read h in
    let first = won id read db wins in
    let gone =
      any-update_where (is_row id read) finish db.deployments (left_behind id read open_status) in
    (
      rw (recompute-some id db read h, first) (lost id read _ gone),
      rw (recompute-some id db read h, first),
    )

all_done_open :
    (jobs : List Job) (j : Job)
    → Among j jobs
    → is_terminal j.status ≡ false
    → all_done jobs ≡ false
unfolding all_done
all_done_open [] j m t = refl
all_done_open (k ∷ ks) j m t = all-Among (λ (x : Job). is_terminal x.status) (k ∷ ks) j m t

read_status_open :
    (o : Option Deployment) (jobs : List Job) → all_done jobs ≡ false → read_status o jobs ≡ none
unfolding read_status
read_status_open none jobs h = refl
read_status_open (some d) jobs h = ground arith

read_status_held :
    (d : Deployment) (jobs : List Job)
    → is_no_finish d.status ≡ true
    → read_status (some d) jobs ≡ none
unfolding read_status
read_status_held d jobs h = rw h

-- While a job of the deployment is open, or the deployment is paused, finished or aborted, the roll-up
-- writes nothing and tells nobody.
pub recompute_waits :
    (id : String) (db : Db)
    → ((j : Job) × Among j db.jobs × (j.deployment_id ≡ id) × (is_terminal j.status ≡ false))
      ⊎ ((d : Deployment) × (find_deployment id db ≡ some d) × (is_no_finish d.status ≡ true))
    → recompute id db ≡ db
recompute_waits id db (inl (j, m, own, t)) = recompute-none id db (
    unfold recompute_read in
    read_status_open (find_deployment id db) (jobs_of id db) (
      all_done_open (jobs_of id db) j
        (unfold jobs_of in
          Among-select_intro (λ (k : Job). k.deployment_id == id) db.jobs j m
            (rw own (eqb_refl id)))
        t))
recompute_waits id db (inr (d, e, held)) =
    recompute-none id db (unfold recompute_read in rw e (read_status_held d (jobs_of id db) held))

read_status_done :
    (d : Deployment) (jobs : List Job)
    → is_no_finish d.status ≡ false
    → all_done jobs ≡ true
    → read_status (some d) jobs ≡ some d.status
unfolding read_status
read_status_done d jobs h k = rw (h, k)

finish_if :
    (b : Bool) (d : Deployment) → b ≡ true → some (if b then finish d else d) ≡ some (finish d)
finish_if b d h = rw h

recompute_finishes :
    (id : String) (db : Db) (d : Deployment)
    → find_deployment id db ≡ some d
    → is_no_finish d.status ≡ false
    → all_done (jobs_of id db) ≡ true
    → find_deployment id (recompute id db) ≡ some (finish d)
recompute_finishes id db d e h k =
    let read : recompute_read id db ≡ some d.status =
      unfold recompute_read in rw e (read_status_done d (jobs_of id db) h k) in
    let (wins, _) = read_wins id db d.status read in
    let (m, t) =
      find-Among (λ (x : Deployment). x.id == id) db.deployments d (unfold find_deployment in e) in
    rw (recompute-some id db d.status read, won id d.status db wins)
      (unfold find_deployment in
        find-update_where (λ (x : Deployment). x.id == id) (is_row id d.status) finish
          db.deployments (λ x. refl)
        ∙ ap (updated (is_row id d.status) finish) e
        ∙ finish_if (is_row id d.status d) d (unfold is_row in rw (t, eqb_refl d.status)))
