-- ===== src/Ota/Poller.antt =====
-- The sweep that starts due deployments, observability/nff-ota/nff_ota/poller.py. A sweep runs to its
-- end before the next starts, so the set of deployments in flight is empty.
use nff_core.Prelude.{
  ℕ, zero, suc, ◌+◌, Bool, true, false, not, ◌&&◌, ◌||◌, Option, none, some, List, [], ◌∷◌, String,
  ◌==◌, string_eq, leb, if◌then◌else◌, select, any, Result, ok, err,
}
use nff_core.Ota.Status.{DeploymentStatus, deployment_status_eq, job_status_eq}
use nff_core.Ota.Store.{Db, Deployment, Job, Settings, truthy}
use nff_core.Ota.Delivery.{Outside, StartResult}
use nff_core.Ota.Start.{start_deployment}
use nff_core.Ota.Gate.{GateError}
use nff_core.Ota.Creation.{Fresh, materialize_jobs}

-- A start_time that does not parse, or is not yet due, leaves a scheduled deployment alone.
is_due_at : Fresh → Deployment → Bool
is_due_at fresh dep =
    if dep.status == DeploymentStatus.scheduled
    then elim (truthy dep.start_time) [
      | none ↦ true
      | some text ↦ elim (fresh.parse_time text) [ none ↦ false | some st ↦ leb st fresh.now ]
    ]
    else true

has_jobs : String → Db → Bool
has_jobs id db = any (λ (j : Job). j.deployment_id == id) db.jobs

after_materialize : Db × Result GateError ℕ → Option Db
after_materialize (db, err e) = none
after_materialize (db, ok zero) = none
after_materialize (db, ok (suc n)) = some db

-- The jobs of a scheduled deployment that has none yet; none where it cannot be deployed yet
prepared : Fresh → Deployment → Db → Option Db
unfolding has_jobs after_materialize
prepared fresh dep db =
    if dep.status == DeploymentStatus.scheduled && not (has_jobs dep.id db)
    then after_materialize (materialize_jobs fresh dep.id dep.target_version dep.device_group_id db)
    else some db

counted : Db × StartResult → ℕ → Db × ℕ
counted (db, result) started = elim result.error [
  | none ↦ (db, started + 1)
  | some e ↦ (db, started)
]

poll_one : Settings → Outside → Fresh → Deployment → Db → ℕ → Db × ℕ
unfolding is_due_at prepared counted
poll_one settings out fresh dep db started =
    if is_due_at fresh dep
    then elim (prepared fresh dep db) [
      | none ↦ (db, started)
      | some db₁ ↦ counted (start_deployment settings out dep.id false db₁) started
    ]
    else (db, started)

poll_all : Settings → Outside → Fresh → List Deployment → Db → ℕ → Db × ℕ
unfolding poll_one
poll_all settings out fresh [] db started = (db, started)
poll_all settings out fresh (dep ∷ deps) db started =
    let (db₁, started₁) = poll_one settings out fresh dep db started in
    poll_all settings out fresh deps db₁ started₁

-- poller.poll_once
unfoldable pub poll_once : Settings → Outside → Fresh → Db → Db × ℕ
unfolding poll_all
poll_once settings out fresh db =
    poll_all settings out fresh
      (select
        (λ (d : Deployment).
          d.status == DeploymentStatus.scheduled || d.status == DeploymentStatus.active)
        db.deployments)
      db 0
