-- ===== src/Ota/Creation/Targets.antt =====
-- Which jobs a new deployment gets.
use nff_core.Prelude.{
  ℕ, ◌≡◌, ◌≤◌, refl, subst, true, false, not, ◌&&◌, ◌⊎◌, Option, none, some, List, [], ◌∷◌, ◌++◌,
  String, ◌==◌, string_eq, arith, ltb, Among, Among-append, Among-map_elim, Result, ok, err,
  Bool-cases, inl, inr, length, find,
}
use nff_core.Ota.Status.{DeploymentStatus, JobStatus}
use nff_core.Ota.Store.{Db, Job, Device, Firmware, Group, Settings, DeploymentInfo, truthy}
use nff_core.Ota.Gate.{resolve_deployable_devices, GateError}
use nff_core.Ota.Gate.Compatible.{Deployable, resolve-Deployable_sound}
use nff_core.Ota.Creation.{
  CreateParams, Fresh, CreateError, new_job, job_rows, insert_jobs, initial_status, deployment_row,
  create_with_status, create_for, group_project, create_in, create_of, create_deployment,
  no_project, no_artifact,
}

-- A success: one deployment row in front of whose jobs the tables are unchanged, with a job for each
-- device that the gate resolved.
pub record Created (settings : Settings) (fresh : Fresh) (params : CreateParams) (db after : Db)
    : Type 0 where
  pub devices : List Device
  pub resolved :
      resolve_deployable_devices params.device_group_id params.target_version db ≡ ok devices
  pub confirmed : (params.confirm ≡ true) ⊎ (length devices ≤ settings.confirm_threshold_devices)
  pub project : String
  pub status : DeploymentStatus
  pub row : after.deployments ≡ db.deployments ++ deployment_row fresh params project status ∷ []
  pub jobs :
      after.jobs
      ≡ db.jobs
        ++ job_rows fresh fresh.deployment_id params.target_version devices
            (some project)
            params.phases
  pub rest : (after.devices ≡ db.devices) × (after.notices ≡ db.notices)

-- What the answer says of the state.
pub Answered :
    Settings → Fresh → CreateParams → Db → Db × Result CreateError DeploymentInfo → Type 0
Answered settings fresh params db (after, err e) = after ≡ db
Answered settings fresh params db (after, ok info) = Created settings fresh params db after

module _ (settings : Settings) (fresh : Fresh) (params : CreateParams) (db : Db) where
  status-Answered :
      (project : String) (devices : List Device) (r : Result CreateError DeploymentStatus)
      → resolve_deployable_devices params.device_group_id params.target_version db ≡ ok devices
      → (params.confirm ≡ true) ⊎ (length devices ≤ settings.confirm_threshold_devices)
      → Answered settings fresh params db (create_with_status fresh params project devices db r)
  unfolding Answered create_with_status insert_jobs
  status-Answered project devices (err e) h c = refl
  status-Answered project devices (ok s) h c = record {
    devices = devices;
    resolved = h;
    confirmed = c;
    project = project;
    status = s;
    row = refl;
    jobs = refl;
    rest = (refl, refl);
  }

  confirmed_cases :
      (n : ℕ)
      → (not params.confirm && ltb settings.confirm_threshold_devices n) ≡ false
      → (params.confirm ≡ true) ⊎ (n ≤ settings.confirm_threshold_devices)
  confirmed_cases n h = ground arith

  for-Answered :
      (project : String) (r : Result GateError (List Device))
      → resolve_deployable_devices params.device_group_id params.target_version db ≡ r
      → Answered settings fresh params db (create_for settings fresh params project r db)
  unfolding Answered create_for
  for-Answered project (err e) h = refl
  for-Answered project (ok devices) h =
      elim (Bool-cases
        (not params.confirm && ltb settings.confirm_threshold_devices (length devices))) [
          | inl e ↦ rw e refl
          | inr e ↦ rw e (
              status-Answered project devices (initial_status fresh (truthy params.start_time)) h
                (confirmed_cases (length devices) e))
        ]

  project-Answered :
      (o : Option String)
      → Answered settings fresh params db (elim o [
        | none ↦ (db, err (no_project params.device_group_id))
        | some project_id ↦
            create_for settings fresh params project_id
              (resolve_deployable_devices params.device_group_id params.target_version db)
              db
      ])
  unfolding Answered
  project-Answered none = refl
  project-Answered (some p) = for-Answered p _ refl

  in-Answered :
      (o : Option Group) → Answered settings fresh params db (create_in settings fresh params o db)
  unfolding Answered create_in
  in-Answered none = refl
  in-Answered (some g) = project-Answered (group_project g)

  storage-Answered :
      (o : Option String)
      → Answered settings fresh params db (elim o [
        | none ↦ (db, err (no_artifact params.target_version))
        | some path ↦
            create_in settings fresh params
              (find (λ (g : Group). g.id == params.device_group_id) db.groups)
              db
      ])
  unfolding Answered
  storage-Answered none = refl
  storage-Answered (some p) =
      in-Answered (find (λ (g : Group). g.id == params.device_group_id) db.groups)

  of-Answered :
      (o : Option Firmware)
      → Answered settings fresh params db (create_of settings fresh params o db)
  unfolding Answered create_of
  of-Answered none = refl
  of-Answered (some fw) = storage-Answered (truthy fw.storage_path)

  -- Creating a deployment that is refused, at any of its checks, changes nothing; one that succeeds adds one
  -- row and the jobs of the devices that the gate resolved, confirmed by the caller or few enough.
  pub create_deployment-Answered :
      Answered settings fresh params db (create_deployment settings fresh params db)
  unfolding create_deployment
  create_deployment-Answered =
      of-Answered (find (λ (f : Firmware). f.version == params.target_version) db.firmware)

-- A job that a creation added
pub record Targeted (fresh : Fresh) (params : CreateParams) (db : Db) (j : Job) : Type 0 where
  pub device : Device
  pub deployable : Deployable params.device_group_id params.target_version db device
  pub device_id : j.device_id ≡ device.id
  pub owner : j.deployment_id ≡ fresh.deployment_id
  pub status : j.status ≡ JobStatus.pending
  pub version : j.target_version ≡ params.target_version
  pub untried : (j.attempts ≡ 0) × (j.progress ≡ 0)

row-Targeted :
    (fresh : Fresh) (params : CreateParams) (db : Db) (ds : List Device) (project : Option String)
    (j : Job)
    → resolve_deployable_devices params.device_group_id params.target_version db ≡ ok ds
    → Among j (job_rows fresh fresh.deployment_id params.target_version ds project params.phases)
    → Targeted fresh params db j
unfolding job_rows new_job
row-Targeted fresh params db ds project j e m =
    let (d, found, same) = Among-map_elim _ ds j m in
    let deployable =
      resolve-Deployable_sound params.device_group_id params.target_version db ds d e found in
    rw same record {
      device = d;
      deployable = deployable;
      device_id = refl;
      owner = refl;
      status = refl;
      version = refl;
      untried = (refl, refl);
    }

targets_of :
    (settings : Settings) (fresh : Fresh) (params : CreateParams) (db : Db) (j : Job)
    (answer : Db × Result CreateError DeploymentInfo)
    → Answered settings fresh params db answer
    → Among j answer.0.jobs
    → Among j db.jobs ⊎ Targeted fresh params db j
unfolding Answered
targets_of settings fresh params db j (after, err e) h m =
    inl (subst (λ (x : Db). Among j x.jobs) h m)
targets_of settings fresh params db j (after, ok info) h m =
    elim (Among-append db.jobs _ j (subst (λ js. Among j js) h.jobs m)) [
      | inl old ↦ inl old
      | inr new ↦ inr (row-Targeted fresh params db h.devices (some h.project) j h.resolved new)
    ]

-- Every job after a creation was there before it, or is a pending job of the new deployment for a device
-- that its gate lets through.
pub create_deployment_targets :
    (settings : Settings) (fresh : Fresh) (params : CreateParams) (db : Db) (j : Job)
    → Among j (create_deployment settings fresh params db).0.jobs
    → Among j db.jobs ⊎ Targeted fresh params db j
create_deployment_targets settings fresh params db j m =
    targets_of settings fresh params db j (create_deployment settings fresh params db)
      (create_deployment-Answered settings fresh params db) m
