-- ===== src/Ota/Devices/Enrollment.antt =====
-- How a device comes in and goes out.
use nff_core.Prelude.{
  ◌≡◌, refl, ap, sym, ◌∙◌, Bool, true, false, some, String, ◌==◌, string_eq, if◌then◌else◌, arith,
  any, Option, none, any-update_where, AllZip-update_where, All-of, find-update_where, find-Among,
  updated, true≢false, Result, ok, err, ℕ,
}
use nff_core.Ota.Status.{DeviceStatus, JobStatus, device_word, job_status_eq}
use nff_core.Ota.Transitions.{validate_transition, TransitionError}
use nff_core.Ota.Transitions.Graph.{passes, device_edge, device_edge_lem}
use nff_core.Ota.Store.{Db, Device, Job, find_device, update_device}
use nff_core.Ota.Settled.{Settled, Settled-refl, Keeps, Keeps-refl, Keeps-trans, Keeps-of_jobs}
use nff_core.Ota.Devices.{
  EnrollParams, DeviceInfo, DeviceError, registered, register_found, register_device, with_status,
  transition_checked, transition_found, transition_device, is_open_on, retire_jobs, retired,
  decommission_device, enrolled_status,
}

updated_row :
    (b : Bool) (f : Device → Device) (d : Device)
    → b ≡ true
    → some (if b then f d else d) ≡ some (f d)
updated_row b f d h = rw h

find_device-update_device :
    (id : String) (f : Device → Device) (db : Db) (d : Device)
    → ((x : Device) → (f x).id ≡ x.id)
    → find_device id db ≡ some d
    → find_device id (update_device id f db) ≡ some (f d)
unfolding find_device update_device
find_device-update_device id f db d same found =
    find-update_where (λ (x : Device). x.id == id) (λ x. x.id == id) f db.devices
      (λ x. ap (λ s. s == id) (same x))
    ∙ ap (updated (λ (x : Device). x.id == id) f) found
    ∙ updated_row (d.id == id) f d (find-Among (λ (x : Device). x.id == id) db.devices d found).1

module _ (id : String) (target : DeviceStatus) (db : Db) (row : Device)
    (found : find_device id db ≡ some row) where
  checked_moves :
      (r : Result TransitionError (Unit {0}))
      → passes r ≡ true
      → find_device id (transition_checked id target row db r).0 ≡ some (with_status target row)
  unfolding transition_checked
  checked_moves (err e) p = absurd (true≢false (sym p))
  checked_moves (ok u) p =
      find_device-update_device id (with_status target) db row (λ x. unfold with_status in refl)
        found

  checked_stays :
      (r : Result TransitionError (Unit {0}))
      → passes r ≡ false
      → (transition_checked id target row db r).0 ≡ db
  unfolding transition_checked
  checked_stays (err e) p = refl
  checked_stays (ok u) p = absurd (true≢false p)

  -- Along an edge of the device diagram a transition moves the device to its target; off the diagram it
  -- changes nothing.
  pub transition_device_edges :
      (device_edge row.ota_status target ≡ true
        → find_device id (transition_device id target db).0 ≡ some (with_status target row))
      × (device_edge row.ota_status target ≡ false → (transition_device id target db).0 ≡ db)
  unfolding transition_device transition_found
  transition_device_edges =
      let check = validate_transition "device" (device_word row.ota_status) (device_word target) in
      (
        λ edge. rw found (checked_moves check (device_edge_lem row.ota_status target ∙ edge)),
        λ edge. rw found (checked_stays check (device_edge_lem row.ota_status target ∙ edge)),
      )

closes :
    (id : String) (j : Job)
    → is_open_on id j ≡ true
    → is_open_on id (record j { status = JobStatus.decommissioned }) ≡ false
unfolding is_open_on
closes id j h = ground arith

-- What the answer of a decommissioning says of the jobs.
pub RetiredJobs : String → Db × Result DeviceError DeviceInfo → Type 0
RetiredJobs id (after, err e) = Unit
RetiredJobs id (after, ok info) = any (is_open_on id) after.jobs ≡ false

retired_jobs :
    (id : String) (r : Db × Result DeviceError DeviceInfo) → RetiredJobs id (retired id r)
unfolding retired retire_jobs RetiredJobs
retired_jobs id (db, err e) = tt
retired_jobs id (db, ok info) = any-update_where (is_open_on id) _ db.jobs (closes id)

-- After a decommissioning that is not refused, the device has no open job, in any deployment.
pub decommission_device_jobs : (id : String) (db : Db) → RetiredJobs id (decommission_device id db)
unfolding decommission_device
decommission_device_jobs id db =
    retired_jobs id (transition_device id DeviceStatus.decommissioned db)

register_row :
    (now : ℕ) (params : EnrollParams) (db : Db) (row : Device)
    → find_device params.device_id db ≡ some row
    → find_device params.device_id (register_device now params db).0
      ≡ some (registered params (enrolled_status row.ota_status) row)
unfolding register_device register_found
register_row now params db row found = rw found (
    find_device-update_device params.device_id (registered params (enrolled_status row.ota_status))
      db row (λ x. unfold registered in refl) found)

-- A decommissioned device that registers again can be accepted again: its registration, which is not
-- checked against the diagram, makes it pending.
pub decommissioned_returns :
    (now : ℕ) (params : EnrollParams) (db : Db) (row : Device)
    → find_device params.device_id db ≡ some row
    → row.ota_status ≡ DeviceStatus.decommissioned
    → find_device params.device_id
        (transition_device params.device_id DeviceStatus.accepted
          (register_device now params db).0).0
      ≡ some (registered params DeviceStatus.accepted row)
unfolding registered with_status
decommissioned_returns now params db row found out =
    let pending_row = registered params (enrolled_status row.ota_status) row in
    (transition_device_edges params.device_id DeviceStatus.accepted
        (register_device now params db).0 pending_row (register_row now params db row found)).0
      (rw out refl)

checked-jobs :
    (id : String) (target : DeviceStatus) (row : Device) (db : Db)
    (r : Result TransitionError (Unit {0}))
    → (transition_checked id target row db r).0.jobs ≡ db.jobs
unfolding transition_checked update_device
checked-jobs id target row db (err e) = refl
checked-jobs id target row db (ok u) = refl

found-jobs :
    (id : String) (target : DeviceStatus) (o : Option Device) (db : Db)
    → (transition_found id target o db).0.jobs ≡ db.jobs
unfolding transition_found
found-jobs id target none db = refl
found-jobs id target (some row) db = checked-jobs id target row db _

settles :
    (id : String) (j : Job)
    → is_open_on id j ≡ true
    → Settled j (record j { status = JobStatus.decommissioned })
unfolding is_open_on
settles id j h = ground arith

retired-Keeps : (id : String) (r : Db × Result DeviceError DeviceInfo) → Keeps r.0 (retired id r).0
unfolding retired retire_jobs
retired-Keeps id (db, err e) = Keeps-refl db
retired-Keeps id (db, ok info) = record {
  rows =
      AllZip-update_where Settled (is_open_on id) _ db.jobs (λ j. Settled-refl j)
        (All-of _ db.jobs (λ j. settles id j));
}

pub decommission_device-Keeps : (id : String) (db : Db) → Keeps db (decommission_device id db).0
unfolding decommission_device transition_device
decommission_device-Keeps id db =
    let moved = transition_found id DeviceStatus.decommissioned (find_device id db) db in
    Keeps-trans
      (Keeps-of_jobs db moved.0 (found-jobs id DeviceStatus.decommissioned (find_device id db) db))
      (retired-Keeps id moved)
