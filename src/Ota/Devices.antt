-- ===== src/Ota/Devices.antt =====
-- Enrollment of devices, observability/nff-ota/nff_ota/tools/devices/ops.py. Of the identity attributes
-- only `mqtt_id` is kept; failures of the database, which the source answers, do not arise.
pub mod Enrollment
use nff_core.Prelude.{
  ℕ, Bool, true, false, ◌&&◌, Option, none, some, List, [], ◌∷◌, ◌++◌, String, ◌==◌, string_eq,
  if◌then◌else◌, update_where, Result, ok, err,
}
use nff_core.Ota.Status.{DeviceStatus, JobStatus, device_word}
use nff_core.Ota.Transitions.{validate_transition, TransitionError}
use nff_core.Ota.Store.{Db, Device, Job, find_device, update_device, truthy}
use nff_core.Ota.Control.{is_open}

-- RegisterDeviceParams, and PreauthorizeDeviceParams, which has no tags
pub record EnrollParams : Type 0 where
  pub device_id : String
  pub mqtt_id : Option String
  pub public_key : String
  pub tags : List String

-- DeviceInfo
pub record DeviceInfo : Type 0 where
  pub id : String
  pub mqtt_id : Option String
  pub public_key : Option String
  pub status : DeviceStatus
  pub current_firmware_version : Option String
  pub tags : List String
  pub created_at : ℕ

pub data DeviceError : Type 0 where
  device_not_found : String → DeviceError
  bad_transition : TransitionError → DeviceError

-- _row_to_info
unfoldable pub row_to_info : Device → DeviceInfo
row_to_info row = record {
  id = row.id;
  mqtt_id = row.mqtt_id;
  public_key = row.public_key;
  status = row.ota_status;
  current_firmware_version = row.current_firmware_version;
  tags = row.tags;
  created_at = row.created_at;
}

-- The row of a device that the heartbeat has not created yet. It has no tenant.
unfoldable pub new_device : ℕ → EnrollParams → DeviceStatus → Device
new_device now params status = record {
  id = params.device_id;
  current_firmware_version = none;
  firmware_version = some "unknown";
  device_type = none;
  ota_status = status;
  project_id = none;
  mqtt_id = params.mqtt_id;
  public_key = truthy (some params.public_key);
  tags = params.tags;
  created_at = now;
}

-- `"accepted" if row.get("ota_status") == "preauthorized" else "pending"`
abbrev pub enrolled_status : DeviceStatus → DeviceStatus
enrolled_status DeviceStatus.preauthorized = DeviceStatus.accepted
enrolled_status _ = DeviceStatus.pending

unfoldable pub registered : EnrollParams → DeviceStatus → Device → Device
registered params status row = record row {
  mqtt_id = params.mqtt_id;
  public_key = truthy (some params.public_key);
  tags = params.tags;
  ota_status = status;
}

insert_device : Device → Db → Db
insert_device row db = record db { devices = db.devices ++ row ∷ [] }

register_found : ℕ → EnrollParams → Option Device → Db → Db × DeviceInfo
unfolding insert_device
register_found now params none db =
    let row = new_device now params DeviceStatus.pending in (insert_device row db, row_to_info row)
register_found now params (some row) db =
    let target = enrolled_status row.ota_status in
    (
      update_device params.device_id (registered params target) db,
      row_to_info (registered params target row),
    )

-- register_device
unfoldable pub register_device : ℕ → EnrollParams → Db → Db × DeviceInfo
unfolding register_found
register_device now params db = register_found now params (find_device params.device_id db) db

-- A preauthorization leaves the tags of a known device as they are.
preauthorized : EnrollParams → Device → Device
preauthorized params row = record row {
  mqtt_id = params.mqtt_id;
  public_key = truthy (some params.public_key);
  ota_status = DeviceStatus.preauthorized;
}

preauthorize_found : ℕ → EnrollParams → Option Device → Db → Db × DeviceInfo
unfolding insert_device preauthorized
preauthorize_found now params none db =
    let row = record (new_device now params DeviceStatus.preauthorized) { tags = [] } in
    (insert_device row db, row_to_info row)
preauthorize_found now params (some row) db = (
  update_device params.device_id (preauthorized params) db,
  row_to_info (preauthorized params row),
)

-- preauthorize_device
unfoldable pub preauthorize_device : ℕ → EnrollParams → Db → Db × DeviceInfo
unfolding preauthorize_found
preauthorize_device now params db =
    preauthorize_found now params (find_device params.device_id db) db

unfoldable pub with_status : DeviceStatus → Device → Device
with_status target row = record row { ota_status = target }

transition_checked :
    String
    → DeviceStatus
    → Device
    → Db
    → Result TransitionError (Unit {0})
    → Db × Result DeviceError DeviceInfo
transition_checked id target row db (err e) = (db, err (bad_transition e))
transition_checked id target row db (ok _) =
    (update_device id (with_status target) db, ok (row_to_info (with_status target row)))

transition_found : String → DeviceStatus → Option Device → Db → Db × Result DeviceError DeviceInfo
unfolding transition_checked
transition_found id target none db = (db, err (device_not_found id))
transition_found id target (some row) db =
    transition_checked id target row db
      (validate_transition "device" (device_word row.ota_status) (device_word target))

-- _transition_device; with "accepted" it is accept_device, with "rejected" it is reject_device
unfoldable pub transition_device : String → DeviceStatus → Db → Db × Result DeviceError DeviceInfo
unfolding transition_found
transition_device id target db = transition_found id target (find_device id db) db

unfoldable pub is_open_on : String → Job → Bool
is_open_on device_id j = j.device_id == device_id && is_open j.status

retire_jobs : String → Db → Db
retire_jobs device_id db = record db {
  jobs =
      update_where (is_open_on device_id)
        (λ (j : Job). record j { status = JobStatus.decommissioned }) db.jobs;
}

retired : String → Db × Result DeviceError DeviceInfo → Db × Result DeviceError DeviceInfo
unfolding retire_jobs
retired device_id (db, err e) = (db, err e)
retired device_id (db, ok info) = (retire_jobs device_id db, ok info)

-- decommission_device
unfoldable pub decommission_device : String → Db → Db × Result DeviceError DeviceInfo
unfolding retired
decommission_device device_id db =
    retired device_id (transition_device device_id DeviceStatus.decommissioned db)
