-- ===== src/Fleet/Registry.antt =====
-- The in-memory registry of devices and the sweep that marks silent ones offline: nff_fleet/registry.py and
-- nff_fleet/reaper.py. Times are in milliseconds, the heartbeat intervals in seconds, and the miss factor
-- in thousandths.
pub mod Refines
use nff_core.Prelude.{
  ℕ, zero, suc, ◌+◌, ◌*◌, ltb, ℤ, pos, negsuc, Bool, true, false, Option, none, some, List, [], ◌∷◌,
  String, ◌==◌, string_eq, if◌then◌else◌, select, Dict, get, put, values,
}
use nff_core.Fleet.Messages.{
  Payload, Interval, seconds, malformed, Effect, mark_offline, truthy, or_default,
}

pub record DeviceInfo : Type 0 where
  pub device_id : String
  pub status : String
  pub project_id : Option String
  pub last_seen : ℕ
  pub heartbeat_payload : Option Payload
  pub heartbeat_interval_s : Option ℤ

-- `DeviceRegistry._devices`
abbrev pub Registry : Type 0
Registry = Dict DeviceInfo

pub known_or_new : ℕ → String → Option DeviceInfo → DeviceInfo
known_or_new now id (some info) = info
known_or_new now id none = record {
  device_id = id;
  status = "offline";
  project_id = none;
  last_seen = now;
  heartbeat_payload = none;
  heartbeat_interval_s = none;
}

or_kept : {A : Type 0} → Option A → Option A → Option A
or_kept none kept = kept
or_kept (some new) kept = some new

-- The interval and the project, in this order; a malformed interval raises before either is written.
with_interval : Option Interval → Option String → DeviceInfo → DeviceInfo
unfolding or_kept truthy
with_interval none project info = record info {
  project_id = or_kept (truthy project) info.project_id;
}
with_interval (some (seconds i)) project info = record info {
  heartbeat_interval_s = some i;
  project_id = or_kept (truthy project) info.project_id;
}
with_interval (some malformed) project info = info

pub heard : ℕ → Payload → Option String → DeviceInfo → DeviceInfo
unfolding or_default with_interval
heard now payload project info = with_interval payload.interval_s project record info {
  status = or_default "online" payload.status;
  last_seen = now;
  heartbeat_payload = some payload;
}

-- The registry after it; whether it raises is `raises` of the interval.
unfoldable pub update_heartbeat : ℕ → String → Payload → Option String → Registry → Registry
unfolding known_or_new heard
update_heartbeat now id payload project reg =
    put id (heard now payload project (known_or_new now id (get id reg))) reg

offline : DeviceInfo → DeviceInfo
offline info = record info { status = "offline" }

set_offline_at : String → Option DeviceInfo → Registry → Registry
unfolding offline
set_offline_at id none reg = reg
set_offline_at id (some info) reg = put id (offline info) reg

unfoldable pub set_offline : String → Registry → Registry
unfolding set_offline_at
set_offline id reg = set_offline_at id (get id reg) reg

-- `d.heartbeat_interval_s or default_interval`
interval_of : ℕ → Option ℤ → ℤ
interval_of default_interval none = pos default_interval
interval_of default_interval (some (pos zero)) = pos default_interval
interval_of default_interval (some i) = i

-- `d.last_seen < now - miss_factor * interval`
late : ℕ → ℕ → ℕ → ℤ → Bool
late last now miss (pos i) = ltb (last + miss * i) now
late last now miss (negsuc i) = ltb last (now + miss * suc i)

is_stale : ℕ → ℕ → ℕ → DeviceInfo → Bool
unfolding interval_of late
is_stale now default_interval miss d =
    if d.status == "online"
    then late d.last_seen now miss (interval_of default_interval d.heartbeat_interval_s)
    else false

unfoldable pub stale_online_devices : ℕ → ℕ → ℕ → Registry → List DeviceInfo
unfolding is_stale
stale_online_devices now default_interval miss reg =
    select (is_stale now default_interval miss) (values reg)

-- The writes of one sweep to the registry
mark : List DeviceInfo → Registry → Registry
mark [] reg = reg
mark (d ∷ ds) reg = mark ds (set_offline d.device_id reg)

marked : String → Option String → List Effect → List Effect
marked id none later = later
marked id (some project) later = mark_offline id project ∷ later

-- Its upserts of the devices with a project
upserts : List DeviceInfo → List Effect
unfolding marked truthy
upserts [] = []
upserts (d ∷ ds) = marked d.device_id (truthy d.project_id) (upserts ds)

unfoldable pub reap : ℕ → ℕ → ℕ → Registry → Registry × List Effect
unfolding mark upserts
reap now default_interval miss reg =
    let stale = stale_online_devices now default_interval miss reg in
    (mark stale reg, upserts stale)
