-- ===== src/Ota/FixSubmit.antt =====
-- The submission of a firmware fix by the agent: observability/nff-ota/nff_ota/source/ops.py with the floor that
-- source/baseline.py puts under it. What the repository serves as the baseline, and whether the insert of the
-- job fails, are arguments; of a revision the id, tenant, fault and build id are left out.
pub mod Current
pub mod Refusals
pub mod Upgrades
use text.Mathlib.Text.{starts_with}
use nff_core.Prelude.{
  ℕ, zero, suc, ◌+◌, ◌*◌, ◌-◌, ltb, leb, nat_eqb, Bool, true, false, not, ◌&&◌, ◌||◌, Option, none,
  some, List, [], ◌∷◌, ◌++◌, String, ◌==◌, string_eq, if◌then◌else◌, select, Text, text_eqb,
  is_digit, strip, codes, Result, ok, err,
}
use nff_core.Ota.Store.{Db, Device, find_device, or_else, truthy}
use nff_core.Ota.FixQueue.{FixJob, FixRequest, enqueue}
use nff_core.Tools.Update.Versions.{split_char}

abbrev pub Semver : Type 0
Semver = ℕ × ℕ × ℕ

number : ℕ → Text → Option ℕ
unfolding is_digit
number acc [] = some acc
number acc (c ∷ s) =
    let rest = number (acc * 10 + (c - b'0')) s in if is_digit c then rest else none

-- `(\d+)`
digits : Text → Option ℕ
unfolding number
digits [] = none
digits (c ∷ s) = number 0 (c ∷ s)

triple : Option ℕ → Option ℕ → Option ℕ → Option Semver
triple (some a) (some b) (some c) = some (a, b, c)
triple _ _ _ = none

semver_parts : List Text → Option Semver
unfolding digits triple
semver_parts (a ∷ b ∷ c ∷ []) = triple (digits a) (digits b) (digits c)
semver_parts _ = none

-- `_semver`
unfoldable pub semver : String → Option Semver
unfolding semver_parts strip split_char
semver version = semver_parts (split_char b'.' (strip (codes version)))

-- Python's `<=` of tuples
unfoldable pub semver_le : Semver → Semver → Bool
semver_le (a, b, c) (d, e, f) = ltb a d || nat_eqb a d && (ltb b e || nat_eqb b e && leb c f)

-- A row of `mock_firmware_revisions`
pub record Revision : Type 0 where
  pub device_id : String
  pub version : String
  pub source : String
  pub parent_version : Option String
  pub author : String
  pub created_at : ℕ

pub record Fixes : Type 0 where
  pub db : Db
  pub revisions : List Revision
  pub queue : List FixJob

later_of : Revision → Option Revision → Revision
later_of r none = r
later_of r (some s) = if ltb r.created_at s.created_at then s else r

latest : List Revision → Option Revision
unfolding later_of
latest [] = none
latest (r ∷ rs) = some (later_of r (latest rs))

-- `_latest_revision`
unfoldable pub latest_revision : String → List Revision → Option Revision
unfolding latest
latest_revision device_id revisions =
    latest (select (λ (r : Revision). r.device_id == device_id) revisions)

-- What the repository serves for the baseline, and whether it is the placeholder
pub record Served : Type 0 where
  pub source : String
  pub is_stub : Bool

pub is_qemu : Device → Bool
unfolding strip
is_qemu d = text_eqb (strip (or_else d.device_type [])) (codes "nff-qemu-esp32")

baseline : ℕ → String → Served → Revision
baseline now device_id served = record {
  device_id = device_id;
  version = "0.0.0";
  source = served.source;
  parent_version = none;
  author = "baseline";
  created_at = now;
}

recorded : ℕ → String → Option Served → List Revision → List Revision × Bool
unfolding baseline
recorded now device_id none revisions = (revisions, false)
recorded now device_id (some served) revisions =
    if served.is_stub
    then (revisions, false)
    else (revisions ++ baseline now device_id served ∷ [], true)

is_l2 : Device → Option String → Bool
unfolding is_qemu
is_l2 d none = false
is_l2 d (some project) = is_qemu d

baseline_of : ℕ → Option Served → String → Option Device → List Revision → List Revision × Bool
unfolding recorded is_l2
baseline_of now served device_id none revisions = (revisions, false)
baseline_of now served device_id (some d) revisions =
    if is_l2 d (truthy d.project_id)
    then recorded now device_id served revisions
    else (revisions, false)

-- `ensure_baseline` of a device without a revision
ensure_baseline : ℕ → Option Served → String → Fixes → Fixes × Bool
unfolding baseline_of
ensure_baseline now served device_id s =
    let (revisions, there) =
      baseline_of now served device_id (find_device device_id s.db) s.revisions in
    (record s { revisions = revisions }, there)

pub current_or_baseline :
    ℕ → Option Served → String → Option Revision → Fixes → Fixes × Option Revision
unfolding ensure_baseline
current_or_baseline now served device_id (some r) s = (s, some r)
current_or_baseline now served device_id none s =
    let (s', there) = ensure_baseline now served device_id s in
    (s', if there then latest_revision device_id s'.revisions else none)

pub data FixError : Type 0 where
  not_semver no_device no_project real_hardware enqueue_failed : FixError
  not_greater : String → FixError

project_or : Option String → Result FixError String
project_or none = err no_project
project_or (some project) = ok project

unfoldable pub is_mock : Device → Bool
unfolding is_qemu
is_mock d = is_qemu d || starts_with d.id "mock-"

project_of_device : Device → Result FixError String → Result FixError String
project_of_device d (err e) = err e
project_of_device d (ok project) = if is_mock d then ok project else err real_hardware

pub project_of : Option Device → Result FixError String
unfolding project_or project_of_device
project_of none = err no_device
project_of (some d) = project_of_device d (project_or (truthy d.project_id))

-- `_device_project_id`
unfoldable pub device_project_id : String → Db → Result FixError String
unfolding project_of
device_project_id device_id db = project_of (find_device device_id db)

pub record FixParams : Type 0 where
  pub device_id : String
  pub version : String
  pub source : String
  pub changelog : Option String

pub version_of : Option Revision → Option String
version_of none = none
version_of (some r) = some r.version

unfoldable pub request : String → FixParams → String → Option Revision → FixRequest
unfolding version_of
request job_id p project current = record {
  id = job_id;
  project_id = some project;
  device_id = p.device_id;
  version = p.version;
  source = p.source;
  parent_version = version_of current;
  changelog = p.changelog;
  author = "agent";
}

-- What the job is enqueued with, beside the answers of the tables
pub record Turn : Type 0 where
  pub now : ℕ
  pub job_id : String
  pub served : Option Served
  pub insert_fails : Bool

enqueued : Turn → FixParams → String → Option Revision → Fixes → Fixes × Result FixError String
enqueued t p project current s = if t.insert_fails then (s, err enqueue_failed) else (
  record s { queue = enqueue t.now (request t.job_id p project current) s.queue },
  ok t.job_id,
)

is_not_above : Semver → Option Semver → Bool
is_not_above new none = false
is_not_above new (some current) = semver_le new current

above :
    Turn → FixParams → Semver → String → Option Revision → Fixes → Fixes × Result FixError String
unfolding enqueued is_not_above
above t p new project none s = enqueued t p project none s
above t p new project (some r) s =
    if is_not_above new (semver r.version)
    then (s, err (not_greater r.version))
    else enqueued t p project (some r) s

with_project :
    Turn → FixParams → Semver → Result FixError String → Fixes → Fixes × Result FixError String
unfolding above current_or_baseline
with_project t p new (err e) s = (s, err e)
with_project t p new (ok project) s =
    let (s', current) =
      current_or_baseline t.now t.served p.device_id (latest_revision p.device_id s.revisions) s in
    above t p new project current s'

with_version : Turn → FixParams → Option Semver → Fixes → Fixes × Result FixError String
unfolding with_project
with_version t p none s = (s, err not_semver)
with_version t p (some new) s = with_project t p new (device_project_id p.device_id s.db) s

unfoldable pub submit_firmware_fix : Turn → FixParams → Fixes → Fixes × Result FixError String
unfolding with_version
submit_firmware_fix t p s = with_version t p (semver p.version) s
