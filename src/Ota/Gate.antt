-- ===== src/Ota/Gate.antt =====
-- Who receives a firmware: _resolve_accepted_devices, _firmware_device_types, _filter_compatible,
-- _resolve_deployable_devices, and the two questions about a group's members, of
-- observability/nff-ota/nff_ota/tools/deployments/ops.py.
pub mod Fits
pub mod Compatible
use nff_core.Prelude.{
  ℕ, Bool, true, false, not, ◌&&◌, ◌||◌, Option, none, some, List, [], ◌∷◌, String, ◌==◌, string_eq,
  if◌then◌else◌, find, select, any, all, Text, strip, lower, is_blank, text_eq, Result, ok, err,
}
use text.Mathlib.Text.{starts_with}
use nff_core.Ota.Status.{DeviceStatus}
use nff_core.Ota.Store.{Db, Device, Firmware, Group, Member, or_else}

pub data GateError : Type 0 where
  no_members no_accepted no_compatible : GateError

is_accepted : Device → Bool
is_accepted d = elim d.ota_status [ DeviceStatus.accepted ↦ true | _ ↦ false ]

-- Is the device in `member_ids`, the members of the group?
pub is_member : String → List Member → Device → Bool
is_member group_id members d =
    any (λ (m : Member). m.group_id == group_id && m.device_id == d.id) members

has_members : String → List Member → Bool
has_members group_id members = any (λ (m : Member). m.group_id == group_id) members

non_empty {ℓ} : {A : Type ℓ} → GateError → List A → Result GateError (List A)
non_empty e [] = err e
non_empty e (x ∷ xs) = ok (x ∷ xs)

-- _resolve_accepted_devices
unfoldable pub resolve_accepted_devices : String → Db → Result GateError (List Device)
unfolding is_member has_members is_accepted non_empty
resolve_accepted_devices group_id db =
    if has_members group_id db.members
    then non_empty no_accepted
        (select (λ d. is_member group_id db.members d && is_accepted d) db.devices)
    else err no_members

-- `(x or "").strip()`
device_type_of : Device → Text
device_type_of d = strip (or_else d.device_type [])

types_of : Option Firmware → List Text
types_of none = []
types_of (some fw) = fw.device_types

-- _firmware_device_types
unfoldable pub firmware_device_types : String → Db → List Text
unfolding types_of
firmware_device_types target_version db =
    types_of (find (λ (f : Firmware). f.version == target_version) db.firmware)

-- The set `allowed` of an artifact's targets
unfoldable pub allowed_types : List Text → List Text
allowed_types [] = []
allowed_types (t ∷ ts) =
    let rest = allowed_types ts in if is_blank (strip t) then rest else lower (strip t) ∷ rest

-- The device's row of the gate: no reported type passes, else the type must be allowed.
unfoldable pub is_compatible : List Text → Device → Bool
unfolding device_type_of
is_compatible allowed d =
    let dt = lower (device_type_of d) in if is_blank dt then true else any (λ t. t == dt) allowed

split_by : List Text → List Device → List Device × List Device
split_by [] accepted = (accepted, [])
split_by (t ∷ ts) accepted = (
  select (is_compatible (t ∷ ts)) accepted,
  select (λ d. not (is_compatible (t ∷ ts) d)) accepted,
)

-- _filter_compatible: (compatible, skipped). Without targets everything is compatible.
unfoldable pub filter_compatible : List Device → List Text → List Device × List Device
unfolding split_by
filter_compatible accepted artifact_device_types =
    split_by (allowed_types artifact_device_types) accepted

gate : Result GateError (List Device) → List Text → Result GateError (List Device)
unfolding non_empty
gate (err e) types = err e
gate (ok accepted) types = non_empty no_compatible (filter_compatible accepted types).0

-- _resolve_deployable_devices
unfoldable pub resolve_deployable_devices : String → String → Db → Result GateError (List Device)
unfolding gate
resolve_deployable_devices group_id target_version db =
    gate (resolve_accepted_devices group_id db) (firmware_device_types target_version db)

-- group_member_device_types before the final sort: the first spelling of each reported type
distinct_types : List Text → List Device → List Text
unfolding device_type_of
distinct_types seen [] = []
distinct_types seen (d ∷ ds) =
    let dt = device_type_of d in
    let old = is_blank dt || any (λ t. t == lower dt) seen in
    let rest = distinct_types (if old then seen else lower dt ∷ seen) ds in
    if old then rest else dt ∷ rest

unfoldable pub group_member_device_types : String → Db → List Text
unfolding distinct_types is_member
group_member_device_types group_id db =
    distinct_types [] (select (is_member group_id db.members) db.devices)

qemu_type : Text
qemu_type =
    b'n' ∷ b'f' ∷ b'f' ∷ b'-' ∷ b'q' ∷ b'e' ∷ b'm' ∷ b'u' ∷ b'-' ∷ b'e' ∷ b's' ∷ b'p' ∷ b'3' ∷ b'2'
    ∷ []

-- A simulated device that never boots firmware
is_mock : Device → Bool
unfolding device_type_of qemu_type
is_mock d = starts_with d.id "mock-" && not (lower (device_type_of d) == qemu_type)

all_mock : List Device → Bool
unfolding is_mock
all_mock [] = false
all_mock (d ∷ ds) = all is_mock (d ∷ ds)

-- group_is_mock_only
unfoldable pub group_is_mock_only : String → Db → Bool
unfolding all_mock is_member
group_is_mock_only group_id db = all_mock (select (is_member group_id db.members) db.devices)
