-- ===== src/Device.antt =====
-- The device's side of an update as the mock device plays it, observability/nff-mock/device/nff_mock/ota.py and
-- device.py, after the C SDK: checks, download, the image on trial, commit or rollback, and the report. What a
-- download gives, the loading of a firmware and the versions that are known to be bad are arguments. A key of
-- the NVS is a field; the flags "1" and "0" are truth values, and a flag that is erased is false.
-- A boot is one that connects; the progress ticks of a download are left out.
pub mod Lifecycle
pub mod Upgrades
pub mod Examples
use nff_core.Prelude.{
  ℕ, zero, suc, ◌+◌, ◌*◌, ◌/◌, ltb, leb, nat_eqb, ℤ, pos, negsuc, Bool, true, false, not, ◌&&◌,
  ◌||◌, Option, none, some, List, [], ◌∷◌, ◌++◌, String, ◌==◌, string_eq, if◌then◌else◌, Text,
  text_eqb,
}
use nff_core.Ota.Phases.{parse_int}
use nff_core.Tools.Update.Versions.{split_char}

take_three : List Text → List Text
take_three (a ∷ b ∷ c ∷ more) = a ∷ b ∷ c ∷ []
take_three parts = parts

cons_int : Option ℤ → Option (List ℤ) → Option (List ℤ)
cons_int (some n) (some ns) = some (n ∷ ns)
cons_int _ _ = none

ints : List Text → Option (List ℤ)
unfolding cons_int
ints [] = some []
ints (p ∷ ps) = cons_int (parse_int p) (ints ps)

-- `tuple(int(x) for x in a.split(".")[:3])`
unfoldable pub version_key : Text → Option (List ℤ)
unfolding take_three ints split_char
version_key v = ints (take_three (split_char b'.' v))

pub int_lt : ℤ → ℤ → Bool
int_lt (pos a) (pos b) = ltb a b
int_lt (pos a) (negsuc b) = false
int_lt (negsuc a) (pos b) = true
int_lt (negsuc a) (negsuc b) = ltb b a

pub int_eq : ℤ → ℤ → Bool
int_eq (pos a) (pos b) = nat_eqb a b
int_eq (negsuc a) (negsuc b) = nat_eqb a b
int_eq _ _ = false

-- Python's order of tuples
pub key_le : List ℤ → List ℤ → Bool
unfolding int_lt int_eq
key_le [] ys = true
key_le (x ∷ xs) [] = false
key_le (x ∷ xs) (y ∷ ys) = int_lt x y || int_eq x y && key_le xs ys

key_le? : Option (List ℤ) → Option (List ℤ) → Bool
key_le? (some a) (some b) = key_le a b
key_le? _ _ = false

key_gt? : Option (List ℤ) → Option (List ℤ) → Bool
key_gt? (some a) (some b) = not (key_le a b)
key_gt? _ _ = false

-- `_version_le` of ota.py and `_version_gt` of device.py
unfoldable pub version_le : Text → Text → Bool
unfolding key_le?
version_le a b = key_le? (version_key a) (version_key b)

unfoldable pub version_gt : Text → Text → Bool
unfolding key_gt?
version_gt a b = key_gt? (version_key a) (version_key b)

pub record Firmware : Type 0 where
  pub version : Text
  pub behaviour : String
  -- the scenario that the code declares
  pub fault : Option String

pub data FaultSource : Type 0 where
  inject firmware : FaultSource

pub record Fault : Type 0 where
  pub scenario : String
  pub fixed_after : Text
  pub source : FaultSource

pub record Nvs : Type 0 where
  pub ota_pending : Bool
  pub ota_version : Option Text
  pub ota_prev_version : Option Text
  pub ota_prev_build_id : Option Text
  pub ota_build_id : Option Text
  pub ota_committed : Bool
  -- the scenario named in the reason of a rollback
  pub ota_rollback_reason : Option String
  pub fault : Option Fault

pub record Device : Type 0 where
  pub fw_version : Text
  pub build_id : Text
  pub nvs : Nvs
  pub firmware : Firmware
  pub pending_fw_artifact : Option String

pub record OtaCommand : Type 0 where
  pub version : Text
  pub url : Text
  pub sha256 : Text
  pub build_id : Option Text

-- What comes of the request for the artifact
pub data Fetch : Type 0 where
  unreachable : Fetch
  fetched : String → Fetch

pub data Message : Type 0 where
  missing_fields downgrade_rejected sha256_mismatch : Message
  ota_started : Text → Message
  -- the version, and for a rollback the scenario of its reason
  committed : Text → Message
  rolled_back : Text → Option String → Message

pub is_blank_text : Text → Bool
is_blank_text [] = true
is_blank_text (c ∷ s) = false

-- `x or default`
or_text : Text → Text → Text
or_text default [] = default
or_text default (c ∷ s) = c ∷ s

or_some : Text → Option Text → Text
unfolding or_text
or_some default none = default
or_some default (some s) = or_text default s

-- `d.fw_version or "0.0.0"`
abbrev pub or_zero : Text → Text
unfolding or_text
or_zero v = or_text (b'0' ∷ b'.' ∷ b'0' ∷ b'.' ∷ b'0' ∷ []) v

kept_build : Option Text → Option Text → Option Text
kept_build none before = before
kept_build (some []) before = before
kept_build (some (c ∷ b)) before = some (c ∷ b)

-- The intent that the reboot carries out
staged : OtaCommand → Device → Option String → Device
unfolding kept_build
staged c d artifact = record d {
  nvs = record d.nvs {
    ota_pending = true;
    ota_version = some c.version;
    ota_prev_version = some d.fw_version;
    ota_prev_build_id = some d.build_id;
    ota_build_id = kept_build c.build_id d.nvs.ota_build_id;
    ota_committed = true;
  };
  pending_fw_artifact = artifact;
}

-- A download that fails its hash is an error; one that is unreachable goes on without an artifact.
downloaded : (String → Text) → OtaCommand → Device → Fetch → Device × List Message
unfolding staged
downloaded hash c d unreachable = (staged c d none, ota_started c.version ∷ [])
downloaded hash c d (fetched artifact) =
    if text_eqb (hash artifact) c.sha256
    then (staged c d (some artifact), ota_started c.version ∷ [])
    else (d, ota_started c.version ∷ sha256_mismatch ∷ [])

-- `OtaSimulator.handle`
unfoldable pub handle : (String → Text) → OtaCommand → Fetch → Device → Device × List Message
unfolding downloaded is_blank_text
handle hash c fetch d =
    if is_blank_text c.version || is_blank_text c.url || is_blank_text c.sha256
    then (d, missing_fields ∷ [])
    else if not (version_le (or_zero d.fw_version) c.version)
    then (d, downgrade_rejected ∷ [])
    else downloaded hash c d fetch

-- The trial failed: the image before is run again.
revert : String → Device → Device
unfolding or_some
revert scenario d =
    let prev = or_some d.fw_version d.nvs.ota_prev_version in
    record d {
      fw_version = prev;
      firmware = record d.firmware { version = prev };
      build_id = or_some d.build_id d.nvs.ota_prev_build_id;
      pending_fw_artifact = none;
      nvs = record d.nvs {
        ota_build_id = none;
        ota_committed = false;
        ota_rollback_reason = some scenario;
      };
    }

loaded : (String → Text → Firmware) → Text → Firmware → Option String → Firmware
loaded load version held none = record held { version = version }
loaded load version held (some artifact) = load artifact version

-- A fault that a command injected is cured by a higher version.
cured : Text → Option Fault → Option Fault
cured version none = none
cured version (some f) = elim f.source [
  | firmware ↦ some f
  | inject ↦ if version_gt version (or_zero f.fixed_after) then none else some f
]

erased_build : Option Text → Option Text
erased_build none = none
erased_build (some []) = some []
erased_build (some (c ∷ b)) = none

-- The trial passed.
commit : (String → Text → Firmware) → Text → Device → Device
unfolding loaded cured or_some erased_build
commit load version d = record d {
  fw_version = version;
  build_id = or_some d.build_id d.nvs.ota_build_id;
  firmware = loaded load version d.firmware d.pending_fw_artifact;
  pending_fw_artifact = none;
  nvs = record d.nvs {
    ota_build_id = erased_build d.nvs.ota_build_id;
    fault = cured version d.nvs.fault;
  };
}

tried : (String → Text → Firmware) → Text → Option String → Device → Device
unfolding commit revert
tried load version (some scenario) d = revert scenario d
tried load version none d = commit load version d

-- `_apply_pending_ota`; `buggy` is the map of versions that fail their trial.
unfoldable pub apply_pending_ota :
    (String → Text → Firmware) → (Text → Option String) → Device → Device
unfolding tried or_some
apply_pending_ota load buggy d =
    if d.nvs.ota_pending
    then (let version = or_some d.fw_version d.nvs.ota_version in
        tried load version (buggy version) d)
    else d

declared : Option String → Option Fault → Option Fault
declared (some scenario) old =
    some record { scenario = scenario; fixed_after = or_zero []; source = firmware }
declared none none = none
declared none (some f) = elim f.source [ firmware ↦ none | inject ↦ some f ]

-- `_sync_fault_from_firmware`
unfoldable pub sync_fault : Device → Device
unfolding declared
sync_fault d = record d { nvs = record d.nvs { fault = declared d.firmware.fault d.nvs.fault } }

cleared : Nvs → Nvs
cleared nvs = record nvs {
  ota_pending = false;
  ota_version = none;
  ota_committed = false;
  ota_prev_version = none;
  ota_prev_build_id = none;
  ota_rollback_reason = none;
}

-- `check_pending_result` with `build_ota_result`
unfoldable pub check_pending_result : Device → Device × List Message
unfolding cleared or_some
check_pending_result d =
    if d.nvs.ota_pending
    then (
      record d { nvs = cleared d.nvs },
      (let version = or_some d.fw_version d.nvs.ota_version in
            if d.nvs.ota_committed
            then committed version
            else rolled_back version d.nvs.ota_rollback_reason)
          ∷ [],
    )
    else (d, [])

-- A boot, as `_session` makes it: the update first, then the fault of the held firmware, then the report
unfoldable pub boot :
    (String → Text → Firmware) → (Text → Option String) → Device → Device × List Message
boot load buggy d = check_pending_result (sync_fault (apply_pending_ota load buggy d))
