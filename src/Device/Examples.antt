-- ===== src/Device/Examples.antt =====
-- Updates of a device at concrete inputs.
use nff_core.Prelude.{
  false, Option, none, some, List, [], ◌∷◌, String, if◌then◌else◌, Text, text_eqb, codes, ◌≡◌, refl,
  inr, strip,
}
use nff_core.Ota.Phases.{parse_int}
use nff_core.Device.{
  Firmware, Nvs, Device, OtaCommand, Fetch, unreachable, fetched, Message, committed, rolled_back,
  handle, boot, version_le, version_key,
}
use nff_core.Device.Lifecycle.{
  IsAccepted, IsIdle, HasBuild, brought, update_commits, update_rolls_back, boot_reports_once,
}
use nff_core.Device.Upgrades.{Event, command, reboot, lives, IsUp, lives-IsUp}

abbrev stock : Firmware
stock = record { version = codes "1.2.0"; behaviour = "stock"; fault = none }

abbrev blank : Nvs
blank = record {
  ota_pending = false;
  ota_version = none;
  ota_prev_version = none;
  ota_prev_build_id = none;
  ota_build_id = none;
  ota_committed = false;
  ota_rollback_reason = none;
  fault = none;
}

abbrev device : Device
device = record {
  fw_version = codes "1.2.0";
  build_id = codes "b1";
  nvs = blank;
  firmware = stock;
  pending_fw_artifact = none;
}

abbrev ota : OtaCommand
ota = record {
  version = codes "1.3.0";
  url = codes "https://example.com/fw.bin";
  sha256 = codes "ab";
  build_id = some (codes "b2");
}

abbrev hash : String → Text
hash artifact = codes "ab"

abbrev load : String → Text → Firmware
load artifact version = record { version = version; behaviour = artifact; fault = none }

abbrev all_good : Text → Option String
all_good version = none

abbrev one_bad : Text → Option String
one_bad version = if text_eqb version (codes "1.3.0") then some "boot_loop" else none

accepted : IsAccepted hash ota (fetched "new") device
unfolding version_le version_key strip parse_int nff_core.Device.is_blank_text
    nff_core.Device.or_zero nff_core.Device.key_le
accepted = record { complete = refl; is_upgrade = refl; intact = inr ("new", refl, refl) }

update_commits_example :
    ((boot load all_good (handle hash ota (fetched "new") device).0).0.fw_version ≡ codes "1.3.0")
    × ((boot load all_good (handle hash ota (fetched "new") device).0).0.firmware
        ≡ brought load ota (fetched "new") device)
    × HasBuild
        (some (codes "b2"))
        (codes "b1")
        (boot load all_good (handle hash ota (fetched "new") device).0).0.build_id
    × IsIdle (boot load all_good (handle hash ota (fetched "new") device).0).0
    × ((boot load all_good (handle hash ota (fetched "new") device).0).1
        ≡ committed (codes "1.3.0") ∷ [])
update_commits_example =
    update_commits hash load all_good ota (fetched "new") device accepted refl refl

update_rolls_back_example :
    ((boot load one_bad (handle hash ota (fetched "new") device).0).0.fw_version ≡ codes "1.2.0")
    × ((boot load one_bad (handle hash ota (fetched "new") device).0).0.build_id ≡ codes "b1")
    × ((boot load one_bad (handle hash ota (fetched "new") device).0).0.firmware
        ≡ record stock { version = codes "1.2.0" })
    × IsIdle (boot load one_bad (handle hash ota (fetched "new") device).0).0
    × ((boot load one_bad (handle hash ota (fetched "new") device).0).1
        ≡ rolled_back (codes "1.3.0") (some "boot_loop") ∷ [])
update_rolls_back_example =
    update_rolls_back hash load one_bad ota (fetched "new") device accepted "boot_loop" refl

boot_reports_once_example :
    (boot load one_bad (boot load one_bad (handle hash ota unreachable device).0).0).1 ≡ []
boot_reports_once_example = boot_reports_once load one_bad (handle hash ota unreachable device).0

abbrev events : List Event
events =
    command ota unreachable
    ∷ reboot
    ∷ command (record ota { version = codes "1.0.0" }) (fetched "old")
    ∷ reboot
    ∷ []

lives-IsUp_example : IsUp (codes "1.2.0") (lives hash load all_good events device).fw_version
lives-IsUp_example = lives-IsUp hash load all_good events device refl
