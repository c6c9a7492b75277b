-- ===== src/Tools/Update/Examples.antt =====
-- Runs of the updater at concrete inputs.
use nff_core.Prelude.{
  ℕ, ◌+◌, ◌≤◌, Bool, true, false, Option, none, some, List, [], ◌∷◌, String, ◌≡◌, refl, Text,
  Result, ok, err, arith, codes,
}
use nff_core.Tools.Update.Versions.{is_newer, parse_version}
use nff_core.Tools.Update.State.{check, State, Install, detect_channel, acquire_lock, has_target}
use nff_core.Tools.Update.Release.{
  check_latest, Download, download_and_stage, parse_sha256sums, verify_staged, words,
}
use nff_core.Tools.Update.Swap.{Binary, Faults, swap, cleanup_old}
use nff_core.Tools.Update.Swap.Recovers.{Outcome, swap-Outcome}
use nff_core.Tools.Update.Run.{World, Setting, run_update}
use nff_core.Tools.Update.Run.Trusted.{IsTrusted, Fate, run_update-Fate}
use nff_core.Tools.Update.Hook.{Moment, after_command_hook, disabled}
use nff_core.Tools.Update.Hook.Once.{hook_once}

abbrev faultless : Faults
faultless = record {
  mkdir = false;
  copy = false;
  partial = none;
  chmod = false;
  replace = false;
  unlink_old = false;
  rename_away = false;
  rename_in = false;
  rename_back = false;
  unlink_new = false;
  cleanup = false;
}

abbrev home : Install
home = record {
  in_target_tree = false;
  marker_is_standalone = true;
  marker_is_this = true;
  frozen = false;
  in_default_dir = false;
  in_site_packages = false;
  has_package_file = true;
}

abbrev newest : Download
newest = record {
  asset = some (codes "nff-linux-x64");
  body = some "new";
  sums = some (codes "00AB *nff-linux-x64" ∷ []);
  can_stage = true;
}

abbrev setting : Setting
setting = record {
  background = false;
  writable = true;
  now = 100000;
  every_hours = 24;
  current = codes "1.2.0";
  install = home;
  answer = some (some (codes "https://example.com/releases/tag/v1.10.0"));
  available = newest;
  windows = true;
  faults = faultless;
}

abbrev fresh : State
fresh = record {
  last_check_at = 0;
  latest_version = none;
  updated_to = none;
  notified_version = none;
  last_error = none;
  error_surfaced = false;
}

abbrev world : World
world = record {
  lock = none;
  state = fresh;
  places = record { target = some "old"; new = none; old = none };
}

abbrev digest : Binary → Text
digest binary = codes "00ab"

abbrev prints : Binary → Option (ℕ × Text)
prints binary = some (0, codes "nff 1.10.0")

replaced : (run_update digest prints setting world).0.places.target ≡ some "new"
unfolding run_update check_latest is_newer parse_version detect_channel acquire_lock has_target
    download_and_stage parse_sha256sums words verify_staged swap cleanup_old nff_core.Prelude.strip
    nff_core.Ota.Phases.parse_int nff_core.Prelude.lower nff_core.Tools.Update.Release.is_infix
replaced = refl

run_update-Fate_example :
    Fate
      (IsTrusted digest prints setting)
      world.places
      (run_update digest prints setting world).0.places
run_update-Fate_example = run_update-Fate digest prints setting world

abbrev offline : Setting
offline = record setting { answer = none }

abbrev busy : World
busy = record world { lock = some 99000 }

abbrev stuck : Faults
stuck = record faultless { rename_in = true; rename_back = true }

swap-Outcome_example : Outcome true stuck "new" world.places (swap true stuck "new" world.places)
swap-Outcome_example = swap-Outcome true stuck "new" world.places

set_aside : (swap true stuck "new" world.places).0.old ≡ some "old"
unfolding swap
set_aside = refl

abbrev after : Moment
after = record {
  skip = false;
  no_update = [];
  hours = [];
  auto_enabled = true;
  writable = true;
  now = 200000;
  current = codes "1.2.0";
  install = home;
  faults = faultless;
}

abbrev failing : World
failing = record world {
  state = record fresh { last_error = some record { version = none; stage = check; at = 100000 } };
}

-- A check that found nothing new ran after the first hook.
abbrev checked : World
checked = record (after_command_hook after failing).0 {
  state = record (after_command_hook after failing).0.state { last_check_at = 300000 };
}

hook_once_example : (after_command_hook (record after { now = 300000 }) checked).1 ≡ []
unfolding disabled nff_core.Prelude.strip nff_core.Prelude.lower
hook_once_example =
    hook_once after (record after { now = 300000 }) failing checked refl refl refl refl
      record { done = refl; wrong = refl; surfaced = refl; latest = refl; notified = refl }
