-- ===== src/Tools/Update/Run.antt =====
-- One run of the updater, `run_update` of nff/tools/updater.py. The directory of the state file and the lock is
-- either writable throughout or not at all; what is printed and the staged file's removal are left out.
pub mod Trusted
pub mod Exits
use nff_core.Prelude.{
  ℕ, Bool, true, false, not, ◌&&◌, ◌||◌, Option, none, some, if◌then◌else◌, Text, Result, ok, err,
}
use nff_core.Tools.Update.Versions.{is_newer}
use nff_core.Tools.Update.State.{
  Stage, swap as swap_stage, verify, LastError, State, with_error, should_check, acquire_lock,
  Channel, standalone, wheel, dev, Install, detect_channel, has_target,
}
use nff_core.Tools.Update.Release.{check_latest, Download, download_and_stage, verify_staged}
use nff_core.Tools.Update.Swap.{Binary, Places, Faults, swap, cleanup_old}

-- What persists between runs
pub record World : Type 0 where
  pub lock : Option ℕ
  pub state : State
  pub places : Places

-- What a run meets
pub record Setting : Type 0 where
  pub background : Bool
  -- the directory of the state file and the lock
  pub writable : Bool
  pub now : ℕ
  pub every_hours : ℕ
  pub current : Text
  pub install : Install
  pub answer : Option (Option Text)
  pub available : Download
  pub windows : Bool
  pub faults : Faults

-- The exit code, or the stage of the UpdateError that it raises
pub data Exit : Type 0 where
  code : ℕ → Exit
  raised : Stage → Exit

save_state : Setting → State → World → World
save_state s st w = if s.writable then record w { state = st } else w

is_standalone : Channel → Bool
is_standalone standalone = true
is_standalone wheel = false
is_standalone dev = false

-- A failure is recorded; only the foreground raises it.
failed : Setting → Option Text → Stage → World → World × Exit
unfolding save_state
failed s version stage w = (
  save_state s (with_error version stage s.now w.state) w,
  if s.background then code 0 else raised stage,
)

unfoldable pub with_success : Text → State → State
with_success version st = record st { updated_to = some version; last_error = none }

swapped : Setting → Text → World → Places × Bool → World × Exit
unfolding failed save_state cleanup_old
swapped s version w (q, false) = failed s (some version) swap_stage (record w { places = q })
swapped s version w (q, true) = (
  save_state s (with_success version w.state) (record w { places = cleanup_old s.faults q }),
  code 0,
)

with_latest : ℕ → Text → State → State
with_latest now version st = record st { last_check_at = now; latest_version = some version }

-- The `finally`
unlocked : World × Exit → World × Exit
unlocked (w, e) = (record w { lock = none }, e)

-- The foreground serves the standalone channel only.
pub is_served : Bool → Channel → Bool
is_served true channel = true
is_served false standalone = true
is_served false wheel = false
is_served false dev = false

checked : Setting → World → Result Stage Text → World × Exit
unfolding with_latest save_state
checked s w (err stage) = (w, raised stage)
checked s w (ok version) = (
  save_state s (with_latest s.now version w.state) w,
  if is_newer version s.current then code 2 else code 0,
)

-- `check_only`
unfoldable pub check_update : Setting → World → World × Exit
unfolding checked
check_update s w = checked s w (check_latest s.answer)

module _ (sha256 : Binary → Text) (run : Binary → Option (ℕ × Text)) where
  install_staged : Setting → Text → World → Result Stage Binary → World × Exit
  unfolding swapped
  install_staged s version w (err stage) = failed s (some version) stage w
  install_staged s version w (ok binary) =
      if verify_staged run binary version
      then swapped s version w (swap s.windows s.faults binary w.places)
      else failed s (some version) verify w

  install_release : Setting → Text → World → World × Exit
  unfolding install_staged
  install_release s version w =
      if has_target s.install
      then install_staged s version w (download_and_stage sha256 s.available)
      else failed s (some version) swap_stage w

  released : Setting → World → Result Stage Text → World × Exit
  unfolding install_release with_latest save_state failed is_standalone
  released s w (err stage) = failed s none stage w
  released s w (ok version) =
      let seen = save_state s (with_latest s.now version w.state) w in
      if not (is_newer version s.current)
      then (seen, code 0)
      else if s.background && not (is_standalone (detect_channel s.install))
      then (seen, code 0)
      else install_release s version seen

  -- Under the lock
  locked : Setting → World → World × Exit
  unfolding released
  locked s w =
      if s.background && not (should_check s.every_hours w.state s.now)
      then (w, code 0)
      else released s w (check_latest s.answer)

  single_flight : Setting → World → Bool × Option ℕ → World × Exit
  unfolding locked unlocked
  single_flight s w (false, lock) =
      (record w { lock = lock }, if s.background then code 0 else code 1)
  single_flight s w (true, lock) = unlocked (locked s (record w { lock = lock }))

  unfoldable pub run_update : Setting → World → World × Exit
  unfolding single_flight is_served
  run_update s w =
      if is_served s.background (detect_channel s.install)
      then single_flight s w (acquire_lock s.writable s.now w.lock)
      else (w, code 1)
