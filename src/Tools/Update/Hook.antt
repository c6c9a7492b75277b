-- ===== src/Tools/Update/Hook.antt =====
-- What runs after each command: notices of what the updater did, and the start of the next check in the
-- background, `after_command_hook` of nff/tools/updater.py.
pub mod Quiet
pub mod Once
use nff_core.Prelude.{
  ℕ, suc, pos, Bool, true, false, not, ◌&&◌, ◌||◌, Option, none, some, List, [], ◌∷◌, ◌++◌,
  if◌then◌else◌, Text, strip, lower, ◌==◌, text_eq, ℤ,
}
use nff_core.Ota.Phases.{parse_int}
use nff_core.Tools.Update.Versions.{is_newer}
use nff_core.Tools.Update.State.{
  LastError, State, should_check, lock_held, Channel, standalone, wheel, dev, Install,
  detect_channel, has_target,
}
use nff_core.Tools.Update.Swap.{Faults, cleanup_old}
use nff_core.Tools.Update.Run.{World}

-- NFF_NO_AUTO_UPDATE
unfoldable pub disabled : Text → Bool
disabled raw =
    let value = lower (strip raw) in
    value == (b'1' ∷ [])
    || value == (b't' ∷ b'r' ∷ b'u' ∷ b'e' ∷ [])
    || value == (b'y' ∷ b'e' ∷ b's' ∷ [])
    || value == (b'o' ∷ b'n' ∷ [])

-- NFF_UPDATE_EVERY_HOURS
hours_or : ℕ → Option ℤ → ℕ
hours_or default (some (pos (suc n))) = suc n
hours_or default _ = default

unfoldable pub every_hours : Text → ℕ
unfolding hours_or
every_hours raw = hours_or 24 (parse_int raw)

pub data Notice : Type 0 where
  updated : Text → Notice
  failure : LastError → Notice
  available : Text → Notice

pub record Moment : Type 0 where
  pub skip : Bool
  -- NFF_NO_AUTO_UPDATE and NFF_UPDATE_EVERY_HOURS
  pub no_update : Text
  pub hours : Text
  pub auto_enabled : Bool
  pub writable : Bool
  pub now : ℕ
  pub current : Text
  pub install : Install
  pub faults : Faults

pub show_updated : Option Text → State → State × List Notice
show_updated none st = (st, [])
show_updated (some []) st = (st, [])
show_updated (some (c ∷ v)) st = (record st { updated_to = none }, updated (c ∷ v) ∷ [])

pub show_error : Option LastError → State → State × List Notice
show_error none st = (st, [])
show_error (some e) st =
    if st.error_surfaced then (st, []) else (record st { error_surfaced = true }, failure e ∷ [])

is_notified : Text → Option Text → Bool
is_notified version none = false
is_notified version (some seen) = seen == version

is_wheel : Channel → Bool
is_wheel standalone = false
is_wheel wheel = true
is_wheel dev = false

pub show_available : Text → Channel → Option Text → State → State × List Notice
unfolding is_notified is_wheel
show_available current channel none st = (st, [])
show_available current channel (some []) st = (st, [])
show_available current channel (some (c ∷ v)) st =
    if is_wheel channel && is_newer (c ∷ v) current && not (is_notified (c ∷ v) st.notified_version)
    then (record st { notified_version = some (c ∷ v) }, available (c ∷ v) ∷ [])
    else (st, [])

-- The three notices, one after another
pub shown : Text → Channel → State → State × List Notice
unfolding show_updated show_error show_available
shown current channel st =
    let (st1, first) = show_updated st.updated_to st in
    let (st2, second) = show_error st1.last_error st1 in
    let (st3, third) = show_available current channel st2.latest_version st2 in
    (st3, first ++ (second ++ third))

is_dirty : List Notice → Bool
is_dirty [] = false
is_dirty (n ∷ ns) = true

is_dev : Channel → Bool
is_dev standalone = false
is_dev wheel = false
is_dev dev = true

is_installed : Channel → Bool
is_installed standalone = true
is_installed wheel = false
is_installed dev = false

-- The saved state, and the deferred removal of the previous binary
closed : Moment → World → State × List Notice → World
unfolding is_dirty is_installed
closed m w (st, notices) = record w {
  state = if is_dirty notices && m.writable then st else w.state;
  places =
      if is_installed (detect_channel m.install) && has_target m.install
      then cleanup_old m.faults w.places
      else w.places;
}

-- The world after it, the notices, and whether it starts an updater in the background
unfoldable pub after_command_hook : Moment → World → World × List Notice × Bool
unfolding closed shown is_dev
after_command_hook m w =
    if m.skip || disabled m.no_update || not m.auto_enabled
    then (w, [], false)
    else if is_dev (detect_channel m.install)
    then (w, [], false)
    else (
      closed m w (shown m.current (detect_channel m.install) w.state),
      (shown m.current (detect_channel m.install) w.state).1,
      should_check (every_hours m.hours) (shown m.current (detect_channel m.install) w.state).0
            m.now
          && not (lock_held m.now w.lock),
    )
