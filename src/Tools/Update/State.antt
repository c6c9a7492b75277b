-- ===== src/Tools/Update/State.antt =====
-- The state file, the throttle, the lock and the install channel of the updater, nff/tools/updater.py. Times
-- are in seconds. The fields of the state file have the types that the updater writes.
use nff_core.Prelude.{
  ℕ, ◌+◌, ◌*◌, ltb, leb, Bool, true, false, ◌&&◌, ◌||◌, Option, none, some, if◌then◌else◌, Text,
}

pub data Stage : Type 0 where
  check download checksum verify swap : Stage

pub record LastError : Type 0 where
  pub version : Option Text
  pub stage : Stage
  pub at : ℕ

-- update.json
pub record State : Type 0 where
  pub last_check_at : ℕ
  pub latest_version : Option Text
  pub updated_to : Option Text
  pub notified_version : Option Text
  pub last_error : Option LastError
  pub error_surfaced : Bool

-- `_STATE_DEFAULT`
unfoldable pub default_state : State
default_state = record {
  last_check_at = 0;
  latest_version = none;
  updated_to = none;
  notified_version = none;
  last_error = none;
  error_surfaced = false;
}

-- What the state file becomes by `record_error`
unfoldable pub with_error : Option Text → Stage → ℕ → State → State
with_error version stage now state = record state {
  last_error = some record { version = version; stage = stage; at = now };
  error_surfaced = false;
}

-- `LOCK_STALE_SECONDS`
abbrev pub lock_stale_seconds : ℕ
lock_stale_seconds = 3600

unfoldable pub should_check : ℕ → State → ℕ → Bool
should_check every_hours state now = leb (state.last_check_at + every_hours * 3600) now

-- The lock file is the time it was written at. Writing one succeeds where the directory is writable and no
-- lock is there.
pub create_lock : Bool → ℕ → Option ℕ → Bool × Option ℕ
create_lock writable now none = (writable, if writable then some now else none)
create_lock writable now (some at) = (false, some at)

pub is_stale_lock : ℕ → Option ℕ → Bool
is_stale_lock now none = false
is_stale_lock now (some at) = ltb (at + lock_stale_seconds) now

-- `acquire_lock`: a stale lock is removed, and one second attempt is made.
unfoldable pub acquire_lock : Bool → ℕ → Option ℕ → Bool × Option ℕ
unfolding create_lock is_stale_lock
acquire_lock writable now lock =
    let (got, lock') = create_lock writable now lock in
    if got
    then (true, lock')
    else if is_stale_lock now lock && writable
    then create_lock writable now none
    else (false, lock')

unfoldable pub lock_held : ℕ → Option ℕ → Bool
lock_held now none = false
lock_held now (some at) = leb now (at + lock_stale_seconds)

pub data Channel : Type 0 where
  standalone wheel dev : Channel

-- What detect_channel finds out of the running program and of the marker file
pub record Install : Type 0 where
  -- the executable is in a cargo target tree
  pub in_target_tree : Bool
  -- the marker file names the channel and a path, and that path is the executable
  pub marker_is_standalone : Bool
  pub marker_is_this : Bool
  pub frozen : Bool
  pub in_default_dir : Bool
  pub in_site_packages : Bool
  pub has_package_file : Bool

unfoldable pub detect_channel : Install → Channel
detect_channel i =
    if i.in_target_tree
    then dev
    else if i.marker_is_standalone && i.marker_is_this
    then standalone
    else if i.frozen
    then standalone
    else if i.in_default_dir
    then standalone
    else if i.in_site_packages
    then wheel
    else if i.has_package_file
    then dev
    else wheel

-- Whether standalone_target finds the installed binary
unfoldable pub has_target : Install → Bool
has_target i = i.marker_is_standalone || i.in_default_dir
