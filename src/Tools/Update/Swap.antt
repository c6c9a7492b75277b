-- ===== src/Tools/Update/Swap.antt =====
-- Putting the new binary in the place of the old one, `swap` of nff/tools/updater.py. The three places are the
-- installed binary, `<target>.new` (`.nff.new.<pid>` on POSIX) and `<target>.old`. Each call of the
-- system that can fail has a flag that says whether it does.
pub mod Recovers
use nff_core.Prelude.{Bool, true, false, ◌&&◌, ◌||◌, Option, none, some, String, if◌then◌else◌}

-- The content of a binary
abbrev pub Binary : Type 0
Binary = String

pub record Places : Type 0 where
  pub target : Option Binary
  pub new : Option Binary
  pub old : Option Binary

pub record Faults : Type 0 where
  pub mkdir : Bool
  pub copy : Bool
  -- what a copy that fails leaves behind
  pub partial : Option Binary
  pub chmod : Bool
  -- `os.replace` over the target
  pub replace : Bool
  pub unlink_old : Bool
  pub rename_away : Bool
  pub rename_in : Bool
  pub rename_back : Bool
  pub unlink_new : Bool
  -- the removal of `.old` after a swap
  pub cleanup : Bool

exists : Option Binary → Bool
exists none = false
exists (some b) = true

drop_new : Faults → Places → Places
drop_new f p = if f.unlink_new then p else record p { new = none }

-- `os.rename` on Windows fails also where something is at the destination.
swap_posix : Faults → Binary → Places → Places × Bool
unfolding drop_new
swap_posix f staged p =
    if f.copy
    then (drop_new f record p { new = f.partial }, false)
    else if f.chmod || f.replace
    then (drop_new f record p { new = some staged }, false)
    else (record p { target = some staged; new = none }, true)

clear_old : Faults → Places → Places
clear_old f p = if f.unlink_old then p else record p { old = none }

rename_in : Faults → Places → Places × Bool
unfolding exists
rename_in f p =
    if f.rename_in || exists p.target
    then (p, false)
    else (record p { target = p.new; new = none }, true)

rename_back : Faults → Places → Places
rename_back f p = if f.rename_back then p else record p { target = p.old; old = none }

-- The target is away: the new one goes in, or the old one goes back.
put_in : Faults → Places × Bool → Places × Bool
unfolding rename_back drop_new
put_in f (p, true) = (p, true)
put_in f (p, false) = (drop_new f (rename_back f p), false)

put_fresh : Faults → Places × Bool → Places × Bool
unfolding drop_new
put_fresh f (p, true) = (p, true)
put_fresh f (p, false) = (drop_new f p, false)

replace_at : Faults → Places → Option Binary → Places × Bool
unfolding put_in put_fresh rename_in exists drop_new
replace_at f p none = put_fresh f (rename_in f p)
replace_at f p (some current) =
    if f.rename_away || exists p.old
    then (drop_new f p, false)
    else put_in f (rename_in f record p { target = none; old = some current })

swap_windows : Faults → Binary → Places → Places × Bool
unfolding clear_old replace_at
swap_windows f staged p =
    if f.copy
    then (record p { new = f.partial }, false)
    else replace_at f (clear_old f record p { new = some staged }) p.target

-- Whether it succeeded; a failure is the error of the stage `swap`.
unfoldable pub swap : Bool → Faults → Binary → Places → Places × Bool
unfolding swap_posix swap_windows
swap windows f staged p =
    if f.mkdir
    then (p, false)
    else if windows
    then swap_windows f staged p
    else swap_posix f staged p

unfoldable pub cleanup_old : Faults → Places → Places
cleanup_old f p = if f.cleanup then p else record p { old = none }
