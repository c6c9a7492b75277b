-- ===== src/Tools/Update.antt =====
-- The self-update of the command line tool, nff/tools/updater.py.
pub mod Versions
pub mod State
pub mod Release
pub mod Swap
pub mod Run
pub mod Hook
pub mod Examples
