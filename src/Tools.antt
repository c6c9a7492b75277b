-- ===== src/Tools.antt =====
-- nff/tools: what the command line tool does around its toolchain.
pub mod Retry
pub mod Policy
pub mod Update
pub mod Diagnose
pub mod Examples
