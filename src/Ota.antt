-- ===== src/Ota.antt =====
-- nff-ota (observability/nff-ota/nff_ota): staged firmware rollouts over a device fleet.
pub mod Status
pub mod Transitions
pub mod Phases
pub mod Waves
pub mod Store
pub mod Jobs
pub mod Settled
pub mod Reports
pub mod Progress
pub mod Delivery
pub mod Start
pub mod Gate
pub mod Creation
pub mod Control
pub mod Supervisor
pub mod Reaper
pub mod Poller
pub mod Devices
pub mod FixQueue
pub mod Rollout
pub mod Handoff
pub mod Catalogue
pub mod FixSubmit
pub mod Examples
