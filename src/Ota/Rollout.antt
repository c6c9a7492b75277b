-- ===== src/Ota/Rollout.antt =====
-- The life of a rollout once its jobs exist: the sweeps, device messages and operator commands of
-- observability/nff-ota/nff_ota as events, in any order. One handler runs at a time.
pub mod Traces
use nff_core.Prelude.{ℕ, Option, List, [], ◌∷◌, String, Bool}
use nff_core.Ota.Store.{Db, Settings}
use nff_core.Ota.Reports.{finalize_ota_result}
use nff_core.Ota.Progress.{record_ota_progress}
use nff_core.Ota.Delivery.{Outside}
use nff_core.Ota.Start.{start_deployment}
use nff_core.Ota.Control.{abort_deployment, resume_deployment}
use nff_core.Ota.Devices.{decommission_device}
use nff_core.Ota.Supervisor.{supervisor_sweep}
use nff_core.Ota.Reaper.{reaper_sweep}

pub data Event : Type 0 where
  supervisor_tick : Outside → Event
  reaper_tick : ℕ → Event
  -- device id, status, version, reason
  ota_result : ℕ → String → String → String → Option String → Event
  -- device id, version, stage, progress, attempt
  ota_progress : ℕ → String → String → String → Option ℕ → Option ℕ → Event
  start : Outside → String → Bool → Event
  abort : String → Event
  resume : ℕ → String → Event
  decommission : String → Event

unfoldable pub step : Settings → Event → Db → Db
step settings (supervisor_tick out) db = supervisor_sweep settings out db
step settings (reaper_tick now) db = (reaper_sweep settings now db).0
step settings (ota_result now device status version reason) db =
    (finalize_ota_result now device status version reason db).0
step settings (ota_progress now device version stage progress attempt) db =
    (record_ota_progress now device version stage progress attempt db).0
step settings (start out id force) db = (start_deployment settings out id force db).0
step settings (abort id) db = (abort_deployment id db).0
step settings (resume now id) db = (resume_deployment now id db).0
step settings (decommission id) db = (decommission_device id db).0

unfoldable pub run : Settings → List Event → Db → Db
run settings [] db = db
run settings (e ∷ es) db = run settings es (step settings e db)
