-- ===== src/Ota/Supervisor.antt =====
-- The phased rollout's sweep, observability/nff-ota/nff_ota/supervisor.py. A sweep runs to its end
-- before the next starts, so the set of deployments in flight is empty.
pub mod Verdict
pub mod Tally
pub mod Looks
pub mod Sweep
use nff_core.Prelude.{
  ℕ, zero, suc, ◌+◌, ◌*◌, ◌-◌, Bool, true, false, not, ◌&&◌, ◌||◌, Option, none, some, List, [],
  ◌∷◌, String, ◌==◌, string_eq, ltb, leb, if◌then◌else◌, count, length, select, any, find,
  get_elem?, ℤ, Result, ok, err,
}
use nff_core.Float.{Float, is_zero}
use nff_core.Ota.Status.{DeploymentStatus, JobStatus, deployment_status_eq, job_status_eq}
use nff_core.Ota.Phases.{parse_phases}
use nff_core.Ota.Waves.{Decision, halt, advance, wait, phase_decision}
use nff_core.Ota.Store.{
  Db, Deployment, Job, Settings, HaltReason, find_deployment, update_deployment, update_job, truthy,
}
use nff_core.Ota.Jobs.{is_terminal, is_failed, recompute}
use nff_core.Ota.Delivery.{Outside, StartResult}
use nff_core.Ota.Start.{deliver_wave, start_deployment}
use nff_core.Ota.Gate.{GateError}
use nff_core.Ota.Creation.{Fresh, materialize_jobs}

-- The released cohort: the deployment's jobs of waves up to the current phase
unfoldable pub released : String → ℕ → Db → List Job
released id current_phase db =
    select (λ (j : Job). j.deployment_id == id && leb j.wave current_phase) db.jobs

-- `float(dep.get("failure_threshold") or settings.default_failure_threshold)`: 0.0 is false
unfoldable pub threshold_of : Settings → Option Float → Float
threshold_of settings none = settings.default_failure_threshold
threshold_of settings (some t) = if is_zero t then settings.default_failure_threshold else t

-- soak_seconds since phase_entered_at, to the microsecond
unfoldable pub has_soaked : ℕ → ℕ → Option ℕ → Bool
has_soaked now soak_seconds none = true
has_soaked now soak_seconds (some t0) =
    if ltb 0 soak_seconds then leb (t0 + soak_seconds * 1000000) now else true

unfoldable pub verdict : Settings → ℕ → Deployment → List ℤ → Db → Decision
verdict settings now dep phases db =
    let cohort = released dep.id dep.current_phase db in
    phase_decision (length cohort) (count (λ (j : Job). is_failed j.status) cohort)
      (count (λ (j : Job). not (is_terminal j.status)) cohort)
      (has_soaked now dep.soak_seconds dep.phase_entered_at)
      (leb (length phases - 1) dep.current_phase) (threshold_of settings dep.failure_threshold)

halt_reason : Settings → Deployment → ℤ → Db → HaltReason
halt_reason settings dep percent db =
    let cohort = released dep.id dep.current_phase db in
    HaltReason.auto_halt dep.current_phase percent (count (λ (j : Job). is_failed j.status) cohort)
      (length cohort) (threshold_of settings dep.failure_threshold)

next_phase : ℕ → Deployment → Deployment
next_phase now d = record d { current_phase = d.current_phase + 1; phase_entered_at = some now }

-- The pause. The text of the reason indexes `phases`: past their end it raises before the write, and
-- the sweep goes on.
unfoldable pub pause : Settings → Deployment → Option ℤ → Db → Db
unfolding halt_reason
pause settings dep none db = db
pause settings dep (some percent) db =
    update_deployment dep.id
      (λ d. record d {
        status = DeploymentStatus.paused;
        halted_reason = some (halt_reason settings dep percent db);
      })
      db

unfoldable pub act : Settings → Outside → Deployment → List ℤ → Db → Decision → Db
unfolding pause next_phase
act settings out dep phases db halt = pause settings dep (get_elem? phases dep.current_phase) db
act settings out dep phases db advance =
    (deliver_wave settings out (next_phase out.now dep) dep.id (dep.current_phase + 1) false (
      update_deployment dep.id
        (λ d. record d { current_phase = dep.current_phase + 1; phase_entered_at = some out.now })
        db)).0
act settings out dep phases db wait = db

supervise_phases : Settings → Outside → Deployment → Option (List ℤ) → Db → Db
supervise_phases settings out dep none db = db
supervise_phases settings out dep (some phases) db =
    act settings out dep phases db (verdict settings out.now dep phases db)

-- _supervise_one
unfoldable pub supervise_one : Settings → Outside → Deployment → Db → Db
unfolding supervise_phases
supervise_one settings out dep db = supervise_phases settings out dep (parse_phases dep.phases) db

supervise_all : Settings → Outside → List Deployment → Db → Db
supervise_all settings out [] db = db
supervise_all settings out (dep ∷ deps) db =
    supervise_all settings out deps (supervise_one settings out dep db)

has_phases : Deployment → Bool
has_phases d = elim d.phases [ none ↦ false | some csv ↦ elim csv [ [] ↦ false | _ ↦ true ] ]

-- The rows that a sweep reads at its start
active_phased : Db → List Deployment
unfolding has_phases
active_phased db =
    select (λ (d : Deployment). d.status == DeploymentStatus.active && has_phases d) db.deployments

-- supervisor.sweep_once
unfoldable pub supervisor_sweep : Settings → Outside → Db → Db
unfolding supervise_all active_phased
supervisor_sweep settings out db = supervise_all settings out (active_phased db) db
