-- ===== src/Ota/Supervisor/Sweep.antt =====
-- A whole sweep of the supervisor.
use nff_core.Prelude.{◌+◌, List, [], ◌∷◌}
use nff_core.Ota.Store.{Db, Deployment, Settings}
use nff_core.Ota.Settled.{Keeps, Keeps-refl, Keeps-trans, Keeps-keys, HasJobKeys}
use nff_core.Ota.Delivery.{Outside}
use nff_core.Ota.Start.Released.{Spares-Keeps}
use nff_core.Ota.Supervisor.{supervise_one, supervise_all, active_phased, supervisor_sweep}
use nff_core.Ota.Supervisor.Verdict.{supervise_one-Spares}

module _ (settings : Settings) where
  supervise_all-Keeps :
      (out : Outside) (deps : List Deployment) (db : Db)
      → HasJobKeys db
      → Keeps db (supervise_all settings out deps db)
  unfolding supervise_all
  supervise_all-Keeps out [] db keys = Keeps-refl db
  supervise_all-Keeps out (dep ∷ deps) db keys =
      let next = supervise_one settings out dep db in
      let first : Keeps db next =
        Spares-Keeps dep.id (dep.current_phase + 1) db next
          (supervise_one-Spares settings out dep db keys) in
      Keeps-trans first (supervise_all-Keeps out deps next (Keeps-keys db next first keys))

  pub supervisor_sweep-Keeps :
      (out : Outside) (db : Db) → HasJobKeys db → Keeps db (supervisor_sweep settings out db)
  unfolding supervisor_sweep
  supervisor_sweep-Keeps out db keys = supervise_all-Keeps out (active_phased db) db keys
