-- ===== src/Ota/Supervisor/Verdict.antt =====
-- What one look of the supervisor at a deployment may do.
use nff_core.Prelude.{
  ℕ, ◌+◌, ◌≡◌, refl, sym, subst, true, false, Option, none, some, List, [], String, string_eq, ℤ,
  AllZip, get_elem?,
}
use nff_core.Float.{Float, is_zero}
use nff_core.Ota.Phases.{parse_phases}
use nff_core.Ota.Waves.{Decision, halt, advance, wait, phase_decision}
use nff_core.Ota.Store.{Db, Deployment, Settings, update_deployment}
use nff_core.Ota.Settled.{HasJobKeys}
use nff_core.Ota.Delivery.{Outside}
use nff_core.Ota.Start.Released.{Spared, Spares, Spares-refl, deliver_wave-Spares}
use nff_core.Ota.Supervisor.{
  released, threshold_of, verdict, pause, act, supervise_phases, supervise_one, next_phase,
}

pause-jobs :
    (settings : Settings) (dep : Deployment) (p : Option ℤ) (db : Db)
    → (pause settings dep p db).jobs ≡ db.jobs
unfolding pause update_deployment
pause-jobs settings dep none db = refl
pause-jobs settings dep (some p) db = refl

of_jobs-Spares : (id : String) (w : ℕ) (a b : Db) → b.jobs ≡ a.jobs → Spares id w a b
of_jobs-Spares id w a b e =
    subst (λ js. AllZip (Spared id w) a.jobs js) (sym e) (Spares-refl id w a)

module _ (settings : Settings) (out : Outside) (dep : Deployment) (db : Db)
    (keys : HasJobKeys db) where
  act-Spares :
      (phases : List ℤ) (d : Decision)
      → Spares dep.id (dep.current_phase + 1) db (act settings out dep phases db d)
  unfolding act update_deployment
  act-Spares phases halt =
      of_jobs-Spares dep.id (dep.current_phase + 1) db
        (pause settings dep (get_elem? phases dep.current_phase) db)
        (pause-jobs settings dep (get_elem? phases dep.current_phase) db)
  act-Spares phases advance =
      deliver_wave-Spares settings out (next_phase out.now dep) dep.id false
        (update_deployment dep.id
          (λ d. record d { current_phase = dep.current_phase + 1; phase_entered_at = some out.now })
          db)
        keys (dep.current_phase + 1)
  act-Spares phases wait = Spares-refl dep.id (dep.current_phase + 1) db

  phases-Spares :
      (o : Option (List ℤ))
      → Spares dep.id (dep.current_phase + 1) db (supervise_phases settings out dep o db)
  unfolding supervise_phases
  phases-Spares none = Spares-refl dep.id (dep.current_phase + 1) db
  phases-Spares (some phases) = act-Spares phases (verdict settings out.now dep phases db)

  -- With distinct job ids, one look of the supervisor changes only rows of the deployment's own jobs that were pending in a
  -- wave up to the one after its current phase.
  pub supervise_one-Spares :
      Spares dep.id (dep.current_phase + 1) db (supervise_one settings out dep db)
  unfolding supervise_one
  supervise_one-Spares = phases-Spares (parse_phases dep.phases)

module _ (settings : Settings) (out : Outside) (dep : Deployment) (db : Db) (phases : List ℤ) where
  -- A phased deployment whose released waves hold no job waits: the supervisor changes nothing, at any
  -- moment and however many waves are still to come.
  pub empty_cohort_waits :
      parse_phases dep.phases ≡ some phases
      → released dep.id dep.current_phase db ≡ []
      → supervise_one settings out dep db ≡ db
  unfolding supervise_one supervise_phases verdict phase_decision act
  empty_cohort_waits parsed none_released = rw (parsed, none_released) refl

-- A threshold of 0.0, the strictest that a request may set, is not used: the verdict is that of a row
-- without a threshold, which takes the default one.
pub zero_threshold_ignored :
    (settings : Settings) (now : ℕ) (dep : Deployment) (phases : List ℤ) (db : Db) (t : Float)
    → is_zero t ≡ true
    → verdict settings now (record dep { failure_threshold = some t }) phases db
      ≡ verdict settings now (record dep { failure_threshold = none }) phases db
unfolding verdict threshold_of
zero_threshold_ignored settings now dep phases db t z = rw z refl
