-- ===== src/Ota/Examples/Operator.antt =====
-- The small fleet under an abort and a status report, and the registry of transitions.
use nff_core.Prelude.{◌≡◌, refl, some, [], ◌∷◌}
use nff_core.Ota.Status.{DeploymentStatus}
use nff_core.Ota.Store.{Db, Deployment, find_deployment}
use nff_core.Ota.Control.{abort_deployment}
use nff_core.Ota.Control.Aborts.{Aborted, abort_closes_jobs}
use nff_core.Ota.Examples.{fleet, roll}

roll_found : find_deployment "roll" fleet ≡ some roll
unfolding find_deployment
roll_found = refl

abort_closes_jobs_example : Aborted "roll" roll fleet (abort_deployment "roll" fleet).0
abort_closes_jobs_example = abort_closes_jobs "roll" roll fleet roll_found refl

abbrev over : Deployment
over = record roll { status = DeploymentStatus.finished }

abbrev past : Db
past = record fleet { deployments = over ∷ [] }

over_found : find_deployment "roll" past ≡ some over
unfolding find_deployment
over_found = refl

abbrev held : Deployment
held = record roll { status = DeploymentStatus.paused }

abbrev on_hold : Db
on_hold = record fleet { deployments = held ∷ [] }

held_found : find_deployment "roll" on_hold ≡ some held
unfolding find_deployment
held_found = refl
