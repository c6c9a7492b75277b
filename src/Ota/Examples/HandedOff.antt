-- ===== src/Ota/Examples/HandedOff.antt =====
-- The ends of deployments of the small fleet, handed off to the agent.
use nff_core.Prelude.{true, false, none, some, List, [], ◌∷◌, get, put, ◌≡◌, refl}
use nff_core.Ota.Status.{JobStatus, DeploymentStatus}
use nff_core.Ota.Handoff.{Prompt, Settings, Ended, notify_deployment_terminal}
use nff_core.Ota.Handoff.Cooldown.{IsAskedFor, failure_handed_off}
use nff_core.Ota.Handoff.Spacing.{Call, Spaced, summaries, summaries-Spaced}
use nff_core.Ota.Examples.{roll, first_job, old_job}

abbrev settings : Settings
settings = record { agent_on_finish = true; skip_demo = true; cooldown = 300 }

abbrev broke : Ended
broke = record {
  row = some roll;
  is_demo_or_pool = false;
  jobs = record first_job { status = JobStatus.timed_out } ∷ old_job ∷ [];
  run = none;
  connected = some "acme/firmware";
}

abbrev went_well : Ended
went_well = record broke { jobs = old_job ∷ [] }

failure_handed_off_example :
    (prompt : Prompt) × (notify_deployment_terminal 100 settings broke DeploymentStatus.finished
        (put "p" 90 [])
      ≡ (put "p" 90 [], some ("p", prompt)))
    × IsAskedFor none (some "acme/firmware") prompt
failure_handed_off_example =
    failure_handed_off 100 settings broke roll DeploymentStatus.finished "p" (put "p" 90 [])
      (refl, refl, refl, refl, refl) refl

abbrev calls : List Call
calls =
    record { at = 100; ended = went_well; status = DeploymentStatus.finished }
    ∷ record { at = 200; ended = went_well; status = DeploymentStatus.finished }
    ∷ record { at = 400; ended = went_well; status = DeploymentStatus.finished }
    ∷ []

summaries-Spaced_example : Spaced 300 (get "p" []) (summaries settings "p" calls [])
summaries-Spaced_example = summaries-Spaced settings "p" calls [] refl
