-- ===== src/Ota/Examples/Outcome.antt =====
-- The jobs of the small fleet under reports, progress messages and the roll-up.
use nff_core.Prelude.{◌≡◌, refl, none, some, [], ◌∷◌, AllZip, ◌⊎◌}
use nff_core.Ota.Status.{DeploymentStatus, JobStatus}
use nff_core.Ota.Store.{Deployment, find_deployment, jobs_of}
use nff_core.Ota.Jobs.{recompute, recompute_read, recompute_write, all_done}
use nff_core.Ota.Jobs.Rollup.{recompute_race}
use nff_core.Ota.Jobs.Rollup.Decided.{IsDone, IsFinished, IsUnfinished, recompute_decides}
use nff_core.Ota.Settled.{Keeps}
use nff_core.Ota.Reports.{finalize_ota_result, report_device_status}
use nff_core.Ota.Reports.Outcomes.{finalize-Keeps, Stepped, report-Stepped}
use nff_core.Ota.Examples.{fleet, done, three_keys}

finalize-Keeps_example : Keeps fleet (finalize_ota_result 50 "nff-a" "committed" "2.0" none fleet).0
finalize-Keeps_example = finalize-Keeps 50 "nff-a" "committed" "2.0" none fleet three_keys

report-Stepped_example :
    AllZip Stepped fleet.jobs (report_device_status 50 "a" "roll" JobStatus.installing fleet).0.jobs
report-Stepped_example = report-Stepped 50 "a" "roll" JobStatus.installing fleet three_keys

done_read : recompute_read "roll" done ≡ some DeploymentStatus.active
unfolding recompute_read find_deployment jobs_of all_done
done_read = refl

recompute_race_example :
    (recompute_write "roll" DeploymentStatus.active
        (recompute_write "roll" DeploymentStatus.active done)
      ≡ recompute "roll" done)
    × ((recompute "roll" done).notices ≡ ("roll", DeploymentStatus.finished) ∷ [])
recompute_race_example = recompute_race "roll" done DeploymentStatus.active done_read

recompute_decides_example :
    ((d : Deployment) × IsDone "roll" done d × IsFinished "roll" d done (recompute "roll" done))
    ⊎ (IsUnfinished "roll" done × (recompute "roll" done ≡ done))
recompute_decides_example = recompute_decides "roll" done
