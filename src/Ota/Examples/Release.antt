-- ===== src/Ota/Examples/Release.antt =====
-- A start of the small fleet: its gate, its first wave, and what the answer counts.
use nff_core.Prelude.{◌≡◌, ◌⊎◌, refl, false, [], ◌∷◌, inl, inr, Among, ok, sorted}
use nff_core.Ota.Status.{JobStatus}
use nff_core.Ota.Store.{Job}
use nff_core.Ota.Start.{deliver_wave}
use nff_core.Ota.Start.Released.{Spares, deliver_wave-Spares}
use nff_core.Ota.Gate.{
  resolve_deployable_devices, resolve_accepted_devices, filter_compatible, allowed_types,
  firmware_device_types,
}
use nff_core.Ota.Gate.Compatible.{Deployable, resolve-Deployable_sound}
use nff_core.Float.{mul_nat, div, le_nat}
use nff_core.Ota.Waves.{assign_waves, wave_of}
use nff_core.Ota.Creation.{create_deployment, insert_jobs, job_rows}
use nff_core.Ota.Creation.Targets.{
  Answered, create_deployment-Answered, Targeted, create_deployment_targets,
}
use nff_core.Ota.Examples.{
  waiting, fleet, roll, settings, at_100, draw, request, three_keys, first_job, device_a, device_b,
}

deliver_wave-Spares_example :
    Spares "roll" 0 waiting (deliver_wave settings at_100 roll "roll" 0 false waiting).0
deliver_wave-Spares_example =
    deliver_wave-Spares settings at_100 roll "roll" false waiting three_keys 0

both : resolve_deployable_devices "g" "2.0" fleet ≡ ok (device_a ∷ device_b ∷ [])
unfolding resolve_deployable_devices resolve_accepted_devices filter_compatible allowed_types
    firmware_device_types
both = refl

resolve-Deployable_sound_example : Deployable "g" "2.0" fleet device_b
resolve-Deployable_sound_example =
    resolve-Deployable_sound "g" "2.0" fleet (device_a ∷ device_b ∷ []) device_b both
      (inr (inl refl))

create_deployment-Answered_example :
    Answered settings draw request fleet (create_deployment settings draw request fleet)
create_deployment-Answered_example = create_deployment-Answered settings draw request fleet

abbrev new_job_a : Job
new_job_a = record first_job {
  id = "a";
  deployment_id = "next";
  status = JobStatus.pending;
  progress = 0;
  attempts = 0;
  started_at = 100;
  last_updated = 100;
}

new_job_listed : Among new_job_a (create_deployment settings draw request fleet).0.jobs
unfolding create_deployment resolve_deployable_devices resolve_accepted_devices filter_compatible
    allowed_types firmware_device_types insert_jobs job_rows assign_waves sorted mul_nat div le_nat
    wave_of
new_job_listed = inr (inr (inr (inl refl)))

create_deployment_targets_example :
    Among new_job_a fleet.jobs ⊎ Targeted draw request fleet new_job_a
create_deployment_targets_example =
    create_deployment_targets settings draw request fleet new_job_a new_job_listed
