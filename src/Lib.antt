-- ===== src/Lib.antt =====
-- nff-core: an embedded device toolchain with an over-the-air update service. This development models
-- the rollout core of that service, the Python package observability/nff-ota/nff_ota; the command plane
-- between it and the devices, observability/nff-fleet/nff_fleet; the correlation of crashes,
-- observability/nff-diagnosis/nff_diagnosis/correlation; the device's side of an update, as
-- observability/nff-mock plays it; and parts of the command line tool's nff/tools.
--
-- A deployment ships one firmware version to a group of devices: one job per device, bucketed into
-- waves. Handlers read and write tables of a database; background sweeps (poller, supervisor, reaper)
-- start deployments, release waves or halt them, and time out silent jobs; devices report progress and
-- outcomes; when every job has ended, the roll-up finishes the deployment.
--
-- Parts and files:
--   Prelude      shared names, tests, lists, texts, orders, and tables of rows.
--   Float        Python floats that are finite and not negative, exact to the bit (cohort percentages
--                and failure rates); Float/Rounding has the laws of rounding.
--   Ota/Status, Ota/Transitions   the status words and transitions.py.
--   Ota/Phases   _parse_phases, the phases column, CreateDeploymentParams._check_phases.
--   Ota/Waves    _assign_waves and _phase_decision.
--   Ota/Store    the tables as one state `Db`, and _dep_row_to_info.
--   Ota/Jobs     _apply_job_status and _recompute_deployment_status.
--   Ota/Settled  the relation `Keeps` between the states before and after: no job lost or added, no
--                outcome overwritten.
--   Ota/Reports, Ota/Progress   report_device_status, finalize_ota_result, record_ota_progress.
--   Ota/Delivery, Ota/Start     the rate limit, _deliver_one, _deliver_wave, start_deployment.
--   Ota/Gate, Ota/Creation      who receives a firmware; create_deployment and _materialize_jobs.
--   Ota/Control  get_deployment_status, abort_deployment, resume_deployment.
--   Ota/Supervisor, Ota/Reaper, Ota/Poller   one sweep of supervisor.py, reaper.py, poller.py. Ota/Supervisor/Tally
--                counts the released cohort.
--   Ota/Devices  enrollment, observability/nff-ota/nff_ota/tools/devices/ops.py.
--   Ota/FixQueue the queue of firmware fixes, source/jobs.py, and a sweep of source/fix_worker.py.
--   Ota/Handoff  the hand-off of an ended deployment to the agent, agent_notify.py.
--   Ota/Catalogue the firmware catalogue, tools/artifacts/ops.py, and the bucket of binaries, storage.py.
--   Ota/FixSubmit the submission of a firmware fix to that queue, source/ops.py and source/baseline.py.
--   Ota/Rollout  sequences of handlers and sweeps.
--   Ota/Examples a small fleet on which the statements are instantiated.
--   Fleet/Registry, Fleet/Router, Fleet/Telemetry   registry.py and reaper.py; broker/router.py and the
--                bookkeeping of commands.py; ota_result.py. Fleet/Messages has the payloads and effects.
--   Diagnosis/Cluster, Diagnosis/Groups, Diagnosis/Versions   cluster.py, _build_groups of engine.py and the
--                version predicates of predicate.py.
--   Device       the device's side of an update, observability/nff-mock/device/nff_mock: the command (ota.py), the
--                trial of the image at the next boot (device.py) and the report; Device/Lifecycle and
--                Device/Upgrades have its theorems.
--   Tools/Update nff/tools/updater.py: versions, state and lock, release checks, the swap of the binary,
--                one run, and the hook after each command.
--   Tools/Diagnose              the classifier of panics, nff/tools/diagnose.py.
--   Tools/Retry, Tools/Policy   nff/tools/retry.py, and the belief and the recorder of nff/tools/policy.py.
--   Tools/Examples              a flaky command, a short session on a bench and a panic.
-- The fleet passes what devices report on to the rollout service, whose handlers under Ota/Reports and
-- Ota/Progress take it from there; the two meet by HTTP and share no state. What a device does between the
-- command and its report is Device.
-- Of the files under Ota, all but the sweeps, enrollment, the hand-off, the catalogue, the fixes,
-- transitions.py and models/deployment.py is from
-- observability/nff-ota/nff_ota/tools/deployments/ops.py.
--
-- State: a table is the list of its rows; a filtered select or update goes over all of them, and a row
-- that no filter finds gives what the source does for an empty answer. Job ids are the primary key of
-- ota_jobs, a hypothesis (`HasJobKeys`) where it matters. A moment is a number of microseconds,
-- unless a file says otherwise. A
-- handler takes the state and returns the state and its answer; errors are values.
--
-- Arguments of the model, for code and services outside of it: the clock, the signed URL of an artifact
-- and the fleet's answer to a command (`Outside`); uuid4 and datetime.fromisoformat (`Fresh`); the runs of
-- a command and the patterns that classify its output; the digest that names a state of the bench; the
-- build of a fix; the crypto module and the storage of firmware; the hash of a downloaded binary, what it
-- prints when it is run, and the answers of the release server; and what the patterns of the panic
-- classifier match.
--
-- Fuel: `show_digits` takes one more than the number, which has no more digits than that;
-- `log2_from` takes the number itself. All other functions recurse on lists.
--
-- Not modelled: the interleaving of two handlers, except for the two halves of the roll-up; the order in
-- which concurrent deliveries end; failures of the database, except those of an upload and of the insert
-- of a fix; logging; the timers of the sweeps; texts of error messages, which are constructors with the
-- values that they show; list_deployments and list_devices; the sentences of a hand-off and what the agent
-- does with it; the debug ELFs and the queries of the catalogue; a boot of the mock device that ends before
-- its report; the planner of the bench policy; the connections of the fleet to its broker and the failures
-- of the services it calls; what goes through floats in the diagnosis, the scoring of hypotheses and the
-- comparison of other attributes than versions; and the other services of the repository.
mod Prelude
pub mod Float
pub mod Fleet
pub mod Diagnosis
pub mod Device
pub mod Ota
pub mod Tools
