-- ===== src/Ota/Examples/Fixes.antt =====
-- A queue with a fix that waits and one whose worker died.
use nff_core.Prelude.{
  ◌≡◌, refl, true, false, none, some, codes, List, [], ◌∷◌, any, map, All, Distinct, unequal, arith,
}
use nff_core.Ota.FixQueue.{
  FixStatus, FixJob, is_running_row, probe, claim, Built, deployed, fix_sweep,
}
use nff_core.Ota.FixSubmit.{Fixes, FixParams, Turn, submit_firmware_fix}
use nff_core.Ota.FixSubmit.Upgrades.{Submitted, submit-Submitted}
use nff_core.Ota.Examples.{fleet, device_a}
use nff_core.Ota.FixQueue.Claims.{claim_once}
use nff_core.Ota.FixQueue.Attempts.{WithinLimit, fix_sweep-WithinLimit}

abbrev waiting_fix : FixJob
waiting_fix = record {
  id = "f1";
  project_id = none;
  device_id = "a";
  version = "2.1.0";
  source = "void setup() {}";
  parent_version = none;
  changelog = none;
  author = "agent";
  status = FixStatus.pending;
  attempts = 0;
  created_at = 50;
  started_at = none;
  finished_at = none;
  updated_at = 50;
  deployment_id = none;
  fault_remaining = false;
  failure = none;
}

abbrev dead_fix : FixJob
dead_fix = record waiting_fix {
  id = "f2";
  status = FixStatus.running;
  attempts = 2;
  created_at = 10;
  started_at = some 20;
}

abbrev fixes : List FixJob
fixes = waiting_fix ∷ dead_fix ∷ []

next_fix : probe fixes ≡ some waiting_fix
unfolding probe
next_fix = refl

claim_once_example :
    (any (is_running_row waiting_fix.id) (claim 60 waiting_fix fixes).0 ≡ true)
    × (claim 61 waiting_fix (claim 60 waiting_fix fixes).0 ≡ ((claim 60 waiting_fix fixes).0, none))
claim_once_example = claim_once 60 61 waiting_fix fixes next_fix

fix_keys : Distinct (map (λ (j : FixJob). j.id) fixes)
fix_keys = ((unequal "f1" "f2" refl, tt), (tt, tt))

fixes-WithinLimit : All (WithinLimit 2) fixes
fixes-WithinLimit = (
  record { ran = omega arith; may_run = λ h. omega arith },
  (record { ran = omega arith; may_run = λ h. cc }, tt),
)

abbrev good_build : FixJob → Built
good_build job = deployed (some "roll") none false

fix_sweep-WithinLimit_example : All (WithinLimit 2) (fix_sweep 900 600 2 good_build fixes).0
fix_sweep-WithinLimit_example =
    fix_sweep-WithinLimit 2 900 600 good_build fixes fix_keys fixes-WithinLimit

-- An emulated device without a revision gets the baseline as its floor.
abbrev desk : Fixes
desk = record {
  db = record fleet {
    devices = record device_a { device_type = some (codes "nff-qemu-esp32") } ∷ [];
  };
  revisions = [];
  queue = fixes;
}

abbrev turn : Turn
turn = record {
  now = 70;
  job_id = "f3";
  served = some record { source = "int main() {}"; is_stub = false };
  insert_fails = false;
}

abbrev patch : FixParams
patch = record { device_id = "a"; version = "0.0.1"; source = "void loop() {}"; changelog = none }

submit-Submitted_example : Submitted turn patch desk (submit_firmware_fix turn patch desk)
submit-Submitted_example = submit-Submitted turn patch desk
