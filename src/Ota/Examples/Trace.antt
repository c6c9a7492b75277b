-- ===== src/Ota/Examples/Trace.antt =====
-- A short life of the small fleet.
use nff_core.Prelude.{none, List, [], ◌∷◌, false}
use nff_core.Ota.Rollout.{
  Event, supervisor_tick, reaper_tick, ota_result, start, abort, decommission,
}
use nff_core.Ota.Examples.{at_100}

abbrev story : List Event
story =
    start at_100 "roll" false
    ∷ ota_result 110 "nff-a" "committed" "2.0" none
    ∷ supervisor_tick at_100
    ∷ reaper_tick 900
    ∷ decommission "b"
    ∷ abort "roll"
    ∷ []
