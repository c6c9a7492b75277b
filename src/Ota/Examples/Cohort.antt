-- ===== src/Ota/Examples/Cohort.antt =====
-- Cohorts, phases and verdicts at small sizes.
use nff_core.Prelude.{
  ℕ, ◌≡◌, ◌≤◌, ◌<◌, refl, Bool, true, false, none, some, List, [], ◌∷◌, String, ℤ, pos, arith,
  Distinct, sorted, get_elem?, string_order, unequal,
}
use nff_core.Float.{Float, div}
use nff_core.Ota.Phases.{check_phases, parse_phases, phases_csv}
use nff_core.Ota.Phases.RoundTrip.{parse-phases_csv}
use nff_core.Ota.Waves.{wave_of, assign_waves}
use nff_core.Ota.Waves.Cohorts.{assign_waves_prefix}

abbrev halves : List ℤ
halves = pos 50 ∷ pos 100 ∷ []

abbrev ids : List String
ids = "b" ∷ "a" ∷ []

ids-Distinct : Distinct ids
ids-Distinct = ((unequal "b" "a" refl, tt), (tt, tt))

halves_pass : check_phases halves ≡ none
unfolding check_phases
halves_pass = refl

sorted-ids : sorted ids ≡ "a" ∷ "b" ∷ []
unfolding sorted
sorted-ids = refl

first_is_a : get_elem? (sorted ids) 0 ≡ some "a"
first_is_a = rw sorted-ids refl

second_is_b : get_elem? (sorted ids) 1 ≡ some "b"
second_is_b = rw sorted-ids refl

parse-phases_csv_example : parse_phases (some (phases_csv halves)) ≡ some halves
parse-phases_csv_example = parse-phases_csv halves halves_pass

assign_waves_prefix_example :
    (wave_of "a" (assign_waves ids (some halves)) ≤ wave_of "b" (assign_waves ids (some halves)))
    × (wave_of "b" (assign_waves ids (some halves)) < 2)
assign_waves_prefix_example =
    assign_waves_prefix ids (pos 50) (pos 100 ∷ []) ids-Distinct 0 1 "a" "b" (omega arith)
      first_is_a second_is_b

abbrev fifth : Float
fifth = div 1 5

abbrev no_open : ℕ
no_open = 0

abbrev all_soaked : Bool
all_soaked = true

abbrev at_last : Bool
at_last = false
