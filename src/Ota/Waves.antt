-- ===== src/Ota/Waves.antt =====
-- Cohorts of a phased rollout and the supervisor's verdict on one
-- (observability/nff-ota/nff_ota/tools/deployments/ops.py).
pub mod Covering
pub mod Cohorts
pub mod Verdicts
use nff_core.Prelude.{
  ℕ, zero, suc, ◌+◌, ◌-◌, ◌≡◌, refl, Bool, true, false, not, ◌&&◌, ◌||◌, Option, none, some, List,
  [], ◌∷◌, ℤ, pos, negsuc, ltb, leb, nat_eqb, if◌then◌else◌, String, ◌==◌, string_eq, LinearOrder,
  string_order, sorted, length,
}
use nff_core.Float.{Float, div, mul_nat, le_nat, lt_float}

-- `covered <= pct`: a float that is not negative, against any integer
covers : Float → ℤ → Bool
covers covered (pos pct) = le_nat covered pct
covers covered (negsuc n) = false

-- `next((w for w, pct in enumerate(phases) if covered <= pct), last_wave)`, from wave `w` on
pub first_wave : Float → ℕ → List ℤ → ℕ → ℕ
unfolding covers
first_wave covered w [] last_wave = last_wave
first_wave covered w (pct ∷ phases) last_wave =
    let rest = first_wave covered (w + 1) phases last_wave in if covers covered pct then w else rest

-- `(idx + 1) / n * 100.0`
pub covered_by : ℕ → ℕ → Float
covered_by idx n = mul_nat (div (idx + 1) n) 100

pub wave_at : ℕ → ℕ → List ℤ → ℕ
unfolding covered_by first_wave
wave_at idx n phases = first_wave (covered_by idx n) 0 phases (length phases - 1)

-- A dict of waves by device id: the entry in front is the latest.
abbrev pub Waves : Type 0
Waves = List (String × ℕ)

-- `waves.get(device_id, 0)`
unfoldable pub wave_of : String → Waves → ℕ
wave_of d [] = 0
wave_of d ((k, w) ∷ rest) = let older = wave_of d rest in if k == d then w else older

pub assign_from : ℕ → ℕ → List ℤ → List String → Waves → Waves
unfolding wave_at
assign_from idx n phases [] waves = waves
assign_from idx n phases (dev ∷ devs) waves =
    assign_from (idx + 1) n phases devs ((dev, wave_at idx n phases) ∷ waves)

all_zero : List String → Waves → Waves
all_zero [] waves = waves
all_zero (d ∷ ds) waves = all_zero ds ((d, 0) ∷ waves)

pub cohorts : List String → List ℤ → Waves
unfolding assign_from all_zero
cohorts device_ids [] = all_zero device_ids []
cohorts device_ids (p ∷ ps) =
    let ordered = sorted device_ids in assign_from 0 (length ordered) (p ∷ ps) ordered []

-- _assign_waves
unfoldable pub assign_waves : List String → Option (List ℤ) → Waves
unfolding cohorts
assign_waves device_ids none = all_zero device_ids []
assign_waves device_ids (some phases) = cohorts device_ids phases

pub data Decision : Type 0 where
  halt advance wait : Decision

-- _phase_decision
unfoldable pub phase_decision : ℕ → ℕ → ℕ → Bool → Bool → Float → Decision
phase_decision released_total failures non_terminal soak_elapsed is_last_phase failure_threshold =
    if leb released_total 0
    then wait
    else if lt_float failure_threshold (div failures released_total)
    then halt
    else if nat_eqb non_terminal 0 && soak_elapsed && not is_last_phase
    then advance
    else wait

canary : assign_waves ("b" ∷ "a" ∷ []) (some (pos 50 ∷ pos 100 ∷ [])) ≡ ("b", 1) ∷ ("a", 0) ∷ []
unfolding assign_waves sorted mul_nat div le_nat
canary = refl
