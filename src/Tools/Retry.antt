-- ===== src/Tools/Retry.antt =====
-- Bounded retry of toolchain commands, nff/tools/retry.py. The n-th run of a command has the outcome that
-- the environment gives it; the classifier of outputs is an argument, as it is in the source. A trace
-- holds what a driver did, the latest in front; a hook that is not given would leave no mark.
pub mod Bounded
use nff_core.Prelude.{
  ℕ, zero, suc, ◌+◌, ◌-◌, Bool, true, false, not, ◌&&◌, ◌||◌, List, [], ◌∷◌, if◌then◌else◌, min,
  length, get_elem?, Option, none, some,
}

-- RunResult; a stream's `rc` is 0 for a success, and `code` otherwise
pub record RunResult (Output : Type 0) : Type 0 where
  pub success : Bool
  pub code : ℕ
  pub output : Output

pub data Action (Output : Type 0) : Type 0 where
  attempted : ℕ → Action Output
  announced : ℕ → Action Output
  recovered : Output → Action Output
  slept : ℕ → Action Output

-- How a driver ends: with an outcome, or with the IndexError of an empty backoff
pub data Ended (R : Type 0) : Type 0 where
  returned : R → Ended R
  index_error : Ended R

-- _delay_for: `backoff[min(attempt_index, len(backoff) - 1)]`
unfoldable pub delay_for : ℕ → List ℕ → Option ℕ
delay_for attempt_index backoff = get_elem? backoff (min attempt_index (length backoff - 1))

-- is_transient, over what its patterns say of an output
unfoldable pub is_transient :
    {Output : Type 0}
    → (Output → Bool)
    → (Output → Bool)
    → (Output → Bool)
    → (Output → Bool)
    → (Output → Bool)
    → Output
    → Bool
is_transient empty strong pio_package compile_error weak out =
    if empty out
    then false
    else if strong out || pio_package out
    then true
    else if compile_error out
    then false
    else weak out

module _ {Output : Type 0} (attempt : ℕ → RunResult Output) (classify : Output → Bool)
    (backoff : List ℕ) where
  pub run_from : ℕ → ℕ → List (Action Output) → Ended (RunResult Output) × List (Action Output)
  run_from i zero trace = (returned (attempt i), attempted i ∷ trace)
  run_from i (suc left) trace = elim (not (attempt i).success && classify (attempt i).output) [
    | false ↦ (returned (attempt i), attempted i ∷ trace)
    | true ↦ elim (delay_for i backoff) [
      | none ↦ (index_error, recovered (attempt i).output ∷ announced (i + 1) ∷ attempted i ∷ trace)
      | some d ↦
          run_from (i + 1) left
            (slept d ∷ recovered (attempt i).output ∷ announced (i + 1) ∷ attempted i ∷ trace)
    ]
  ]

  -- run_with_retry
  unfoldable pub run_with_retry : ℕ → Ended (RunResult Output) × List (Action Output)
  unfolding run_from
  run_with_retry retries = run_from 0 retries []

  abbrev return_code : RunResult Output → ℕ
  return_code r = if r.success then 0 else r.code

  pub stream_from : ℕ → ℕ → List (Action Output) → Ended ℕ × List (Action Output)
  stream_from i zero trace = (returned (return_code (attempt i)), attempted i ∷ trace)
  stream_from i (suc left) trace = elim (not (attempt i).success && classify (attempt i).output) [
    | false ↦ (returned (return_code (attempt i)), attempted i ∷ trace)
    | true ↦ elim (delay_for i backoff) [
      | none ↦ (index_error, attempted i ∷ trace)
      | some d ↦
          stream_from (i + 1) left
            (slept d ∷ recovered (attempt i).output ∷ announced (i + 2) ∷ attempted i ∷ trace)
    ]
  ]

  -- stream_with_retry
  unfoldable pub stream_with_retry : ℕ → Ended ℕ × List (Action Output)
  unfolding stream_from
  stream_with_retry retries = stream_from 0 retries []
