-- ===== src/Tools/Examples.antt =====
-- A flaky command, and a short session on a bench.
use nff_core.Prelude.{
  ℕ, zero, suc, ◌+◌, ◌≡◌, ◌⊎◌, refl, Bool, true, false, some, none, codes, List, [], ◌∷◌, String,
  All, arith,
}
use nff_core.Tools.Retry.{RunResult, returned, run_with_retry, delay_for}
use nff_core.Tools.Retry.Bounded.{Stops, attempts, run_with_retry_answer}
use nff_core.Tools.Policy.{BenchState, Observed, Fault, apply_outcome, empty_graph, observe_all}
use nff_core.Tools.Policy.Accounts.{Sound, observe_all-Sound}
use nff_core.Tools.Policy.Belief.{Heals, apply_outcome-Heals}
use nff_core.Tools.Diagnose.{
  Signals, classify, parse_crash, stuck_unwinder, near_null, is_cause, in_heap, diagnose,
}
use nff_core.Tools.Diagnose.Evidence.{IsHonest, diagnose-IsHonest}

-- Fails twice because the port is busy, then succeeds
abbrev flaky : ℕ → RunResult Bool
flaky zero = record { success = false; code = 1; output = true }
flaky (suc zero) = record { success = false; code = 1; output = true }
flaky (suc (suc n)) = record { success = true; code = 0; output = false }

abbrev busy : Bool → Bool
busy out = out

abbrev seconds : List ℕ
seconds = 1 ∷ 3 ∷ []

run_with_retry_answer_example :
    (k : ℕ) × ((run_with_retry flaky busy seconds 2).0 ≡ returned (flaky k))
    × Stops flaky busy seconds 2 k
    × (attempts (run_with_retry flaky busy seconds 2).1 ≡ k + 1)
run_with_retry_answer_example = run_with_retry_answer flaky busy seconds 2 (omega arith)

flaky_ends :
    (run_with_retry flaky busy seconds 2).0
    ≡ returned (record { success = true; code = 0; output = false })
unfolding run_with_retry delay_for
flaky_ends = refl

abbrev bench : BenchState
bench = record { device = "esp32"; fault = Fault.healthy }

abbrev crashed : BenchState
crashed = record { device = "esp32"; fault = Fault.crash "watchdog" }

abbrev tool_call : String → Bool → Observed
tool_call tool success = record {
  tool = tool;
  success = success;
  crash_class = none;
  board = none;
  serial_clean = false;
}

abbrev session : List (Observed × ℕ)
session =
    (tool_call "compile" false, 900)
    ∷ (tool_call "compile" true, 800)
    ∷ (tool_call "list_devices" true, 5)
    ∷ []

-- An injective enough id for this bench
abbrev label : BenchState → String
label s = elim s.fault [
  | Fault.healthy ↦ "healthy"
  | Fault.compile_fail ↦ "compile"
  | Fault.flash_fail ↦ "flash"
  | Fault.crash c ↦ c
]

observe_all-Sound_example : All Sound (observe_all label (bench, empty_graph) session).1.edges
unfolding empty_graph
observe_all-Sound_example = observe_all-Sound label session bench empty_graph tt

flash_cures : (apply_outcome crashed (tool_call "flash" true)).fault ≡ Fault.healthy
unfolding apply_outcome
flash_cures = refl

apply_outcome-Heals_example :
    (crashed.fault ≡ Fault.healthy) ⊎ Heals (tool_call "flash" true) crashed.fault
apply_outcome-Heals_example = apply_outcome-Heals crashed (tool_call "flash" true) flash_cures

-- A task that recurses until its stack runs into the heap, and a text without a panic
abbrev overflow : Signals
overflow = record {
  is_brownout = false;
  is_watchdog = false;
  is_abort = false;
  is_guru = true;
  assert_msg = none;
  abort_at = none;
  core = some 0;
  exccause = some 28;
  excvaddr = some (codes "0x3ffb1234");
  pc = some "0x400d1234";
  registers = [];
  frames = "0x400d1234" ∷ "0x400d1234" ∷ "0x400d1234" ∷ [];
  task = none;
}

overflow_class : (classify (parse_crash overflow)).crash_class ≡ "stack_overflow"
unfolding classify parse_crash stuck_unwinder near_null is_cause in_heap
overflow_class = refl

diagnose-IsHonest_example : IsHonest overflow (diagnose overflow)
diagnose-IsHonest_example = diagnose-IsHonest overflow
