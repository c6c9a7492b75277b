-- ===== src/Tools/Diagnose.antt =====
-- The classifier of panics, nff/tools/diagnose.py. What the patterns of the file find in the serial text is an
-- argument, `Signals`. Explanations, rationales and hints are texts and left out; a confidence is in hundredths.
pub mod Evidence
use nff_core.Prelude.{
  ℕ, zero, suc, ◌+◌, ◌*◌, ◌-◌, ltb, leb, nat_eqb, Bool, true, false, ◌&&◌, ◌||◌, Option, none, some,
  List, [], ◌∷◌, String, ◌==◌, string_eq, if◌then◌else◌, count, any, find, Text,
}

pub data PanicType : Type 0 where
  brownout idf_watchdog abort guru_meditation unknown : PanicType

-- Addresses are texts, of hexadecimal digits after `0x`.
pub record CrashFacts : Type 0 where
  pub panic_type : PanicType
  pub exception_cause : Option ℕ
  pub abort_reason : Option String
  pub fault_pc : Option String
  pub fault_addr : Option Text
  pub registers : List (String × String)
  pub backtrace : List String
  pub task_name : Option String
  pub cpu : Option ℕ

pub record AbortAt : Type 0 where
  pub pc : String
  pub line : String
  pub core : Option ℕ

-- The matches of the patterns, and `_frames` and `_task` of the text
pub record Signals : Type 0 where
  pub is_brownout : Bool
  pub is_watchdog : Bool
  pub is_abort : Bool
  pub is_guru : Bool
  pub assert_msg : Option String
  pub abort_at : Option AbortAt
  pub core : Option ℕ
  pub exccause : Option ℕ
  pub excvaddr : Option Text
  pub pc : Option String
  pub registers : List (String × String)
  pub frames : List String
  pub task : Option String

no_facts : PanicType → CrashFacts
no_facts kind = record {
  panic_type = kind;
  exception_cause = none;
  abort_reason = none;
  fault_pc = none;
  fault_addr = none;
  registers = [];
  backtrace = [];
  task_name = none;
  cpu = none;
}

-- The line of an assert wins over that of the call.
reason_of : Option String → String → Option String
reason_of none line = some line
reason_of (some reason) line = some reason

with_abort_at : Option AbortAt → CrashFacts → CrashFacts
unfolding reason_of
with_abort_at none facts = facts
with_abort_at (some at) facts = record facts {
  fault_pc = some at.pc;
  abort_reason = reason_of facts.abort_reason at.line;
  cpu = at.core;
}

unfoldable pub parse_crash : Signals → CrashFacts
unfolding no_facts with_abort_at
parse_crash s =
    if s.is_brownout
    then no_facts brownout
    else if s.is_watchdog
    then record (no_facts idf_watchdog) { task_name = s.task }
    else if s.is_abort
    then with_abort_at s.abort_at
        record (no_facts abort) { backtrace = s.frames; abort_reason = s.assert_msg }
    else if s.is_guru
    then record {
      panic_type = guru_meditation;
      exception_cause = s.exccause;
      abort_reason = none;
      fault_pc = s.pc;
      fault_addr = s.excvaddr;
      registers = s.registers;
      backtrace = s.frames;
      task_name = s.task;
      cpu = s.core;
    }
    else no_facts unknown

-- `int(value, 16)` of such a text
hex_digit : ℕ → Option ℕ
hex_digit c =
    if leb b'0' c && leb c b'9'
    then some (c - b'0')
    else if leb b'a' c && leb c b'f'
    then some (c - b'a' + 10)
    else if leb b'A' c && leb c b'F'
    then some (c - b'A' + 10)
    else none

hex_step : Option ℕ → Option ℕ → Option ℕ
hex_step (some n) (some d) = some (n * 16 + d)
hex_step _ _ = none

hex_from : Option ℕ → Text → Option ℕ
unfolding hex_digit hex_step
hex_from n [] = n
hex_from n (c ∷ cs) = hex_from (hex_step n (hex_digit c)) cs

hex_value : Text → Option ℕ
unfolding hex_from
hex_value (z ∷ x ∷ c ∷ cs) =
    if nat_eqb z b'0' && nat_eqb x b'x' then hex_from (some 0) (c ∷ cs) else none
hex_value _ = none

addr : Option Text → Option ℕ
unfolding hex_value
addr none = none
addr (some value) = hex_value value

is_within : ℕ → ℕ → Option ℕ → Bool
is_within low high none = false
is_within low high (some v) = leb low v && leb v high

unfoldable pub near_null : Option Text → Bool
unfolding addr is_within
near_null value = is_within 0 0xFF (addr value)

unfoldable pub in_heap : Option Text → Bool
unfolding addr is_within
in_heap value = is_within 0x3FFB0000 0x3FFF0000 (addr value)

pub repeats : String → List String → ℕ
repeats pc frames = count (λ (frame : String). frame == pc) frames

-- `any(n >= min_repeat for n in Counter(backtrace).values())`, over the frames instead of the distinct ones
unfoldable pub stuck_unwinder : List String → ℕ → Bool
unfolding repeats
stuck_unwinder frames min_repeat = any (λ (pc : String). leb min_repeat (repeats pc frames)) frames

pub record ClassificationResult : Type 0 where
  pub crash_class : String
  pub confidence : ℕ
  pub candidates : List String

result : String → ℕ → List String → ClassificationResult
result name confidence candidates = record {
  crash_class = name;
  confidence = confidence;
  candidates = candidates;
}

unfoldable pub is_cause : ℕ → Option ℕ → Bool
is_cause n none = false
is_cause n (some cause) = nat_eqb cause n

-- The rules that read a fault's shape, after those that its cause decides
by_shape : CrashFacts → ClassificationResult
unfolding result
by_shape facts =
    if stuck_unwinder facts.backtrace 3
    then result "stack_overflow" 93
        (if in_heap facts.fault_addr then "heap_corruption" ∷ [] else [])
    else if is_cause 0 facts.exception_cause && stuck_unwinder facts.backtrace 2
    then result "stack_overflow" 85 []
    else if is_cause 0 facts.exception_cause
    then result "illegal_instruction" 80 ("bad_instruction_fetch" ∷ [])
    else if is_cause 28 facts.exception_cause && in_heap facts.fault_addr
    then result "heap_corruption" 72 ("null_deref" ∷ [])
    else if is_cause 28 facts.exception_cause
    then result "null_deref" 60 ("heap_corruption" ∷ [])
    else result "unknown" 30 ("null_deref" ∷ [])

by_cause : CrashFacts → ClassificationResult
unfolding result by_shape
by_cause facts =
    if is_cause 29 facts.exception_cause && near_null facts.fault_addr
    then result "null_deref" 96 []
    else if is_cause 29 facts.exception_cause
    then result "null_deref" 75 ("heap_corruption" ∷ [])
    else if is_cause 28 facts.exception_cause && near_null facts.fault_addr
    then result "null_deref" 96 []
    else if is_cause 6 facts.exception_cause
    then result "divide_by_zero" 97 []
    else if is_cause 9 facts.exception_cause
    then result "unaligned_access" 95 []
    else if is_cause 20 facts.exception_cause
    then result "bad_instruction_fetch" 90 ("stack_overflow" ∷ [])
    else by_shape facts

by_format : PanicType → CrashFacts → ClassificationResult
unfolding result by_cause
by_format idf_watchdog facts = result "watchdog" 97 []
by_format abort facts = result "assert_failed" 95 []
by_format brownout facts = result "brownout" 96 []
by_format guru_meditation facts = by_cause facts
by_format unknown facts = by_cause facts

unfoldable pub classify : CrashFacts → ClassificationResult
unfolding by_format
classify facts = by_format facts.panic_type facts

pub record FaultClass : Type 0 where
  pub key : String
  pub title : String
  pub family : String
  pub is_symptom : Bool

fault_class : String → String → String → Bool → FaultClass
fault_class key title family is_symptom = record {
  key = key;
  title = title;
  family = family;
  is_symptom = is_symptom;
}

unknown_class : FaultClass
unfolding fault_class
unknown_class = fault_class "unknown" "Unknown" "unknown" false

unfoldable pub fault_taxonomy : List FaultClass
unfolding fault_class unknown_class
fault_taxonomy =
    fault_class "null_deref" "Null-pointer dereference" "memory" false
    ∷ fault_class "stack_overflow" "Stack overflow" "control_flow" false
    ∷ fault_class "watchdog" "Watchdog timeout" "timing" true
    ∷ fault_class "heap_corruption" "Heap corruption" "memory" false
    ∷ fault_class "divide_by_zero" "Integer divide by zero" "arithmetic" false
    ∷ fault_class "unaligned_access" "Unaligned memory access" "memory" false
    ∷ fault_class "illegal_instruction" "Illegal instruction" "control_flow" false
    ∷ fault_class "bad_instruction_fetch" "Instruction fetch prohibited" "control_flow" false
    ∷ fault_class "assert_failed" "Assertion / abort" "assertion" false
    ∷ fault_class "brownout" "Brownout reset" "power" false
    ∷ unknown_class
    ∷ []

unfoldable pub lookup : String → Option FaultClass
lookup name = find (λ (c : FaultClass). c.key == name) fault_taxonomy

or_unknown : Option FaultClass → FaultClass
or_unknown none = unknown_class
or_unknown (some c) = c

unfoldable pub taxonomy_for : String → FaultClass
unfolding or_unknown unknown_class fault_class
taxonomy_for name = or_unknown (lookup name)

-- The classes of `classify`, with their titles from the taxonomy
pub record Diagnosis : Type 0 where
  pub found : ClassificationResult
  pub meta : FaultClass
  pub facts : CrashFacts

recognised : PanicType → CrashFacts → Option Diagnosis
recognised unknown facts = none
recognised _ facts =
    let found = classify facts in
    some record { found = found; meta = taxonomy_for found.crash_class; facts = facts }

-- No diagnosis of a text without a panic signature
unfoldable pub diagnose : Signals → Option Diagnosis
unfolding recognised
diagnose s = let facts = parse_crash s in recognised facts.panic_type facts
