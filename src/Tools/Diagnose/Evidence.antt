-- ===== src/Tools/Diagnose/Evidence.antt =====
-- What a diagnosis says, and what it rests on.
use nff_core.Prelude.{
  ℕ, ◌≤◌, leb, Bool, true, false, ◌&&◌, ◌||◌, Option, none, some, List, [], ◌∷◌, String, string_eq,
  any, ◌≡◌, ◌⊎◌, refl, sym, ap, subst, inl, inr, Bool-cases, arith, true≢false,
}
use nff_core.Tools.Diagnose.{
  AbortAt, PanicType, brownout, idf_watchdog, abort, guru_meditation, unknown, CrashFacts, Signals,
  no_facts, with_abort_at, parse_crash, near_null, in_heap, repeats, stuck_unwinder,
  ClassificationResult, result, is_cause, by_shape, by_cause, by_format, classify, fault_class,
  unknown_class, fault_taxonomy, lookup, taxonomy_for, Diagnosis, recognised, diagnose,
}

-- A string is the key of the entry that the taxonomy gives for it.
abbrev pub IsKey : String → Type 0
IsKey name = (taxonomy_for name).key ≡ name

abbrev pub AreKeys : List String → Type 0
AreKeys [] = Unit
AreKeys (name ∷ names) = IsKey name × AreKeys names

abbrev pub IsLooping : ℕ → List String → Type 0
IsLooping n frames = (pc : String) × (n ≤ repeats pc frames)

-- What each class may be claimed on
pub data Evidence (facts : CrashFacts) : String → Type 0 where
  starved : facts.panic_type ≡ idf_watchdog → Evidence facts "watchdog"
  trapped : facts.panic_type ≡ abort → Evidence facts "assert_failed"
  sagged : facts.panic_type ≡ brownout → Evidence facts "brownout"
  bad_store : is_cause 29 facts.exception_cause ≡ true → Evidence facts "null_deref"
  bad_load :
      is_cause 28 facts.exception_cause ≡ true
      → (near_null facts.fault_addr ≡ true) ⊎ (in_heap facts.fault_addr ≡ false)
      → Evidence facts "null_deref"
  zero_divisor : is_cause 6 facts.exception_cause ≡ true → Evidence facts "divide_by_zero"
  misaligned : is_cause 9 facts.exception_cause ≡ true → Evidence facts "unaligned_access"
  bad_fetch : is_cause 20 facts.exception_cause ≡ true → Evidence facts "bad_instruction_fetch"
  looping : IsLooping 3 facts.backtrace → Evidence facts "stack_overflow"
  looping_opcode :
      is_cause 0 facts.exception_cause ≡ true
      → IsLooping 2 facts.backtrace
      → Evidence facts "stack_overflow"
  bad_opcode :
      is_cause 0 facts.exception_cause ≡ true
      → stuck_unwinder facts.backtrace 2 ≡ false
      → Evidence facts "illegal_instruction"
  heap_load :
      is_cause 28 facts.exception_cause ≡ true
      → in_heap facts.fault_addr ≡ true
      → near_null facts.fault_addr ≡ false
      → Evidence facts "heap_corruption"
  nothing :
      any (λ (n : ℕ). is_cause n facts.exception_cause) (0 ∷ 6 ∷ 9 ∷ 20 ∷ 28 ∷ 29 ∷ []) ≡ false
      → stuck_unwinder facts.backtrace 3 ≡ false
      → Evidence facts "unknown"

any-IsLooping :
    (n : ℕ) (frames all_frames : List String)
    → any (λ (pc : String). leb n (repeats pc all_frames)) frames ≡ true
    → IsLooping n all_frames
any-IsLooping n [] all_frames h = absurd (true≢false (sym h))
any-IsLooping n (pc ∷ frames) all_frames h = elim (Bool-cases (leb n (repeats pc all_frames))) [
  | inl e ↦ (pc, ground arith)
  | inr e ↦
      any-IsLooping n frames all_frames
        (subst (λ b. (b || any (λ (p : String). leb n (repeats p all_frames)) frames) ≡ true) e h)
]

stuck-IsLooping :
    (n : ℕ) (frames : List String) → stuck_unwinder frames n ≡ true → IsLooping n frames
unfolding stuck_unwinder
stuck-IsLooping n frames h = any-IsLooping n frames frames h

-- A result that names known classes alone and has the evidence for its own
abbrev pub Rests : CrashFacts → ClassificationResult → Type 0
Rests facts r = IsKey r.crash_class × AreKeys r.candidates × Evidence facts r.crash_class

shape-Rests :
    (facts : CrashFacts)
    → is_cause 29 facts.exception_cause ≡ false
    → (is_cause 28 facts.exception_cause && near_null facts.fault_addr) ≡ false
    → is_cause 6 facts.exception_cause ≡ false
    → is_cause 9 facts.exception_cause ≡ false
    → is_cause 20 facts.exception_cause ≡ false
    → Rests facts (by_shape facts)
unfolding by_shape result taxonomy_for lookup fault_taxonomy fault_class unknown_class
shape-Rests facts store null zero unaligned fetch =
    elim (Bool-cases (stuck_unwinder facts.backtrace 3)) [
      | inl stuck ↦ elim (Bool-cases (in_heap facts.fault_addr)) [
        | inl heap ↦
            rw (stuck, heap) (refl, (refl, tt), looping (stuck-IsLooping 3 facts.backtrace stuck))
        | inr other ↦
            rw (stuck, other) (refl, tt, looping (stuck-IsLooping 3 facts.backtrace stuck))
      ]
      | inr free ↦ elim (Bool-cases (is_cause 0 facts.exception_cause)) [
        | inl opcode ↦ elim (Bool-cases (stuck_unwinder facts.backtrace 2)) [
          | inl twice ↦
              rw (free, opcode, twice)
                (refl, tt, looping_opcode opcode (stuck-IsLooping 2 facts.backtrace twice))
          | inr once ↦ rw (free, opcode, once) (refl, (refl, tt), bad_opcode opcode once)
        ]
        | inr fine ↦ elim (Bool-cases (is_cause 28 facts.exception_cause)) [
          | inl load ↦ elim (Bool-cases (in_heap facts.fault_addr)) [
            | inl heap ↦
                rw (free, fine, load, heap)
                  (refl, (refl, tt), heap_load load heap (ground (arith, null, load)))
            | inr other ↦ rw (free, fine, load, other) (refl, (refl, tt), bad_load load (inr other))
          ]
          | inr still ↦
              rw (free, fine, still)
                (
                  refl,
                  (refl, tt),
                  nothing (rw (fine, zero, unaligned, fetch, still, store) refl) free,
                )
        ]
      ]
    ]

cause-Rests : (facts : CrashFacts) → Rests facts (by_cause facts)
unfolding by_cause result taxonomy_for lookup fault_taxonomy fault_class unknown_class
cause-Rests facts = elim (Bool-cases (is_cause 29 facts.exception_cause)) [
  | inl store ↦ elim (Bool-cases (near_null facts.fault_addr)) [
    | inl null ↦ rw (store, null) (refl, tt, bad_store store)
    | inr far ↦ rw (store, far) (refl, (refl, tt), bad_store store)
  ]
  | inr kept ↦ elim (Bool-cases (is_cause 28 facts.exception_cause && near_null facts.fault_addr)) [
    | inl null ↦
        rw (kept, null) (refl, tt, bad_load (ground (arith, null)) (inl (ground (arith, null))))
    | inr far ↦ elim (Bool-cases (is_cause 6 facts.exception_cause)) [
      | inl zero ↦ rw (kept, far, zero) (refl, tt, zero_divisor zero)
      | inr divides ↦ elim (Bool-cases (is_cause 9 facts.exception_cause)) [
        | inl odd ↦ rw (kept, far, divides, odd) (refl, tt, misaligned odd)
        | inr even ↦ elim (Bool-cases (is_cause 20 facts.exception_cause)) [
          | inl fetch ↦ rw (kept, far, divides, even, fetch) (refl, (refl, tt), bad_fetch fetch)
          | inr runs ↦
              rw (kept, far, divides, even, runs) (shape-Rests facts kept far divides even runs)
        ]
      ]
    ]
  ]
]

format-Rests :
    (kind : PanicType) (facts : CrashFacts)
    → facts.panic_type ≡ kind
    → Rests facts (by_format kind facts)
unfolding by_format result taxonomy_for lookup fault_taxonomy fault_class unknown_class
format-Rests idf_watchdog facts e = (refl, tt, starved e)
format-Rests abort facts e = (refl, tt, trapped e)
format-Rests brownout facts e = (refl, tt, sagged e)
format-Rests guru_meditation facts e = cause-Rests facts
format-Rests unknown facts e = cause-Rests facts

-- Every class that the classifier names, its own and the candidates, is one of the taxonomy, and its own rests on
-- the panic's format, on its cause and address, or on a backtrace that repeats an address.
pub classify-Rests : (facts : CrashFacts) → Rests facts (classify facts)
unfolding classify
classify-Rests facts = format-Rests facts.panic_type facts refl

-- The text carries the signature of a panic.
abbrev pub has_signature : Signals → Bool
has_signature s = s.is_brownout || s.is_watchdog || s.is_abort || s.is_guru

abbrev pub IsHonest : Signals → Option Diagnosis → Type 0
IsHonest s none = has_signature s ≡ false
IsHonest s (some d) =
    (has_signature s ≡ true)
    × (d.facts ≡ parse_crash s)
    × (d.meta.key ≡ d.found.crash_class)
    × Rests d.facts d.found

abbrev is_panic : PanicType → Bool
is_panic unknown = false
is_panic _ = true

with_abort_at_type :
    (at : Option AbortAt) (facts : CrashFacts)
    → (with_abort_at at facts).panic_type ≡ facts.panic_type
unfolding with_abort_at
with_abort_at_type none facts = refl
with_abort_at_type (some at) facts = refl

parse_crash_signature : (s : Signals) → is_panic (parse_crash s).panic_type ≡ has_signature s
unfolding parse_crash no_facts
parse_crash_signature s = elim (Bool-cases s.is_brownout) [
  | inl e ↦ rw e refl
  | inr e ↦ elim (Bool-cases s.is_watchdog) [
    | inl f ↦ rw (e, f) refl
    | inr f ↦ elim (Bool-cases s.is_abort) [
      | inl g ↦ rw (e, f, g) (ap is_panic (with_abort_at_type s.abort_at _))
      | inr g ↦ elim (Bool-cases s.is_guru) [
        | inl h ↦ rw (e, f, g, h) refl
        | inr h ↦ rw (e, f, g, h) refl
      ]
    ]
  ]
]

recognised-IsHonest :
    (s : Signals) (kind : PanicType)
    → is_panic kind ≡ has_signature s
    → (classify (parse_crash s)).crash_class
      ≡ (taxonomy_for (classify (parse_crash s)).crash_class).key
    → IsHonest s (recognised kind (parse_crash s))
unfolding recognised
recognised-IsHonest s unknown e k = sym e
recognised-IsHonest s brownout e k = (sym e, refl, sym k, classify-Rests (parse_crash s))
recognised-IsHonest s idf_watchdog e k = (sym e, refl, sym k, classify-Rests (parse_crash s))
recognised-IsHonest s abort e k = (sym e, refl, sym k, classify-Rests (parse_crash s))
recognised-IsHonest s guru_meditation e k = (sym e, refl, sym k, classify-Rests (parse_crash s))

-- Whatever the patterns find, there is a diagnosis exactly if one of the four signatures of a panic is there; its
-- title is that of its class, every class it names is one of the taxonomy, and its own class rests on evidence:
-- the format of the panic, its cause and address, or a backtrace that repeats an address.
pub diagnose-IsHonest : (s : Signals) → IsHonest s (diagnose s)
unfolding diagnose
diagnose-IsHonest s =
    recognised-IsHonest s (parse_crash s).panic_type (parse_crash_signature s)
      (sym (classify-Rests (parse_crash s)).0)
