-- ===== src/Tools/Policy/Belief.antt =====
-- What takes the bench out of a fault.
use nff_core.Prelude.{
  ◌≡◌, ◌⊎◌, refl, Bool, true, ◌&&◌, String, ◌==◌, string_eq, if◌then◌else◌, Bool-cases, inl, inr,
  eq_iff, Option, none, some, arith,
}
use nff_core.Tools.Policy.{
  BenchState, Observed, Fault, after_compile, after_serial, tool_fault, crash_or, apply_outcome,
}

-- A compile that succeeds after one that failed, a flash that succeeds, or a clean serial capture after a
-- crash
pub data Heals (o : Observed) (before : Fault) : Type 0 where
  compiled : o.tool ≡ "compile" → o.success ≡ true → before ≡ Fault.compile_fail → Heals o before
  flashed : o.tool ≡ "flash" → o.success ≡ true → Heals o before
  clean_serial :
      (c : String)
      → o.tool ≡ "serial_read"
      → o.serial_clean ≡ true
      → before ≡ Fault.crash c
      → Heals o before

compile_heals :
    (s : Bool) (f : Fault)
    → after_compile s f ≡ Fault.healthy
    → (f ≡ Fault.healthy) ⊎ ((s ≡ true) × (f ≡ Fault.compile_fail))
unfolding after_compile
compile_heals s f h = ground arith

serial_heals :
    (f : Fault)
    → after_serial f ≡ Fault.healthy
    → (f ≡ Fault.healthy) ⊎ ((c : String) × (f ≡ Fault.crash c))
unfolding after_serial
serial_heals (Fault.crash c) h = inr (c, refl)
serial_heals Fault.healthy h = inl refl
serial_heals Fault.compile_fail h = cc
serial_heals Fault.flash_fail h = cc

flash_heals :
    (s : Bool) → (if s then Fault.healthy else Fault.flash_fail) ≡ Fault.healthy → s ≡ true
flash_heals s h = ground arith

both : (a b : Bool) → (a && b) ≡ true → (a ≡ true) × (b ≡ true)
both a b h = ground arith

tool-Heals :
    (o : Observed) (f : Fault) → tool_fault o f ≡ Fault.healthy → (f ≡ Fault.healthy) ⊎ Heals o f
unfolding tool_fault
tool-Heals o f h = elim (Bool-cases (o.tool == "compile")) [
  | inl c ↦ elim (compile_heals o.success f (rw c at h)) [
    | inl old ↦ inl old
    | inr d ↦ inr (compiled ((eq_iff o.tool "compile").0 c) d.0 d.1)
  ]
  | inr c ↦ elim (Bool-cases (o.tool == "flash")) [
    | inl d ↦ inr (flashed ((eq_iff o.tool "flash").0 d) (flash_heals o.success (rw (c, d) at h)))
    | inr d ↦ elim (Bool-cases (o.tool == "serial_read" && o.serial_clean)) [
      | inr e ↦ inl (rw (c, d, e) at h)
      | inl e ↦ elim (serial_heals f (rw (c, d, e) at h)) [
        | inl old ↦ inl old
        | inr k ↦
            let (tool, clean) = both (o.tool == "serial_read") o.serial_clean e in
            inr (clean_serial k.0 ((eq_iff o.tool "serial_read").0 tool) clean k.1)
      ]
    ]
  ]
]

crash_stays : (c : Option String) (f : Fault) → crash_or c f ≡ Fault.healthy → f ≡ Fault.healthy
unfolding crash_or
crash_stays none f h = h
crash_stays (some c) f h = ground arith

-- The belief becomes healthy only if it was, or by a compile that succeeds after one that failed, a flash
-- that succeeds after any fault, or a clean serial capture after a crash.
pub apply_outcome-Heals :
    (pre : BenchState) (o : Observed)
    → (apply_outcome pre o).fault ≡ Fault.healthy
    → (pre.fault ≡ Fault.healthy) ⊎ Heals o pre.fault
unfolding apply_outcome
apply_outcome-Heals pre o h =
    tool-Heals o pre.fault (crash_stays o.crash_class (tool_fault o pre.fault) h)
