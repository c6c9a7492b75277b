-- ===== src/Prelude/Int.antt =====
-- Python's `int`, for the few places where a negative one can arise. `negsuc n` is -(n + 1).
use nff_core.Prelude.Tests.{nat_eqb, if◌then◌else◌}
use Prim.Native.Nat.{ℕ, ◌-◌}

pub data ℤ : Type 0 where
  pos : ℕ → ℤ
  negsuc : ℕ → ℤ

abbrev pub neg : ℕ → ℤ
neg n = if nat_eqb n 0 then pos 0 else negsuc (n - 1)
