-- ===== src/Float.antt =====
-- Python's `float` on the values that the rollout code computes: not negative and finite.
-- A float is the number of its units of 2 ^ -1074, the spacing of the smallest doubles, so every
-- double of that range is a natural number here and comparing floats is comparing their units.
-- Operations round as IEEE 754 doubles do: to the nearest value with 53 significant bits, ties to
-- the even one. Overflow, infinities and NaN do not arise in this range and are left out.
pub mod Rounding
use nff_core.Prelude.{
  ℕ, zero, suc, ◌+◌, ◌-◌, ◌*◌, ◌/◌, ◌%◌, ◌^◌, ◌≡◌, refl, Bool, true, false, ◌&&◌, ◌||◌, ltb, leb,
  nat_eqb, if◌then◌else◌,
}

pub record Float : Type 0 where
  pub units : ℕ

-- 1.0
unfoldable pub one_units : ℕ
one_units = 2 ^ 1074

-- The position of the highest bit of `n`; the number itself is fuel enough.
log2_from : ℕ → ℕ → ℕ
log2_from zero n = 0
log2_from (suc fuel) n = elim (ltb n 2) [ true ↦ 0 | false ↦ suc (log2_from fuel (n / 2)) ]

pub log2 : ℕ → ℕ
unfolding log2_from
log2 n = log2_from n n

-- The spacing of doubles at `k` units.
pub spacing : ℕ → ℕ
spacing k = 2 ^ (log2 k - 52)

-- Round up when the rest is over half of the gap, or half of it above an odd multiple.
pub rounds_up : ℕ → ℕ → ℕ → Bool
rounds_up gap multiple rest =
    ltb gap (2 * rest) || nat_eqb gap (2 * rest) && nat_eqb (multiple % 2) 1

-- The `multiple` of the spacing next to n / q.
pub nearest : ℕ → ℕ → ℕ → ℕ
unfolding rounds_up
nearest n q s = let t = n / q / s in if rounds_up (q * s) t (n - t * s * q) then t + 1 else t

-- The double nearest to n / q units.
unfoldable pub round_units : ℕ → ℕ → Float
unfolding spacing log2 nearest
round_units n q = let s = spacing (n / q) in record { units = nearest n q s * s }

-- a / b, for integers
unfoldable pub div : ℕ → ℕ → Float
unfolding round_units one_units
div a b = round_units (a * one_units) b

-- x * m, for an integer m that is a double
unfoldable pub mul_nat : Float → ℕ → Float
unfolding round_units
mul_nat x m = round_units (x.units * m) 1

-- x <= m: Python compares a float and an integer exactly
unfoldable pub le_nat : Float → ℕ → Bool
unfolding one_units
le_nat x m = leb x.units (m * one_units)

-- x < y
unfoldable pub lt_float : Float → Float → Bool
lt_float x y = ltb x.units y.units

unfoldable pub is_zero : Float → Bool
is_zero x = nat_eqb x.units 0

-- 7 / 100 * 100.0 is 7.000000000000001 in Python.
seven_percent : le_nat (mul_nat (div 7 100) 100) 7 ≡ false
unfolding le_nat mul_nat div
seven_percent = refl

five_percent : le_nat (mul_nat (div 5 100) 100) 5 ≡ true
unfolding le_nat mul_nat div
five_percent = refl
