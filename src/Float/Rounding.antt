-- ===== src/Float/Rounding.antt =====
-- Rounding keeps order, and whole multiples of 1.0 are exact.
use native.Mathlib.Nat.{
  pow-le-pow_right, pow-suc, le-div_iff_mul-le, div-lt_iff_lt-mul, le_trans, mul-le-mul, le_refl,
  add-suc, mul-div_left, sub_self, mul-pos, mul_comm, mul-one,
}
use native.Mathlib.Decide.{dec_lt}
use nff_core.Prelude.{
  ℕ, zero, suc, ◌+◌, ◌-◌, ◌*◌, ◌/◌, ◌^◌, ◌≤◌, ◌<◌, ◌≡◌, ◌⊎◌, inl, inr, refl, ap, sym, ◌∙◌, Bool,
  true, false, ltb, arith, if◌then◌else◌, Bool-cases, ltb→lt,
}
use nff_core.Float.{
  one_units, log2_from, log2, spacing, rounds_up, nearest, round_units, div, mul_nat,
}

pow-add : (a b : ℕ) → 2 ^ (b + a) ≡ 2 ^ b * 2 ^ a
pow-add zero b = grind arith
pow-add (suc a) b = rw (add-suc, pow-suc 2 (b + a), pow-suc 2 a) (grind (arith, pow-add a b))

log2_from_bounds :
    (fuel n : ℕ) → 0 < n → n ≤ fuel → (2 ^ log2_from fuel n ≤ n) × (n < 2 * 2 ^ log2_from fuel n)
unfolding log2_from
log2_from_bounds zero n p h = absurd (omega arith)
log2_from_bounds (suc fuel) n p h = elim (Bool-cases (ltb n 2)) [
  | inl e ↦ rw (e, log2_from) (omega (arith, ltb→lt n 2 e))
  | inr e ↦
      rw (e, log2_from)
        (ground (arith, pow-suc 2 (log2_from fuel (n / 2)), log2_from_bounds fuel (n / 2)))
]

div_mono : (n m q : ℕ) → n ≤ m → n / q ≤ m / q
div_mono n m zero h = grind arith
div_mono n m (suc q) h = grind arith

pow_lt : (a b : ℕ) → a < b → 2 * 2 ^ a ≤ 2 ^ b
pow_lt a b h = omega (arith, pow-suc 2 a, pow-le-pow_right {n = 2} (omega arith) h)

pow_pos : (a : ℕ) → 0 < 2 ^ a
pow_pos a = pow-le-pow_right {n = 2} (omega arith) {i = 0} {j = a} (omega arith)

-- At least 2 ^ 52 spacings, unless the spacing is one unit; fewer than 2 ^ 53.
log2_bounds : (k : ℕ) → 0 < k → (2 ^ log2 k ≤ k) × (k < 2 * 2 ^ log2 k)
unfolding log2
log2_bounds k p = log2_from_bounds k k p (omega arith)

log2_mono : (j k : ℕ) → 0 < j → j ≤ k → log2 j ≤ log2 k
log2_mono j k p h = elim (dec_lt (log2 k) (log2 j)) [
  | yes lt ↦
      absurd
        (omega (arith, pow_lt (log2 k) (log2 j) lt, log2_bounds j p, log2_bounds k (omega arith)))
  | no ge ↦ omega arith
]

split_low : (l : ℕ) → l ≤ 52 → 2 ^ l ≤ 4503599627370496
split_low l h = pow-le-pow_right {n = 2} (omega arith) {i = l} {j = 52} h

split_high : (l : ℕ) → 52 ≤ l → 2 ^ l ≡ 4503599627370496 * 2 ^ (l - 52)
split_high l h =
    ap (λ m. 2 ^ m) (let e : l ≡ 52 + (l - 52) = omega arith in e) ∙ pow-add (l - 52) 52

spacing_above : (k : ℕ) → 0 < k → k < 9007199254740992 * spacing k
unfolding spacing
spacing_above k p = elim (dec_lt (log2 k) 52) [
  | yes lt ↦ omega (arith, split_low (log2 k), log2_bounds k p, pow_pos (log2 k - 52))
  | no ge ↦ omega (arith, split_high (log2 k), log2_bounds k p)
]

spacing_below : (k : ℕ) → 52 < log2 k → 0 < k → 4503599627370496 * spacing k ≤ k
unfolding spacing
spacing_below k h p = omega (arith, split_high (log2 k), log2_bounds k p)

nearest_floor : (n q s : ℕ) → (n / q / s ≤ nearest n q s) × (nearest n q s ≤ n / q / s + 1)
unfolding nearest
nearest_floor n q s = ground arith

rounds_up_mono : (gap t r₁ r₂ : ℕ) → r₁ ≤ r₂ → rounds_up gap t r₁ ≡ true → rounds_up gap t r₂ ≡ true
unfolding rounds_up
rounds_up_mono gap t r₁ r₂ h u = ground arith

pick_mono :
    (t : ℕ) (a b : Bool)
    → (a ≡ true → b ≡ true)
    → (if a then t + 1 else t) ≤ (if b then t + 1 else t)
pick_mono t true b h = rw (h refl) (omega arith)
pick_mono t false b h = ground arith

nearest_mono : (n m q s : ℕ) → n ≤ m → nearest n q s ≤ nearest m q s
nearest_mono n m q s h = elim (dec_lt (n / q / s) (m / q / s)) [
  | yes lt ↦ omega (arith, nearest_floor n q s, nearest_floor m q s)
  | no ge ↦
      let e : n / q / s ≡ m / q / s =
        omega (arith, div_mono (n / q) (m / q) s (div_mono n m q h)) in
      unfold nearest in
      rw e (pick_mono (m / q / s) _ _ (rounds_up_mono (q * s) _ _ _ (omega arith)))
]

-- Across a change of spacing: the smaller value stays below 2 ^ 53 of its spacings.
spacing_cases :
    (j k : ℕ)
    → 0 < j
    → j ≤ k
    → (spacing j ≡ spacing k) ⊎ ((2 * spacing j ≤ spacing k) × (52 < log2 k))
unfolding spacing
spacing_cases j k p h = elim (dec_lt (log2 j - 52) (log2 k - 52)) [
  | yes lt ↦ inr (pow_lt _ _ lt, omega arith)
  | no ge ↦ inl (ap (λ e. 2 ^ e) (omega (arith, log2_mono j k p h)))
]

spacing_pos : (k : ℕ) → 0 < spacing k
unfolding spacing
spacing_pos k = pow_pos (log2 k - 52)

round_low :
    (m q : ℕ)
    → 52 < log2 (m / q)
    → 0 < m / q
    → 4503599627370496 * spacing (m / q) ≤ (round_units m q).units
unfolding round_units
round_low m q h p =
    let k = m / q in
    let below : 4503599627370496 ≤ k / spacing k =
      (le-div_iff_mul-le (spacing_pos k)).1 (spacing_below k h p) in
    mul-le-mul (le_trans below (nearest_floor m q (spacing k)).0) (le_refl (spacing k))

round_high : (n q : ℕ) → 0 < n / q → (round_units n q).units ≤ 9007199254740992 * spacing (n / q)
unfolding round_units
round_high n q p =
    let j = n / q in
    let above : j / spacing j < 9007199254740992 =
      (div-lt_iff_lt-mul (spacing_pos j)).1 (spacing_above j p) in
    mul-le-mul {n₁ = nearest n q (spacing j)} (omega (arith, above, nearest_floor n q (spacing j)))
      (le_refl (spacing j))

round_same :
    (n m q : ℕ)
    → n ≤ m
    → spacing (n / q) ≡ spacing (m / q)
    → (round_units n q).units ≤ (round_units m q).units
unfolding round_units
round_same n m q h e =
    rw e (mul-le-mul (nearest_mono n m q (spacing (m / q)) h) (le_refl (spacing (m / q))))

spacing_small : (k : ℕ) → log2 k ≤ 52 → spacing k ≡ 1
unfolding spacing
spacing_small k h = ap (λ e. 2 ^ e) (let e : log2 k - 52 ≡ 0 = omega arith in e)

log2_zero : (k : ℕ) → k ≡ 0 → log2 k ≡ 0
unfolding log2
log2_zero k e = ap (λ m. log2_from m m) e

round_zero : (n q : ℕ) → n / q ≡ 0 → (round_units n q).units ≤ 1
unfolding round_units
round_zero n q e =
    rw (spacing_small (n / q) (omega (arith, log2_zero (n / q) e)))
      (omega (arith, nearest_floor n q 1, e))

-- Of two quotients by one number, the larger never rounds below the smaller.
pub round_units_mono : (n m q : ℕ) → n ≤ m → (round_units n q).units ≤ (round_units m q).units
round_units_mono n m q h = elim (dec_lt 0 (n / q)) [
  | yes p ↦ elim (spacing_cases (n / q) (m / q) p (div_mono n m q h)) [
    | inl e ↦ round_same n m q h e
    | inr b ↦ omega (arith, round_high n q p, round_low m q b.1 (le_trans p (div_mono n m q h)))
  ]
  | no z ↦
      let e : n / q ≡ 0 = omega arith in
      elim (dec_lt 52 (log2 (m / q))) [
        | yes b ↦
            let p : 0 < m / q = grind (arith, log2_zero (m / q)) in
            omega (arith, round_zero n q e, round_low m q b p, spacing_pos (m / q))
        | no small ↦ round_same n m q h (
            spacing_small _ (omega (arith, log2_zero (n / q) e))
            ∙ sym (spacing_small _ (omega arith)))
      ]
]

-- (i + 1) / n * 100.0 grows with i.
pub percent_mono :
    (i j n : ℕ) → i ≤ j → (mul_nat (div i n) 100).units ≤ (mul_nat (div j n) 100).units
unfolding mul_nat div
percent_mono i j n h =
    round_units_mono _ _ 1
      (mul-le-mul (round_units_mono _ _ n (mul-le-mul h (le_refl one_units))) (le_refl 100))

no_rest : (gap t : ℕ) → 0 < gap → rounds_up gap t 0 ≡ false
unfolding rounds_up
no_rest gap t h = ground arith

-- A whole multiple of the spacing is kept.
nearest_exact : (t s q n : ℕ) → 0 < s → 0 < q → n ≡ t * s * q → nearest n q s ≡ t
unfolding nearest
nearest_exact t s q n hs hq e = rw (
  e,
  mul-div_left (t * s) hq,
  mul-div_left t hs,
  sub_self (t * s * q),
  no_rest (q * s) t (mul-pos hq hs),
)

round_units_lem :
    (n q : ℕ) → (round_units n q).units ≡ nearest n q (spacing (n / q)) * spacing (n / q)
unfolding round_units
round_units_lem n q = refl

round_exact : (t k q n : ℕ) → 0 < q → k ≡ t * spacing k → n ≡ k * q → (round_units n q).units ≡ k
round_exact t k q n hq e f =
    let g : n / q ≡ k = rw (f, mul-div_left k hq) in
    rw
      (
        round_units_lem n q,
        g,
        nearest_exact t (spacing k) q n (spacing_pos k) hq (f ∙ ap (λ u. u * q) e),
      )
      (sym e)

one_multiple : one_units ≡ 4503599627370496 * spacing one_units
unfolding one_units spacing log2
one_multiple = refl

hundred_multiple : one_units * 100 ≡ 7036874417766400 * spacing (one_units * 100)
unfolding one_units spacing log2
hundred_multiple = refl

-- n / n is 1.0, and 1.0 * 100 is 100.0, with no error.
pub percent_self : (n : ℕ) → 0 < n → (mul_nat (div n n) 100).units ≡ one_units * 100
unfolding mul_nat div
percent_self n p =
    let e : (round_units (n * one_units) n).units ≡ one_units =
      round_exact 4503599627370496 one_units n (n * one_units) p one_multiple
        (mul_comm n one_units) in
    rw e (
      round_exact 7036874417766400 (one_units * 100) 1 (one_units * 100) (omega arith)
        hundred_multiple (sym (mul-one _)))
