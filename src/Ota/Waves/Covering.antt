-- ===== src/Ota/Waves/Covering.antt =====
-- The wave of one position: percentages covered, against the phases (`covered` and `wave` in
-- `_assign_waves`).
use nff_core.Prelude.{
  ℕ, suc, ◌+◌, ◌-◌, ◌*◌, ◌≤◌, ◌<◌, ◌≡◌, refl, ◌∙◌, true, false, none, List, [], ◌∷◌, ℤ, pos, negsuc,
  leb, if◌then◌else◌, string_eq, string_order, length, arith,
}
use nff_core.Ota.Phases.{ascending, ends_at_hundred, check_phases}
use native.Mathlib.Nat.{mul-le-mul, le_refl}
use nff_core.Float.{Float, le_nat, one_units}
use nff_core.Float.Rounding.{percent_mono, percent_self}
use nff_core.Ota.Waves.{covers, first_wave, covered_by, wave_at}

covers_mono :
    (a b : Float) (pct : ℤ) → a.units ≤ b.units → covers b pct ≡ true → covers a pct ≡ true
unfolding covers le_nat
covers_mono a b (pos pct) h c = ground arith
covers_mono a b (negsuc n) h c = c

first_wave_bound :
    (x : Float) (w : ℕ) (phases : List ℤ) (l k : ℕ)
    → w + length phases ≤ k
    → l < k
    → first_wave x w phases l < k
unfolding first_wave
first_wave_bound x w [] l k h p = p
first_wave_bound x w (pct ∷ phases) l k h p = ground (arith, first_wave_bound x (w + 1) phases l k)

first_wave_low :
    (x : Float) (w : ℕ) (phases : List ℤ) (l : ℕ)
    → w + length phases ≤ l + 1
    → w ≤ l
    → w ≤ first_wave x w phases l
unfolding first_wave
first_wave_low x w [] l h p = p
first_wave_low x w (pct ∷ []) l h p = ground arith
first_wave_low x w (pct ∷ (q ∷ phases)) l h p =
    ground (arith, first_wave_low x (w + 1) (q ∷ phases) l)

first_wave-nil : (x : Float) (w l : ℕ) → first_wave x w [] l ≡ l
unfolding first_wave
first_wave-nil x w l = refl

first_wave-cons :
    (x : Float) (w : ℕ) (pct : ℤ) (phases : List ℤ) (l : ℕ)
    → first_wave x w (pct ∷ phases) l ≡ (if covers x pct then w else first_wave x (w + 1) phases l)
unfolding first_wave
first_wave-cons x w pct phases l = refl

first_wave_mono :
    (a b : Float) (w : ℕ) (phases : List ℤ) (l : ℕ)
    → a.units ≤ b.units
    → w + length phases ≤ l + 1
    → w ≤ l
    → first_wave a w phases l ≤ first_wave b w phases l
first_wave_mono a b w [] l h k p = unfold first_wave in omega arith
first_wave_mono a b w (pct ∷ []) l h k p = ground (
  arith,
  covers_mono a b pct h,
  first_wave-cons a w pct [] l,
  first_wave-cons b w pct [] l,
  first_wave-nil a (w + 1) l,
  first_wave-nil b (w + 1) l,
)
first_wave_mono a b w (pct ∷ (q ∷ phases)) l h k p = ground (
  arith,
  covers_mono a b pct h,
  first_wave-cons a w pct (q ∷ phases) l,
  first_wave-cons b w pct (q ∷ phases) l,
  first_wave_mono a b (w + 1) (q ∷ phases) l h,
  first_wave_low b w (pct ∷ (q ∷ phases)) l k p,
)

module _ (n : ℕ) (p : ℤ) (ps : List ℤ) where
  -- Every wave is one of the phases.
  pub wave_at_bound : (i : ℕ) → wave_at i n (p ∷ ps) < length (p ∷ ps)
  unfolding wave_at
  wave_at_bound i =
      first_wave_bound (covered_by i n) 0 (p ∷ ps) (length (p ∷ ps) - 1) (length (p ∷ ps))
        (omega arith) (omega arith)

  pub wave_at_mono : (i j : ℕ) → i ≤ j → wave_at i n (p ∷ ps) ≤ wave_at j n (p ∷ ps)
  unfolding wave_at
  wave_at_mono i j h =
      first_wave_mono (covered_by i n) (covered_by j n) 0 (p ∷ ps) (length (p ∷ ps) - 1)
        (percent_mono (i + 1) (j + 1) n (omega arith)) (omega arith) (omega arith)

over_hundred : (u n : ℕ) → 0 < u → n < 100 → leb (u * 100) (n * u) ≡ false
over_hundred u n p h = ground (arith, mul-le-mul {n₁ = suc n} h (le_refl u))

AtMost : ℤ → Type 0
AtMost (pos n) = n ≤ 100
AtMost (negsuc n) = Unit

ascending-AtMost :
    (p : ℤ) (ps : List ℤ) → ascending (p ∷ ps) ≡ true → ends_at_hundred (p ∷ ps) ≡ true → AtMost p
unfolding ascending ends_at_hundred AtMost
ascending-AtMost (pos n) [] a e = ground arith
ascending-AtMost (negsuc n) [] a e = tt
ascending-AtMost (pos n) (pos q ∷ ps) a e = ground (arith, ascending-AtMost (pos q) ps)
ascending-AtMost (pos n) (negsuc q ∷ ps) a e = cc
ascending-AtMost (negsuc n) (q ∷ ps) a e = tt

one-pos : 0 < one_units
unfolding one_units
one-pos = omega arith

not_covered :
    (x : Float) (p q : ℤ) (ps : List ℤ)
    → x.units ≡ one_units * 100
    → ascending (p ∷ (q ∷ ps)) ≡ true
    → ends_at_hundred (q ∷ ps) ≡ true
    → covers x p ≡ false
not_covered x (negsuc n) q ps u a e = unfold covers in refl
not_covered x (pos n) (negsuc q) ps u a e = unfold ascending in cc
not_covered x (pos n) (pos q) ps u a e =
    let below : n < q = unfold ascending in ground arith in
    let rest : ascending (pos q ∷ ps) ≡ true = unfold ascending in ground arith in
    let cap : q ≤ 100 = unfold AtMost in ascending-AtMost (pos q) ps rest e in
    unfold covers le_nat in rw u (over_hundred one_units n one-pos (omega arith))

first_wave_last :
    (x : Float) (w l : ℕ) (ps : List ℤ)
    → x.units ≡ one_units * 100
    → ascending ps ≡ true
    → ends_at_hundred ps ≡ true
    → w + length ps ≡ l + 1
    → first_wave x w ps l ≡ l
first_wave_last x w l [] u a e k = first_wave-nil x w l
first_wave_last x w l (p ∷ []) u a e k =
    ground (arith, first_wave-cons x w p [] l, first_wave-nil x (w + 1) l)
first_wave_last x w l (p ∷ (q ∷ ps)) u a e k =
    let rest : ascending (q ∷ ps) ≡ true = unfold ascending in ground arith in
    let ends : ends_at_hundred (q ∷ ps) ≡ true = unfold ends_at_hundred in e in
    ground (
      arith,
      first_wave-cons x w p (q ∷ ps) l,
      not_covered x p q ps u a ends,
      first_wave_last x (w + 1) l (q ∷ ps) u rest ends,
    )

check_parts :
    (p : ℤ) (ps : List ℤ)
    → check_phases (p ∷ ps) ≡ none
    → (ascending (p ∷ ps) ≡ true) × (ends_at_hundred (p ∷ ps) ≡ true)
unfolding check_phases
check_parts p ps h = (ground arith, ground arith)

-- The last device of the order is in the last wave, so a validated rollout reaches every wave count.
pub wave_at_last :
    (i : ℕ) (p : ℤ) (ps : List ℤ)
    → check_phases (p ∷ ps) ≡ none
    → wave_at i (i + 1) (p ∷ ps) ≡ length ps
unfolding wave_at covered_by
wave_at_last i p ps h =
    let good = check_parts p ps h in
    first_wave_last (covered_by i (i + 1)) 0 (length (p ∷ ps) - 1) (p ∷ ps)
      (percent_self (i + 1) (omega arith)) good.0 good.1 (omega arith)
    ∙ omega arith
