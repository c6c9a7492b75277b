-- ===== src/Ota/Waves/Cohorts.antt =====
-- What `_assign_waves` promises of the cohorts.
use mathlib.Core.List.{Permᴰ}
use nff_core.Prelude.{
  ℕ, zero, suc, ◌+◌, ◌≤◌, ◌<◌, ◌≡◌, ◌≢◌, refl, ap, sym, ◌∙◌, none, some, List, [], ◌∷◌, ℤ,
  if◌then◌else◌, String, ◌==◌, string_eq, string_order, sorted, length, arith, get_elem?, Distinct,
  Distinct-sorted, eq_iff, All, All-weaken, subst, length-sorted, sorted-perm,
}
use nff_core.Ota.Phases.{check_phases}
use nff_core.Ota.Waves.Covering.{wave_at_bound, wave_at_mono, wave_at_last}
use nff_core.Ota.Waves.{wave_at, Waves, wave_of, assign_from, assign_waves}

assign_from-cons :
    (idx n : ℕ) (ps : List ℤ) (e : String) (es : List String) (acc : Waves)
    → assign_from idx n ps (e ∷ es) acc
      ≡ assign_from (idx + 1) n ps es ((e, wave_at idx n ps) ∷ acc)
unfolding assign_from
assign_from-cons idx n ps e es acc = refl

wave_of-cons :
    (d e : String) (w : ℕ) (acc : Waves)
    → wave_of d ((e, w) ∷ acc) ≡ (if e == d then w else wave_of d acc)
unfolding wave_of
wave_of-cons d e w acc = refl

wave_of-skip :
    (d : String) (idx n : ℕ) (ps : List ℤ) (devs : List String) (acc : Waves)
    → All (λ e. e ≢ d) devs
    → wave_of d (assign_from idx n ps devs acc) ≡ wave_of d acc
wave_of-skip d idx n ps [] acc h = unfold assign_from in refl
wave_of-skip d idx n ps (e ∷ es) acc h = rw (assign_from-cons idx n ps e es acc) (
    wave_of-skip d (idx + 1) n ps es ((e, wave_at idx n ps) ∷ acc) h.1
    ∙ ground (arith, wave_of-cons d e (wave_at idx n ps) acc, eq_iff e d, h.0))

wave_of-assign_from :
    (d : String) (idx n : ℕ) (ps : List ℤ) (devs : List String) (acc : Waves) (i : ℕ)
    → Distinct devs
    → get_elem? devs i ≡ some d
    → wave_of d (assign_from idx n ps devs acc) ≡ wave_at (idx + i) n ps
wave_of-assign_from d idx n ps [] acc i dist at = cc
wave_of-assign_from d idx n ps (e ∷ es) acc zero dist at =
    let same : e ≡ d = cc in
    rw (assign_from-cons idx n ps e es acc) (
      wave_of-skip d (idx + 1) n ps es ((e, wave_at idx n ps) ∷ acc)
        (subst (λ x. All (λ y. y ≢ x) es) same (All-weaken es (λ y ne eq. ne (sym eq)) dist.0))
      ∙ ground (arith, wave_of-cons d e (wave_at idx n ps) acc, eq_iff e d))
wave_of-assign_from d idx n ps (e ∷ es) acc (suc i) dist at =
    rw (assign_from-cons idx n ps e es acc) (
      wave_of-assign_from d (idx + 1) n ps es ((e, wave_at idx n ps) ∷ acc) i dist.1 at
      ∙ ap (λ k. wave_at k n ps) (omega arith))

-- The i-th device in the order of ids gets the first phase that covers (i + 1) / n of the fleet.
assign_waves_exact :
    (ids : List String) (p : ℤ) (ps : List ℤ) (i : ℕ) (d : String)
    → Distinct ids
    → get_elem? (sorted ids) i ≡ some d
    → wave_of d (assign_waves ids (some (p ∷ ps))) ≡ wave_at i (length (sorted ids)) (p ∷ ps)
unfolding assign_waves
assign_waves_exact ids p ps i d dist at =
    wave_of-assign_from d 0 (length (sorted ids)) (p ∷ ps) (sorted ids) [] i
      (Distinct-sorted ids dist) at
    ∙ ap (λ k. wave_at k (length (sorted ids)) (p ∷ ps)) (omega arith)

-- Under phases, the cohorts depend on the set of device ids alone, not on the order that the query returned.
pub assign_waves_stable :
    (xs ys : List String) (phases : List ℤ)
    → Permᴰ xs ys
    → phases ≢ []
    → assign_waves xs (some phases) ≡ assign_waves ys (some phases)
unfolding assign_waves
assign_waves_stable xs ys [] p h = absurd (h refl)
assign_waves_stable xs ys (q ∷ qs) p h =
    ap (λ l. assign_from 0 (length l) (q ∷ qs) l []) (sorted-perm xs ys p)

module _ (ids : List String) (p : ℤ) (ps : List ℤ) (dist : Distinct ids) where
  abbrev wave : String → ℕ
  wave d = wave_of d (assign_waves ids (some (p ∷ ps)))

  -- For distinct devices: earlier waves are a prefix of the fleet in the order of ids, and every wave is a phase.
  pub assign_waves_prefix :
      (i j : ℕ) (d e : String)
      → i ≤ j
      → get_elem? (sorted ids) i ≡ some d
      → get_elem? (sorted ids) j ≡ some e
      → (wave d ≤ wave e) × (wave e < length (p ∷ ps))
  assign_waves_prefix i j d e h at_i at_j =
      let n = length (sorted ids) in
      rw (assign_waves_exact ids p ps i d dist at_i, assign_waves_exact ids p ps j e dist at_j)
        (wave_at_mono n p ps i j h, wave_at_bound n p ps j)

  -- Of distinct devices, the last one in the order of ids is in the last wave when the phases pass the validator.
  pub assign_waves_last :
      (i : ℕ) (d : String)
      → check_phases (p ∷ ps) ≡ none
      → length ids ≡ i + 1
      → get_elem? (sorted ids) i ≡ some d
      → wave d ≡ length ps
  assign_waves_last i d ok len at =
      assign_waves_exact ids p ps i d dist at ∙ rw (length-sorted ids, len) (wave_at_last i p ps ok)
