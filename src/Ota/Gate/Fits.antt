-- ===== src/Ota/Gate/Fits.antt =====
-- Which device types fit the targets of an artifact.
use nff_core.Prelude.{
  ◌≡◌, refl, sym, true, ◌⊎◌, List, [], ◌∷◌, string_eq, Among, Text, text_eq, Bool-cases, inl, inr,
  All, ◌↔◌, ◌∙◌, false, strip, lower, is_blank, any-elim, any-Among, true≢false, text_eqb_iff, ◌==◌,
}
use nff_core.Ota.Store.{Device, or_else}
use nff_core.Ota.Gate.{allowed_types, is_compatible, device_type_of}

-- A device type fits the targets of an artifact if all of those are blank, or the type is, or it is one
-- of them up to case and outer spaces.
abbrev pub Fits : List Text → Text → Type 0
Fits types reported =
    All (λ t. is_blank (strip t) ≡ true) types
    ⊎ (is_blank (strip reported) ≡ true)
    ⊎ ((t : Text) × Among t types
        × (is_blank (strip t) ≡ false)
        × (lower (strip t) ≡ lower (strip reported)))

cons≢nil {ℓ} : {A : Type ℓ} {x : A} {xs : List A} → x ∷ xs ≡ [] → ⊥
cons≢nil h = cc

no_targets :
    (types : List Text) → (allowed_types types ≡ []) ↔ All (λ t. is_blank (strip t) ≡ true) types
unfolding allowed_types
no_targets [] = (λ h. tt, λ h. refl)
no_targets (t ∷ ts) = elim (Bool-cases (is_blank (strip t))) [
  | inl e ↦ rw e (λ h. (refl, (no_targets ts).0 h), λ h. (no_targets ts).1 h.1)
  | inr e ↦ rw e (λ h. absurd (cons≢nil h), λ h. absurd (true≢false (sym h.0)))
]

target_of :
    (types : List Text) (x : Text)
    → Among x (allowed_types types)
    → (t : Text) × Among t types × (is_blank (strip t) ≡ false) × (lower (strip t) ≡ x)
unfolding allowed_types
target_of [] x m = absurd m
target_of (t ∷ ts) x m = elim (Bool-cases (is_blank (strip t))) [
  | inl e ↦ let (u, n, b, l) = target_of ts x (rw e at m) in (u, inr n, b, l)
  | inr e ↦ elim (rw e at m) [
    | inl same ↦ (t, inl refl, e, same)
    | inr later ↦ let (u, n, b, l) = target_of ts x later in (u, inr n, b, l)
  ]
]

is_target :
    (types : List Text) (t : Text)
    → Among t types
    → is_blank (strip t) ≡ false
    → Among (lower (strip t)) (allowed_types types)
unfolding allowed_types
is_target [] t m b = absurd m
is_target (u ∷ us) t (inl e) b = rw (e, b) (inl refl)
is_target (u ∷ us) t (inr m) b = elim (Bool-cases (is_blank (strip u))) [
  | inl e ↦ rw e (is_target us t m b)
  | inr e ↦ rw e (inr (is_target us t m b))
]

blank-lower : (s : Text) → is_blank (lower s) ≡ is_blank s
unfolding is_blank lower
blank-lower [] = refl
blank-lower (c ∷ s) = refl

pub Fits-intro :
    (types : List Text) (d : Device)
    → (allowed_types types ≡ []) ⊎ (is_compatible (allowed_types types) d ≡ true)
    → Fits types (or_else d.device_type [])
unfolding is_compatible device_type_of
Fits-intro types d (inl e) = inl ((no_targets types).0 e)
Fits-intro types d (inr h) =
    elim (Bool-cases (is_blank (lower (strip (or_else d.device_type []))))) [
      | inl e ↦ inr (inl (sym (blank-lower (strip (or_else d.device_type []))) ∙ e))
      | inr e ↦
          let dt = lower (strip (or_else d.device_type [])) in
          let (x, m, same) = any-elim (λ (t : Text). t == dt) (allowed_types types) (rw e at h) in
          let (t, n, b, l) = target_of types x m in
          inr (inr (t, n, b, l ∙ (text_eqb_iff x dt).0 same))
    ]

pub Fits-elim :
    (types : List Text) (d : Device)
    → Fits types (or_else d.device_type [])
    → (allowed_types types ≡ []) ⊎ (is_compatible (allowed_types types) d ≡ true)
unfolding is_compatible device_type_of
Fits-elim types d (inl blank) = inl ((no_targets types).1 blank)
Fits-elim types d (inr (inl none_reported)) =
    inr (rw (blank-lower (strip (or_else d.device_type [])), none_reported) refl)
Fits-elim types d (inr (inr (t, m, b, l))) =
    elim (Bool-cases (is_blank (lower (strip (or_else d.device_type []))))) [
      | inl e ↦ inr (rw e refl)
      | inr e ↦
          let dt = lower (strip (or_else d.device_type [])) in
          inr (
            rw e (
              any-Among (λ (x : Text). x == dt) (allowed_types types) (lower (strip t))
                (is_target types t m b) ((text_eqb_iff (lower (strip t)) dt).1 l)))
    ]
