-- ===== src/Fleet/Telemetry/Spacing.antt =====
-- How often the progress of a device is passed on.
use nff_core.Prelude.{
  ℕ, ◌+◌, ◌≤◌, ltb, Bool, true, false, some, List, [], ◌∷◌, String, ◌==◌, string_eq, if◌then◌else◌,
  arith, Dict, get, ◌≡◌, ◌≢◌, refl, subst, ◌∙◌, get-put, get-put_ne, eq_iff, Bool-cases,
  Option-cases, inl, inr, ◌⊎◌,
}
use nff_core.Fleet.Messages.{Payload, Effect, post_ota_progress, truthy}
use nff_core.Fleet.Telemetry.{
  progress_min_interval, last_forward, is_throttled, stamped, progress_of, forward_ota_progress,
}

pub record Tick : Type 0 where
  pub at : ℕ
  pub device : String
  pub payload : Payload

-- What goes out of a sequence of ticks, each with its time
unfoldable pub forwarded : String → List Tick → Dict ℕ → List (ℕ × List Effect)
forwarded url [] last = []
forwarded url (t ∷ ts) last =
    let (last', effects) = forward_ota_progress t.at url t.device t.payload last in
    (t.at, effects) ∷ forwarded url ts last'

-- The times at which download progress of a device goes out
is_download : String → List Effect → Bool
is_download id (post_ota_progress device version stage progress attempt ∷ []) =
    if device == id then stage == "downloading" else false
is_download id _ = false

unfoldable pub downloads : String → List (ℕ × List Effect) → List ℕ
unfolding is_download
downloads id [] = []
downloads id ((now, effects) ∷ rest) =
    let later = downloads id rest in if is_download id effects then now ∷ later else later

-- Each of the times is at least the interval after the one before it, the first after `last`.
abbrev pub Spaced : ℕ → List ℕ → Type 0
Spaced last [] = Unit
Spaced last (t ∷ ts) = (last + progress_min_interval ≤ t) × Spaced t ts

-- One tick: its download progress goes out late enough and is noted, or the note of the device stays.
abbrev Paced : ℕ → String → Dict ℕ → Dict ℕ × List Effect → Type 0
unfolding last_forward is_download
Paced now id last (last', effects) =
    ((is_download id effects ≡ true)
      × (last_forward (get id last) + progress_min_interval ≤ now)
      × (last_forward (get id last') ≡ now))
    ⊎ ((is_download id effects ≡ false) × (get id last' ≡ get id last))

module _ (now : ℕ) (device : String) (p : Payload) (version stage id : String) (last : Dict ℕ) where
  effect : Effect
  effect = post_ota_progress device version stage p.progress p.attempt

  Paced-progress : Paced now id last (progress_of now device p (some version) (some stage) last)
  unfolding progress_of is_throttled stamped last_forward is_download
  Paced-progress = elim (Bool-cases (stage == "downloading")) [
    | inr other ↦ rw other (
        inr (
          elim (Bool-cases (device == id)) [ inl e ↦ rw (e, other) refl | inr e ↦ rw e refl ],
          refl,
        ))
    | inl loading ↦
        elim (Bool-cases (ltb now (last_forward (get device last) + progress_min_interval))) [
          | inl early ↦ rw (loading, early) (inr (refl, refl))
          | inr late ↦ elim (Bool-cases (device == id)) [
            | inl e ↦
                let same : device ≡ id = (eq_iff device id).0 e in
                rw (loading, late)
                  (inl (
                    rw (e, loading) refl,
                    subst (λ k. last_forward (get k last) + progress_min_interval ≤ now) same
                        (ground arith),
                    rw (get-put id device now last, e) refl,
                  ))
            | inr e ↦ rw (loading, late) (inr (rw e refl, get-put id device now last ∙ rw e refl))
          ]
        ]
  ]

Paced-forward :
    (now : ℕ) (url device id : String) (p : Payload) (last : Dict ℕ)
    → Paced now id last (forward_ota_progress now url device p last)
unfolding forward_ota_progress progress_of is_download
Paced-forward now url device id p last = elim (Bool-cases (url == "")) [
  | inl e ↦ rw e (inr (refl, refl))
  | inr e ↦ rw e (elim (Option-cases (truthy p.version)) [
    | inl v ↦ rw v (inr (refl, refl))
    | inr (version, v) ↦ elim (Option-cases (truthy p.stage)) [
      | inl s ↦ rw (v, s) (inr (refl, refl))
      | inr (stage, s) ↦ rw (v, s) (Paced-progress now device p version stage id last)
    ]
  ])
]

-- Whatever ticks arrive and whenever they do, the download progress of one device that is passed on is at
-- least a second apart, and the first of it a second after the one that was noted before.
pub forwarded-Spaced :
    (url id : String) (ts : List Tick) (last : Dict ℕ)
    → Spaced (last_forward (get id last)) (downloads id (forwarded url ts last))
unfolding forwarded downloads Paced
forwarded-Spaced url id [] last = tt
forwarded-Spaced url id (t ∷ ts) last =
    let (last', effects) = forward_ota_progress t.at url t.device t.payload last in
    let ih = forwarded-Spaced url id ts last' in
    elim (Paced-forward t.at url t.device id t.payload last) [
      | inl (out, spaced, noted) ↦
          rw out (spaced, subst (λ k. Spaced k (downloads id (forwarded url ts last'))) noted ih)
      | inr (none_out, kept) ↦
          rw none_out
            (subst (λ o. Spaced (last_forward o) (downloads id (forwarded url ts last'))) kept ih)
    ]

-- A tick of another stage than downloading is never held back.
pub stage_passes :
    (now : ℕ) (url device version stage : String) (p : Payload) (last : Dict ℕ)
    → (url == "") ≡ false
    → truthy p.version ≡ some version
    → truthy p.stage ≡ some stage
    → (stage == "downloading") ≡ false
    → forward_ota_progress now url device p last
      ≡ (last, post_ota_progress device version stage p.progress p.attempt ∷ [])
unfolding forward_ota_progress progress_of is_throttled stamped
stage_passes now url device version stage p last u v s other = rw (u, v, s, other) refl

-- Another device's note is left alone.
pub forward_ota_progress-apart :
    (now : ℕ) (url id other : String) (p : Payload) (last : Dict ℕ)
    → id ≢ other
    → get other (forward_ota_progress now url id p last).0 ≡ get other last
unfolding forward_ota_progress progress_of stamped
forward_ota_progress-apart now url id other p last h =
    ground (arith, get-put_ne other id now last, h)
