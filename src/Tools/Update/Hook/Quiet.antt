-- ===== src/Tools/Update/Hook/Quiet.antt =====
-- What the notices leave to show: a state that agrees with the one they leave has nothing more.
use nff_core.Prelude.{
  ℕ, Bool, true, false, not, ◌&&◌, Option, none, some, [], ◌∷◌, if◌then◌else◌, Text, text_eq,
  text_eqb_iff, ◌≡◌, refl, sym, ◌∙◌, ap, arith, Bool-cases, inl, inr, some_inj, subst,
}
use nff_core.Tools.Update.Versions.{is_newer}
use nff_core.Tools.Update.State.{LastError, State, Channel}
use nff_core.Tools.Update.Hook.{
  show_updated, show_error, is_notified, is_wheel, show_available, shown,
}

-- Two states agree in what the notices read; the time of the last check may differ.
pub record AgreesWith (a b : State) : Type 0 where
  pub done : b.updated_to ≡ a.updated_to
  pub wrong : b.last_error ≡ a.last_error
  pub surfaced : b.error_surfaced ≡ a.error_surfaced
  pub latest : b.latest_version ≡ a.latest_version
  pub notified : b.notified_version ≡ a.notified_version

-- There is nothing to show of the update, of the error and of the available version.
abbrev pub IsQuiet : Text → Channel → State → Type 0
IsQuiet current channel st =
    (show_updated st.updated_to st ≡ (st, []))
    × (show_error st.last_error st ≡ (st, []))
    × (show_available current channel st.latest_version st ≡ (st, []))

pub quiet_shown :
    (current : Text) (channel : Channel) (st : State)
    → IsQuiet current channel st
    → shown current channel st ≡ (st, [])
unfolding shown
quiet_shown current channel st q = rw (q.0, q.1, q.2) refl

-- An update that was shown is shown no more.
updated_quiet :
    (o : Option Text) (st x : State)
    → o ≡ st.updated_to
    → show_updated (show_updated o st).0.updated_to x ≡ (x, [])
unfolding show_updated
updated_quiet none st x h = rw (sym h) refl
updated_quiet (some []) st x h = rw (sym h) refl
updated_quiet (some (c ∷ v)) st x h = refl

error_quiet :
    (o : Option LastError) (st x : State)
    → x.error_surfaced ≡ (show_error o st).0.error_surfaced
    → show_error o x ≡ (x, [])
unfolding show_error
error_quiet none st x h = refl
error_quiet (some e) st x h = elim (Bool-cases st.error_surfaced) [
  | inl s ↦ let seen : x.error_surfaced ≡ true = ground arith in rw seen refl
  | inr s ↦ let seen : x.error_surfaced ≡ true = ground arith in rw seen refl
]

notified_self : (v : Text) (o : Option Text) → o ≡ some v → is_notified v o ≡ true
unfolding is_notified
notified_self v none h = cc
notified_self v (some w) h = (text_eqb_iff w v).1 (some_inj h)

module _ (current : Text) (channel : Channel) where
  -- Whether the version is shown to a state that was told of `told`
  tells : Text → Option Text → Bool
  unfolding is_notified
  tells v told = is_wheel channel && is_newer v current && not (is_notified v told)

  told_after : Text → Option Text → Option Text
  unfolding tells
  told_after v told = if tells v told then some v else told

  tells_once : (v : Text) (told : Option Text) → tells v (told_after v told) ≡ false
  unfolding tells told_after
  tells_once v told =
      elim (Bool-cases (is_wheel channel && is_newer v current && not (is_notified v told))) [
        | inl e ↦ rw (e, notified_self v (some v) refl) (ground arith)
        | inr e ↦ rw (e, e) refl
      ]

  available_told :
      (c : ℕ) (v : Text) (st : State)
      → (show_available current channel (some (c ∷ v)) st).0.notified_version
        ≡ told_after (c ∷ v) st.notified_version
  unfolding show_available told_after tells
  available_told c v st =
      elim (Bool-cases (
        is_wheel channel
        && is_newer (c ∷ v) current
        && not (is_notified (c ∷ v) st.notified_version))) [ inl e ↦ rw e refl | inr e ↦ rw e refl ]

  available_silent :
      (c : ℕ) (v : Text) (x : State)
      → tells (c ∷ v) x.notified_version ≡ false
      → show_available current channel (some (c ∷ v)) x ≡ (x, [])
  unfolding show_available tells
  available_silent c v x h = rw h refl

  available_quiet :
      (o : Option Text) (st x : State)
      → x.notified_version ≡ (show_available current channel o st).0.notified_version
      → show_available current channel o x ≡ (x, [])
  unfolding show_available
  available_quiet none st x h = refl
  available_quiet (some []) st x h = refl
  available_quiet (some (c ∷ v)) st x h =
      available_silent c v x
        (ap (tells (c ∷ v)) (h ∙ available_told c v st) ∙ tells_once (c ∷ v) st.notified_version)

  -- Each notice touches one field.
  record Spared (x y : State) : Type 0 where
    done : y.updated_to ≡ x.updated_to
    wrong : y.last_error ≡ x.last_error
    seen : y.error_surfaced ≡ x.error_surfaced
    latest : y.latest_version ≡ x.latest_version

  available-Spared :
      (o : Option Text) (st : State) → Spared st (show_available current channel o st).0
  unfolding show_available
  available-Spared none st = record { done = refl; wrong = refl; seen = refl; latest = refl }
  available-Spared (some []) st = record { done = refl; wrong = refl; seen = refl; latest = refl }
  available-Spared (some (c ∷ v)) st = ground arith

  error_kept :
      (o : Option LastError) (st : State)
      → ((show_error o st).0.updated_to ≡ st.updated_to)
        × ((show_error o st).0.last_error ≡ st.last_error)
  unfolding show_error
  error_kept none st = (refl, refl)
  error_kept (some e) st = ground arith

  -- Quiet are also the states that agree with the one left in what the notices read.
  pub shown-IsQuiet :
      (st x : State) → AgreesWith (shown current channel st).0 x → IsQuiet current channel x
  unfolding shown
  shown-IsQuiet st x same =
      let st1 = (show_updated st.updated_to st).0 in
      let st2 = (show_error st1.last_error st1).0 in
      let spared = available-Spared st2.latest_version st2 in
      let (kept, same_error) = error_kept st1.last_error st1 in
      (
        subst (λ o. show_updated o x ≡ (x, [])) (sym (same.done ∙ spared.done ∙ kept))
            (updated_quiet st.updated_to st x refl),
        subst (λ o. show_error o x ≡ (x, [])) (sym (same.wrong ∙ spared.wrong ∙ same_error))
            (error_quiet st1.last_error st1 x (same.surfaced ∙ spared.seen)),
        subst (λ o. show_available current channel o x ≡ (x, []))
            (sym (same.latest ∙ spared.latest))
            (available_quiet st2.latest_version st2 x same.notified),
      )
