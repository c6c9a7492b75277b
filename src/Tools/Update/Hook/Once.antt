-- ===== src/Tools/Update/Hook/Once.antt =====
-- Each notice is shown once.
use nff_core.Prelude.{
  Bool, true, false, not, ◌&&◌, ◌||◌, Option, none, some, List, [], ◌∷◌, ◌++◌, if◌then◌else◌, Text,
  text_eq, ◌≡◌, refl, sym, ◌∙◌, ap, Bool-cases, inl, inr, subst,
}
use nff_core.Tools.Update.Versions.{is_newer}
use nff_core.Tools.Update.State.{LastError, State, Channel, detect_channel}
use nff_core.Tools.Update.Run.{World}
use nff_core.Tools.Update.Hook.{
  Moment, Notice, failure, available, show_updated, show_error, is_notified, is_wheel,
  show_available, shown, is_dirty, closed, is_dev, disabled, after_command_hook,
}
use nff_core.Tools.Update.Hook.Quiet.{AgreesWith, IsQuiet, quiet_shown, shown-IsQuiet}

module _ (current : Text) (channel : Channel) where
  append_nil : (xs ys : List Notice) → xs ++ ys ≡ [] → (xs ≡ []) × (ys ≡ [])
  append_nil [] ys h = (refl, h)
  append_nil (x ∷ xs) ys h = cc

  -- What shows nothing changes nothing.
  abbrev Still : State → State × List Notice → Type 0
  Still st r = r.1 ≡ [] → r.0 ≡ st

  Still-if :
      (b : Bool) (n : Notice) (st changed : State)
      → Still st (if b then (changed, n ∷ []) else (st, []))
  Still-if true n st changed h = cc
  Still-if false n st changed h = refl

  Still-unless :
      (b : Bool) (n : Notice) (st changed : State)
      → Still st (if b then (st, []) else (changed, n ∷ []))
  Still-unless true n st changed h = refl
  Still-unless false n st changed h = cc

  updated-Still : (o : Option Text) (st : State) → Still st (show_updated o st)
  unfolding show_updated
  updated-Still none st h = refl
  updated-Still (some []) st h = refl
  updated-Still (some (c ∷ v)) st h = cc

  error-Still : (o : Option LastError) (st : State) → Still st (show_error o st)
  unfolding show_error
  error-Still none st h = refl
  error-Still (some e) st h =
      Still-unless st.error_surfaced (failure e) st (record st { error_surfaced = true }) h

  available-Still : (o : Option Text) (st : State) → Still st (show_available current channel o st)
  unfolding show_available
  available-Still none st h = refl
  available-Still (some []) st h = refl
  available-Still (some (c ∷ v)) st h =
      Still-if
        (is_wheel channel
          && is_newer (c ∷ v) current
          && not (is_notified (c ∷ v) st.notified_version))
        (available (c ∷ v)) st (record st { notified_version = some (c ∷ v) }) h

  shown_still : (st : State) → (shown current channel st).1 ≡ [] → (shown current channel st).0 ≡ st
  unfolding shown
  shown_still st h =
      let st1 = (show_updated st.updated_to st).0 in
      let st2 = (show_error st1.last_error st1).0 in
      let (first, later) = append_nil (show_updated st.updated_to st).1 _ h in
      let (second, third) = append_nil (show_error st1.last_error st1).1 _ later in
      available-Still st2.latest_version st2 third
      ∙ error-Still st1.last_error st1 second
      ∙ updated-Still st.updated_to st first

  -- What is saved, where the state file can be written
  saved_lem :
      (st : State)
      → (if is_dirty (shown current channel st).1 && true then (shown current channel st).0 else st)
        ≡ (shown current channel st).0
  unfolding is_dirty
  saved_lem st = by_notices (shown current channel st).1 refl
    where
      by_notices :
          (ns : List Notice)
          → (shown current channel st).1 ≡ ns
          → (if is_dirty ns && true then (shown current channel st).0 else st)
            ≡ (shown current channel st).0
      by_notices [] e = sym (shown_still st e)
      by_notices (n ∷ ns) e = refl

hooked_state :
    (m : Moment) (w : World)
    → m.writable ≡ true
    → (closed m w (shown m.current (detect_channel m.install) w.state)).state
      ≡ (shown m.current (detect_channel m.install) w.state).0
unfolding closed
hooked_state m w h =
    subst
      (λ b.
        (if is_dirty (shown m.current (detect_channel m.install) w.state).1 && b
          then (shown m.current (detect_channel m.install) w.state).0
          else w.state)
        ≡ (shown m.current (detect_channel m.install) w.state).0)
      (sym h) (saved_lem m.current (detect_channel m.install) w.state)

-- The hook does something at all.
abbrev pub is_active : Moment → Bool
is_active m = not (m.skip || disabled m.no_update || not m.auto_enabled)

quiet_hook :
    (m : Moment) (w : World)
    → IsQuiet m.current (detect_channel m.install) w.state
    → (after_command_hook m w).1 ≡ []
unfolding after_command_hook
quiet_hook m w q = elim (Bool-cases (m.skip || disabled m.no_update || not m.auto_enabled)) [
  | inl e ↦ rw e refl
  | inr e ↦ elim (Bool-cases (is_dev (detect_channel m.install))) [
    | inl d ↦ rw (e, d) refl
    | inr d ↦
        rw (e, d)
          (ap (λ (r : State × List Notice). r.1)
            (quiet_shown m.current (detect_channel m.install) w.state q))
  ]
]

dev_hook :
    (m : Moment) (w : World)
    → is_dev (detect_channel m.install) ≡ true
    → (after_command_hook m w).1 ≡ []
unfolding after_command_hook
dev_hook m w d = elim (Bool-cases (m.skip || disabled m.no_update || not m.auto_enabled)) [
  | inl e ↦ rw e refl
  | inr e ↦ rw (e, d) refl
]

left_state :
    (m : Moment) (w : World)
    → m.writable ≡ true
    → is_active m ≡ true
    → is_dev (detect_channel m.install) ≡ false
    → (after_command_hook m w).0.state ≡ (shown m.current (detect_channel m.install) w.state).0
unfolding after_command_hook
left_state m w writable active d =
    elim (Bool-cases (m.skip || disabled m.no_update || not m.auto_enabled)) [
      | inl e ↦ cc (rw e at active)
      | inr e ↦ rw (e, d) (hooked_state m w writable)
    ]

hooked-IsQuiet :
    (m : Moment) (w : World) (x : State)
    → m.writable ≡ true
    → is_active m ≡ true
    → is_dev (detect_channel m.install) ≡ false
    → AgreesWith (after_command_hook m w).0.state x
    → IsQuiet m.current (detect_channel m.install) x
hooked-IsQuiet m w x writable active d same =
    shown-IsQuiet m.current (detect_channel m.install) w.state x
      (subst (λ s. AgreesWith s x) (left_state m w writable active d) same)

-- Where the state file can be written and the hook is active, whatever it shows is shown once: a later hook of the
-- same program on the same install shows nothing, provided that what the notices read, the finished update, the
-- error and whether it was shown, the latest version and the one shown, is in the state as the first hook left
-- it. Between the two, runs of the updater may check and find the same version, and the lock and the binaries
-- may change; one that records an update, an error or another version is excluded.
pub hook_once :
    (m next : Moment) (w between : World)
    → m.writable ≡ true
    → is_active m ≡ true
    → next.current ≡ m.current
    → next.install ≡ m.install
    → AgreesWith (after_command_hook m w).0.state between.state
    → (after_command_hook next between).1 ≡ []
hook_once m next w between writable active same_version same_install same =
    elim (Bool-cases (is_dev (detect_channel m.install))) [
      | inl d ↦
          dev_hook next between (subst (λ i. is_dev (detect_channel i) ≡ true) (sym same_install) d)
      | inr d ↦ quiet_hook next between (
          subst (λ v. IsQuiet v (detect_channel next.install) between.state) (sym same_version)
            (subst (λ i. IsQuiet m.current (detect_channel i) between.state) (sym same_install)
              (hooked-IsQuiet m w between.state writable active d same)))
    ]
