-- ===== src/Tools/Update/Run/Trusted.antt =====
-- What a run of the updater may put in the place of the installed binary.
use nff_core.Prelude.{
  ℕ, Bool, true, false, not, ◌&&◌, Option, none, some, Text, Result, ok, err, ◌≡◌, ◌⊎◌, refl, subst,
  ◌∙◌, ap, inl, inr, Bool-cases, arith,
}
use nff_core.Tools.Update.Versions.{is_newer}
use nff_core.Tools.Update.State.{
  Stage, swap as swap_stage, verify, State, with_error, acquire_lock, Channel, standalone, wheel,
  dev, detect_channel, has_target, should_check,
}
use nff_core.Tools.Update.Release.{check_latest, download_and_stage, verify_staged}
use nff_core.Tools.Update.Release.Checked.{
  IsListed, Reports, download_and_stage-IsListed, verify_staged-Reports,
}
use nff_core.Tools.Update.Swap.{Binary, Places, Faults, swap, cleanup_old}
use nff_core.Tools.Update.Swap.Recovers.{Outcome, swap-Outcome}
use nff_core.Tools.Update.Run.{
  World, Setting, save_state, is_standalone, failed, with_success, swapped, with_latest, unlocked,
  is_served, install_staged, install_release, released, locked, single_flight, run_update,
}

-- The version that the server announced is newer than the running one, and the binary is the download that
-- the sums list for this platform; it ran and named that version, and the program is a standalone install.
pub record IsTrusted (sha256 : Binary → Text) (run : Binary → Option (ℕ × Text)) (s : Setting)
    (binary : Binary) : Type 0 where
  pub version : Text
  pub announced : check_latest s.answer ≡ ok version
  pub is_update : is_newer version s.current ≡ true
  pub listed : IsListed sha256 s.available binary
  pub reports : Reports run binary version
  pub channel : detect_channel s.install ≡ standalone

-- The installed binary is as before, or moved to `.old`, or replaced by one of which `P` holds.
abbrev pub Fate : (Binary → Type 0) → Places → Places → Type 0
Fate P p q =
    (q.target ≡ p.target)
    ⊎ ((q.target ≡ none) × (q.old ≡ p.target))
    ⊎ ((binary : Binary) × (q.target ≡ some binary) × P binary)

cleanup_old-target : (f : Faults) (p : Places) → (cleanup_old f p).target ≡ p.target
unfolding cleanup_old
cleanup_old-target f p = ground arith

save_state-places : (s : Setting) (st : State) (w : World) → (save_state s st w).places ≡ w.places
unfolding save_state
save_state-places s st w = ground arith

failed-places :
    (s : Setting) (version : Option Text) (stage : Stage) (w : World)
    → (failed s version stage w).0.places ≡ w.places
unfolding failed
failed-places s version stage w = save_state-places s (with_error version stage s.now w.state) w

served-standalone :
    (background : Bool) (channel : Channel)
    → is_served background channel ≡ true
    → (background && not (is_standalone channel)) ≡ false
    → channel ≡ standalone
unfolding is_served is_standalone
served-standalone true standalone h k = refl
served-standalone true wheel h k = cc
served-standalone true dev h k = cc
served-standalone false standalone h k = refl
served-standalone false wheel h k = cc
served-standalone false dev h k = cc

module _ (sha256 : Binary → Text) (run : Binary → Option (ℕ × Text)) (s : Setting) where
  abbrev Trusted : Binary → Type 0
  Trusted = IsTrusted sha256 run s

  unmoved : (p q : Places) → q ≡ p → Fate Trusted p q
  unmoved p q e = inl (ap (λ r. r.target) e)

  swapped-Fate :
      (version : Text) (binary : Binary) (w : World) (r : Places × Bool)
      → Trusted binary
      → Outcome s.windows s.faults binary w.places r
      → Fate Trusted w.places (swapped s version w r).0.places
  unfolding swapped
  swapped-Fate version binary w (q, false) t (inl kept) = inl (
      ap (λ p. p.target) (failed-places s (some version) swap_stage (record w { places = q }))
      ∙ kept)
  swapped-Fate version binary w (q, false) t (inr (windows, fails, gone, aside)) =
      let same = failed-places s (some version) swap_stage (record w { places = q }) in
      inr (inl (ap (λ p. p.target) same ∙ gone, ap (λ p. p.old) same ∙ aside))
  swapped-Fate version binary w (q, true) t placed =
      let same =
        save_state-places s (with_success version w.state)
          (record w { places = cleanup_old s.faults q }) in
      inr (inr (binary, ap (λ p. p.target) same ∙ cleanup_old-target s.faults q ∙ placed, t))

  module _ (version : Text) (announced : check_latest s.answer ≡ ok version)
      (is_update : is_newer version s.current ≡ true)
      (channel : detect_channel s.install ≡ standalone) where
    install_staged-Fate :
        (w : World) (r : Result Stage Binary)
        → download_and_stage sha256 s.available ≡ r
        → Fate Trusted w.places (install_staged sha256 run s version w r).0.places
    unfolding install_staged
    install_staged-Fate w (err stage) e =
        unmoved w.places _ (failed-places s (some version) stage w)
    install_staged-Fate w (ok binary) e = elim (Bool-cases (verify_staged run binary version)) [
      | inl v ↦
          let trusted : Trusted binary = record {
            version = version;
            announced = announced;
            is_update = is_update;
            listed = download_and_stage-IsListed sha256 s.available binary e;
            reports = verify_staged-Reports run binary version v;
            channel = channel;
          } in
          rw v (
            swapped-Fate version binary w (swap s.windows s.faults binary w.places) trusted
              (swap-Outcome s.windows s.faults binary w.places))
      | inr v ↦ rw v (unmoved w.places _ (failed-places s (some version) verify w))
    ]

    install_release-Fate :
        (w : World) → Fate Trusted w.places (install_release sha256 run s version w).0.places
    unfolding install_release
    install_release-Fate w = elim (Bool-cases (has_target s.install)) [
      | inl e ↦ rw e (install_staged-Fate w (download_and_stage sha256 s.available) refl)
      | inr e ↦ rw e (unmoved w.places _ (failed-places s (some version) swap_stage w))
    ]

  released-Fate :
      is_served s.background (detect_channel s.install) ≡ true
      → (w : World) (r : Result Stage Text) → check_latest s.answer ≡ r
      → Fate Trusted w.places (released sha256 run s w r).0.places
  unfolding released
  released-Fate served w (err stage) e = unmoved w.places _ (failed-places s none stage w)
  released-Fate served w (ok version) e =
      let seen = save_state s (with_latest s.now version w.state) w in
      let same : seen.places ≡ w.places =
        save_state-places s (with_latest s.now version w.state) w in
      elim (Bool-cases (is_newer version s.current)) [
        | inr n ↦ rw n (unmoved w.places _ same)
        | inl n ↦
            elim (Bool-cases (s.background && not (is_standalone (detect_channel s.install)))) [
              | inl b ↦ rw (n, b) (unmoved w.places _ same)
              | inr b ↦
                  rw (n, b)
                    (subst
                      (λ p. Fate Trusted p (install_release sha256 run s version seen).0.places)
                      same
                      (install_release-Fate version e n
                        (served-standalone s.background (detect_channel s.install) served b) seen))
            ]
      ]

  locked-Fate :
      is_served s.background (detect_channel s.install) ≡ true
      → (w : World) → Fate Trusted w.places (locked sha256 run s w).0.places
  unfolding locked
  locked-Fate served w =
      elim (Bool-cases (s.background && not (should_check s.every_hours w.state s.now))) [
        | inl e ↦ rw e (inl refl)
        | inr e ↦ rw e (released-Fate served w (check_latest s.answer) refl)
      ]

  single_flight-Fate :
      is_served s.background (detect_channel s.install) ≡ true
      → (w : World) (r : Bool × Option ℕ)
      → Fate Trusted w.places (single_flight sha256 run s w r).0.places
  unfolding single_flight unlocked
  single_flight-Fate served w (false, lock) = inl refl
  single_flight-Fate served w (true, lock) = locked-Fate served (record w { lock = lock })

  -- Whatever the server answers and whatever fails, after a run of the updater the installed binary is the one
  -- before; or it is the download that the announced checksums list, which ran and named the announced
  -- version, a newer one than the running, on a standalone install; or no binary is in place and the one
  -- before is kept as `.old`.
  pub run_update-Fate :
      (w : World) → Fate (IsTrusted sha256 run s) w.places (run_update sha256 run s w).0.places
  unfolding run_update
  run_update-Fate w = elim (Bool-cases (is_served s.background (detect_channel s.install))) [
    | inl e ↦ rw e (single_flight-Fate e w (acquire_lock s.writable s.now w.lock))
    | inr e ↦ rw e (inl refl)
  ]
