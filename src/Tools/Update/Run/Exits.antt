-- ===== src/Tools/Update/Run/Exits.antt =====
-- How a run of the updater ends, and what it leaves of the lock and of the record of its failure.
use nff_core.Prelude.{
  ℕ, ◌+◌, ◌≤◌, Bool, true, false, not, ◌&&◌, Option, none, some, Text, Result, ok, err, ◌≡◌, refl,
  sym, ◌∙◌, ap, subst, inl, inr, Bool-cases, arith, true≢false,
}
use nff_core.Tools.Update.Versions.{is_newer}
use nff_core.Tools.Update.State.{
  Stage, swap as swap_stage, verify, State, with_error, acquire_lock, lock_stale_seconds, Channel,
  detect_channel, has_target, should_check,
}
use nff_core.Tools.Update.Release.{check_latest, download_and_stage, verify_staged}
use nff_core.Tools.Update.Swap.{Binary, Places, swap}
use nff_core.Tools.Update.Run.{
  World, Setting, Exit, code, raised, save_state, is_standalone, failed, swapped, with_latest,
  unlocked, is_served, install_staged, install_release, released, locked, single_flight, run_update,
}

-- The end of a run: an exit with 0; or a failure that is on record, and shown by no run yet, which only the
-- foreground raises.
abbrev pub Ends : Setting → World × Exit → Type 0
Ends s (w, code n) = (n ≡ 0)
Ends s (w, raised stage) =
    (s.background ≡ false)
    × (s.writable ≡ true
        → (v : Option Text) × (w.state.last_error
            ≡ some record { version = v; stage = stage; at = s.now })
          × (w.state.error_surfaced ≡ false))

save_state-saved :
    (s : Setting) (st : State) (w : World) → s.writable ≡ true → (save_state s st w).state ≡ st
unfolding save_state
save_state-saved s st w h = rw h refl

failed-Ends :
    (s : Setting) (version : Option Text) (stage : Stage) (w : World)
    → Ends s (failed s version stage w)
unfolding failed with_error
failed-Ends s version stage w = elim (Bool-cases s.background) [
  | inl e ↦ rw e refl
  | inr e ↦ rw e (
    refl,
    λ writable.
        let st = with_error version stage s.now w.state in
        let saved = save_state-saved s st w writable in
        (version, ap (λ q. q.last_error) saved, ap (λ q. q.error_surfaced) saved),
  )
]

module _ (sha256 : Binary → Text) (run : Binary → Option (ℕ × Text)) (s : Setting) where
  swapped-Ends : (version : Text) (w : World) (r : Places × Bool) → Ends s (swapped s version w r)
  unfolding swapped
  swapped-Ends version w (q, false) =
      failed-Ends s (some version) swap_stage (record w { places = q })
  swapped-Ends version w (q, true) = refl

  install_staged-Ends :
      (version : Text) (w : World) (r : Result Stage Binary)
      → Ends s (install_staged sha256 run s version w r)
  unfolding install_staged
  install_staged-Ends version w (err stage) = failed-Ends s (some version) stage w
  install_staged-Ends version w (ok binary) = elim (Bool-cases (verify_staged run binary version)) [
    | inl v ↦ rw v (swapped-Ends version w (swap s.windows s.faults binary w.places))
    | inr v ↦ rw v (failed-Ends s (some version) verify w)
  ]

  install_release-Ends :
      (version : Text) (w : World) → Ends s (install_release sha256 run s version w)
  unfolding install_release
  install_release-Ends version w = elim (Bool-cases (has_target s.install)) [
    | inl e ↦ rw e (install_staged-Ends version w (download_and_stage sha256 s.available))
    | inr e ↦ rw e (failed-Ends s (some version) swap_stage w)
  ]

  released-Ends : (w : World) (r : Result Stage Text) → Ends s (released sha256 run s w r)
  unfolding released
  released-Ends w (err stage) = failed-Ends s none stage w
  released-Ends w (ok version) =
      let seen = save_state s (with_latest s.now version w.state) w in
      elim (Bool-cases (is_newer version s.current)) [
        | inr n ↦ rw n refl
        | inl n ↦
            elim (Bool-cases (s.background && not (is_standalone (detect_channel s.install)))) [
              | inl b ↦ rw (n, b) refl
              | inr b ↦ rw (n, b) (install_release-Ends version seen)
            ]
      ]

  locked-Ends : (w : World) → Ends s (locked sha256 run s w)
  unfolding locked
  locked-Ends w =
      elim (Bool-cases (s.background && not (should_check s.every_hours w.state s.now))) [
        | inl e ↦ rw e refl
        | inr e ↦ rw e (released-Ends w (check_latest s.answer))
      ]

acquired_writable :
    (writable : Bool) (now : ℕ) (lock : Option ℕ)
    → (acquire_lock writable now lock).0 ≡ true
    → writable ≡ true
unfolding acquire_lock
acquired_writable writable now none h = ground arith
acquired_writable writable now (some at) h = ground arith

raised_recorded :
    (s : Setting) (stage : Stage) (r : World × Exit)
    → Ends s r
    → r.1 ≡ raised stage
    → (s.background ≡ false)
      × (s.writable ≡ true
          → (v : Option Text) × (r.0.state.last_error
              ≡ some record { version = v; stage = stage; at = s.now })
            × (r.0.state.error_surfaced ≡ false))
raised_recorded s stage (w, code n) h e = cc
raised_recorded s stage (w, raised stage') h e =
    let same : stage' ≡ stage = ground arith in
    (
      h.0,
      λ writable.
          let (v, recorded, unseen) = h.1 writable in
          (v, recorded ∙ ap (λ g. some record { version = v; stage = g; at = s.now }) same, unseen),
    )

background_served : (b : Bool) (channel : Channel) → b ≡ true → is_served b channel ≡ true
unfolding is_served
background_served true channel h = refl
background_served false channel h = cc

silent : (s : Setting) (r : World × Exit) → s.background ≡ true → Ends s r → r.1 ≡ code 0
silent s (w, code n) b h = ap code h
silent s (w, raised stage) b h = absurd (true≢false (sym b ∙ h.0))

module _ (sha256 : Binary → Text) (run : Binary → Option (ℕ × Text)) (s : Setting) where
  flight_silent :
      (w : World) (r : Bool × Option ℕ)
      → s.background ≡ true
      → (single_flight sha256 run s w r).1 ≡ code 0
  unfolding single_flight unlocked
  flight_silent w (false, lock) b = rw b refl
  flight_silent w (true, lock) b =
      silent s (locked sha256 run s (record w { lock = lock })) b
        (locked-Ends sha256 run s (record w { lock = lock }))

  -- A run in the background exits with 0, whatever fails.
  pub run_update_quiet : (w : World) → s.background ≡ true → (run_update sha256 run s w).1 ≡ code 0
  unfolding run_update
  run_update_quiet w b =
      rw (background_served s.background (detect_channel s.install) b)
        (flight_silent w (acquire_lock s.writable s.now w.lock) b)

  flight_recorded :
      (stage : Stage) (w : World) (r : Bool × Option ℕ)
      → (r.0 ≡ true → s.writable ≡ true)
      → (single_flight sha256 run s w r).1 ≡ raised stage
      → (v : Option Text) × ((single_flight sha256 run s w r).0.state.last_error
          ≡ some record { version = v; stage = stage; at = s.now })
        × ((single_flight sha256 run s w r).0.state.error_surfaced ≡ false)
  unfolding single_flight unlocked
  flight_recorded stage w (false, lock) h e = absurd (ground arith)
  flight_recorded stage w (true, lock) h e =
      (raised_recorded s stage (locked sha256 run s (record w { lock = lock }))
          (locked-Ends sha256 run s (record w { lock = lock })) e).1
        (h refl)

  -- An error that a run raises is on record with its stage and time, and marked as shown by no run yet.
  pub run_update_recorded :
      (stage : Stage) (w : World)
      → (run_update sha256 run s w).1 ≡ raised stage
      → (v : Option Text) × ((run_update sha256 run s w).0.state.last_error
          ≡ some record { version = v; stage = stage; at = s.now })
        × ((run_update sha256 run s w).0.state.error_surfaced ≡ false)
  unfolding run_update
  run_update_recorded stage w h =
      elim (Bool-cases (is_served s.background (detect_channel s.install))) [
        | inl e ↦ rw e (
            flight_recorded stage w (acquire_lock s.writable s.now w.lock)
              (acquired_writable s.writable s.now w.lock) (rw e at h))
        | inr e ↦ cc (rw e at h)
      ]

fresh_refused :
    (writable : Bool) (now at : ℕ)
    → now ≤ at + lock_stale_seconds
    → acquire_lock writable now (some at) ≡ (false, some at)
unfolding acquire_lock
fresh_refused writable now at h = ground arith

module _ (sha256 : Binary → Text) (run : Binary → Option (ℕ × Text)) (s : Setting) where
  -- While another run holds the lock, for no longer than the time after which it is stale, a run changes nothing.
  pub run_update_busy :
      (at : ℕ) (w : World)
      → w.lock ≡ some at
      → s.now ≤ at + lock_stale_seconds
      → (run_update sha256 run s w).0 ≡ w
  unfolding run_update single_flight
  run_update_busy at w held fresh =
      elim (Bool-cases (is_served s.background (detect_channel s.install))) [
        | inl e ↦ rw e (
            subst (λ l. (single_flight sha256 run s w (acquire_lock s.writable s.now l)).0 ≡ w)
              (sym held)
              (rw (fresh_refused s.writable s.now at fresh)
                (ap (λ l. record w { lock = l }) (sym held))))
        | inr e ↦ rw e refl
      ]

  flight_unlocks :
      (w : World) (r : Bool × Option ℕ)
      → r.0 ≡ true
      → (single_flight sha256 run s w r).0.lock ≡ none
  unfolding single_flight unlocked
  flight_unlocks w (true, lock) h = refl
  flight_unlocks w (false, lock) h = cc

  -- A run that gets the lock leaves none.
  pub run_update_unlocks :
      (w : World)
      → (acquire_lock s.writable s.now w.lock).0 ≡ true
      → is_served s.background (detect_channel s.install) ≡ true
      → (run_update sha256 run s w).0.lock ≡ none
  unfolding run_update
  run_update_unlocks w got served =
      rw served (flight_unlocks w (acquire_lock s.writable s.now w.lock) got)
