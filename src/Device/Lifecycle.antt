-- ===== src/Device/Lifecycle.antt =====
-- An update from the command to the report of its outcome.
use nff_core.Prelude.{
  sym, subst, Bool, true, false, ◌||◌, Option, none, some, List, [], ◌∷◌, String, string_eq, Text,
  text_eqb, ◌≡◌, ◌⊎◌, refl, ap, ◌∙◌, inl, inr, Bool-cases, arith,
}
use nff_core.Device.{
  loaded, kept_build, erased_build, commit, revert, version_le, Firmware, Device, OtaCommand, Fetch,
  unreachable, fetched, Message, ota_started, committed, rolled_back, is_blank_text, or_text,
  or_some, or_zero, staged, downloaded, handle, tried, apply_pending_ota, sync_fault, cleared,
  check_pending_result, boot,
}

-- A command that the device accepts: every field is there, the version is not below the running one, and the
-- artifact has the hash or cannot be reached.
pub record IsAccepted (hash : String → Text) (c : OtaCommand) (fetch : Fetch) (d : Device)
    : Type 0 where
  pub complete : (is_blank_text c.version || is_blank_text c.url || is_blank_text c.sha256) ≡ false
  pub is_upgrade : version_le (or_zero d.fw_version) c.version ≡ true
  pub intact :
      (fetch ≡ unreachable)
      ⊎ ((artifact : String) × (fetch ≡ fetched artifact)
          × (text_eqb (hash artifact) c.sha256 ≡ true))

undelivered :
    (hash : String → Text) (c : OtaCommand) (fetch : Fetch) (d : Device)
    → (((fetch ≡ unreachable)
          ⊎ ((artifact : String) × (fetch ≡ fetched artifact)
              × (text_eqb (hash artifact) c.sha256 ≡ true)))
        → ⊥)
    → (downloaded hash c d fetch).0 ≡ d
unfolding downloaded
undelivered hash c unreachable d h = absurd (h (inl refl))
undelivered hash c (fetched artifact) d h = elim (Bool-cases (text_eqb (hash artifact) c.sha256)) [
  | inl e ↦ absurd (h (inr (artifact, refl, e)))
  | inr e ↦ rw e refl
]

-- The artifact of an accepted command
abbrev artifact_of : Fetch → Option String
artifact_of unreachable = none
artifact_of (fetched artifact) = some artifact

handle_accepted :
    (hash : String → Text) (c : OtaCommand) (fetch : Fetch) (d : Device)
    → IsAccepted hash c fetch d
    → handle hash c fetch d ≡ (staged c d (artifact_of fetch), ota_started c.version ∷ [])
unfolding handle downloaded
handle_accepted hash c fetch d a = elim a.intact [
  | inl e ↦ rw (a.complete, a.is_upgrade, e) refl
  | inr (artifact, e, same) ↦ rw (a.complete, a.is_upgrade, e, same) refl
]

same_text : (s : Text) → or_text s s ≡ s
unfolding or_text
same_text [] = refl
same_text (c ∷ s) = refl

named : (default v : Text) → is_blank_text v ≡ false → or_text default v ≡ v
unfolding or_text is_blank_text
named default [] h = cc
named default (c ∷ v) h = refl

has_version : (a b c : Bool) → (a || b || c) ≡ false → a ≡ false
has_version a b c h = ground arith

trial :
    (load : String → Text → Firmware) (buggy : Text → Option String) (c : OtaCommand) (d : Device)
    (artifact : Option String)
    → is_blank_text c.version ≡ false
    → apply_pending_ota load buggy (staged c d artifact)
      ≡ tried load c.version (buggy c.version) (staged c d artifact)
unfolding apply_pending_ota staged or_some
trial load buggy c d artifact h =
    ap (λ v. tried load v (buggy v) (staged c d artifact)) (named d.fw_version c.version h)

-- Nothing of an update is left: neither a key in the NVS nor an artifact.
pub record IsIdle (d : Device) : Type 0 where
  pub no_pending : d.nvs.ota_pending ≡ false
  pub no_version : d.nvs.ota_version ≡ none
  pub no_prev_version : d.nvs.ota_prev_version ≡ none
  pub no_prev_build : d.nvs.ota_prev_build_id ≡ none
  pub no_build : d.nvs.ota_build_id ≡ none
  pub no_commit : d.nvs.ota_committed ≡ false
  pub no_reason : d.nvs.ota_rollback_reason ≡ none
  pub no_artifact : d.pending_fw_artifact ≡ none

-- The firmware that an update brings
abbrev pub brought : (String → Text → Firmware) → OtaCommand → Fetch → Device → Firmware
brought load c unreachable d = record d.firmware { version = c.version }
brought load c (fetched artifact) d = load artifact c.version

-- The build of the command, where it names one, else the one before
abbrev pub HasBuild : Option Text → Text → Text → Type 0
HasBuild none before after = after ≡ before
HasBuild (some []) before after = after ≡ before
HasBuild (some (x ∷ xs)) before after = after ≡ x ∷ xs

brought_lem :
    (load : String → Text → Firmware) (c : OtaCommand) (fetch : Fetch) (d : Device)
    → loaded load c.version d.firmware (artifact_of fetch) ≡ brought load c fetch d
unfolding loaded
brought_lem load c unreachable d = refl
brought_lem load c (fetched artifact) d = refl

build_lem :
    (named_build noted : Option Text) (before : Text)
    → noted ≡ none
    → HasBuild named_build before (or_some before (kept_build named_build noted))
unfolding or_some or_text kept_build
build_lem none noted before h = rw h refl
build_lem (some []) noted before h = rw h refl
build_lem (some (x ∷ xs)) noted before h = refl

erased_lem :
    (named_build noted : Option Text)
    → noted ≡ none
    → erased_build (kept_build named_build noted) ≡ none
unfolding erased_build kept_build
erased_lem none noted h = rw h refl
erased_lem (some []) noted h = rw h refl
erased_lem (some (x ∷ xs)) noted h = refl

-- What the boot does after the trial
report : Device → Device × List Message
report d = check_pending_result (sync_fault d)

module _ (hash : String → Text) (load : String → Text → Firmware) (buggy : Text → Option String)
    (c : OtaCommand) (fetch : Fetch) (d : Device) (accepted : IsAccepted hash c fetch d) where
  filled : is_blank_text c.version ≡ false
  filled =
      has_version (is_blank_text c.version) (is_blank_text c.url) (is_blank_text c.sha256)
        accepted.complete

  after_boot :
      (verdict : Option String)
      → buggy c.version ≡ verdict
      → boot load buggy (handle hash c fetch d).0
        ≡ report (tried load c.version verdict (staged c d (artifact_of fetch)))
  unfolding boot report
  after_boot verdict e =
      ap (λ r. boot load buggy r.0) (handle_accepted hash c fetch d accepted)
      ∙ ap report (
          trial load buggy c d (artifact_of fetch) filled
          ∙ ap (λ v. tried load c.version v (staged c d (artifact_of fetch))) e)

  -- An accepted update to a version that passes its trial, with no build noted before: after the next boot the
  -- device runs the downloaded artifact under the new version, or what it ran before where the artifact could not
  -- be reached; it has the build of the command, where one is named; it reports the commit, once; and no key of
  -- the update and no artifact is left.
  pub update_commits :
      buggy c.version ≡ none
      → d.nvs.ota_build_id ≡ none
      → ((boot load buggy (handle hash c fetch d).0).0.fw_version ≡ c.version)
        × ((boot load buggy (handle hash c fetch d).0).0.firmware ≡ brought load c fetch d)
        × HasBuild c.build_id d.build_id (boot load buggy (handle hash c fetch d).0).0.build_id
        × IsIdle (boot load buggy (handle hash c fetch d).0).0
        × ((boot load buggy (handle hash c fetch d).0).1 ≡ committed c.version ∷ [])
  unfolding report check_pending_result sync_fault staged cleared or_some tried commit loaded
      kept_build erased_build
  update_commits healthy fresh =
      let e = after_boot none healthy in
      let same = named c.version c.version filled in
      (
        ap (λ r. r.0.fw_version) e,
        ap (λ r. r.0.firmware) e ∙ brought_lem load c fetch d,
        subst (HasBuild c.build_id d.build_id) (sym (ap (λ r. r.0.build_id) e))
            (build_lem c.build_id d.nvs.ota_build_id d.build_id fresh),
        subst (λ r. IsIdle r.0) (sym e)
            record {
              no_pending = refl;
              no_version = refl;
              no_prev_version = refl;
              no_prev_build = refl;
              no_build = erased_lem c.build_id d.nvs.ota_build_id fresh;
              no_commit = refl;
              no_reason = refl;
              no_artifact = refl;
            },
        ap (λ r. r.1) e ∙ ap (λ v. committed v ∷ []) same,
      )

  -- An accepted update to a version that fails its trial: after the next boot the device runs the version, the
  -- build and the firmware from before, reports the rollback with its reason, once, and no key of the update and
  -- no artifact is left.
  pub update_rolls_back :
      (scenario : String)
      → buggy c.version ≡ some scenario
      → ((boot load buggy (handle hash c fetch d).0).0.fw_version ≡ d.fw_version)
        × ((boot load buggy (handle hash c fetch d).0).0.build_id ≡ d.build_id)
        × ((boot load buggy (handle hash c fetch d).0).0.firmware
            ≡ record d.firmware { version = d.fw_version })
        × IsIdle (boot load buggy (handle hash c fetch d).0).0
        × ((boot load buggy (handle hash c fetch d).0).1
            ≡ rolled_back c.version (some scenario) ∷ [])
  unfolding report check_pending_result sync_fault staged cleared or_some tried revert
  update_rolls_back scenario bad =
      let e = after_boot (some scenario) bad in
      (
        ap (λ r. r.0.fw_version) e ∙ same_text d.fw_version,
        ap (λ r. r.0.build_id) e ∙ same_text d.build_id,
        ap (λ r. r.0.firmware) e
            ∙ ap (λ v. record d.firmware { version = v }) (same_text d.fw_version),
        subst (λ r. IsIdle r.0) (sym e)
            record {
              no_pending = refl;
              no_version = refl;
              no_prev_version = refl;
              no_prev_build = refl;
              no_build = refl;
              no_commit = refl;
              no_reason = refl;
              no_artifact = refl;
            },
        ap (λ r. r.1) e ∙ ap (λ v. rolled_back v (some scenario) ∷ []) (named _ c.version filled),
      )

reported_clear : (d : Device) → (check_pending_result d).0.nvs.ota_pending ≡ false
unfolding check_pending_result cleared
reported_clear d = elim (Bool-cases d.nvs.ota_pending) [ inl e ↦ rw e refl | inr e ↦ rw e refl ]

untried :
    (load : String → Text → Firmware) (buggy : Text → Option String) (d : Device)
    → d.nvs.ota_pending ≡ false
    → (apply_pending_ota load buggy d).nvs.ota_pending ≡ false
unfolding apply_pending_ota
untried load buggy d h = rw h refl

unreported : (d : Device) → d.nvs.ota_pending ≡ false → (check_pending_result d).1 ≡ []
unfolding check_pending_result
unreported d h = rw h refl

synced : (d : Device) → d.nvs.ota_pending ≡ false → (sync_fault d).nvs.ota_pending ≡ false
unfolding sync_fault
synced d h = h

-- A boot reports the outcome of an update at most once: another boot after it reports nothing.
pub boot_reports_once :
    (load : String → Text → Firmware) (buggy : Text → Option String) (d : Device)
    → (boot load buggy (boot load buggy d).0).1 ≡ []
unfolding boot
boot_reports_once load buggy d =
    let before = check_pending_result (sync_fault (apply_pending_ota load buggy d)) in
    unreported (sync_fault (apply_pending_ota load buggy before.0)) (
      synced (apply_pending_ota load buggy before.0) (
        untried load buggy before.0 (reported_clear (sync_fault (apply_pending_ota load buggy d)))))

-- A command that is not accepted leaves the device as it is, its NVS included.
pub handle_refused :
    (hash : String → Text) (c : OtaCommand) (fetch : Fetch) (d : Device)
    → (IsAccepted hash c fetch d → ⊥)
    → (handle hash c fetch d).0 ≡ d
unfolding handle
handle_refused hash c fetch d refused =
    elim (Bool-cases (is_blank_text c.version || is_blank_text c.url || is_blank_text c.sha256)) [
      | inl e ↦ rw e refl
      | inr e ↦ elim (Bool-cases (version_le (or_zero d.fw_version) c.version)) [
        | inr v ↦ rw (e, v) refl
        | inl v ↦
            rw (e, v)
              (undelivered hash c fetch d
                (λ intact. refused (record { complete = e; is_upgrade = v; intact = intact })))
      ]
    ]
