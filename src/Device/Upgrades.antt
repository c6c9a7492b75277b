-- ===== src/Device/Upgrades.antt =====
-- A device never runs a version below one it ran before.
use nff_core.Prelude.{
  ℤ, pos, negsuc, Bool, true, false, ◌||◌, Option, none, some, List, [], ◌∷◌, String, if◌then◌else◌,
  Text, text_eqb, ◌≡◌, ◌⊎◌, refl, sym, ap, ◌∙◌, subst, inl, inr, Bool-cases, arith,
}
use nff_core.Device.{
  version_key, int_lt, int_eq, key_le, key_le?, version_le, Firmware, Device, OtaCommand, Fetch,
  unreachable, fetched, is_blank_text, or_text, or_some, or_zero, staged, downloaded, handle,
  revert, commit, tried, apply_pending_ota, sync_fault, cleared, check_pending_result, boot,
}

int_eq-eq : (a b : ℤ) → int_eq a b ≡ true → a ≡ b
unfolding int_eq
int_eq-eq (pos a) (pos b) h = ground arith
int_eq-eq (pos a) (negsuc b) h = cc
int_eq-eq (negsuc a) (pos b) h = cc
int_eq-eq (negsuc a) (negsuc b) h = ground arith

int_eq_refl : (a : ℤ) → int_eq a a ≡ true
unfolding int_eq
int_eq_refl (pos a) = ground arith
int_eq_refl (negsuc a) = ground arith

int_lt_trans : (a b c : ℤ) → int_lt a b ≡ true → int_lt b c ≡ true → int_lt a c ≡ true
unfolding int_lt
int_lt_trans (pos a) (pos b) (pos c) h k = ground arith
int_lt_trans (pos a) (pos b) (negsuc c) h k = cc
int_lt_trans (pos a) (negsuc b) c h k = cc
int_lt_trans (negsuc a) (pos b) (pos c) h k = refl
int_lt_trans (negsuc a) (pos b) (negsuc c) h k = cc
int_lt_trans (negsuc a) (negsuc b) (pos c) h k = refl
int_lt_trans (negsuc a) (negsuc b) (negsuc c) h k = ground arith

module _ (a b c : ℤ) where
  int_lt-eq : int_lt a b ≡ true → int_eq b c ≡ true → int_lt a c ≡ true
  int_lt-eq h k = rw (sym (int_eq-eq b c k)) h

  int_eq-lt : int_eq a b ≡ true → int_lt b c ≡ true → int_lt a c ≡ true
  int_eq-lt h k = rw (int_eq-eq a b h) k

  int_eq_trans : int_eq a b ≡ true → int_eq b c ≡ true → int_eq a c ≡ true
  int_eq_trans h k = rw (int_eq-eq a b h) k

key_le_trans : (xs ys zs : List ℤ) → key_le xs ys ≡ true → key_le ys zs ≡ true → key_le xs zs ≡ true
unfolding key_le
key_le_trans [] ys zs h k = refl
key_le_trans (x ∷ xs) [] zs h k = cc
key_le_trans (x ∷ xs) (y ∷ ys) [] h k = cc
key_le_trans (x ∷ xs) (y ∷ ys) (z ∷ zs) h k = ground (
  arith,
  int_lt_trans x y z,
  int_lt-eq x y z,
  int_eq-lt x y z,
  int_eq_trans x y z,
  key_le_trans xs ys zs,
)

keys_trans :
    (a b c : Option (List ℤ)) → key_le? a b ≡ true → key_le? b c ≡ true → key_le? a c ≡ true
unfolding key_le?
keys_trans (some a) (some b) (some c) h k = key_le_trans a b c h k
keys_trans (some a) (some b) none h k = cc
keys_trans (some a) none c h k = cc
keys_trans none b c h k = cc

version_le_trans :
    (a b c : Text) → version_le a b ≡ true → version_le b c ≡ true → version_le a c ≡ true
unfolding version_le
version_le_trans a b c = keys_trans (version_key a) (version_key b) (version_key c)

-- The same version, or one that is not below it; a version that is not set counts as 0.0.0.
abbrev pub IsUp : Text → Text → Type 0
IsUp a b = (b ≡ a) ⊎ (version_le (or_zero a) (or_zero b) ≡ true)

IsUp-trans : (a b c : Text) → IsUp a b → IsUp b c → IsUp a c
IsUp-trans a b c (inl e) k = subst (λ v. IsUp v c) e k
IsUp-trans a b c (inr h) (inl e) = subst (λ v. IsUp a v) (sym e) (inr h)
IsUp-trans a b c (inr h) (inr k) = inr (version_le_trans (or_zero a) (or_zero b) (or_zero c) h k)

-- What is pending is a version that is not below the running one, which is kept for a rollback.
record IsStaged (d : Device) : Type 0 where
  version : Text
  named : d.nvs.ota_version ≡ some version
  filled : is_blank_text version ≡ false
  is_upgrade : version_le (or_zero d.fw_version) version ≡ true
  kept : d.nvs.ota_prev_version ≡ some d.fw_version

abbrev IsSound : Device → Type 0
IsSound d = (d.nvs.ota_pending ≡ false) ⊎ IsStaged d

-- What a device goes through: a command, with what its download gives, or a boot
pub data Event : Type 0 where
  command : OtaCommand → Fetch → Event
  reboot : Event

module _ (hash : String → Text) (load : String → Text → Firmware)
    (buggy : Text → Option String) where
  abbrev pub live : Event → Device → Device
  live (command c fetch) d = (handle hash c fetch d).0
  live reboot d = (boot load buggy d).0

  unfoldable pub lives : List Event → Device → Device
  lives [] d = d
  lives (e ∷ es) d = lives es (live e d)

  staged-IsSound :
      (c : OtaCommand) (d : Device) (artifact : Option String)
      → is_blank_text c.version ≡ false
      → version_le (or_zero d.fw_version) c.version ≡ true
      → IsSound (staged c d artifact) × ((staged c d artifact).fw_version ≡ d.fw_version)
  unfolding staged
  staged-IsSound c d artifact f v = (
    inr (record { version = c.version; named = refl; filled = f; is_upgrade = v; kept = refl }),
    refl,
  )

  downloaded-IsSound :
      (c : OtaCommand) (fetch : Fetch) (d : Device)
      → is_blank_text c.version ≡ false
      → version_le (or_zero d.fw_version) c.version ≡ true
      → IsSound d
      → IsSound (downloaded hash c d fetch).0
        × ((downloaded hash c d fetch).0.fw_version ≡ d.fw_version)
  unfolding downloaded
  downloaded-IsSound c unreachable d f v s = staged-IsSound c d none f v
  downloaded-IsSound c (fetched artifact) d f v s =
      elim (Bool-cases (text_eqb (hash artifact) c.sha256)) [
        | inl e ↦ rw e (staged-IsSound c d (some artifact) f v)
        | inr e ↦ rw e (s, refl)
      ]

  first_false : (a b c : Bool) → (a || b || c) ≡ false → a ≡ false
  first_false a b c h = ground arith

  handle-IsSound :
      (c : OtaCommand) (fetch : Fetch) (d : Device)
      → IsSound d
      → IsSound (handle hash c fetch d).0 × ((handle hash c fetch d).0.fw_version ≡ d.fw_version)
  unfolding handle
  handle-IsSound c fetch d s =
      elim (Bool-cases (is_blank_text c.version || is_blank_text c.url || is_blank_text c.sha256)) [
        | inl e ↦ rw e (s, refl)
        | inr e ↦ elim (Bool-cases (version_le (or_zero d.fw_version) c.version)) [
          | inr v ↦ rw (e, v) (s, refl)
          | inl v ↦
              rw (e, v)
                (downloaded-IsSound c fetch d
                  (first_false (is_blank_text c.version) (is_blank_text c.url)
                    (is_blank_text c.sha256) e)
                  v s)
        ]
      ]

  or_text_filled : (default v : Text) → is_blank_text v ≡ false → or_text default v ≡ v
  unfolding or_text is_blank_text
  or_text_filled default [] h = cc
  or_text_filled default (c ∷ v) h = refl

  or_text_self : (v : Text) → or_text v v ≡ v
  unfolding or_text
  or_text_self [] = refl
  or_text_self (c ∷ v) = refl

  tried-IsUp :
      (d : Device) (s : IsStaged d) (verdict : Option String) (version : Text)
      → version ≡ s.version
      → IsUp d.fw_version (tried load version verdict d).fw_version
  unfolding tried revert commit or_some
  tried-IsUp d s (some scenario) version e = inl (rw s.kept (or_text_self d.fw_version))
  tried-IsUp d s none version e = inr (
      subst (λ v. version_le (or_zero d.fw_version) v ≡ true)
        (sym (or_text_filled _ version (subst (λ v. is_blank_text v ≡ false) (sym e) s.filled)))
        (subst (λ v. version_le (or_zero d.fw_version) v ≡ true) (sym e) s.is_upgrade))

  staged_version :
      (d : Device) (s : IsStaged d) → or_some d.fw_version d.nvs.ota_version ≡ s.version
  unfolding or_some
  staged_version d s =
      ap (or_some d.fw_version) s.named ∙ or_text_filled d.fw_version s.version s.filled

  pending-IsUp :
      (d : Device)
      → IsStaged d
      → (pending : Bool) (version : Text) → version ≡ or_some d.fw_version d.nvs.ota_version
      → IsUp d.fw_version (if pending then tried load version (buggy version) d else d).fw_version
  pending-IsUp d s false version e = inl refl
  pending-IsUp d s true version e = tried-IsUp d s (buggy version) version (e ∙ staged_version d s)

  applied-IsUp :
      (d : Device) → IsSound d → IsUp d.fw_version (apply_pending_ota load buggy d).fw_version
  unfolding apply_pending_ota
  applied-IsUp d (inl idle) = rw idle (inl refl)
  applied-IsUp d (inr s) = pending-IsUp d s d.nvs.ota_pending _ refl

  reported-IsSound :
      (d : Device)
      → IsSound (check_pending_result (sync_fault d)).0
        × ((check_pending_result (sync_fault d)).0.fw_version ≡ d.fw_version)
  unfolding check_pending_result cleared sync_fault
  reported-IsSound d = elim (Bool-cases d.nvs.ota_pending) [
    | inl e ↦ rw e (inl refl, refl)
    | inr e ↦ rw e (inl refl, refl)
  ]

  live-IsUp :
      (e : Event) (d : Device)
      → IsSound d
      → IsSound (live e d) × IsUp d.fw_version (live e d).fw_version
  unfolding boot
  live-IsUp (command c fetch) d s =
      let (sound, same) = handle-IsSound c fetch d s in (sound, inl same)
  live-IsUp reboot d s =
      let (sound, same) = reported-IsSound (apply_pending_ota load buggy d) in
      (sound, subst (λ v. IsUp d.fw_version v) (sym same) (applied-IsUp d s))

  -- From a device with no update pending, whatever commands and boots follow, whatever the downloads give and
  -- whichever versions fail their trial, the version it runs in the end is not below the one it ran at first.
  pub lives-IsUp :
      (es : List Event) (d : Device)
      → d.nvs.ota_pending ≡ false
      → IsUp d.fw_version (lives es d).fw_version
  unfolding lives
  lives-IsUp es d idle = from_sound es d (inl idle)
    where
      from_sound :
          (es : List Event) (d : Device) → IsSound d → IsUp d.fw_version (lives es d).fw_version
      from_sound [] d s = inl refl
      from_sound (e ∷ es) d s =
          let (sound, up) = live-IsUp e d s in
          IsUp-trans d.fw_version (live e d).fw_version (lives es (live e d)).fw_version up
            (from_sound es (live e d) sound)
