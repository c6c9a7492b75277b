-- ===== src/Ota/Catalogue/Stored.antt =====
-- What an upload leaves in the catalogue and in the bucket.
use nff_core.Prelude.{
  ℕ, sym, leb, length, ◌≤◌, nat_eqb, arith, true≢false, Bool, true, false, not, ◌&&◌, Option, none,
  some, List, [], ◌∷◌, String, ◌==◌, string_eq, if◌then◌else◌, find, Text, Result, ok, err, get,
  get-put_self, eqb_refl, ◌≡◌, ◌⊎◌, refl, ap, inl, inr, Bool-cases, eq_iff,
}
use nff_core.Ota.Store.{Firmware}
use nff_core.Ota.Catalogue.{
  storage_path, Catalogue, GateSettings, Services, UploadParams, UploadError, upsert_failed,
  not_an_image, is_image, signature_of, trusted_of, trusted, verified, checked, attached, blank_row,
  upsert, find_firmware, store, store_checked, read, upload_artifact_impl,
}

-- A look-up after an upsert
found_or_blank : String → Option Firmware → Firmware
found_or_blank version none = blank_row version
found_or_blank version (some fw) = fw

find-upsert :
    (version : String) (f : Firmware → Firmware) (fws : List Firmware)
    → ((fw : Firmware) → (f fw).version ≡ fw.version)
    → find (λ (g : Firmware). g.version == version) (upsert version f fws)
      ≡ some (f (found_or_blank version (find (λ (g : Firmware). g.version == version) fws)))
unfolding upsert found_or_blank blank_row
find-upsert version f [] same = rw (same (blank_row version), eqb_refl version) refl
find-upsert version f (fw ∷ fws) same = elim (Bool-cases (fw.version == version)) [
  | inl e ↦ rw (e, same fw, e) refl
  | inr e ↦ rw (e, e) (find-upsert version f fws same)
]

find-upsert_other :
    (version other : String) (f : Firmware → Firmware) (fws : List Firmware)
    → ((fw : Firmware) → (f fw).version ≡ fw.version)
    → (version == other) ≡ false
    → find (λ (g : Firmware). g.version == other) (upsert version f fws)
      ≡ find (λ (g : Firmware). g.version == other) fws
unfolding upsert blank_row
find-upsert_other version other f [] same h = rw (same (blank_row version), h) refl
find-upsert_other version other f (fw ∷ fws) same h = elim (Bool-cases (fw.version == version)) [
  | inl e ↦
      rw (e, same fw, ap (λ (v : String). v == other) ((eq_iff fw.version version).0 e), h) refl
  | inr e ↦ rw e (
      ap (λ r. if fw.version == other then some fw else r)
        (find-upsert_other version other f fws same h))
]

-- The bytes start with the magic of an image and are long enough, where this is asked for.
abbrev pub IsImage : Bool → ℕ → Text → Type 0
IsImage false min_bytes bytes = Unit
IsImage true min_bytes [] = ⊥
IsImage true min_bytes (b ∷ bytes) = (b ≡ 0xE9) × (min_bytes ≤ length (b ∷ bytes))

and_true : (a b : Bool) → (a && b) ≡ true → (a ≡ true) × (b ≡ true)
and_true true true h = (refl, refl)
and_true true false h = cc
and_true false b h = cc

image_lem :
    (min_bytes : ℕ) (bytes : Text) → is_image min_bytes bytes ≡ true → IsImage true min_bytes bytes
unfolding is_image
image_lem min_bytes [] h = absurd (true≢false (sym (and_true (leb min_bytes 0) false h).1))
image_lem min_bytes (b ∷ bytes) h =
    let (long, magic) = and_true (leb min_bytes (length (b ∷ bytes))) (nat_eqb b 0xE9) h in
    (ground (arith, magic), ground (arith, long))

negated : (b : Bool) → not b ≡ false → b ≡ true
negated true h = refl
negated false h = cc

gate_lem :
    (enabled synthetic : Bool) (min_bytes : ℕ) (bytes : Text)
    → (enabled && not synthetic && not (is_image min_bytes bytes)) ≡ false
    → IsImage (enabled && not synthetic) min_bytes bytes
gate_lem false synthetic min_bytes bytes h = tt
gate_lem true true min_bytes bytes h = tt
gate_lem true false min_bytes bytes h =
    image_lem min_bytes bytes (negated (is_image min_bytes bytes) h)

-- Under a trusted key some signature of the bytes verifies.
abbrev pub IsTrusted : Services → Option String → Text → Type 0
IsTrusted svc none bytes = Unit
IsTrusted svc (some key) bytes = (signature : String) × (svc.verify key bytes signature ≡ some true)

-- The bytes that were read and passed the gates are in the bucket at the path that the row of the version lists,
-- with the hash that it lists.
pub record IsStored (cfg : GateSettings) (allow_synthetic : Bool) (svc : Services)
    (p : UploadParams) (cat : Catalogue) : Type 0 where
  pub bytes : Text
  pub was_read : svc.read_file p.file_path ≡ some bytes
  pub is_good :
      IsImage (cfg.esp_image_gate_enabled && not allow_synthetic) cfg.esp_image_min_bytes bytes
  pub is_trusted : IsTrusted svc cfg.trusted_key bytes
  pub row : Firmware
  pub listed : find_firmware p.version cat.db ≡ some row
  pub hashed : row.checksum_sha256 ≡ some (svc.sha256 bytes)
  pub placed : row.storage_path ≡ some (storage_path p.version)
  pub stored : get (storage_path p.version) cat.bucket ≡ some bytes

-- Nothing changes on an error, except that a failure of the database comes after the bytes are in the bucket.
abbrev pub Uploaded :
    GateSettings
    → Bool
    → Services
    → UploadParams
    → Catalogue
    → Catalogue × Result UploadError (Option Firmware)
    → Type 0
Uploaded cfg allow_synthetic svc p cat (after, err e) =
    (after.db ≡ cat.db) × ((after ≡ cat) ⊎ (e ≡ upsert_failed))
Uploaded cfg allow_synthetic svc p cat (after, ok row) = IsStored cfg allow_synthetic svc p after

IsTrusted-trusted :
    (svc : Services) (key : Option String) (bytes : Text) (signature found : Option String)
    → trusted svc key bytes signature ≡ ok found
    → IsTrusted svc key bytes
unfolding trusted verified
IsTrusted-trusted svc none bytes signature found e = tt
IsTrusted-trusted svc (some key) bytes none found e = cc
IsTrusted-trusted svc (some key) bytes (some signature) found e =
    (signature, verifies (svc.verify key bytes signature) e)
  where
    verifies :
        (answer : Option Bool) → verified answer (some signature) ≡ ok found → answer ≡ some true
    verifies none h = cc
    verifies (some false) h = cc
    verifies (some true) h = refl

checked-IsTrusted :
    (svc : Services) (key : Option String) (bytes : Text)
    (signature : Result UploadError (Option String)) (found : Option String)
    → trusted_of svc key bytes signature ≡ ok found
    → IsTrusted svc key bytes
unfolding trusted_of
checked-IsTrusted svc key bytes (err e) found h = cc
checked-IsTrusted svc key bytes (ok signature) found h =
    IsTrusted-trusted svc key bytes signature found h

gate_passed :
    (bad : Bool) (rest : Result UploadError (Option String)) (found : Option String)
    → (if bad then err not_an_image else rest) ≡ ok found
    → (bad ≡ false) × (rest ≡ ok found)
gate_passed true rest found h = cc
gate_passed false rest found h = (refl, h)

module _ (cfg : GateSettings) (allow_synthetic : Bool) (svc : Services) (p : UploadParams)
    (cat : Catalogue) where
  found_firmware :
      (bytes : Text)
      → find
          (λ (g : Firmware). g.version == p.version)
          (upsert p.version (attached svc p bytes) cat.db.firmware)
        ≡ some (attached svc p bytes (found_or_blank p.version (find_firmware p.version cat.db)))
  unfolding find_firmware attached
  found_firmware bytes = find-upsert p.version (attached svc p bytes) cat.db.firmware (λ fw. refl)

  store-Uploaded :
      (bytes : Text)
      → svc.read_file p.file_path ≡ some bytes
      → (cfg.esp_image_gate_enabled
          && not allow_synthetic
          && not (is_image cfg.esp_image_min_bytes bytes))
        ≡ false
      → IsTrusted svc cfg.trusted_key bytes
      → Uploaded cfg allow_synthetic svc p cat (store svc p bytes cat)
  unfolding store find_firmware attached
  store-Uploaded bytes r good t = elim (Bool-cases svc.storage_fails) [
    | inl down ↦ rw down (refl, inl refl)
    | inr up ↦ elim (Bool-cases svc.database_fails) [
      | inl down ↦ rw (up, down) (refl, inr refl)
      | inr works ↦
          rw (up, works)
            (record {
              bytes = bytes;
              was_read = r;
              is_good =
                  gate_lem cfg.esp_image_gate_enabled allow_synthetic cfg.esp_image_min_bytes bytes
                    good;
              is_trusted = t;
              row =
                  attached svc p bytes (found_or_blank p.version (find_firmware p.version cat.db));
              listed = found_firmware bytes;
              hashed = refl;
              placed = refl;
              stored = get-put_self (storage_path p.version) bytes cat.bucket;
            })
    ]
  ]

  good_image :
      (bytes : Text) (found : Option String)
      → checked cfg allow_synthetic svc p bytes ≡ ok found
      → ((cfg.esp_image_gate_enabled
            && not allow_synthetic
            && not (is_image cfg.esp_image_min_bytes bytes))
          ≡ false)
        × IsTrusted svc cfg.trusted_key bytes
  unfolding checked
  good_image bytes found h =
      let (good, rest) =
        gate_passed
          (cfg.esp_image_gate_enabled
            && not allow_synthetic
            && not (is_image cfg.esp_image_min_bytes bytes))
          (trusted_of svc cfg.trusted_key bytes (signature_of svc p.sign_key_path bytes)) found h in
      (
        good,
        checked-IsTrusted svc cfg.trusted_key bytes (signature_of svc p.sign_key_path bytes) found
            rest,
      )

  read-Uploaded :
      (bytes : Text) (answer : Result UploadError (Option String))
      → svc.read_file p.file_path ≡ some bytes
      → checked cfg allow_synthetic svc p bytes ≡ answer
      → Uploaded cfg allow_synthetic svc p cat (store_checked svc p bytes cat answer)
  unfolding store_checked
  read-Uploaded bytes (err e) r h = (refl, inl refl)
  read-Uploaded bytes (ok found) r h =
      let (good, t) = good_image bytes found h in store-Uploaded bytes r good t

  file-Uploaded :
      (file : Option Text)
      → svc.read_file p.file_path ≡ file
      → Uploaded cfg allow_synthetic svc p cat (read cfg allow_synthetic svc p cat file)
  unfolding read
  file-Uploaded none r = (refl, inl refl)
  file-Uploaded (some bytes) r =
      read-Uploaded bytes (checked cfg allow_synthetic svc p bytes) r refl

  -- An upload that succeeds leaves the bytes that it read, which passed the image gate and the trusted key where
  -- these are in force, in the bucket, at the path and with the hash that the row of the version lists. One that
  -- fails leaves the tables as they were, and the bucket too unless it is the write of the row that fails.
  pub upload-Uploaded :
      Uploaded cfg allow_synthetic svc p cat (upload_artifact_impl cfg allow_synthetic svc p cat)
  unfolding upload_artifact_impl
  upload-Uploaded = file-Uploaded (svc.read_file p.file_path) refl
