-- ===== src/Ota/Catalogue.antt =====
-- The firmware catalogue, observability/nff-ota/nff_ota/tools/artifacts/ops.py, and the object keys of
-- storage.py. The bucket holds the binaries by their path. The hash, signatures and the files of the caller are
-- arguments; whether a call of the storage or the database fails is a flag. Of a row only the columns of
-- `Firmware` are kept, and the stored debug ELF is left out. An empty file is no image (the source would raise
-- on one if the minimal size were set to 0).
pub mod Stored
pub mod Guarded
use Prim.Native.Char.{Char, code}
use nff_core.Prelude.{
  ℕ, zero, suc, ◌+◌, ◌-◌, leb, nat_eqb, Bool, true, false, not, ◌&&◌, ◌||◌, Option, none, some,
  List, [], ◌∷◌, String, ◌==◌, string_eq, if◌then◌else◌, find, select, any, length, Text, text_eq,
  Result, ok, err, Dict, get, put, pop, update_where,
}
use nff_core.Ota.Status.{DeploymentStatus}
use nff_core.Ota.Store.{Db, Deployment, Firmware, truthy}

is_safe : ℕ → Bool
is_safe c =
    leb b'A' c && leb c b'Z'
    || leb b'a' c && leb c b'z'
    || leb b'0' c && leb c b'9'
    || nat_eqb c b'.'
    || nat_eqb c b'_'
    || nat_eqb c b'-'

joined : String → String → String
joined String.[] t = t
joined (String.◌∷◌ c s) t = String.◌∷◌ c (joined s t)

pub safe_key : String → String
unfolding is_safe joined
safe_key String.[] = ""
safe_key (String.◌∷◌ c s) =
    let rest = safe_key s in if is_safe (code c) then String.◌∷◌ c rest else joined "_" rest

unfoldable pub storage_path : String → String
unfolding joined safe_key
storage_path version = joined "firmware/" (joined (safe_key version) ".bin")

pub record Catalogue : Type 0 where
  pub db : Db
  pub bucket : Dict Text

pub record GateSettings : Type 0 where
  pub esp_image_gate_enabled : Bool
  pub esp_image_min_bytes : ℕ
  -- `trusted_signing_key_path`, where it is set
  pub trusted_key : Option String

-- The crypto module, the files of the server and the answers of the services
pub record Services : Type 0 where
  pub read_file : String → Option Text
  pub sha256 : Text → String
  pub sign : String → Text → Option String
  -- none where the trusted key cannot be read
  pub verify : String → Text → String → Option Bool
  pub storage_fails : Bool
  pub database_fails : Bool

pub record UploadParams : Type 0 where
  pub version : String
  pub device_types : List Text
  pub file_path : String
  -- none for ""
  pub sign_key_path : Option String
  pub build_id : Option String
  pub release_version : Option String

pub data UploadError : Type 0 where
  cannot_read not_an_image signing_failed not_signed no_trusted_key bad_signature storage_failed
        upsert_failed :
      UploadError

-- The first byte is `_ESP_IMAGE_MAGIC`.
has_magic : Text → Bool
has_magic [] = false
has_magic (b ∷ bs) = nat_eqb b 0xE9

unfoldable pub is_image : ℕ → Text → Bool
unfolding has_magic
is_image min_bytes data_ = leb min_bytes (length data_) && has_magic data_

some_signature : Option String → Result UploadError (Option String)
some_signature none = err signing_failed
some_signature (some signature) = ok (some signature)

signature_of : Services → Option String → Text → Result UploadError (Option String)
unfolding some_signature
signature_of svc none data_ = ok none
signature_of svc (some key) data_ = some_signature (svc.sign key data_)

verified : Option Bool → Option String → Result UploadError (Option String)
verified none signature = err no_trusted_key
verified (some false) signature = err bad_signature
verified (some true) signature = ok signature

trusted : Services → Option String → Text → Option String → Result UploadError (Option String)
unfolding verified
trusted svc none data_ signature = ok signature
trusted svc (some key) data_ none = err not_signed
trusted svc (some key) data_ (some signature) =
    verified (svc.verify key data_ signature) (some signature)

trusted_of :
    Services
    → Option String
    → Text
    → Result UploadError (Option String)
    → Result UploadError (Option String)
unfolding trusted
trusted_of svc key data_ (err e) = err e
trusted_of svc key data_ (ok signature) = trusted svc key data_ signature

-- The checks of the bytes, before anything is written
unfoldable pub checked :
    GateSettings → Bool → Services → UploadParams → Text → Result UploadError (Option String)
unfolding signature_of trusted_of
checked cfg allow_synthetic svc p data_ =
    if cfg.esp_image_gate_enabled
      && not allow_synthetic
      && not (is_image cfg.esp_image_min_bytes data_)
    then err not_an_image
    else trusted_of svc cfg.trusted_key data_ (signature_of svc p.sign_key_path data_)

or_kept : Option String → Option String → Option String
or_kept none kept = kept
or_kept (some new) kept = some new

-- The deployable columns are always written, those of the lineage only where the caller gives them.
attached : Services → UploadParams → Text → Firmware → Firmware
unfolding or_kept
attached svc p data_ fw = record fw {
  device_types = p.device_types;
  checksum_sha256 = some (svc.sha256 data_);
  size_bytes = some (length data_);
  storage_path = some (storage_path p.version);
  build_id = or_kept p.build_id fw.build_id;
  release_version = or_kept p.release_version fw.release_version;
}

blank_row : String → Firmware
blank_row version = record {
  version = version;
  storage_path = none;
  checksum_sha256 = none;
  release_version = none;
  build_id = none;
  size_bytes = none;
  device_types = [];
}

-- `upsert(row, on_conflict="version")`
upsert : String → (Firmware → Firmware) → List Firmware → List Firmware
unfolding blank_row
upsert version f [] = f (blank_row version) ∷ []
upsert version f (fw ∷ fws) =
    let rest = upsert version f fws in if fw.version == version then f fw ∷ fws else fw ∷ rest

pub find_firmware : String → Db → Option Firmware
find_firmware version db = find (λ (f : Firmware). f.version == version) db.firmware

store :
    Services → UploadParams → Text → Catalogue → Catalogue × Result UploadError (Option Firmware)
unfolding upsert attached find_firmware
store svc p data_ cat =
    if svc.storage_fails
    then (cat, err storage_failed)
    else (let bucket = put (storage_path p.version) data_ cat.bucket in
        let db = record cat.db {
          firmware = upsert p.version (attached svc p data_) cat.db.firmware;
        } in
        if svc.database_fails
        then (record cat { bucket = bucket }, err upsert_failed)
        else (record { db = db; bucket = bucket }, ok (find_firmware p.version db)))

store_checked :
    Services
    → UploadParams
    → Text
    → Catalogue
    → Result UploadError (Option String)
    → Catalogue × Result UploadError (Option Firmware)
unfolding store
store_checked svc p data_ cat (err e) = (cat, err e)
store_checked svc p data_ cat (ok signature) = store svc p data_ cat

read :
    GateSettings
    → Bool
    → Services
    → UploadParams
    → Catalogue
    → Option Text
    → Catalogue × Result UploadError (Option Firmware)
unfolding store_checked
read cfg allow_synthetic svc p cat none = (cat, err cannot_read)
read cfg allow_synthetic svc p cat (some data_) =
    store_checked svc p data_ cat (checked cfg allow_synthetic svc p data_)

unfoldable pub upload_artifact_impl :
    GateSettings
    → Bool
    → Services
    → UploadParams
    → Catalogue
    → Catalogue × Result UploadError (Option Firmware)
unfolding read
upload_artifact_impl cfg allow_synthetic svc p cat =
    read cfg allow_synthetic svc p cat (svc.read_file p.file_path)

pub data DeleteError : Type 0 where
  referenced : ℕ → DeleteError
  not_found no_artifact delete_failed : DeleteError

-- `active_statuses`
is_active_status : DeploymentStatus → Bool
is_active_status DeploymentStatus.scheduled = true
is_active_status DeploymentStatus.active = true
is_active_status DeploymentStatus.paused = true
is_active_status _ = false

pub references : String → Db → List Deployment
unfolding is_active_status
references version db =
    select (λ (d : Deployment). d.target_version == version && is_active_status d.status)
      db.deployments

unregistered : Firmware → Firmware
unregistered fw = record fw { checksum_sha256 = none; storage_path = none; size_bytes = some 0 }

delete_file : Services → String → Firmware → Catalogue → Catalogue × Result DeleteError Firmware
unfolding unregistered
delete_file svc version fw cat = if svc.storage_fails then (cat, err delete_failed) else (
  record {
    db = record cat.db {
      firmware = update_where (λ (f : Firmware). f.version == version) unregistered cat.db.firmware;
    };
    bucket = pop (storage_path version) cat.bucket;
  },
  ok fw,
)

delete_stored :
    Services
    → String
    → Firmware
    → Option String
    → Catalogue
    → Catalogue × Result DeleteError Firmware
unfolding delete_file
delete_stored svc version fw none cat = (cat, err no_artifact)
delete_stored svc version fw (some path) cat = delete_file svc version fw cat

delete_row :
    Services → String → Option Firmware → Catalogue → Catalogue × Result DeleteError Firmware
unfolding delete_stored
delete_row svc version none cat = (cat, err not_found)
delete_row svc version (some fw) cat = delete_stored svc version fw (truthy fw.storage_path) cat

delete_guarded :
    Services → String → List Deployment → Catalogue → Catalogue × Result DeleteError Firmware
unfolding delete_row find_firmware
delete_guarded svc version (d ∷ ds) cat = (cat, err (referenced (suc (length ds))))
delete_guarded svc version [] cat = delete_row svc version (find_firmware version cat.db) cat

unfoldable pub delete_artifact :
    Services → String → Catalogue → Catalogue × Result DeleteError Firmware
unfolding delete_guarded references
delete_artifact svc version cat = delete_guarded svc version (references version cat.db) cat
