-- ===== src/Ota/Examples/Shelved.antt =====
-- The firmware of the small fleet in the catalogue.
use nff_core.Prelude.{true, false, none, some, [], ◌∷◌, Text, get, put, ◌≡◌, refl, inl}
use nff_core.Ota.Catalogue.{
  Catalogue, GateSettings, Services, UploadParams, storage_path, find_firmware,
  upload_artifact_impl, delete_artifact,
}
use nff_core.Ota.Catalogue.Stored.{Uploaded, upload-Uploaded}
use nff_core.Ota.Catalogue.Guarded.{delete_artifact-IsUntouched}
use nff_core.Ota.Examples.{roll, fleet}

abbrev image : Text
image = 0xE9 ∷ 1 ∷ 2 ∷ 3 ∷ []

abbrev services : Services
services = record {
  read_file = λ path. some image;
  sha256 = λ bytes. "aa";
  sign = λ key bytes. some "signed";
  verify = λ key bytes signature. some true;
  storage_fails = false;
  database_fails = false;
}

abbrev gates : GateSettings
gates = record { esp_image_gate_enabled = true; esp_image_min_bytes = 4; trusted_key = some "pem" }

abbrev params : UploadParams
params = record {
  version = "2.1";
  device_types = [];
  file_path = "fw.bin";
  sign_key_path = some "key";
  build_id = none;
  release_version = some "2.1.0";
}

abbrev shelf : Catalogue
shelf = record { db = fleet; bucket = put (storage_path "2.0") image [] }

upload-Uploaded_example :
    Uploaded gates false services params shelf
      (upload_artifact_impl gates false services params shelf)
upload-Uploaded_example = upload-Uploaded gates false services params shelf

delete_artifact-IsUntouched_example :
    (find_firmware "2.0" (delete_artifact services "2.0" shelf).0.db ≡ find_firmware "2.0" fleet)
    × (get (storage_path "2.0") (delete_artifact services "2.0" shelf).0.bucket
        ≡ get (storage_path "2.0") shelf.bucket)
delete_artifact-IsUntouched_example =
    delete_artifact-IsUntouched services "2.0" roll shelf (inl refl) tt (inl refl)
