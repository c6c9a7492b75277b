-- ===== src/Ota/Catalogue/Guarded.antt =====
-- What a deletion leaves alone.
use nff_core.Prelude.{
  true, false, ◌&&◌, Option, none, some, List, [], ◌∷◌, String, ◌==◌, string_eq, if◌then◌else◌,
  find, Dict, get, pop, get-pop, ◌≡◌, ◌≢◌, ◌⊎◌, refl, sym, ap, ◌∙◌, inl, inr, Bool-cases, eq_iff,
  Among, Among-select_intro, update_where, true≢false,
}
use nff_core.Ota.Status.{DeploymentStatus}
use nff_core.Ota.Store.{Deployment, Firmware, truthy}
use nff_core.Ota.Catalogue.{
  storage_path, Catalogue, Services, is_active_status, references, unregistered, find_firmware,
  delete_file, delete_stored, delete_row, delete_guarded, delete_artifact,
}

-- The row of another version is as before, and so is its binary, unless it lies at the same path.
abbrev pub IsUntouched : String → String → Catalogue → Catalogue → Type 0
IsUntouched version other before after =
    (find_firmware other after.db ≡ find_firmware other before.db)
    × (storage_path version ≢ storage_path other
        → get (storage_path other) after.bucket ≡ get (storage_path other) before.bucket)

find-unregistered :
    (version other : String) (fws : List Firmware)
    → (version == other) ≡ false
    → find
        (λ (f : Firmware). f.version == other)
        (update_where (λ (f : Firmware). f.version == version) unregistered fws)
      ≡ find (λ (f : Firmware). f.version == other) fws
unfolding unregistered
find-unregistered version other [] h = refl
find-unregistered version other (fw ∷ fws) h = elim (Bool-cases (fw.version == version)) [
  | inl e ↦
      rw (e, ap (λ (v : String). v == other) ((eq_iff fw.version version).0 e), h)
        (find-unregistered version other fws h)
  | inr e ↦
      rw e (
        ap (λ r. if fw.version == other then some fw else r)
          (find-unregistered version other fws h))
]

get-pop_other : {V : Type 0} (k j : String) (d : Dict V) → k ≢ j → get j (pop k d) ≡ get j d
get-pop_other k j d h = elim (Bool-cases (k == j)) [
  | inl e ↦ absurd (h ((eq_iff k j).0 e))
  | inr e ↦ get-pop j k d ∙ rw e refl
]

file-IsUntouched :
    (svc : Services) (version other : String) (fw : Firmware) (cat : Catalogue)
    → (version == other) ≡ false
    → IsUntouched version other cat (delete_file svc version fw cat).0
unfolding delete_file find_firmware
file-IsUntouched svc version other fw cat h = elim (Bool-cases svc.storage_fails) [
  | inl down ↦ rw down (refl, λ _. refl)
  | inr up ↦ rw up (
    find-unregistered version other cat.db.firmware h,
    λ apart. get-pop_other (storage_path version) (storage_path other) cat.bucket apart,
  )
]

stored-IsUntouched :
    (svc : Services) (version other : String) (fw : Firmware) (path : Option String)
    (cat : Catalogue)
    → (version == other) ≡ false
    → IsUntouched version other cat (delete_stored svc version fw path cat).0
unfolding delete_stored
stored-IsUntouched svc version other fw none cat h = (refl, λ _. refl)
stored-IsUntouched svc version other fw (some path) cat h =
    file-IsUntouched svc version other fw cat h

row-IsUntouched :
    (svc : Services) (version other : String) (row : Option Firmware) (cat : Catalogue)
    → (version == other) ≡ false
    → IsUntouched version other cat (delete_row svc version row cat).0
unfolding delete_row
row-IsUntouched svc version other none cat h = (refl, λ _. refl)
row-IsUntouched svc version other (some fw) cat h =
    stored-IsUntouched svc version other fw (truthy fw.storage_path) cat h

guarded-IsUntouched :
    (svc : Services) (version other : String) (found : List Deployment) (cat : Catalogue)
    → (version == other) ≡ false
    → IsUntouched version other cat (delete_guarded svc version found cat).0
unfolding delete_guarded
guarded-IsUntouched svc version other (d ∷ ds) cat h = (refl, λ _. refl)
guarded-IsUntouched svc version other [] cat h =
    row-IsUntouched svc version other (find_firmware version cat.db) cat h

refused :
    (svc : Services) (version : String) (d : Deployment) (found : List Deployment) (cat : Catalogue)
    → Among d found
    → (delete_guarded svc version found cat).0 ≡ cat
unfolding delete_guarded
refused svc version d [] cat m = absurd m
refused svc version d (e ∷ found) cat m = refl

-- Neither finished nor aborted
abbrev pub IsGoing : DeploymentStatus → Type 0
IsGoing DeploymentStatus.finished = ⊥
IsGoing DeploymentStatus.aborted = ⊥
IsGoing _ = Unit

going_status : (status : DeploymentStatus) → IsGoing status → is_active_status status ≡ true
unfolding is_active_status
going_status DeploymentStatus.scheduled g = refl
going_status DeploymentStatus.active g = refl
going_status DeploymentStatus.paused g = refl
going_status DeploymentStatus.finished g = absurd g
going_status DeploymentStatus.aborted g = absurd g

still_referenced :
    (version : String) (d : Deployment)
    → version ≡ d.target_version
    → is_active_status d.status ≡ true
    → (d.target_version == version && is_active_status d.status) ≡ true
still_referenced version d same going =
    rw ((eq_iff d.target_version version).1 (sym same), going) refl

-- Whatever version is deleted, every deployment that is scheduled, active or paused keeps the row of its firmware
-- and its binary, provided that the version is the deployment's own or has another path in the bucket.
pub delete_artifact-IsUntouched :
    (svc : Services) (version : String) (d : Deployment) (cat : Catalogue)
    → Among d cat.db.deployments
    → IsGoing d.status
    → (version ≡ d.target_version) ⊎ (storage_path version ≢ storage_path d.target_version)
    → (find_firmware d.target_version (delete_artifact svc version cat).0.db
        ≡ find_firmware d.target_version cat.db)
      × (get (storage_path d.target_version) (delete_artifact svc version cat).0.bucket
          ≡ get (storage_path d.target_version) cat.bucket)
unfolding delete_artifact references
delete_artifact-IsUntouched svc version d cat m going apart =
    elim (Bool-cases (version == d.target_version)) [
      | inl same ↦
          let kept = refused svc version d (references version cat.db) cat (
            Among-select_intro
              (λ (e : Deployment). e.target_version == version && is_active_status e.status)
              cat.db.deployments d m
              (still_referenced version d ((eq_iff version d.target_version).0 same)
                (going_status d.status going))) in
          (
            ap (λ (c : Catalogue). find_firmware d.target_version c.db) kept,
            ap (λ (c : Catalogue). get (storage_path d.target_version) c.bucket) kept,
          )
      | inr other ↦
          let (row, binary) =
            guarded-IsUntouched svc version d.target_version (references version cat.db) cat
              other in
          (
            row,
            binary (elim apart [
              | inl same ↦
                  absurd (true≢false (sym ((eq_iff version d.target_version).1 same) ∙ other))
              | inr differs ↦ differs
            ]),
          )
    ]
