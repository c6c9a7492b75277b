-- ===== src/Ota/Store/Lookup.antt =====
-- Reading a deployment row back after an update of it.
use nff_core.Prelude.{
  ◌≡◌, ap, ◌∙◌, Bool, true, some, String, ◌==◌, string_eq, if◌then◌else◌, find-update_where,
  updated, find-Among,
}
use nff_core.Ota.Store.{Db, Deployment, find_deployment, update_deployment}

updated_row :
    (b : Bool) (f : Deployment → Deployment) (d : Deployment)
    → b ≡ true
    → some (if b then f d else d) ≡ some (f d)
updated_row b f d h = rw h

pub find_deployment-update_deployment :
    (id : String) (f : Deployment → Deployment) (db : Db) (d : Deployment)
    → ((x : Deployment) → (f x).id ≡ x.id)
    → find_deployment id db ≡ some d
    → find_deployment id (update_deployment id f db) ≡ some (f d)
unfolding find_deployment update_deployment
find_deployment-update_deployment id f db d same found =
    find-update_where (λ (x : Deployment). x.id == id) (λ x. x.id == id) f db.deployments
      (λ x. ap (λ s. s == id) (same x))
    ∙ ap (updated (λ (x : Deployment). x.id == id) f) found
    ∙ updated_row (d.id == id) f d
        (find-Among (λ (x : Deployment). x.id == id) db.deployments d found).1
