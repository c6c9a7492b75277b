-- ===== src/Ota/FixSubmit/Refusals.antt =====
-- Why a submission of a fix is refused.
use text.Mathlib.Text.{starts_with}
use nff_core.Prelude.{
  ◌+◌, ◌≤◌, arith, true, false, Option, none, some, String, ◌==◌, string_eq, Result, ok, err, ◌≡◌,
  ◌⊎◌, refl, ap, subst, inl, inr, Bool-cases, eq_iff,
}
use nff_core.Ota.Store.{Device, find_device, truthy}
use nff_core.Ota.FixSubmit.{
  Semver, semver, semver_le, Revision, Fixes, FixError, not_semver, no_device, no_project,
  real_hardware, enqueue_failed, not_greater, is_qemu, is_mock, project_or, project_of_device,
  project_of, FixParams, Turn,
}
use nff_core.Ota.FixSubmit.Current.{IsCurrent, IsQemu, other_lem}

-- The first version is over the second one, in the order of major, minor and patch.
abbrev pub IsOver : Semver → Semver → Type 0
IsOver (a, b, c) (d, e, f) = (d + 1 ≤ a) ⊎ ((d ≡ a) × ((e + 1 ≤ b) ⊎ ((e ≡ b) × (f + 1 ≤ c))))

-- What is the matter with a submission that is refused with that error
pub data Refused (t : Turn) (p : FixParams) (before : Fixes) : FixError → Type 0 where
  unversioned : semver p.version ≡ none → Refused t p before not_semver
  missing : find_device p.device_id before.db ≡ none → Refused t p before no_device
  unowned :
      (d : Device)
      → find_device p.device_id before.db ≡ some d
      → (d.project_id ≡ none) ⊎ (d.project_id ≡ some "")
      → Refused t p before no_project
  hardware :
      (d : Device)
      → find_device p.device_id before.db ≡ some d
      → (IsQemu d → ⊥)
      → starts_with d.id "mock-" ≡ false
      → Refused t p before real_hardware
  low :
      (new current : Semver) (d : Device) (r : Revision)
      → semver p.version ≡ some new
      → find_device p.device_id before.db ≡ some d
      → IsCurrent t.now t.served p.device_id d before.revisions (some r)
      → semver r.version ≡ some current
      → (IsOver new current → ⊥)
      → Refused t p before (not_greater r.version)
  down : t.insert_fails ≡ true → Refused t p before enqueue_failed

pub unless_over : (new current : Semver) → semver_le new current ≡ true → IsOver new current → ⊥
unfolding semver_le
unless_over (a, b, c) (d, e, f) h (inl major) = ground (arith, h, major)
unless_over (a, b, c) (d, e, f) h (inr (same, inl minor)) = ground (arith, h, same, minor)
unless_over (a, b, c) (d, e, f) h (inr (same, inr (also, patch))) =
    ground (arith, h, same, also, patch)

blank_lem : (o : Option String) → truthy o ≡ none → (o ≡ none) ⊎ (o ≡ some "")
blank_lem none h = inl refl
blank_lem (some name) h = elim (Bool-cases (name == "")) [
  | inl e ↦ inr (ap some ((eq_iff name "").0 e))
  | inr e ↦ let no : some name ≡ none = rw e at h in cc
]

err_inj : {x y : FixError} → ◌≡◌ {A = Result FixError String} (err x) (err y) → x ≡ y
err_inj h = cc

module _ (t : Turn) (p : FixParams) (before : Fixes) where
  owner_Refused :
      (d : Device) (e : FixError) (owner : Option String)
      → find_device p.device_id before.db ≡ some d
      → truthy d.project_id ≡ owner
      → project_of_device d (project_or owner) ≡ err e
      → Refused t p before e
  unfolding project_of_device project_or is_mock
  owner_Refused d e none there same h =
      subst (Refused t p before) (err_inj h) (unowned d there (blank_lem d.project_id same))
  owner_Refused d e (some project) there same h = elim (Bool-cases (is_qemu d)) [
    | inl qemu ↦ let no : ◌≡◌ {A = Result FixError String} (ok project) (err e) = rw qemu at h in cc
    | inr other ↦ elim (Bool-cases (starts_with d.id "mock-")) [
      | inl mock ↦
          let no : ◌≡◌ {A = Result FixError String} (ok project) (err e) = rw (other, mock) at h in
          cc
      | inr real ↦
          let same_error : ◌≡◌ {A = Result FixError String} (err real_hardware) (err e) =
            rw (other, real) at h in
          subst (Refused t p before) (err_inj same_error)
            (hardware d there (other_lem d other) real)
    ]
  ]

  pub device_error :
      (o : Option Device) (e : FixError)
      → find_device p.device_id before.db ≡ o
      → project_of o ≡ err e
      → Refused t p before e
  unfolding project_of
  device_error none e there h = subst (Refused t p before) (err_inj h) (missing there)
  device_error (some d) e there h = owner_Refused d e (truthy d.project_id) there refl h
