-- ===== src/Ota/FixSubmit/Current.antt =====
-- The revision that a submission is compared with, and the devices that it serves.
use text.Mathlib.Text.{starts_with}
use nff_core.Prelude.{
  ℕ, ltb, ◌≤◌, arith, Bool, true, false, Option, none, some, List, [], ◌∷◌, ◌++◌, String, ◌==◌,
  string_eq, if◌then◌else◌, text_eqb_iff, strip, codes, ok, err, ◌≡◌, ◌≢◌, ◌⊎◌, refl, sym, ap, ◌∙◌,
  subst, inl, inr, Bool-cases, All, Among, eq_iff, eqb_refl, true≢false, some_inj,
}
use nff_core.Ota.Store.{Device, find_device, or_else, truthy}
use nff_core.Ota.FixSubmit.{
  Revision, Fixes, later_of, latest, latest_revision, Served, is_qemu, baseline, recorded, is_l2,
  baseline_of, ensure_baseline, current_or_baseline, real_hardware, project_or, is_mock,
  project_of_device, project_of,
}

-- No revision of the device
abbrev pub HasNone : String → List Revision → Type 0
HasNone id revisions = All (λ (s : Revision). (s.device_id == id) ≡ false) revisions

-- A revision of the device, and none of its revisions is later.
abbrev pub IsLatest : String → List Revision → Revision → Type 0
IsLatest id revisions r =
    Among r revisions
    × (r.device_id ≡ id)
    × All (λ (s : Revision). ((s.device_id == id) ≡ false) ⊎ (s.created_at ≤ r.created_at))
        revisions

abbrev pub IsQemu : Device → Type 0
IsQemu d = strip (or_else d.device_type []) ≡ codes "nff-qemu-esp32"

-- The repository is out of reach, or serves the placeholder.
abbrev pub IsUnserved : Option Served → Type 0
IsUnserved none = Unit
IsUnserved (some served) = served.is_stub ≡ true

-- The latest revision of the device; where it has none, the baseline of an emulated device, if it is served
pub data IsCurrent (now : ℕ) (served : Option Served) (id : String) (d : Device)
    (revisions : List Revision) : Option Revision → Type 0 where
  known : (r : Revision) → IsLatest id revisions r → IsCurrent now served id d revisions (some r)
  floored :
      (source : String)
      → HasNone id revisions
      → IsQemu d
      → served ≡ some record { source = source; is_stub = false }
      → IsCurrent now served id d revisions (
          some record {
            device_id = id;
            version = "0.0.0";
            source = source;
            parent_version = none;
            author = "baseline";
            created_at = now;
          })
  unfloored :
      HasNone id revisions
      → (IsQemu d → ⊥) ⊎ IsUnserved served
      → IsCurrent now served id d revisions none

-- What `latest` of the device's revisions is
abbrev Latest : String → List Revision → Option Revision → Type 0
Latest id revisions none = HasNone id revisions
Latest id revisions (some r) = IsLatest id revisions r

module _ (id : String) where
  newer_lem :
      (r : Revision) (rs : List Revision) (o : Option Revision)
      → (r.device_id == id) ≡ true
      → Latest id rs o
      → IsLatest id (r ∷ rs) (later_of r o)
  unfolding later_of
  newer_lem r rs none own h =
      (inl refl, (eq_iff r.device_id id).0 own, (inr (ground arith), weaken rs h))
    where
      weaken :
          (ss : List Revision)
          → HasNone id ss
          → All (λ (s : Revision). ((s.device_id == id) ≡ false) ⊎ (s.created_at ≤ r.created_at)) ss
      weaken [] k = tt
      weaken (s ∷ ss) k = (inl k.0, weaken ss k.1)
  newer_lem r rs (some s) own (m, mine, later) = elim (Bool-cases (ltb r.created_at s.created_at)) [
    | inl before ↦
        subst (IsLatest id (r ∷ rs)) (sym (picked true before))
          (inr m, mine, (inr (ground (arith, before)), later))
    | inr after ↦ subst (IsLatest id (r ∷ rs)) (sym (picked false after)) (
      inl refl,
      (eq_iff r.device_id id).0 own,
      (inr (ground arith), raised rs (ground (arith, after)) later),
    )
  ]
    where
      picked :
          (b : Bool)
          → ltb r.created_at s.created_at ≡ b
          → later_of r (some s) ≡ (if b then s else r)
      picked b e = rw e refl

      raised :
          (ss : List Revision)
          → s.created_at ≤ r.created_at
          → All (λ (x : Revision). ((x.device_id == id) ≡ false) ⊎ (x.created_at ≤ s.created_at)) ss
          → All (λ (x : Revision). ((x.device_id == id) ≡ false) ⊎ (x.created_at ≤ r.created_at)) ss
      raised [] le k = tt
      raised (x ∷ ss) le (inl other, k) = (inl other, raised ss le k)
      raised (x ∷ ss) le (inr older, k) = (inr (ground arith), raised ss le k)

  older_lem :
      (r : Revision) (rs : List Revision) (o : Option Revision)
      → (r.device_id == id) ≡ false
      → Latest id rs o
      → Latest id (r ∷ rs) o
  older_lem r rs none other h = (other, h)
  older_lem r rs (some s) other (m, mine, later) = (inr m, mine, (inl other, later))

  latest_revision-Latest : (rs : List Revision) → Latest id rs (latest_revision id rs)
  unfolding latest_revision latest
  latest_revision-Latest [] = tt
  latest_revision-Latest (r ∷ rs) = elim (Bool-cases (r.device_id == id)) [
    | inl own ↦ rw own (newer_lem r rs (latest_revision id rs) own (latest_revision-Latest rs))
    | inr other ↦
        rw other (older_lem r rs (latest_revision id rs) other (latest_revision-Latest rs))
  ]

  latest-recorded :
      (rs : List Revision) (b : Revision)
      → HasNone id rs
      → (b.device_id == id) ≡ true
      → latest_revision id (rs ++ b ∷ []) ≡ some b
  unfolding latest_revision latest later_of
  latest-recorded [] b h own = rw own refl
  latest-recorded (r ∷ rs) b h own = rw h.0 (latest-recorded rs b h.1 own)

qemu_lem : (d : Device) → is_qemu d ≡ true → IsQemu d
unfolding is_qemu
qemu_lem d h = (text_eqb_iff (strip (or_else d.device_type [])) (codes "nff-qemu-esp32")).0 h

pub other_lem : (d : Device) → is_qemu d ≡ false → IsQemu d → ⊥
unfolding is_qemu
other_lem d h same =
    true≢false
      (sym ((text_eqb_iff (strip (or_else d.device_type [])) (codes "nff-qemu-esp32")).1 same) ∙ h)

module _ (now : ℕ) (served : Option Served) (id : String) (d : Device) (project : String)
    (before : Fixes) (found : find_device id before.db ≡ some d)
    (owned : truthy d.project_id ≡ some project) where
  -- What the look-up gives after the baseline was tried
  reread : List Revision × Bool → Option Revision
  reread (revisions, there) = if there then latest_revision id revisions else none

  recorded-IsCurrent :
      (offer : Option Served)
      → served ≡ offer
      → HasNone id before.revisions
      → IsQemu d
      → IsCurrent now served id d before.revisions (reread (recorded now id offer before.revisions))
  unfolding recorded reread baseline
  recorded-IsCurrent none same bare qemu = unfloored bare (inr (subst IsUnserved (sym same) tt))
  recorded-IsCurrent (some offer) same bare qemu = elim (Bool-cases offer.is_stub) [
    | inl stub ↦ rw stub (unfloored bare (inr (subst IsUnserved (sym same) stub)))
    | inr real ↦ rw real (
        subst (IsCurrent now served id d before.revisions)
          (sym (latest-recorded id before.revisions (baseline now id offer) bare (eqb_refl id)))
          (floored offer.source bare qemu (same ∙ real_offer offer real)))
  ]
    where
      real_offer :
          (o : Served)
          → o.is_stub ≡ false
          → some o ≡ some record { source = o.source; is_stub = false }
      real_offer o h = ap (λ b. some record { source = o.source; is_stub = b }) h

  baseline-IsCurrent :
      HasNone id before.revisions
      → IsCurrent now served id d before.revisions
          (reread (baseline_of now served id (find_device id before.db) before.revisions))
  unfolding baseline_of is_l2 reread
  baseline-IsCurrent bare = elim (Bool-cases (is_qemu d)) [
    | inl qemu ↦ rw (found, owned, qemu) (recorded-IsCurrent served refl bare (qemu_lem d qemu))
    | inr other ↦ rw (found, owned, other) (unfloored bare (inl (other_lem d other)))
  ]

  looked_up-IsCurrent :
      (o : Option Revision)
      → Latest id before.revisions o
      → IsCurrent now served id d before.revisions (current_or_baseline now served id o before).1
  unfolding current_or_baseline ensure_baseline reread
  looked_up-IsCurrent (some r) h = known r h
  looked_up-IsCurrent none h = baseline-IsCurrent h

  pub current_or_baseline-IsCurrent :
      IsCurrent now served id d before.revisions
        (current_or_baseline now served id (latest_revision id before.revisions) before).1
  current_or_baseline-IsCurrent =
      looked_up-IsCurrent (latest_revision id before.revisions)
        (latest_revision-Latest id before.revisions)

-- The device is there with its project, and is emulated or a mock.
abbrev pub IsSimulated : Device → String → Type 0
IsSimulated d project =
    (d.project_id ≡ some project) × (project ≢ "") × (IsQemu d ⊎ (starts_with d.id "mock-" ≡ true))

owned_lem :
    (o : Option String) (project : String)
    → truthy o ≡ some project
    → (o ≡ some project) × (project ≢ "")
owned_lem none project h = cc
owned_lem (some name) project h = elim (Bool-cases (name == "")) [
  | inl e ↦ let no : none ≡ some project = rw e at h in cc
  | inr e ↦
      let same : some name ≡ some project = rw e at h in
      (same, λ blank. true≢false (sym ((eq_iff name "").1 (some_inj same ∙ blank)) ∙ e))
]

mock_lem : (d : Device) → is_mock d ≡ true → IsQemu d ⊎ (starts_with d.id "mock-" ≡ true)
unfolding is_mock
mock_lem d h = elim (Bool-cases (is_qemu d)) [
  | inl e ↦ inl (qemu_lem d e)
  | inr e ↦ inr (rw e at h)
]

-- What the project of a served device comes from
device_lem :
    (d : Device) (project : String) (owner : Option String)
    → truthy d.project_id ≡ owner
    → project_of_device d (project_or owner) ≡ ok project
    → (truthy d.project_id ≡ some project) × (is_mock d ≡ true)
unfolding project_of_device project_or
device_lem d project none e h = cc
device_lem d project (some name) e h = served_if (is_mock d) refl h
  where
    served_if :
        (mock : Bool)
        → is_mock d ≡ mock
        → (if mock then ok name else err real_hardware) ≡ ok project
        → (truthy d.project_id ≡ some project) × (is_mock d ≡ true)
    served_if true m k = (e ∙ cc, m)
    served_if false m k = cc

pub found_device :
    (o : Option Device) (project : String)
    → project_of o ≡ ok project
    → (d : Device) × (o ≡ some d) × (truthy d.project_id ≡ some project) × IsSimulated d project
unfolding project_of
found_device none project h = cc
found_device (some d) project h =
    let (owner, mock) = device_lem d project (truthy d.project_id) refl h in
    let (named, filled) = owned_lem d.project_id project owner in
    (d, refl, owner, (named, filled, mock_lem d mock))
