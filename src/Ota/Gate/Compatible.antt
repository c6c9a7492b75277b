-- ===== src/Ota/Gate/Compatible.antt =====
-- What the gate lets through.
use nff_core.Prelude.{
  ◌≡◌, refl, sym, subst, true, ◌&&◌, ◌⊎◌, List, [], ◌∷◌, String, string_eq, arith, select, Among,
  Among-select, Result, ok, err, Text, text_eq, Bool-cases, inl, inr, Among-select_intro,
}
use nff_core.Ota.Status.{DeviceStatus}
use nff_core.Ota.Store.{Db, Device, or_else}
use nff_core.Ota.Gate.Fits.{Fits, Fits-intro, Fits-elim}
use nff_core.Ota.Gate.{
  GateError, is_accepted, is_member, has_members, non_empty, resolve_accepted_devices,
  allowed_types, is_compatible, split_by, filter_compatible, gate, firmware_device_types,
  resolve_deployable_devices, no_compatible, no_accepted,
}

-- A device that a rollout of this firmware to this group may reach.
pub record Deployable (group_id version : String) (db : Db) (d : Device) : Type 0 where
  pub known : Among d db.devices
  pub member : is_member group_id db.members d ≡ true
  pub accepted : d.ota_status ≡ DeviceStatus.accepted
  pub fits : Fits (firmware_device_types version db) (or_else d.device_type [])

err≢ok {ℓ} : {A : Type ℓ} {e : GateError} {a : A} → err e ≡ ok a → ⊥
err≢ok h = cc

cons≢nil {ℓ} : {A : Type ℓ} {x : A} {xs : List A} → x ∷ xs ≡ [] → ⊥
cons≢nil h = cc

non_empty-ok {ℓ} : {A : Type ℓ} (e : GateError) (xs ys : List A) → non_empty e xs ≡ ok ys → ys ≡ xs
unfolding non_empty
non_empty-ok e [] ys h = cc
non_empty-ok e (x ∷ xs) ys h = cc

accepted_iff : (d : Device) → is_accepted d ≡ true → d.ota_status ≡ DeviceStatus.accepted
unfolding is_accepted
accepted_iff d h = ground arith

filter_pass :
    (allowed : List Text) (accepted : List Device) (d : Device)
    → Among d (split_by allowed accepted).0
    → Among d accepted × ((allowed ≡ []) ⊎ (is_compatible allowed d ≡ true))
unfolding split_by
filter_pass [] accepted d m = (m, inl refl)
filter_pass (t ∷ ts) accepted d m =
    let (found, fits) = Among-select (is_compatible (t ∷ ts)) accepted d m in (found, inr fits)

filter_cases :
    (accepted : List Device) (types : List Text) (d : Device)
    → Among d (filter_compatible accepted types).0
    → Among d accepted
      × ((allowed_types types ≡ []) ⊎ (is_compatible (allowed_types types) d ≡ true))
unfolding filter_compatible
filter_cases accepted types d m = filter_pass (allowed_types types) accepted d m

resolved :
    (group_id : String) (db : Db) (ds : List Device) (d : Device)
    → resolve_accepted_devices group_id db ≡ ok ds
    → Among d ds
    → Among d db.devices
      × (is_member group_id db.members d ≡ true)
      × (d.ota_status ≡ DeviceStatus.accepted)
unfolding resolve_accepted_devices
resolved group_id db ds d e m = elim (Bool-cases (has_members group_id db.members)) [
  | inr h ↦ absurd (err≢ok (rw h at e))
  | inl h ↦
      let same =
        non_empty-ok no_accepted
          (select (λ (x : Device). is_member group_id db.members x && is_accepted x) db.devices) ds
          (rw h at e) in
      let (known, both) =
        Among-select (λ (x : Device). is_member group_id db.members x && is_accepted x) db.devices d
          (subst (λ l. Among d l) same m) in
      (known, ground (arith, both), accepted_iff d (ground (arith, both)))
]

gated :
    (r : Result GateError (List Device)) (types : List Text) (ds : List Device)
    → gate r types ≡ ok ds
    → (accepted : List Device) × (r ≡ ok accepted) × (ds ≡ (filter_compatible accepted types).0)
unfolding gate
gated (err e) types ds h = absurd (err≢ok h)
gated (ok accepted) types ds h =
    (accepted, refl, non_empty-ok no_compatible (filter_compatible accepted types).0 ds h)

-- Every device that a rollout resolves is in the table, a member of the group, accepted, and of a type
-- that the artifact targets, unless the artifact names no type or the device reports none.
pub resolve-Deployable_sound :
    (group_id version : String) (db : Db) (ds : List Device) (d : Device)
    → resolve_deployable_devices group_id version db ≡ ok ds
    → Among d ds
    → Deployable group_id version db d
unfolding resolve_deployable_devices
resolve-Deployable_sound group_id version db ds d e m =
    let (accepted, from, same) =
      gated (resolve_accepted_devices group_id db) (firmware_device_types version db) ds e in
    let (found, fits) =
      filter_cases accepted (firmware_device_types version db) d (subst (λ l. Among d l) same m) in
    let (known, is_in, ready) = resolved group_id db accepted d from found in
    record {
      known = known;
      member = is_in;
      accepted = ready;
      fits = Fits-intro (firmware_device_types version db) d fits;
    }

pass_all :
    (allowed : List Text) (accepted : List Device) (d : Device)
    → Among d accepted
    → (allowed ≡ []) ⊎ (is_compatible allowed d ≡ true)
    → Among d (split_by allowed accepted).0
unfolding split_by
pass_all [] accepted d m fits = m
pass_all (t ∷ ts) accepted d m (inl e) = absurd (cons≢nil e)
pass_all (t ∷ ts) accepted d m (inr fits) =
    Among-select_intro (is_compatible (t ∷ ts)) accepted d m fits

pass_every :
    (types : List Text) (accepted : List Device) (d : Device)
    → Among d accepted
    → (allowed_types types ≡ []) ⊎ (is_compatible (allowed_types types) d ≡ true)
    → Among d (filter_compatible accepted types).0
unfolding filter_compatible
pass_every types accepted d m fits = pass_all (allowed_types types) accepted d m fits

taken :
    (group_id : String) (db : Db) (ds : List Device) (d : Device)
    → resolve_accepted_devices group_id db ≡ ok ds
    → Among d db.devices
    → (is_member group_id db.members d && is_accepted d) ≡ true
    → Among d ds
unfolding resolve_accepted_devices
taken group_id db ds d e known both = elim (Bool-cases (has_members group_id db.members)) [
  | inr h ↦ absurd (err≢ok (rw h at e))
  | inl h ↦
      let wanted = λ (x : Device). is_member group_id db.members x && is_accepted x in
      subst (λ l. Among d l)
        (sym (non_empty-ok no_accepted (select wanted db.devices) ds (rw h at e)))
        (Among-select_intro wanted db.devices d known both)
]

accepted_intro : (d : Device) → d.ota_status ≡ DeviceStatus.accepted → is_accepted d ≡ true
unfolding is_accepted
accepted_intro d h = rw h refl

-- No device is left out: one that is in the table, a member, accepted and of a fitting type is resolved.
pub resolve-Deployable_complete :
    (group_id version : String) (db : Db) (ds : List Device) (d : Device)
    → resolve_deployable_devices group_id version db ≡ ok ds
    → Deployable group_id version db d
    → Among d ds
unfolding resolve_deployable_devices
resolve-Deployable_complete group_id version db ds d e h =
    let (accepted, from, same) =
      gated (resolve_accepted_devices group_id db) (firmware_device_types version db) ds e in
    let both : (is_member group_id db.members d && is_accepted d) ≡ true =
      rw (h.member, accepted_intro d h.accepted) refl in
    subst (λ l. Among d l) (sym same)
      (pass_every (firmware_device_types version db) accepted d
        (taken group_id db accepted d from h.known both)
        (Fits-elim (firmware_device_types version db) d h.fits))
