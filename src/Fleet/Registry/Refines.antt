-- ===== src/Fleet/Registry/Refines.antt =====
-- The registry against an abstract table of devices: a function from ids, with no order and no keys.
use nff_core.Prelude.{
  ℕ, zero, suc, ◌+◌, ◌*◌, ltb, ℤ, pos, negsuc, Bool, false, Option, none, some, List, [], ◌∷◌,
  String, ◌≢◌, ◌==◌, string_eq, if◌then◌else◌, arith, select, any, get, put, values, ◌≡◌, refl, ap,
  sym, subst, ◌∙◌, fun_ext, get-put, get-put_ne, eq_iff, Bool-cases, Option-cases, inl, inr,
  true≢false, none≢some, some_inj, ◌&&◌,
}
use nff_core.Fleet.Messages.{Payload, Interval, seconds, malformed, truthy, or_default}
use nff_core.Fleet.Registry.{
  DeviceInfo, Registry, known_or_new, or_kept, with_interval, heard, update_heartbeat, offline,
  set_offline_at, set_offline, is_stale, stale_online_devices, mark, reap,
}

pub data Op : Type 0 where
  beat : ℕ → String → Payload → Option String → Op
  -- the last will of a connection
  drop : String → Op
  sweep : ℕ → ℕ → ℕ → Op

unfoldable pub apply : Op → Registry → Registry
apply (beat now id p project) reg = update_heartbeat now id p project reg
apply (drop id) reg = set_offline id reg
apply (sweep now default_interval miss) reg = (reap now default_interval miss reg).0

unfoldable pub apply_all : List Op → Registry → Registry
unfolding apply
apply_all [] reg = reg
apply_all (op ∷ ops) reg = apply_all ops (apply op reg)

abbrev pub Presence : Type 0
Presence = String → Option DeviceInfo

abbrev pub newer : {A : Type 0} → Option A → Option A → Option A
newer (some a) b = some a
newer none b = b

-- The interval and the project that a device is known by after a heartbeat
abbrev pub known_by :
    Option Interval → Option String → Option ℤ × Option String → Option ℤ × Option String
unfolding truthy
known_by none project (interval, owner) = (interval, newer (truthy project) owner)
known_by (some (seconds i)) project (interval, owner) = (some i, newer (truthy project) owner)
known_by (some malformed) project (interval, owner) = (interval, owner)

abbrev pub unseen : String → DeviceInfo
unseen id = record {
  device_id = id;
  status = "offline";
  project_id = none;
  last_seen = 0;
  heartbeat_payload = none;
  heartbeat_interval_s = none;
}

-- A heartbeat is all that is known of a device, but for an interval or a project that it does not name; one with
-- a malformed interval leaves these two as they were.
abbrev pub present : ℕ → Payload → Option String → DeviceInfo → DeviceInfo
unfolding or_default
present now p project d =
    let (interval, owner) = known_by p.interval_s project (d.heartbeat_interval_s, d.project_id) in
    record {
      device_id = d.device_id;
      status = or_default "online" p.status;
      project_id = owner;
      last_seen = now;
      heartbeat_payload = some p;
      heartbeat_interval_s = interval;
    }

abbrev pub present_or_new : ℕ → String → Payload → Option String → Option DeviceInfo → DeviceInfo
present_or_new now id p project none = present now p project (unseen id)
present_or_new now id p project (some d) = present now p project d

-- Longer without a beat than the factor allows of the interval, which is the default where there is none
abbrev pub silent : ℕ → ℕ → ℕ → ℕ → Option ℤ → Bool
silent now default_interval miss last none = ltb (last + miss * default_interval) now
silent now default_interval miss last (some (pos zero)) = ltb (last + miss * default_interval) now
silent now default_interval miss last (some (pos (suc i))) = ltb (last + miss * suc i) now
silent now default_interval miss last (some (negsuc i)) = ltb last (now + miss * suc i)

abbrev pub gone : DeviceInfo → DeviceInfo
gone d = record d { status = "offline" }

abbrev pub swept : ℕ → ℕ → ℕ → DeviceInfo → DeviceInfo
swept now default_interval miss d =
    if d.status == "online" && silent now default_interval miss d.last_seen d.heartbeat_interval_s
    then gone d
    else d

abbrev pub each : (DeviceInfo → DeviceInfo) → Option DeviceInfo → Option DeviceInfo
each f none = none
each f (some d) = some (f d)

abbrev pub expect : Op → Presence → Presence
expect (beat now id p project) known =
    λ j. if id == j then some (present_or_new now id p project (known id)) else known j
expect (drop id) known = λ j. if id == j then each gone (known j) else known j
expect (sweep now default_interval miss) known =
    λ j. each (swept now default_interval miss) (known j)

abbrev pub expect_all : List Op → Presence → Presence
expect_all [] known = known
expect_all (op ∷ ops) known = expect_all ops (expect op known)

abbrev pub view : Registry → Presence
view reg = λ j. get j reg

-- Each entry is under its device's id, and no id stands twice.
abbrev Keyed : Registry → Type 0
Keyed [] = Unit
Keyed ((key, d) ∷ reg) = (d.device_id ≡ key) × (get key reg ≡ none) × Keyed reg

get-Keyed :
    (j : String) (d : DeviceInfo) (reg : Registry)
    → Keyed reg
    → get j reg ≡ some d
    → d.device_id ≡ j
unfolding get
get-Keyed j d [] h e = absurd (none≢some e)
get-Keyed j d ((key, w) ∷ reg) h e = elim (Bool-cases (key == j)) [
  | inl t ↦ let same : w ≡ d = some_inj (rw t at e) in cc (same, h.0, (eq_iff key j).0 t)
  | inr t ↦ get-Keyed j d reg h.2 (rw t at e)
]

put-Keyed :
    (id : String) (d : DeviceInfo) (reg : Registry)
    → d.device_id ≡ id
    → Keyed reg
    → Keyed (put id d reg)
unfolding put get
put-Keyed id d [] e h = (e, refl, tt)
put-Keyed id d ((key, w) ∷ reg) e h = elim (Bool-cases (key == id)) [
  | inl t ↦ rw t (e ∙ sym ((eq_iff key id).0 t), h.1, h.2)
  | inr t ↦ rw t (
    h.0,
    get-put_ne key id d reg (λ s. true≢false (sym ((eq_iff key id).1 (sym s)) ∙ t)) ∙ h.1,
    put-Keyed id d reg e h.2,
  )
]

interval-known_by :
    (now : ℕ) (p : Payload) (project : Option String) (interval : Option Interval) (d : DeviceInfo)
    → with_interval interval project (record d {
      status = or_default "online" p.status;
      last_seen = now;
      heartbeat_payload = some p;
    })
      ≡ (let (i, owner) = known_by interval project (d.heartbeat_interval_s, d.project_id) in
          record d {
            status = or_default "online" p.status;
            last_seen = now;
            heartbeat_payload = some p;
            heartbeat_interval_s = i;
            project_id = owner;
          })
unfolding with_interval or_kept truthy
interval-known_by now p project none d = ground arith
interval-known_by now p project (some (seconds i)) d = ground arith
interval-known_by now p project (some malformed) d = refl

heard-present :
    (now : ℕ) (id : String) (p : Payload) (project : Option String) (known : Option DeviceInfo)
    → heard now p project (known_or_new now id known) ≡ present_or_new now id p project known
unfolding heard known_or_new
heard-present now id p project none =
    interval-known_by now p project p.interval_s (known_or_new now id none)
heard-present now id p project (some d) = interval-known_by now p project p.interval_s d

with_interval_id :
    (interval : Option Interval) (project : Option String) (d : DeviceInfo)
    → (with_interval interval project d).device_id ≡ d.device_id
unfolding with_interval
with_interval_id none project d = refl
with_interval_id (some (seconds i)) project d = refl
with_interval_id (some malformed) project d = refl

heard_id :
    (now : ℕ) (p : Payload) (project : Option String) (d : DeviceInfo)
    → (heard now p project d).device_id ≡ d.device_id
unfolding heard
heard_id now p project d = with_interval_id p.interval_s project _

beaten_id :
    (now : ℕ) (id : String) (p : Payload) (project : Option String) (reg : Registry)
    → Keyed reg
    → (heard now p project (known_or_new now id (get id reg))).device_id ≡ id
unfolding known_or_new
beaten_id now id p project reg h =
    heard_id now p project (known_or_new now id (get id reg)) ∙ elim (Option-cases (get id reg)) [
      | inl e ↦ rw e refl
      | inr (d, e) ↦ rw e (get-Keyed id d reg h e)
    ]

view-set_offline :
    (id j : String) (reg : Registry)
    → get j (set_offline id reg) ≡ (if id == j then each gone (get j reg) else get j reg)
unfolding set_offline set_offline_at offline
view-set_offline id j reg = elim (Option-cases (get id reg)) [
  | inl e ↦ rw e (elim (Bool-cases (id == j)) [
    | inl t ↦
        let none_there : get j reg ≡ none = subst (λ k. get k reg ≡ none) ((eq_iff id j).0 t) e in
        rw (t, none_there) refl
    | inr t ↦ rw t refl
  ])
  | inr (d, e) ↦ rw e (elim (Bool-cases (id == j)) [
    | inl t ↦
        let there : get j reg ≡ some d = subst (λ k. get k reg ≡ some d) ((eq_iff id j).0 t) e in
        get-put j id (gone d) reg ∙ rw (t, there) refl
    | inr t ↦ get-put j id (gone d) reg ∙ rw t refl
  ])
]

-- Another device is left alone.
pub set_offline-apart :
    (id other : String) (reg : Registry)
    → id ≢ other
    → get other (set_offline id reg) ≡ get other reg
set_offline-apart id other reg h = elim (Bool-cases (id == other)) [
  | inl e ↦ absurd (h ((eq_iff id other).0 e))
  | inr e ↦ view-set_offline id other reg ∙ rw e refl
]

pub update_heartbeat-apart :
    (now : ℕ) (id other : String) (p : Payload) (project : Option String) (reg : Registry)
    → id ≢ other
    → get other (update_heartbeat now id p project reg) ≡ get other reg
unfolding update_heartbeat
update_heartbeat-apart now id other p project reg h =
    get-put_ne other id (heard now p project (known_or_new now id (get id reg))) reg h

set_offline-Keyed : (id : String) (reg : Registry) → Keyed reg → Keyed (set_offline id reg)
unfolding set_offline set_offline_at offline
set_offline-Keyed id reg h = elim (Option-cases (get id reg)) [
  | inl e ↦ rw e h
  | inr (d, e) ↦ rw e (put-Keyed id (gone d) reg (get-Keyed id d reg h e) h)
]

names : String → List DeviceInfo → Bool
names j ds = any (λ (d : DeviceInfo). d.device_id == j) ds

each-gone_twice : (o : Option DeviceInfo) → each gone (each gone o) ≡ each gone o
each-gone_twice none = refl
each-gone_twice (some d) = refl

view-mark :
    (j : String) (ds : List DeviceInfo) (reg : Registry)
    → get j (mark ds reg) ≡ (if names j ds then each gone (get j reg) else get j reg)
unfolding mark names
view-mark j [] reg = refl
view-mark j (d ∷ ds) reg = elim (Bool-cases (d.device_id == j)) [
  | inl t ↦ elim (Bool-cases (names j ds)) [
    | inl u ↦
        view-mark j ds (set_offline d.device_id reg)
        ∙ rw (u, view-set_offline d.device_id j reg, t) (each-gone_twice (get j reg))
    | inr u ↦
        view-mark j ds (set_offline d.device_id reg)
        ∙ rw (u, view-set_offline d.device_id j reg, t) refl
  ]
  | inr t ↦
      view-mark j ds (set_offline d.device_id reg) ∙ rw (view-set_offline d.device_id j reg, t) refl
]

mark-Keyed : (ds : List DeviceInfo) (reg : Registry) → Keyed reg → Keyed (mark ds reg)
unfolding mark
mark-Keyed [] reg h = h
mark-Keyed (d ∷ ds) reg h =
    mark-Keyed ds (set_offline d.device_id reg) (set_offline-Keyed d.device_id reg h)

passes : (DeviceInfo → Bool) → Option DeviceInfo → Bool
passes q none = false
passes q (some d) = q d

names-select :
    (q : DeviceInfo → Bool) (j : String) (reg : Registry)
    → Keyed reg
    → names j (select q (values reg)) ≡ passes q (get j reg)
unfolding names passes values get
names-select q j [] h = refl
names-select q j ((key, d) ∷ reg) h =
    let ih = names-select q j reg h.2 in
    elim (Bool-cases (key == j)) [
      | inl t ↦
          let none_later : get j reg ≡ none =
            subst (λ k. get k reg ≡ none) ((eq_iff key j).0 t) h.1 in
          elim (Bool-cases (q d)) [
            | inl u ↦ rw (t, u, h.0, t) refl
            | inr u ↦ rw (t, u) (ih ∙ rw none_later refl)
          ]
      | inr t ↦ elim (Bool-cases (q d)) [ inl u ↦ rw (t, u, h.0, t) ih | inr u ↦ rw (t, u) ih ]
    ]

swept_lem :
    (now default_interval miss : ℕ) (o : Option DeviceInfo)
    → (if passes (is_stale now default_interval miss) o then each gone o else o)
      ≡ each (swept now default_interval miss) o
unfolding passes is_stale
swept_lem now default_interval miss none = refl
swept_lem now default_interval miss (some d) = ground arith

apply-Keyed : (op : Op) (reg : Registry) → Keyed reg → Keyed (apply op reg)
unfolding apply update_heartbeat reap
apply-Keyed (beat now id p project) reg h =
    put-Keyed id (heard now p project (known_or_new now id (get id reg))) reg
      (beaten_id now id p project reg h) h
apply-Keyed (drop id) reg h = set_offline-Keyed id reg h
apply-Keyed (sweep now i miss) reg h = mark-Keyed (stale_online_devices now i miss reg) reg h

view-apply : (op : Op) (reg : Registry) → Keyed reg → view (apply op reg) ≡ expect op (view reg)
unfolding apply update_heartbeat reap stale_online_devices
view-apply (beat now id p project) reg h = fun_ext (λ j.
    get-put j id (heard now p project (known_or_new now id (get id reg))) reg
    ∙ rw (heard-present now id p project (get id reg)) refl)
view-apply (drop id) reg h = fun_ext (λ j. view-set_offline id j reg)
view-apply (sweep now i miss) reg h = fun_ext (λ j.
    view-mark j (select (is_stale now i miss) (values reg)) reg
    ∙ rw (names-select (is_stale now i miss) j reg h) (swept_lem now i miss (get j reg)))

view-apply_all :
    (ops : List Op) (reg : Registry)
    → Keyed reg
    → view (apply_all ops reg) ≡ expect_all ops (view reg)
unfolding apply_all
view-apply_all [] reg h = refl
view-apply_all (op ∷ ops) reg h =
    view-apply_all ops (apply op reg) (apply-Keyed op reg h)
    ∙ ap (expect_all ops) (view-apply op reg h)

-- From the empty registry, after any heartbeats, last wills and sweeps of the reaper, every look-up gives
-- what the table of devices gives: a beat writes one row, a last will takes one device offline, and a
-- sweep takes exactly the online devices offline that have been silent for longer than allowed.
pub apply_all-Refines : (ops : List Op) → view (apply_all ops []) ≡ expect_all ops (λ _. none)
unfolding get
apply_all-Refines ops = view-apply_all ops [] tt
