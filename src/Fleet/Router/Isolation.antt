-- ===== src/Fleet/Router/Isolation.antt =====
-- A device's messages reach nothing of another device.
use nff_core.Prelude.{
  ℕ, ◌&&◌, Option, none, some, List, [], ◌∷◌, String, ◌==◌, string_eq, arith, Dict, get, ◌≡◌, ◌≢◌,
  refl, ap, ◌∙◌, get-put_ne, get_elem?, Bool-cases, Option-cases, inl, inr,
}
use nff_core.Fleet.Messages.{Payload, Command, raises}
use nff_core.Fleet.Registry.{DeviceInfo, update_heartbeat}
use nff_core.Fleet.Registry.Refines.{set_offline-apart, update_heartbeat-apart}
use nff_core.Fleet.Telemetry.Spacing.{forward_ota_progress-apart}
use nff_core.Fleet.Router.{
  Future, waiting, done, Fleet, resolve, resolved, is_offline, is_kind, progressed, heartbeat,
  response, crash, device_message, bootstrap_message, dispatch, handle_message,
}

-- What the fleet holds of one device
pub record Held : Type 0 where
  pub info : Option DeviceInfo
  pub crash_report : Option Payload
  pub command : Option Future
  pub to_redeliver : Option Command
  pub last_tick : Option ℕ

abbrev pub held : String → Fleet → Held
held id s = record {
  info = get id s.registry;
  crash_report = get id s.crashes;
  command = get id s.pending;
  to_redeliver = get id s.redeliver;
  last_tick = get id s.last_progress;
}

module _ (id other : String) (apart : id ≢ other) where
  resolve-apart : (p : Payload) (d : Dict Future) → get other (resolve id p d) ≡ get other d
  unfolding resolve resolved
  resolve-apart p d = elim (Option-cases (get id d)) [
    | inl e ↦ rw e refl
    | inr (waiting, e) ↦ rw e (get-put_ne other id (done p) d apart)
    | inr (done q, e) ↦ rw e refl
  ]

  with_info : Fleet → Option DeviceInfo → Held
  with_info s info = record (held other s) { info = info }

  with_command : Fleet → Option Future → Held
  with_command s command = record (held other s) { command = command }

  with_tick : Fleet → Option ℕ → Held
  with_tick s tick = record (held other s) { last_tick = tick }

  with_crash : Fleet → Option Payload → Held
  with_crash s report = record (held other s) { crash_report = report }

  heartbeat-apart :
      (now : ℕ) (project : String) (p : Payload) (s : Fleet)
      → held other (heartbeat now project id p s).0 ≡ held other s
  unfolding heartbeat with_info
  heartbeat-apart now project p s =
      let reg = update_heartbeat now id p (some project) s.registry in
      let beaten : get other reg ≡ get other s.registry =
        update_heartbeat-apart now id other p (some project) s.registry apart in
      elim (Bool-cases (raises p.interval_s)) [
        | inl bad ↦ rw bad (ap (with_info s) beaten)
        | inr good ↦ elim (Bool-cases (is_offline p.status)) [
          | inl e ↦ rw (good, e) (ap (with_info s) (set_offline-apart id other reg apart ∙ beaten))
          | inr e ↦ rw (good, e) (ap (with_info s) beaten)
        ]
      ]

  response-apart :
      (now : ℕ) (url : String) (p : Payload) (s : Fleet)
      → held other (response now url id p s).0 ≡ held other s
  unfolding response progressed with_tick with_command
  response-apart now url p s = elim (Bool-cases (is_kind "ota_result" p.kind)) [
    | inl e ↦ rw e refl
    | inr e ↦ elim (Bool-cases (is_kind "ota_progress" p.kind)) [
      | inl t ↦
          rw (e, t)
            (ap (with_tick s) (forward_ota_progress-apart now url id other p s.last_progress apart))
      | inr t ↦ rw (e, t) (ap (with_command s) (resolve-apart p s.pending))
    ]
  ]

  device_message-apart :
      (now : ℕ) (url project kind : String) (p : Payload) (s : Fleet)
      → held other (device_message now url project id kind p s).0 ≡ held other s
  unfolding device_message crash with_crash
  device_message-apart now url project kind p s = elim (Bool-cases (kind == "heartbeat")) [
    | inl e ↦ rw e (heartbeat-apart now project p s)
    | inr e ↦ elim (Bool-cases (kind == "response")) [
      | inl t ↦ rw (e, t) (response-apart now url p s)
      | inr t ↦ elim (Bool-cases (kind == "crash")) [
        | inl u ↦ rw (e, t, u) (ap (with_crash s) (get-put_ne other id _ s.crashes apart))
        | inr u ↦ rw (e, t, u) refl
      ]
    ]
  ]

bootstrap-apart :
    (other batch hwid kind : String) (p : Payload) (s : Fleet)
    → held other (bootstrap_message batch hwid kind p s).0 ≡ held other s
unfolding bootstrap_message
bootstrap-apart other batch hwid kind p s = ground arith

-- A message on any topic, whatever its payload, changes nothing that the fleet holds of a device that is not
-- the topic's fourth segment: not its entry in the registry, its last crash, its command in flight, the
-- message to redeliver to it or the time of its last progress.
pub handle_message-apart :
    (now : ℕ) (url other : String) (topic : List String) (p : Option Payload) (s : Fleet)
    → get_elem? topic 3 ≢ some other
    → held other (handle_message now url topic p s).0 ≡ held other s
unfolding handle_message dispatch
handle_message-apart now url other topic none s h = refl
handle_message-apart now url other (root ∷ b ∷ c ∷ id ∷ kind ∷ more) (some p) s h =
    elim (Bool-cases (root == "nff" && b == "_bootstrap")) [
      | inl e ↦ rw e (bootstrap-apart other c id kind p s)
      | inr e ↦ elim (Bool-cases (root == "nff" && c == "devices")) [
        | inl t ↦ rw (e, t) (device_message-apart id other (λ q. h (ap some q)) now url b kind p s)
        | inr t ↦ rw (e, t) refl
      ]
    ]
handle_message-apart now url other [] (some p) s h = refl
handle_message-apart now url other (a ∷ []) (some p) s h = refl
handle_message-apart now url other (a ∷ b ∷ []) (some p) s h = refl
handle_message-apart now url other (a ∷ b ∷ c ∷ []) (some p) s h = refl
handle_message-apart now url other (a ∷ b ∷ c ∷ d ∷ []) (some p) s h = refl
