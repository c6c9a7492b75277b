-- ===== src/Fleet/Router/Answers.antt =====
-- What answers a command in flight, and what is sent again.
use nff_core.Prelude.{
  ℕ, Bool, true, false, not, ◌&&◌, ◌||◌, Option, none, some, List, [], ◌∷◌, ◌++◌, String, ◌==◌,
  string_eq, if◌then◌else◌, arith, Dict, get, ◌≡◌, refl, subst, ap, ◌∙◌, get-put, get-put_self,
  Bool-cases, Option-cases, inl, inr, eq_iff, Among,
}
use nff_core.Fleet.Messages.{
  Payload, Interval, seconds, malformed, raises, Command, Effect, publish,
}
use nff_core.Fleet.Router.{
  Future, waiting, done, Fleet, resolve, resolved, redelivery, maybe_redeliver, is_offline, is_kind,
  progressed, heartbeat, response, crash, device_message, bootstrap_message, dispatch,
  handle_message, Message, route,
}

-- Progress and results of updates come on the topic of the answers, and answer nothing.
abbrev pub is_telemetry : Option String → Bool
is_telemetry none = false
is_telemetry (some kind) = kind == "ota_progress" || kind == "ota_result"

abbrev pub device_topic : String → String → String → List String → List String
device_topic project id kind more = "nff" ∷ project ∷ "devices" ∷ id ∷ kind ∷ more

telemetry_lem :
    (kind : Option String)
    → is_telemetry kind ≡ (is_kind "ota_progress" kind || is_kind "ota_result" kind)
unfolding is_kind
telemetry_lem none = refl
telemetry_lem (some kind) = refl

heartbeat-pending :
    (now : ℕ) (project id : String) (p : Payload) (s : Fleet)
    → (heartbeat now project id p s).0.pending ≡ s.pending
unfolding heartbeat
heartbeat-pending now project id p s = elim (Bool-cases (raises p.interval_s)) [
  | inl bad ↦ rw bad refl
  | inr good ↦ elim (Bool-cases (is_offline p.status)) [
    | inl e ↦ rw (good, e) refl
    | inr e ↦ rw (good, e) refl
  ]
]

resolve-waiting :
    (id : String) (p : Payload) (d : Dict Future)
    → get id d ≡ some waiting
    → get id (resolve id p d) ≡ some (done p)
unfolding resolve resolved
resolve-waiting id p d w = rw w (get-put_self id (done p) d)

response-pending :
    (now : ℕ) (url id : String) (p : Payload) (s : Fleet)
    → (response now url id p s).0.pending
      ≡ (if is_telemetry p.kind then s.pending else resolve id p s.pending)
unfolding response progressed
response-pending now url id p s =
    rw (telemetry_lem p.kind) (elim (Bool-cases (is_kind "ota_result" p.kind)) [
      | inl e ↦ elim (Bool-cases (is_kind "ota_progress" p.kind)) [
        | inl t ↦ rw (e, t) refl
        | inr t ↦ rw (e, t) refl
      ]
      | inr e ↦ elim (Bool-cases (is_kind "ota_progress" p.kind)) [
        | inl t ↦ rw (e, t) refl
        | inr t ↦ rw (e, t) refl
      ]
    ])

response_answers :
    (now : ℕ) (url id : String) (p : Payload) (s : Fleet)
    → get id s.pending ≡ some waiting
    → get id (response now url id p s).0.pending
      ≡ some (if is_telemetry p.kind then waiting else done p)
response_answers now url id p s w =
    rw (response-pending now url id p s) (elim (Bool-cases (is_telemetry p.kind)) [
      | inl e ↦ rw e w
      | inr e ↦ rw e (resolve-waiting id p s.pending w)
    ])

-- A message of a device answers its command in flight exactly if it is on the response topic and no
-- progress or result of an update; it then answers with its own payload. After any other message of the
-- device the command still waits. The project is not the reserved one.
pub handle_message_answers :
    (now : ℕ) (url project id kind : String) (more : List String) (p : Payload) (s : Fleet)
    → (project == "_bootstrap") ≡ false
    → get id s.pending ≡ some waiting
    → get id (handle_message now url (device_topic project id kind more) (some p) s).0.pending
      ≡ some (if kind == "response" && not (is_telemetry p.kind) then done p else waiting)
unfolding handle_message dispatch device_message crash
handle_message_answers now url project id kind more p s tenant w =
    rw tenant (elim (Bool-cases (kind == "heartbeat")) [
      | inl e ↦ rw (e, (eq_iff kind "heartbeat").0 e, heartbeat-pending now project id p s) w
      | inr e ↦ elim (Bool-cases (kind == "response")) [
        | inl t ↦ elim (Bool-cases (is_telemetry p.kind)) [
          | inl u ↦ rw (e, t, u) (response_answers now url id p s w ∙ rw u refl)
          | inr u ↦ rw (e, t, u) (response_answers now url id p s w ∙ rw u refl)
        ]
        | inr t ↦ elim (Bool-cases (kind == "crash")) [
          | inl u ↦ rw (e, t, u) w
          | inr u ↦ rw (e, t, u) w
        ]
      ]
    ])

resolve_done :
    (id key : String) (p q : Payload) (d : Dict Future)
    → get id d ≡ some (done q)
    → get id (resolve key p d) ≡ some (done q)
unfolding resolve resolved
resolve_done id key p q d h = elim (Option-cases (get key d)) [
  | inl e ↦ rw e h
  | inr (done r, e) ↦ rw e h
  | inr (waiting, e) ↦ rw e (elim (Bool-cases (key == id)) [
    | inl t ↦ absurd (ground (arith, ap (λ k. get k d) ((eq_iff key id).0 t)))
    | inr t ↦ get-put id key (done p) d ∙ rw t h
  ])
]

module _ (id : String) (q : Payload) where
  device_message_done :
      (now : ℕ) (url project key kind : String) (p : Payload) (s : Fleet)
      → get id s.pending ≡ some (done q)
      → get id (device_message now url project key kind p s).0.pending ≡ some (done q)
  unfolding device_message crash
  device_message_done now url project key kind p s h = elim (Bool-cases (kind == "heartbeat")) [
    | inl e ↦ rw (e, heartbeat-pending now project key p s) h
    | inr e ↦ elim (Bool-cases (kind == "response")) [
      | inl t ↦
          rw (e, t, response-pending now url key p s)
            (elim (Bool-cases (is_telemetry p.kind)) [
              | inl u ↦ rw u h
              | inr u ↦ rw u (resolve_done id key p q s.pending h)
            ])
      | inr t ↦ elim (Bool-cases (kind == "crash")) [
        | inl u ↦ rw (e, t, u) h
        | inr u ↦ rw (e, t, u) h
      ]
    ]
  ]

  bootstrap_message_done :
      (batch key kind : String) (p : Payload) (s : Fleet)
      → get id s.pending ≡ some (done q)
      → get id (bootstrap_message batch key kind p s).0.pending ≡ some (done q)
  unfolding bootstrap_message
  bootstrap_message_done batch key kind p s h = ground arith

  handle_message_done :
      (now : ℕ) (url : String) (topic : List String) (p : Option Payload) (s : Fleet)
      → get id s.pending ≡ some (done q)
      → get id (handle_message now url topic p s).0.pending ≡ some (done q)
  unfolding handle_message dispatch
  handle_message_done now url topic none s h = h
  handle_message_done now url (root ∷ b ∷ c ∷ key ∷ kind ∷ more) (some p) s h =
      elim (Bool-cases (root == "nff" && b == "_bootstrap")) [
        | inl e ↦ rw e (bootstrap_message_done c key kind p s h)
        | inr e ↦ elim (Bool-cases (root == "nff" && c == "devices")) [
          | inl t ↦ rw (e, t) (device_message_done now url b key kind p s h)
          | inr t ↦ rw (e, t) h
        ]
      ]
  handle_message_done now url [] (some p) s h = h
  handle_message_done now url (a ∷ []) (some p) s h = h
  handle_message_done now url (a ∷ b ∷ []) (some p) s h = h
  handle_message_done now url (a ∷ b ∷ c ∷ []) (some p) s h = h
  handle_message_done now url (a ∷ b ∷ c ∷ d ∷ []) (some p) s h = h

  -- The first answer of a command stands: no later messages, of whatever devices, change it.
  pub route_answered :
      (url : String) (ms : List Message) (s : Fleet)
      → get id s.pending ≡ some (done q)
      → get id (route url ms s).pending ≡ some (done q)
  unfolding route
  route_answered url [] s h = h
  route_answered url (m ∷ ms) s h =
      route_answered url ms (handle_message m.at url m.topic m.payload s).0
        (handle_message_done m.at url m.topic m.payload s h)

-- A sign that the device is connected right now: a crash report, or a heartbeat that is not its last will and
-- whose interval is a number, or missing.
abbrev pub is_readable : Option Interval → Bool
is_readable none = true
is_readable (some (seconds i)) = true
is_readable (some malformed) = false

abbrev pub is_last_will : Option String → Bool
is_last_will none = false
is_last_will (some status) = status == "offline"

abbrev pub is_sign_of_life : String → Payload → Bool
is_sign_of_life kind p =
    (kind == "heartbeat" && (is_readable p.interval_s && not (is_last_will p.status)))
    || kind == "crash"

Among-front : (e : Effect) (xs ys : List Effect) → Among e xs → Among e (xs ++ ys)
Among-front e [] ys m = absurd m
Among-front e (x ∷ xs) ys (inl s) = inl s
Among-front e (x ∷ xs) ys (inr m) = inr (Among-front e xs ys m)

sent_again :
    (id : String) (c : Command) (s : Fleet)
    → get id s.pending ≡ some waiting
    → get id s.redeliver ≡ some c
    → Among (publish c) (maybe_redeliver id s)
unfolding maybe_redeliver redelivery
sent_again id c s w r = rw (r, w) (inl refl)

both : (a b : Bool) → (a && b) ≡ true → (a ≡ true) × (b ≡ true)
both a b h = ground arith

unnegated : (a : Bool) → not a ≡ true → a ≡ false
unnegated a h = ground arith

beat_alive :
    (kind : String) (b : Bool)
    → kind ≡ "heartbeat"
    → ((kind == "heartbeat" && b) || kind == "crash") ≡ true
    → b ≡ true
beat_alive kind b e h = beaten b (subst (λ k. ((k == "heartbeat" && b) || k == "crash") ≡ true) e h)
  where
    beaten : (c : Bool) → ((true && c) || false) ≡ true → c ≡ true
    beaten true k = refl
    beaten false k = cc

readable_false : (i : Option Interval) → is_readable i ≡ true → raises i ≡ false
unfolding raises
readable_false none h = refl
readable_false (some (seconds i)) h = refl
readable_false (some malformed) h = cc

offline_lem : (o : Option String) → is_offline o ≡ is_last_will o
unfolding is_offline
offline_lem none = refl
offline_lem (some status) = refl

heartbeat_redelivers :
    (now : ℕ) (project id : String) (p : Payload) (c : Command) (s : Fleet)
    → (is_readable p.interval_s && not (is_last_will p.status)) ≡ true
    → get id s.pending ≡ some waiting
    → get id s.redeliver ≡ some c
    → Among (publish c) (heartbeat now project id p s).1
unfolding heartbeat
heartbeat_redelivers now project id p c s alive w r =
    let good : raises p.interval_s ≡ false =
      readable_false p.interval_s (both (is_readable p.interval_s) _ alive).0 in
    let up : is_offline p.status ≡ false =
      offline_lem p.status
      ∙ unnegated (is_last_will p.status) (both (is_readable p.interval_s) _ alive).1 in
    rw (good, up) (inr (Among-front (publish c) (maybe_redeliver id s) _ (sent_again id c s w r)))

-- While a command waits for its answer, every sign of life of its device, a crash report or a heartbeat that is
-- not its last will and whose interval, where it has one, is a number, sends it again. The project is not the
-- reserved one.
pub handle_message_redelivers :
    (now : ℕ) (url project id kind : String) (more : List String) (p : Payload) (c : Command)
    (s : Fleet)
    → (project == "_bootstrap") ≡ false
    → is_sign_of_life kind p ≡ true
    → get id s.pending ≡ some waiting
    → get id s.redeliver ≡ some c
    → Among (publish c) (handle_message now url (device_topic project id kind more) (some p) s).1
unfolding handle_message dispatch device_message crash
handle_message_redelivers now url project id kind more p c s tenant alive w r =
    rw tenant (elim (Bool-cases (kind == "heartbeat")) [
      | inl e ↦ rw e (
          heartbeat_redelivers now project id p c s
            (beat_alive kind (is_readable p.interval_s && not (is_last_will p.status))
              ((eq_iff kind "heartbeat").0 e) alive)
            w r)
      | inr e ↦
          let crashed : (kind == "crash") ≡ true = rw e at alive in
          rw (e, (eq_iff kind "crash").0 crashed) (inr (sent_again id c s w r))
    ])

-- A heartbeat with a malformed interval sends nothing again, whatever waits.
pub malformed_sends_nothing :
    (now : ℕ) (url project id : String) (more : List String) (p : Payload) (s : Fleet)
    → (project == "_bootstrap") ≡ false
    → p.interval_s ≡ some malformed
    → (handle_message now url (device_topic project id "heartbeat" more) (some p) s).1 ≡ []
unfolding handle_message dispatch device_message heartbeat raises
malformed_sends_nothing now url project id more p s tenant bad = rw (tenant, bad) refl
