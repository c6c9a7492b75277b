-- ===== src/Fleet/Router.antt =====
-- The dispatch of device messages and the commands in flight: nff_fleet/broker/router.py and the
-- bookkeeping of nff_fleet/commands.py. A topic is the list of its segments. The connection to the broker,
-- its reconnection and the audit log are left out, and a failure of a service that the handler asks is
-- not a state of the model: the loop logs it and goes on.
pub mod Isolation
pub mod Answers
use nff_core.Prelude.{
  ℕ, Bool, true, false, not, ◌&&◌, ◌||◌, Option, none, some, List, [], ◌∷◌, ◌++◌, String, ◌==◌,
  string_eq, if◌then◌else◌, Dict, get, put, pop,
}
use nff_core.Fleet.Messages.{
  raises, Payload, Command, Effect, mark_offline, upsert_device, publish, ingest_crash,
  claim_enrollment_by_device, record_enrollment,
}
use nff_core.Fleet.Registry.{DeviceInfo, Registry, update_heartbeat, set_offline}
use nff_core.Fleet.Telemetry.{forward_ota_result, forward_ota_progress}

-- An `asyncio.Future` of a command
pub data Future : Type 0 where
  waiting : Future
  done : Payload → Future

pub record Fleet : Type 0 where
  pub registry : Registry
  -- `_crash_cache`, `_pending`, `_redeliver`, `_bootstrap_pending` and `_last_progress_forward`
  pub crashes : Dict Payload
  pub pending : Dict Future
  pub redeliver : Dict Command
  pub bootstrap : Dict Future
  pub last_progress : Dict ℕ

resolved : String → Payload → Option Future → Dict Future → Dict Future
resolved key payload (some waiting) futures = put key (done payload) futures
resolved key payload _ futures = futures

-- `resolve_response` and `resolve_bootstrap_response`
unfoldable pub resolve : String → Payload → Dict Future → Dict Future
unfolding resolved
resolve key payload futures = resolved key payload (get key futures) futures

-- send_command up to its first publish, which it makes itself, and its `finally`
unfoldable pub begin_command : String → Command → Fleet → Fleet
begin_command id command s = record s {
  pending = put id waiting s.pending;
  redeliver = put id command s.redeliver;
}

unfoldable pub end_command : String → Fleet → Fleet
end_command id s = record s { pending = pop id s.pending; redeliver = pop id s.redeliver }

redelivery : Option Command → Option Future → List Effect
redelivery none future = []
redelivery (some command) (some (done answer)) = []
redelivery (some command) (some waiting) = publish command ∷ []
redelivery (some command) none = publish command ∷ []

unfoldable pub maybe_redeliver : String → Fleet → List Effect
unfolding redelivery
maybe_redeliver id s = redelivery (get id s.redeliver) (get id s.pending)

is_online : Option DeviceInfo → Bool
is_online none = false
is_online (some info) = info.status == "online"

is_offline : Option String → Bool
is_offline none = false
is_offline (some status) = status == "offline"

-- `{**payload, "project_id": project_id}`
in_project : String → Payload → Payload
in_project project p = record p { project_id = some project }

-- A malformed interval raises in the registry, and the loop goes on with the next message.
heartbeat : ℕ → String → String → Payload → Fleet → Fleet × List Effect
unfolding is_online is_offline in_project
heartbeat now project id p s =
    let reg = update_heartbeat now id p (some project) s.registry in
    if raises p.interval_s
    then (record s { registry = reg }, [])
    else if is_offline p.status
    then (record s { registry = set_offline id reg }, mark_offline id project ∷ [])
    else (
      record s { registry = reg },
      (upsert_device id (in_project project p) ∷ maybe_redeliver id s)
          ++ (if is_online (get id s.registry) then [] else claim_enrollment_by_device id ∷ []),
    )

is_kind : String → Option String → Bool
is_kind kind none = false
is_kind kind (some k) = k == kind

progressed : Dict ℕ × List Effect → Fleet → Fleet × List Effect
progressed (last, effects) s = (record s { last_progress = last }, effects)

response : ℕ → String → String → Payload → Fleet → Fleet × List Effect
unfolding is_kind progressed
response now ota_url id p s =
    if is_kind "ota_result" p.kind
    then (s, forward_ota_result ota_url id p)
    else if is_kind "ota_progress" p.kind
    then progressed (forward_ota_progress now ota_url id p s.last_progress) s
    else (record s { pending = resolve id p s.pending }, [])

crash : String → String → Payload → Fleet → Fleet × List Effect
unfolding in_project
crash project id p s = (
  record s { crashes = put id (in_project project p) s.crashes },
  ingest_crash id (in_project project p) ∷ maybe_redeliver id s,
)

device_message : ℕ → String → String → String → String → Payload → Fleet → Fleet × List Effect
unfolding heartbeat response crash
device_message now ota_url project id kind p s =
    if kind == "heartbeat"
    then heartbeat now project id p s
    else if kind == "response"
    then response now ota_url id p s
    else if kind == "crash"
    then crash project id p s
    else (s, [])

bootstrap_message : String → String → String → Payload → Fleet → Fleet × List Effect
bootstrap_message batch hwid kind p s =
    if kind == "announce"
    then (s, record_enrollment batch hwid p ∷ [])
    else if kind == "response"
    then (record s { bootstrap = resolve hwid p s.bootstrap }, [])
    else (s, [])

dispatch : ℕ → String → List String → Payload → Fleet → Fleet × List Effect
unfolding device_message bootstrap_message
dispatch now ota_url (root ∷ b ∷ c ∷ id ∷ kind ∷ more) p s =
    if root == "nff" && b == "_bootstrap"
    then bootstrap_message c id kind p s
    else if root == "nff" && c == "devices"
    then device_message now ota_url b id kind p s
    else (s, [])
dispatch now ota_url _ p s = (s, [])

-- A payload that does not parse is `none`.
unfoldable pub handle_message :
    ℕ → String → List String → Option Payload → Fleet → Fleet × List Effect
unfolding dispatch
handle_message now ota_url topic none s = (s, [])
handle_message now ota_url topic (some p) s = dispatch now ota_url topic p s

pub record Message : Type 0 where
  pub at : ℕ
  pub topic : List String
  pub payload : Option Payload

-- The messages that the router loop takes, one after another
unfoldable pub route : String → List Message → Fleet → Fleet
route ota_url [] s = s
route ota_url (m ∷ ms) s = route ota_url ms (handle_message m.at ota_url m.topic m.payload s).0
