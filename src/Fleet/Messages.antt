-- ===== src/Fleet/Messages.antt =====
-- The JSON objects that devices publish, as the router and the registry read them, and what the
-- handlers ask of other services: nff_fleet/broker/router.py, nff_fleet/ota_result.py, nff_fleet/db.py.
-- A text field of another JSON type counts as absent; the interval is what `int` makes of its field.
use nff_core.Prelude.{
  String, Option, none, some, ℤ, ◌==◌, string_eq, if◌then◌else◌, Bool, true, false,
}

-- `int(interval)`: the number, also of a numeric text or a float, or malformed where it raises
pub data Interval : Type 0 where
  seconds : ℤ → Interval
  malformed : Interval

-- Does reading the field raise?
unfoldable pub raises : Option Interval → Bool
raises none = false
raises (some (seconds i)) = false
raises (some malformed) = true

pub record Payload : Type 0 where
  -- "type"
  pub kind : Option String
  pub status : Option String
  -- none where it is missing or null
  pub interval_s : Option Interval
  pub version : Option String
  pub stage : Option String
  pub reason : Option String
  pub progress : Option ℤ
  pub attempt : Option ℤ
  pub project_id : Option String
  -- every other field, as it was printed
  pub rest : String

-- What is published to a device's command topic
pub record Command : Type 0 where
  pub topic : String
  pub body : String

pub data Effect : Type 0 where
  -- db.upsert_device without and with telemetry
  mark_offline : String → String → Effect
  upsert_device : String → Payload → Effect
  publish : Command → Effect
  ingest_crash : String → Payload → Effect
  claim_enrollment_by_device : String → Effect
  record_enrollment : String → String → Payload → Effect
  -- device, status, version, reason
  post_ota_result : String → String → String → Option String → Effect
  -- device, version, stage, progress, attempt
  post_ota_progress : String → String → String → Option ℤ → Option ℤ → Effect

-- Python's truth of a text that may be missing
unfoldable pub truthy : Option String → Option String
truthy none = none
truthy (some s) = if s == "" then none else some s

unfoldable pub or_default : String → Option String → String
or_default d none = d
or_default d (some s) = s
