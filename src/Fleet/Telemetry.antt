-- ===== src/Fleet/Telemetry.antt =====
-- What the fleet passes on to nff-ota: the results of updates and the progress of downloads,
-- nff_fleet/ota_result.py. Times are milliseconds of the monotonic clock.
pub mod Spacing
use nff_core.Prelude.{
  ℕ, ◌+◌, ltb, Bool, true, false, Option, none, some, List, [], ◌∷◌, String, ◌==◌, string_eq,
  if◌then◌else◌, Dict, get, put,
}
use nff_core.Fleet.Messages.{Payload, Effect, post_ota_result, post_ota_progress, truthy}

-- `_PROGRESS_MIN_INTERVAL_S`
abbrev pub progress_min_interval : ℕ
progress_min_interval = 1000

result_of : String → Option String → Option String → Option String → List Effect
unfolding truthy
result_of id (some status) (some version) reason =
    post_ota_result id status version (truthy reason) ∷ []
result_of id _ _ reason = []

unfoldable pub forward_ota_result : String → String → Payload → List Effect
unfolding result_of truthy
forward_ota_result ota_url id p =
    if ota_url == "" then [] else result_of id (truthy p.status) (truthy p.version) p.reason

-- `_last_progress_forward.get(device_id, 0.0)`
pub last_forward : Option ℕ → ℕ
last_forward none = 0
last_forward (some t) = t

is_throttled : ℕ → String → String → Dict ℕ → Bool
unfolding last_forward
is_throttled now id stage last =
    if stage == "downloading"
    then ltb now (last_forward (get id last) + progress_min_interval)
    else false

stamped : ℕ → String → String → Dict ℕ → Dict ℕ
stamped now id stage last = if stage == "downloading" then put id now last else last

progress_of : ℕ → String → Payload → Option String → Option String → Dict ℕ → Dict ℕ × List Effect
unfolding is_throttled stamped
progress_of now id p (some version) (some stage) last =
    if is_throttled now id stage last
    then (last, [])
    else (stamped now id stage last, post_ota_progress id version stage p.progress p.attempt ∷ [])
progress_of now id p _ _ last = (last, [])

unfoldable pub forward_ota_progress : ℕ → String → String → Payload → Dict ℕ → Dict ℕ × List Effect
unfolding progress_of truthy
forward_ota_progress now ota_url id p last =
    if ota_url == ""
    then (last, [])
    else progress_of now id p (truthy p.version) (truthy p.stage) last
