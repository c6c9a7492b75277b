-- ===== src/Fleet/Examples.antt =====
-- Runs of the fleet at concrete inputs.
use nff_core.Prelude.{
  none, some, List, [], ◌∷◌, ◌≡◌, refl, get, put, pop, pos, Among, unequal, some_inj,
}
use nff_core.Fleet.Messages.{Payload, seconds, malformed, Command, publish}
use nff_core.Fleet.Registry.Refines.{
  Op, beat, drop, sweep, apply_all, view, expect_all, apply_all-Refines,
}
use nff_core.Fleet.Telemetry.{last_forward, forward_ota_progress}
use nff_core.Fleet.Telemetry.Spacing.{Tick, forwarded, downloads, Spaced, forwarded-Spaced}
use nff_core.Fleet.Router.{
  waiting, done, Fleet, begin_command, end_command, handle_message, Message, route,
}
use nff_core.Fleet.Router.Isolation.{held, handle_message-apart}
use nff_core.Fleet.Router.Answers.{
  device_topic, handle_message_answers, route_answered, handle_message_redelivers,
}

abbrev blank : Payload
blank = record {
  kind = none;
  status = none;
  interval_s = none;
  version = none;
  stage = none;
  reason = none;
  progress = none;
  attempt = none;
  project_id = none;
  rest = "";
}

abbrev steady : Payload
steady = record blank { interval_s = some (seconds (pos 10)) }

abbrev tick : Payload
tick = record blank {
  kind = some "ota_progress";
  version = some "1.2.0";
  stage = some "downloading";
  progress = some (pos 40);
}

abbrev ops : List Op
ops =
    beat 1000 "esp-1" steady (some "home")
    ∷ beat 2000 "esp-2" blank (some "home")
    ∷ beat 2500 "esp-1" (record blank { interval_s = some malformed }) (some "home")
    ∷ drop "esp-3"
    ∷ sweep 30000 30 2000
    ∷ []

apply_all-Refines_example : view (apply_all ops []) ≡ expect_all ops (λ _. none)
apply_all-Refines_example = apply_all-Refines ops

abbrev ticks : List Tick
ticks =
    record { at = 5000; device = "esp-1"; payload = tick }
    ∷ record { at = 5600; device = "esp-1"; payload = tick }
    ∷ record { at = 6100; device = "esp-1"; payload = tick }
    ∷ []

two_go_out : downloads "esp-1" (forwarded "http://ota" ticks []) ≡ 5000 ∷ 6100 ∷ []
unfolding downloads forwarded forward_ota_progress get put
two_go_out = refl

forwarded-Spaced_example :
    Spaced (last_forward (get "esp-1" [])) (downloads "esp-1" (forwarded "http://ota" ticks []))
forwarded-Spaced_example = forwarded-Spaced "http://ota" "esp-1" ticks []

abbrev ota : Command
ota = record { topic = "nff/home/devices/esp-1/cmd"; body = "{\"action\":\"ota\"}" }

abbrev idle : Fleet
idle = record {
  registry = [];
  crashes = [];
  pending = [];
  redeliver = [];
  bootstrap = [];
  last_progress = [];
}

abbrev sending : Fleet
sending = record idle { pending = ("esp-1", waiting) ∷ []; redeliver = ("esp-1", ota) ∷ [] }

begun : begin_command "esp-1" ota idle ≡ sending
unfolding begin_command put
begun = refl

ended : end_command "esp-1" sending ≡ idle
unfolding end_command pop
ended = refl

abbrev answer : Payload
answer = record blank { kind = some "ota_started" }

handle_message-apart_example :
    held "esp-1"
      (handle_message 7 "http://ota"
        (device_topic "home" "esp-2" "crash" [])
        (some blank)
        sending).0
    ≡ held "esp-1" sending
handle_message-apart_example =
    handle_message-apart 7 "http://ota" "esp-1" (device_topic "home" "esp-2" "crash" [])
      (some blank) sending (λ h. unequal "esp-2" "esp-1" refl (some_inj h))

handle_message_answers_example :
    get "esp-1"
      (handle_message 7 "http://ota"
        (device_topic "home" "esp-1" "response" [])
        (some answer)
        sending).0.pending
    ≡ some (done answer)
unfolding get
handle_message_answers_example =
    handle_message_answers 7 "http://ota" "home" "esp-1" "response" [] answer sending refl refl

handle_message_redelivers_example :
    Among
      (publish ota)
      (handle_message 7 "http://ota"
        (device_topic "home" "esp-1" "heartbeat" [])
        (some steady)
        sending).1
unfolding get
handle_message_redelivers_example =
    handle_message_redelivers 7 "http://ota" "home" "esp-1" "heartbeat" [] steady ota sending refl
      refl refl refl

abbrev answered : Fleet
answered = record sending { pending = ("esp-1", done answer) ∷ [] }

abbrev more_messages : List Message
more_messages =
    record { at = 9; topic = device_topic "home" "esp-1" "response" []; payload = some blank }
    ∷ record { at = 10; topic = "nff" ∷ []; payload = none }
    ∷ []

route_answered_example :
    get "esp-1" (route "http://ota" more_messages answered).pending ≡ some (done answer)
unfolding get
route_answered_example = route_answered "esp-1" answer "http://ota" more_messages answered refl
