-- ===== src/Vehicle/Tests.antt =====
-- vehicle/kernel/handlers and vehicle/kernel/services: the theorems at small inputs.
use steeleagle.Prelude.{◌≡◌, refl, true, some, [], ◌∷◌, map, mem, false}
use steeleagle.Law.Authority.{dc_server, failsafe, is_state}
use steeleagle.Law.Samples.{kernel, standing}
use steeleagle.Vehicle.Remote.{CommandRequest, Loop, silent, rounds, is_late, after_failsafe}
use steeleagle.Vehicle.Remote.Silence.{silence-once}
use steeleagle.Vehicle.Sinks.{Sinks, Request, add_datasinks, remove_datasinks, handles}
use steeleagle.Vehicle.Sinks.Synced.{replay, handles-replay}

-- The loop, last spoken to at 1000 milliseconds, under remote control.
abbrev listening : Loop kernel
listening = record {
  authority = standing (some "REMOTE");
  last_manual_command_ts = some 1000;
  pending = [];
  alive = true;
}

silence-once_example :
    rounds kernel 500 (map silent (1200 ∷ 1600 ∷ 2400 ∷ [])) listening
    ≡ after_failsafe kernel (failsafe kernel dc_server (standing (some "REMOTE"))) listening
unfolding is_late is_state
silence-once_example = silence-once kernel 500 (1200 ∷ 1600 ∷ 2400 ∷ []) listening refl

abbrev land : CommandRequest kernel
land = record {
  sequence_number = 7;
  identity = "server";
  method_name = "Control.Land";
  request = "now";
}

abbrev one_sink : Sinks
one_sink = record {
  datasinks = "local:detector" ∷ [];
  remote_producers = [] ∷ [];
  local_producers = ("detector" ∷ []) ∷ [];
}

abbrev drop_sink : Request
drop_sink = remove_datasinks (record { id = "detector"; location = true } ∷ [])

abbrev add_sink : Request
add_sink = add_datasinks (record { id = "map"; location = false } ∷ [])

handles-replay_example :
    mem "remote:map" (handles (drop_sink ∷ add_sink ∷ []) one_sink).datasinks
    ≡ replay (drop_sink ∷ add_sink ∷ []) (λ y. mem y one_sink.datasinks) "remote:map"
handles-replay_example = handles-replay (drop_sink ∷ add_sink ∷ []) one_sink "remote:map"
