-- ===== src/Vehicle/KernelTests.antt =====
-- The messages of a vehicle and the start of its kernel, at small inputs.
use steeleagle.Prelude.{
  String, ◌≡◌, refl, true, Option, none, some, List, [], ◌∷◌, if◌then◌else◌, name_error, ok, err,
  lookup, split, rsplit,
}
use steeleagle.Law.Samples.{kernel, standing}
use steeleagle.Law.Commands.{resolve, dispatch, send_one, grpc_call, send_commands}
use steeleagle.Law.Authority.{Authority, current, base, run, enter_law, set_law, start, is_state}
use steeleagle.Vehicle.Remote.{silent, rounds}
use steeleagle.Vehicle.Startup.{kernel_main, listening, produce_image, broken}
use steeleagle.Vehicle.Startup.Quiet.{kernel_main-quiet}
use steeleagle.Vehicle.Gabriel.{fresh, telemetry_messages}
use steeleagle.Vehicle.Gabriel.Messages.{registers, first_named, registers-telemetry_messages}

abbrev looks : List (Option String)
looks = none ∷ some "" ∷ some "eagle" ∷ some "eagle" ∷ []

registers-telemetry_messages_example :
    registers (telemetry_messages fresh looks)
    ≡ (if fresh.drone_registered then [] else first_named looks)
registers-telemetry_messages_example = registers-telemetry_messages fresh looks

-- The handler of a broken message raises itself.
broken_image : produce_image (λ bytes. bytes) broken ≡ err name_error
unfolding produce_image
broken_image = refl

abbrev grounded : Authority kernel
grounded = standing none

kernel_main-quiet_example :
    ((start kernel [] grounded).0 ≡ ok true)
    × ((rounds kernel 0
          (silent 400 ∷ silent 90000 ∷ [])
          (listening kernel (start kernel [] grounded).1)).authority
        ≡ (start kernel [] grounded).1)
unfolding send_commands send_one dispatch resolve grpc_call split rsplit lookup current base run
    enter_law set_law is_state start kernel_main
kernel_main-quiet_example =
    kernel_main-quiet kernel [] grounded 0 (listening kernel (start kernel [] grounded).1)
      (silent 400 ∷ silent 90000 ∷ []) refl
