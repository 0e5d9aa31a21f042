-- ===== src/Gcs/Cli.antt =====
-- gcs/cli/cli.py: `consume_keys`, from the keys that are pressed to the commands that are sent. What
-- the user enters at the prompts, the files and the compiler's answers are inputs; velocities are
-- integers of thousandths.

pub mod Table
use steeleagle.Prelude.{
  ℕ, zero, suc, String, Option, none, some, List, [], ◌∷◌, ◌++◌, ◌==◌, if◌then◌else◌, get_last?,
  keys,
}
use steeleagle.Prelude.Int.{ℤ, pos, negsuc}
use steeleagle.Dsl.Events.{Velocity}

-- The requests that are packed into a command.
pub data Request : Type 0 where
  joystick : Velocity → Request
  take_off : ℤ → Request
  land hold start stop : Request
  upload : String → String → Request

pub record CommandRequest : Type 0 where
  pub vehicle_id : String
  pub method_name : String
  pub request : Request

-- What happens at the prompts behind a 'c': the files, where `none` is one that cannot be read; the
-- contents of the compiler's responses, with none if the call fails; and how many keys that were
-- typed meanwhile are thrown away.
pub record Prompts : Type 0 where
  pub kml : Option String
  pub dsl : Option String
  pub responses : String → List String
  pub drained : ℕ

abbrev pub no_velocity : Velocity
no_velocity = record { x_vel = none; y_vel = none; z_vel = none; angular_vel = none }

-- the velocity of a joystick key
unfoldable pub joystick_velocity : String → Option Velocity
joystick_velocity key =
    if key == "a"
    then some (record no_velocity { y_vel = some (negsuc 999) })
    else if key == "d"
    then some (record no_velocity { y_vel = some (pos 1000) })
    else if key == "w"
    then some (record no_velocity { x_vel = some (pos 1000) })
    else if key == "s"
    then some (record no_velocity { x_vel = some (negsuc 999) })
    else if key == "j"
    then some (record no_velocity { angular_vel = some (negsuc 19999) })
    else if key == "l"
    then some (record no_velocity { angular_vel = some (pos 20000) })
    else if key == "i"
    then some (record no_velocity { z_vel = some (pos 1000) })
    else if key == "k"
    then some (record no_velocity { z_vel = some (negsuc 999) })
    else none

-- the branch behind a 'c': the last response is the compiled mission
unfoldable pub compile_and_upload : Prompts → Option (String × Request)
compile_and_upload p = elim p.kml [
  | none ↦ none
  | some kml ↦ elim p.dsl [
    | none ↦ none
    | some dsl ↦ elim (get_last? (p.responses dsl)) [
      | none ↦ none
      | some compiled ↦ some ("Mission.Upload", upload compiled kml)
    ]
  ]
]

-- The method and the request of a key that is not a joystick's.
unfoldable pub other_command : String → Prompts → Option (String × Request)
unfolding compile_and_upload
other_command key p =
    if key == "t"
    then some ("Control.TakeOff", take_off (pos 10000))
    else if key == "g"
    then some ("Control.Land", land)
    else if key == " "
    then some ("Control.Hold", hold)
    else if key == "c"
    then compile_and_upload p
    else if key == "m"
    then some ("Mission.Start", start)
    else if key == "n"
    then some ("Mission.Stop", stop)
    else none

-- The method and the request of a key.
unfoldable pub key_command : String → Prompts → Option (String × Request)
unfolding joystick_velocity other_command
key_command key p = elim (joystick_velocity key) [
  | some v ↦ some ("Control.Joystick", joystick v)
  | none ↦ other_command key p
]

unfoldable pub sent_for : String → Option (String × Request) → List CommandRequest
sent_for vehicle none = []
sent_for vehicle (some (method, request)) =
    record { vehicle_id = vehicle; method_name = method; request = request } ∷ []

-- `consume_keys`: the commands for the keys, up to an ESC; the number counts the keys that are still to
-- be thrown away. A key comes with what would happen at the prompts.
unfoldable pub consume_keys : String → ℕ → List (String × Prompts) → List CommandRequest
unfolding key_command sent_for
consume_keys vehicle drain [] = []
consume_keys vehicle (suc drain) (k ∷ keys) = consume_keys vehicle drain keys
consume_keys vehicle zero ((key, p) ∷ keys) =
    let rest = consume_keys vehicle (if key == "c" then p.drained else 0) keys in
    if key == "\u{1b}" then [] else sent_for vehicle (key_command key p) ++ rest
