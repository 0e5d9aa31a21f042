-- ===== src/Gcs/Control.antt =====
-- gcs/streamlit/pages/control.py and util.py: the commands that the control page sends. A file is its
-- name and its contents; speeds are integers of thousandths, times milliseconds.
pub mod Threads
use steeleagle.Prelude.{
  ℕ, suc, ◌+◌, ◌*◌, String, ◌≡◌, Bool, true, false, Option, none, some, List, [], ◌∷◌, ◌++◌, map,
  ◌==◌, ltb, if◌then◌else◌, all, unbound_local_error, Result, ok, err, Dict, insert, codes, rsplit,
  concat,
}
use steeleagle.Prelude.Int.{ℤ, pos, negsuc, ◌*ℤ◌}
use steeleagle.Dsl.Registry.{same_codes}
use steeleagle.Dsl.Events.{Velocity}
use steeleagle.Gcs.Cli.{
  Request, joystick, take_off, land, hold, start, stop, upload, CommandRequest,
}

-- the toast that ends a callback, or what it raises, with the calls of the stub before
abbrev pub Sent : Type 0
Sent = List CommandRequest

unfoldable pub command_to : String → Request → String → CommandRequest
command_to method request vehicle = record {
  vehicle_id = vehicle;
  method_name = method;
  request = request;
}

-- one call of the stub for each vehicle that is selected
unfoldable pub to_each : String → Request → List String → Sent
unfolding command_to
to_each method request vehicles = map (command_to method request) vehicles

-- `name.endswith(suffix)`
unfoldable pub ends_with : List ℕ → List ℕ → Bool
ends_with suffix [] = all (λ (c : ℕ). false) suffix
ends_with suffix (c ∷ s) = elim (same_codes suffix (c ∷ s)) [
  | true ↦ true
  | false ↦ ends_with suffix s
]

-- What the loop over the files leaves in `kml` and in `dsl_script`.
unfoldable pub assign_files :
    List (String × String) → Option String × Option String → Option String × Option String
unfolding ends_with
assign_files [] bound = bound
assign_files ((name, contents) ∷ files) (kml, dsl) = assign_files files (
    if ends_with (codes ".kml") (codes name)
    then (some contents, dsl)
    else if ends_with (codes ".json") (codes name)
    then (kml, some contents)
    else (kml, dsl))

-- `data.mission.map = kml; data.mission.content = dsl_script` for each vehicle
unfoldable pub upload_each : Option String × Option String → List String → Result Sent
unfolding to_each
upload_each bound [] = ok []
upload_each (none, dsl) (v ∷ vs) = err unbound_local_error
upload_each (some kml, none) (v ∷ vs) = err unbound_local_error
upload_each (some kml, some dsl) (v ∷ vs) = ok (to_each "Mission.Upload" (upload dsl kml) (v ∷ vs))

unfoldable pub upload_mission : List (String × String) → List String → Result Sent
unfolding upload_each assign_files
upload_mission [] selected = ok []
upload_mission (f ∷ files) selected = upload_each (assign_files (f ∷ files) (none, none)) selected

-- the commands, and `armed` afterwards
unfoldable pub run_flightscript : List String → Sent × Bool
unfolding to_each
run_flightscript selected = (to_each "Mission.Start" start selected, false)

unfoldable pub enable_manual : List String → Sent
unfolding to_each
enable_manual selected =
    to_each "Mission.Stop" stop selected ++ to_each "Control.Hold" hold selected

unfoldable pub rth : Request → List String → Sent
unfolding to_each
rth return_to_home selected = to_each "Control.ReturnToHome" return_to_home selected

-- the speeds that the page has fields for
pub record Speeds : Type 0 where
  pub pitch_speed : ℤ
  pub roll_speed : ℤ
  pub thrust_speed : ℤ
  pub yaw_speed : ℤ

abbrev opposite : ℤ → ℤ
opposite a = negsuc 0 *ℤ a

-- the velocity of a key: all components are set, to zero where no key asks for one
unfoldable pub key_velocity : String → Speeds → Velocity
unfolding ◌*ℤ◌
key_velocity key v =
    let still : Velocity = record {
      x_vel = some (pos 0);
      y_vel = some (pos 0);
      z_vel = some (pos 0);
      angular_vel = some (pos 0);
    } in
    if key == "w"
    then record still { x_vel = some v.pitch_speed }
    else if key == "s"
    then record still { x_vel = some (opposite v.pitch_speed) }
    else if key == "d"
    then record still { y_vel = some v.roll_speed }
    else if key == "a"
    then record still { y_vel = some (opposite v.roll_speed) }
    else if key == "i"
    then record still { z_vel = some v.thrust_speed }
    else if key == "k"
    then record still { z_vel = some (opposite v.thrust_speed) }
    else if key == "l"
    then record still { angular_vel = some v.yaw_speed }
    else if key == "j"
    then record still { angular_vel = some (opposite v.yaw_speed) }
    else still

-- the method and the request of the key that is pressed
unfoldable pub manual_command : String → Speeds → String × Request
unfolding key_velocity
manual_command key v =
    if key == "t"
    then ("Control.TakeOff", take_off (pos 5000))
    else if key == "g"
    then ("Control.Land", land)
    else ("Control.Joystick", joystick (key_velocity key v))

-- A rerun of the page: `vehicle` is the field of the one request that all threads share, `waiting` how
-- many threads have not called the stub yet, and `left` the vehicles that the loop has still to set.
pub record Sending : Type 0 where
  pub vehicle : String
  pub waiting : ℕ
  pub left : List String
  pub sent : List String

-- What happens next: the loop sets the vehicle and starts a thread, or a thread calls the stub, which
-- reads the request at that moment.
pub data Step : Sending → Sending → Type 0 where
  spawn :
      (s : Sending) (v : String) (vs : List String)
      → s.left ≡ v ∷ vs
      → Step s (record s { vehicle = v; waiting = suc s.waiting; left = vs })
  call :
      (s : Sending) (n : ℕ)
      → s.waiting ≡ suc n
      → Step s (record s { waiting = n; sent = s.vehicle ∷ s.sent })

pub data Steps (s : Sending) : Sending → Type 0 where
  done : Steps s s
  next : {t u : Sending} → Steps s t → Step t u → Steps s u

abbrev pub fresh : List String → Sending
fresh selected = record { vehicle = ""; waiting = 0; left = selected; sent = [] }

-- `update_imagery`, `get_vehicles`: the vehicles that were seen within the threshold, in minutes; the
-- difference is negative for a vehicle that is seen in the future
unfoldable pub is_active : ℕ → ℕ → ℕ → Bool
is_active now minutes last_seen = ltb now (last_seen + minutes * 60000)

-- the last part of a key
unfoldable pub drone_name : String → String
unfolding rsplit
drone_name key = elim (rsplit b':' key) [ none ↦ key | some (front, back) ↦ back ]

-- `get_vehicles`, over the keys of the vehicles with `last_seen` and `model`
unfoldable pub get_vehicles : ℕ → ℕ → List (String × ℕ × String) → Dict String → Dict String
unfolding is_active drone_name insert concat
get_vehicles now minutes [] vehicles = vehicles
get_vehicles now minutes ((key, last_seen, model) ∷ rows) vehicles =
    let name = drone_name key in
    let shown =
      concat ("**" ∷ name ∷ " (" ∷ (if model == "" then "unknown" else model) ∷ ")**" ∷ []) in
    get_vehicles now minutes rows
      (if is_active now minutes last_seen then insert name shown vehicles else vehicles)
