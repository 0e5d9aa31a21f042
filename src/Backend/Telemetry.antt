-- ===== src/Backend/Telemetry.antt =====
-- backend/server/engines/telemetry/telemetry_engine.py: what a telemetry message writes to Redis. A
-- part of a Protobuf message that is not set reads as its default, so the numbers are plain; floats
-- are integers of thousandths.

mod Cameras
pub mod Keys
use steeleagle.Prelude.{
  ℕ, suc, String, Bool, Option, none, some, List, [], ◌∷◌, ◌++◌, ◌==◌, if◌then◌else◌, get_elem?,
  index_error, Result, ok, err, Dict, concat,
}
use steeleagle.Prelude.Int.{ℤ, pos}
use steeleagle.Backend.Redis.{Command, hset, xadd, expire, Commands, Server}

pub record Sensor : Type 0 where
  pub id : ℤ
  pub kind : ℤ
  pub active : ℤ
  pub supports_secondary : ℤ

-- `DriverTelemetry`, as far as the engine reads it, one record for each part.
pub record Place : Type 0 where
  pub latitude : ℤ
  pub longitude : ℤ
  pub altitude : ℤ
  pub heading : ℤ

pub record Offset : Type 0 where
  pub x : ℤ
  pub y : ℤ
  pub z : ℤ
  pub angle : ℤ

pub record Speed : Type 0 where
  pub x_vel : ℤ
  pub y_vel : ℤ
  pub z_vel : ℤ
  pub angular_vel : ℤ

pub record Alerts : Type 0 where
  pub battery_warning : ℤ
  pub magnetometer_warning : ℤ
  pub gps_warning : ℤ
  pub connection_warning : ℤ

pub record StreamStatus : Type 0 where
  pub stream_capacity : ℤ
  pub num_streams : ℤ
  pub primary_cam : ℤ
  pub secondary_cams : List ℤ

pub record Extras : Type 0 where
  pub name : String
  pub model : String
  pub percentage : ℤ
  pub satellites : ℤ
  pub global_position : Place
  pub relative_position : Offset
  pub velocity_body : Speed
  pub velocity_neu : Speed
  pub home : Place
  pub alert_info : Alerts
  pub stream_status : StreamStatus
  pub sensors : List Sensor

-- `np.sqrt(np.sum(np.power([x, y, z], 2)))` and `int` of a float are parameters.
pub record Numeric : Type 0 where
  pub norm : ℤ → ℤ → ℤ → ℤ
  pub int_of : ℤ → ℤ

unfoldable pub telemetry_key : String → String
unfolding concat
telemetry_key name = concat ("telemetry:" ∷ name ∷ [])

unfoldable pub vehicle_key : String → String
unfolding concat
vehicle_key name = concat ("vehicle:" ∷ name ∷ [])

-- the entry of the stream
unfoldable pub stream_entry : Numeric → Extras → Dict ℤ
stream_entry n e =
    let body = e.velocity_body in
    let neu = e.velocity_neu in
    ("latitude", e.global_position.latitude)
    ∷ ("longitude", e.global_position.longitude)
    ∷ ("abs_altitude", e.global_position.altitude)
    ∷ ("rel_altitude", e.relative_position.z)
    ∷ ("bearing", n.int_of e.global_position.heading)
    ∷ ("battery", e.percentage)
    ∷ ("mag", e.alert_info.magnetometer_warning)
    ∷ ("sats", e.satellites)
    ∷ ("neu_east", e.relative_position.y)
    ∷ ("neu_north", e.relative_position.x)
    ∷ ("neu_up", e.relative_position.z)
    ∷ ("neu_angle", e.relative_position.angle)
    ∷ ("v_body_total", n.norm body.x_vel body.y_vel body.z_vel)
    ∷ ("v_body_forward", body.x_vel)
    ∷ ("v_body_lateral", body.y_vel)
    ∷ ("v_body_altitude", body.z_vel)
    ∷ ("v_body_angular", body.angular_vel)
    ∷ ("v_neu_total", n.norm neu.x_vel neu.y_vel neu.z_vel)
    ∷ ("v_neu_north", neu.x_vel)
    ∷ ("v_neu_east", neu.y_vel)
    ∷ ("v_neu_up", neu.z_vel)
    ∷ ("v_neu_angular", neu.angular_vel)
    ∷ []

-- the fields of the vehicle's hash that every message sets, less the time that comes first
unfoldable pub vehicle_fields : Server → Extras → Dict String
vehicle_fields s e =
    ("battery", s.show e.alert_info.battery_warning)
    ∷ ("mag", s.show e.alert_info.magnetometer_warning)
    ∷ ("sats", s.show e.alert_info.gps_warning)
    ∷ ("connection", s.show e.alert_info.connection_warning)
    ∷ ("model", e.model)
    ∷ ("position_info.home_lat", s.show e.home.latitude)
    ∷ ("position_info.home_long", s.show e.home.longitude)
    ∷ ("position_info.home_alt", s.show e.home.altitude)
    ∷ ("streams_allowed", s.show e.stream_status.stream_capacity)
    ∷ ("streams_active", s.show e.stream_status.num_streams)
    ∷ ("primary_cam_id", s.show e.stream_status.primary_cam)
    ∷ []

unfoldable pub set_fields : String → Dict String → Commands
set_fields key [] = []
set_fields key ((field, value) ∷ fields) = hset key field value ∷ set_fields key fields

unfoldable pub camera_fields : Server → ℕ → Sensor → Dict String
unfolding concat
camera_fields s i c =
    let prefix = concat ("cam_" ∷ s.show (pos i) ∷ []) in
    (concat (prefix ∷ "_id" ∷ []), s.show c.id)
    ∷ (concat (prefix ∷ "_type" ∷ []), s.show c.kind)
    ∷ (concat (prefix ∷ "_active" ∷ []), s.show c.active)
    ∷ (concat (prefix ∷ "_support_sec" ∷ []), s.show c.supports_secondary)
    ∷ []

-- The loop over the secondary cameras from number i on, which reads the sensors by number; with
-- whether it raised.
unfoldable pub set_cameras :
    Server → String → List Sensor → ℕ → List ℤ → Commands × Result (Option String)
unfolding set_fields camera_fields
set_cameras s key sensors i [] = ([], ok none)
set_cameras s key sensors i (cam ∷ cams) =
    let (sent, done) = set_cameras s key sensors (suc i) cams in
    elim (get_elem? sensors i) [
      | none ↦ ([], err index_error)
      | some c ↦ (set_fields key (camera_fields s i c) ++ sent, done)
    ]

-- the commands of `updateVehicle` as far as the loop over the cameras
unfoldable pub hash_commands : Server → Numeric → ℤ → Commands → Extras → Commands
unfolding telemetry_key vehicle_key stream_entry set_fields vehicle_fields
hash_commands s n ttl before e =
    let entry = xadd (telemetry_key e.name) (stream_entry n e) in
    let first = entry ∷ expire (telemetry_key e.name) ttl ∷ [] in
    entry
    ∷ expire (telemetry_key e.name) ttl
    ∷ hset (vehicle_key e.name) "last_seen" (s.show (s.now (before ++ first)))
    ∷ set_fields (vehicle_key e.name) (vehicle_fields s e)

-- `updateVehicle`: the commands behind those already sent, and whether it raises
unfoldable pub update_vehicle :
    Server → Numeric → ℤ → Commands → Extras → Commands × Result (Option String)
unfolding hash_commands set_cameras vehicle_key
update_vehicle s n ttl before e =
    let (cameras, done) =
      set_cameras s (vehicle_key e.name) e.sensors 0 e.stream_status.secondary_cams in
    let most = hash_commands s n ttl before e ++ cameras in
    elim done [
      | err fault ↦ (before ++ most, err fault)
      | ok text ↦ (before ++ (most ++ expire (vehicle_key e.name) ttl ∷ []), ok text)
    ]

-- What `handle` answers: the status code, by its name, and the payload.
pub data Code : Type 0 where
  success engine_error wrong_input_format : Code

-- What a frame holds: a telemetry message, a camera image, or another payload type. Images are
-- written to disk, as an input: whether that raises.
pub data InputFrame : Type 0 where
  text_frame : Extras → InputFrame
  image_frame : Bool → InputFrame
  other_frame : InputFrame

-- what `handle` returns behind `updateVehicle`
unfoldable pub updated :
    Commands × Result (Option String) → Commands × Result (Code × Option String)
updated (sent, err fault) = (sent, err fault)
updated (sent, ok text) = (sent, ok (success, some "Telemetry updated"))

unfoldable pub handle :
    Server → Numeric → ℤ → Commands → InputFrame → Commands × Result (Code × Option String)
unfolding update_vehicle updated
handle s n ttl before (text_frame e) =
    if e.name == ""
    then (before, ok (engine_error, none))
    else updated (update_vehicle s n ttl before e)
handle s n ttl before (image_frame raises) =
    (before, ok (if raises then (engine_error, none) else (success, some "Telemetry updated")))
handle s n ttl before other_frame = (before, ok (wrong_input_format, none))
