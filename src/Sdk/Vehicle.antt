-- ===== src/Sdk/Vehicle.antt =====
-- sdk/src/steeleagle_sdk/api/vehicle.py: the class Vehicle over the channel. A method that streams
-- is what its generator does; a method that raises has the exception as its result.
use steeleagle.Prelude.{
  ℕ, String, Bool, Option, List, [], ◌∷◌, ltb, if◌then◌else◌, Fault, value_error, type_error,
  attribute_error, parse_error, Result, ok, err,
}
use steeleagle.Prelude.Int.{ℤ, pos, negsuc}
use steeleagle.Law.Kernel.{Response}
use steeleagle.Dsl.Events.{Pose, Velocity, Position, Location, ReferenceFrame}
use steeleagle.Runtime.Store.{Row, Codec, Model, get_latest}
use steeleagle.Sdk.Calls.{
  AltitudeMode, HeadingMode, PoseMode, connect_request, disconnect_request, arm_request,
  disarm_request, land_request, hold_request, kill_request, return_to_home_request,
  take_off_request, set_home_request, set_global_position_request, set_relative_position_request,
  set_velocity_request, set_heading_request, set_gimbal_pose_request,
  configure_imaging_sensor_stream_request, configure_telemetry_stream_request, Channel, Log, Method,
  run_unary, Yielded, run_streaming,
}

-- `ImagingSensorConfiguration`
pub record ImagingSensorConfiguration : Type 0 where
  pub id : ℤ
  pub set_primary : Bool
  pub set_fps : ℤ

-- A duration: of api/datatypes/duration.py, with its seconds and nanoseconds, or of Protobuf.
pub data Duration : Type 0 where
  datatype : ℤ → ℤ → Duration
  protobuf : ℤ → ℤ → Duration

unfoldable pub control : String → Method
control name = record {
  service = "steeleagle.protocol.services.control_service.Control";
  name = name;
}

-- what a method comes to, with the log after it
abbrev pub Returned {ℓ} : Type ℓ → Type ℓ
Returned A = Result A × Log

abbrev returned {ℓ} : {A : Type ℓ} → A × Log → Returned A
returned p = (ok p.0, p.1)

-- setting a field of type uint32
unfoldable pub uint32 : ℤ → Result ℕ
uint32 (pos n) = if ltb n 4294967296 then ok n else err value_error
uint32 (negsuc n) = err value_error

-- `ParseDict(duration.model_dump(), req.duration)`: Protobuf's own class has no `model_dump`, and its
-- JSON parser wants a text for a duration, not an object.
unfoldable pub parse_duration : Duration → Fault
parse_duration (datatype seconds nanos) = parse_error
parse_duration (protobuf seconds nanos) = attribute_error

-- `get_telemetry`, over the mission store's rows
unfoldable pub get_telemetry : (codec : Codec) → List Row → Option (Model codec)
unfolding get_latest
get_telemetry codec rows = get_latest codec "telemetry" "driver_telemetry" rows

module _ (c : Channel) (log : Log) where
  unfoldable pub connect : Returned Response
  unfolding run_unary control
  connect = run_unary c (control "Connect") connect_request log

  unfoldable pub disconnect : Returned Response
  unfolding run_unary control
  disconnect = run_unary c (control "Disconnect") disconnect_request log

  unfoldable pub arm : Returned Response
  unfolding run_unary control
  arm = run_unary c (control "Arm") arm_request log

  unfoldable pub disarm : Returned Response
  unfolding run_unary control
  disarm = run_unary c (control "Disarm") disarm_request log

  -- The call comes behind the duration, so it is not made.
  unfoldable pub joystick : Velocity → Duration → Returned Response
  unfolding parse_duration
  joystick v d = (err (parse_duration d), log)

  unfoldable pub take_off : ℤ → Returned Yielded
  unfolding run_streaming control
  take_off altitude = returned (run_streaming c (control "TakeOff") (take_off_request altitude) log)

  unfoldable pub land : Returned Yielded
  unfolding run_streaming control
  land = returned (run_streaming c (control "Land") land_request log)

  unfoldable pub hold : Returned Yielded
  unfolding run_streaming control
  hold = returned (run_streaming c (control "Hold") hold_request log)

  unfoldable pub kill : Returned Yielded
  unfolding run_streaming control
  kill = returned (run_streaming c (control "Kill") kill_request log)

  unfoldable pub set_home : Location → Returned Response
  unfolding run_unary control
  set_home l = run_unary c (control "SetHome") (set_home_request l) log

  unfoldable pub return_to_home : Returned Yielded
  unfolding run_streaming control
  return_to_home = returned (run_streaming c (control "ReturnToHome") return_to_home_request log)

  unfoldable pub set_global_position :
      Location → Option HeadingMode → Option AltitudeMode → Option Velocity → Returned Yielded
  unfolding run_streaming control
  set_global_position l heading altitude v =
      let req = set_global_position_request l heading altitude v in
      returned (run_streaming c (control "SetGlobalPosition") req log)

  unfoldable pub set_relative_position :
      Position → Option Velocity → Option ReferenceFrame → Returned Yielded
  unfolding run_streaming control
  set_relative_position p v frame =
      let req = set_relative_position_request p v frame in
      returned (run_streaming c (control "SetRelativePosition") req log)

  unfoldable pub set_velocity : Velocity → Option ReferenceFrame → Returned Yielded
  unfolding run_streaming control
  set_velocity v frame =
      returned (run_streaming c (control "SetVelocity") (set_velocity_request v frame) log)

  unfoldable pub set_heading : Location → Option HeadingMode → Returned Yielded
  unfolding run_streaming control
  set_heading l heading =
      returned (run_streaming c (control "SetHeading") (set_heading_request l heading) log)

  unfoldable pub set_gimbal_pose :
      ℤ → Pose → Option PoseMode → Option ReferenceFrame → Returned Yielded
  unfolding run_streaming control uint32
  set_gimbal_pose gimbal pose mode frame = elim (uint32 gimbal) [
    | err e ↦ (err e, log)
    | ok id ↦
        returned (
          run_streaming c (control "SetGimbalPose") (set_gimbal_pose_request id pose mode frame)
            log)
  ]

  -- `c.model_dump()(exclude_none=True)` calls a dict, so only an empty list gets to the call.
  unfoldable pub configure_imaging_sensor_stream :
      List ImagingSensorConfiguration → Returned Response
  unfolding run_unary control
  configure_imaging_sensor_stream [] =
      run_unary c (control "ConfigureImagingSensorStream") configure_imaging_sensor_stream_request
        log
  configure_imaging_sensor_stream (i ∷ is) = (err type_error, log)

  unfoldable pub configure_telemetry_stream : ℤ → Returned Response
  unfolding run_unary control uint32
  configure_telemetry_stream frequency = elim (uint32 frequency) [
    | err e ↦ (err e, log)
    | ok f ↦
        run_unary c (control "ConfigureTelemetryStream") (configure_telemetry_stream_request f) log
  ]
