-- ===== src/Sdk/Actions.antt =====
-- sdk/src/steeleagle_sdk/dsl/types/actions/primitives: the actions that are one order each, as calls
-- of the API's methods with the action's fields, while the runtime is started.
pub mod Sent
pub mod Lawful
pub mod Outcomes
use steeleagle.Prelude.{Option, none, some, List, [], ◌∷◌, map, type_error, Result, ok, err}
use steeleagle.Prelude.Int.{ℤ, pos, negsuc}
use steeleagle.Law.Kernel.{Response}
use steeleagle.Dsl.Events.{Pose, Velocity, Position, Location, ReferenceFrame}
use steeleagle.Vehicle.Sinks.{Datasink}
use steeleagle.Sdk.Calls.{AltitudeMode, HeadingMode, PoseMode, Channel, Log, Yielded}
use steeleagle.Sdk.Vehicle.{
  ImagingSensorConfiguration, Duration, protobuf, Returned, connect, disconnect, arm, disarm,
  joystick, take_off, land, hold, kill, set_home, return_to_home, set_global_position,
  set_relative_position, set_velocity, set_heading, set_gimbal_pose,
  configure_imaging_sensor_stream, configure_telemetry_stream,
}
use steeleagle.Sdk.Compute.{Element, dumped, add_datasinks, set_datasinks, remove_datasinks}

-- The duration of a Joystick is Protobuf's: its seconds and nanoseconds.
pub data LinkAction : Type 0 where
  connect_action disconnect_action arm_action disarm_action : LinkAction
  joystick_action : Velocity → ℤ → ℤ → LinkAction

pub data FlightAction : Type 0 where
  take_off_action : ℤ → FlightAction
  land_action hold_action kill_action return_to_home_action : FlightAction
  set_home_action : Location → FlightAction

pub data MoveAction : Type 0 where
  set_global_position_action :
      Location → Option HeadingMode → Option AltitudeMode → Option Velocity → MoveAction
  set_relative_position_action : Position → Option Velocity → Option ReferenceFrame → MoveAction
  set_velocity_action : Velocity → Option ReferenceFrame → MoveAction
  set_heading_action : Location → Option HeadingMode → MoveAction

pub data SensorAction : Type 0 where
  set_gimbal_pose_action : ℤ → Pose → Option PoseMode → Option ReferenceFrame → SensorAction
  configure_imaging_sensor_stream_action : List ImagingSensorConfiguration → SensorAction
  configure_telemetry_stream_action : ℤ → SensorAction

pub data ComputeAction : Type 0 where
  add_datasinks_action set_datasinks_action remove_datasinks_action : List Datasink → ComputeAction

pub data Action : Type 0 where
  link : LinkAction → Action
  flight : FlightAction → Action
  move : MoveAction → Action
  sensor : SensorAction → Action
  compute : ComputeAction → Action

-- `consume_last`: the last item, or None
unfoldable pub consume_last : List Response → Option Response
consume_last [] = none
consume_last (r ∷ rs) = elim (consume_last rs) [ none ↦ some r | some last ↦ some last ]

-- `return await` of a method that answers once
abbrev pub once : Returned Response → Returned (Option Response)
once (ok r, log) = (ok (some r), log)
once (err e, log) = (err e, log)

-- `return await consume_last` of a generator: what the generator raises leaves the loop.
unfoldable pub consumed : Yielded → Result (Option Response)
unfolding consume_last
consumed y = elim y.raises [ none ↦ ok (consume_last y.items) | some e ↦ err e ]

unfoldable pub last_of : Returned Yielded → Returned (Option Response)
unfolding consumed
last_of (ok y, log) = (consumed y, log)
last_of (err e, log) = (err e, log)

module _ (c : Channel) where
  unfoldable pub execute_link : LinkAction → Log → Returned (Option Response)
  unfolding connect disconnect arm disarm joystick
  execute_link connect_action log = once (connect c log)
  execute_link disconnect_action log = once (disconnect c log)
  execute_link arm_action log = once (arm c log)
  execute_link disarm_action log = once (disarm c log)
  execute_link (joystick_action v seconds nanos) log =
      once (joystick c log v (protobuf seconds nanos))

  -- `set_home` returns a coroutine, over which `async for` cannot run, so it never starts.
  unfoldable pub execute_flight : FlightAction → Log → Returned (Option Response)
  unfolding take_off land hold kill return_to_home last_of
  execute_flight (take_off_action altitude) log = last_of (take_off c log altitude)
  execute_flight land_action log = last_of (land c log)
  execute_flight hold_action log = last_of (hold c log)
  execute_flight kill_action log = last_of (kill c log)
  execute_flight return_to_home_action log = last_of (return_to_home c log)
  execute_flight (set_home_action l) log = (err type_error, log)

  unfoldable pub execute_move : MoveAction → Log → Returned (Option Response)
  unfolding set_global_position set_relative_position set_velocity set_heading last_of
  execute_move (set_global_position_action l heading altitude v) log =
      last_of (set_global_position c log l heading altitude v)
  execute_move (set_relative_position_action p v frame) log =
      last_of (set_relative_position c log p v frame)
  execute_move (set_velocity_action v frame) log = last_of (set_velocity c log v frame)
  execute_move (set_heading_action l heading) log = last_of (set_heading c log l heading)

  unfoldable pub execute_sensor : SensorAction → Log → Returned (Option Response)
  unfolding set_gimbal_pose configure_imaging_sensor_stream configure_telemetry_stream last_of
  execute_sensor (set_gimbal_pose_action gimbal pose mode frame) log =
      last_of (set_gimbal_pose c log gimbal pose mode frame)
  execute_sensor (configure_imaging_sensor_stream_action is) log =
      once (configure_imaging_sensor_stream c log is)
  execute_sensor (configure_telemetry_stream_action frequency) log =
      once (configure_telemetry_stream c log frequency)

  -- `self.model_dump()` turns the data sinks into dicts.
  unfoldable pub execute_compute : ComputeAction → Log → Returned (Option Response)
  unfolding add_datasinks set_datasinks remove_datasinks
  execute_compute (add_datasinks_action ds) log = once (add_datasinks c (map dumped ds) log)
  execute_compute (set_datasinks_action ds) log = once (set_datasinks c (map dumped ds) log)
  execute_compute (remove_datasinks_action ds) log = once (remove_datasinks c (map dumped ds) log)

  unfoldable pub execute : Action → Log → Returned (Option Response)
  unfolding execute_link execute_flight execute_move execute_sensor execute_compute
  execute (link a) log = execute_link a log
  execute (flight a) log = execute_flight a log
  execute (move a) log = execute_move a log
  execute (sensor a) log = execute_sensor a log
  execute (compute a) log = execute_compute a log
