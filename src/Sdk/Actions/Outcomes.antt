-- ===== src/Sdk/Actions/Outcomes.antt =====
-- sdk/src/steeleagle_sdk/dsl/types/actions/primitives: which actions cannot be executed, and what an
-- action returns when the kernel refuses it.
use steeleagle.Prelude.{
  ◌≡◌, refl, sym, ap, ◌∙◌, inl, inr, Bool, true, false, not, some, List, [], ◌∷◌, ◌++◌, arith, leb,
  none, value_error, Result, ok, err,
}
use steeleagle.Prelude.Int.{ℤ, pos, negsuc}
use steeleagle.Law.Kernel.{Call, Response, RpcError, replied, failed}
use steeleagle.Sdk.Calls.{Request, Channel, Log}
use steeleagle.Sdk.Vehicle.{
  uint32, connect, disconnect, arm, disarm, joystick, take_off, land, hold, kill, return_to_home,
  set_global_position, set_relative_position, set_velocity, set_heading, set_gimbal_pose,
  configure_imaging_sensor_stream, configure_telemetry_stream,
}
use steeleagle.Sdk.Compute.{
  parse_datasinks, send_datasinks, add_datasinks, set_datasinks, remove_datasinks,
}
use steeleagle.Sdk.Actions.{
  LinkAction, connect_action, disconnect_action, arm_action, disarm_action, joystick_action,
  FlightAction, take_off_action, land_action, hold_action, kill_action, return_to_home_action,
  set_home_action, MoveAction, set_global_position_action, set_relative_position_action,
  set_velocity_action, set_heading_action, SensorAction, set_gimbal_pose_action,
  configure_imaging_sensor_stream_action, configure_telemetry_stream_action, ComputeAction,
  add_datasinks_action, set_datasinks_action, remove_datasinks_action, Action, link, flight, move,
  sensor, compute, last_of, execute_link, execute_flight, execute_move, execute_sensor,
  execute_compute, execute,
}
use steeleagle.Sdk.Actions.Sent.{reply, execute-Once}

-- Whether the result is an exception.
unfoldable pub is_raised {ℓ} : {A : Type ℓ} → Result A → Bool
is_raised (err e) = true
is_raised (ok a) = false

-- a number that no field of type uint32 can hold
unfoldable pub is_outside : ℤ → Bool
is_outside (pos n) = leb 4294967296 n
is_outside (negsuc n) = true

unfoldable pub is_empty {ℓ} : {A : Type ℓ} → List A → Bool
is_empty [] = true
is_empty (x ∷ xs) = false

-- The actions that cannot be executed.
unfoldable pub is_broken : Action → Bool
unfolding is_outside is_empty
is_broken (link (joystick_action v seconds nanos)) = true
is_broken (flight (set_home_action l)) = true
is_broken (sensor (set_gimbal_pose_action gimbal pose mode frame)) = is_outside gimbal
is_broken (sensor (configure_imaging_sensor_stream_action is)) = not (is_empty is)
is_broken (sensor (configure_telemetry_stream_action frequency)) = is_outside frequency
is_broken (compute (add_datasinks_action ds)) = not (is_empty ds)
is_broken (compute (set_datasinks_action ds)) = not (is_empty ds)
is_broken (compute (remove_datasinks_action ds)) = not (is_empty ds)
is_broken _ = false

-- A channel on which every call is answered.
abbrev answering : Response → Channel
answering r = record {
  unary = λ log call. replied r;
  stream = λ log call. record { responses = r ∷ []; failure = none };
}

uint32-outside : (n : ℤ) → is_raised (uint32 n) ≡ is_outside n
unfolding uint32 is_outside is_raised
uint32-outside (pos n) = ground arith
uint32-outside (negsuc n) = refl

sensor-raises :
    (r : Response) (log : Log) (a : SensorAction)
    → is_raised (execute_sensor (answering r) a log).0 ≡ is_broken (sensor a)
unfolding execute_sensor set_gimbal_pose configure_imaging_sensor_stream configure_telemetry_stream
    last_of is_raised is_broken is_empty
sensor-raises r log (set_gimbal_pose_action gimbal pose mode frame) =
    ground (arith, uint32-outside gimbal)
sensor-raises r log (configure_imaging_sensor_stream_action []) = refl
sensor-raises r log (configure_imaging_sensor_stream_action (i ∷ is)) = refl
sensor-raises r log (configure_telemetry_stream_action frequency) =
    ground (arith, uint32-outside frequency)

link-raises :
    (r : Response) (log : Log) (a : LinkAction)
    → is_raised (execute_link (answering r) a log).0 ≡ is_broken (link a)
unfolding execute_link connect disconnect arm disarm joystick is_raised is_broken
link-raises r log connect_action = refl
link-raises r log disconnect_action = refl
link-raises r log arm_action = refl
link-raises r log disarm_action = refl
link-raises r log (joystick_action v seconds nanos) = refl

flight-raises :
    (r : Response) (log : Log) (a : FlightAction)
    → is_raised (execute_flight (answering r) a log).0 ≡ is_broken (flight a)
unfolding execute_flight take_off land hold kill return_to_home last_of is_raised is_broken
flight-raises r log (take_off_action altitude) = refl
flight-raises r log land_action = refl
flight-raises r log hold_action = refl
flight-raises r log kill_action = refl
flight-raises r log return_to_home_action = refl
flight-raises r log (set_home_action l) = refl

move-raises :
    (r : Response) (log : Log) (a : MoveAction)
    → is_raised (execute_move (answering r) a log).0 ≡ is_broken (move a)
unfolding execute_move set_global_position set_relative_position set_velocity set_heading last_of
    is_raised is_broken
move-raises r log (set_global_position_action l heading altitude v) = refl
move-raises r log (set_relative_position_action p v frame) = refl
move-raises r log (set_velocity_action v frame) = refl
move-raises r log (set_heading_action l heading) = refl

compute-raises :
    (r : Response) (log : Log) (a : ComputeAction)
    → is_raised (execute_compute (answering r) a log).0 ≡ is_broken (compute a)
unfolding execute_compute add_datasinks set_datasinks remove_datasinks send_datasinks
    parse_datasinks is_raised is_broken is_empty
compute-raises r log (add_datasinks_action []) = refl
compute-raises r log (add_datasinks_action (d ∷ ds)) = refl
compute-raises r log (set_datasinks_action []) = refl
compute-raises r log (set_datasinks_action (d ∷ ds)) = refl
compute-raises r log (remove_datasinks_action []) = refl
compute-raises r log (remove_datasinks_action (d ∷ ds)) = refl

-- Which actions raise where every call is answered: Joystick and SetHome always; the data sinks' actions and
-- ConfigureImagingSensorStream unless their list is empty; SetGimbalPose and ConfigureTelemetryStream
-- where their number is negative or 2 ^ 32 at least. No other action raises.
execute-raises :
    (r : Response) (log : Log) (a : Action)
    → is_raised (execute (answering r) a log).0 ≡ is_broken a
unfolding execute
execute-raises r log (link a) = link-raises r log a
execute-raises r log (flight a) = flight-raises r log a
execute-raises r log (move a) = move-raises r log a
execute-raises r log (sensor a) = sensor-raises r log a
execute-raises r log (compute a) = compute-raises r log a

-- A channel on which every call ends in the error, a stream's perhaps behind some responses.
abbrev pub failing : RpcError → (Call Request → List Response) → Channel
failing e before = record {
  unary = λ log call. failed e;
  stream = λ log call. record { responses = before call; failure = some e };
}

reply-failing :
    (e : RpcError) (before : Call Request → List Response) (streams : Bool) (log : Log)
    (call : Call Request)
    → reply streams (failing e before) log call ≡ err value_error
unfolding reply
reply-failing e before false log call = refl
reply-failing e before true log call = refl

-- An action that can be executed makes its call also where every call fails with an RPC error, exactly
-- one, and then it raises a ValidationError: the error comes back neither as a response with its code
-- plus two, which the API means to return, nor as an earlier response of the stream.
pub execute-failing :
    (e : RpcError) (before : Call Request → List Response) (a : Action) (log : Log)
    → is_broken a ≡ false
    → (call : Call Request) × (call.identity ≡ "internal")
      × (execute (failing e before) a log ≡ (err value_error, log ++ call ∷ []))
unfolding is_raised
execute-failing e before a log sound = elim (execute-Once a) [
  | inl raises ↦
      let r : Response = record { status = 2; response_string = "" } in
      let contradiction : true ≡ false =
        ap (λ out. is_raised out.0) (sym (raises.raised (answering r) log))
        ∙ execute-raises r log a
        ∙ sound in
      absurd cc
  | inr orders ↦ (
    orders.call,
    orders.internal,
    orders.ordered (failing e before) log
        ∙ ap (λ out. (out, log ++ orders.call ∷ []))
            (reply-failing e before orders.streams log orders.call),
  )
]
