-- ===== src/Sdk/Actions/Sent.antt =====
-- sdk/src/steeleagle_sdk/dsl/types/actions/primitives: what an action leaves on the channel, and what
-- it returns.
use steeleagle.Prelude.{
  rsplit, concat, String, ◌≡◌, refl, ◌⊎◌, List, inl, inr, Bool, true, false, Option, some, [], ◌∷◌,
  ◌++◌, Fault, value_error, Result, none, type_error, attribute_error, ok, err, Result-cases,
}
use steeleagle.Law.Interceptor.{last_part}
use steeleagle.Law.Kernel.{Call, Response, RpcError, Answer, replied, failed}
use steeleagle.Sdk.Calls.{
  Request, Channel, Log, internal_call, unary_response, yielded, make_response, validate_stamp,
  error_to_api_response, yield_last, run_unary, run_streaming, configure_telemetry_stream_request,
  set_gimbal_pose_request,
}
use steeleagle.Sdk.Vehicle.{
  control, Returned, control, uint32, parse_duration, connect, disconnect, arm, disarm, joystick,
  take_off, land, hold, kill, return_to_home, set_global_position, set_relative_position,
  set_velocity, set_heading, set_gimbal_pose, configure_imaging_sensor_stream,
  configure_telemetry_stream,
}
use steeleagle.Sdk.Compute.{
  compute_method, parse_datasinks, send_datasinks, add_datasinks, set_datasinks, remove_datasinks,
}
use steeleagle.Sdk.Actions.{
  LinkAction, connect_action, disconnect_action, arm_action, disarm_action, joystick_action,
  FlightAction, take_off_action, land_action, hold_action, kill_action, return_to_home_action,
  set_home_action, MoveAction, set_global_position_action, set_relative_position_action,
  set_velocity_action, set_heading_action, SensorAction, set_gimbal_pose_action,
  configure_imaging_sensor_stream_action, configure_telemetry_stream_action, ComputeAction,
  add_datasinks_action, set_datasinks_action, remove_datasinks_action, Action, link, flight, move,
  sensor, compute, consume_last, consumed, once, last_of, execute_link, execute_flight,
  execute_move, execute_sensor, execute_compute, execute,
}

-- The outcome of a call: the response of a method that answers once, or the last that a stream gives.
-- A call that fails, a stream's perhaps behind some responses, ends in a ValidationError.
unfoldable pub reply : Bool → Channel → Log → Call Request → Result (Option Response)
unfolding consume_last
reply false c log call = elim (c.unary log call) [
  | replied r ↦ ok (some r)
  | failed e ↦ err value_error
]
reply true c log call = elim (c.stream log call).failure [
  | none ↦ ok (consume_last (c.stream log call).responses)
  | some e ↦ err value_error
]

unary-reply :
    (c : Channel) (log : Log) (call : Call Request)
    → once (unary_response (c.unary log call), log ++ call ∷ [])
      ≡ (reply false c log call, log ++ call ∷ [])
unfolding reply
unary-reply c log call = answer-reply (c.unary log call)
  where
    answer-reply :
        (a : Answer)
        → once (unary_response a, log ++ call ∷ [])
          ≡ (elim a [ replied r ↦ ok (some r) | failed e ↦ err value_error ], log ++ call ∷ [])
    answer-reply (replied r) = unfold unary_response in refl
    answer-reply (failed e) =
        unfold unary_response error_to_api_response make_response validate_stamp in refl

pub stream-reply :
    (c : Channel) (log : Log) (call : Call Request)
    → last_of (ok (yielded (c.stream log call)), log ++ call ∷ [])
      ≡ (reply true c log call, log ++ call ∷ [])
unfolding reply
stream-reply c log call = by_failure (c.stream log call).responses (c.stream log call).failure
  where
    by_failure :
        (rs : List Response) (failure : Option RpcError)
        → last_of (ok (yielded (record { responses = rs; failure = failure })), log ++ call ∷ [])
          ≡ (
            elim failure [ none ↦ ok (consume_last rs) | some e ↦ err value_error ],
            log ++ call ∷ [],
          )
    by_failure rs none = unfold last_of consumed yielded in refl
    by_failure rs (some e) =
        unfold last_of consumed yielded yield_last error_to_api_response make_response
          validate_stamp in
        refl

-- A run that raises before it calls anything, on every channel.
pub record Raises (run : Channel → Log → Returned (Option Response)) : Type 0 where
  pub fault : Fault
  pub raised : (c : Channel) (log : Log) → run c log ≡ (err fault, log)

-- the path of a gRPC call
unfoldable pub path : Call Request → String
unfolding concat
path call = concat ("/" ∷ call.service ∷ "/" ∷ call.method ∷ [])

-- The interceptor's way to take a path apart finds the method of the call, and this service.
pub record Routed (call : Call Request) : Type 0 where
  pub service_url : String
  pub service : String
  pub parts : rsplit b'/' (path call) ≡ some (service_url, call.method)
  pub short : last_part service_url ≡ service
  pub kernel_service : (service ≡ "Control") ⊎ (service ≡ "Compute")

-- A run that makes one call, the same on every channel, in the name of the vehicle itself, to a
-- service of the kernel, and returns the reply to it.
pub record Orders (run : Channel → Log → Returned (Option Response)) : Type 0 where
  pub call : Call Request
  pub streams : Bool
  pub internal : call.identity ≡ "internal"
  pub routed : Routed call
  pub ordered : (c : Channel) (log : Log) → run c log ≡ (reply streams c log call, log ++ call ∷ [])

abbrev one_call :
    (run : Channel → Log → Returned (Option Response)) (streams : Bool) (call : Call Request)
    → ((c : Channel) (log : Log) → run c log ≡ (reply streams c log call, log ++ call ∷ []))
    → call.identity ≡ "internal"
    → Routed call
    → Raises run ⊎ Orders run
one_call run streams call ordered internal routed = inr (record {
  call = call;
  streams = streams;
  internal = internal;
  routed = routed;
  ordered = ordered;
})

control_short : last_part "/steeleagle.protocol.services.control_service.Control" ≡ "Control"
unfolding last_part rsplit
control_short = refl

compute_short : last_part "/steeleagle.protocol.services.compute_service.Compute" ≡ "Compute"
unfolding last_part rsplit
compute_short = refl

abbrev to_control :
    (call : Call Request)
    → rsplit b'/' (path call)
      ≡ some ("/steeleagle.protocol.services.control_service.Control", call.method)
    → Routed call
to_control call parts = record {
  service_url = "/steeleagle.protocol.services.control_service.Control";
  service = "Control";
  parts = parts;
  short = control_short;
  kernel_service = inl refl;
}

abbrev to_compute :
    (call : Call Request)
    → rsplit b'/' (path call)
      ≡ some ("/steeleagle.protocol.services.compute_service.Compute", call.method)
    → Routed call
to_compute call parts = record {
  service_url = "/steeleagle.protocol.services.compute_service.Compute";
  service = "Compute";
  parts = parts;
  short = compute_short;
  kernel_service = inr refl;
}

abbrev no_call :
    (run : Channel → Log → Returned (Option Response)) (fault : Fault)
    → ((c : Channel) (log : Log) → run c log ≡ (err fault, log))
    → Raises run ⊎ Orders run
no_call run fault raised = inl (record { fault = fault; raised = raised })

link-Once :
    (a : LinkAction)
    → Raises (λ c log. execute_link c a log) ⊎ Orders (λ c log. execute_link c a log)
unfolding execute_link connect disconnect arm disarm joystick run_unary internal_call reply path
    rsplit control compute_method parse_duration
link-Once connect_action =
    one_call _ false _ (λ c log. unary-reply c log _) refl (to_control _ refl)
link-Once disconnect_action =
    one_call _ false _ (λ c log. unary-reply c log _) refl (to_control _ refl)
link-Once arm_action = one_call _ false _ (λ c log. unary-reply c log _) refl (to_control _ refl)
link-Once disarm_action = one_call _ false _ (λ c log. unary-reply c log _) refl (to_control _ refl)
link-Once (joystick_action v seconds nanos) = no_call _ attribute_error (λ c log. refl)

flight-Once :
    (a : FlightAction)
    → Raises (λ c log. execute_flight c a log) ⊎ Orders (λ c log. execute_flight c a log)
unfolding execute_flight take_off land hold kill return_to_home last_of run_streaming internal_call
    reply path rsplit control
flight-Once (take_off_action altitude) =
    one_call _ true _ (λ c log. stream-reply c log _) refl (to_control _ refl)
flight-Once land_action = one_call _ true _ (λ c log. stream-reply c log _) refl (to_control _ refl)
flight-Once hold_action = one_call _ true _ (λ c log. stream-reply c log _) refl (to_control _ refl)
flight-Once kill_action = one_call _ true _ (λ c log. stream-reply c log _) refl (to_control _ refl)
flight-Once return_to_home_action =
    one_call _ true _ (λ c log. stream-reply c log _) refl (to_control _ refl)
flight-Once (set_home_action l) = no_call _ type_error (λ c log. refl)

move-Once :
    (a : MoveAction)
    → Raises (λ c log. execute_move c a log) ⊎ Orders (λ c log. execute_move c a log)
unfolding execute_move set_global_position set_relative_position set_velocity set_heading last_of
    run_streaming internal_call reply path rsplit control
move-Once (set_global_position_action l heading altitude v) =
    one_call _ true _ (λ c log. stream-reply c log _) refl (to_control _ refl)
move-Once (set_relative_position_action p v frame) =
    one_call _ true _ (λ c log. stream-reply c log _) refl (to_control _ refl)
move-Once (set_velocity_action v frame) =
    one_call _ true _ (λ c log. stream-reply c log _) refl (to_control _ refl)
move-Once (set_heading_action l heading) =
    one_call _ true _ (λ c log. stream-reply c log _) refl (to_control _ refl)

sensor-Once :
    (a : SensorAction)
    → Raises (λ c log. execute_sensor c a log) ⊎ Orders (λ c log. execute_sensor c a log)
unfolding execute_sensor set_gimbal_pose configure_imaging_sensor_stream configure_telemetry_stream
    last_of run_streaming run_unary internal_call reply path rsplit control compute_method
sensor-Once (set_gimbal_pose_action gimbal pose mode frame) = elim (Result-cases (uint32 gimbal)) [
  | inl (id, e) ↦
      one_call (λ c log. execute_sensor c (set_gimbal_pose_action gimbal pose mode frame) log) true
        (internal_call (control "SetGimbalPose") (set_gimbal_pose_request id pose mode frame))
        (λ c log. rw (execute_sensor, set_gimbal_pose, e) (stream-reply c log _)) refl
        (to_control _ refl)
  | inr (fault, e) ↦ no_call _ fault (λ c log. rw (execute_sensor, set_gimbal_pose, e) refl)
]
sensor-Once (configure_imaging_sensor_stream_action []) =
    one_call _ false _ (λ c log. unary-reply c log _) refl (to_control _ refl)
sensor-Once (configure_imaging_sensor_stream_action (i ∷ is)) = no_call _ type_error (λ c log. refl)
sensor-Once (configure_telemetry_stream_action frequency) = elim (Result-cases (uint32 frequency)) [
  | inl (f, e) ↦
      one_call _ false
        (internal_call (control "ConfigureTelemetryStream") (configure_telemetry_stream_request f))
        (λ c log. rw (execute_sensor, configure_telemetry_stream, e) (unary-reply c log _)) refl
        (to_control _ refl)
  | inr (fault, e) ↦
      no_call _ fault (λ c log. rw (execute_sensor, configure_telemetry_stream, e) refl)
]

compute-Once :
    (a : ComputeAction)
    → Raises (λ c log. execute_compute c a log) ⊎ Orders (λ c log. execute_compute c a log)
unfolding execute_compute add_datasinks set_datasinks remove_datasinks send_datasinks
    parse_datasinks run_unary internal_call reply path rsplit control compute_method
compute-Once (add_datasinks_action []) =
    one_call _ false _ (λ c log. unary-reply c log _) refl (to_compute _ refl)
compute-Once (add_datasinks_action (d ∷ ds)) = no_call _ attribute_error (λ c log. refl)
compute-Once (set_datasinks_action []) =
    one_call _ false _ (λ c log. unary-reply c log _) refl (to_compute _ refl)
compute-Once (set_datasinks_action (d ∷ ds)) = no_call _ attribute_error (λ c log. refl)
compute-Once (remove_datasinks_action []) =
    one_call _ false _ (λ c log. unary-reply c log _) refl (to_compute _ refl)
compute-Once (remove_datasinks_action (d ∷ ds)) = no_call _ attribute_error (λ c log. refl)

-- An action raises before anything is sent, by the same exception on every channel, or it makes
-- exactly one call, the same on every channel, in the name 'internal' and to the service Control or
-- Compute of the kernel. Then it returns the reply, the response of a method that answers once or the
-- last that a stream yields, if the call does not fail, and raises a ValidationError if it fails.
pub execute-Once :
    (a : Action) → Raises (λ c log. execute c a log) ⊎ Orders (λ c log. execute c a log)
unfolding execute
execute-Once (link a) = link-Once a
execute-Once (flight a) = flight-Once a
execute-Once (move a) = move-Once a
execute-Once (sensor a) = sensor-Once a
execute-Once (compute a) = compute-Once a
