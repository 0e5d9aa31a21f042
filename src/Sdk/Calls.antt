-- ===== src/Sdk/Calls.antt =====
-- sdk/src/steeleagle_sdk/api/utils.py: how the vehicle and compute API calls the kernel's services.
-- The services are the record Channel; what they answer may depend on all that was sent before. The
-- timestamps of requests and of the kernel's own responses are left out.
use steeleagle.Prelude.{
  ℕ, ◌+◌, String, Option, none, some, List, [], ◌∷◌, ◌++◌, Fault, value_error, Result, ok, err,
  ◌>>=◌,
}
use steeleagle.Prelude.Int.{ℤ}
use steeleagle.Law.Kernel.{Call, Response, RpcError, Answer, replied, failed, Stream}
use steeleagle.Dsl.Events.{Pose, Velocity, Position, Location, ReferenceFrame}
use steeleagle.Vehicle.Sinks.{Datasink}

pub data AltitudeMode : Type 0 where
  absolute relative : AltitudeMode

pub data HeadingMode : Type 0 where
  to_target heading_start : HeadingMode

pub data PoseMode : Type 0 where
  angle offset velocity : PoseMode

-- The requests that the API fills in, of the services Control and Compute. A position or a velocity
-- that is None is an unset field.
pub data Request : Type 0 where
  connect_request disconnect_request arm_request disarm_request : Request
  land_request hold_request kill_request return_to_home_request : Request
  take_off_request : ℤ → Request
  set_home_request : Location → Request
  set_global_position_request :
      Location → Option HeadingMode → Option AltitudeMode → Option Velocity → Request
  set_relative_position_request : Position → Option Velocity → Option ReferenceFrame → Request
  set_velocity_request : Velocity → Option ReferenceFrame → Request
  set_heading_request : Location → Option HeadingMode → Request
  set_gimbal_pose_request : ℕ → Pose → Option PoseMode → Option ReferenceFrame → Request
  configure_imaging_sensor_stream_request : Request
  configure_telemetry_stream_request : ℕ → Request
  add_datasinks_request set_datasinks_request remove_datasinks_request : List Datasink → Request

-- The gRPC channel to the kernel.
pub record Channel : Type 0 where
  pub unary : List (Call Request) → Call Request → Answer
  pub stream : List (Call Request) → Call Request → Stream

-- what was sent on the channel, in order
abbrev pub Log : Type 0
Log = List (Call Request)

-- A method of a stub: its service and its name.
pub record Method : Type 0 where
  pub service : String
  pub name : String

-- the value of a gRPC status code: a number, or a number with its name
pub data CodeValue : Type 0 where
  number : ℕ → CodeValue
  named : ℕ → String → CodeValue

unfoldable pub grpc_code_int : CodeValue → ℕ
grpc_code_int (number n) = n
grpc_code_int (named n name) = n

-- The field `timestamp` of `Response`: Pydantic's model of a timestamp, or Protobuf's message, which
-- is neither that model nor a text or a dict that it would be made of.
pub data Stamp : Type 0 where
  datatype_stamp : ℕ → Stamp
  protobuf_stamp : ℕ → Stamp

-- Pydantic's ValidationError is a ValueError.
unfoldable pub validate_stamp : Stamp → Result ℕ
validate_stamp (datatype_stamp t) = ok t
validate_stamp (protobuf_stamp t) = err value_error

-- `Response(…)` of api/datatypes/common.py
unfoldable pub make_response : ℕ → String → Stamp → Result Response
unfolding validate_stamp
make_response status details stamp =
    validate_stamp stamp >>= (λ t. ok (record { status = status; response_string = details }))

-- gRPC gives a code's value as the number with its name; `now_ts()` is Protobuf's message.
unfoldable pub error_to_api_response : RpcError → Result Response
unfolding grpc_code_int make_response
error_to_api_response e =
    make_response (grpc_code_int (named e.code "") + 2) e.details (protobuf_stamp 0)

-- the call that a method makes, under the default metadata
unfoldable pub internal_call : Method → Request → Call Request
internal_call m req = record {
  identity = "internal";
  service = m.service;
  method = m.name;
  request = req;
}

unfoldable pub unary_response : Answer → Result Response
unfolding error_to_api_response
unary_response (replied r) = ok r
unary_response (failed e) = error_to_api_response e

unfoldable pub run_unary : Channel → Method → Request → Log → Result Response × Log
unfolding internal_call unary_response
run_unary c m req log =
    (unary_response (c.unary log (internal_call m req)), log ++ internal_call m req ∷ [])

-- What an asynchronous generator does: the items that it yields, and then whether it raises.
pub record Yielded : Type 0 where
  pub items : List Response
  pub raises : Option Fault

-- the end of a generator whose call failed: one more item, or what making it raises
unfoldable pub yield_last : List Response → Result Response → Yielded
yield_last items (ok r) = record { items = items ++ r ∷ []; raises = none }
yield_last items (err e) = record { items = items; raises = some e }

unfoldable pub yielded : Stream → Yielded
unfolding error_to_api_response yield_last
yielded s = elim s.failure [
  | none ↦ record { items = s.responses; raises = none }
  | some e ↦ yield_last s.responses (error_to_api_response e)
]

unfoldable pub run_streaming : Channel → Method → Request → Log → Yielded × Log
unfolding internal_call yielded
run_streaming c m req log =
    (yielded (c.stream log (internal_call m req)), log ++ internal_call m req ∷ [])
