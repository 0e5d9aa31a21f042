-- ===== src/Law/Kernel.antt =====
-- What vehicle/kernel/laws/authority.py takes from elsewhere: the descriptor table of the Protobuf
-- files, the JSON codec of Protobuf, and the services that answer its gRPC calls.
use steeleagle.Prelude.{ℕ, String, Bool, List, Option, Result, Dict}

-- one call that was made on the channel to the kernel services
pub record Call (Request : Type 0) : Type 0 where
  pub identity : String
  pub service : String
  pub method : String
  pub request : Request

-- `Response` of protocol/common.proto, less its timestamp
pub record Response : Type 0 where
  pub status : ℕ
  pub response_string : String

-- An `AioRpcError`: its gRPC code and its details.
pub record RpcError : Type 0 where
  pub code : ℕ
  pub details : String

-- What a unary call comes to.
pub data Answer : Type 0 where
  replied : Response → Answer
  failed : RpcError → Answer

-- What a streaming call comes to: the responses, and the error that ended them if any did.
pub record Stream : Type 0 where
  pub responses : List Response
  pub failure : Option RpcError

pub record Kernel : Type 1 where
  -- messages, messages packed in an `Any`, and decoded JSON values
  pub Request : Type 0
  pub Packed : Type 0
  pub Value : Type 0
  -- Python's `==` on JSON values
  pub same : Value → Value → Bool
  -- `json.loads`, where the text holds an object; `none` where it raises or holds something else
  pub loads : String → Option (Dict Value)
  -- `MessageToDict`; `none` where it raises
  pub to_dict : Request → Option (Dict Value)
  -- the short names of the services, with their full names
  pub name_table : Dict String
  -- the method of a service: whether it streams its responses; `none` where the pool has no such
  -- method and raises a KeyError
  pub streams : String → String → Option Bool
  -- `ParseDict(json.loads(payload), request)` for the request type of a method
  pub parse_payload : String → String → String → Result Request
  -- `Unpack` into the request type of a method
  pub unpack : String → String → Packed → Request
  -- the services: what they answer may depend on all that was sent before
  pub unary : List (Call Request) → Call Request → Answer
  pub stream : List (Call Request) → Call Request → Stream
