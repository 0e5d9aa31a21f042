-- ===== src/Law/Commands.antt =====
-- `LawAuthority._send_commands` of vehicle/kernel/laws/authority.py, with `native_grpc_call` and
-- `generate_response` of sdk/src/steeleagle_sdk/protocol/rpc_helpers.py.
pub mod Sends
use steeleagle.Prelude.{
  ◌>>=◌, ℕ, ◌+◌, String, Bool, true, false, none, some, List, [], ◌∷◌, ◌++◌, eqb, get_last?, all,
  key_error, value_error, index_error, Result, ok, err, lookup, split, rsplit,
}
use steeleagle.Law.Kernel.{Kernel, Call, Response, RpcError, Answer, replied, failed, Stream}

-- A command is a text from the law file, or a Protobuf object from a remote controller.
pub data Command (Packed : Type 0) : Type 0 where
  json : String → Command Packed
  proto : String → Packed → Command Packed

pub generate_response : ℕ → String → Response
generate_response resp_type resp_string = record {
  status = resp_type;
  response_string = resp_string;
}

-- `AioRpcError` to a response: the gRPC code plus two
unfoldable pub error_response : RpcError → Response
unfolding generate_response
error_response e = generate_response (e.code + 2) e.details

module _ (k : Kernel) where
  open k use {Request, Packed, name_table, streams, parse_payload, unpack, unary, stream}

  -- where a command goes
  pub record Target : Type 0 where
    pub service : String
    pub method : String
    pub streaming : Bool
    pub request : Request

  -- the full name and the payload of a JSON command
  name_payload : List String → Result (String × String)
  name_payload [] = err index_error
  name_payload (full_name ∷ []) = ok (full_name, "{}")
  name_payload (full_name ∷ payload ∷ []) = ok (full_name, payload)
  name_payload _ = err value_error

  service_method : String → Result (String × String)
  service_method full_name = elim (rsplit b'.' full_name) [ none ↦ err value_error | some p ↦ ok p ]

  -- The descriptor lookups; each miss raises a KeyError.
  find : String → String → Result (String × Bool)
  find short method = elim (lookup short name_table) [
    | none ↦ err key_error
    | some service ↦ elim (streams service method) [
      | none ↦ err key_error
      | some s ↦ ok (service, s)
    ]
  ]

  -- what the `try` block of the loop computes
  unfoldable pub resolve : Command Packed → Result Target
  unfolding name_payload service_method find split rsplit lookup
  resolve (json text) = do
    (full_name, payload) ← name_payload (split b'|' text)
    (short, method) ← service_method full_name
    (service, s) ← find short method
    request ← parse_payload service method payload
    ok (record { service = service; method = method; streaming = s; request = request })
  resolve (proto method_name packed) = do
    (short, method) ← service_method method_name
    (service, s) ← find short method
    ok (record {
      service = service;
      method = method;
      streaming = s;
      request = unpack service method packed;
    })

  -- `responses[-1]` of a stream; an empty stream raises an IndexError
  last_response : Stream → Result Response
  last_response s = elim s.failure [
    | some e ↦ ok (error_response e)
    | none ↦ elim (get_last? s.responses) [ none ↦ err index_error | some r ↦ ok r ]
  ]

  answer_response : Answer → Response
  answer_response (replied r) = r
  answer_response (failed e) = error_response e

  -- `native_grpc_call` with the handler of `AioRpcError` round it
  unfoldable pub grpc_call : Bool → List (Call Request) → Call Request → Result Response
  unfolding last_response answer_response error_response
  grpc_call true log call = last_response (stream log call)
  grpc_call false log call = ok (answer_response (unary log call))

  unfoldable pub dispatch :
      String → Result Target → List (Call Request) → Result Response × List (Call Request)
  unfolding grpc_call generate_response
  dispatch identity (ok t) log =
      let call : Call Request = record {
        identity = identity;
        service = t.service;
        method = t.method;
        request = t.request;
      } in
      (grpc_call t.streaming log call, log ++ call ∷ [])
  dispatch identity (err key_error) log =
      (ok (generate_response 5 "Command does not exist in descriptor table"), log)
  dispatch identity (err e) log = (err e, log)

  -- one round of the loop
  unfoldable pub send_one :
      String → Command Packed → List (Call Request) → Result Response × List (Call Request)
  unfolding dispatch
  send_one identity command log = dispatch identity (resolve command) log

  abbrev pub cons_result : Response → Result (List Response) → Result (List Response)
  cons_result r (ok rs) = ok (r ∷ rs)
  cons_result r (err e) = err e

  -- the loop: an exception that is no KeyError ends it
  unfoldable pub send_commands :
      String
      → List (Command Packed)
      → List (Call Request)
      → Result (List Response) × List (Call Request)
  send_commands identity [] log = (ok [], log)
  send_commands identity (c ∷ cs) log =
      let first = send_one identity c log in
      let rest = send_commands identity cs first.1 in
      elim first.0 [ err e ↦ (err e, first.1) | ok r ↦ (cons_result r rest.0, rest.1) ]

-- all(response.status == 2 for response in responses)
abbrev pub all_completed : List Response → Bool
all_completed rs = all (λ (r : Response). eqb r.status 2) rs
