-- ===== src/Vehicle/Startup.antt =====
-- vehicle/util/sockets.py, vehicle/kernel/handlers/stream_handler.py and `main` of vehicle/kernel/main.py:
-- how the kernel comes up, and what its producers make of a message. A query of the configuration gives
-- a text, another value, or an exception.
pub mod Quiet
use steeleagle.Prelude.{
  ℕ, zero, suc, ◌-◌, ◌*◌, code, String, Bool, true, false, Option, none, some, List, [], ◌∷◌, ◌++◌,
  eqb, if◌then◌else◌, length, value_error, attribute_error, name_error, Result, ok, err, ◌>>=◌,
  codes, rsplit, has_prefix, contains, concat,
}
use Prim.Native.String as Str
use steeleagle.Law.Kernel.{Kernel}
use steeleagle.Law.Authority.{Authority, start}
use steeleagle.Vehicle.Remote.{Loop}

-- A value that is no text comes with what an f-string shows of it.
pub data Value : Type 0 where
  address : String → Value
  other_value : String → Value

abbrev pub Query : Type 0
Query = String → Result Value

-- s.replace(p, r) for a pattern that is not empty; the number counts the characters of an occurrence
-- that are still to be left out
unfoldable pub replace_from : List ℕ → String → ℕ → String → String
replace_from p r skip Str.[] = Str.[]
replace_from p r (suc n) (Str.◌∷◌ c s) = replace_from p r n s
replace_from p r zero (Str.◌∷◌ c s) = elim (has_prefix p (code c ∷ codes s)) [
  | true ↦ Str.◌++◌ r (replace_from p r (length p - 1) s)
  | false ↦ Str.◌∷◌ c (replace_from p r zero s)
]

abbrev pub ipc : String → String
ipc host = replace_from (codes "unix") "ipc" 0 host

pub data SocketOperation : Type 0 where
  bind_socket connect_socket : SocketOperation

-- `host.split(':')[-1]`
unfoldable pub port_of : String → String
unfolding rsplit
port_of host = elim (rsplit b':' host) [ none ↦ host | some (front, port) ↦ port ]

unfoldable pub socket_address : String → SocketOperation → String
unfolding replace_from has_prefix contains concat port_of
socket_address host operation =
    if contains (codes "unix") (codes host) then ipc host else elim operation [
      | connect_socket ↦ concat ("tcp://" ∷ host ∷ [])
      | bind_socket ↦ concat ("tcp://*:" ∷ port_of host ∷ [])
    ]

-- `setup_zmq_socket`: the address that the socket is bound or connected to
unfoldable pub setup_zmq_socket : Query → String → SocketOperation → Result String
unfolding socket_address
setup_zmq_socket query access_token operation = elim (query access_token) [
  | err fault ↦ err fault
  | ok (other_value shown) ↦ err value_error
  | ok (address host) ↦ ok (socket_address host operation)
]

-- A Gabriel client: its server and the sockets of its producers.
pub record Client : Type 0 where
  pub server : String
  pub sockets : List String

pub record StreamHandler : Type 0 where
  pub result_socket : String
  pub local_compute_handler : Option Client
  pub remote_compute_handler : Option Client

-- the sockets of the three producers
unfoldable pub producers : Query → Result (List String)
unfolding setup_zmq_socket
producers query = do
  driver_telemetry ← setup_zmq_socket query "internal.streams.driver_telemetry" connect_socket
  imagery ← setup_zmq_socket query "internal.streams.imagery" connect_socket
  mission_telemetry ← setup_zmq_socket query "internal.streams.mission_telemetry" connect_socket
  ok (driver_telemetry ∷ imagery ∷ mission_telemetry ∷ [])

-- `replace` of a value that is no text raises
unfoldable pub local_server : Result Value → Result String
unfolding replace_from has_prefix
local_server (err fault) = err fault
local_server (ok (other_value shown)) = err attribute_error
local_server (ok (address host)) = ok (ipc host)

unfoldable pub remote_server : Result Value → Result String
unfolding concat
remote_server (err fault) = err fault
remote_server (ok (other_value shown)) = ok (concat ("tcp://" ∷ shown ∷ []))
remote_server (ok (address host)) = ok (concat ("tcp://" ∷ host ∷ []))

-- a `try` of `__init__`: any exception leaves no client
unfoldable pub attempt : Result (List String) → Result String → Option Client
attempt (err fault) server = none
attempt (ok sockets) (err fault) = none
attempt (ok sockets) (ok server) = some (record { server = server; sockets = sockets })

-- `StreamHandler.__init__`
unfoldable pub new_stream_handler : Query → Result StreamHandler
unfolding setup_zmq_socket producers local_server remote_server attempt
new_stream_handler query = do
  result_socket ← setup_zmq_socket query "internal.streams.results" bind_socket
  ok (record {
    result_socket = result_socket;
    local_compute_handler =
        attempt (producers query) (local_server (query "internal.streams.local_compute"));
    remote_compute_handler =
        attempt (producers query) (remote_server (query "cloudlet.remote_compute_service"));
  })

-- `start`: the clients that are launched
unfoldable pub launched : StreamHandler → List Client
launched s =
    (elim s.local_compute_handler [ none ↦ [] | some c ↦ c ∷ [] ])
    ++ (elim s.remote_compute_handler [ none ↦ [] | some c ↦ c ∷ [] ])

-- What a producer receives: the parts of a message, or an exception.
pub data Received {ℓ} (M : Type ℓ) : Type ℓ where
  broken : Received M
  parts : List (Result M) → Received M

-- `_base_producer`: anything but two parts is no message; parsing the second part may raise.
unfoldable pub produce_message {ℓ} : {M : Type ℓ} → Received M → Result (Option M)
produce_message broken = ok none
produce_message (parts (topic ∷ message ∷ [])) = message >>= (λ m. ok (some m))
produce_message (parts other) = ok none

-- A raw frame: its bytes and its resolution; `about` is the id, the time and the information about the
-- vehicle and its sensors.
pub record RawFrame : Type 0 where
  pub image : List ℕ
  pub v_res : ℕ
  pub h_res : ℕ
  pub channels : ℕ
  pub about : String

pub record EncodedFrame : Type 0 where
  pub jpeg : List ℕ
  pub info : String

unfoldable pub encode_frame : (List ℕ → List ℕ) → RawFrame → Result (Option EncodedFrame)
encode_frame jpg f =
    if eqb (length f.image) (f.v_res * f.h_res * f.channels)
    then ok (some (record { jpeg = jpg f.image; info = f.about }))
    else err value_error

-- `produce_image`: the handler of the exception names `proto_class`, which is not there.
unfoldable pub produce_image : (List ℕ → List ℕ) → Received RawFrame → Result (Option EncodedFrame)
unfolding encode_frame
produce_image jpg broken = err name_error
produce_image jpg (parts (topic ∷ message ∷ [])) = message >>= encode_frame jpg
produce_image jpg (parts other) = err name_error

module _ (k : Kernel) where
  -- the argument of `rc_handler.start`: a missing timeout is None, which counts as 0
  unfoldable pub failsafe_timeout : Result ℕ → Result ℕ
  failsafe_timeout (ok t) = ok t
  failsafe_timeout (err value_error) = ok 0
  failsafe_timeout (err fault) = err fault

  abbrev pub listening : Authority k → Loop k
  listening a = record { authority = a; last_manual_command_ts = none; pending = []; alive = true }

  -- what follows the start of the authority: the command loop with its timeout, none where the server
  -- is stopped again
  unfoldable pub served : Result ℕ → Result Bool × Authority k → Result (Option (ℕ × Loop k))
  unfolding failsafe_timeout
  served configured (err fault, a) = err fault
  served configured (ok false, a) = ok none
  served configured (ok true, a) = failsafe_timeout configured >>= (λ t. ok (some (t, listening a)))

  -- `main` behind the start of the server
  unfoldable pub kernel_main : List String → Result ℕ → Authority k → Result (Option (ℕ × Loop k))
  unfolding served
  kernel_main texts configured a = served configured (start k texts a)
