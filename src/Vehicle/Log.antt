-- ===== src/Vehicle/Log.antt =====
-- vehicle/util/log.py: `logger.proto`, the colours of the console, the handler that sends records to the
-- flight log, and `setup_logging`. Python's `logging` and the stub of the flight log are parameters.
use steeleagle.Prelude.{
  ℕ, ◌+◌, ◌-◌, String, ◌≡◌, ◌⊎◌, inl, inr, Bool, true, ◌&&◌, Option, none, some, List, [], ◌∷◌,
  ◌++◌, map, leb, eqb, if◌then◌else◌, Fault, Result, ok, err, codes, concat,
}
use steeleagle.Dsl.Registry.{same_codes}
use steeleagle.Vehicle.Config.{Config, query_config}

abbrev pub proto_level : ℕ
proto_level = 20 + 5

-- What a handler reads of a record: `message` is `getMessage()`, which may raise.
pub record LogRecord : Type 0 where
  pub level_number : ℕ
  pub level_name : String
  pub name : String
  pub message : Result String

-- `logger.proto`: the name of the message's type and what `MessageToDict` makes of it
unfoldable pub proto : String → Bool → String → String → Option LogRecord
proto logger enabled type_name dict =
    if enabled
    then some (record {
      level_number = proto_level;
      level_name = "PROTO";
      name = logger;
      message = ok (concat (type_name ∷ " | " ∷ dict ∷ []));
    })
    else none

-- the colour for a level, `gray` first
unfoldable pub color : ℕ → Option String
color n =
    if eqb n 10
    then some "\u{1b}[90m"
    else if eqb n 20
    then some "\u{1b}[92m"
    else if eqb n proto_level
    then some "\u{1b}[38;5;69m"
    else if eqb n 30
    then some "\u{1b}[93m"
    else if eqb n 40
    then some "\u{1b}[91m"
    else if eqb n 50
    then some "\u{1b}[38;5;206m"
    else none

abbrev reset : String
reset = "\u{1b}[0m"

-- `FORMATS.get(record.levelno)`; the formatter of `none` is logging's own default
unfoldable pub format_for : ℕ → Option String
unfolding color concat
format_for n = elim (color n) [
  | none ↦ none
  | some c ↦ some (
      concat
        ("%(asctime)s [" ∷ reset ∷ c ∷ "%(levelname)s" ∷ reset ∷ "] %(name)s: %(message)s" ∷ []))
]

pub data LogType : Type 0 where
  debug info proto_message warning error critical : LogType

unfoldable pub upper_code : ℕ → ℕ
upper_code c = if leb b'a' c && leb c b'z' then c - 32 else c

abbrev is_level : String → String → Bool
is_level name wanted = same_codes (map upper_code (codes name)) (codes wanted)

-- `getattr(LogType, record.levelname.upper())`, where `none` is the AttributeError
unfoldable pub log_type : String → Option LogType
unfolding upper_code
log_type s =
    if is_level s "DEBUG"
    then some debug
    else if is_level s "INFO"
    then some info
    else if is_level s "PROTO"
    then some proto_message
    else if is_level s "WARNING"
    then some warning
    else if is_level s "ERROR"
    then some error
    else if is_level s "CRITICAL"
    then some critical
    else none

pub record LogRequest : Type 0 where
  pub topic : String
  pub kind : LogType
  pub msg : String

-- What the call of the stub does: it answers, or it raises an RpcError or another exception.
pub data Call : Type 0 where
  answered rpc_error : Call
  broken : Fault → Call

-- the requests that the handler has made, and how often `handleError` was called
pub record Emitted : Type 0 where
  pub requests : List LogRequest
  pub errors : ℕ

unfoldable pub handle_error : Emitted → Emitted
handle_error s = record s { errors = s.errors + 1 }

unfoldable pub after_call : Call → Emitted → Emitted
unfolding handle_error
after_call answered s = s
after_call rpc_error s = s
after_call (broken e) s = handle_error s

-- `FlightLogHandler.emit`
unfoldable pub emit : (LogRequest → Call) → LogRecord → Emitted → Emitted
unfolding log_type handle_error after_call
emit stub r s = elim (log_type r.level_name) [
  | none ↦ handle_error s
  | some kind ↦ elim r.message [
    | err e ↦ handle_error s
    | ok msg ↦
        let request : LogRequest = record { topic = r.name; kind = kind; msg = msg } in
        after_call (stub request) (record s { requests = s.requests ++ (request ∷ []) })
  ]
]

-- a logger's record, if it makes one, at the handler
unfoldable pub emit_record : (LogRequest → Call) → Option LogRecord → Emitted → Emitted
unfolding emit
emit_record stub none s = s
emit_record stub (some r) s = emit stub r s

-- An enabled `logger.proto` makes exactly one request, of type PROTO, with the message's name and content,
-- and a flight log that does not answer is no error.
proto-emitted :
    (stub : LogRequest → Call) (logger type_name dict : String) (s : Emitted)
    → ((r : LogRequest) → (stub r ≡ answered) ⊎ (stub r ≡ rpc_error))
    → emit_record stub (proto logger true type_name dict) s ≡ record s {
      requests =
          s.requests
          ++ (record {
            topic = logger;
            kind = proto_message;
            msg = concat (type_name ∷ " | " ∷ dict ∷ []);
          }
              ∷ []);
    }
unfolding emit_record proto emit log_type after_call upper_code
proto-emitted stub logger type_name dict s reached =
    elim (reached (record {
      topic = logger;
      kind = proto_message;
      msg = concat (type_name ∷ " | " ∷ dict ∷ []);
    })) [ inl e ↦ rw e | inr e ↦ rw e ]

-- the handlers of the root logger, the latest last, and its level
pub data Handler (V : Type 0) : Type 0 where
  flight_log : Config V → Handler V
  console : Handler V

pub record Root (V : Type 0) : Type 0 where
  pub handlers : List (Handler V)
  pub level : Option (Config V)

module _ {V : Type 0} (config internal : Config V) (truthy : Config V → Bool) where
  unfoldable pub add_flight_log : Root V → Root V × Option Fault
  unfolding query_config
  add_flight_log r = elim (query_config config internal "logging.generate_flight_log") [
    | err e ↦ (r, some e)
    | ok wanted ↦
        if truthy wanted
        then (elim (query_config config internal "internal.services.flight_log") [
          | err e ↦ (r, some e)
          | ok address ↦ (record r { handlers = r.handlers ++ (flight_log address ∷ []) }, none)
        ])
        else (r, none)
  ]

  unfoldable pub set_level : Root V → Root V × Option Fault
  unfolding query_config
  set_level r = elim (query_config config internal "logging.log_level") [
    | err e ↦ (r, some e)
    | ok level ↦ (record r { level = some level }, none)
  ]

  -- `setup_logging`, for a level that `setLevel` takes
  unfoldable pub setup_logging : Root V → Root V × Option Fault
  unfolding add_flight_log set_level
  setup_logging r =
      let (s, failed) = add_flight_log r in
      elim failed [
        | some e ↦ (s, some e)
        | none ↦ set_level (record s { handlers = s.handlers ++ (console ∷ []) })
      ]
