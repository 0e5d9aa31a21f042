-- ===== src/Runtime/Tests.antt =====
-- sdk/src/steeleagle_sdk/dsl/runtime and vehicle/mission: the theorems at a small mission.
use steeleagle.Prelude.{
  String, ◌≡◌, refl, ◌⊎◌, inl, inr, true, false, Bool, none, some, List, [], ◌∷◌, arith, ◌==◌,
  if◌then◌else◌, Result, ok, lookup, has_key,
}
use steeleagle.Dsl.Ir.{MissionIr}
use steeleagle.Dsl.Registry.{get}
use steeleagle.Dsl.Transformer.{transform, build}
use steeleagle.Dsl.Transformer.Edges.{edge}
use steeleagle.Dsl.Transformer.Rules.{last_rule, declares}
use steeleagle.Dsl.Resolver.{resolve_symbols, resolve_data, resolve_actions, resolve_events}
use steeleagle.Dsl.Validator.{
  compile, validate_mission_ir, validate_data, validate_actions, validate_events,
}
use steeleagle.Dsl.Samples.{schema, tour, compiled}
use steeleagle.Runtime.Fsm.{
  action, event, returned, group_fails, build_action, build_event, build_events, event_ids,
  instantiate, run_state, next, start, ended, in_state,
}
use steeleagle.Runtime.Fsm.Paths.{IsClosed, start_safe}
use steeleagle.Runtime.Fsm.Compiled.{compiled_run_state}
use steeleagle.Runtime.Session.{idle, nowhere}
use steeleagle.Runtime.Session.Whole.{running}
use steeleagle.Runtime.Service.{Service, upload, start_mission, stop_mission, handle, handles}
use steeleagle.Runtime.Service.Served.{IsServed, handles-IsServed, restart_ignored}
use steeleagle.Runtime.Store.{
  parse_payload, as_result, result_model, Codec, Received, receives, get_latest,
}
use steeleagle.Runtime.Store.Latest.{payload_for, last_payload, RoundTrips, get_latest-receives}

compiled_run_state_example :
    run_state schema compiled "tour" (returned (event "low") ∷ returned (action "tour") ∷ [])
    ≡ next "lift"
unfolding compile resolve_symbols validate_mission_ir transform build get resolve_data
    resolve_actions resolve_events validate_data validate_actions validate_events declares last_rule
    build_action build_events build_event event_ids instantiate group_fails lookup
compiled_run_state_example =
    compiled_run_state schema tour compiled "tour" (event "low") (returned (action "tour") ∷ [])
      "Patrol" ("BatteryReached" ∷ []) refl refl refl refl refl

-- the mission of one state that nothing but its end leaves
abbrev single : MissionIr String
single = record {
  actions = ("lift", record { type_name = "TakeOff"; action_id = "lift"; attributes = [] }) ∷ [];
  events = [];
  data_irs = [];
  start_action_id = some "lift";
  transitions = ("lift", ("done", "terminate") ∷ []) ∷ [];
}

single-IsClosed : IsClosed schema single
unfolding build_action build_events event_ids instantiate lookup has_key get edge
single-IsClosed = record {
  builds_action = λ aid h. ("TakeOff", ground arith);
  builds_events = λ aid h. ([], ground arith);
  targets = λ aid ev n h. inl (ground arith);
}

start_safe_example :
    (start schema single "lift" ((returned (action "lift") ∷ []) ∷ []) ≡ ended)
    ⊎ ((t : String) × (start schema single "lift" ((returned (action "lift") ∷ []) ∷ [])
          ≡ in_state t)
        × (has_key t single.actions ≡ true))
unfolding group_fails has_key
start_safe_example =
    start_safe schema single "lift" ((returned (action "lift") ∷ []) ∷ []) single-IsClosed
      (inr refl) (refl, tt)

abbrev load : String → Result String
load content = ok content

abbrev flying : Service String
flying = record {
  mission = some "first";
  mission_map = none;
  routine = false;
  runtime = record (idle {Mission = String}) {
    vehicle = true;
    compute = true;
    channel = true;
    store = true;
    fsm = some "first";
    fsm_task = true;
    started = true;
  };
}

abbrev flying-IsServed : IsServed flying
flying-IsServed = record {
  no_routine = refl;
  whole = running _ "first" refl refl refl refl refl refl refl;
}

handles-IsServed_example :
    IsServed
      (handles load flying (stop_mission ∷ upload "second" "map" ∷ start_mission nowhere ∷ []))
handles-IsServed_example =
    handles-IsServed load flying (stop_mission ∷ upload "second" "map" ∷ start_mission nowhere ∷ [])
      flying-IsServed

restart_ignored_example :
    handle load (handle load flying (upload "second" "map")).0 (start_mission nowhere) ≡ (
      record flying { mission = some "second"; mission_map = some "map" },
      ok (record { status = 2; text = "" }),
    )
restart_ignored_example =
    restart_ignored load flying "second" "map" "second" nowhere flying-IsServed refl refl

-- A message is one word, and its JSON begins with the kind of message.
abbrev codec : Codec
codec = record {
  Telemetry = Bool;
  FrameResult = Bool;
  read_telemetry = λ payload. some (payload == "flying");
  read_result = λ payload. if payload == "bad" then none else some (payload == "better");
  dump_telemetry = λ t. if t then "telemetry flying" else "telemetry landed";
  dump_result = λ r. if r then "result better" else "result good";
  is_null = λ json. json == "null";
  validate_telemetry = λ json. some (json == "telemetry flying");
  validate_result = λ json. if json == "result better" then some true else some false;
}

abbrev results : List Received
results =
    record { source = "results"; frames = "object-engine" ∷ "good" ∷ []; broken = false }
    ∷ record { source = "results"; frames = "telemetry" ∷ "bad" ∷ []; broken = false }
    ∷ record { source = "results"; frames = "object-engine" ∷ "better" ∷ []; broken = true }
    ∷ []

codec-RoundTrips : RoundTrips codec
codec-RoundTrips = record {
  null = refl;
  telemetry_written = elim [ true ↦ refl | false ↦ refl ];
  result_written = elim [ true ↦ refl | false ↦ refl ];
  telemetry_read = elim [ true ↦ refl | false ↦ refl ];
  result_read = elim [ true ↦ refl | false ↦ refl ];
}

get_latest-receives_example :
    get_latest codec "results" "object-engine" (receives codec results [])
    ≡ some (result_model false)
unfolding last_payload payload_for parse_payload as_result
get_latest-receives_example =
    get_latest-receives codec "results" "object-engine" results codec-RoundTrips
