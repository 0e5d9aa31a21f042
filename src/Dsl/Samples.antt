-- ===== src/Dsl/Samples.antt =====
-- sdk/src/steeleagle_sdk/dsl: one class for every name and a small mission, for the tests.
use steeleagle.Prelude.{String, some, List, [], ◌∷◌, ok, codes}
use steeleagle.Dsl.Ir.{MissionIr}
use steeleagle.Dsl.Transformer.{
  Decl, number_token, action_decl, event_decl, mission_start, during_block,
}
use steeleagle.Dsl.Resolver.{Schema, class}

-- A class is its name and an instance is its attributes; Patrol has one field, a model.
abbrev pub schema : Schema
schema = record {
  Class = String;
  Model = String;
  actions = (codes "takeoff", "TakeOff") ∷ (codes "patrol", "Patrol") ∷ [];
  events = (codes "batteryreached", "BatteryReached") ∷ [];
  data_classes = [];
  fields = λ c. ("along", class "Waypoints") ∷ [];
  construct = λ c attrs. ok c;
  dump = λ m. [];
}

-- Start with lift: on done go to tour; in tour a low battery leads back to lift.
abbrev pub tour : List Decl
tour =
    action_decl "TakeOff" "lift" (("altitude", number_token "10") ∷ [])
    ∷ action_decl "Patrol" "tour" []
    ∷ event_decl "BatteryReached" "low" []
    ∷ mission_start "lift"
    ∷ during_block "lift" (("done", "tour") ∷ [])
    ∷ during_block "tour" (("low", "lift") ∷ [])
    ∷ []

-- what it compiles to
abbrev pub compiled : MissionIr String
compiled = record {
  actions =
      ("lift", record { type_name = "TakeOff"; action_id = "lift"; attributes = [] })
      ∷ ("tour", record { type_name = "Patrol"; action_id = "tour"; attributes = [] })
      ∷ [];
  events = ("low", record { type_name = "BatteryReached"; event_id = "low"; attributes = [] }) ∷ [];
  data_irs = [];
  start_action_id = some "lift";
  transitions =
      ("lift", ("done", "tour") ∷ []) ∷ ("tour", ("low", "lift") ∷ ("done", "terminate") ∷ []) ∷ [];
}
