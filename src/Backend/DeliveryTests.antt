-- ===== src/Backend/DeliveryTests.antt =====
-- backend/server/swarm_controller/swarm_controller.py and vehicle/mission/mission_service.py: a small mission
-- that is compiled and uploaded.
use steeleagle.Prelude.{String, ◌≡◌, refl, type_error, ok, err, sym, ◌∙◌}
use steeleagle.Dsl.Ir.{MissionIr, array, number, item, end, model}
use steeleagle.Dsl.Samples.{schema, tour, compiled}
use steeleagle.Dsl.Transformer.{transform, build}
use steeleagle.Dsl.Registry.{get}
use steeleagle.Dsl.Resolver.{resolve_data, resolve_actions, resolve_events, resolve_symbols}
use steeleagle.Dsl.Validator.{
  validate_data, validate_actions, validate_events, validate_mission_ir, compile,
}
use steeleagle.Runtime.Service.{Service, upload, handle}
use steeleagle.Backend.Delivery.{
  Json, string, object, member, no_member, put_member, put_item, object_of, list_of, json_value,
  json_values, json_dict, json_object, json_action, json_event, json_datum, json_text, json_edges,
  json_start, json_mission, compile_mission, load,
}
use steeleagle.Backend.Delivery.Uploaded.{uploaded, compile_mission-upload}

abbrev entry : String → String → String → Json
entry type_name id_key id = object (
    member "type_name" (string type_name)
      (member id_key (string id) (member "attributes" (object no_member) no_member)))

abbrev document : Json
document = object (
    member "actions"
      (object (
        member "lift" (entry "TakeOff" "action_id" "lift")
          (member "tour" (entry "Patrol" "action_id" "tour") no_member)))
      (member "events" (object (member "low" (entry "BatteryReached" "event_id" "low") no_member)) (
        member "data" (object no_member) (
          member "start_action_id" (string "lift") (
            member "transitions"
              (object (
                member "lift" (object (member "done" (string "tour") no_member)) (
                  member "tour"
                    (object
                      (member "low" (string "lift") (member "done" (string "terminate") no_member)))
                    no_member)))
              no_member)))))

document_of_compiled : json_mission compiled ≡ ok document
unfolding json_mission json_action json_event json_datum json_object json_dict json_value json_start
    json_edges json_text put_member object_of
document_of_compiled = refl

tour_compiles : compile schema tour ≡ ok compiled
unfolding compile resolve_symbols validate_mission_ir transform build get resolve_data
    resolve_actions resolve_events validate_data validate_actions validate_events
tour_compiles = refl

compile_mission-upload_example :
    (j : Json) × (json_mission compiled ≡ ok j)
    × (compile_mission schema (λ j. "mission") tour ≡ ok "mission")
    × ((mp : String) (s : Service (MissionIr String))
        → handle (load (λ t. ok document) (λ j. ok compiled)) s (upload "mission" mp)
          ≡ uploaded mp s (ok compiled))
compile_mission-upload_example =
    compile_mission-upload schema (λ m. tt) tour compiled (λ j. "mission") (λ t. ok document)
      (λ j. ok compiled) (λ j e. sym document_of_compiled ∙ e) tour_compiles

-- an instance of a class is not serializable
json_value-model_example :
    json_value {M = String} (array (item (number "1") (item (model "camera") end))) ≡ err type_error
unfolding json_value json_values put_item list_of
json_value-model_example = refl
