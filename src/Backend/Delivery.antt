-- ===== src/Backend/Delivery.antt =====
-- `CompileMission` of backend/server/swarm_controller/swarm_controller.py, the document that it makes of a
-- mission, and `_load` of vehicle/mission/mission_service.py. The text of a document and what dacite's
-- `from_dict` reads from it are parameters; `asdict` and what `json.dumps` refuses are written out.
mod Written
pub mod Uploaded
use steeleagle.Prelude.{
  ◌>>=◌, String, Bool, true, Option, none, some, List, [], ◌∷◌, type_error, Result, ok, err, Dict,
}
use steeleagle.Dsl.Ir.{
  Value, nil, flag, dict, Entries, no_entry, entry, array, inline, model, Values, end, item,
  Attributes, ActionIr, EventIr, DatumIr, MissionIr,
}
use steeleagle.Dsl.Ir.{text as name_value, number as number_value}
use steeleagle.Dsl.Resolver.{Schema}
use steeleagle.Dsl.Transformer.{Decl}
use steeleagle.Dsl.Validator.{compile}

mutual
  pub data Json : Type 0 where
    null : Json
    boolean : Bool → Json
    string : String → Json
    numeral : String → Json
    list : Items → Json
    object : Members → Json

  pub data Items : Type 0 where
    no_item : Items
    one_item : Json → Items → Items

  pub data Members : Type 0 where
    no_member : Members
    member : String → Json → Members → Members

-- the value of a dict under a key, behind the members read so far
unfoldable pub put_member : String → Result Json → Result Members → Result Members
put_member key value rest = do j ← value; more ← rest; ok (member key j more)

unfoldable pub put_item : Result Json → Result Items → Result Items
put_item value rest = do j ← value; more ← rest; ok (one_item j more)

unfoldable pub object_of : Result Members → Result Json
object_of members = do m ← members; ok (object m)

unfoldable pub list_of : Result Items → Result Json
list_of items = do i ← items; ok (list i)

-- an attribute's value: an instance of a class is not serializable
unfoldable mutual
  unfolding put_member put_item object_of list_of

  pub json_value : {M : Type 0} → Value M → Result Json
  json_value nil = ok null
  json_value (flag b) = ok (boolean b)
  json_value (name_value s) = ok (string s)
  json_value (number_value n) = ok (numeral n)
  json_value (array vs) = list_of (json_values vs)
  json_value (inline t args) = object_of (
      put_member "__inline__" (ok (boolean true)) (
        put_member "type" (ok (string t))
          (put_member "args" (list_of (json_values args)) (ok no_member))))
  json_value (dict es) = object_of (json_entries es)
  json_value (model m) = err type_error

  pub json_values : {M : Type 0} → Values M → Result Items
  json_values end = ok no_item
  json_values (item v vs) = put_item (json_value v) (json_values vs)

  pub json_entries : {M : Type 0} → Entries M → Result Members
  json_entries no_entry = ok no_member
  json_entries (entry key v es) = put_member key (json_value v) (json_entries es)

-- a dict, by the document of each value
unfoldable pub json_dict : {V : Type 0} → (V → Result Json) → Dict V → Result Members
json_dict f [] = ok no_member
json_dict f ((key, v) ∷ d) = put_member key (f v) (json_dict f d)

unfoldable pub json_text : String → Result Json
json_text s = ok (string s)

unfoldable pub json_edges : Dict String → Result Json
json_edges edges = object_of (json_dict json_text edges)

unfoldable pub json_start : Option String → Result Json
json_start none = ok null
json_start (some a) = ok (string a)

module _ {M : Type 0} where
  -- the three fields of an object of the mission
  unfoldable pub json_object : String → String → String → Attributes M → Result Json
  json_object type_name id_key id attributes = object_of (
      put_member "type_name" (ok (string type_name)) (
        put_member id_key (ok (string id))
          (put_member "attributes" (object_of (json_dict json_value attributes)) (ok no_member))))

  unfoldable pub json_action : ActionIr M → Result Json
  json_action a = json_object a.type_name "action_id" a.action_id a.attributes

  unfoldable pub json_event : EventIr M → Result Json
  json_event e = json_object e.type_name "event_id" e.event_id e.attributes

  unfoldable pub json_datum : DatumIr M → Result Json
  json_datum d = json_object d.type_name "datum_id" d.datum_id d.attributes

  -- the document of `asdict(mission)`
  unfoldable pub json_mission : MissionIr M → Result Json
  json_mission m = object_of (
      put_member "actions" (object_of (json_dict json_action m.actions)) (
        put_member "events" (object_of (json_dict json_event m.events)) (
          put_member "data" (object_of (json_dict json_datum m.data_irs)) (
            put_member "start_action_id" (json_start m.start_action_id) (
              put_member "transitions" (object_of (json_dict json_edges m.transitions))
                (ok no_member))))))

module _ (sc : Schema) (dumps : Json → String) where
  -- `CompileMission` behind the parser, and `cli_compile_dsl`: the text of the compiled mission
  unfoldable pub compile_mission : List Decl → Result String
  compile_mission ds = do
    mission ← compile sc ds
    document ← json_mission mission
    ok (dumps document)

-- `_load`
unfoldable pub load :
    {M : Type 0}
    → (String → Result Json)
    → (Json → Result (MissionIr M))
    → String
    → Result (MissionIr M)
load loads from_dict content = do document ← loads content; from_dict document
