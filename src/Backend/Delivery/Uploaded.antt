-- ===== src/Backend/Delivery/Uploaded.antt =====
-- A mission on its way from the swarm controller to the mission service.
use steeleagle.Prelude.{String, ◌≡◌, refl, sym, subst, some, List, Result, ok, err, Dict}
use steeleagle.Dsl.Ir.{Attributes, ActionIr, EventIr, DatumIr, MissionIr}
use steeleagle.Dsl.Registry.{Table}
use steeleagle.Dsl.Resolver.{Schema}
use steeleagle.Dsl.Transformer.{Decl}
use steeleagle.Dsl.Validator.{compile}
use steeleagle.Dsl.Validator.Built.{Built}
use steeleagle.Dsl.Validator.Compiled.{Compiled, compile-Compiled}
use steeleagle.Runtime.Service.{Service, Reply, upload, handle, upload_mission}
use steeleagle.Backend.Delivery.{
  Json, json_action, json_event, json_datum, json_edges, json_mission, compile_mission, load,
}
use steeleagle.Backend.Delivery.Written.{
  Returns, put_member-Returns, object_of-Returns, json_dict-Returns, PlainAttributes, All-map,
  All-each, json_object-Returns, json_edges-Returns, json_start-Returns,
}

-- What an upload comes to, by what dacite makes of the document.
abbrev pub uploaded : {M : Type 0} → String → Service M → Result M → Service M × Result Reply
uploaded mp s (ok m) = (
  record s { mission = some m; mission_map = some mp },
  ok (record { status = 2; text = "Mission uploaded" }),
)
uploaded mp s (err f) = (s, err f)

load-document :
    {M : Type 0} (loads : String → Result Json) (from_dict : Json → Result (MissionIr M))
    (content : String) (j : Json)
    → loads content ≡ ok j
    → load loads from_dict content ≡ from_dict j
unfolding load
load-document loads from_dict content j back = rw back

handle-upload :
    {M : Type 0} (reader : String → Result M) (content mp : String) (r : Result M) (s : Service M)
    → reader content ≡ r
    → handle reader s (upload content mp) ≡ uploaded mp s r
unfolding handle upload_mission
handle-upload reader content mp (ok m) s e = rw (e, handle, upload_mission)
handle-upload reader content mp (err f) s e = rw (e, handle, upload_mission)

-- Every dump is plain: no instance of a class is left in it.
module _ (sc : Schema) (plain : (m : sc.Model) → PlainAttributes (sc.dump m)) where
  open sc use {Class, Model}

  dump-PlainAttributes :
      (table : Table Class) (type_name : String) (attrs : Attributes Model)
      → Built sc table type_name attrs
      → PlainAttributes attrs
  dump-PlainAttributes table type_name attrs b =
      subst PlainAttributes (sym b.dumped) (plain b.instance_of)

  json_action-Returns :
      (a : ActionIr Model) → Built sc sc.actions a.type_name a.attributes → Returns (json_action a)
  unfolding json_action
  json_action-Returns a b =
      json_object-Returns a.type_name "action_id" a.action_id a.attributes
        (dump-PlainAttributes sc.actions a.type_name a.attributes b)

  json_event-Returns :
      (e : EventIr Model) → Built sc sc.events e.type_name e.attributes → Returns (json_event e)
  unfolding json_event
  json_event-Returns e b =
      json_object-Returns e.type_name "event_id" e.event_id e.attributes
        (dump-PlainAttributes sc.events e.type_name e.attributes b)

  json_datum-Returns :
      (d : DatumIr Model)
      → Built sc sc.data_classes d.type_name d.attributes
      → Returns (json_datum d)
  unfolding json_datum
  json_datum-Returns d b =
      json_object-Returns d.type_name "datum_id" d.datum_id d.attributes
        (dump-PlainAttributes sc.data_classes d.type_name d.attributes b)

  json_mission-Returns :
      (ds : List Decl) (mir : MissionIr Model) → Compiled sc ds mir → Returns (json_mission mir)
  unfolding json_mission
  json_mission-Returns ds mir c = object_of-Returns _ (
      put_member-Returns "actions" _ _
        (object_of-Returns _ (
          json_dict-Returns json_action mir.actions (
            All-map
              (λ (e : String × ActionIr Model). Built sc sc.actions e.1.type_name e.1.attributes)
              (λ (e : String × ActionIr Model). Returns (json_action e.1)) mir.actions
              (λ e b. json_action-Returns e.1 b) c.actions_built)))
        (put_member-Returns "events" _ _
          (object_of-Returns _ (
            json_dict-Returns json_event mir.events (
              All-map
                (λ (e : String × EventIr Model). Built sc sc.events e.1.type_name e.1.attributes)
                (λ (e : String × EventIr Model). Returns (json_event e.1)) mir.events
                (λ e b. json_event-Returns e.1 b) c.events_built)))
          (put_member-Returns "data" _ _
            (object_of-Returns _ (
              json_dict-Returns json_datum mir.data_irs (
                All-map
                  (λ (e : String × DatumIr Model).
                    Built sc sc.data_classes e.1.type_name e.1.attributes)
                  (λ (e : String × DatumIr Model). Returns (json_datum e.1)) mir.data_irs
                  (λ e b. json_datum-Returns e.1 b) c.data_built)))
            (put_member-Returns "start_action_id" _ _ (json_start-Returns mir.start_action_id) (
              put_member-Returns "transitions" _ _
                (object_of-Returns _ (
                  json_dict-Returns json_edges mir.transitions (
                    All-each (λ (e : String × Dict String). Returns (json_edges e.1))
                      mir.transitions (λ e. json_edges-Returns e.1))))
                (_, refl))))))

  -- Where a dump holds no instance of a class, and JSON gives back the mission's document: a text that
  -- compiles is answered with a content, never with an error of `json.dumps`. Uploading that content, with
  -- any map and in any state of the mission service, comes to what dacite makes of the document of just
  -- this compiled mission: the mission that it reads is stored with the map and answered with status 2,
  -- and where it refuses the document, its error is raised and the service keeps its mission and map.
  pub compile_mission-upload :
      (ds : List Decl) (mir : MissionIr Model) (dumps : Json → String)
      (loads : String → Result Json) (from_dict : Json → Result (MissionIr Model))
      → ((j : Json) → json_mission mir ≡ ok j → loads (dumps j) ≡ ok j)
      → compile sc ds ≡ ok mir
      → (j : Json) × (json_mission mir ≡ ok j)
        × (compile_mission sc dumps ds ≡ ok (dumps j))
        × ((mp : String) (s : Service (MissionIr Model))
            → handle (load loads from_dict) s (upload (dumps j) mp) ≡ uploaded mp s (from_dict j))
  unfolding compile_mission
  compile_mission-upload ds mir dumps loads from_dict back compiled =
      let (j, document) = json_mission-Returns ds mir (compile-Compiled sc ds mir compiled) in
      (
        j,
        document,
        rw (compiled, document),
        λ mp s.
            handle-upload (load loads from_dict) (dumps j) mp (from_dict j) s
              (load-document loads from_dict (dumps j) j (back j document)),
      )
