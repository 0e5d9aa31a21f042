-- ===== src/Dsl/Validator.antt =====
-- sdk/src/steeleagle_sdk/dsl/compiler/validator.py: every object of a mission is built by its class,
-- and its attributes become the dump of the instance.
pub mod Built
pub mod Compiled
use steeleagle.Prelude.{
  ◌>>=◌, String, none, some, List, [], ◌∷◌, value_error, validator_exception, Result, ok, err, Dict,
}
use steeleagle.Dsl.Ir.{Attributes, ActionIr, EventIr, DatumIr, MissionIr}
use steeleagle.Dsl.Registry.{Table, get}
use steeleagle.Dsl.Resolver.{Schema, resolve_symbols}
use steeleagle.Dsl.Transformer.{Decl, initial, transform, build}

module _ (sc : Schema) where
  open sc use {Class, Model, construct, dump}

  -- `_instantiate`: whatever the class raises is raised again as a ValidatorException
  unfoldable pub instantiate : Class → Attributes Model → Result Model
  instantiate cls attrs = elim (construct cls attrs) [
    | ok m ↦ ok m
    | err e ↦ err validator_exception
  ]

  -- `validate_action`, `validate_event` and `validate_data`
  unfoldable pub validate :
      Table Class → String → Attributes Model → Result (Class × Attributes Model)
  unfolding instantiate
  validate table type_name attrs = elim (get type_name table) [
    | none ↦ err validator_exception
    | some cls ↦ (do m ← instantiate cls attrs; ok (cls, dump m))
  ]

  -- the `try` round one object: a ValidatorException becomes a ValueError
  unfoldable pub normalized : Table Class → String → Attributes Model → Result (Attributes Model)
  unfolding validate
  normalized table type_name attrs = elim (validate table type_name attrs) [
    | ok p ↦ ok p.1
    | err validator_exception ↦ err value_error
    | err e ↦ err e
  ]

  unfoldable pub validate_data : Dict (DatumIr Model) → Result (Dict (DatumIr Model))
  unfolding normalized
  validate_data [] = ok []
  validate_data ((did, d) ∷ rest) = do
    attrs ← normalized sc.data_classes d.type_name d.attributes
    done ← validate_data rest
    ok ((did, record d { attributes = attrs }) ∷ done)

  unfoldable pub validate_actions : Dict (ActionIr Model) → Result (Dict (ActionIr Model))
  unfolding normalized
  validate_actions [] = ok []
  validate_actions ((aid, a) ∷ rest) = do
    attrs ← normalized sc.actions a.type_name a.attributes
    done ← validate_actions rest
    ok ((aid, record a { attributes = attrs }) ∷ done)

  unfoldable pub validate_events : Dict (EventIr Model) → Result (Dict (EventIr Model))
  unfolding normalized
  validate_events [] = ok []
  validate_events ((eid, e) ∷ rest) = do
    attrs ← normalized sc.events e.type_name e.attributes
    done ← validate_events rest
    ok ((eid, record e { attributes = attrs }) ∷ done)

  unfoldable pub validate_mission_ir : MissionIr Model → Result (MissionIr Model)
  validate_mission_ir mir = do
    data_irs ← validate_data mir.data_irs
    actions ← validate_actions mir.actions
    events ← validate_events mir.events
    ok (record mir { data_irs = data_irs; actions = actions; events = events })

  -- `start` of the transformer behind the parser, with the registries loaded: what `build_mission`
  -- returns for the declarations of a text
  unfoldable pub compile : List Decl → Result (MissionIr Model)
  compile ds = do mir ← resolve_symbols sc (build (transform initial ds)); validate_mission_ir mir
