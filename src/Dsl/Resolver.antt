-- ===== src/Dsl/Resolver.antt =====
-- sdk/src/steeleagle_sdk/dsl/compiler/resolver.py: ids and inline constructors in attributes become
-- instances of the registered classes.
use steeleagle.Prelude.{
  ◌>>=◌, String, none, some, [], ◌∷◌, resolver_exception, Result, ok, err, Dict, lookup, insert,
}
use steeleagle.Dsl.Ir.{
  Value, nil, flag, dict, text, number, array, inline, model, Values, end, item, Attributes,
  ActionIr, EventIr, DatumIr, MissionIr,
}
use steeleagle.Dsl.Registry.{Table, get}

-- A field's annotation, as far as the resolver looks at it; `other` is any type that it passes over.
mutual
  pub data FieldType (C : Type 0) : Type 0 where
    none_type : FieldType C
    annotated : FieldType C → FieldType C
    union : FieldTypes C → FieldType C
    list_of : FieldType C → FieldType C
    bare_list : FieldType C
    class : C → FieldType C
    other : FieldType C

  pub data FieldTypes (C : Type 0) : Type 0 where
    no_types : FieldTypes C
    types : FieldType C → FieldTypes C → FieldTypes C

-- `_unwrap_type`. The second function unwraps the members of a union other than None.
unfoldable mutual
  pub unwrap_type : {C : Type 0} → FieldType C → FieldType C
  unwrap_type none_type = none_type
  unwrap_type (annotated t) = unwrap_type t
  unwrap_type (union ts) = elim (unwrap_types ts) [
    | types t rest ↦ elim rest [ no_types ↦ t | types u r ↦ union ts ]
    | no_types ↦ union ts
  ]
  unwrap_type (list_of t) = list_of t
  unwrap_type bare_list = bare_list
  unwrap_type (class c) = class c
  unwrap_type other = other

  pub unwrap_types : {C : Type 0} → FieldTypes C → FieldTypes C
  unwrap_types no_types = no_types
  unwrap_types (types none_type ts) = unwrap_types ts
  unwrap_types (types (annotated t) ts) = types (unwrap_type t) (unwrap_types ts)
  unwrap_types (types (union us) ts) = types (unwrap_type (union us)) (unwrap_types ts)
  unwrap_types (types (list_of t) ts) = types (list_of t) (unwrap_types ts)
  unwrap_types (types bare_list ts) = types bare_list (unwrap_types ts)
  unwrap_types (types (class c) ts) = types (class c) (unwrap_types ts)
  unwrap_types (types other ts) = types other (unwrap_types ts)

-- The classes that the missions use, and what Pydantic does with them.
pub record Schema : Type 1 where
  pub Class : Type 0
  pub Model : Type 0
  -- the registries after `load_all`
  pub actions : Table Class
  pub events : Table Class
  pub data_classes : Table Class
  -- `_iter_model_fields`
  pub fields : Class → Dict (FieldType Class)
  -- `cls(**attrs)`; an `err` is what Pydantic raises
  pub construct : Class → Attributes Model → Result Model
  -- `model.model_dump()`
  pub dump : Model → Attributes Model

module _ (sc : Schema) where
  open sc use {Class, Model, data_classes, fields, construct}

  -- `_instantiate_data_from_ir`, whose None leaves the text as it is
  unfoldable pub from_datum : String → Dict (DatumIr Model) → Result (Value Model)
  unfolding lookup
  from_datum did data_irs = elim (lookup did data_irs) [
    | none ↦ ok (text did)
    | some d ↦ elim (get d.type_name data_classes) [
      | none ↦ err resolver_exception
      | some cls ↦ (do m ← construct cls d.attributes; ok (model m))
    ]
  ]

  -- a value that is neither None nor an inline constructor, at a field that is a model
  at_class : Value Model → Dict (DatumIr Model) → Result (Value Model)
  unfolding from_datum
  at_class (text s) data_irs = from_datum s data_irs
  at_class v data_irs = ok v

  -- `_resolve_value_for_field`, and the loops over the items of a list and over the arguments of an
  -- inline constructor
  unfoldable mutual
    unfolding at_class unwrap_type

    pub resolve_value : Value Model → FieldType Class → Dict (DatumIr Model) → Result (Value Model)
    resolve_value nil t data_irs = ok nil
    resolve_value (inline type_name args) t data_irs = elim (get type_name data_classes) [
      | none ↦ err resolver_exception
      | some cls ↦ (do
        kwargs ← resolve_args args (fields cls) data_irs
        m ← construct cls kwargs
        ok (model m))
    ]
    resolve_value (array vs) t data_irs = elim (unwrap_type t) [
      | list_of inner ↦ (do rs ← resolve_items vs inner data_irs; ok (array rs))
      | bare_list ↦ (do rs ← resolve_items vs other data_irs; ok (array rs))
      | _ ↦ ok (array vs)
    ]
    resolve_value (text s) t data_irs = elim (unwrap_type t) [
      | class c ↦ at_class (text s) data_irs
      | _ ↦ ok (text s)
    ]
    resolve_value (flag b) t data_irs = ok (flag b)
    resolve_value (number s) t data_irs = ok (number s)
    resolve_value (dict es) t data_irs = ok (dict es)
    resolve_value (model m) t data_irs = ok (model m)

    pub resolve_items :
        Values Model → FieldType Class → Dict (DatumIr Model) → Result (Values Model)
    resolve_items end t data_irs = ok end
    resolve_items (item v vs) t data_irs = do
      r ← resolve_value v t data_irs
      rs ← resolve_items vs t data_irs
      ok (item r rs)

    -- arguments beyond the fields are not read; fields beyond the arguments are left out
    pub resolve_args :
        Values Model → Dict (FieldType Class) → Dict (DatumIr Model) → Result (Attributes Model)
    resolve_args end fs data_irs = ok []
    resolve_args (item v vs) [] data_irs = ok []
    resolve_args (item v vs) ((name, t) ∷ fs) data_irs = do
      r ← resolve_value v t data_irs
      rest ← resolve_args vs fs data_irs
      ok ((name, r) ∷ rest)

  -- the loop over a class's fields: each field that the attributes hold is resolved in its place
  unfoldable pub resolve_fields :
      Dict (FieldType Class) → Attributes Model → Dict (DatumIr Model) → Result (Attributes Model)
  unfolding lookup insert resolve_value
  resolve_fields [] attrs data_irs = ok attrs
  resolve_fields ((name, t) ∷ fs) attrs data_irs = elim (lookup name attrs) [
    | none ↦ resolve_fields fs attrs data_irs
    | some v ↦ (do r ← resolve_value v t data_irs; resolve_fields fs (insert name r attrs) data_irs)
  ]

  -- one object of a mission: its class, and its attributes resolved
  unfoldable pub resolve_object :
      Table Class → String → Attributes Model → Dict (DatumIr Model) → Result (Attributes Model)
  unfolding resolve_fields
  resolve_object table type_name attrs data_irs = elim (get type_name table) [
    | none ↦ err resolver_exception
    | some cls ↦ resolve_fields (fields cls) attrs data_irs
  ]

  -- The loop over the data: each object sees those before it resolved.
  unfoldable pub resolve_data :
      Dict (DatumIr Model) → Dict (DatumIr Model) → Result (Dict (DatumIr Model))
  unfolding resolve_object insert
  resolve_data [] data_irs = ok data_irs
  resolve_data ((did, d) ∷ rest) data_irs = do
    attrs ← resolve_object data_classes d.type_name d.attributes data_irs
    resolve_data rest (insert did (record d { attributes = attrs }) data_irs)

  unfoldable pub resolve_actions :
      Dict (ActionIr Model) → Dict (DatumIr Model) → Result (Dict (ActionIr Model))
  unfolding resolve_object
  resolve_actions [] data_irs = ok []
  resolve_actions ((aid, a) ∷ rest) data_irs = do
    attrs ← resolve_object sc.actions a.type_name a.attributes data_irs
    done ← resolve_actions rest data_irs
    ok ((aid, record a { attributes = attrs }) ∷ done)

  unfoldable pub resolve_events :
      Dict (EventIr Model) → Dict (DatumIr Model) → Result (Dict (EventIr Model))
  unfolding resolve_object
  resolve_events [] data_irs = ok []
  resolve_events ((eid, e) ∷ rest) data_irs = do
    attrs ← resolve_object sc.events e.type_name e.attributes data_irs
    done ← resolve_events rest data_irs
    ok ((eid, record e { attributes = attrs }) ∷ done)

  unfoldable pub resolve_symbols : MissionIr Model → Result (MissionIr Model)
  resolve_symbols mir = do
    data_irs ← resolve_data mir.data_irs mir.data_irs
    actions ← resolve_actions mir.actions data_irs
    events ← resolve_events mir.events data_irs
    ok (record mir { data_irs = data_irs; actions = actions; events = events })
