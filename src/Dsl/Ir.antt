-- ===== src/Dsl/Ir.antt =====
-- sdk/src/steeleagle_sdk/dsl/compiler/ir.py, with the values that attributes hold.
use steeleagle.Prelude.{String, Bool, Option, Dict}

-- An attribute's value. `number` keeps the literal that `float` reads; `inline` is the dict of an
-- inline constructor and `dict` any other dict, as `model_dump()` makes one of a nested model; `model`
-- is an instance of a Pydantic class.
mutual
  pub data Value (M : Type 0) : Type 0 where
    nil : Value M
    flag : Bool → Value M
    text : String → Value M
    number : String → Value M
    array : Values M → Value M
    inline : String → Values M → Value M
    dict : Entries M → Value M
    model : M → Value M

  pub data Values (M : Type 0) : Type 0 where
    end : Values M
    item : Value M → Values M → Values M

  pub data Entries (M : Type 0) : Type 0 where
    no_entry : Entries M
    entry : String → Value M → Entries M → Entries M

abbrev pub Attributes : Type 0 → Type 0
Attributes M = Dict (Value M)

-- `ActionIR`, `EventIR` and `DatumIR`, each stored under its id.
pub record ActionIr (M : Type 0) : Type 0 where
  pub type_name : String
  pub action_id : String
  pub attributes : Attributes M

pub record EventIr (M : Type 0) : Type 0 where
  pub type_name : String
  pub event_id : String
  pub attributes : Attributes M

pub record DatumIr (M : Type 0) : Type 0 where
  pub type_name : String
  pub datum_id : String
  pub attributes : Attributes M

-- `transitions` maps an action's id and an event's id to the next action's id.
pub record MissionIr (M : Type 0) : Type 0 where
  pub actions : Dict (ActionIr M)
  pub events : Dict (EventIr M)
  pub data_irs : Dict (DatumIr M)
  pub start_action_id : Option String
  pub transitions : Dict (Dict String)

abbrev pub done_event : String
done_event = "done"

abbrev pub terminate : String
terminate = "terminate"
