-- ===== src/Dsl/Transformer.antt =====
-- sdk/src/steeleagle_sdk/dsl/compiler/transformer.py: the callbacks of `DroneDSLTransformer` over the
-- parse tree, in the order in which the tree is walked, and the mission that `start` builds.
pub mod Edges
pub mod Unique
pub mod Rules
use steeleagle.Prelude.{
  String, Option, none, some, List, [], ◌∷◌, map, Dict, lookup, insert, set_default,
}
use steeleagle.Dsl.Ir.{
  Value, nil, text, number, array, inline, Values, end, item, Attributes, ActionIr, EventIr,
  DatumIr, MissionIr, done_event, terminate,
}

-- The tree below a `value` node of the grammar.
mutual
  pub data Tree : Type 0 where
    number_token name_token : String → Tree
    none_token : Tree
    array_node : Trees → Tree
    datum_node : String → Trees → Tree

  pub data Trees : Type 0 where
    no_tree : Trees
    tree : Tree → Trees → Trees

-- `value`, `array`, `datum_args` and `datum_inline`
unfoldable mutual
  pub to_value : {M : Type 0} → Tree → Value M
  to_value (number_token s) = number s
  to_value (name_token s) = text s
  to_value none_token = nil
  to_value (array_node ts) = array (to_values ts)
  to_value (datum_node type_name ts) = inline type_name (to_values ts)

  pub to_values : {M : Type 0} → Trees → Values M
  to_values no_tree = end
  to_values (tree t ts) = item (to_value t) (to_values ts)

-- the declarations of a mission in the order of the text
pub data Decl : Type 0 where
  datum_decl action_decl event_decl : String → String → List (String × Tree) → Decl
  mission_start : String → Decl
  during_block : String → List (String × String) → Decl

-- `_pairs_to_dict`: `dict(pairs)`, where a later pair overwrites an earlier one
unfoldable pub pairs_to_dict {ℓ} : {V : Type ℓ} → List (String × V) → Dict V → Dict V
unfolding insert
pairs_to_dict [] d = d
pairs_to_dict ((k, v) ∷ rest) d = pairs_to_dict rest (insert k v d)

-- `attr`
unfoldable pub attr : {M : Type 0} → String × Tree → String × Value M
unfolding to_value
attr (k, t) = (k, to_value t)

-- the fields of the transformer
pub record State (M : Type 0) : Type 0 where
  pub actions : Dict (ActionIr M)
  pub events : Dict (EventIr M)
  pub data_irs : Dict (DatumIr M)
  pub start_aid : Option String
  pub during : Dict (Dict String)

-- the rules of one `During` block, written over those of earlier blocks of the same action
unfoldable pub add_rules : String → List (String × String) → Dict (Dict String) → Dict (Dict String)
unfolding lookup insert pairs_to_dict
add_rules aid rules during = elim (lookup aid during) [
  | none ↦ insert aid (pairs_to_dict rules []) during
  | some old ↦ insert aid (pairs_to_dict rules old) during
]

-- `am = transitions.setdefault(aid, {}); am.update(evmap)`
unfoldable pub copy_edges : Dict (Dict String) → Dict (Dict String) → Dict (Dict String)
unfolding lookup insert pairs_to_dict
copy_edges [] transitions = transitions
copy_edges ((aid, evmap) ∷ rest) transitions = copy_edges rest (add_rules aid evmap transitions)

-- `am = transitions.setdefault(aid, {}); am.setdefault('done', 'terminate')`
unfoldable pub default_edge : String → Dict (Dict String) → Dict (Dict String)
unfolding lookup insert set_default
default_edge aid transitions = elim (lookup aid transitions) [
  | none ↦ insert aid ((done_event, terminate) ∷ []) transitions
  | some am ↦ insert aid (set_default done_event terminate am) transitions
]

module _ {M : Type 0} where
  -- `__init__`
  abbrev pub initial : State M
  initial = record { actions = []; events = []; data_irs = []; start_aid = none; during = [] }

  abbrev pub attributes : List (String × Tree) → Attributes M
  attributes attrs = pairs_to_dict (map attr attrs) []

  -- one callback on a declaration
  unfoldable pub declare : State M → Decl → State M
  unfolding attr add_rules insert
  declare s (datum_decl type_name did attrs) = record s {
    data_irs =
        insert did (record { type_name = type_name; datum_id = did; attributes = attributes attrs })
          s.data_irs;
  }
  declare s (action_decl type_name aid attrs) = record s {
    actions =
        insert aid
          (record { type_name = type_name; action_id = aid; attributes = attributes attrs })
          s.actions;
  }
  declare s (event_decl type_name eid attrs) = record s {
    events =
        insert eid (record { type_name = type_name; event_id = eid; attributes = attributes attrs })
          s.events;
  }
  declare s (mission_start aid) = record s { start_aid = some aid }
  declare s (during_block aid rules) = record s { during = add_rules aid rules s.during }

  unfoldable pub transform : State M → List Decl → State M
  unfolding declare
  transform s [] = s
  transform s (d ∷ ds) = transform (declare s d) ds

  unfoldable pub default_edges : Dict (ActionIr M) → Dict (Dict String) → Dict (Dict String)
  unfolding default_edge
  default_edges [] transitions = transitions
  default_edges ((aid, ir) ∷ rest) transitions = default_edges rest (default_edge aid transitions)

  -- what `start` hands to the resolver and the validator
  unfoldable pub build : State M → MissionIr M
  unfolding copy_edges default_edges add_rules
  build s = record {
    actions = s.actions;
    events = s.events;
    data_irs = s.data_irs;
    start_action_id = s.start_aid;
    transitions = default_edges s.actions (copy_edges s.during []);
  }
