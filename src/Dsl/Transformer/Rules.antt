-- ===== src/Dsl/Transformer/Rules.antt =====
-- The transitions of a compiled mission against the rules of its text.
use steeleagle.Prelude.{
  String, ◌≡◌, refl, Bool, false, ◌&&◌, ◌||◌, Option, none, some, List, [], ◌∷◌, arith, ◌==◌,
  if◌then◌else◌, lookup, has_key,
}
use steeleagle.Dsl.Ir.{ActionIr, done_event}
use steeleagle.Dsl.Transformer.{
  State, Decl, datum_decl, action_decl, event_decl, mission_start, during_block, pairs_to_dict,
  copy_edges, default_edges, build, initial, declare, transform, attributes,
}
use steeleagle.Dsl.Transformer.Edges.{
  edge, lookup-pairs_to_dict, add_rules-edge, or_done, default_edges-edge, edge-nil,
}
use steeleagle.Dsl.Transformer.Unique.{
  has_key-insert, copy_edges-edge, IsDict, add_rules-IsDict, no_key,
}

-- The last rule that a mission's text gives for an action and an event.
pub last_pair : String → List (String × String) → Option String
last_pair ev [] = none
last_pair ev ((k, v) ∷ rest) = elim (last_pair ev rest) [
  | some n ↦ some n
  | none ↦ if k == ev then some v else none
]

unfoldable pub last_rule : List Decl → String → String → Option String
unfolding last_pair
last_rule [] a ev = none
last_rule (during_block aid rules ∷ ds) a ev = elim (last_rule ds a ev) [
  | some n ↦ some n
  | none ↦ if aid == a then last_pair ev rules else none
]
last_rule (d ∷ ds) a ev = last_rule ds a ev

-- Whether the text declares an action.
unfoldable pub declares : List Decl → String → Bool
declares [] a = false
declares (action_decl type_name aid attrs ∷ ds) a = (aid == a) || declares ds a
declares (d ∷ ds) a = declares ds a

lookup-last_pair :
    (ev : String) (rules : List (String × String))
    → lookup ev (pairs_to_dict rules []) ≡ last_pair ev rules
unfolding pairs_to_dict last_pair lookup
lookup-last_pair ev [] = refl
lookup-last_pair ev ((k, v) ∷ rest) =
    ground (arith, lookup-last_pair ev rest, lookup-pairs_to_dict rest ((k, v) ∷ []) ev)

module _ {M : Type 0} where
  transform-edge :
      (ds : List Decl) (s : State M) (a ev : String)
      → edge (transform s ds).during a ev
        ≡ (elim (last_rule ds a ev) [ none ↦ edge s.during a ev | some n ↦ some n ])
  unfolding transform declare last_rule
  transform-edge [] s a ev = refl
  transform-edge (during_block aid rules ∷ ds) s a ev = ground (
    arith,
    transform-edge ds (declare s (during_block aid rules)) a ev,
    add_rules-edge aid rules s.during a ev,
    lookup-last_pair ev rules,
  )
  transform-edge (datum_decl t i at ∷ ds) s a ev =
      transform-edge ds (declare s (datum_decl t i at)) a ev
  transform-edge (action_decl t i at ∷ ds) s a ev =
      transform-edge ds (declare s (action_decl t i at)) a ev
  transform-edge (event_decl t i at ∷ ds) s a ev =
      transform-edge ds (declare s (event_decl t i at)) a ev
  transform-edge (mission_start i ∷ ds) s a ev =
      transform-edge ds (declare s (mission_start i)) a ev

  transform-IsDict :
      (ds : List Decl) (s : State M) → IsDict s.during → IsDict (transform s ds).during
  unfolding transform declare
  transform-IsDict [] s h = h
  transform-IsDict (during_block aid rules ∷ ds) s h =
      transform-IsDict ds (declare s (during_block aid rules))
        (add_rules-IsDict aid rules s.during h)
  transform-IsDict (datum_decl t i at ∷ ds) s h =
      transform-IsDict ds (declare s (datum_decl t i at)) h
  transform-IsDict (action_decl t i at ∷ ds) s h =
      transform-IsDict ds (declare s (action_decl t i at)) h
  transform-IsDict (event_decl t i at ∷ ds) s h =
      transform-IsDict ds (declare s (event_decl t i at)) h
  transform-IsDict (mission_start i ∷ ds) s h = transform-IsDict ds (declare s (mission_start i)) h

  transform-declares :
      (ds : List Decl) (s : State M) (a : String)
      → has_key a (transform s ds).actions ≡ (has_key a s.actions || declares ds a)
  unfolding transform declare declares
  transform-declares [] s a = ground arith
  transform-declares (action_decl t i at ∷ ds) s a = ground (
    arith,
    transform-declares ds (declare s (action_decl t i at)) a,
    has_key-insert i a (record { type_name = t; action_id = i; attributes = attributes at })
        s.actions,
  )
  transform-declares (during_block aid rules ∷ ds) s a =
      transform-declares ds (declare s (during_block aid rules)) a
  transform-declares (datum_decl t i at ∷ ds) s a =
      transform-declares ds (declare s (datum_decl t i at)) a
  transform-declares (event_decl t i at ∷ ds) s a =
      transform-declares ds (declare s (event_decl t i at)) a
  transform-declares (mission_start i ∷ ds) s a =
      transform-declares ds (declare s (mission_start i)) a

-- The transitions of a compiled mission, for every action and event: the last rule that the text
-- gives for them; and where there is none and the event is 'done', 'terminate' if the text declares
-- the action.
pub build-edge :
    (M : Type 0) (ds : List Decl) (a ev : String)
    → edge (build (transform {M = M} initial ds)).transitions a ev ≡ (
        if declares ds a && (done_event == ev)
        then or_done (last_rule ds a ev)
        else last_rule ds a ev)
unfolding build
build-edge M ds a ev =
    let s : State M = transform initial ds in
    let d : IsDict s.during = transform-IsDict ds initial (record { outer = tt; inner = tt }) in
    let e : edge (default_edges s.actions (copy_edges s.during [])) a ev ≡ (
        if has_key a s.actions && (done_event == ev)
        then or_done (edge (copy_edges s.during []) a ev)
        else edge (copy_edges s.during []) a ev) =
      default_edges-edge s.actions (copy_edges s.during []) a ev in
    ground (
      arith,
      e,
      copy_edges-edge s.during [] a ev d.outer d.inner,
      transform-edge {M = M} ds initial a ev,
      transform-declares {M = M} ds initial a,
      edge-nil a ev,
      no_key (ActionIr M) a,
    )
