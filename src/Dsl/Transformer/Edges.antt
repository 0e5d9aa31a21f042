-- ===== src/Dsl/Transformer/Edges.antt =====
-- The steps by which `start` builds the transitions, edge by edge.
use steeleagle.Prelude.{
  String, ◌≡◌, refl, inl, inr, false, ◌&&◌, Option, none, some, List, [], ◌∷◌, arith, ◌==◌, eq_iff,
  if◌then◌else◌, Option-cases, Dict, lookup, insert, has_key, set_default, lookup-insert,
  lookup-set_default, has_key-lookup,
}
use steeleagle.Dsl.Ir.{ActionIr, done_event, terminate}
use steeleagle.Dsl.Transformer.{pairs_to_dict, add_rules, default_edge, default_edges}

-- The next action's id for an action and an event.
unfoldable pub edge : Dict (Dict String) → String → String → Option String
unfolding lookup
edge transitions aid ev = elim (lookup aid transitions) [ none ↦ none | some am ↦ lookup ev am ]

pub default_edge-edge :
    (aid : String) (t : Dict (Dict String)) (a ev : String)
    → edge (default_edge aid t) a ev ≡ (
        if (aid == a) && (done_event == ev)
        then (elim (edge t a ev) [ none ↦ some terminate | some n ↦ some n ])
        else edge t a ev)
unfolding edge default_edge
default_edge-edge aid t a ev = elim (Option-cases (lookup aid t)) [
  | inl p ↦ ground (arith, lookup-insert aid a ((done_event, terminate) ∷ []) t, eq_iff aid a)
  | inr (am, p) ↦ ground (
    arith,
    lookup-insert aid a (set_default done_event terminate am) t,
    lookup-set_default done_event ev terminate am,
    eq_iff aid a,
    eq_iff done_event ev,
  )
]

-- The later pairs of the list overwrite the earlier ones.
pub lookup-pairs_to_dict :
    {V : Type 0} (pairs : List (String × V)) (d : Dict V) (k : String)
    → lookup k (pairs_to_dict pairs d)
      ≡ (elim (lookup k (pairs_to_dict pairs [])) [ none ↦ lookup k d | some v ↦ some v ])
unfolding pairs_to_dict lookup
lookup-pairs_to_dict [] d k = refl
lookup-pairs_to_dict ((j, v) ∷ rest) d k = ground (
  arith,
  lookup-pairs_to_dict rest (insert j v d) k,
  lookup-pairs_to_dict rest (insert j v []) k,
  lookup-insert j k v d,
  lookup-insert j k v [],
)

pub add_rules-edge :
    (aid : String) (rules : List (String × String)) (t : Dict (Dict String)) (a ev : String)
    → edge (add_rules aid rules t) a ev ≡ (
        if aid == a
        then (elim (lookup ev (pairs_to_dict rules [])) [ none ↦ edge t a ev | some n ↦ some n ])
        else edge t a ev)
unfolding edge add_rules
add_rules-edge aid rules t a ev = elim (Option-cases (lookup aid t)) [
  | inl p ↦ ground (arith, lookup-insert aid a (pairs_to_dict rules []) t, eq_iff aid a)
  | inr (old, p) ↦ ground (
    arith,
    lookup-insert aid a (pairs_to_dict rules old) t,
    lookup-pairs_to_dict rules old ev,
    eq_iff aid a,
  )
]

abbrev pub or_done : Option String → Option String
or_done none = some terminate
or_done (some n) = some n

module _ {M : Type 0} where
  pub default_edges-edge :
      (actions : Dict (ActionIr M)) (t : Dict (Dict String)) (a ev : String)
      → edge (default_edges actions t) a ev
        ≡ (if has_key a actions && (done_event == ev) then or_done (edge t a ev) else edge t a ev)
  unfolding default_edges has_key
  default_edges-edge [] t a ev = refl
  default_edges-edge ((aid, ir) ∷ rest) t a ev =
      ground
        (arith, default_edges-edge rest (default_edge aid t) a ev, default_edge-edge aid t a ev)

pub edge-nil : (a ev : String) → edge [] a ev ≡ none
unfolding edge lookup
edge-nil a ev = refl

pub edge-cons :
    (aid : String) (m : Dict String) (rest : Dict (Dict String)) (a ev : String)
    → edge ((aid, m) ∷ rest) a ev ≡ (if aid == a then lookup ev m else edge rest a ev)
unfolding edge lookup
edge-cons aid m rest a ev = ground arith

pub edge_missing :
    (a ev : String) (t : Dict (Dict String)) → has_key a t ≡ false → edge t a ev ≡ none
unfolding edge
edge_missing a ev t h = ground (arith, has_key-lookup a t)
