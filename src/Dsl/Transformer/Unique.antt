-- ===== src/Dsl/Transformer/Unique.antt =====
-- The keys of the collected `During` blocks stand once each, as in every Python dict.
use steeleagle.Prelude.{
  String, ◌≡◌, refl, subst, inl, inr, true, false, none, some, List, [], ◌∷◌, arith, ◌==◌, eq_iff,
  if◌then◌else◌, Bool-cases, Option-cases, some_inj, Dict, lookup, insert, has_key, lookup-insert,
  has_key-lookup,
}
use steeleagle.Dsl.Transformer.{pairs_to_dict, add_rules, copy_edges}
use steeleagle.Dsl.Transformer.Edges.{edge, add_rules-edge, edge-nil, edge-cons, edge_missing}

-- No key stands twice, as in every Python dict.
abbrev pub Unique {ℓ} : {V : Type ℓ} → Dict V → Type 0
Unique [] = Unit {0}
Unique ((k, v) ∷ d) = (has_key k d ≡ false) × Unique d

abbrev pub UniqueAll : Dict (Dict String) → Type 0
UniqueAll [] = Unit {0}
UniqueAll ((k, m) ∷ d) = Unique m × UniqueAll d

pub has_key-insert {ℓ} :
    {V : Type ℓ} (k j : String) (v : V) (d : Dict V)
    → has_key j (insert k v d) ≡ (if k == j then true else has_key j d)
unfolding has_key insert
has_key-insert k j v [] = ground arith
has_key-insert k j v ((i, w) ∷ d) =
    ground (arith, has_key-insert k j v d, eq_iff k j, eq_iff i k, eq_iff i j)

pub Unique-insert {ℓ} :
    {V : Type ℓ} (k : String) (v : V) (d : Dict V) → Unique d → Unique (insert k v d)
unfolding insert has_key
Unique-insert k v [] h = (refl, tt)
Unique-insert k v ((i, w) ∷ d) h = elim (Bool-cases (i == k)) [
  | inl e ↦ rw e h
  | inr e ↦
      rw e (ground (arith, has_key-insert k i v d, eq_iff i k, eq_iff k i), Unique-insert k v d h.1)
]

pub Unique-pairs_to_dict {ℓ} :
    {V : Type ℓ} (pairs : List (String × V)) (d : Dict V)
    → Unique d
    → Unique (pairs_to_dict pairs d)
unfolding pairs_to_dict
Unique-pairs_to_dict [] d h = h
Unique-pairs_to_dict ((k, v) ∷ rest) d h =
    Unique-pairs_to_dict rest (insert k v d) (Unique-insert k v d h)

pub UniqueAll-insert :
    (k : String) (m : Dict String) (d : Dict (Dict String))
    → Unique m
    → UniqueAll d
    → UniqueAll (insert k m d)
unfolding insert
UniqueAll-insert k m [] u h = (u, tt)
UniqueAll-insert k m ((i, w) ∷ d) u h = elim (Bool-cases (i == k)) [
  | inl e ↦ rw e (u, h.1)
  | inr e ↦ rw e (h.0, UniqueAll-insert k m d u h.1)
]

pub UniqueAll-lookup :
    (k : String) (m : Dict String) (d : Dict (Dict String))
    → UniqueAll d
    → lookup k d ≡ some m
    → Unique m
unfolding lookup
UniqueAll-lookup k m [] h e = cc
UniqueAll-lookup k m ((i, w) ∷ d) h e = elim (Bool-cases (i == k)) [
  | inl p ↦ subst (λ z. Unique z) (some_inj (rw p at e)) h.0
  | inr p ↦ UniqueAll-lookup k m d h.1 (rw p at e)
]

pub lookup-pairs_to_dict-Unique {ℓ} :
    {V : Type ℓ} (pairs : List (String × V)) (d : Dict V) (k : String)
    → Unique pairs
    → lookup k (pairs_to_dict pairs d)
      ≡ (elim (lookup k pairs) [ none ↦ lookup k d | some v ↦ some v ])
unfolding pairs_to_dict lookup
lookup-pairs_to_dict-Unique [] d k h = refl
lookup-pairs_to_dict-Unique ((j, v) ∷ rest) d k h = ground (
  arith,
  lookup-pairs_to_dict-Unique rest (insert j v d) k h.1,
  lookup-insert j k v d,
  has_key-lookup j rest,
  eq_iff j k,
)

pub lookup_empty {ℓ} : {V : Type ℓ} (k : String) → lookup {V = V} k [] ≡ none
unfolding lookup
lookup_empty k = refl

pub copy_edges-edge :
    (during t : Dict (Dict String)) (a ev : String)
    → Unique during
    → UniqueAll during
    → edge (copy_edges during t) a ev
      ≡ (elim (edge during a ev) [ none ↦ edge t a ev | some n ↦ some n ])
unfolding copy_edges
copy_edges-edge [] t a ev u h = ground (arith, edge-nil a ev)
copy_edges-edge ((aid, m) ∷ rest) t a ev u h = ground (
  arith,
  copy_edges-edge rest (add_rules aid m t) a ev u.1 h.1,
  add_rules-edge aid m t a ev,
  lookup-pairs_to_dict-Unique m [] ev h.0,
  lookup_empty {V = String} ev,
  edge-cons aid m rest a ev,
  edge_missing aid ev rest u.0,
  eq_iff aid a,
)

pub no_key {ℓ} : (V : Type ℓ) (k : String) → has_key {V = V} k [] ≡ false
unfolding has_key
no_key V k = refl

-- The two facts about the blocks that the transformer collects.
pub record IsDict (during : Dict (Dict String)) : Type 0 where
  pub outer : Unique during
  pub inner : UniqueAll during

pub add_rules-IsDict :
    (aid : String) (rules : List (String × String)) (d : Dict (Dict String))
    → IsDict d
    → IsDict (add_rules aid rules d)
unfolding add_rules
add_rules-IsDict aid rules d h = elim (Option-cases (lookup aid d)) [
  | inl p ↦
      rw (p, add_rules)
        (record {
          outer = Unique-insert aid (pairs_to_dict rules []) d h.outer;
          inner =
              UniqueAll-insert aid (pairs_to_dict rules []) d (Unique-pairs_to_dict rules [] tt)
                h.inner;
        })
  | inr (old, p) ↦
      rw (p, add_rules)
        (record {
          outer = Unique-insert aid (pairs_to_dict rules old) d h.outer;
          inner =
              UniqueAll-insert aid (pairs_to_dict rules old) d
                (Unique-pairs_to_dict rules old (UniqueAll-lookup aid old d h.inner p)) h.inner;
        })
]
