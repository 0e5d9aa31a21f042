-- ===== src/Vehicle/Config.antt =====
-- vehicle/util/config.py: `query_config` over the two configuration files. A value is a table or
-- another TOML value, which has no keys.
pub mod Paths
use steeleagle.Prelude.{
  String, Option, none, some, List, [], ◌∷◌, ◌==◌, if◌then◌else◌, value_error, attribute_error,
  Result, ok, err, split,
}

mutual
  pub data Config (V : Type 0) : Type 0 where
    table : Entries V → Config V
    leaf : V → Config V

  pub data Entries (V : Type 0) : Type 0 where
    nil : Entries V
    cons : String → Config V → Entries V → Entries V

module _ {V : Type 0} where
  unfoldable pub entry : String → Entries V → Option (Config V)
  entry key nil = none
  entry key (cons k v es) = if k == key then some v else entry key es

  -- the loop over the indices
  unfoldable pub descend : List String → Config V → Result (Config V)
  unfolding entry
  descend [] result = ok result
  descend (i ∷ is) (leaf v) = err attribute_error
  descend (i ∷ is) (table es) = elim (entry i es) [
    | none ↦ err value_error
    | some next ↦ descend is next
  ]

  unfoldable pub from_indices : Config V → Config V → List String → Result (Config V)
  unfolding descend
  from_indices config internal [] = descend [] config
  from_indices config internal (i ∷ is) =
      if i == "internal" then descend is internal else descend (i ∷ is) config

  unfoldable pub query_config : Config V → Config V → String → Result (Config V)
  unfolding from_indices split
  query_config config internal access_token = from_indices config internal (split b'.' access_token)
