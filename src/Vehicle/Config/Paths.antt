-- ===== src/Vehicle/Config/Paths.antt =====
-- vehicle/util/config.py: access tokens as paths.
use steeleagle.Prelude.{String, ◌≡◌, refl, inl, inr, List, [], ◌∷◌, ◌++◌, Option-cases, ◌>>=◌}
use steeleagle.Vehicle.Config.{Config, table, leaf, entry, descend}

module _ {V : Type 0} where
  -- A longer path is looked up from where the shorter one leads.
  descend-append :
      (path more : List String) (c : Config V)
      → descend (path ++ more) c ≡ (descend path c >>= (λ found. descend more found))
  unfolding descend
  descend-append [] more c = refl
  descend-append (i ∷ path) more (leaf v) = refl
  descend-append (i ∷ path) more (table es) = elim (Option-cases (entry i es)) [
    | inl e ↦ rw (descend, e) refl
    | inr (next, e) ↦ rw (descend, e) (descend-append path more next)
  ]
