-- ===== src/Law/Glob.antt =====
-- `fnmatch` of Python's standard library, as `LawAuthority.check_equal` of
-- vehicle/kernel/laws/authority.py uses it: `*`, `?` and `[…]`. A text is its list of code points.
pub mod Matches
use steeleagle.Prelude.{
  ℕ, zero, suc, String, Bool, true, false, ◌&&◌, ◌||◌, not, Option, none, some, List, [], ◌∷◌, leb,
  eqb, if◌then◌else◌, length, any, codes,
}

-- one item of a set: the code points from `lo` to `hi`
pub record Range : Type 0 where
  pub lo : ℕ
  pub hi : ℕ

pub data Token : Type 0 where
  star : Token
  any_one : Token
  literal : ℕ → Token
  one_of : Bool → List Range → Token

-- The text of a set up to its closing bracket, or `none` if there is no bracket.
to_bracket : List ℕ → Option (List ℕ)
to_bracket [] = none
to_bracket (c ∷ s) = elim (eqb c b']') [
  | true ↦ some []
  | false ↦ elim (to_bracket s) [ none ↦ none | some t ↦ some (c ∷ t) ]
]

-- A closing bracket that stands first belongs to the set.
after_first : List ℕ → Option (List ℕ)
unfolding to_bracket
after_first [] = none
after_first (c ∷ s) =
    if eqb c b']'
    then (elim (to_bracket s) [ none ↦ none | some t ↦ some (c ∷ t) ])
    else to_bracket (c ∷ s)

set_text : List ℕ → Option (List ℕ)
unfolding after_first
set_text [] = none
set_text (c ∷ s) =
    if eqb c b'!'
    then (elim (after_first s) [ none ↦ none | some t ↦ some (c ∷ t) ])
    else after_first (c ∷ s)

-- `x-y` is a range unless the dash stands first or last.
ranges : List ℕ → List Range
ranges [] = []
ranges (x ∷ []) = record { lo = x; hi = x } ∷ []
ranges (x ∷ d ∷ []) = record { lo = x; hi = x } ∷ record { lo = d; hi = d } ∷ []
ranges (x ∷ d ∷ y ∷ s) = elim (eqb d b'-') [
  | true ↦ record { lo = x; hi = y } ∷ ranges s
  | false ↦ record { lo = x; hi = x } ∷ ranges (d ∷ y ∷ s)
]

set_token : List ℕ → Token
unfolding ranges
set_token [] = one_of false []
set_token (c ∷ s) = if eqb c b'!' then one_of true (ranges s) else one_of false (ranges (c ∷ s))

-- The first number counts code points that an earlier set has used up.
tokens_from : ℕ → List ℕ → List Token
unfolding set_text set_token
tokens_from skip [] = []
tokens_from (suc skip) (c ∷ s) = tokens_from skip s
tokens_from zero (c ∷ s) = elim (eqb c b'*') [
  | true ↦ star ∷ tokens_from zero s
  | false ↦ elim (eqb c b'?') [
    | true ↦ any_one ∷ tokens_from zero s
    | false ↦ elim (eqb c b'[') [
      | true ↦ elim (set_text s) [
        | none ↦ literal c ∷ tokens_from zero s
        | some t ↦ set_token t ∷ tokens_from (suc (length t)) s
      ]
      | false ↦ literal c ∷ tokens_from zero s
    ]
  ]
]

unfoldable pub tokens : List ℕ → List Token
unfolding tokens_from
tokens s = tokens_from zero s

in_ranges : List Range → ℕ → Bool
in_ranges rs c = any (λ (r : Range). leb r.lo c && leb c r.hi) rs

unfoldable pub accepts : Token → ℕ → Bool
unfolding in_ranges
accepts star c = false
accepts any_one c = true
accepts (literal d) c = eqb d c
accepts (one_of negated rs) c = if negated then not (in_ranges rs c) else in_ranges rs c

-- Some end of the text passes the test.
unfoldable pub some_end : (List ℕ → Bool) → List ℕ → Bool
some_end f [] = f []
some_end f (c ∷ s) = f (c ∷ s) || some_end f s

-- One token that is no star.
unfoldable pub one_then : Token → (List ℕ → Bool) → List ℕ → Bool
unfolding accepts
one_then t f [] = false
one_then t f (c ∷ s) = accepts t c && f s

unfoldable pub match_tokens : List Token → List ℕ → Bool
unfolding some_end one_then
match_tokens [] [] = true
match_tokens [] (c ∷ s) = false
match_tokens (star ∷ p) s = some_end (match_tokens p) s
match_tokens (t ∷ p) s = one_then t (match_tokens p) s

-- fnmatch(name, pat)
unfoldable pub fnmatch : String → String → Bool
unfolding match_tokens tokens
fnmatch name pat = match_tokens (tokens (codes pat)) (codes name)
