-- ===== src/Prelude/Texts.antt =====
-- Python's walks over texts: `split`, `rsplit`, `in` and `replace`.
use Prim.Native.Nat.{ℕ, zero, suc, ◌-◌}
use Prim.Native.Char.{Char, code}
use Prim.Native.String.{String}
use Prim.Native.String as Str
use mathlib.Core.Path.{◌≡◌, refl}
use mathlib.Core.Bool.{Bool, true, false, ◌||◌}
use mathlib.Core.Option.{Option, none, some}
use mathlib.Core.List.{List, [], ◌∷◌}
use steeleagle.Prelude.Lists.{length}
use steeleagle.Prelude.Tests.{eqb, if◌then◌else◌}

-- The code points of a text.
abbrev pub codes : String → List ℕ
codes Str.[] = []
codes (Str.◌∷◌ c s) = code c ∷ codes s

abbrev push : Char → List String → List String
push c [] = Str.◌∷◌ c Str.[] ∷ []
push c (s ∷ r) = Str.◌∷◌ c s ∷ r

-- s.split(sep), for a separator of one character
unfoldable pub split : ℕ → String → List String
split sep Str.[] = Str.[] ∷ []
split sep (Str.◌∷◌ c s) =
    let rest = split sep s in if eqb (code c) sep then Str.[] ∷ rest else push c rest

-- s.rsplit(sep, 1) taken apart into two: `none` where there is no separator
unfoldable pub rsplit : ℕ → String → Option (String × String)
rsplit sep Str.[] = none
rsplit sep (Str.◌∷◌ c s) = elim (rsplit sep s) [
  | some (a, b) ↦ some (Str.◌∷◌ c a, b)
  | none ↦ if eqb (code c) sep then some (Str.[], s) else none
]

unfoldable pub has_prefix : List ℕ → List ℕ → Bool
has_prefix [] s = true
has_prefix (c ∷ p) [] = false
has_prefix (c ∷ p) (d ∷ s) = elim (eqb c d) [ true ↦ has_prefix p s | false ↦ false ]

-- p in s
unfoldable pub contains : List ℕ → List ℕ → Bool
unfolding has_prefix
contains p [] = has_prefix p []
contains p (c ∷ s) = has_prefix p (c ∷ s) || contains p s

-- s.replace(p, "") for a pattern that is not empty; the number counts the characters of an occurrence
-- that are still to be left out
unfoldable pub remove_from : List ℕ → ℕ → String → String
unfolding has_prefix
remove_from p skip Str.[] = Str.[]
remove_from p (suc n) (Str.◌∷◌ c s) = remove_from p n s
remove_from p zero (Str.◌∷◌ c s) = elim (has_prefix p (code c ∷ codes s)) [
  | true ↦ remove_from p (length p - 1) s
  | false ↦ Str.◌∷◌ c (remove_from p zero s)
]

abbrev pub remove : String → String → String
remove p s = remove_from (codes p) 0 s

remove_prefix : remove "local:" "local:a-local:b" ≡ "a-b"
unfolding remove_from
remove_prefix = refl

split_payload : split b'|' "a|b" ≡ "a" ∷ "b" ∷ []
unfolding split
split_payload = refl

rsplit_method : rsplit b'.' "a.b.c" ≡ some ("a.b", "c")
unfolding rsplit
rsplit_method = refl

in_prefix : contains (codes "cal:") (codes "local:x") ≡ true
unfolding contains
in_prefix = refl

-- the text of an f-string: its parts, one after the other
unfoldable pub concat : List String → String
concat [] = Str.[]
concat (s ∷ r) = Str.◌++◌ s (concat r)
