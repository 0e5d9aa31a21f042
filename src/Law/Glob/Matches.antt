-- ===== src/Law/Glob/Matches.antt =====
-- What `fnmatch` decides: the texts that a list of tokens stands for.
use steeleagle.Prelude.{
  ℕ, zero, String, ◌≡◌, refl, ◌↔◌, ◌⊎◌, inl, inr, Bool, true, false, ◌&&◌, ◌||◌, List, [], ◌∷◌,
  ◌++◌, map, arith, eqb, All, codes, has_prefix,
}
use steeleagle.Law.Glob.{
  Token, star, any_one, literal, one_of, accepts, some_end, one_then, match_tokens, tokens,
  tokens_from, fnmatch,
}

pub data Matches : List Token → List ℕ → Type 0 where
  done : Matches [] []
  one :
      {t : Token} {p : List Token} {c : ℕ} {s : List ℕ}
      → accepts t c ≡ true
      → Matches p s
      → Matches (t ∷ p) (c ∷ s)
  star_end : {p : List Token} {s : List ℕ} → Matches p s → Matches (star ∷ p) s
  star_more :
      {p : List Token} {c : ℕ} {s : List ℕ} → Matches (star ∷ p) s → Matches (star ∷ p) (c ∷ s)

or_cases : (a b : Bool) → (a || b) ≡ true → (a ≡ true) ⊎ (b ≡ true)
or_cases a b h = ground arith

and_cases : (a b : Bool) → (a && b) ≡ true → (a ≡ true) × (b ≡ true)
and_cases a b h = ground arith

or_right : (a b : Bool) → b ≡ true → (a || b) ≡ true
or_right a b h = ground arith

star_sound :
    (p : List Token)
    → ((s : List ℕ) → match_tokens p s ≡ true → Matches p s)
    → (s : List ℕ) → some_end (match_tokens p) s ≡ true
    → Matches (star ∷ p) s
unfolding some_end
star_sound p ih [] h = star_end (ih [] h)
star_sound p ih (c ∷ s) h =
    elim (or_cases (match_tokens p (c ∷ s)) (some_end (match_tokens p) s) h) [
      | inl e ↦ star_end (ih (c ∷ s) e)
      | inr e ↦ star_more (star_sound p ih s e)
    ]

one_sound :
    (t : Token) (p : List Token)
    → ((s : List ℕ) → match_tokens p s ≡ true → Matches p s)
    → (s : List ℕ) → one_then t (match_tokens p) s ≡ true
    → Matches (t ∷ p) s
unfolding one_then
one_sound t p ih [] h = cc
one_sound t p ih (c ∷ s) h =
    let e : (accepts t c ≡ true) × (match_tokens p s ≡ true) =
      and_cases (accepts t c) (match_tokens p s) h in
    one e.0 (ih s e.1)

match_sound : (p : List Token) (s : List ℕ) → match_tokens p s ≡ true → Matches p s
unfolding match_tokens
match_sound [] [] h = done
match_sound [] (c ∷ s) h = cc
match_sound (star ∷ p) s h = star_sound p (match_sound p) s h
match_sound (any_one ∷ p) s h = one_sound any_one p (match_sound p) s h
match_sound (literal d ∷ p) s h = one_sound (literal d) p (match_sound p) s h
match_sound (one_of n rs ∷ p) s h = one_sound (one_of n rs) p (match_sound p) s h

one_complete :
    (t : Token) (p : List Token) (c : ℕ) (s : List ℕ)
    → accepts t c ≡ true
    → match_tokens p s ≡ true
    → match_tokens (t ∷ p) (c ∷ s) ≡ true
unfolding match_tokens accepts
one_complete star p c s a m = cc
one_complete any_one p c s a m = rw m
one_complete (literal d) p c s a m = rw (a, m)
one_complete (one_of n rs) p c s a m = rw (a, m)

end_complete :
    (p : List Token) (s : List ℕ) → match_tokens p s ≡ true → match_tokens (star ∷ p) s ≡ true
unfolding match_tokens
end_complete p [] h = h
end_complete p (c ∷ s) h = rw h

more_complete :
    (p : List Token) (c : ℕ) (s : List ℕ)
    → match_tokens (star ∷ p) s ≡ true
    → match_tokens (star ∷ p) (c ∷ s) ≡ true
unfolding match_tokens
more_complete p c s h = or_right (match_tokens p (c ∷ s)) (some_end (match_tokens p) s) h

match_complete : {p : List Token} {s : List ℕ} → Matches p s → match_tokens p s ≡ true
match_complete done = unfold match_tokens in refl
match_complete (one {t = t} {p = p} {c = c} {s = s} a m) = one_complete t p c s a (match_complete m)
match_complete (star_end {p = p} {s = s} m) = end_complete p s (match_complete m)
match_complete (star_more {p = p} {c = c} {s = s} m) = more_complete p c s (match_complete m)

-- `fnmatch` accepts a name exactly when the tokens of the pattern derive it.
pub fnmatch-Matches :
    (name pat : String) → (fnmatch name pat ≡ true) ↔ Matches (tokens (codes pat)) (codes name)
unfolding fnmatch
fnmatch-Matches name pat = (match_sound (tokens (codes pat)) (codes name), match_complete)

-- a code point that stands for itself in a pattern
abbrev pub IsPlain : ℕ → Type 0
IsPlain c = (eqb c b'*' ≡ false) × (eqb c b'?' ≡ false) × (eqb c b'[' ≡ false)

tokens-plain :
    (p : List ℕ) → All IsPlain p → tokens_from zero (p ++ b'*' ∷ []) ≡ map literal p ++ star ∷ []
unfolding tokens_from
tokens-plain [] h = refl
tokens-plain (c ∷ p) h = ground (arith, tokens-plain p h.1)

some_end-nil : (s : List ℕ) → some_end (match_tokens []) s ≡ true
unfolding some_end match_tokens
some_end-nil [] = refl
some_end-nil (c ∷ s) = some_end-nil s

match-prefix : (p s : List ℕ) → match_tokens (map literal p ++ star ∷ []) s ≡ has_prefix p s
unfolding match_tokens has_prefix accepts
match-prefix [] s = some_end-nil s
match-prefix (c ∷ p) [] = refl
match-prefix (c ∷ p) (d ∷ s) = ground (arith, match-prefix p s)

-- A pattern of plain characters and a final star accepts exactly the names that begin with them.
pub fnmatch-has_prefix :
    (name pat : String) (p : List ℕ)
    → codes pat ≡ p ++ b'*' ∷ []
    → All IsPlain p
    → fnmatch name pat ≡ has_prefix p (codes name)
unfolding fnmatch
fnmatch-has_prefix name pat p e h = rw (e, tokens-plain p h) (match-prefix p (codes name))
