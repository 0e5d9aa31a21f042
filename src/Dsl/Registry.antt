-- ===== src/Dsl/Registry.antt =====
-- sdk/src/steeleagle_sdk/dsl/compiler/registry.py: three tables of classes under normalised names.
use steeleagle.Prelude.{
  ℕ, ◌+◌, String, ◌≡◌, refl, ◌↔◌, Bool, true, false, ◌&&◌, ◌||◌, Option, none, some, List, [], ◌∷◌,
  map, arith, leb, eqb, if◌then◌else◌, codes,
}

-- the code points that `str.strip` takes for white space, of those below 128
abbrev pub is_space : ℕ → Bool
is_space c = (leb 9 c && leb c 13) || (leb 28 c && leb c 32)

unfoldable pub lower_code : ℕ → ℕ
lower_code c = if leb b'A' c && leb c b'Z' then c + 32 else c

unfoldable pub strip_left : List ℕ → List ℕ
strip_left [] = []
strip_left (c ∷ s) = elim (is_space c) [ true ↦ strip_left s | false ↦ c ∷ s ]

-- A run of white space at the end goes; one before another character stays.
unfoldable pub strip_right : List ℕ → List ℕ
strip_right [] = []
strip_right (c ∷ s) = elim (strip_right s) [
  | d ∷ t ↦ c ∷ d ∷ t
  | [] ↦ if is_space c then [] else c ∷ []
]

-- `_norm`: strip and lower, over the code points of an ASCII name
unfoldable pub norm : String → List ℕ
unfolding strip_left strip_right lower_code
norm name = map lower_code (strip_right (strip_left (codes name)))

abbrev pub same_codes : List ℕ → List ℕ → Bool
same_codes [] [] = true
same_codes (c ∷ s) (d ∷ t) = eqb c d && same_codes s t
same_codes _ _ = false

-- one of `_ACTIONS`, `_EVENTS` and `_DATA`
abbrev pub Table : Type 0 → Type 0
Table C = List (List ℕ × C)

module _ {C : Type 0} where
  unfoldable pub find_key : List ℕ → Table C → Option C
  find_key key [] = none
  find_key key ((j, c) ∷ t) = if same_codes j key then some c else find_key key t

  unfoldable pub put_key : List ℕ → C → Table C → Table C
  put_key key c [] = (key, c) ∷ []
  put_key key c ((j, d) ∷ t) = if same_codes j key then (j, c) ∷ t else (j, d) ∷ put_key key c t

  -- register_action, register_event, register_data: a later class of the same name replaces the
  -- earlier one
  unfoldable pub register : String → C → Table C → Table C
  unfolding put_key norm
  register name c t = put_key (norm name) c t

  -- get_action, get_event, get_data
  unfoldable pub get : String → Table C → Option C
  unfolding find_key norm
  get name t = find_key (norm name) t

pub same_codes_iff : (s t : List ℕ) → (same_codes s t ≡ true) ↔ (s ≡ t)
same_codes_iff [] [] = (λ h. refl, λ h. refl)
same_codes_iff [] (d ∷ t) = (λ h. cc, λ h. cc)
same_codes_iff (c ∷ s) [] = (λ h. cc, λ h. cc)
same_codes_iff (c ∷ s) (d ∷ t) =
    (λ h. ground (arith, (same_codes_iff s t).0), λ h. ground (arith, (same_codes_iff s t).1))
