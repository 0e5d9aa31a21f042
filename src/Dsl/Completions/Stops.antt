-- ===== src/Dsl/Completions/Stops.antt =====
-- sdk/src/steeleagle_sdk/dsl/tools/language_server/registry_completions.py: the tab stops of a completion.
use steeleagle.Prelude.{
  ℕ, suc, ◌+◌, String, ◌≡◌, refl, ◌∙◌, inl, inr, ◌&&◌, List, [], ◌∷◌, ◌++◌, arith, ltb, leb, eqb,
  if◌then◌else◌, Bool-cases, length,
}
use steeleagle.Dsl.Completions.{
  FieldInfo, ModelClass, Piece, text, stop, add_field, build_attr_lines, joined, render_constructor,
  Kind, create_model_completion,
}

-- how often a number occurs among the tab stops of a snippet
abbrev pub stops : ℕ → List Piece → ℕ
stops n [] = 0
stops n (text s ∷ ps) = stops n ps
stops n (stop i hint ∷ ps) = (if eqb i n then 1 else 0) + stops n ps

abbrev all_stops : ℕ → List (List Piece) → ℕ
all_stops n [] = 0
all_stops n (l ∷ ls) = stops n l + all_stops n ls

stops-append : (n : ℕ) (ps qs : List Piece) → stops n (ps ++ qs) ≡ stops n ps + stops n qs
stops-append n [] qs = ground arith
stops-append n (text s ∷ ps) qs = stops-append n ps qs
stops-append n (stop i hint ∷ ps) qs = ground (arith, stops-append n ps qs)

all_stops-append :
    (n : ℕ) (ls ms : List (List Piece)) → all_stops n (ls ++ ms) ≡ all_stops n ls + all_stops n ms
all_stops-append n [] ms = ground arith
all_stops-append n (l ∷ ls) ms = ground (arith, all_stops-append n ls ms)

stops-joined : (n : ℕ) (ls : List (List Piece)) → stops n (joined ls) ≡ all_stops n ls
unfolding joined
stops-joined n [] = refl
stops-joined n (l ∷ []) = ground arith
stops-joined n (l ∷ m ∷ ls) =
    stops-append n l (text ", " ∷ joined (m ∷ ls)) ∙ ground (arith, stops-joined n (m ∷ ls))

-- the numbers from one on, as many as there are fields
abbrev pub in_range : ℕ → ℕ → ℕ → ℕ
in_range start len n = if leb start n && ltb n (start + len) then 1 else 0

lines-stops :
    (n : ℕ) (fs : List FieldInfo) (start : ℕ)
    → all_stops n (build_attr_lines fs start).required_lines
        + all_stops n (build_attr_lines fs start).optional_lines
      ≡ in_range start (length fs) n
unfolding build_attr_lines add_field
lines-stops n [] start = ground arith
lines-stops n (f ∷ fs) start = elim (Bool-cases f.required) [
  | inl e ↦ rw e (ground (arith, lines-stops n fs (suc start)))
  | inr e ↦ rw e (ground (arith, lines-stops n fs (suc start)))
]

stops-constructor :
    (n : ℕ) (name hint : String) (ls : List (List Piece))
    → stops n (render_constructor name (stop 1 hint) ls)
      ≡ (if eqb 1 n then 1 else 0) + all_stops n ls
unfolding render_constructor
stops-constructor n name hint [] = ground arith
stops-constructor n name hint (l ∷ ls) =
    ground (arith, stops-append n (joined (l ∷ ls)) (text ")" ∷ []), stops-joined n (l ∷ ls))

-- The constructor that the editor inserts for a class has each of the tab stops 1 to k + 1 exactly once
-- and no others, where k is the number of the class's fields: the identifier's and one for each field,
-- although the required fields are moved before the optional ones.
completion-stops :
    (kind : Kind) (cls : ModelClass) (prefix : String) (n : ℕ)
    → stops n (create_model_completion kind cls prefix).0.insert_text
      ≡ in_range 1 (suc (length cls.fields)) n
unfolding create_model_completion
completion-stops kind cls prefix n =
    let attrs = build_attr_lines cls.fields 2 in
    stops-constructor n cls.name _ (attrs.required_lines ++ attrs.optional_lines)
    ∙ ground (
      arith,
      all_stops-append n attrs.required_lines attrs.optional_lines,
      lines-stops n cls.fields 2,
    )
