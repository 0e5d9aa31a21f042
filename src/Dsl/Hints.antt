-- ===== src/Dsl/Hints.antt =====
-- sdk/src/steeleagle_sdk/dsl/tools/language_server/registry_completions.py: the hints for the fields of
-- registered classes, by their annotations.
use Prim.Native.String as Str
use steeleagle.Prelude.{
  remove, remove_from, code, String, Bool, true, ◌||◌, List, [], ◌∷◌, ◌==◌, eqb, if◌then◌else◌,
  concat,
}
use steeleagle.Map.Kml.{strip}

-- The annotation of a field: a built-in type, another class (with its module, and whether it is a
-- Pydantic model), None, a list of an element type, a union, or another form with its text.
mutual
  pub data Annotation : Type 0 where
    builtin : String → Annotation
    class_type : String → String → Bool → Annotation
    none_type : Annotation
    list_of : Annotation → Annotation
    union_of : Annotations → Annotation
    other_form : String → Annotation

  pub data Annotations : Type 0 where
    nil : Annotations
    cons : Annotation → Annotations → Annotations

-- `[arg for arg in get_args(annotation) if arg is not type(None)]`
unfoldable pub without_none : Annotations → List Annotation
without_none nil = []
without_none (cons none_type more) = without_none more
without_none (cons a more) = a ∷ without_none more

unfoldable pub unwrap_optional : Annotation → Annotation
unfolding without_none
unwrap_optional (union_of more) = elim (without_none more) [
  | [] ↦ union_of more
  | a ∷ bs ↦ (elim bs [ [] ↦ a | b ∷ cs ↦ union_of more ])
]
unwrap_optional a = a

unfoldable pub spaced : String → String
spaced Str.[] = Str.[]
spaced (Str.◌∷◌ c s) = if eqb (code c) b'_' then Str.◌∷◌ " " (spaced s) else Str.◌∷◌ c (spaced s)

-- `_words`
unfoldable pub words_of : String → String
unfolding spaced strip
words_of name = strip (spaced name)

unfoldable mutual
  unfolding concat remove_from

  pub format_type_hint : Annotation → String
  format_type_hint (builtin name) = name
  format_type_hint (class_type mod_name name is_model) = concat (mod_name ∷ "." ∷ name ∷ [])
  format_type_hint none_type = "NoneType"
  format_type_hint (list_of a) = concat ("List[" ∷ format_type_hint a ∷ "]" ∷ [])
  format_type_hint (union_of more) = format_type_hints more
  format_type_hint (other_form shown) = remove "typing." shown

  pub format_type_hints : Annotations → String
  format_type_hints nil = ""
  format_type_hints (cons a nil) = format_type_hint a
  format_type_hints (cons a (cons b more)) =
      concat (format_type_hint a ∷ " | " ∷ format_type_hints (cons b more) ∷ [])

-- the hint for a list, by its element type
unfoldable pub list_hint : String → Annotation → String
unfolding concat
list_hint base (class_type mod_name name true) = concat ("<list of " ∷ name ∷ " ids>" ∷ [])
list_hint base _ = concat ("<list of " ∷ base ∷ ">" ∷ [])

unfoldable pub plain_hint : String → String
unfolding concat
plain_hint base = if base == "" then "<value>" else concat ("<" ∷ base ∷ ">" ∷ [])

unfoldable pub builtin_hint : String → String → String
unfolding concat plain_hint
builtin_hint base name =
    if (name == "int") || (name == "float")
    then concat ("<" ∷ base ∷ " value>" ∷ [])
    else if name == "bool"
    then "<true|false>"
    else if name == "str"
    then concat ("<" ∷ base ∷ " text>" ∷ [])
    else plain_hint base

unfoldable pub hint_of : String → Annotation → String
unfolding concat unwrap_optional list_hint builtin_hint plain_hint
hint_of base (class_type mod_name name true) = concat ("<" ∷ name ∷ " id>" ∷ [])
hint_of base (list_of inner) = list_hint base (unwrap_optional inner)
hint_of base (builtin name) = builtin_hint base name
hint_of base _ = plain_hint base

unfoldable pub placeholder_hint : String → Annotation → String
unfolding hint_of words_of unwrap_optional
placeholder_hint name annotation = hint_of (words_of name) (unwrap_optional annotation)
