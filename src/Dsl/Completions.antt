-- ===== src/Dsl/Completions.antt =====
-- sdk/src/steeleagle_sdk/dsl/tools/language_server/registry_completions.py: the completions that the
-- editor offers for the registered classes. A snippet is the list of its pieces: a text, or a tab stop
-- `${n:hint}` with its number and its hint.
pub mod Stops
use Prim.Native.String as Str
use steeleagle.Prelude.{
  ℕ, suc, ◌-◌, String, Bool, Option, none, some, List, [], ◌∷◌, ◌++◌, map, if◌then◌else◌, keep,
  codes, contains, concat,
}
use steeleagle.Map.Kml.{strip}
use steeleagle.Dsl.Registry.{lower_code}
use steeleagle.Dsl.Hints.{Annotation, format_type_hint, placeholder_hint}

pub record FieldInfo : Type 0 where
  pub name : String
  pub annotation : Annotation
  pub required : Bool

pub record ModelClass : Type 0 where
  pub name : String
  -- `inspect.cleandoc(cls.__doc__ or "")`
  pub doc : String
  pub fields : List FieldInfo

pub data Piece : Type 0 where
  text : String → Piece
  stop : ℕ → String → Piece

-- What `_build_attr_lines` gives: the lines of the required and of the optional fields, their names,
-- what the documentation says of each field, and the stops alone.
pub record AttrLines : Type 0 where
  pub required_lines : List (List Piece)
  pub optional_lines : List (List Piece)
  pub required_names : List String
  pub optional_names : List String
  pub field_docs : List (String × String × Bool)
  pub arg_placeholders : List (List Piece)

unfoldable pub add_field : FieldInfo → ℕ → AttrLines → AttrLines
unfolding placeholder_hint concat format_type_hint
add_field f idx rest =
    let placeholder = stop idx (placeholder_hint f.name f.annotation) in
    let line = text (concat (f.name ∷ " = " ∷ [])) ∷ placeholder ∷ [] in
    let arguments = (placeholder ∷ []) ∷ rest.arg_placeholders in
    let docs : List (String × String × Bool) =
      (f.name, format_type_hint f.annotation, f.required) ∷ rest.field_docs in
    if f.required
    then record rest {
      required_lines = line ∷ rest.required_lines;
      required_names = f.name ∷ rest.required_names;
      field_docs = docs;
      arg_placeholders = arguments;
    }
    else record rest {
      optional_lines = line ∷ rest.optional_lines;
      optional_names = f.name ∷ rest.optional_names;
      field_docs = docs;
      arg_placeholders = arguments;
    }

unfoldable pub build_attr_lines : List FieldInfo → ℕ → AttrLines
unfolding add_field
build_attr_lines [] idx = record {
  required_lines = [];
  optional_lines = [];
  required_names = [];
  optional_names = [];
  field_docs = [];
  arg_placeholders = [];
}
build_attr_lines (f ∷ fs) idx = add_field f idx (build_attr_lines fs (suc idx))

-- `', '.join(lines)`
unfoldable pub joined : List (List Piece) → List Piece
joined [] = []
joined (l ∷ []) = l
joined (l ∷ m ∷ ls) = l ++ text ", " ∷ joined (m ∷ ls)

-- `_render_constructor` with an identifier
unfoldable pub render_constructor : String → Piece → List (List Piece) → List Piece
unfolding joined
render_constructor name identifier [] = text name ∷ text " " ∷ identifier ∷ []
render_constructor name identifier (l ∷ ls) =
    text name ∷ text " " ∷ identifier ∷ text "(" ∷ joined (l ∷ ls) ++ text ")" ∷ []

unfoldable pub render_inline_constructor : String → List (List Piece) → List Piece
unfolding joined
render_inline_constructor name [] = text name ∷ text "()" ∷ []
render_inline_constructor name (a ∷ more) =
    text name ∷ text "(" ∷ joined (a ∷ more) ++ text ")" ∷ []

unfoldable pub field_doc : String × String × Bool → String
unfolding concat
field_doc (name, type_repr, is_required) = concat (
    "- `"
    ∷ name
    ∷ "` ("
    ∷ type_repr
    ∷ ") - "
    ∷ (if is_required then "required" else "optional")
    ∷ [])

-- the lines of `_build_documentation`, of which there are none where it gives None
unfoldable pub build_documentation : String → List (String × String × Bool) → List String
unfolding field_doc
build_documentation Str.[] [] = []
build_documentation Str.[] (d ∷ docs) = "**Fields**" ∷ map field_doc (d ∷ docs)
build_documentation raw_doc [] = raw_doc ∷ []
build_documentation raw_doc (d ∷ docs) = raw_doc ∷ "" ∷ "**Fields**" ∷ map field_doc (d ∷ docs)

-- `", ".join(names)`
unfoldable pub comma_joined : List String → String
unfolding concat
comma_joined [] = ""
comma_joined (n ∷ []) = n
comma_joined (n ∷ m ∷ names) = concat (n ∷ ", " ∷ comma_joined (m ∷ names) ∷ [])

-- a bit of the detail line, which stands only where there are names
unfoldable pub detail_bit : String → List String → List String
unfolding comma_joined concat
detail_bit head [] = []
detail_bit head (n ∷ names) = concat (head ∷ comma_joined (n ∷ names) ∷ []) ∷ []

pub data Kind : Type 0 where
  action_kind event_kind data_kind : Kind

pub record Completion : Type 0 where
  pub label : String
  pub insert_text : List Piece
  -- the bits of the detail line, and the lines of the documentation
  pub detail : List String
  pub documentation : List String
  pub sort_text : String

unfoldable pub kind_name : Kind → String
kind_name action_kind = "action (SDK)"
kind_name event_kind = "event (SDK)"
kind_name data_kind = "data (SDK)"

-- `_create_model_completion`, with the inline constructor of a datum
unfoldable pub create_model_completion : Kind → ModelClass → String → Completion × Option Completion
unfolding build_attr_lines render_constructor render_inline_constructor concat build_documentation
    detail_bit kind_name
create_model_completion kind cls prefix =
    let attrs = build_attr_lines cls.fields 2 in
    let identifier = stop 1 (concat ("<" ∷ cls.name ∷ " name>" ∷ [])) in
    let inline : Completion = record {
      label = cls.name;
      insert_text = render_inline_constructor cls.name attrs.arg_placeholders;
      detail = concat ("inline data constructor (" ∷ cls.name ∷ ")" ∷ []) ∷ [];
      documentation = build_documentation cls.doc attrs.field_docs;
      sort_text = concat ("04_" ∷ cls.name ∷ []);
    } in
    (
      record {
        label = cls.name;
        insert_text =
            render_constructor cls.name identifier (attrs.required_lines ++ attrs.optional_lines);
        detail =
            kind_name kind ∷ detail_bit "required: " attrs.required_names
            ++ detail_bit "optional: " attrs.optional_names;
        documentation = build_documentation cls.doc attrs.field_docs;
        sort_text = concat (prefix ∷ "_" ∷ cls.name ∷ []);
      },
      elim kind [ action_kind ↦ none | event_kind ↦ none | data_kind ↦ some inline ],
    )

-- `not p or p in entry.label.lower()`
unfoldable pub matching : String → List Completion → List Completion
unfolding contains
matching prefix entries =
    let p = map lower_code (codes prefix) in
    keep (λ (e : Completion). contains p (map lower_code (codes e.label))) entries
