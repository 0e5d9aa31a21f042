-- ===== src/Dsl/Server.antt =====
-- dsl/tools/language_server/main.py: where in a mission text the cursor stands, and what is offered there.
-- A document is the list of its lines, a line the list of its ASCII code points.
pub mod Places
use steeleagle.Prelude.{
  ℕ, zero, suc, String, Bool, true, false, ◌&&◌, ◌||◌, Option, none, some, List, [], ◌∷◌, ◌++◌, map,
  ltb, leb, eqb, if◌then◌else◌, length, get_elem?, keep, Result, ok, err, codes, has_prefix,
  contains, concat,
}
use steeleagle.Dsl.Registry.{strip_left, strip_right, lower_code, same_codes}
use steeleagle.Dsl.Completions.{Piece, Completion, matching}
use steeleagle.Dsl.Completions.{text as plain}

pub data Section : Type 0 where
  mission_section events_section actions_section data_section : Section

-- `s[:n]` and `s[n:]`
unfoldable pub take : ℕ → List ℕ → List ℕ
take zero s = []
take (suc n) [] = []
take (suc n) (c ∷ s) = c ∷ take n s

unfoldable pub drop : ℕ → List ℕ → List ℕ
drop zero s = s
drop (suc n) [] = []
drop (suc n) (c ∷ s) = drop n s

abbrev pub stripped : List ℕ → List ℕ
stripped s = strip_right (strip_left s)

unfoldable pub get_line_prefix : List (List ℕ) → ℕ → ℕ → List ℕ
unfolding take
get_line_prefix lines line ch = elim (get_elem? lines line) [ none ↦ [] | some l ↦ take ch l ]

-- the tests of the loop on one line
unfoldable pub heading : List ℕ → Option Section
unfolding has_prefix
heading line =
    let s = stripped line in
    if has_prefix (codes "Mission:") s
    then some mission_section
    else if has_prefix (codes "Events:") s
    then some events_section
    else if has_prefix (codes "Actions:") s
    then some actions_section
    else if has_prefix (codes "Data:") s
    then some data_section
    else none

-- the loop of `detect_section`, upwards from the line before the given number
unfoldable pub section_above : List (List ℕ) → ℕ → Option Section
section_above lines zero = none
section_above lines (suc i) = elim (get_elem? lines i) [
  | none ↦ section_above lines i
  | some line ↦ elim (heading line) [ some s ↦ some s | none ↦ section_above lines i ]
]

unfoldable pub detect_section : List (List ℕ) → ℕ → Option Section
unfolding section_above
detect_section lines line =
    section_above lines (if ltb line (length lines) then suc line else length lines)

-- what stands behind the last `sep`, if there is one
unfoldable pub after_last : ℕ → List ℕ → Option (List ℕ)
after_last sep [] = none
after_last sep (c ∷ s) = elim (after_last sep s) [
  | some suffix ↦ some suffix
  | none ↦ if eqb c sep then some s else none
]

-- one round of the loop over the separators
unfoldable pub stands_behind : ℕ → List ℕ → List ℕ → Bool
unfolding after_last strip_left strip_right
stands_behind sep prefix ident = elim (after_last sep prefix) [
  | none ↦ false
  | some suffix ↦ same_codes (stripped suffix) ident
]

unfoldable pub is_value_position : List ℕ → List ℕ → Bool
unfolding stands_behind
is_value_position prefix ident = stands_behind b'=' prefix ident || stands_behind b':' prefix ident

-- `isalnum`, or one of `_` and `-`
unfoldable pub is_ident : ℕ → Bool
is_ident c =
    (leb b'a' c && leb c b'z')
    || (leb b'A' c && leb c b'Z')
    || (leb b'0' c && leb c b'9')
    || eqb c b'_'
    || eqb c b'-'

-- the loop of `ident_prefix`: where the identifier that ends before `i` starts
unfoldable pub ident_start : List ℕ → ℕ → ℕ
unfolding is_ident
ident_start s zero = zero
ident_start s (suc i) = elim (get_elem? s i) [
  | none ↦ suc i
  | some c ↦ elim (is_ident c) [ true ↦ ident_start s i | false ↦ suc i ]
]

unfoldable pub ident_prefix : List ℕ → List ℕ
unfolding ident_start drop
ident_prefix s = drop (ident_start s (length s)) s

pub record Item : Type 0 where
  pub label : String
  pub detail : List String
  pub insert_text : List Piece
  pub sort_text : String

-- `to_item`, without the documentation
unfoldable pub to_item : Completion → Item
to_item c = record {
  label = c.label;
  detail = c.detail;
  insert_text = c.insert_text;
  sort_text = c.sort_text;
}

abbrev pub section_snippets : List (String × String)
section_snippets =
    ("Data:", "Data:\n    ${1}")
    ∷ ("Actions:", "Actions:\n    ${1}")
    ∷ ("Events:", "Events:\n    ${1}")
    ∷ ("Mission:", "Mission:\n    Start ${1:ActionId}")
    ∷ ("During", "During ${1:ActionId}:\n    ${2:EventId} -> ${3:NextActionId}")
    ∷ ("done ->", "done -> ${1:NextActionId}")
    ∷ []

abbrev pub simple_keywords : List String
simple_keywords =
    "->" ∷ "Start" ∷ "During" ∷ "done" ∷ "Data" ∷ "Actions" ∷ "Events" ∷ "Mission" ∷ []

-- `p in label.lower()`
unfoldable pub label_fits : List ℕ → String → Bool
unfolding contains lower_code
label_fits pfx label = contains (map lower_code pfx) (map lower_code (codes label))

unfoldable pub items_section_snippets : List ℕ → List Item
unfolding label_fits concat
items_section_snippets pfx =
    map
      (λ (s : String × String). record {
        label = s.0;
        detail = "snippet" ∷ [];
        insert_text = plain s.1 ∷ [];
        sort_text = concat ("80_" ∷ s.0 ∷ []);
      })
      (keep (λ (s : String × String). label_fits pfx s.0) section_snippets)

unfoldable pub items_simple_keywords : List ℕ → List Item
unfolding label_fits concat
items_simple_keywords pfx =
    map
      (λ (kw : String). record {
        label = kw;
        detail = "keyword" ∷ [];
        insert_text = plain kw ∷ [];
        sort_text = concat ("90_" ∷ kw ∷ []);
      })
      (keep (label_fits pfx) simple_keywords)

-- what `_build_registry_lookup` makes of the registry
pub record RegistryItems : Type 0 where
  pub actions : List Completion
  pub events : List Completion
  pub datums : List Completion
  pub inline_data : List Completion

-- the entries under the name of a section; there are none for a mission
unfoldable pub entries : RegistryItems → Section → List Completion
entries r mission_section = []
entries r events_section = r.events
entries r actions_section = r.actions
entries r data_section = r.datums

abbrev offered : List ℕ → List Completion → List Item
offered pfx cs = map to_item (keep (λ (e : Completion). label_fits pfx e.label) cs)

unfoldable pub registry_items_for_section : RegistryItems → Option Section → List ℕ → List Item
unfolding entries label_fits to_item
registry_items_for_section r none pfx = []
registry_items_for_section r (some s) pfx = offered pfx (entries r s)

unfoldable pub inline_data_items : RegistryItems → List ℕ → List Item
unfolding label_fits to_item
inline_data_items r pfx = offered pfx r.inline_data

-- the body of the `try` of `on_complete`
unfoldable pub items_at : RegistryItems → List (List ℕ) → ℕ → ℕ → List Item
unfolding get_line_prefix ident_prefix detect_section is_value_position registry_items_for_section
    inline_data_items items_section_snippets items_simple_keywords
items_at r lines line ch =
    let line_pref = get_line_prefix lines line ch in
    let pfx = ident_prefix line_pref in
    registry_items_for_section r (detect_section lines line) pfx
    ++ (if is_value_position line_pref pfx then inline_data_items r pfx else [])
    ++ items_section_snippets pfx
    ++ items_simple_keywords pfx

-- `on_complete`: opening the document or making the lookup may raise.
unfoldable pub on_complete : Result RegistryItems → Result (List (List ℕ)) → ℕ → ℕ → List Item
unfolding items_at
on_complete registry document line ch = elim document [
  | err fault ↦ []
  | ok lines ↦ elim registry [ err fault ↦ [] | ok r ↦ items_at r lines line ch ]
]
