-- ===== src/Map/Kml.antt =====
-- sdk/src/steeleagle_sdk/api/map/partitioner/utils.py: the areas of a KML text. What `minidom` finds
-- in it and `float` of a text are parameters.
use Prim.Native.String as Str
use steeleagle.Prelude.{
  code, String, Option, none, some, List, [], ◌∷◌, if◌then◌else◌, attribute_error, Result, ok, err,
  ◌>>=◌, Dict, insert, split,
}
use steeleagle.Prelude.Int.{ℤ}
use steeleagle.Dsl.Registry.{is_space}
use steeleagle.Map.Shapes.{Point}

-- The text under each `name` and each `coordinates` element of a `Placemark`, if it has one.
pub record Placemark : Type 0 where
  pub names : List (Option String)
  pub coordinates : List (Option String)

pub record Reader : Type 0 where
  -- the placemarks of a document; parsing may raise
  pub placemarks : String → Result (List Placemark)
  pub float : String → Result ℤ

unfoldable pub strip_start : String → String
strip_start Str.[] = Str.[]
strip_start (Str.◌∷◌ c s) = if is_space (code c) then strip_start s else Str.◌∷◌ c s

unfoldable pub strip_end : String → String
strip_end Str.[] = Str.[]
strip_end (Str.◌∷◌ c s) = elim (strip_end s) [
  | Str.[] ↦ if is_space (code c) then Str.[] else Str.◌∷◌ c Str.[]
  | Str.◌∷◌ d t ↦ Str.◌∷◌ c (Str.◌∷◌ d t)
]

-- `s.strip()`
unfoldable pub strip : String → String
unfolding strip_start strip_end
strip s = strip_end (strip_start s)

-- the word that a text starts with, and the words behind it
unfoldable pub words_from : String → String × List String
words_from Str.[] = (Str.[], [])
words_from (Str.◌∷◌ c s) =
    let rest = words_from s in
    if is_space (code c)
    then (Str.[], (elim rest.0 [ Str.[] ↦ rest.1 | Str.◌∷◌ d t ↦ rest.0 ∷ rest.1 ]))
    else (Str.◌∷◌ c rest.0, rest.1)

-- `s.split()`
unfoldable pub words : String → List String
unfolding words_from
words s = elim (words_from s).0 [
  | Str.[] ↦ (words_from s).1
  | Str.◌∷◌ d t ↦ (words_from s).0 ∷ (words_from s).1
]

module _ (r : Reader) where
  -- the loop over the tokens
  unfoldable pub token_points : List String → Result (List Point)
  unfolding split
  token_points [] = ok []
  token_points (token ∷ tokens) = elim (split b',' token) [
    | [] ↦ token_points tokens
    | a ∷ [] ↦ token_points tokens
    | a ∷ b ∷ more ↦ do
      lon ← r.float a
      lat ← r.float b
      rest ← token_points tokens
      ok ((lon, lat) ∷ rest)
  ]

  unfoldable pub parse_kml_coordinates_to_geopoints : String → Result (List Point)
  unfolding token_points strip words
  parse_kml_coordinates_to_geopoints text = token_points (words (strip text))

  -- one placemark: `firstChild` is None where the element has no text
  unfoldable pub placemark_area :
      List (Option String) → List (Option String) → Dict (List Point) → Result (Dict (List Point))
  unfolding parse_kml_coordinates_to_geopoints strip insert
  placemark_area [] coordinates areas = ok areas
  placemark_area (n ∷ ns) [] areas = ok areas
  placemark_area (none ∷ ns) (c ∷ cs) areas = err attribute_error
  placemark_area (some name ∷ ns) (none ∷ cs) areas = err attribute_error
  placemark_area (some name ∷ ns) (some text ∷ cs) areas = do
    points ← parse_kml_coordinates_to_geopoints (strip text)
    ok (insert (strip name) points areas)

  unfoldable pub placemark_areas : List Placemark → Dict (List Point) → Result (Dict (List Point))
  unfolding placemark_area
  placemark_areas [] areas = ok areas
  placemark_areas (p ∷ ps) areas = do
    next ← placemark_area p.names p.coordinates areas
    placemark_areas ps next

  unfoldable pub parse_kml_file : String → Result (Dict (List Point))
  unfolding placemark_areas
  parse_kml_file kml = r.placemarks kml >>= (λ found. placemark_areas found [])
