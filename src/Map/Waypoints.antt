-- ===== src/Map/Waypoints.antt =====
-- sdk/src/steeleagle_sdk/dsl/types/datatypes/waypoint.py: `Waypoints.calculate`. The name MAP of that
-- module is an argument. The loop of the transects runs on fuel: `none` is a call that has not ended.
use Prim.Native.String as Str
use mathlib.Core.Option as Opt
pub mod Unset
use steeleagle.Prelude.{
  ℕ, String, Option, none, some, List, [], ◌∷◌, ◌++◌, map, ltb, if◌then◌else◌, length, value_error,
  type_error, attribute_error, Result, ok, err, ◌>>=◌, Dict, lookup,
}
use steeleagle.Prelude.Int.{ℤ, pos}
use steeleagle.Map.Shapes.{Point, Line, Floats, Shapes}
use steeleagle.Map.GeoPoints.{to_polygon, centroid_of, convert_to_projected, inverse_project_from}
use steeleagle.Map.Partition.{edges, corridor, survey}
use steeleagle.Map.Kml.{Reader, parse_kml_file}

-- A KML area by its name, or the latitude and longitude of each Location.
pub data Area : Type 0 where
  named_area : String → Area
  locations : List (Option ℤ × Option ℤ) → Area

pub data Algo : Type 0 where
  edge_algo survey_algo corridor_algo : Algo

-- `algo` may be None.
pub record Waypoints : Type 0 where
  pub area : Area
  pub alt : ℤ
  pub algo : Option Algo
  pub spacing : Option ℤ
  pub angle_degrees : Option ℤ
  pub trigger_distance : Option ℤ

pub record Waypoint : Type 0 where
  pub lat : ℤ
  pub lon : ℤ
  pub alt : ℤ

-- what a call comes to, if it ends
abbrev pub Run {ℓ} : Type ℓ → Type ℓ
Run A = Option (Result A)

-- `GeoPoints` of the pairs: `float(None)` raises.
unfoldable pub location_points : List (Option ℤ × Option ℤ) → Result (List Point)
location_points [] = ok []
location_points ((some x, some y) ∷ ps) =
    let rest = location_points ps in rest >>= (λ (qs : List Point). ok ((x, y) ∷ qs))
location_points (_ ∷ ps) = err type_error

-- The last branch of the choice of `raw`: the characters of a name have no latitude.
unfoldable pub area_points : Area → Result (List Point)
unfolding location_points
area_points (locations ps) = location_points ps
area_points (named_area Str.[]) = ok []
area_points (named_area (Str.◌∷◌ c s)) = err attribute_error

-- `raw_map[self.area]`, where `none` stands for a return of {}: a list is no key.
unfoldable pub map_points : Dict (List Point) → Area → Result (Option (List Point))
unfolding lookup
map_points [] area = ok none
map_points (a ∷ more) (locations ps) = err type_error
map_points (a ∷ more) (named_area name) = elim (lookup name (a ∷ more)) [
  | none ↦ err value_error
  | some raw ↦ if ltb (length raw) 3 then ok none else ok (some raw)
]

-- the choice of `raw`
unfoldable pub raw_points : Reader → Option String → Area → Result (Option (List Point))
unfolding area_points map_points parse_kml_file
raw_points r none (named_area name) = err value_error
raw_points r none (locations ps) = location_points ps >>= (λ raw. ok (some raw))
raw_points r (some Str.[]) area = area_points area >>= (λ raw. ok (some raw))
raw_points r (some (Str.◌∷◌ c s)) area =
    parse_kml_file r (Str.◌∷◌ c s) >>= (λ areas. map_points areas area)

-- `{self.area: waypoints}`
unfoldable pub under_area : Area → List Waypoint → Result (Dict (List Waypoint))
under_area (named_area name) ws = ok ((name, ws) ∷ [])
under_area (locations ps) ws = err type_error

-- the loop that flattens the segments, whose points it takes for (lon, lat)
unfoldable pub flatten : ℤ → List (List Point) → List Waypoint
flatten alt [] = []
flatten alt (gp ∷ gps) =
    map (λ (p : Point). record { lat = p.1; lon = p.0; alt = alt }) gp ++ flatten alt gps

-- from the partitioned points on
unfoldable pub finish :
    Floats → Waypoints → Point → Result (List (List Point)) → Result (Dict (List Waypoint))
unfolding inverse_project_from flatten under_area
finish f w origin parts = do
  parts_m ← parts
  under_area w.area (flatten w.alt (map (inverse_project_from f origin) parts_m))

module _ (fuel : ℕ) (f : Floats) (s : Shapes) where
  -- `SurveyPartition(...)` and `CorridorPartition(...)`, with the checks before them
  unfoldable pub survey_of :
      Option ℤ → Option ℤ → Option ℤ → Result (s.Polygon → Run (List (List Point)))
  unfolding survey
  survey_of (some spacing) (some angle) (some trigger) =
      ok (λ poly. survey fuel f s spacing angle trigger poly)
  survey_of _ _ _ = err value_error

  unfoldable pub corridor_of : Option ℤ → Option ℤ → Result (s.Polygon → Run (List (List Point)))
  unfolding corridor
  corridor_of (some spacing) (some angle) =
      ok (λ poly. Opt.map ok (corridor fuel f s spacing angle poly))
  corridor_of _ _ = err value_error

  -- the choice of `partition`, as its `generate_partitioned_geopoints`
  unfoldable pub partition_of : Waypoints → Result (s.Polygon → Run (List (List Point)))
  unfolding edges survey_of corridor_of
  partition_of w = elim w.algo [
    | none ↦ err value_error
    | some edge_algo ↦ ok (λ poly. some (ok (edges (s.exterior poly))))
    | some survey_algo ↦ survey_of w.spacing w.angle_degrees w.trigger_distance
    | some corridor_algo ↦ corridor_of w.spacing w.angle_degrees
  ]

  unfoldable pub run_partition :
      Waypoints → List Point → (s.Polygon → Run (List (List Point))) → Run (Dict (List Waypoint))
  unfolding centroid_of convert_to_projected to_polygon finish
  run_partition w raw partition = elim (centroid_of s raw) [
    | err e ↦ some (err e)
    | ok origin ↦ elim (convert_to_projected s f raw >>= (λ projected. to_polygon s projected)) [
      | err e ↦ some (err e)
      | ok poly ↦ Opt.map (finish f w origin) (partition poly)
    ]
  ]

  unfoldable pub calculate : Reader → Option String → Waypoints → Run (Dict (List Waypoint))
  unfolding raw_points partition_of run_partition
  calculate r kml w = elim (raw_points r kml w.area) [
    | err e ↦ some (err e)
    | ok none ↦ some (ok [])
    | ok (some raw) ↦ elim (partition_of w) [
      | err e ↦ some (err e)
      | ok partition ↦ run_partition w raw partition
    ]
  ]
