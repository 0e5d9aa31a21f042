-- ===== src/Map/GeoPoints.antt =====
-- sdk/src/steeleagle_sdk/api/map/partitioner/geopoints.py: lists of points with their polygon, their
-- centroid and the local projection.
use steeleagle.Prelude.{
  none, some, List, [], ◌∷◌, ◌++◌, map, if◌then◌else◌, get_last?, value_error, Result, ok, err,
  ◌>>=◌,
}
use steeleagle.Prelude.Int.{◌+ℤ◌, ◌-ℤ◌}
use steeleagle.Map.Shapes.{Point, Floats, Shapes, same_point, lit}

-- `coords.append(coords[0])` where the last point is not the first
unfoldable pub closed : Point → List Point → List Point
closed first ps = elim (get_last? ps) [
  | none ↦ ps
  | some last ↦ if same_point first last then ps else ps ++ first ∷ []
]

unfoldable pub project_to_meters : Floats → Point → Point → Point
project_to_meters f (lon0, lat0) (lon, lat) =
    let lat_rad = f.radians lat0 in
    (f.mul (f.mul (lon -ℤ lon0) (lit f 111320)) (f.cos lat_rad), f.mul (lat -ℤ lat0) (lit f 110540))

unfoldable pub inverse_project : Floats → Point → Point → Point
inverse_project f (lon0, lat0) (x, y) =
    let lat_rad = f.radians lat0 in
    (f.div x (f.mul (lit f 111320) (f.cos lat_rad)) +ℤ lon0, f.div y (lit f 110540) +ℤ lat0)

unfoldable pub inverse_project_from : Floats → Point → List Point → List Point
unfolding inverse_project
inverse_project_from f origin ps = map (inverse_project f origin) ps

module _ (s : Shapes) where
  unfoldable pub to_polygon : List Point → Result s.Polygon
  unfolding closed
  to_polygon (p ∷ q ∷ r ∷ ps) = ok (s.polygon (closed p (p ∷ q ∷ r ∷ ps)))
  to_polygon ps = err value_error

  unfoldable pub centroid_of : List Point → Result Point
  unfolding to_polygon
  centroid_of ps = to_polygon ps >>= (λ poly. ok (s.centroid poly))

  unfoldable pub convert_to_projected : Floats → List Point → Result (List Point)
  unfolding centroid_of project_to_meters
  convert_to_projected f ps =
      centroid_of ps >>= (λ origin. ok (map (project_to_meters f origin) ps))
