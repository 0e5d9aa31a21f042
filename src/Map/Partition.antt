-- ===== src/Map/Partition.antt =====
-- sdk/src/steeleagle_sdk/api/map/partitioner/algos: the three ways to cut an area into segments.
use mathlib.Core.Option as Opt
use steeleagle.Prelude.{
  ◌>>=◌, ℕ, zero, suc, ◌+◌, Option, List, [], ◌∷◌, ◌++◌, map, leb, if◌then◌else◌,
  zero_division_error, Result, ok, err,
}
use steeleagle.Prelude.Int.{ℤ, pos, pos_part, ◌+ℤ◌, ◌-ℤ◌, ◌*ℤ◌, leb_ℤ}
use steeleagle.Map.Shapes.{Point, Line, Floats, Shapes, same}
use steeleagle.Map.Transects.{
  round_xy, line_polygon_intersection_points, rotated_infinite_transects,
}

-- `EdgePartition`: each corner of the outline with the next one
unfoldable pub edges : List Point → List (List Point)
edges [] = []
edges (p ∷ []) = []
edges (p ∷ q ∷ ps) = (p ∷ q ∷ []) ∷ edges (q ∷ ps)

-- `zip(pts[0::2], pts[1::2])`
unfoldable pub pairs : List Point → List (Point × Point)
pairs [] = []
pairs (p ∷ []) = []
pairs (p ∷ q ∷ ps) = (p, q) ∷ pairs ps

-- `CorridorPartition`: there and back
unfoldable pub corridor_segment : Floats → Point × Point → List Point
unfolding round_xy
corridor_segment f (a, b) = let p0 = round_xy f a 3 in let p1 = round_xy f b 3 in p0 ∷ p1 ∷ p0 ∷ []

-- the segments of one transect; `if len(pts) >= 2` has no effect, since fewer points make no pair
unfoldable pub corridor_line : Floats → (s : Shapes) → s.Polygon → Line → List (List Point)
unfolding line_polygon_intersection_points pairs corridor_segment
corridor_line f s poly l =
    map (corridor_segment f) (pairs (line_polygon_intersection_points f s l poly))

unfoldable pub corridor_lines : Floats → (s : Shapes) → s.Polygon → List Line → List (List Point)
unfolding corridor_line
corridor_lines f s poly [] = []
corridor_lines f s poly (l ∷ ls) = corridor_line f s poly l ++ corridor_lines f s poly ls

unfoldable pub corridor : ℕ → Floats → (s : Shapes) → ℤ → ℤ → s.Polygon → Option (List (List Point))
unfolding rotated_infinite_transects corridor_lines
corridor fuel f s spacing angle poly =
    Opt.map (corridor_lines f s poly) (rotated_infinite_transects fuel f s poly spacing angle)

-- `SurveyPartition`: `for i in range(npts + 1)` from i on, the points that the polygon covers, each
-- a step of the trigger distance on from a in the direction (ux, uy)
unfoldable pub survey_points :
    Floats → (s : Shapes) → s.Polygon → ℤ → Point → Point → ℕ → ℕ → List Point
unfolding round_xy
survey_points f s poly trigger a u i zero = []
survey_points f s poly trigger a u i (suc left) =
    let d = pos i *ℤ trigger in
    let p : Point = (a.0 +ℤ f.mul d u.0, a.1 +ℤ f.mul d u.1) in
    let rest = survey_points f s poly trigger a u (suc i) left in
    if s.covers poly p then round_xy f p 3 ∷ rest else rest

-- `max(1, int(length // trigger_distance))`
unfoldable pub point_count : Floats → ℤ → ℤ → ℕ
point_count f len trigger = let n = pos_part (f.floor_div len trigger) in if leb n 1 then 1 else n

unfoldable pub survey_segment :
    Floats → (s : Shapes) → s.Polygon → ℤ → Point × Point → Result (List (List Point))
unfolding survey_points point_count
survey_segment f s poly trigger (a, b) =
    let len = s.seg_length (record { start = a; stop = b }) in
    let u : Point = (f.div (b.0 -ℤ a.0) len, f.div (b.1 -ℤ a.1) len) in
    let points = survey_points f s poly trigger a u 0 (point_count f len trigger + 1) in
    if leb_ℤ len (pos 0)
    then ok []
    else if same trigger (pos 0)
    then err zero_division_error
    else (elim points [ [] ↦ ok [] | p ∷ ps ↦ ok ((p ∷ ps) ∷ []) ])

unfoldable pub survey_segments :
    Floats → (s : Shapes) → s.Polygon → ℤ → List (Point × Point) → Result (List (List Point))
unfolding survey_segment
survey_segments f s poly trigger [] = ok []
survey_segments f s poly trigger (p ∷ ps) = do
  first ← survey_segment f s poly trigger p
  rest ← survey_segments f s poly trigger ps
  ok (first ++ rest)

unfoldable pub survey_lines :
    Floats → (s : Shapes) → s.Polygon → ℤ → List Line → Result (List (List Point))
unfolding survey_segments line_polygon_intersection_points pairs
survey_lines f s poly trigger [] = ok []
survey_lines f s poly trigger (l ∷ ls) = do
  first ← survey_segments f s poly trigger (pairs (line_polygon_intersection_points f s l poly))
  rest ← survey_lines f s poly trigger ls
  ok (first ++ rest)

unfoldable pub survey :
    ℕ → Floats → (s : Shapes) → ℤ → ℤ → ℤ → s.Polygon → Option (Result (List (List Point)))
unfolding rotated_infinite_transects survey_lines
survey fuel f s spacing angle trigger poly =
    Opt.map (survey_lines f s poly trigger) (rotated_infinite_transects fuel f s poly spacing angle)
