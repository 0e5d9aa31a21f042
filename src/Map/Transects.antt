-- ===== src/Map/Transects.antt =====
-- sdk/src/steeleagle_sdk/api/map/partitioner/utils.py: the parallel lines over an area and their
-- points on its boundary. The loop over x runs on fuel; `none` is a loop that has not ended.
use mathlib.Core.Option as Opt
pub mod Ends
use steeleagle.Prelude.{
  ℕ, zero, suc, ◌^◌, Option, none, some, List, [], ◌∷◌, ◌++◌, map, if◌then◌else◌, any,
}
use steeleagle.Prelude.Int.{ℤ, pos, negsuc, ◌+ℤ◌, ◌-ℤ◌, ◌*ℤ◌, leb_ℤ}
use steeleagle.Map.Shapes.{
  Point, Line, Floats, Shape, point, line, other, Intersection, empty, single, several, Bounds,
  Shapes, same, same_point, lit, max,
}

unfoldable pub round_xy : Floats → Point → ℕ → Point
round_xy f (x, y) decimals =
    let k = lit f (10 ^ decimals) in (f.div (f.round (f.mul x k)) k, f.div (f.round (f.mul y k)) k)

-- the points of one geometry of the intersection
unfoldable pub shape_points : Shape → List Point
shape_points (point p) = p ∷ []
shape_points (line l) = l.start ∷ l.stop ∷ []
shape_points other = []

unfoldable pub all_points : List Shape → List Point
unfolding shape_points
all_points [] = []
all_points (g ∷ gs) = shape_points g ++ all_points gs

unfoldable pub intersection_points : Intersection → List Point
unfolding all_points
intersection_points empty = []
intersection_points (single g) = shape_points g
intersection_points (several gs) = all_points gs

-- The loop over `pts`, with `seen`: the points whose rounded point did not come before.
unfoldable pub dedup : Floats → List Point → List Point → List Point
unfolding round_xy
dedup f seen [] = []
dedup f seen (p ∷ ps) =
    let rounded = round_xy f p 6 in
    let rest = dedup f (rounded ∷ seen) ps in
    let skipped = dedup f seen ps in if any (same_point rounded) seen then skipped else p ∷ rest

-- the place of a point along the line
unfoldable pub tparam : Floats → Line → Point → ℤ
tparam f l (x, y) =
    let dx = l.stop.0 -ℤ l.start.0 in
    let dy = l.stop.1 -ℤ l.start.1 in
    let square = f.mul dx dx +ℤ f.mul dy dy in
    let denom = if same square (pos 0) then lit f 1 else square in
    f.div (f.mul (x -ℤ l.start.0) dx +ℤ f.mul (y -ℤ l.start.1) dy) denom

-- `out.sort(key=...)`: a stable sort
unfoldable pub insert_by : (Point → ℤ) → Point → List Point → List Point
insert_by key p [] = p ∷ []
insert_by key p (q ∷ qs) = if leb_ℤ (key p) (key q) then p ∷ q ∷ qs else q ∷ insert_by key p qs

unfoldable pub sort_by : (Point → ℤ) → List Point → List Point
unfolding insert_by
sort_by key [] = []
sort_by key (p ∷ ps) = insert_by key p (sort_by key ps)

unfoldable pub line_polygon_intersection_points :
    Floats → (s : Shapes) → Line → s.Polygon → List Point
unfolding sort_by tparam dedup intersection_points
line_polygon_intersection_points f s l poly =
    sort_by (tparam f l) (dedup f [] (intersection_points (s.intersection l poly)))

-- `while x <= end_x`: the places of the vertical lines
unfoldable pub verticals : ℕ → ℤ → ℤ → ℤ → Option (List ℤ)
verticals zero spacing x end = none
verticals (suc fuel) spacing x end =
    let rest = verticals fuel spacing (x +ℤ spacing) end in
    if leb_ℤ x end then Opt.map (λ (xs : List ℤ). x ∷ xs) rest else some []

unfoldable pub max_len : Floats → Bounds → ℤ
max_len f b = max (b.max_x -ℤ b.min_x) (b.max_y -ℤ b.min_y) +ℤ lit f 100

unfoldable pub rotated_infinite_transects :
    ℕ → Floats → (s : Shapes) → s.Polygon → ℤ → ℤ → Option (List Line)
unfolding verticals max_len
rotated_infinite_transects fuel f s poly spacing angle_deg =
    let b = s.bounds poly in
    let len = max_len f b in
    let center : Point =
      (f.div (b.min_x +ℤ b.max_x) (lit f 2), f.div (b.min_y +ℤ b.max_y) (lit f 2)) in
    let vertical : ℤ → Line =
      λ x. record { start = (x, b.min_y -ℤ len); stop = (x, b.max_y +ℤ len) } in
    Opt.map (λ (xs : List ℤ). map (λ (x : ℤ). s.rotate (vertical x) angle_deg center) xs)
      (verticals fuel spacing (b.min_x -ℤ len) (b.max_x +ℤ len))
