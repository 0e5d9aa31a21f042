-- ===== src/Map/Shapes.antt =====
-- What sdk/src/steeleagle_sdk/api/map takes from Python's floats and from Shapely. A float is an
-- integer in units of 1 / one; products, quotients and the cosine, which round, are functions of the
-- record Floats, as are the polygons and their intersections of Shapes.
use steeleagle.Prelude.{ℕ, ◌*◌, Bool, ◌&&◌, List, if◌then◌else◌}
use steeleagle.Prelude.Int.{ℤ, pos, leb_ℤ}

-- a point (x, y): longitude and latitude, or metres
abbrev pub Point : Type 0
Point = ℤ × ℤ

-- `LineString` of two points
pub record Line : Type 0 where
  pub start : Point
  pub stop : Point

pub record Floats : Type 0 where
  pub one : ℕ
  pub mul : ℤ → ℤ → ℤ
  pub div : ℤ → ℤ → ℤ
  -- `int(a // b)`, where b is not 0
  pub floor_div : ℤ → ℤ → ℤ
  pub cos : ℤ → ℤ
  pub radians : ℤ → ℤ
  pub round : ℤ → ℤ

-- What an intersection is made of: a point, a line by its ends, or another shape.
pub data Shape : Type 0 where
  point : Point → Shape
  line : Line → Shape
  other : Shape

-- nothing, one shape, or a collection of them
pub data Intersection : Type 0 where
  empty : Intersection
  single : Shape → Intersection
  several : List Shape → Intersection

pub record Bounds : Type 0 where
  pub min_x : ℤ
  pub min_y : ℤ
  pub max_x : ℤ
  pub max_y : ℤ

pub record Shapes : Type 1 where
  pub Polygon : Type 0
  pub polygon : List Point → Polygon
  pub centroid : Polygon → Point
  pub exterior : Polygon → List Point
  pub bounds : Polygon → Bounds
  pub covers : Polygon → Point → Bool
  -- `line.intersection(polygon.boundary)`
  pub intersection : Line → Polygon → Intersection
  pub rotate : Line → ℤ → Point → Line
  pub seg_length : Line → ℤ

abbrev pub same : ℤ → ℤ → Bool
same a b = leb_ℤ a b && leb_ℤ b a

abbrev pub same_point : Point → Point → Bool
same_point p q = same p.0 q.0 && same p.1 q.1

-- a whole number as a float
abbrev pub lit : Floats → ℕ → ℤ
lit f n = pos (n * f.one)

-- `max(a, b)`
abbrev pub max : ℤ → ℤ → ℤ
max a b = if leb_ℤ b a then a else b
