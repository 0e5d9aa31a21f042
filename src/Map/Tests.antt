-- ===== src/Map/Tests.antt =====
-- sdk/src/steeleagle_sdk/api/map and the waypoints: the theorems at small inputs, over squares.
use steeleagle.Prelude.{
  ℕ, suc, ◌*◌, ◌/◌, ◌≡◌, refl, ◌⊎◌, true, none, some, List, [], ◌∷◌, map, arith, length,
  value_error, parse_error, err,
}
use steeleagle.Prelude.Int.{ℤ, pos, pos_part, leb_ℤ, ◌+ℤ◌, ◌-ℤ◌}
use steeleagle.Map.Shapes.{Floats, point, several, Shapes}
use steeleagle.Map.Kml.{Reader}
use steeleagle.Map.Transects.{max_len, rotated_infinite_transects}
use steeleagle.Map.Transects.Ends.{first_x, end_x, transect, Evenly, transects-ends}
use steeleagle.Map.Waypoints.{Waypoints, locations, edge_algo}

-- whole numbers, whose quotients are rounded down
abbrev whole : Floats
whole = record {
  one = 1;
  mul = λ a b. pos (pos_part a * pos_part b);
  div = λ a b. pos (pos_part a / pos_part b);
  floor_div = λ a b. pos (pos_part a / pos_part b);
  cos = λ a. pos 1;
  radians = λ a. a;
  round = λ a. a;
}

-- an area is the square up to a corner
abbrev squares : Shapes
squares = record {
  Polygon = ℕ;
  polygon = length;
  centroid = λ n. (pos n, pos n);
  exterior = λ n. (pos 0, pos 0) ∷ (pos n, pos 0) ∷ (pos n, pos n) ∷ (pos 0, pos 0) ∷ [];
  bounds = λ n. record { min_x = pos 0; min_y = pos 0; max_x = pos n; max_y = pos n };
  covers = λ n p. true;
  intersection = λ l n. several (point (l.start.0, pos 0) ∷ point (l.start.0, pos n) ∷ []);
  rotate = λ l angle center. l;
  seg_length = λ l. pos 4;
}

transects-ends_example :
    ((leb_ℤ (pos 90) (pos 0) ≡ true)
      × (rotated_infinite_transects 400 whole squares 4 (pos 90) (pos 0) ≡ none))
    ⊎ ((d : ℕ) × (pos 90 ≡ pos (suc d))
        × (xs : List ℤ) × (rotated_infinite_transects 400 whole squares 4 (pos 90) (pos 0)
            ≡ some (map (transect whole squares 4 (pos 0)) xs))
        × Evenly (first_x whole (squares.bounds 4)) (suc d) (end_x whole (squares.bounds 4)) xs)
unfolding max_len ◌+ℤ◌ ◌-ℤ◌
transects-ends_example = transects-ends 400 whole squares 4 (pos 90) (pos 0) refl (ground arith)

abbrev deaf : Reader
deaf = record { placemarks = λ kml. err parse_error; float = λ s. err value_error }

abbrev triangle : Waypoints
triangle = record {
  area = locations (
      (some (pos 0), some (pos 0))
      ∷ (some (pos 4), some (pos 0))
      ∷ (some (pos 4), some (pos 4))
      ∷ []);
  alt = pos 10;
  algo = some edge_algo;
  spacing = none;
  angle_degrees = none;
  trigger_distance = none;
}
