-- ===== src/Map/Waypoints/Unset.antt =====
-- sdk/src/steeleagle_sdk/dsl/types/datatypes/waypoint.py: the waypoints while the module's MAP is None.

use mathlib.Core.Option as Opt
use steeleagle.Prelude.{
  ℕ, ◌≡◌, refl, ◌⊎◌, inl, inr, Bool, true, false, Option, none, some, List, Fault, value_error,
  Result, ok, err, ◌>>=◌, Result-cases,
}
use steeleagle.Prelude.Int.{ℤ}
use steeleagle.Map.Shapes.{Point, Floats, Shapes}
use steeleagle.Map.GeoPoints.{to_polygon, centroid_of, convert_to_projected}
use steeleagle.Map.Kml.{Reader}
use steeleagle.Map.Waypoints.{
  Area, named_area, locations, Waypoints, Run, location_points, raw_points, under_area,
  partition_of, finish, run_partition, calculate,
}

-- The call has ended and returned.
abbrev pub returns {ℓ} : {A : Type ℓ} → Run A → Bool
returns none = false
returns (some (err e)) = false
returns (some (ok a)) = true

finish-raises :
    (f : Floats) (w : Waypoints) (ps : List (Option ℤ × Option ℤ))
    → w.area ≡ locations ps
    → (origin : Point) (parts : Option (Result (List (List Point))))
    → returns (Opt.map (finish f w origin) parts) ≡ false
unfolding finish under_area
finish-raises f w ps e origin none = refl
finish-raises f w ps e origin (some (err fault)) = refl
finish-raises f w ps e origin (some (ok parts)) = rw e refl

raw_points-unset :
    (r : Reader) (area : Area)
    → ((e : Fault) × (raw_points r none area ≡ err e))
      ⊎ ((ps : List (Option ℤ × Option ℤ)) × (area ≡ locations ps)
          × (raw : List Point) × (raw_points r none area ≡ ok (some raw)))
unfolding raw_points
raw_points-unset r (named_area name) = inl (value_error, refl)
raw_points-unset r (locations ps) = elim (Result-cases (location_points ps)) [
  | inl (raw, e) ↦ inr (ps, refl, raw, rw e refl)
  | inr (fault, e) ↦ inl (fault, rw e refl)
]

run_partition-raises :
    (fuel : ℕ) (f : Floats) (s : Shapes) (w : Waypoints) (ps : List (Option ℤ × Option ℤ))
    → w.area ≡ locations ps
    → (raw : List Point) (partition : s.Polygon → Run (List (List Point)))
    → returns (run_partition fuel f s w raw partition) ≡ false
unfolding run_partition
run_partition-raises fuel f s w ps e raw partition = elim (Result-cases (centroid_of s raw)) [
  | inr (fault, bad) ↦ rw (run_partition, bad) refl
  | inl (origin, good) ↦
      (elim (Result-cases
        (convert_to_projected s f raw >>= (λ projected. to_polygon s projected))) [
          | inr (fault, bad) ↦ rw (run_partition, good, bad) refl
          | inl (poly, made) ↦
              rw (run_partition, good, made) (finish-raises f w ps e origin (partition poly))
        ])
]

-- While MAP is None, no call of `calculate` returns waypoints, whatever the area, the partitioner and
-- the geometry: a named area raises, and so does a list of locations in the end, if the loop of the
-- transects lets it come that far.
calculate-unset :
    (fuel : ℕ) (f : Floats) (s : Shapes) (r : Reader) (w : Waypoints)
    → returns (calculate fuel f s r none w) ≡ false
unfolding calculate
calculate-unset fuel f s r w = elim (raw_points-unset r w.area) [
  | inl (fault, bad) ↦ rw (calculate, bad) refl
  | inr (ps, area, raw, good) ↦ (elim (Result-cases (partition_of fuel f s w)) [
    | inr (fault, bad) ↦ rw (calculate, good, bad) refl
    | inl (partition, found) ↦
        rw (calculate, good, found) (run_partition-raises fuel f s w ps area raw partition)
  ])
]
