-- ===== src/Backend/Avoidance/Steering.antt =====
-- backend/server/engines/avoidance/obstacle_avoidance_engine.py: the range of the actuation vectors.
use native.Mathlib.Nat.{div-lt_iff_lt-mul}
use steeleagle.Prelude.{
  ℕ, suc, ◌-◌, ◌*◌, ◌/◌, ◌≤◌, ◌<◌, ◌≡◌, refl, ◌⊎◌, inl, inr, Bool, false, List, [], ◌∷◌, arith, ltb,
  eqb, if◌then◌else◌, Bool-cases, All, zero_division_error, ok, err,
}
use steeleagle.Prelude.Int.{pos_part, neg_part, ◌-ℤ◌}
use steeleagle.Backend.Avoidance.{
  Contour, Vector, scrap_x, largest, actuation_vector, midas_inference, metric3d_inference,
}

-- The contour has no area, or its centroid is in the region that is looked at.
abbrev pub Inside : ℕ → Contour → Type 0
Inside frame_width c = (c.m00 ≡ 0) ⊎ (suc c.m10 ≤ c.m00 * (frame_width - 2 * scrap_x frame_width))

-- The fraction is above -1 and at most 1.
pub record InRange (v : Vector) : Type 0 where
  pub positive : 1 ≤ v.denominator
  pub above : suc (neg_part v.numerator) ≤ v.denominator
  pub below : pos_part v.numerator ≤ v.denominator

largest-Inside :
    (w : ℕ) (best : Contour) (cs : List Contour)
    → Inside w best
    → All (Inside w) cs
    → Inside w (largest best cs)
unfolding largest
largest-Inside w best [] b tt = b
largest-Inside w best (c ∷ cs) b (i, is) = elim (Bool-cases (ltb best.area c.area)) [
  | inl e ↦ rw e (largest-Inside w c cs i is)
  | inr e ↦ rw e (largest-Inside w best cs b is)
]

actuation_vector-InRange :
    (w : ℕ) (c : Contour)
    → 1 ≤ w
    → suc c.m10 ≤ c.m00 * (w - 2 * scrap_x w)
    → eqb c.m00 0 ≡ false
    → InRange (actuation_vector w c)
unfolding actuation_vector ◌-ℤ◌
actuation_vector-InRange w c wide inside solid =
    let width = w - 2 * scrap_x w in
    let c_x = c.m10 / c.m00 in
    let some_area : 0 < c.m00 = ground arith in
    let swapped : suc c.m10 ≤ width * c.m00 = ground arith in
    let left : suc c_x ≤ width = (div-lt_iff_lt-mul some_area).1 swapped in
    record { positive = ground arith; above = ground arith; below = ground arith }

-- the contour that the engine takes has no area, so that its moment is 0
abbrev pub is_flat : List Contour → Bool
is_flat [] = false
is_flat (c ∷ cs) = eqb (largest c cs).m00 0

metric3d_inference-InRange :
    (w : ℕ) (cs : List Contour) → 1 ≤ w → All (Inside w) cs → InRange (metric3d_inference w cs)
unfolding metric3d_inference
metric3d_inference-InRange w [] wide tt = record {
  positive = ground arith;
  above = ground arith;
  below = ground arith;
}
metric3d_inference-InRange w (c ∷ cs) wide (i, is) = elim (Bool-cases (eqb (largest c cs).m00 0)) [
  | inl e ↦ rw e (record { positive = ground arith; above = ground arith; below = ground arith })
  | inr e ↦ elim (largest-Inside w c cs i is) [
    | inl flat ↦ absurd (ground arith)
    | inr inside ↦ rw e (actuation_vector-InRange w (largest c cs) wide inside e)
  ]
]

midas-metric3d :
    (w : ℕ) (cs : List Contour)
    → midas_inference w cs
      ≡ (if is_flat cs then err zero_division_error else ok (metric3d_inference w cs))
unfolding midas_inference metric3d_inference
midas-metric3d w [] = refl
midas-metric3d w (c ∷ cs) = elim (Bool-cases (eqb (largest c cs).m00 0)) [
  | inl e ↦ rw (midas_inference, e) refl
  | inr e ↦ rw (midas_inference, metric3d_inference, e) refl
]

-- In a frame that is not empty, where the centroid of every contour that has an area is in the region
-- that the engine looks at: the vector is above -1 and at most 1. The MiDaS engine gives the same vector, unless the
-- largest contour has no area: then it raises a ZeroDivisionError.
pub inference-InRange :
    (w : ℕ) (cs : List Contour)
    → 1 ≤ w
    → All (Inside w) cs
    → InRange (metric3d_inference w cs)
      × (midas_inference w cs
          ≡ (if is_flat cs then err zero_division_error else ok (metric3d_inference w cs)))
inference-InRange w cs wide inside =
    (metric3d_inference-InRange w cs wide inside, midas-metric3d w cs)
