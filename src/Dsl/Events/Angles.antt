-- ===== src/Dsl/Events/Angles.antt =====
-- sdk/src/steeleagle_sdk/dsl/types/events/singulars/singulars.py: `_deg_diff`.
use steeleagle.Prelude.{ℕ, suc, ◌+◌, ◌≤◌, ◌<◌, ◌≡◌, ◌⊎◌, arith}
use steeleagle.Prelude.Int.{ℤ, pos, negsuc, ◌-ℤ◌}
use steeleagle.Dsl.Events.{mod_circle, deg_diff}

mod_circle-lt : (z : ℤ) → mod_circle z < 360000
unfolding mod_circle
mod_circle-lt (pos n) = omega arith
mod_circle-lt (negsuc n) = omega arith

-- a rest above 0 and the rest of the number before it
opposite_of :
    (n : ℕ)
    → (mod_circle (pos (suc n)) + mod_circle (negsuc n) ≡ 0)
      ⊎ (mod_circle (pos (suc n)) + mod_circle (negsuc n) ≡ 360000)
unfolding mod_circle
opposite_of n = omega arith

opposite :
    (a b : ℤ)
    → (mod_circle (a -ℤ b) + mod_circle (b -ℤ a) ≡ 0)
      ⊎ (mod_circle (a -ℤ b) + mod_circle (b -ℤ a) ≡ 360000)
unfolding mod_circle ◌-ℤ◌
opposite a b = ground arith

rest_self : (a : ℤ) → mod_circle (a -ℤ a) ≡ 0
unfolding mod_circle ◌-ℤ◌
rest_self a = ground arith

-- The circular difference of two angles is at most half a circle, is the same in both directions, and
-- is 0 for equal angles.
pub deg_diff-Circular :
    (a b : ℤ) → (deg_diff a b ≤ 180000) × (deg_diff a b ≡ deg_diff b a) × (deg_diff a a ≡ 0)
unfolding deg_diff
deg_diff-Circular a b = (
  ground (arith, mod_circle-lt (a -ℤ b)),
  ground (arith, mod_circle-lt (a -ℤ b), mod_circle-lt (b -ℤ a), opposite a b),
  ground (arith, rest_self a),
)
