-- ===== src/Map/Transects/Ends.antt =====
-- sdk/src/steeleagle_sdk/api/map/partitioner/utils.py: when the loop of the transects ends.

use steeleagle.Prelude.{
  ℕ, zero, suc, ◌+◌, ◌*◌, ◌≤◌, ◌≡◌, refl, subst, ◌⊎◌, inl, inr, true, false, none, some, List, [],
  ◌∷◌, map, arith, if◌then◌else◌, Bool-cases, get_elem?,
}
use steeleagle.Prelude.Int.{
  ℤ, pos, negsuc, pos_part, ◌+ℤ◌, ◌-ℤ◌, leb_ℤ, eq_of_parts, +ℤ_parts, -ℤ_parts,
}
use steeleagle.Map.Shapes.{Line, Floats, Bounds, Shapes, lit, max}
use steeleagle.Map.Transects.{verticals, max_len, rotated_infinite_transects}

-- the place after k steps
abbrev pub place : ℤ → ℕ → ℕ → ℤ
place x d k = x +ℤ pos (k * d)

place_zero : (x : ℤ) (d : ℕ) → place x d 0 ≡ x
place_zero x d = eq_of_parts _ _ (ground (arith, +ℤ_parts x (pos (0 * d))))

place_suc : (x : ℤ) (d k : ℕ) → place (x +ℤ pos d) d k ≡ place x d (suc k)
place_suc x d k =
    let whole : suc k * d ≡ d + k * d = ground arith in
    eq_of_parts _ _ (
      ground (
        arith,
        +ℤ_parts x (pos d),
        +ℤ_parts (x +ℤ pos d) (pos (k * d)),
        +ℤ_parts x (pos (suc k * d)),
      ))

-- The list holds the places up to the end, one step apart.
abbrev pub Evenly : ℤ → ℕ → ℤ → List ℤ → Type 0
Evenly x d end xs =
    (k : ℕ) → get_elem? xs k ≡ (if leb_ℤ (place x d k) end then some (place x d k) else none)

Evenly-past : (x : ℤ) (d : ℕ) (end : ℤ) → leb_ℤ x end ≡ false → Evenly x d end []
Evenly-past x d end past k = ground (arith, +ℤ_parts x (pos (k * d)))

Evenly-step :
    (x : ℤ) (d : ℕ) (end : ℤ) (xs : List ℤ)
    → leb_ℤ x end ≡ true
    → Evenly (x +ℤ pos d) d end xs
    → Evenly x d end (x ∷ xs)
Evenly-step x d end xs inside evenly zero = rw (place_zero x d, inside) refl
Evenly-step x d end xs inside evenly (suc k) =
    subst (λ p. get_elem? xs k ≡ (if leb_ℤ p end then some p else none)) (place_suc x d k)
      (evenly k)

-- The loop's measure: the gap to the first unit behind the end.
abbrev pub gap : ℤ → ℤ → ℕ
gap end x = pos_part ((end +ℤ pos 1) -ℤ x)

verticals-Evenly :
    (fuel d : ℕ) (x end : ℤ)
    → suc (gap end x) ≤ fuel
    → (xs : List ℤ) × (verticals fuel (pos (suc d)) x end ≡ some xs) × Evenly x (suc d) end xs
unfolding verticals
verticals-Evenly zero d x end enough = absurd (ground arith)
verticals-Evenly (suc fuel) d x end enough = elim (Bool-cases (leb_ℤ x end)) [
  | inr past ↦ ([], rw past refl, Evenly-past x (suc d) end past)
  | inl inside ↦
      let less : suc (gap end (x +ℤ pos (suc d))) ≤ fuel = ground (
        arith,
        +ℤ_parts x (pos (suc d)),
        +ℤ_parts end (pos 1),
        -ℤ_parts (end +ℤ pos 1) x,
        -ℤ_parts (end +ℤ pos 1) (x +ℤ pos (suc d)),
      ) in
      let (xs, done, evenly) = verticals-Evenly fuel d (x +ℤ pos (suc d)) end less in
      (x ∷ xs, rw (inside, done) refl, Evenly-step x (suc d) end xs inside evenly)
]

-- Without a step forward the loop does not end.
verticals-never :
    (fuel : ℕ) (spacing x end : ℤ)
    → leb_ℤ spacing (pos 0) ≡ true
    → leb_ℤ x end ≡ true
    → verticals fuel spacing x end ≡ none
unfolding verticals
verticals-never zero spacing x end still inside = refl
verticals-never (suc fuel) spacing x end still inside =
    let next : leb_ℤ (x +ℤ spacing) end ≡ true = ground (arith, +ℤ_parts x spacing) in
    rw (inside, verticals-never fuel spacing (x +ℤ spacing) end still next) refl

-- the transect at a place
abbrev pub transect : Floats → (s : Shapes) → s.Polygon → ℤ → ℤ → Line
transect f s poly angle x =
    let b = s.bounds poly in
    let len = max_len f b in
    s.rotate (record { start = (x, b.min_y -ℤ len); stop = (x, b.max_y +ℤ len) }) angle
      (f.div (b.min_x +ℤ b.max_x) (lit f 2), f.div (b.min_y +ℤ b.max_y) (lit f 2))

abbrev pub first_x : Floats → Bounds → ℤ
first_x f b = b.min_x -ℤ max_len f b

abbrev pub end_x : Floats → Bounds → ℤ
end_x f b = b.max_x +ℤ max_len f b

-- The loop is entered.
entered :
    (f : Floats) (b : Bounds)
    → leb_ℤ b.min_x b.max_x ≡ true
    → leb_ℤ (first_x f b) (end_x f b) ≡ true
unfolding max_len
entered f b ordered =
    let w = b.max_x -ℤ b.min_x in
    let h = b.max_y -ℤ b.min_y in
    ground (
      arith,
      -ℤ_parts b.max_x b.min_x,
      +ℤ_parts (max w h) (lit f 100),
      -ℤ_parts b.min_x (max_len f b),
      +ℤ_parts b.max_x (max_len f b),
    )

-- Over a polygon whose bounds are in order, with enough fuel for a step of one unit, the loop of the
-- transects ends exactly if the spacing is above 0. Then its transects are the ones at the places
-- from `minx - max_len` on, one spacing apart, as far as `maxx + max_len`, and no others.
pub transects-ends :
    (fuel : ℕ) (f : Floats) (s : Shapes) (poly : s.Polygon) (spacing angle : ℤ)
    → leb_ℤ (s.bounds poly).min_x (s.bounds poly).max_x ≡ true
    → suc (gap (end_x f (s.bounds poly)) (first_x f (s.bounds poly))) ≤ fuel
    → ((leb_ℤ spacing (pos 0) ≡ true)
        × (rotated_infinite_transects fuel f s poly spacing angle ≡ none))
      ⊎ ((d : ℕ) × (spacing ≡ pos (suc d))
          × (xs : List ℤ) × (rotated_infinite_transects fuel f s poly spacing angle
              ≡ some (map (transect f s poly angle) xs))
          × Evenly (first_x f (s.bounds poly)) (suc d) (end_x f (s.bounds poly)) xs)
unfolding rotated_infinite_transects
transects-ends fuel f s poly (pos zero) angle ordered enough =
    inl (refl, rw (verticals-never fuel (pos 0) _ _ refl (entered f (s.bounds poly) ordered)) refl)
transects-ends fuel f s poly (negsuc n) angle ordered enough =
    let still : leb_ℤ (negsuc n) (pos 0) ≡ true = ground arith in
    inl (
      still,
      rw (verticals-never fuel (negsuc n) _ _ still (entered f (s.bounds poly) ordered)) refl,
    )
transects-ends fuel f s poly (pos (suc d)) angle ordered enough =
    let (xs, done, evenly) = verticals-Evenly fuel d _ _ enough in
    inr (d, refl, xs, rw done refl, evenly)
