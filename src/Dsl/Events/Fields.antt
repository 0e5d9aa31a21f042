-- ===== src/Dsl/Events/Fields.antt =====
-- sdk/src/steeleagle_sdk/dsl/types/events/singulars/singulars.py: the comparison of single components.
use steeleagle.Prelude.{
  ℕ, ◌≤◌, ◌≡◌, refl, sym, subst, ◌↔◌, Bool, true, ◌&&◌, Option, none, some, arith, leb, leb_iff,
  some_inj,
}
use steeleagle.Prelude.Int.{ℤ, ◌-ℤ◌, abs}
use steeleagle.Dsl.Events.{
  Pose, Location, given, near, deg_diff, near_angle, haversine_of, within, haversine_m, near_ground,
}

-- A component of the target that is given is within the tolerance of one that was reported.
abbrev pub Near : ℕ → Option ℤ → Option ℤ → Type 0
Near tol target cur = (t : ℤ) → target ≡ some t → (c : ℤ) × (cur ≡ some c) × (abs (c -ℤ t) ≤ tol)

abbrev pub NearAngle : ℕ → Option ℤ → Option ℤ → Type 0
NearAngle tol target cur =
    (t : ℤ) → target ≡ some t → (c : ℤ) × (cur ≡ some c) × (deg_diff c t ≤ tol)

-- Where the target has both coordinates, so has the position, and their distance is in the tolerance.
abbrev pub NearGround : (ℤ → ℤ → ℤ → ℤ → ℕ) → ℕ → Location → Location → Type 0
NearGround gc tol target cur =
    (lat lon : ℤ)
    → target.latitude ≡ some lat
    → target.longitude ≡ some lon
    → (la : ℤ) × (lo : ℤ) × (cur.latitude ≡ some la)
      × (cur.longitude ≡ some lo)
      × (gc la lo lat lon ≤ tol)

abbrev pub PoseReached : Pose → ℕ → Pose → Type 0
PoseReached target tol p =
    Near tol target.roll p.roll × Near tol target.pitch p.pitch × Near tol target.yaw p.yaw

pub near_iff : (tol : ℕ) (t c : Option ℤ) → (near tol t c ≡ true) ↔ Near tol t c
unfolding near
near_iff tol none c = (λ h t e. absurd cc, λ h. refl)
near_iff tol (some t) none = (λ h. absurd cc, λ h. absurd (let (c, e, l) = h t refl in cc))
near_iff tol (some t) (some c) = (
  λ h u e. (c, refl, subst (λ x. abs (c -ℤ x) ≤ tol) (some_inj e) ((leb_iff _ _).0 h)),
  λ h.
      let (d, e, l) = h t refl in
      subst (λ x. leb (abs (x -ℤ t)) tol ≡ true) (sym (some_inj e)) ((leb_iff _ _).1 l),
)

pub near_angle_iff : (tol : ℕ) (t c : Option ℤ) → (near_angle tol t c ≡ true) ↔ NearAngle tol t c
unfolding near_angle
near_angle_iff tol none c = (λ h t e. absurd cc, λ h. refl)
near_angle_iff tol (some t) none = (λ h. absurd cc, λ h. absurd (let (c, e, l) = h t refl in cc))
near_angle_iff tol (some t) (some c) = (
  λ h u e. (c, refl, subst (λ x. deg_diff c x ≤ tol) (some_inj e) ((leb_iff _ _).0 h)),
  λ h.
      let (d, e, l) = h t refl in
      subst (λ x. leb (deg_diff x t) tol ≡ true) (sym (some_inj e)) ((leb_iff _ _).1 l),
)

pub given_iff :
    {A : Type 0} (o : Option A) (p : A → Bool)
    → (given o p ≡ true) ↔ ((x : A) × (o ≡ some x) × (p x ≡ true))
given_iff none p = (λ h. absurd cc, λ (x, e, h). absurd cc)
given_iff (some y) p =
    (λ h. (y, refl, h), λ (x, e, h). subst (λ z. p z ≡ true) (sym (some_inj e)) h)

pub and_iff : (a b : Bool) → (a && b ≡ true) ↔ ((a ≡ true) × (b ≡ true))
and_iff a b = (λ h. (ground arith, ground arith), λ (p, q). ground arith)

-- three components, and four where the last is compared like the rest or round the circle
pub near3_iff :
    (tol : ℕ) (t1 c1 t2 c2 t3 c3 : Option ℤ)
    → (near tol t1 c1 && near tol t2 c2 && near tol t3 c3 ≡ true)
      ↔ (Near tol t1 c1 × Near tol t2 c2 × Near tol t3 c3)
near3_iff tol t1 c1 t2 c2 t3 c3 = (
  λ h. (
    (near_iff tol t1 c1).0 (ground (arith, h)),
    (near_iff tol t2 c2).0 (ground (arith, h)),
    (near_iff tol t3 c3).0 (ground (arith, h)),
  ),
  λ (a, b, c).
      ground (arith, (near_iff tol t1 c1).1 a, (near_iff tol t2 c2).1 b, (near_iff tol t3 c3).1 c),
)

module _ (gc : ℤ → ℤ → ℤ → ℤ → ℕ) where
  haversine_iff :
      (tol : ℕ) (lat lon : ℤ) (o1 o2 : Option ℤ)
      → (given (haversine_of gc o1 o2 (some lat) (some lon)) (λ d. leb d tol) ≡ true)
        ↔ ((la : ℤ) × (lo : ℤ) × (o1 ≡ some la) × (o2 ≡ some lo) × (gc la lo lat lon ≤ tol))
  unfolding haversine_of
  haversine_iff tol lat lon none o2 = (λ h. absurd cc, λ (la, lo, e, f, l). absurd cc)
  haversine_iff tol lat lon (some x) none = (λ h. absurd cc, λ (la, lo, e, f, l). absurd cc)
  haversine_iff tol lat lon (some x) (some y) = (
    λ h. (x, y, refl, refl, (leb_iff _ _).0 h),
    λ (la, lo, e, f, l). (leb_iff _ _).1 (
        subst (λ z. gc x z lat lon ≤ tol) (sym (some_inj f))
          (subst (λ z. gc z lo lat lon ≤ tol) (sym (some_inj e)) l)),
  )

  ground_of_iff :
      (tol : ℕ) (t1 t2 o1 o2 : Option ℤ)
      → (within tol t1 t2 (haversine_of gc o1 o2 t1 t2) ≡ true) ↔ (
          (lat lon : ℤ)
          → t1 ≡ some lat
          → t2 ≡ some lon
          → (la : ℤ) × (lo : ℤ) × (o1 ≡ some la) × (o2 ≡ some lo) × (gc la lo lat lon ≤ tol))
  unfolding within
  ground_of_iff tol none t2 o1 o2 = (λ h lat lon p q. absurd cc, λ h. refl)
  ground_of_iff tol (some lat) none o1 o2 = (λ h la lo p q. absurd cc, λ h. refl)
  ground_of_iff tol (some lat) (some lon) o1 o2 = (
    λ h x y p q.
        subst (λ z. (la : ℤ) × (lo : ℤ) × (o1 ≡ some la) × (o2 ≡ some lo) × (gc la lo z y ≤ tol))
          (some_inj p)
          (subst
            (λ z. (la : ℤ) × (lo : ℤ) × (o1 ≡ some la) × (o2 ≡ some lo) × (gc la lo lat z ≤ tol))
            (some_inj q) ((haversine_iff tol lat lon o1 o2).0 h)),
    λ h. (haversine_iff tol lat lon o1 o2).1 (h lat lon refl refl),
  )

  pub near_ground_iff :
      (tol : ℕ) (target cur : Location)
      → (near_ground gc tol target cur ≡ true) ↔ NearGround gc tol target cur
  unfolding near_ground haversine_m
  near_ground_iff tol target cur =
      ground_of_iff tol target.latitude target.longitude cur.latitude cur.longitude
