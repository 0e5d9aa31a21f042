-- ===== src/Dsl/Events/Rounds.antt =====
-- sdk/src/steeleagle_sdk/dsl/types/events/singulars/singulars.py: what a message has to say for each event.
use steeleagle.Prelude.{
  ℕ, ◌≡◌, refl, sym, ap, ◌∙◌, subst, ◌↔◌, ◌⊎◌, inl, inr, true, ◌&&◌, none, some, List, leb_iff,
  Option-cases, some_inj, In, any-In, In-any,
}
use steeleagle.Prelude.Int.{ℤ, ◌≤ℤ◌}
use steeleagle.Dsl.Events.{
  Pose, Velocity, Position, Location, ReferenceFrame, GimbalStatus, PositionInfo, VehicleInfo,
  Telemetry, near, battery_round, satellites_round, gimbal_fits, gimbal_round, velocity_in,
  velocity_round, relative_round, Event, battery_reached, satellites_reached, gimbal_pose_reached,
  velocity_reached, relative_position_reached, global_position_reached,
}
use steeleagle.Dsl.Events.Fields.{
  Near, NearAngle, NearGround, PoseReached, near_iff, near_angle_iff, given_iff, and_iff, near3_iff,
}

-- What the message has to say for an event to occur.
abbrev pub IsReached : (ℤ → ℤ → ℤ → ℤ → ℕ) → Event → Telemetry → Type 0
IsReached gc (battery_reached threshold) tel =
    (v : VehicleInfo) × (pct : ℤ) × (tel.vehicle_info ≡ some v)
    × (v.battery_info ≡ some (some pct))
    × (pct ≤ℤ threshold)
IsReached gc (satellites_reached threshold) tel =
    (v : VehicleInfo) × (sats : ℤ) × (tel.vehicle_info ≡ some v)
    × (v.gps_info ≡ some (some sats))
    × (threshold ≤ℤ sats)
IsReached gc (gimbal_pose_reached target tol) tel =
    (gs : List GimbalStatus) × (g : GimbalStatus) × (p : Pose) × (tel.gimbal_info ≡ some gs)
    × In g gs
    × ((g.pose_body ≡ some p) ⊎ ((g.pose_body ≡ none) × (g.pose_neu ≡ some p)))
    × PoseReached target tol p
IsReached gc (velocity_reached frame target tol) tel =
    (p : PositionInfo) × (v : Velocity) × (tel.position_info ≡ some p)
    × (velocity_in frame p ≡ some v)
    × Near tol target.x_vel v.x_vel
    × Near tol target.y_vel v.y_vel
    × Near tol target.z_vel v.z_vel
    × Near tol target.angular_vel v.angular_vel
IsReached gc (relative_position_reached target tol_m tol_deg) tel =
    (p : PositionInfo) × (cur : Position) × (tel.position_info ≡ some p)
    × (p.relative_position ≡ some cur)
    × Near tol_m target.x cur.x
    × Near tol_m target.y cur.y
    × Near tol_m target.z cur.z
    × NearAngle tol_deg target.angle cur.angle
IsReached gc (global_position_reached target tol_m tol_alt_m tol_deg) tel =
    (want : Location) × (p : PositionInfo) × (cur : Location) × (target ≡ some want)
    × (tel.position_info ≡ some p)
    × (p.global_position ≡ some cur)
    × NearGround gc tol_m want cur
    × Near tol_alt_m want.altitude cur.altitude
    × NearAngle tol_deg want.heading cur.heading

pub battery_iff :
    (threshold : ℤ) (tel : Telemetry)
    → (battery_round threshold tel ≡ true) ↔ (
        (v : VehicleInfo) × (pct : ℤ) × (tel.vehicle_info ≡ some v)
        × (v.battery_info ≡ some (some pct))
        × (pct ≤ℤ threshold))
unfolding battery_round
battery_iff threshold tel = (
  λ h.
      let (v, e, h1) = (given_iff _ _).0 h in
      let (b, f, h2) = (given_iff _ _).0 h1 in
      let (pct, g, h3) = (given_iff _ _).0 h2 in (v, pct, e, f ∙ ap some g, (leb_iff _ _).0 h3),
  λ (v, pct, e, f, l). (given_iff _ _).1 (v, e, (given_iff _ _).1 (some pct, f, (leb_iff _ _).1 l)),
)

pub satellites_iff :
    (threshold : ℤ) (tel : Telemetry)
    → (satellites_round threshold tel ≡ true) ↔ (
        (v : VehicleInfo) × (sats : ℤ) × (tel.vehicle_info ≡ some v)
        × (v.gps_info ≡ some (some sats))
        × (threshold ≤ℤ sats))
unfolding satellites_round
satellites_iff threshold tel = (
  λ h.
      let (v, e, h1) = (given_iff _ _).0 h in
      let (b, f, h2) = (given_iff _ _).0 h1 in
      let (sats, g, h3) = (given_iff _ _).0 h2 in (v, sats, e, f ∙ ap some g, (leb_iff _ _).0 h3),
  λ (v, sats, e, f, l).
      (given_iff _ _).1 (v, e, (given_iff _ _).1 (some sats, f, (leb_iff _ _).1 l)),
)

pub velocity_iff :
    (frame : ReferenceFrame) (target : Velocity) (tol : ℕ) (gc : ℤ → ℤ → ℤ → ℤ → ℕ)
    (tel : Telemetry)
    → (velocity_round frame target tol tel ≡ true)
      ↔ IsReached gc (velocity_reached frame target tol) tel
unfolding velocity_round
velocity_iff frame target tol gc tel = (
  λ h.
      let (p, e, h1) = (given_iff _ _).0 h in
      let (v, f, h2) = (given_iff _ _).0 h1 in
      let (l, r) = (and_iff _ _).0 h2 in
      let (a, b, c) = (near3_iff tol _ _ _ _ _ _).0 l in
      (p, v, e, f, a, b, c, (near_iff tol _ _).0 r),
  λ (p, v, e, f, a, b, c, d). (given_iff _ _).1 (
    p,
    e,
    (given_iff _ _).1
        (v, f, (and_iff _ _).1 ((near3_iff tol _ _ _ _ _ _).1 (a, b, c), (near_iff tol _ _).1 d)),
  ),
)

pub relative_iff :
    (target : Position) (tol_m tol_deg : ℕ) (gc : ℤ → ℤ → ℤ → ℤ → ℕ) (tel : Telemetry)
    → (relative_round target tol_m tol_deg tel ≡ true)
      ↔ IsReached gc (relative_position_reached target tol_m tol_deg) tel
unfolding relative_round
relative_iff target tol_m tol_deg gc tel = (
  λ h.
      let (p, e, h1) = (given_iff _ _).0 h in
      let (v, f, h2) = (given_iff _ _).0 h1 in
      let (l, r) = (and_iff _ _).0 h2 in
      let (a, b, c) = (near3_iff tol_m _ _ _ _ _ _).0 l in
      (p, v, e, f, a, b, c, (near_angle_iff tol_deg _ _).0 r),
  λ (p, v, e, f, a, b, c, d). (given_iff _ _).1 (
    p,
    e,
    (given_iff _ _).1 (
      v,
      f,
      (and_iff _ _).1 ((near3_iff tol_m _ _ _ _ _ _).1 (a, b, c), (near_angle_iff tol_deg _ _).1 d),
    ),
  ),
)

gimbal_fits_iff :
    (target : Pose) (tol : ℕ) (g : GimbalStatus)
    → (gimbal_fits target tol g ≡ true) ↔ (
        (p : Pose) × ((g.pose_body ≡ some p) ⊎ ((g.pose_body ≡ none) × (g.pose_neu ≡ some p)))
        × PoseReached target tol p)
unfolding gimbal_fits
gimbal_fits_iff target tol g = elim (Option-cases g.pose_body) [
  | inl e ↦ rw e (
    λ h.
        let (p, f, r) = (given_iff g.pose_neu _).0 h in
        (p, inr (refl, f), (near3_iff tol _ _ _ _ _ _).0 r),
    λ (p, o, r). elim o [
      | inl f ↦ absurd cc
      | inr (f, n) ↦ (given_iff g.pose_neu _).1 (p, n, (near3_iff tol _ _ _ _ _ _).1 r)
    ],
  )
  | inr (b, e) ↦ rw e (
    λ h. (b, inl refl, (near3_iff tol _ _ _ _ _ _).0 h),
    λ (p, o, r). elim o [
      | inl f ↦
          subst
            (λ (x : Pose).
              near tol target.roll x.roll
                && near tol target.pitch x.pitch
                && near tol target.yaw x.yaw
              ≡ true)
            (sym (some_inj f)) ((near3_iff tol _ _ _ _ _ _).1 r)
      | inr (f, n) ↦ absurd cc
    ],
  )
]

pub gimbal_iff :
    (target : Pose) (tol : ℕ) (gc : ℤ → ℤ → ℤ → ℤ → ℕ) (tel : Telemetry)
    → (gimbal_round target tol tel ≡ true) ↔ IsReached gc (gimbal_pose_reached target tol) tel
unfolding gimbal_round
gimbal_iff target tol gc tel = (
  λ h.
      let (gs, e, h1) = (given_iff _ _).0 h in
      let (g, m, h2) = any-In (gimbal_fits target tol) gs h1 in
      let (p, o, r) = (gimbal_fits_iff target tol g).0 h2 in (gs, g, p, e, m, o, r),
  λ (gs, g, p, e, m, o, r).
      (given_iff _ _).1
        (gs, e, In-any (gimbal_fits target tol) m ((gimbal_fits_iff target tol g).1 (p, o, r))),
)
