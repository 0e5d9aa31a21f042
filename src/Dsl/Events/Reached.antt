-- ===== src/Dsl/Events/Reached.antt =====
-- sdk/src/steeleagle_sdk/dsl/types/events/singulars/singulars.py: when the telemetry events return.
use steeleagle.Prelude.{ℕ, ◌≡◌, refl, sym, subst, ◌↔◌, true, ◌&&◌, Option, none, some, some_inj}
use steeleagle.Prelude.Int.{ℤ}
use steeleagle.Dsl.Events.{
  Location, Telemetry, near, near_angle, near_ground, global_round, Event, battery_reached,
  satellites_reached, gimbal_pose_reached, velocity_reached, relative_position_reached,
  global_position_reached, fits,
}
use steeleagle.Dsl.Events.Fields.{near_iff, near_angle_iff, given_iff, and_iff, near_ground_iff}
use steeleagle.Dsl.Events.Rounds.{
  IsReached, battery_iff, gimbal_iff, relative_iff, satellites_iff, velocity_iff,
}

module _ (gc : ℤ → ℤ → ℤ → ℤ → ℕ) where
  global_iff :
      (target : Option Location) (tol_m tol_alt_m tol_deg : ℕ) (tel : Telemetry)
      → (global_round gc target tol_m tol_alt_m tol_deg tel ≡ true)
        ↔ IsReached gc (global_position_reached target tol_m tol_alt_m tol_deg) tel
  unfolding global_round
  global_iff none tol_m tol_alt_m tol_deg tel =
      (λ h. absurd cc, λ (w, p, cur, t, e, f, g, a, r). absurd cc)
  global_iff (some target) tol_m tol_alt_m tol_deg tel = (
    λ h.
        let (p, e, h1) = (given_iff _ _).0 h in
        let (cur, f, h2) = (given_iff _ _).0 h1 in
        let (l, r) = (and_iff _ _).0 h2 in
        let (g, a) = (and_iff _ _).0 l in
        (
          target,
          p,
          cur,
          refl,
          e,
          f,
          (near_ground_iff gc tol_m target cur).0 g,
          (near_iff tol_alt_m _ _).0 a,
          (near_angle_iff tol_deg _ _).0 r,
        ),
    λ (w, p, cur, t, e, f, g, a, r). (given_iff _ _).1 (
      p,
      e,
      (given_iff _ _).1 (
        cur,
        f,
        subst
            (λ x.
              near_ground gc tol_m x cur
                && near tol_alt_m x.altitude cur.altitude
                && near_angle tol_deg x.heading cur.heading
              ≡ true)
            (sym (some_inj t))
            ((and_iff _ _).1 (
              (and_iff _ _).1 ((near_ground_iff gc tol_m w cur).1 g, (near_iff tol_alt_m _ _).1 a),
              (near_angle_iff tol_deg _ _).1 r,
            )),
      ),
    ),
  )

  -- A round of an event's loop returns exactly where the message reports that the event has occurred:
  -- every component that the target gives is reported and within its tolerance.
  pub fits_iff : (ev : Event) (tel : Telemetry) → (fits gc ev tel ≡ true) ↔ IsReached gc ev tel
  unfolding fits
  fits_iff (battery_reached threshold) tel = battery_iff threshold tel
  fits_iff (satellites_reached threshold) tel = satellites_iff threshold tel
  fits_iff (gimbal_pose_reached target tol) tel = gimbal_iff target tol gc tel
  fits_iff (velocity_reached frame target tol) tel = velocity_iff frame target tol gc tel
  fits_iff (relative_position_reached target tol_m tol_deg) tel =
      relative_iff target tol_m tol_deg gc tel
  fits_iff (global_position_reached target tol_m tol_alt_m tol_deg) tel =
      global_iff target tol_m tol_alt_m tol_deg tel
