-- ===== src/Sdk/Procedures.antt =====
-- sdk/src/steeleagle_sdk/dsl/types/actions/procedures/procedures.py: the actions that are made of
-- others. Their pauses are left out.
pub mod Visited
use steeleagle.Prelude.{
  ℕ, ◌*◌, Option, none, some, List, [], ◌∷◌, if◌then◌else◌, type_error, attribute_error, Result, ok,
  err, Dict,
}
use steeleagle.Prelude.Int.{ℤ, pos, ◌+ℤ◌, leb_ℤ}
use steeleagle.Law.Kernel.{Response}
use steeleagle.Dsl.Events.{Position, Location, Velocity, PositionInfo, Telemetry}
use steeleagle.Map.Waypoints.{Waypoint, Run}
use steeleagle.Sdk.Calls.{Channel, Log, to_target, relative}
use steeleagle.Sdk.Vehicle.{Returned}
use steeleagle.Sdk.Actions.{MoveAction, set_global_position_action, execute_move}

-- `tel.position_info.relative_position.z`
unfoldable pub relative_altitude : Option Telemetry → Result (Option ℤ)
relative_altitude none = err attribute_error
relative_altitude (some tel) = elim tel.position_info [
  | none ↦ err attribute_error
  | some info ↦ (elim info.relative_position [ none ↦ err attribute_error | some p ↦ ok p.z ])
]

-- `ElevateToAltitude`: the vehicle is there, or `ReferenceFrame.ENU`, which is no member, raises
-- before anything is sent; so there is no second round.
unfoldable pub elevate_to_altitude : ℤ → ℤ → Option Telemetry → Log → Returned (Option Response)
unfolding relative_altitude
elevate_to_altitude target_altitude tolerance tel log = elim (relative_altitude tel) [
  | err e ↦ (err e, log)
  | ok none ↦ (err type_error, log)
  | ok (some rel_alt) ↦
      if leb_ℤ target_altitude (rel_alt +ℤ tolerance)
      then (ok none, log)
      else (err attribute_error, log)
]

-- `PrePatrolSequence`: without a drone its own call fails, with one that of ElevateToAltitude.
unfoldable pub pre_patrol_sequence : Log → Returned (Option Response)
pre_patrol_sequence log = (err type_error, log)

unfoldable pub track : Log → Returned (Option Response)
track log = (ok none, log)

-- The goal of one waypoint. The argument is 1.0.
unfoldable pub goto : ℕ → Waypoint → MoveAction
goto one w =
    set_global_position_action
      (record {
        latitude = some w.lat;
        longitude = some w.lon;
        altitude = some w.alt;
        heading = none;
      })
      (some to_target) (some relative)
      (some (record {
        x_vel = some (pos (5 * one));
        y_vel = some (pos (5 * one));
        z_vel = some (pos (5 * one));
        angular_vel = some (pos (120 * one));
      }))

module _ (c : Channel) (one : ℕ) where
  -- the loop over the points of an area
  unfoldable pub visit_points : List Waypoint → Log → Returned (Option Response)
  unfolding goto execute_move
  visit_points [] log = (ok none, log)
  visit_points (p ∷ ps) log =
      let (done, sent) = execute_move c (goto one p) log in
      let rest = visit_points ps sent in elim done [ err e ↦ (err e, sent) | ok response ↦ rest ]

  -- the loop over the areas
  unfoldable pub visit_areas : Dict (List Waypoint) → Log → Returned (Option Response)
  unfolding visit_points
  visit_areas [] log = (ok none, log)
  visit_areas ((area_name, points) ∷ areas) log =
      let (done, sent) = visit_points points log in
      let rest = visit_areas areas sent in elim done [ err e ↦ (err e, sent) | ok response ↦ rest ]

  -- `Patrol`, from what `self.waypoints.calculate()` comes to
  unfoldable pub patrol : Run (Dict (List Waypoint)) → Log → Option (Returned (Option Response))
  unfolding visit_areas
  patrol none log = none
  patrol (some (err e)) log = some (err e, log)
  patrol (some (ok areas)) log = some (visit_areas areas log)
