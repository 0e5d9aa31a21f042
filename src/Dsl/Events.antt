-- ===== src/Dsl/Events.antt =====
-- sdk/src/steeleagle_sdk/dsl/types/events/singulars/singulars.py: the telemetry events, over the
-- messages that `fetch_telemetry` gives. A float is an integer of thousandths, so that 360 degrees are
-- 360000; the great-circle formula (sin, cos, asin of the mathematics library) is a parameter.
pub mod Results
pub mod Angles
pub mod Fields
pub mod Rounds
pub mod Reached
pub mod Checks
use steeleagle.Prelude.{
  ℕ, suc, ◌-◌, ◌%◌, Bool, true, false, ◌&&◌, Option, none, some, List, [], ◌∷◌, leb, if◌then◌else◌,
  any,
}
use steeleagle.Prelude.Int.{ℤ, pos, negsuc, ◌-ℤ◌, abs, leb_ℤ}

-- `Pose`, `Velocity`, `Position` and `Location` of dsl/types/datatypes/common.py
pub record Pose : Type 0 where
  pub pitch : Option ℤ
  pub roll : Option ℤ
  pub yaw : Option ℤ

pub record Velocity : Type 0 where
  pub x_vel : Option ℤ
  pub y_vel : Option ℤ
  pub z_vel : Option ℤ
  pub angular_vel : Option ℤ

pub record Position : Type 0 where
  pub x : Option ℤ
  pub y : Option ℤ
  pub z : Option ℤ
  pub angle : Option ℤ

pub record Location : Type 0 where
  pub latitude : Option ℤ
  pub longitude : Option ℤ
  pub altitude : Option ℤ
  pub heading : Option ℤ

pub data ReferenceFrame : Type 0 where
  body neu : ReferenceFrame

-- The parts of dsl/types/datatypes/telemetry.py that the events read.
pub record GimbalStatus : Type 0 where
  pub pose_body : Option Pose
  pub pose_neu : Option Pose

pub record PositionInfo : Type 0 where
  pub global_position : Option Location
  pub relative_position : Option Position
  pub velocity_neu : Option Velocity
  pub velocity_body : Option Velocity

-- `battery_info` and `gps_info`, with their one number each
pub record VehicleInfo : Type 0 where
  pub battery_info : Option (Option ℤ)
  pub gps_info : Option (Option ℤ)

pub record Telemetry : Type 0 where
  pub vehicle_info : Option VehicleInfo
  pub position_info : Option PositionInfo
  pub gimbal_info : Option (List GimbalStatus)

-- An optional part of a message, looked into: a missing part fails the round.
abbrev pub given {ℓ} : {A : Type ℓ} → Option A → (A → Bool) → Bool
given none p = false
given (some x) p = p x

-- One component: `if target is not None: if cur is None or abs(cur - target) > tol: continue`.
unfoldable pub near : ℕ → Option ℤ → Option ℤ → Bool
near tol none cur = true
near tol (some t) none = false
near tol (some t) (some c) = leb (abs (c -ℤ t)) tol

-- x % 360.0 of Python, whose result is never negative
unfoldable pub mod_circle : ℤ → ℕ
mod_circle (pos n) = n % 360000
mod_circle (negsuc n) = 359999 - n % 360000

-- `_deg_diff`
unfoldable pub deg_diff : ℤ → ℤ → ℕ
unfolding mod_circle
deg_diff a b = let d = mod_circle (a -ℤ b) in if leb d 180000 then d else 360000 - d

-- the component of an angle, where the difference is taken round the circle
unfoldable pub near_angle : ℕ → Option ℤ → Option ℤ → Bool
unfolding deg_diff
near_angle tol none cur = true
near_angle tol (some t) none = false
near_angle tol (some t) (some c) = leb (deg_diff c t) tol

unfoldable pub battery_round : ℤ → Telemetry → Bool
battery_round threshold tel =
    given tel.vehicle_info (λ v. given v.battery_info (λ b. given b (λ pct. leb_ℤ pct threshold)))

unfoldable pub satellites_round : ℤ → Telemetry → Bool
satellites_round threshold tel =
    given tel.vehicle_info (λ v. given v.gps_info (λ g. given g (λ sats. leb_ℤ threshold sats)))

-- the body of the loop over the gimbals
unfoldable pub gimbal_fits : Pose → ℕ → GimbalStatus → Bool
unfolding near
gimbal_fits target tol g =
    let fits : Pose → Bool = λ actual.
      near tol target.roll actual.roll
      && near tol target.pitch actual.pitch
      && near tol target.yaw actual.yaw in
    elim g.pose_body [ some actual ↦ fits actual | none ↦ given g.pose_neu fits ]

unfoldable pub gimbal_round : Pose → ℕ → Telemetry → Bool
unfolding gimbal_fits
gimbal_round target tol tel = given tel.gimbal_info (any (gimbal_fits target tol))

abbrev pub velocity_in : ReferenceFrame → PositionInfo → Option Velocity
velocity_in body p = p.velocity_body
velocity_in neu p = p.velocity_neu

unfoldable pub velocity_round : ReferenceFrame → Velocity → ℕ → Telemetry → Bool
unfolding near
velocity_round frame target tol tel = given tel.position_info (λ p.
    given (velocity_in frame p) (λ v.
      near tol target.x_vel v.x_vel
      && near tol target.y_vel v.y_vel
      && near tol target.z_vel v.z_vel
      && near tol target.angular_vel v.angular_vel))

unfoldable pub relative_round : Position → ℕ → ℕ → Telemetry → Bool
unfolding near near_angle
relative_round target tol_m tol_deg tel = given tel.position_info (λ p.
    given p.relative_position (λ cur.
      near tol_m target.x cur.x
      && near tol_m target.y cur.y
      && near tol_m target.z cur.z
      && near_angle tol_deg target.angle cur.angle))

-- `_haversine_m`, over the formula for four coordinates
unfoldable pub haversine_of :
    (ℤ → ℤ → ℤ → ℤ → ℕ) → Option ℤ → Option ℤ → Option ℤ → Option ℤ → Option ℕ
haversine_of great_circle (some lat1) (some lon1) (some lat2) (some lon2) =
    some (great_circle lat1 lon1 lat2 lon2)
haversine_of great_circle _ _ _ _ = none

unfoldable pub haversine_m : (ℤ → ℤ → ℤ → ℤ → ℕ) → Location → Location → Option ℕ
unfolding haversine_of
haversine_m great_circle a b =
    haversine_of great_circle a.latitude a.longitude b.latitude b.longitude

-- The distance counts only where the target has both coordinates.
unfoldable pub within : ℕ → Option ℤ → Option ℤ → Option ℕ → Bool
within tol (some lat) (some lon) d = given d (λ (m : ℕ). leb m tol)
within tol _ _ d = true

unfoldable pub near_ground : (ℤ → ℤ → ℤ → ℤ → ℕ) → ℕ → Location → Location → Bool
unfolding haversine_m within
near_ground great_circle tol target cur =
    within tol target.latitude target.longitude (haversine_m great_circle cur target)

-- A target of None never fits.
unfoldable pub global_round : (ℤ → ℤ → ℤ → ℤ → ℕ) → Option Location → ℕ → ℕ → ℕ → Telemetry → Bool
unfolding near near_angle near_ground
global_round great_circle none tol_m tol_alt_m tol_deg tel = false
global_round great_circle (some target) tol_m tol_alt_m tol_deg tel = given tel.position_info (λ p.
    given p.global_position (λ cur.
      near_ground great_circle tol_m target cur
      && near tol_alt_m target.altitude cur.altitude
      && near_angle tol_deg target.heading cur.heading))

-- The telemetry events with their fields.
pub data Event : Type 0 where
  battery_reached satellites_reached : ℤ → Event
  gimbal_pose_reached : Pose → ℕ → Event
  velocity_reached : ReferenceFrame → Velocity → ℕ → Event
  relative_position_reached : Position → ℕ → ℕ → Event
  global_position_reached : Option Location → ℕ → ℕ → ℕ → Event

unfoldable pub fits : (ℤ → ℤ → ℤ → ℤ → ℕ) → Event → Telemetry → Bool
unfolding battery_round satellites_round gimbal_round velocity_round relative_round global_round
fits gc (battery_reached threshold) tel = battery_round threshold tel
fits gc (satellites_reached threshold) tel = satellites_round threshold tel
fits gc (gimbal_pose_reached target tol) tel = gimbal_round target tol tel
fits gc (velocity_reached frame target tol) tel = velocity_round frame target tol tel
fits gc (relative_position_reached target tol_m tol_deg) tel =
    relative_round target tol_m tol_deg tel
fits gc (global_position_reached target tol_m tol_alt_m tol_deg) tel =
    global_round gc target tol_m tol_alt_m tol_deg tel

-- `while True` over what the fetches give: the number of the round in which `check` returns, or `none`
-- while it still waits.
unfoldable pub check : (ℤ → ℤ → ℤ → ℤ → ℕ) → Event → List (Option Telemetry) → Option ℕ
unfolding fits
check gc ev [] = none
check gc ev (tel ∷ feed) =
    let rest = check gc ev feed in
    if given tel (fits gc ev) then some 0 else (elim rest [ none ↦ none | some n ↦ some (suc n) ])

-- `fetch_telemetry` of dsl/types/utils.py: it awaits the vehicle's message and returns nothing.
unfoldable pub fetch_telemetry : Option Telemetry → Option Telemetry
fetch_telemetry latest = none
