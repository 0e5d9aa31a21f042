-- ===== src/Runtime/Service.antt =====
-- vehicle/mission/mission_service.py: `MissionService`. Decoding the content of an upload
-- (`json.loads` and dacite's `from_dict`) is a parameter; the runtime is Runtime.Session.
pub mod Served
use steeleagle.Prelude.{
  ℕ, String, Bool, false, Option, none, some, List, [], ◌∷◌, if◌then◌else◌, Result, ok, err,
}
use steeleagle.Runtime.Session.{Session, Breaks, init, term}

-- `mission`, `mission_map` and `fsm_routine` of the service, with the runtime's own state. `routine` is
-- whether `fsm_routine` is a task that is not done: no method assigns it.
pub record Service (Mission : Type 0) : Type 0 where
  pub mission : Option Mission
  pub mission_map : Option String
  pub routine : Bool
  pub runtime : Session Mission

-- An answer of `generate_response`: a status and the message's text.
pub record Reply : Type 0 where
  pub status : ℕ
  pub text : String

pub data Request : Type 0 where
  upload : String → String → Request
  start_mission : Breaks → Request
  stop_mission : Request

module _ {Mission : Type 0} (load : String → Result Mission) where
  unfoldable pub upload_mission : String → String → Service Mission → Service Mission × Result Reply
  upload_mission content mp s = elim (load content) [
    | err e ↦ (s, err e)
    | ok m ↦ (
      record s { mission = some m; mission_map = some mp },
      ok (record { status = 2; text = "Mission uploaded" }),
    )
  ]

-- the reply behind a call of the runtime
unfoldable pub reply_after :
    {Mission : Type 0}
    → Service Mission
    → Session Mission × Result (Unit {0})
    → Service Mission × Result Reply
reply_after s (r, ok u) = (record s { runtime = r }, ok (record { status = 2; text = "" }))
reply_after s (r, err e) = (record s { runtime = r }, err e)

module _ {Mission : Type 0} where
  unfoldable pub start_service : Breaks → Service Mission → Service Mission × Result Reply
  unfolding reply_after init
  start_service b s = elim s.mission [
    | none ↦ (s, ok (record { status = 3; text = "No mission uploaded" }))
    | some m ↦
        if s.routine
        then (s, ok (record { status = 3; text = "Mission already running" }))
        else reply_after s (init b m s.mission_map s.runtime)
  ]

  unfoldable pub stop_service : Service Mission → Service Mission × Result Reply
  unfolding term
  stop_service s = elim s.mission [
    | none ↦ (s, ok (record { status = 3; text = "No active mission" }))
    | some m ↦ (record s { runtime = term s.runtime }, ok (record { status = 2; text = "" }))
  ]

module _ {Mission : Type 0} (load : String → Result Mission) where
  unfoldable pub handle : Service Mission → Request → Service Mission × Result Reply
  unfolding upload_mission start_service stop_service
  handle s (upload content mp) = upload_mission load content mp s
  handle s (start_mission b) = start_service b s
  handle s stop_mission = stop_service s

  unfoldable pub handles : Service Mission → List Request → Service Mission
  unfolding handle
  handles s [] = s
  handles s (r ∷ rs) = handles (handle s r).0 rs

abbrev pub fresh : {Mission : Type 0} → Session Mission → Service Mission
fresh r = record { mission = none; mission_map = none; routine = false; runtime = r }
