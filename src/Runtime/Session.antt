-- ===== src/Runtime/Session.antt =====
-- sdk/src/steeleagle_sdk/dsl/runtime/__init__.py: the module's own state, which `init` and `term`
-- change under a lock. What starting and stopping the store and the channel does is an input.
pub mod Whole
use steeleagle.Prelude.{
  String, Bool, true, false, Option, none, some, List, [], ◌∷◌, if◌then◌else◌, Fault, Result, ok,
  err,
}

-- The module-scoped names, as far as they hold something. `Mission` is the mission that the state
-- machine was made for.
pub record Session (Mission : Type 0) : Type 0 where
  pub vehicle : Bool
  pub compute : Bool
  pub map_obj : Option String
  pub channel : Bool
  pub store : Bool
  pub fsm : Option Mission
  pub fsm_task : Bool
  pub started : Bool

module _ {Mission : Type 0} where
  -- as the module is imported
  abbrev pub idle : Session Mission
  idle = record {
    vehicle = false;
    compute = false;
    map_obj = none;
    channel = false;
    store = false;
    fsm = none;
    fsm_task = false;
    started = false;
  }

-- Where the body of the `try` of `init` raises: at no place, in making the channel or the store, in the
-- store's `start`, or in making the vehicle, the compute or the state machine.
pub data Breaks : Type 0 where
  nowhere : Breaks
  at_channel at_store at_store_start at_vehicle at_compute at_fsm : Fault → Breaks

module _ {Mission : Type 0} where
  -- the assignments of the `try` block, up to where it raises
  unfoldable pub bring_up :
      Breaks → Mission → Option String → Session Mission → Session Mission × Option Fault
  bring_up (at_channel e) m mp s = (s, some e)
  bring_up (at_store e) m mp s = (record s { channel = true }, some e)
  bring_up (at_store_start e) m mp s = (record s { channel = true; store = true }, some e)
  bring_up (at_vehicle e) m mp s = (record s { channel = true; store = true }, some e)
  bring_up (at_compute e) m mp s =
      (record s { channel = true; store = true; vehicle = true }, some e)
  bring_up (at_fsm e) m mp s = (
    record s { channel = true; store = true; vehicle = true; compute = true; map_obj = mp },
    some e,
  )
  bring_up nowhere m mp s = (
    record s {
      channel = true;
      store = true;
      vehicle = true;
      compute = true;
      map_obj = mp;
      fsm = some m;
      fsm_task = true;
      started = true;
    },
    none,
  )

  -- the `except` clause: stop what there is, clear every name, raise again
  unfoldable pub clean_up : Session Mission × Option Fault → Session Mission × Result (Unit {0})
  clean_up (s, none) = (s, ok tt)
  clean_up (s, some e) = (idle, err e)

  unfoldable pub init :
      Breaks → Mission → Option String → Session Mission → Session Mission × Result (Unit {0})
  unfolding bring_up clean_up
  init b m mp s = if s.started then (s, ok tt) else clean_up (bring_up b m mp s)

  -- `term`: errors of the store and the channel are logged and passed over
  unfoldable pub term : Session Mission → Session Mission
  term s = if s.started then idle else s

-- the calls of the mission service
pub data Op (Mission : Type 0) : Type 0 where
  start_up : Breaks → Mission → Option String → Op Mission
  shut_down : Op Mission

module _ {Mission : Type 0} where
  unfoldable pub step : Session Mission → Op Mission → Session Mission
  unfolding init term
  step s (start_up b m mp) = (init b m mp s).0
  step s shut_down = term s

  unfoldable pub steps : Session Mission → List (Op Mission) → Session Mission
  unfolding step
  steps s [] = s
  steps s (o ∷ os) = steps (step s o) os
