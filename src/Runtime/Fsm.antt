-- ===== src/Runtime/Fsm.antt =====
-- sdk/src/steeleagle_sdk/dsl/runtime/fsm.py: `MissionFSM`. The action and the events of a state race;
-- which of them finish before they are cancelled, and how, is an input: the finishes of each state in
-- their order.
pub mod Paths
pub mod Compiled
use steeleagle.Prelude.{
  ◌>>=◌, String, Bool, true, false, not, Option, none, some, List, [], ◌∷◌, ◌==◌, if◌then◌else◌,
  any, keep, Fault, key_error, type_error, exception_group, Result, ok, err, Dict, lookup, keys,
}
use steeleagle.Dsl.Ir.{Attributes, ActionIr, EventIr, MissionIr, done_event, terminate}
use steeleagle.Dsl.Registry.{Table, get}
use steeleagle.Dsl.Resolver.{Schema}

-- `RacerType` with the racer's id; an error carries its exception
pub data Racer : Type 0 where
  action : String → Racer
  event : String → Racer

-- How a racer's task ends: its `execute` or `check` returned, or it raised.
pub data Finish : Type 0 where
  returned : Racer → Finish
  raised : Racer → Fault → Finish

-- what a racer puts into the queue
pub data Entry : Type 0 where
  winner : Racer → Entry
  error : Fault → Entry

-- What becomes of a state: the race is open, the next state is known, or an exception leaves.
pub data Turn : Type 0 where
  waiting : Turn
  next : String → Turn
  crashed : Fault → Turn

-- `put_nowait` on a queue of one place: a full queue drops the entry.
unfoldable pub put_nowait : Option Entry → Entry → Option Entry
put_nowait none e = some e
put_nowait (some q) e = some q

-- `_race`: the entry of a finished racer
unfoldable pub entry_of : Finish → Entry
entry_of (returned r) = winner r
entry_of (raised r e) = error e

-- the queue after the finishes
unfoldable pub race : Option Entry → List Finish → Option Entry
unfolding put_nowait entry_of
race q [] = q
race q (f ∷ fs) = race (put_nowait q (entry_of f)) fs

-- A racer that fails raises again, and a TaskGroup one of whose tasks raised ends in an exception
-- group, whatever its body did.
unfoldable pub is_raised : Finish → Bool
is_raised (returned r) = false
is_raised (raised r e) = true

unfoldable pub group_fails : List Finish → Bool
unfolding is_raised
group_fails fs = any is_raised fs

-- `_next_state`
unfoldable pub next_state : Dict (Dict String) → String → String → String
unfolding lookup
next_state transitions aid ev = elim (lookup aid transitions) [
  | none ↦ terminate
  | some am ↦ elim (lookup ev am) [ none ↦ terminate | some n ↦ n ]
]

-- `_gather_events`, and the filter of `run_state`
unfoldable pub event_ids : Dict (Dict String) → String → List String
unfolding lookup
event_ids transitions aid = elim (lookup aid transitions) [
  | none ↦ []
  | some am ↦ keep (λ ev. not (ev == done_event)) (keys am)
]

module _ (sc : Schema) where
  open sc use {Class, Model, construct}

  abbrev pub Mission : Type 0
  Mission = MissionIr Model

  -- `cls(**attributes)`; an unregistered type gives None, and calling it is a TypeError
  unfoldable pub instantiate : Table Class → String → Attributes Model → Result Model
  instantiate table type_name attrs = elim (get type_name table) [
    | none ↦ err type_error
    | some cls ↦ construct cls attrs
  ]

  unfoldable pub build_action : Mission → String → Result Model
  unfolding lookup
  build_action m aid = elim (lookup aid m.actions) [
    | none ↦ err key_error
    | some a ↦ instantiate sc.actions a.type_name a.attributes
  ]

  unfoldable pub build_event : Mission → String → Result Model
  unfolding lookup
  build_event m eid = elim (lookup eid m.events) [
    | none ↦ err key_error
    | some e ↦ instantiate sc.events e.type_name e.attributes
  ]

  -- the loop that makes the tasks of the events
  unfoldable pub build_events : Mission → List String → Result (List Model)
  build_events m [] = ok []
  build_events m (e ∷ es) = do ev ← build_event m e; rest ← build_events m es; ok (ev ∷ rest)

  -- behind the task group: the branches on the kind of the winner
  unfoldable pub after_race : Mission → String → Option Entry → Turn
  unfolding next_state
  after_race m aid none = waiting
  after_race m aid (some (error e)) = next terminate
  after_race m aid (some (winner (action a))) = next (next_state m.transitions aid done_event)
  after_race m aid (some (winner (event ev))) = next (next_state m.transitions aid ev)

  -- The task group: what its body or one of its tasks raises leaves as an exception group.
  unfoldable pub task_group : Mission → String → Result (List Model) → List Finish → Turn
  task_group m aid (err e) fs = crashed exception_group
  task_group m aid (ok evs) fs =
      if group_fails fs then crashed exception_group else after_race m aid (race none fs)

  unfoldable pub run_state : Mission → String → List Finish → Turn
  run_state m aid fs = elim (build_action m aid) [
    | err e ↦ crashed e
    | ok a ↦ task_group m aid (build_events m (event_ids m.transitions aid)) fs
  ]

  -- The loop of `start` over the finishes of the states that it visits: `ended` calls `term`.
  pub data Run : Type 0 where
    ended : Run
    in_state : String → Run
    died : Fault → Run

  -- the loop again where `run_state` has returned
  continue : Turn → String → (String → Run) → Run
  continue waiting s rest = in_state s
  continue (crashed e) s rest = died e
  continue (next t) s rest = rest t

  unfoldable pub start : Mission → String → List (List Finish) → Run
  unfolding continue
  start m s [] = if s == terminate then ended else in_state s
  start m s (fs ∷ more) =
      if s == terminate then ended else continue (run_state m s fs) s (λ t. start m t more)
