-- ===== src/Runtime/ResourceTests.antt =====
-- sdk/src/steeleagle_sdk/dsl/runtime/__init__.py: a start that fails in the store, a start, and a stop.
use steeleagle.Prelude.{String, ◌≡◌, refl, inr, none, [], ◌∷◌, os_error}
use steeleagle.Runtime.Session.{idle, nowhere, at_store_start, init, bring_up, clean_up}
use steeleagle.Runtime.Session.Whole.{down}
use steeleagle.Runtime.Resources.{
  World, Held, with_db, with_telemetry, with_results, with_tasks, start_store, stop_store,
  open_connection, create_task, close, cancel, with_channel, with_store, with_mission_task, open_up,
  stop_held, release, settle, init_held, at_results_connect, init_call, term_call, task_ends,
  happen, happen_all,
}
use steeleagle.Runtime.Resources.Tidy.{IsTidy, happen_all-IsTidy}

-- a process with a log server's connection and one task
abbrev process : World
process = record { next = 2; connections = 0 ∷ []; running = 1 ∷ [] }

abbrev imported : Held String
imported = record {
  session = idle;
  channel = none;
  store = none;
  mission_task = none;
  world = process;
}

imported-IsTidy : IsTidy process imported
imported-IsTidy = record {
  owned = λ k m. inr m;
  still_open = λ k m. elim m [ ];
  owned_tasks = λ k m. inr m;
  bare = λ e. (refl, refl, refl);
  full = λ e. absurd cc;
  whole = down idle refl;
}

-- The results' address is refused.
failed_start :
    (happen imported
      (init_call (at_store_start os_error) at_results_connect "tour" none)).world.connections
    ≡ 0 ∷ []
unfolding happen init_held init bring_up clean_up open_up settle release stop_held stop_store close
    cancel with_channel with_store start_store with_db with_telemetry with_results open_connection
failed_start = refl

-- A start: the channel, the database and two sockets are open, the consumers and the mission run.
running_start :
    (happen imported (init_call nowhere at_results_connect "tour" none)).world
    ≡ record { next = 9; connections = 5 ∷ 4 ∷ 3 ∷ 2 ∷ 0 ∷ []; running = 8 ∷ 7 ∷ 6 ∷ 1 ∷ [] }
unfolding happen init_held init bring_up clean_up open_up settle with_channel with_store
    with_mission_task start_store with_db with_telemetry with_results with_tasks open_connection
    create_task
running_start = refl

happen_all-IsTidy_example : IsTidy process (
    happen_all imported (
      init_call (at_store_start os_error) at_results_connect "tour" none
      ∷ init_call nowhere at_results_connect "tour" none
      ∷ task_ends 12
      ∷ term_call
      ∷ []))
happen_all-IsTidy_example =
    happen_all-IsTidy process imported
      (init_call (at_store_start os_error) at_results_connect "tour" none
        ∷ init_call nowhere at_results_connect "tour" none
        ∷ task_ends 12
        ∷ term_call
        ∷ [])
      imported-IsTidy
