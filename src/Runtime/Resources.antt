-- ===== src/Runtime/Resources.antt =====
-- sdk/src/steeleagle_sdk/api/mission_store.py and dsl/runtime/__init__.py: the connections and tasks that
-- `start`, `stop`, `init` and `term` open and end, each with a number of its own. Closing is taken to work, and
-- a call of `init` is not cancelled.
mod Closing
mod Opening
pub mod Tidy
use steeleagle.Prelude.{ℕ, suc, String, Option, none, some, List, [], ◌∷◌, eqb, if◌then◌else◌}
use steeleagle.Runtime.Session.{
  Session, Breaks, nowhere, at_channel, at_store, at_store_start, at_vehicle, at_compute, at_fsm,
  init, term,
}

-- What is open in the process: connections (of SQLite, of ZeroMQ's sockets, of gRPC) and tasks.
pub record World : Type 0 where
  pub next : ℕ
  pub connections : List ℕ
  pub running : List ℕ

abbrev pub without : ℕ → List ℕ → List ℕ
without h [] = []
without h (k ∷ ks) = let rest = without h ks in if eqb k h then rest else k ∷ rest

unfoldable pub open_connection : World → World
open_connection w = record w { next = suc w.next; connections = w.next ∷ w.connections }

unfoldable pub create_task : World → World
create_task w = record w { next = suc w.next; running = w.next ∷ w.running }

unfoldable pub close : Option ℕ → World → World
close none w = w
close (some h) w = record w { connections = without h w.connections }

unfoldable pub cancel : List ℕ → World → World
cancel [] w = w
cancel (h ∷ hs) w = cancel hs (record w { running = without h w.running })

-- the fields of `MissionStore`
pub record Store : Type 0 where
  pub db : Option ℕ
  pub telemetry : Option ℕ
  pub results : Option ℕ
  pub tasks : List ℕ

abbrev pub new_store : Store
new_store = record { db = none; telemetry = none; results = none; tasks = [] }

-- Where `start` of the store raises.
pub data StoreBreaks : Type 0 where
  at_database at_script at_telemetry_socket at_telemetry_connect : StoreBreaks
  at_results_socket at_results_connect : StoreBreaks

unfoldable pub with_db : Store × World → Store × World
unfolding open_connection
with_db (st, w) = (record st { db = some w.next }, open_connection w)

unfoldable pub with_telemetry : Store × World → Store × World
unfolding open_connection
with_telemetry (st, w) = (record st { telemetry = some w.next }, open_connection w)

unfoldable pub with_results : Store × World → Store × World
unfolding open_connection
with_results (st, w) = (record st { results = some w.next }, open_connection w)

-- the two consumers
unfoldable pub with_tasks : Store × World → Store × World
unfolding create_task
with_tasks (st, w) = (record st { tasks = w.next ∷ suc w.next ∷ [] }, create_task (create_task w))

-- `MissionStore.start`, up to where it raises
unfoldable pub start_store : Option StoreBreaks → Store × World → Store × World
unfolding with_db with_telemetry with_results with_tasks
start_store none s = with_tasks (with_results (with_telemetry (with_db s)))
start_store (some at_database) s = s
start_store (some at_script) s = with_db s
start_store (some at_telemetry_socket) s = with_db s
start_store (some at_telemetry_connect) s = with_telemetry (with_db s)
start_store (some at_results_socket) s = with_telemetry (with_db s)
start_store (some at_results_connect) s = with_results (with_telemetry (with_db s))

-- `MissionStore.stop`
unfoldable pub stop_store : Store × World → Store × World
unfolding cancel close
stop_store (st, w) =
    (new_store, close st.db (close st.results (close st.telemetry (cancel st.tasks w))))

unfoldable pub stop_held : Option Store → World → World
unfolding stop_store
stop_held none w = w
stop_held (some st) w = (stop_store (st, w)).1

-- Cancelling a task that has ended changes nothing.
unfoldable pub cancel_mission : Option ℕ → World → World
unfolding cancel
cancel_mission none w = w
cancel_mission (some t) w = cancel (t ∷ []) w

-- The module-scoped names with what they hold, and the process.
pub record Held (Mission : Type 0) : Type 0 where
  pub session : Session Mission
  pub channel : Option ℕ
  pub store : Option Store
  pub mission_task : Option ℕ
  pub world : World

module _ {Mission : Type 0} where
  unfoldable pub with_channel : Held Mission → Held Mission
  unfolding open_connection
  with_channel h = record h { channel = some h.world.next; world = open_connection h.world }

  unfoldable pub with_store : Option StoreBreaks → Held Mission → Held Mission
  unfolding start_store
  with_store p h =
      let (st, w) = start_store p (new_store, h.world) in record h { store = some st; world = w }

  unfoldable pub with_mission_task : Held Mission → Held Mission
  unfolding create_task
  with_mission_task h = record h { mission_task = some h.world.next; world = create_task h.world }

  -- the `try` block of `init`, up to where it raises; the second place says where in the store's `start`
  unfoldable pub open_up : Breaks → StoreBreaks → Held Mission → Held Mission
  unfolding with_channel with_store with_mission_task
  open_up (at_channel e) p h = h
  open_up (at_store e) p h = with_channel h
  open_up (at_store_start e) p h = with_store (some p) (with_channel h)
  open_up (at_vehicle e) p h = with_store none (with_channel h)
  open_up (at_compute e) p h = with_store none (with_channel h)
  open_up (at_fsm e) p h = with_store none (with_channel h)
  open_up nowhere p h = with_mission_task (with_store none (with_channel h))

  -- Stop the store, close the channel, and clear the names.
  unfoldable pub release : Held Mission → Held Mission
  unfolding stop_held close
  release h = record h {
    channel = none;
    store = none;
    mission_task = none;
    world = close h.channel (stop_held h.store h.world);
  }

  -- the `except` clause
  unfoldable pub settle : Breaks → Held Mission → Held Mission
  unfolding release
  settle nowhere h = h
  settle (at_channel e) h = release h
  settle (at_store e) h = release h
  settle (at_store_start e) h = release h
  settle (at_vehicle e) h = release h
  settle (at_compute e) h = release h
  settle (at_fsm e) h = release h

  unfoldable pub init_held :
      Breaks → StoreBreaks → Mission → Option String → Held Mission → Held Mission
  unfolding open_up settle init
  init_held b p m mp h =
      if h.session.started
      then h
      else record (settle b (open_up b p h)) { session = (init b m mp h.session).0 }

  unfoldable pub term_held : Held Mission → Held Mission
  unfolding cancel_mission release term
  term_held h =
      if h.session.started
      then record (release (record h { world = cancel_mission h.mission_task h.world })) {
        session = term h.session;
      }
      else h

-- A call of `init` or of `term`, or a task that ends by itself.
pub data Event (Mission : Type 0) : Type 0 where
  init_call : Breaks → StoreBreaks → Mission → Option String → Event Mission
  term_call : Event Mission
  task_ends : ℕ → Event Mission

module _ {Mission : Type 0} where
  unfoldable pub happen : Held Mission → Event Mission → Held Mission
  unfolding init_held term_held cancel
  happen h (init_call b p m mp) = init_held b p m mp h
  happen h term_call = term_held h
  happen h (task_ends t) = record h { world = cancel (t ∷ []) h.world }

  unfoldable pub happen_all : Held Mission → List (Event Mission) → Held Mission
  unfolding happen
  happen_all h [] = h
  happen_all h (e ∷ es) = happen_all (happen h e) es
