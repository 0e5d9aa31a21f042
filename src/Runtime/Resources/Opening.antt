-- ===== src/Runtime/Resources/Opening.antt =====
-- sdk/src/steeleagle_sdk/api/mission_store.py and dsl/runtime/__init__.py: what `init` opens before it raises or returns.
use steeleagle.Prelude.{
  ℕ, suc, String, ◌≡◌, refl, ◌⊎◌, inl, inr, Bool, true, false, Option, none, List, [], ◌∷◌, ◌++◌,
  length, Bool-cases, In, here, there, In-append_right,
}
use steeleagle.Runtime.Session.{
  Session, Breaks, nowhere, at_channel, at_store, at_store_start, at_vehicle, at_compute, at_fsm,
  bring_up, clean_up, init, term,
}
use steeleagle.Runtime.Resources.{
  open_connection, create_task, StoreBreaks, at_database, at_script, at_telemetry_socket,
  at_telemetry_connect, at_results_socket, at_results_connect, with_db, with_telemetry,
  with_results, with_tasks, start_store, cancel_mission, Held, with_channel, with_store,
  with_mission_task, open_up, release, settle, init_held, term_held,
}
use steeleagle.Runtime.Resources.Closing.{the_number, store_tasks, connections_of, tasks_of, IsBare}

pub test_clash : {b : Bool} → b ≡ true → b ≡ false → ⊥
test_clash p q = absurd cc

two_tasks : (n k : ℕ) (r : List ℕ) → In k (suc n ∷ n ∷ r) → In k (n ∷ suc n ∷ []) ⊎ In k r
two_tasks n k r here = inl (there here)
two_tasks n k r (there here) = inl here
two_tasks n k r (there (there m)) = inr m

three_tasks :
    (t n k : ℕ) (r : List ℕ) → In k (t ∷ suc n ∷ n ∷ r) → In k (t ∷ n ∷ suc n ∷ []) ⊎ In k r
three_tasks t n k r here = inl here
three_tasks t n k r (there m) = elim (two_tasks n k r m) [ inl a ↦ inl (there a) | inr b ↦ inr b ]

module _ {Mission : Type 0} where
  pub open_up-connections :
      (b : Breaks) (p : StoreBreaks) (h : Held Mission)
      → IsBare h
      → (open_up b p h).world.connections ≡ connections_of (open_up b p h) ++ h.world.connections
  unfolding open_up with_channel with_store with_mission_task start_store with_db with_telemetry
      with_results with_tasks open_connection create_task
  open_up-connections (at_channel e) p h (c, s, t) = rw (c, s)
  open_up-connections (at_store e) p h (c, s, t) = rw (s)
  open_up-connections (at_store_start e) at_database h bare = refl
  open_up-connections (at_store_start e) at_script h bare = refl
  open_up-connections (at_store_start e) at_telemetry_socket h bare = refl
  open_up-connections (at_store_start e) at_telemetry_connect h bare = refl
  open_up-connections (at_store_start e) at_results_socket h bare = refl
  open_up-connections (at_store_start e) at_results_connect h bare = refl
  open_up-connections (at_vehicle e) p h bare = refl
  open_up-connections (at_compute e) p h bare = refl
  open_up-connections (at_fsm e) p h bare = refl
  open_up-connections nowhere p h bare = refl

  stored_tasks :
      (h : Held Mission) (k : ℕ)
      → In k (with_store none (with_channel h)).world.running
      → In k (tasks_of (with_store none (with_channel h))) ⊎ In k h.world.running
  unfolding with_channel with_store start_store with_db with_telemetry with_results with_tasks
      open_connection create_task
  stored_tasks h k m = elim (two_tasks _ k h.world.running m) [
    | inl a ↦ inl (In-append_right (the_number h.mission_task) a)
    | inr b ↦ inr b
  ]

  -- A task that is there afterwards is the mission's, one of the store's, or was there before.
  pub open_up-tasks :
      (b : Breaks) (p : StoreBreaks) (h : Held Mission) (k : ℕ)
      → IsBare h
      → In k (open_up b p h).world.running
      → In k (tasks_of (open_up b p h)) ⊎ In k h.world.running
  unfolding open_up with_channel with_store with_mission_task start_store with_db with_telemetry
      with_results with_tasks open_connection create_task
  open_up-tasks (at_channel e) p h k bare m = inr m
  open_up-tasks (at_store e) p h k bare m = inr m
  open_up-tasks (at_store_start e) at_database h k bare m = inr m
  open_up-tasks (at_store_start e) at_script h k bare m = inr m
  open_up-tasks (at_store_start e) at_telemetry_socket h k bare m = inr m
  open_up-tasks (at_store_start e) at_telemetry_connect h k bare m = inr m
  open_up-tasks (at_store_start e) at_results_socket h k bare m = inr m
  open_up-tasks (at_store_start e) at_results_connect h k bare m = inr m
  open_up-tasks (at_vehicle e) p h k bare m = stored_tasks h k m
  open_up-tasks (at_compute e) p h k bare m = stored_tasks h k m
  open_up-tasks (at_fsm e) p h k bare m = stored_tasks h k m
  open_up-tasks nowhere p h k bare m = three_tasks _ _ k h.world.running m

  -- Only where it makes the mission's task is there one, and only then nothing is released.
  pub settle-cases :
      (b : Breaks) (p : StoreBreaks) (h : Held Mission)
      → (b ≡ nowhere)
        ⊎ ((settle b (open_up b p h) ≡ release (open_up b p h))
            × ((open_up b p h).mission_task ≡ h.mission_task)
            × ((m : Mission) (mp : Option String)
                → h.session.started ≡ false
                → (init b m mp h.session).0.started ≡ false))
  unfolding settle open_up with_channel with_store init bring_up clean_up
  settle-cases nowhere p h = inl refl
  settle-cases (at_channel e) p h = inr (refl, refl, λ m mp off. rw off)
  settle-cases (at_store e) p h = inr (refl, refl, λ m mp off. rw off)
  settle-cases (at_store_start e) p h = inr (refl, refl, λ m mp off. rw off)
  settle-cases (at_vehicle e) p h = inr (refl, refl, λ m mp off. rw off)
  settle-cases (at_compute e) p h = inr (refl, refl, λ m mp off. rw off)
  settle-cases (at_fsm e) p h = inr (refl, refl, λ m mp off. rw off)

  pub bare-connections : (h : Held Mission) → IsBare h → connections_of h ≡ []
  bare-connections h (c, s, t) = rw (c, s)

  pub bare-tasks : (h : Held Mission) → IsBare h → tasks_of h ≡ []
  bare-tasks h (c, s, t) = rw (s, t)

  pub release-IsBare : (h : Held Mission) → IsBare (release h)
  unfolding release
  release-IsBare h = (refl, refl, refl)

  pub store_only : (h : Held Mission) → h.mission_task ≡ none → tasks_of h ≡ store_tasks h.store
  store_only h e = rw e

  pub init-started :
      (m : Mission) (mp : Option String) (s : Session Mission)
      → s.started ≡ false
      → (init nowhere m mp s).0.started ≡ true
  unfolding init bring_up clean_up
  init-started m mp s off = rw off

  pub init_held-running :
      (b : Breaks) (p : StoreBreaks) (m : Mission) (mp : Option String) (h : Held Mission)
      → h.session.started ≡ true
      → init_held b p m mp h ≡ h
  unfolding init_held
  init_held-running b p m mp h on = rw on

  pub init_held-idle :
      (b : Breaks) (p : StoreBreaks) (m : Mission) (mp : Option String) (h : Held Mission)
      → h.session.started ≡ false
      → init_held b p m mp h
        ≡ record (settle b (open_up b p h)) { session = (init b m mp h.session).0 }
  unfolding init_held
  init_held-idle b p m mp h off = rw off

  pub term_held-running :
      (h : Held Mission)
      → h.session.started ≡ true
      → term_held h
        ≡ record (release (record h { world = cancel_mission h.mission_task h.world })) {
          session = term h.session;
        }
  unfolding term_held
  term_held-running h on = rw on

  pub term_held-idle : (h : Held Mission) → h.session.started ≡ false → term_held h ≡ h
  unfolding term_held
  term_held-idle h off = rw off

  -- The channel, the database and two sockets.
  pub open_up-four :
      (p : StoreBreaks) (h : Held Mission) → length (connections_of (open_up nowhere p h)) ≡ 4
  unfolding open_up with_channel with_store with_mission_task start_store with_db with_telemetry
      with_results with_tasks
  open_up-four p h = refl

  pub term-stopped : (s : Session Mission) → (term s).started ≡ false
  unfolding term
  term-stopped s = elim (Bool-cases s.started) [ inl on ↦ rw on | inr off ↦ rw off ]
