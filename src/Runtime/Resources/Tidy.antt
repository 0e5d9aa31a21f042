-- ===== src/Runtime/Resources/Tidy.antt =====
-- sdk/src/steeleagle_sdk/api/mission_store.py and dsl/runtime/__init__.py: no connection and no task is left behind.
use steeleagle.Prelude.{
  length, true, ℕ, String, ◌≡◌, sym, ◌∙◌, subst, ◌⊎◌, inl, inr, false, Option, List, [], ◌∷◌,
  Bool-cases, In, In-append_left,
}
use steeleagle.Runtime.Session.{Breaks, nowhere, init, term}
use steeleagle.Runtime.Session.Whole.{IsWhole, init-IsWhole, term-IsWhole}
use steeleagle.Runtime.Resources.{
  World, cancel, StoreBreaks, cancel_mission, Held, open_up, release, settle, init_held, term_held,
  Event, init_call, term_call, task_ends, happen, happen_all,
}
use steeleagle.Runtime.Resources.Closing.{
  the_number, connections_of, tasks_of, IsBare, not_In, In-without, In-split, not_In-append,
  cancel_mission-connections, In-cancel_mission, In-release, In-release_tasks,
}
use steeleagle.Runtime.Resources.Opening.{
  test_clash, open_up-connections, open_up-tasks, settle-cases, bare-connections, bare-tasks,
  release-IsBare, store_only, init-started, init_held-running, init_held-idle, term_held-running,
  open_up-four, term-stopped, term_held-idle,
}

-- What is open is held by a name or was open in `base`, what a name holds is open, and a stopped runtime's names
-- hold nothing.
pub record IsTidy {Mission : Type 0} (base : World) (h : Held Mission) : Type 0 where
  pub owned : (k : ℕ) → In k h.world.connections → In k (connections_of h) ⊎ In k base.connections
  pub still_open : (k : ℕ) → In k (connections_of h) → In k h.world.connections
  pub owned_tasks : (k : ℕ) → In k h.world.running → In k (tasks_of h) ⊎ In k base.running
  pub bare : h.session.started ≡ false → IsBare h
  pub full : h.session.started ≡ true → length (connections_of h) ≡ 4
  pub whole : IsWhole h.session

module _ {Mission : Type 0} (base : World) where
  was_open :
      (h : Held Mission) (k : ℕ)
      → IsTidy base h
      → IsBare h
      → In k h.world.connections
      → In k base.connections
  was_open h k t bare m = elim (t.owned k m) [
    | inl a ↦ absurd (not_In k (subst (In k) (bare-connections h bare) a))
    | inr b ↦ b
  ]

  was_running :
      (h : Held Mission) (k : ℕ)
      → IsTidy base h
      → IsBare h
      → In k h.world.running
      → In k base.running
  was_running h k t bare m = elim (t.owned_tasks k m) [
    | inl a ↦ absurd (not_In k (subst (In k) (bare-tasks h bare) a))
    | inr b ↦ b
  ]

  started-IsTidy :
      (p : StoreBreaks) (m : Mission) (mp : Option String) (h : Held Mission)
      → IsTidy base h
      → h.session.started ≡ false
      → IsTidy base (record (open_up nowhere p h) { session = (init nowhere m mp h.session).0 })
  started-IsTidy p m mp h t off =
      let bare = t.bare off in
      let opened = open_up-connections nowhere p h bare in
      record {
        owned = λ k i. elim (In-split k _ h.world.connections (subst (In k) opened i)) [
          | inl a ↦ inl a
          | inr b ↦ inr (was_open h k t bare b)
        ];
        still_open = λ k i. subst (In k) (sym opened) (In-append_left h.world.connections i);
        owned_tasks = λ k i. elim (open_up-tasks nowhere p h k bare i) [
          | inl a ↦ inl a
          | inr b ↦ inr (was_running h k t bare b)
        ];
        bare = λ e. absurd (test_clash (init-started m mp h.session off) e);
        full = λ e. open_up-four p h;
        whole = init-IsWhole nowhere m mp h.session t.whole;
      }

  failed-IsTidy :
      (b : Breaks) (p : StoreBreaks) (m : Mission) (mp : Option String) (h : Held Mission)
      → IsTidy base h
      → h.session.started ≡ false
      → (open_up b p h).mission_task ≡ h.mission_task
      → ((m : Mission) (mp : Option String)
          → h.session.started ≡ false
          → (init b m mp h.session).0.started ≡ false)
      → IsTidy base (record (release (open_up b p h)) { session = (init b m mp h.session).0 })
  failed-IsTidy b p m mp h t off same down_again =
      let bare = t.bare off in
      let o = open_up b p h in
      record {
        owned = λ k i.
            let (x, gone) = In-release o k i in
            elim (In-split k (connections_of o) h.world.connections
              (subst (In k) (open_up-connections b p h bare) x)) [
                | inl a ↦ absurd (gone a)
                | inr b ↦ inr (was_open h k t bare b)
              ];
        still_open = λ k i.
            absurd (not_In k (subst (In k) (bare-connections (release o) (release-IsBare o)) i));
        owned_tasks = λ k i.
            let (x, gone) = In-release_tasks o k i in
            elim (open_up-tasks b p h k bare x) [
              | inl a ↦ absurd (gone (subst (In k) (store_only o (same ∙ bare.2)) a))
              | inr b ↦ inr (was_running h k t bare b)
            ];
        bare = λ e. release-IsBare o;
        full = λ e. absurd (test_clash e (down_again m mp off));
        whole = init-IsWhole b m mp h.session t.whole;
      }

  failed_or_started-IsTidy :
      (b : Breaks) (p : StoreBreaks) (m : Mission) (mp : Option String) (h : Held Mission)
      → IsTidy base h
      → h.session.started ≡ false
      → IsTidy base (record (settle b (open_up b p h)) { session = (init b m mp h.session).0 })
  unfolding settle
  failed_or_started-IsTidy b p m mp h t off = elim (settle-cases b p h) [
    | inl e ↦
        subst
          (λ b.
            IsTidy base (record (settle b (open_up b p h)) { session = (init b m mp h.session).0 }))
          (sym e) (started-IsTidy p m mp h t off)
    | inr (e, same, down_again) ↦
        subst (λ o. IsTidy base (record o { session = (init b m mp h.session).0 })) (sym e)
          (failed-IsTidy b p m mp h t off same down_again)
  ]

  init_held-IsTidy :
      (b : Breaks) (p : StoreBreaks) (m : Mission) (mp : Option String) (h : Held Mission)
      → IsTidy base h
      → IsTidy base (init_held b p m mp h)
  init_held-IsTidy b p m mp h t = elim (Bool-cases h.session.started) [
    | inl on ↦ subst (IsTidy base) (sym (init_held-running b p m mp h on)) t
    | inr off ↦
        subst (IsTidy base) (sym (init_held-idle b p m mp h off))
          (failed_or_started-IsTidy b p m mp h t off)
  ]

  ended-IsTidy :
      (h : Held Mission)
      → IsTidy base h
      → IsTidy base (record (release (record h { world = cancel_mission h.mission_task h.world })) {
        session = term h.session;
      })
  ended-IsTidy h t =
      let o : Held Mission = record h { world = cancel_mission h.mission_task h.world } in
      record {
        owned = λ k i.
            let (x, gone) = In-release o k i in
            elim (t.owned k (subst (In k) (cancel_mission-connections h.mission_task h.world) x)) [
              | inl a ↦ absurd (gone a)
              | inr b ↦ inr b
            ];
        still_open = λ k i.
            absurd (not_In k (subst (In k) (bare-connections (release o) (release-IsBare o)) i));
        owned_tasks = λ k i.
            let (x, gone) = In-release_tasks o k i in
            let (y, over) = In-cancel_mission h.mission_task k h.world x in
            elim (t.owned_tasks k y) [
              | inl a ↦ absurd (not_In-append k (the_number h.mission_task) _ over gone a)
              | inr b ↦ inr b
            ];
        bare = λ e. release-IsBare o;
        full = λ e. absurd (test_clash e (term-stopped h.session));
        whole = term-IsWhole h.session t.whole;
      }

  term_held-IsTidy : (h : Held Mission) → IsTidy base h → IsTidy base (term_held h)
  term_held-IsTidy h t = elim (Bool-cases h.session.started) [
    | inl on ↦ subst (IsTidy base) (sym (term_held-running h on)) (ended-IsTidy h t)
    | inr off ↦ subst (IsTidy base) (sym (term_held-idle h off)) t
  ]

  ends-IsTidy :
      (n : ℕ) (h : Held Mission)
      → IsTidy base h
      → IsTidy base (record h { world = cancel (n ∷ []) h.world })
  unfolding cancel
  ends-IsTidy n h t = record {
    owned = t.owned;
    still_open = t.still_open;
    owned_tasks = λ k i. t.owned_tasks k (In-without n k h.world.running i).0;
    bare = t.bare;
    full = t.full;
    whole = t.whole;
  }

  happen-IsTidy : (h : Held Mission) (e : Event Mission) → IsTidy base h → IsTidy base (happen h e)
  unfolding happen
  happen-IsTidy h (init_call b p m mp) t = init_held-IsTidy b p m mp h t
  happen-IsTidy h term_call t = term_held-IsTidy h t
  happen-IsTidy h (task_ends n) t = ends-IsTidy n h t

  -- From a tidy state (the freshly imported module over any process is one), whatever calls of `init` (each
  -- of which may raise at any place, within the store's `start` too), calls of `term` and ends of tasks
  -- happen: every connection and task of the process is held by one of the runtime's names or was there in
  -- `base`; every connection that a name holds is open; a started runtime holds four connections, and one that
  -- is not started holds none, so all it opened is closed again; and the session is idle or whole.
  pub happen_all-IsTidy :
      (h : Held Mission) (es : List (Event Mission)) → IsTidy base h → IsTidy base (happen_all h es)
  unfolding happen_all
  happen_all-IsTidy h [] t = t
  happen_all-IsTidy h (e ∷ es) t = happen_all-IsTidy (happen h e) es (happen-IsTidy h e t)
