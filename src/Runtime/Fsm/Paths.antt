-- ===== src/Runtime/Fsm/Paths.antt =====
-- Where a mission goes: along its transitions, and what a failed racer does to it.
use steeleagle.Prelude.{
  String, ◌≡◌, refl, ◌⊎◌, inl, inr, true, false, none, some, List, [], ◌∷◌, arith, ◌==◌,
  Option-cases, str_cases, All, Fault, ok, Dict, has_key,
}
use steeleagle.Dsl.Ir.{done_event, terminate}
use steeleagle.Dsl.Resolver.{Schema}
use steeleagle.Dsl.Transformer.Edges.{edge}
use steeleagle.Runtime.Fsm.{
  Racer, action, event, Finish, returned, raised, Entry, winner, waiting, next, entry_of, race,
  group_fails, next_state, event_ids, Mission, build_action, build_events, after_race, task_group,
  run_state, ended, in_state, start,
}

pub next_state-edge :
    (t : Dict (Dict String)) (a ev : String)
    → next_state t a ev ≡ (elim (edge t a ev) [ none ↦ terminate | some n ↦ n ])
unfolding next_state edge
next_state-edge t a ev = ground arith

-- Once the queue is full, it keeps the first entry.
race_full : (e : Entry) (fs : List Finish) → race (some e) fs ≡ some e
unfolding race
race_full e [] = refl
race_full e (f ∷ fs) = race_full e fs

pub race_first : (f : Finish) (fs : List Finish) → race none (f ∷ fs) ≡ some (entry_of f)
unfolding race
race_first f fs = race_full (entry_of f) fs

module _ (sc : Schema) where
  -- A mission whose parts fit: its objects can be built, and each transition leads to 'terminate' or
  -- to one of its actions.
  pub record IsClosed (m : Mission sc) : Type 0 where
    pub builds_action :
        (aid : String)
        → has_key aid m.actions ≡ true
        → (a : sc.Model) × (build_action sc m aid ≡ ok a)
    pub builds_events :
        (aid : String)
        → has_key aid m.actions ≡ true
        → (evs : List sc.Model) × (build_events sc m (event_ids m.transitions aid) ≡ ok evs)
    pub targets :
        (aid ev n : String)
        → edge m.transitions aid ev ≡ some n
        → (n ≡ terminate) ⊎ (has_key n m.actions ≡ true)

  -- a state that the loop may be in
  abbrev pub Fits : Mission sc → String → Type 0
  Fits m s = (s ≡ terminate) ⊎ (has_key s m.actions ≡ true)

  next_state-Fits :
      (m : Mission sc) → IsClosed m → (aid ev : String) → Fits m (next_state m.transitions aid ev)
  next_state-Fits m c aid ev = elim (Option-cases (edge m.transitions aid ev)) [
    | inl p ↦ inl (ground (arith, next_state-edge m.transitions aid ev))
    | inr (n, p) ↦
        let eq : next_state m.transitions aid ev ≡ n =
          ground (arith, next_state-edge m.transitions aid ev) in
        rw eq (c.targets aid ev n p)
  ]

  run_state-race :
      (m : Mission sc)
      → IsClosed m
      → (aid : String) (fs : List Finish) → has_key aid m.actions ≡ true
      → group_fails fs ≡ false
      → run_state sc m aid fs ≡ after_race sc m aid (race none fs)
  unfolding run_state task_group
  run_state-race m c aid fs h g =
      let (a, p) = c.builds_action aid h in let (evs, q) = c.builds_events aid h in ground arith

  raised-fails : (r : Racer) (e : Fault) (fs : List Finish) → group_fails (raised r e ∷ fs) ≡ true
  unfolding group_fails
  raised-fails r e fs = refl

  run_state-Fits :
      (m : Mission sc)
      → IsClosed m
      → (aid : String) (fs : List Finish) → has_key aid m.actions ≡ true
      → group_fails fs ≡ false
      → (run_state sc m aid fs ≡ waiting)
        ⊎ ((t : String) × (run_state sc m aid fs ≡ next t) × Fits m t)
  unfolding after_race race entry_of
  run_state-Fits m c aid [] h g = inl (run_state-race m c aid [] h g)
  run_state-Fits m c aid (returned (action a) ∷ fs) h g = inr (
    next_state m.transitions aid done_event,
    rw (run_state-race m c aid (returned (action a) ∷ fs) h g, race_full (winner (action a)) fs),
    next_state-Fits m c aid done_event,
  )
  run_state-Fits m c aid (returned (event e) ∷ fs) h g = inr (
    next_state m.transitions aid e,
    rw (run_state-race m c aid (returned (event e) ∷ fs) h g, race_full (winner (event e)) fs),
    next_state-Fits m c aid e,
  )
  run_state-Fits m c aid (raised r e ∷ fs) h g = cc (raised-fails r e fs)

  start-next :
      (m : Mission sc) (aid t : String) (fs : List Finish) (more : List (List Finish))
      → (aid == terminate) ≡ false
      → run_state sc m aid fs ≡ next t
      → start sc m aid (fs ∷ more) ≡ start sc m t more
  unfolding start
  start-next m aid t fs more ne h = rw (ne, h)

  start-waiting :
      (m : Mission sc) (aid : String) (fs : List Finish) (more : List (List Finish))
      → (aid == terminate) ≡ false
      → run_state sc m aid fs ≡ waiting
      → start sc m aid (fs ∷ more) ≡ in_state aid
  unfolding start
  start-waiting m aid fs more ne h = rw (ne, h)

  start-terminate :
      (m : Mission sc) (sched : List (List Finish)) → start sc m terminate sched ≡ ended
  unfolding start
  start-terminate m [] = refl
  start-terminate m (fs ∷ more) = refl

  start-stop :
      (m : Mission sc) (s : String) → (s == terminate) ≡ false → start sc m s [] ≡ in_state s
  unfolding start
  start-stop m s ne = rw ne

  -- In a mission whose parts fit, as long as no racer raises, the loop never dies, whichever racers
  -- finish: it ends through 'terminate', or it is in one of the mission's actions.
  pub start_safe :
      (m : Mission sc) (s : String) (sched : List (List Finish))
      → IsClosed m
      → Fits m s
      → All (λ fs. group_fails fs ≡ false) sched
      → (start sc m s sched ≡ ended)
        ⊎ ((t : String) × (start sc m s sched ≡ in_state t) × (has_key t m.actions ≡ true))
  start_safe m s [] c (inl e) g = inl (rw e (start-terminate m []))
  start_safe m s (fs ∷ more) c (inl e) g = inl (rw e (start-terminate m (fs ∷ more)))
  start_safe m s [] c (inr k) g = elim (str_cases s terminate) [
    | inl e ↦ inl (rw e (start-terminate m []))
    | inr ne ↦ inr (s, start-stop m s ne, k)
  ]
  start_safe m s (fs ∷ more) c (inr k) g = elim (str_cases s terminate) [
    | inl e ↦ inl (rw e (start-terminate m (fs ∷ more)))
    | inr ne ↦ elim (run_state-Fits m c s fs k g.0) [
      | inl w ↦ inr (s, start-waiting m s fs more ne w, k)
      | inr (t, p, f) ↦ rw (start-next m s t fs more ne p) (start_safe m t more c f g.1)
    ]
  ]
