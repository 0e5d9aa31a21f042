-- ===== src/Runtime/Fsm/Compiled.antt =====
-- A compiled mission runs as its text says.
use steeleagle.Prelude.{String, ◌≡◌, ap, ◌∙◌, true, false, none, some, List, ◌∷◌, arith, ok}
use steeleagle.Dsl.Ir.{done_event, terminate}
use steeleagle.Dsl.Resolver.{Schema}
use steeleagle.Dsl.Transformer.{Decl}
use steeleagle.Dsl.Transformer.Rules.{last_rule, declares}
use steeleagle.Dsl.Validator.{compile}
use steeleagle.Dsl.Validator.Compiled.{Compiled, compile-Compiled}
use steeleagle.Runtime.Fsm.{
  Racer, action, event, Finish, returned, next, entry_of, group_fails, next_state, event_ids,
  Mission, build_action, build_events, after_race, task_group, run_state,
}
use steeleagle.Runtime.Fsm.Paths.{next_state-edge, race_first}

module _ (sc : Schema) where
  -- the event that a racer stands for
  abbrev pub event_of : Racer → String
  event_of (action a) = done_event
  event_of (event ev) = ev

  run_state-first :
      (m : Mission sc) (aid : String) (r : Racer) (fs : List Finish) (a : sc.Model)
      (evs : List sc.Model)
      → build_action sc m aid ≡ ok a
      → build_events sc m (event_ids m.transitions aid) ≡ ok evs
      → group_fails fs ≡ false
      → run_state sc m aid (returned r ∷ fs) ≡ next (next_state m.transitions aid (event_of r))
  unfolding run_state task_group group_fails after_race entry_of
  run_state-first m aid (action x) fs a evs p q g =
      ground (arith, race_first (returned (action x)) fs)
  run_state-first m aid (event ev) fs a evs p q g =
      ground (arith, race_first (returned (event ev)) fs)

  -- The next state of a compiled mission, where the objects of the state can be built and no racer
  -- raises: the first racer to finish decides, and the text says where it leads. That is the last rule
  -- for the state and the racer's event ('done' for the action), and 'terminate' where there is none.
  pub compiled_run_state :
      (ds : List Decl) (mir : Mission sc) (aid : String) (r : Racer) (fs : List Finish)
      (a : sc.Model) (evs : List sc.Model)
      → compile sc ds ≡ ok mir
      → declares ds aid ≡ true
      → build_action sc mir aid ≡ ok a
      → build_events sc mir (event_ids mir.transitions aid) ≡ ok evs
      → group_fails fs ≡ false
      → run_state sc mir aid (returned r ∷ fs)
        ≡ next (elim (last_rule ds aid (event_of r)) [ none ↦ terminate | some n ↦ n ])
  compiled_run_state ds mir aid r fs a evs h d p q g =
      let c : Compiled sc ds mir = compile-Compiled sc ds mir h in
      run_state-first mir aid r fs a evs p q g
      ∙ ap next (
          ground
            (arith, next_state-edge mir.transitions aid (event_of r), c.edges aid (event_of r)))
