-- ===== src/Dsl/Validator/Compiled.antt =====
-- What a mission that compiles is: its transitions come from the text alone, and each of its objects
-- was built by a registered class.
use steeleagle.Prelude.{
  String, ◌≡◌, refl, ap, ◌∙◌, inl, inr, ◌&&◌, List, arith, ◌==◌, if◌then◌else◌, ok, >>=-eq-ok,
  Result-cases, keys,
}
use steeleagle.Dsl.Ir.{MissionIr, done_event}
use steeleagle.Dsl.Resolver.{Schema, resolve_symbols, resolve_data, resolve_actions, resolve_events}
use steeleagle.Dsl.Transformer.{Decl, initial, transform, build}
use steeleagle.Dsl.Transformer.Edges.{edge, or_done}
use steeleagle.Dsl.Transformer.Rules.{last_rule, declares, build-edge}
use steeleagle.Dsl.Validator.{
  validate_data, validate_actions, validate_events, validate_mission_ir, compile,
}
use steeleagle.Dsl.Validator.Built.{
  AllActions, AllData, AllEvents, resolve_actions-keys, validate_actions-Built,
  validate_actions-keys, validate_data-Built, validate_events-Built,
}

module _ (sc : Schema) where
  open sc use {Class, Model, construct, dump}

  resolve_symbols-kept :
      (mir out : MissionIr Model)
      → resolve_symbols sc mir ≡ ok out
      → (keys out.actions ≡ keys mir.actions)
        × (out.start_action_id ≡ mir.start_action_id)
        × (out.transitions ≡ mir.transitions)
  unfolding resolve_symbols
  resolve_symbols-kept mir out h = elim (Result-cases (resolve_data sc mir.data_irs mir.data_irs)) [
    | inr (e, p) ↦ ground arith
    | inl (d, p) ↦ elim (Result-cases (resolve_actions sc mir.actions d)) [
      | inr (e, q) ↦ ground arith
      | inl (a, q) ↦ elim (Result-cases (resolve_events sc mir.events d)) [
        | inr (e, r) ↦ ground arith
        | inl (v, r) ↦
            let eq : out ≡ record mir { data_irs = d; actions = a; events = v } = ground arith in
            rw eq (resolve_actions-keys sc mir.actions d a q, refl, refl)
      ]
    ]
  ]

  -- what the validator leaves alone, and what it builds
  record Validated (mir out : MissionIr Model) : Type 0 where
    same_ids : keys out.actions ≡ keys mir.actions
    same_start : out.start_action_id ≡ mir.start_action_id
    same_transitions : out.transitions ≡ mir.transitions
    actions_built : AllActions sc out.actions
    events_built : AllEvents sc out.events
    data_built : AllData sc out.data_irs

  validate-Validated :
      (mir out : MissionIr Model) → validate_mission_ir sc mir ≡ ok out → Validated mir out
  unfolding validate_mission_ir
  validate-Validated mir out h = elim (Result-cases (validate_data sc mir.data_irs)) [
    | inr (e, p) ↦ ground arith
    | inl (d, p) ↦ elim (Result-cases (validate_actions sc mir.actions)) [
      | inr (e, q) ↦ ground arith
      | inl (a, q) ↦ elim (Result-cases (validate_events sc mir.events)) [
        | inr (e, r) ↦ ground arith
        | inl (v, r) ↦
            let eq : out ≡ record mir { data_irs = d; actions = a; events = v } = ground arith in
            rw eq (record {
              same_ids = validate_actions-keys sc mir.actions a q;
              same_start = refl;
              same_transitions = refl;
              actions_built = validate_actions-Built sc mir.actions a q;
              events_built = validate_events-Built sc mir.events v r;
              data_built = validate_data-Built sc mir.data_irs d p;
            })
      ]
    ]
  ]

  -- A mission that compiles, against the text that it comes from.
  pub record Compiled (ds : List Decl) (mir : MissionIr Model) : Type 0 where
    pub same_ids : keys mir.actions ≡ keys (transform {M = Model} initial ds).actions
    pub same_start : mir.start_action_id ≡ (transform {M = Model} initial ds).start_aid
    pub edges :
        (a ev : String)
        → edge mir.transitions a ev ≡ (
            if declares ds a && (done_event == ev)
            then or_done (last_rule ds a ev)
            else last_rule ds a ev)
    pub actions_built : AllActions sc mir.actions
    pub events_built : AllEvents sc mir.events
    pub data_built : AllData sc mir.data_irs

  -- When `build_mission` returns a mission: it has the actions and the start that the text declares;
  -- its transitions are those of the text with the default edge from 'done' to 'terminate'; and every
  -- action, event and datum has a registered class that accepted its attributes, which are now the
  -- dump of that instance.
  pub compile-Compiled :
      (ds : List Decl) (mir : MissionIr Model) → compile sc ds ≡ ok mir → Compiled ds mir
  unfolding compile
  compile-Compiled ds mir h =
      let src : MissionIr Model = build (transform initial ds) in
      let (mid, p, q) = >>=-eq-ok (resolve_symbols sc src) (λ m. validate_mission_ir sc m) h in
      let k = resolve_symbols-kept src mid p in
      let v : Validated mid mir = validate-Validated mid mir q in
      record {
        same_ids = v.same_ids ∙ k.0 ∙ ap keys (unfold build in refl);
        same_start = v.same_start ∙ k.1 ∙ (unfold build in refl);
        edges = λ a ev. rw (v.same_transitions, k.2) (build-edge Model ds a ev);
        actions_built = v.actions_built;
        events_built = v.events_built;
        data_built = v.data_built;
      }
