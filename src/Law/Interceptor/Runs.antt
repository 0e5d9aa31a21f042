-- ===== src/Law/Interceptor/Runs.antt =====
-- vehicle/kernel/laws/interceptor.py with the authority: the law over any run of the kernel.
use steeleagle.Prelude.{
  String, ◌≡◌, refl, sym, ◌∙◌, ◌≢◌, ◌⊎◌, inl, inr, Bool, true, false, ◌||◌, Option, none, some,
  List, [], ◌∷◌, ◌++◌, arith, ◌==◌, Bool-cases, Option-cases, any, Result, ok, err, Result-cases,
  lookup, rsplit,
}
use steeleagle.Law.Kernel.{Kernel}
use steeleagle.Law.Authority.{
  Law, Failsafe, base_name, remote_name, Authority, current, base, check_equal, allows, next_state,
  run, enter_law, set_law, switch, match, extend_law, failsafe, start, is_state, allowed_lists,
}
use steeleagle.Law.Authority.Transitions.{
  present, known, remote, lost, set_law-Route, run-spec, run-state, set_law-true,
}
use steeleagle.Law.Authority.Placed.{IsPlaced, set_law-IsPlaced, match-IsPlaced}
use steeleagle.Law.Authority.Failsafes.{failsafe-IsPlaced}
use steeleagle.Law.Authority.Ruled.{IsRuled, set_law-IsRuled, match-IsRuled, failsafe-IsRuled}
use steeleagle.Law.Interceptor.{
  last_part, Incoming, identity_of, command_of, under_law, by_identity, intercept, Input, call,
  fail, change, step, steps, after_match,
}

module _ (k : Kernel) where
  open k use {Request}

  -- Once in a law, always in a law.
  abbrev InLaw : Authority k → Type 0
  InLaw a = a.state ≢ none

  enter_law-InLaw :
      (s : String) (law : Law) (a : Authority k) → InLaw a → InLaw (enter_law k s law a).1
  unfolding enter_law run
  enter_law-InLaw s law a h e = h (ground (arith, e))

  set_law-InLaw : (s : String) (a : Authority k) → InLaw a → InLaw (set_law k s a).1
  set_law-InLaw s a h = elim (set_law-Route k s a) [
    | present p e ↦ rw e h
    | known law p e ↦ rw e (enter_law-InLaw s law a h)
    | remote law p q e ↦ rw e (enter_law-InLaw remote_name law a h)
    | lost p e ↦ rw e h
  ]

  switch-InLaw :
      (next : Result (Option String)) (a : Authority k) → InLaw a → InLaw (switch k next a).1
  unfolding switch
  switch-InLaw (err e) a h = h
  switch-InLaw (ok none) a h = h
  switch-InLaw (ok (some s)) a h = elim (Bool-cases (s == "" || is_state k a.state s)) [
    | inl e ↦ rw e h
    | inr e ↦ rw e (set_law-InLaw s a h)
  ]

  failsafe-state : (f : Failsafe) (a : Authority k) → (failsafe k f a).1.state ≡ a.state
  unfolding failsafe extend_law run
  failsafe-state f a = ground arith

  -- The three facts together, kept by every input.
  pub record IsSound (a : Authority k) : Type 0 where
    pub placed : IsPlaced k a
    pub ruled : IsRuled k a
    pub in_law : a.state ≢ none

  after_match-same : (r : Result Bool × Authority k) → (after_match k r).1 ≡ r.1
  unfolding after_match
  after_match-same (ok b, a) = refl
  after_match-same (err e, a) = refl

  -- A call leaves the authority alone, or changes it as `match` does.
  Moved : Request → Authority k → Authority k → Type 0
  Moved request a a' = (a' ≡ a) ⊎ ((command : String) × (a' ≡ (match k command request a).1))

  under_law-Moved :
      (command : String) (request : Request) (a : Authority k)
      → Moved request a (under_law k command request a).1
  unfolding under_law Moved
  under_law-Moved command request a = elim (Result-cases (allows k a command request)) [
    | inr (e, p) ↦ inl (ground arith)
    | inl (false, p) ↦ inl (ground arith)
    | inl (true, p) ↦ inr (command, ground (arith, after_match-same (match k command request a)))
  ]

  by_identity-Moved :
      (identity command : String) (request : Request) (a : Authority k)
      → Moved request a (by_identity k identity command request a).1
  unfolding by_identity Moved
  by_identity-Moved identity command request a = elim (Bool-cases (identity == "")) [
    | inl p ↦ inl (ground arith)
    | inr p ↦ elim (Bool-cases (identity == "authority")) [
      | inl q ↦ inl (ground arith)
      | inr q ↦ elim (under_law-Moved command request a) [
        | inl e ↦ inl (ground arith)
        | inr (c, e) ↦ inr (c, ground arith)
      ]
    ]
  ]

  intercept-Moved : (c : Incoming k) (a : Authority k) → Moved c.request a (intercept k c a).1
  unfolding intercept Moved
  intercept-Moved c a = elim (Option-cases (identity_of k c.metadata)) [
    | inl p ↦ inl (ground arith)
    | inr (identity, p) ↦ elim (Option-cases (rsplit b'/' c.method_name)) [
      | inl q ↦ inl (ground arith)
      | inr ((url, method), q) ↦
          elim (by_identity-Moved identity (command_of k identity (last_part url) method) c.request
            a) [ inl e ↦ inl (ground arith) | inr (m, e) ↦ inr (m, ground arith) ]
    ]
  ]

  match-IsSound :
      (command : String) (request : Request) (a : Authority k)
      → IsSound a
      → IsSound (match k command request a).1
  unfolding match
  match-IsSound command request a h = record {
    placed = match-IsPlaced k command request a h.placed;
    ruled = match-IsRuled k command request a h.ruled;
    in_law = switch-InLaw (next_state k a command request) a h.in_law;
  }

  intercept-IsSound : (c : Incoming k) (a : Authority k) → IsSound a → IsSound (intercept k c a).1
  unfolding Moved
  intercept-IsSound c a h = elim (intercept-Moved c a) [
    | inl e ↦ rw e h
    | inr (m, e) ↦ rw e (match-IsSound m c.request a h)
  ]

  step-IsSound : (i : Input k) (a : Authority k) → IsSound a → IsSound (step k a i)
  unfolding step
  step-IsSound (call c) a h = intercept-IsSound c a h
  step-IsSound (fail f) a h = record {
    placed = failsafe-IsPlaced k f a h.placed;
    ruled = failsafe-IsRuled k f a h.ruled;
    in_law = λ e. h.in_law (sym (failsafe-state f a) ∙ e);
  }
  step-IsSound (change s) a h = record {
    placed = set_law-IsPlaced k s a h.placed;
    ruled = set_law-IsRuled k s a h.ruled;
    in_law = set_law-InLaw s a h.in_law;
  }

  steps-IsSound : (is : List (Input k)) (a : Authority k) → IsSound a → IsSound (steps k a is)
  unfolding steps
  steps-IsSound [] a h = h
  steps-IsSound (i ∷ is) a h = steps-IsSound is (step k a i) (step-IsSound i a h)

  allows_total :
      (a : Authority k) (command : String) (request : Request)
      → IsSound a
      → (b : Bool) × (allows k a command request ≡ ok b)
  unfolding allows allowed_lists IsRuled
  allows_total a command request h = elim (Option-cases a.state) [
    | inl p ↦ absurd (h.in_law p)
    | inr (s, p) ↦
        let (l, q) = h.placed.place s p in
        let (b, r) = h.placed.ground_law in
        let cur : current k a ≡ some l = unfold current in ground arith in
        let bas : base k a ≡ some b = unfold base in r in
        let (own, u) = h.ruled s l q in
        let (more, v) = h.ruled base_name b r in
        (any (check_equal k command request) (own ++ more), ground arith)
  ]

  start-set_law :
      (texts : List String) (a : Authority k)
      → (start k texts a).0 ≡ ok true
      → (a' : Authority k) × (a'.spec ≡ a.spec)
        × (a'.state ≡ a.state)
        × (start k texts a ≡ set_law k base_name a')
  unfolding start
  start-set_law [] a h = (a, refl, refl, refl)
  start-set_law (c ∷ cs) a h = elim (Result-cases (run k (c ∷ cs) a).0) [
    | inr (e, p) ↦ ground arith
    | inl (false, p) ↦ ground arith
    | inl (true, p) ↦
        ((run k (c ∷ cs) a).1, run-spec k (c ∷ cs) a, run-state k (c ∷ cs) a, ground arith)
  ]

  start-IsSound :
      (texts : List String) (a : Authority k) (b : Law)
      → a.state ≡ none
      → lookup base_name a.spec ≡ some b
      → IsRuled k a
      → (start k texts a).0 ≡ ok true
      → IsSound (start k texts a).1
  unfolding IsRuled
  start-IsSound texts a b p q u h =
      let (a', e, f, g) = start-set_law texts a h in
      let done : (set_law k base_name a').0 ≡ ok true = rw g at h in
      rw g (record {
        placed =
            set_law-IsPlaced k base_name a'
              (record { place = λ s r. absurd (ground arith); ground_law = (b, rw e q) });
        ruled = set_law-IsRuled k base_name a' (λ s l r. u s l (rw e at r));
        in_law = λ r. elim (set_law-true k base_name a' done) [
          | inl t ↦ ground arith
          | inr (u, t) ↦ ground arith
        ];
      })

  -- From a specification with a base law, each law of which has a list under `allowed` of its `rules`,
  -- once `start` has succeeded, whatever calls, failsafes and changes of law follow: the authority
  -- stands in a law of its specification, each law still has such a list, and asking whether a command
  -- is allowed never raises.
  pub started_run :
      (texts : List String) (a : Authority k) (is : List (Input k)) (b : Law) (command : String)
      (request : Request)
      → a.state ≡ none
      → lookup base_name a.spec ≡ some b
      → IsRuled k a
      → (start k texts a).0 ≡ ok true
      → IsSound (steps k (start k texts a).1 is)
        × ((answer : Bool) × (allows k (steps k (start k texts a).1 is) command request
              ≡ ok answer))
  started_run texts a is b command request p q u h =
      let sound : IsSound (steps k (start k texts a).1 is) =
        steps-IsSound is (start k texts a).1 (start-IsSound texts a b p q u h) in
      (sound, allows_total (steps k (start k texts a).1 is) command request sound)
