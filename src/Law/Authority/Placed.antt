-- ===== src/Law/Authority/Placed.antt =====
-- vehicle/kernel/laws/authority.py: the authority stands in a law of its specification.
use steeleagle.Prelude.{
  String, ◌≡◌, sym, ◌∙◌, subst, ◌⊎◌, inl, inr, ◌||◌, Option, none, some, List, arith, ◌==◌,
  Bool-cases, some_inj, Result, ok, err, lookup,
}
use steeleagle.Law.Kernel.{Kernel}
use steeleagle.Law.Authority.{
  Law, base_name, remote_name, Authority, next_state, run, enter_law, set_law, switch, match,
  is_state,
}
use steeleagle.Law.Authority.Transitions.{
  run-spec, run-state, enter_law-spec, present, known, remote, lost, set_law-Route,
}

module _ (k : Kernel) where
  -- The law that the authority stands in, and the base law, are laws of the specification.
  pub record IsPlaced (a : Authority k) : Type 0 where
    pub place : (s : String) → a.state ≡ some s → (l : Law) × (lookup s a.spec ≡ some l)
    pub ground_law : (l : Law) × (lookup base_name a.spec ≡ some l)

  IsPlaced-same :
      (a a' : Authority k) → a'.spec ≡ a.spec → a'.state ≡ a.state → IsPlaced a → IsPlaced a'
  IsPlaced-same a a' p q h = record {
    place = λ s e. rw p (h.place s (sym q ∙ e));
    ground_law = rw p h.ground_law;
  }

  IsPlaced-at :
      (a a' : Authority k) (s : String) (l : Law)
      → a'.spec ≡ a.spec
      → a'.state ≡ some s
      → lookup s a.spec ≡ some l
      → IsPlaced a
      → IsPlaced a'
  IsPlaced-at a a' s l p q f h = record {
    place = λ t e. (l, rw p (subst (λ z. lookup z a.spec ≡ some l) (some_inj (sym q ∙ e)) f));
    ground_law = rw p h.ground_law;
  }

  enter_law-state :
      (s : String) (law : Law) (a : Authority k)
      → ((enter_law k s law a).1.state ≡ some s) ⊎ ((enter_law k s law a).1.state ≡ a.state)
  unfolding enter_law run
  enter_law-state s law a = ground arith

  enter_law-IsPlaced :
      (s : String) (law : Law) (a : Authority k)
      → lookup s a.spec ≡ some law
      → IsPlaced a
      → IsPlaced (enter_law k s law a).1
  enter_law-IsPlaced s law a f h = elim (enter_law-state s law a) [
    | inl e ↦ IsPlaced-at a (enter_law k s law a).1 s law (enter_law-spec k s law a) e f h
    | inr e ↦ IsPlaced-same a (enter_law k s law a).1 (enter_law-spec k s law a) e h
  ]

  pub set_law-IsPlaced : (s : String) (a : Authority k) → IsPlaced a → IsPlaced (set_law k s a).1
  set_law-IsPlaced s a h = elim (set_law-Route k s a) [
    | present p e ↦ rw e h
    | known law p e ↦ rw e (enter_law-IsPlaced s law a p h)
    | remote law p q e ↦ rw e (enter_law-IsPlaced remote_name law a q h)
    | lost p e ↦ rw e h
  ]

  switch-IsPlaced :
      (next : Result (Option String)) (a : Authority k) → IsPlaced a → IsPlaced (switch k next a).1
  unfolding switch
  switch-IsPlaced (err e) a h = h
  switch-IsPlaced (ok none) a h = h
  switch-IsPlaced (ok (some s)) a h = elim (Bool-cases (s == "" || is_state k a.state s)) [
    | inl e ↦ rw e h
    | inr e ↦ rw e (set_law-IsPlaced s a h)
  ]

  pub match-IsPlaced :
      (command : String) (request : k.Request) (a : Authority k)
      → IsPlaced a
      → IsPlaced (match k command request a).1
  unfolding match
  match-IsPlaced command request a h = switch-IsPlaced (next_state k a command request) a h

  pub run-IsPlaced :
      (texts : List String) (a : Authority k) → IsPlaced a → IsPlaced (run k texts a).1
  run-IsPlaced texts a h =
      IsPlaced-same a (run k texts a).1 (run-spec k texts a) (run-state k texts a) h
