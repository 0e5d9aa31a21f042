-- ===== src/Law/Authority/Transitions.antt =====
-- What a change of the law does: when it succeeds, what it leaves alone, and that the authority
-- always stands in a law of its specification.
use steeleagle.Prelude.{
  String, ◌≡◌, refl, ◌≢◌, ◌⊎◌, inl, inr, true, Option, none, some, List, arith, eq_iff, Bool-cases,
  Option-cases, key_error, ok, err, Result-cases, lookup,
}
use steeleagle.Law.Kernel.{Kernel, Response}
use steeleagle.Law.Commands.{send_commands, all_completed}
use steeleagle.Law.Authority.{
  Law, remote_name, Authority, commands, run, enter_law, set_law, is_state,
}

module _ (k : Kernel) where
  -- Nothing but the log of calls differs.
  pub run-spec : (texts : List String) (a : Authority k) → (run k texts a).1.spec ≡ a.spec
  unfolding run
  run-spec texts a = refl

  pub run-state : (texts : List String) (a : Authority k) → (run k texts a).1.state ≡ a.state
  unfolding run
  run-state texts a = refl

  enter_law-true :
      (s : String) (law : Law) (a : Authority k)
      → (enter_law k s law a).0 ≡ ok true
      → (enter_law k s law a).1.state ≡ some s
  unfolding enter_law
  enter_law-true s law a h = ground arith

  enter_law-kept :
      (s : String) (law : Law) (a : Authority k)
      → (enter_law k s law a).0 ≢ ok true
      → (enter_law k s law a).1.state ≡ a.state
  unfolding enter_law run
  enter_law-kept s law a h = ground arith

  pub enter_law-spec :
      (s : String) (law : Law) (a : Authority k) → (enter_law k s law a).1.spec ≡ a.spec
  unfolding enter_law run
  enter_law-spec s law a = ground arith

  is_state-eq : (o : Option String) (s : String) → is_state k o s ≡ true → o ≡ some s
  unfolding is_state
  is_state-eq none s h = cc
  is_state-eq (some t) s h = ground (arith, eq_iff s t)

  -- The four ways through `set_law`.
  pub data Route (s : String) (a : Authority k) : Type 0 where
    present : a.state ≡ some s → set_law k s a ≡ (ok true, a) → Route s a
    known :
        (law : Law) → lookup s a.spec ≡ some law → set_law k s a ≡ enter_law k s law a → Route s a
    remote :
        (law : Law)
        → lookup s a.spec ≡ none
        → lookup remote_name a.spec ≡ some law
        → set_law k s a ≡ enter_law k remote_name law a
        → Route s a
    lost : lookup s a.spec ≡ none → set_law k s a ≡ (err key_error, a) → Route s a

  pub set_law-Route : (s : String) (a : Authority k) → Route s a
  unfolding set_law
  set_law-Route s a = elim (Bool-cases (is_state k a.state s)) [
    | inl e ↦ present (is_state-eq a.state s e) (rw e)
    | inr e ↦ elim (Option-cases (lookup s a.spec)) [
      | inr (law, p) ↦ known law p (ground arith)
      | inl p ↦ elim (Option-cases (lookup remote_name a.spec)) [
        | inr (law, q) ↦ remote law p q (ground arith)
        | inl q ↦ lost p (ground arith)
      ]
    ]
  ]

  -- When `set_law` succeeds, the authority is in the law that was asked for, or in 'REMOTE' if the
  -- specification has no such law.
  pub set_law-true :
      (s : String) (a : Authority k)
      → (set_law k s a).0 ≡ ok true
      → ((set_law k s a).1.state ≡ some s)
        ⊎ ((lookup s a.spec ≡ none) × ((set_law k s a).1.state ≡ some remote_name))
  set_law-true s a h = elim (set_law-Route s a) [
    | present p e ↦ inl (ground arith)
    | known law p e ↦ inl (ground (arith, enter_law-true s law a))
    | remote law p q e ↦ inr (p, ground (arith, enter_law-true remote_name law a))
    | lost p e ↦ ground arith
  ]

  -- When `set_law` does not succeed, by a response that is not 'completed' or by an exception, the
  -- authority stays in the law it was in.
  pub set_law-kept :
      (s : String) (a : Authority k)
      → (set_law k s a).0 ≢ ok true
      → (set_law k s a).1.state ≡ a.state
  set_law-kept s a h = elim (set_law-Route s a) [
    | present p e ↦ ground arith
    | known law p e ↦ ground (arith, enter_law-kept s law a)
    | remote law p q e ↦ ground (arith, enter_law-kept remote_name law a)
    | lost p e ↦ ground arith
  ]

  pub set_law-spec : (s : String) (a : Authority k) → (set_law k s a).1.spec ≡ a.spec
  set_law-spec s a = elim (set_law-Route s a) [
    | present p e ↦ ground arith
    | known law p e ↦ ground (arith, enter_law-spec s law a)
    | remote law p q e ↦ ground (arith, enter_law-spec remote_name law a)
    | lost p e ↦ ground arith
  ]

  run-completed :
      (texts : List String) (a : Authority k)
      → (run k texts a).0 ≡ ok true
      → (rs : List Response) × ((send_commands k "authority" (commands k texts) a.sent).0 ≡ ok rs)
        × (all_completed rs ≡ true)
  unfolding run
  run-completed texts a h =
      elim (Result-cases (send_commands k "authority" (commands k texts) a.sent).0) [
        | inl (rs, p) ↦ (rs, p, ground arith)
        | inr (e, p) ↦ ground arith
      ]

  enter_law-run :
      (s : String) (law : Law) (a : Authority k)
      → (enter_law k s law a).0 ≡ ok true
      → (texts : List String) × (law.enter ≡ some texts) × ((run k texts a).0 ≡ ok true)
  unfolding enter_law run send_commands
  enter_law-run s law a h = elim (Option-cases law.enter) [
    | inl p ↦ ground arith
    | inr (texts, p) ↦ (texts, p, ground arith)
  ]

  -- What a completed change into a law has done: each enter command of that law was answered, and
  -- every answer was 'completed'.
  pub record Entered (s : String) (a a' : Authority k) : Type 0 where
    pub name : String
    pub law : Law
    pub found : lookup name a.spec ≡ some law
    pub wanted : (name ≡ s) ⊎ ((lookup s a.spec ≡ none) × (name ≡ remote_name))
    pub now : a'.state ≡ some name
    pub texts : List String
    pub on_enter : law.enter ≡ some texts
    pub responses : List Response
    pub answered : (send_commands k "authority" (commands k texts) a.sent).0 ≡ ok responses
    pub completed : all_completed responses ≡ true

  enter_law-Entered :
      (s name : String) (law : Law) (a : Authority k)
      → lookup name a.spec ≡ some law
      → (name ≡ s) ⊎ ((lookup s a.spec ≡ none) × (name ≡ remote_name))
      → (enter_law k name law a).0 ≡ ok true
      → Entered s a (enter_law k name law a).1
  enter_law-Entered s name law a f w h =
      let (texts, e, r) = enter_law-run name law a h in
      let (rs, p, q) = run-completed texts a r in
      record {
        name = name;
        law = law;
        found = f;
        wanted = w;
        now = enter_law-true name law a h;
        texts = texts;
        on_enter = e;
        responses = rs;
        answered = p;
        completed = q;
      }

  -- When `set_law` succeeds and the authority was not already in the law, it is now in the law that
  -- was asked for, or in 'REMOTE' if the specification has no such law, and each enter command of
  -- that law was answered with 'completed'.
  pub set_law-Entered :
      (s : String) (a : Authority k)
      → a.state ≢ some s
      → (set_law k s a).0 ≡ ok true
      → Entered s a (set_law k s a).1
  set_law-Entered s a ne h = elim (set_law-Route s a) [
    | present p e ↦ absurd (ne p)
    | known law p e ↦ rw e (enter_law-Entered s s law a p (inl refl) (rw e at h))
    | remote law p q e ↦ rw e (enter_law-Entered s remote_name law a q (inr (p, refl)) (rw e at h))
    | lost p e ↦ ground arith
  ]
