-- ===== src/Law/Authority/Ruled.antt =====
-- vehicle/kernel/laws/authority.py: the laws of the specification keep their rules.
use steeleagle.Prelude.{
  String, ◌≡◌, sym, ap, ◌∙◌, inl, inr, ◌||◌, Option, none, some, List, ◌++◌, arith, ◌==◌,
  Bool-cases, Option-cases, some_inj, Result, ok, err, Result-cases, lookup, insert, lookup-insert,
}
use steeleagle.Law.Kernel.{Kernel}
use steeleagle.Law.Authority.{
  Law, Failsafe, failsafe_name, Authority, allowed_of, current, base, next_state, run, set_law,
  switch, match, is_state, Listed, law_failsafes, base_failsafes, put_failsafe, extend_law,
  failsafe,
}
use steeleagle.Law.Authority.Transitions.{run-spec, set_law-spec}

module _ (k : Kernel) where
  -- Each law of the specification has a list under `allowed`.
  unfoldable pub IsRuled : Authority k → Type 0
  IsRuled a =
      (s : String) (law : Law)
      → lookup s a.spec ≡ some law
      → (l : List String) × (allowed_of law ≡ some l)

  IsRuled-same : (a a' : Authority k) → a'.spec ≡ a.spec → IsRuled a → IsRuled a'
  unfolding IsRuled
  IsRuled-same a a' e h s law p = h s law (ap (λ d. lookup s d) (sym e) ∙ p)

  pub set_law-IsRuled : (s : String) (a : Authority k) → IsRuled a → IsRuled (set_law k s a).1
  set_law-IsRuled s a h = IsRuled-same a (set_law k s a).1 (set_law-spec k s a) h

  switch-IsRuled :
      (next : Result (Option String)) (a : Authority k) → IsRuled a → IsRuled (switch k next a).1
  unfolding switch
  switch-IsRuled (err e) a h = h
  switch-IsRuled (ok none) a h = h
  switch-IsRuled (ok (some s)) a h = elim (Bool-cases (s == "" || is_state k a.state s)) [
    | inl e ↦ rw e h
    | inr e ↦ rw e (set_law-IsRuled s a h)
  ]

  pub match-IsRuled :
      (command : String) (request : k.Request) (a : Authority k)
      → IsRuled a
      → IsRuled (match k command request a).1
  unfolding match
  match-IsRuled command request a h = switch-IsRuled (next_state k a command request) a h

  put_failsafe-allowed :
      (name : String) (texts : List String) (law : Law)
      → allowed_of (put_failsafe k name texts law) ≡ allowed_of law
  unfolding allowed_of
  put_failsafe-allowed name texts law = elim (Option-cases law.failsafes) [
    | inl p ↦ rw p
    | inr (d, p) ↦ rw p
  ]

  insert-IsRuled :
      (s name : String) (law : Law) (texts : List String) (a : Authority k)
      → lookup s a.spec ≡ some law
      → IsRuled a
      → IsRuled (record a { spec = insert s (put_failsafe k name texts law) a.spec })
  unfolding IsRuled
  insert-IsRuled s name law texts a found h t l p = elim (Bool-cases (s == t)) [
    | inl q ↦
        let same : put_failsafe k name texts law ≡ l = some_inj (rw (lookup-insert, q) at p) in
        let (own, r) = h s law found in
        (own, ap allowed_of (sym same) ∙ (put_failsafe-allowed name texts law ∙ r))
    | inr q ↦ h t l (rw (lookup-insert, q) at p)
  ]

  extend_law-IsRuled :
      (name : String) (law : Law) (own : Listed k) (extra : List String) (a : Authority k)
      → current k a ≡ some law
      → IsRuled a
      → IsRuled (extend_law k name law own extra a)
  unfolding extend_law current
  extend_law-IsRuled name law own extra a c h = elim (Bool-cases own.shared) [
    | inr e ↦ rw e h
    | inl e ↦ elim (Option-cases a.state) [
      | inl p ↦ rw (e, p) h
      | inr (s, p) ↦ rw (e, p) (insert-IsRuled s name law (own.texts ++ extra) a (ground arith) h)
    ]
  ]

  pub failsafe-IsRuled : (f : Failsafe) (a : Authority k) → IsRuled a → IsRuled (failsafe k f a).1
  unfolding failsafe
  failsafe-IsRuled f a h = elim (Option-cases (current k a)) [
    | inl p ↦ IsRuled-same a (failsafe k f a).1 (ground arith) h
    | inr (law, p) ↦ elim (Option-cases (base k a)) [
      | inl q ↦ IsRuled-same a (failsafe k f a).1 (ground arith) h
      | inr (b, q) ↦ elim (Result-cases (base_failsafes k b (failsafe_name f))) [
        | inr (e, r) ↦ IsRuled-same a (failsafe k f a).1 (ground arith) h
        | inl (extra, r) ↦
            let own : Listed k = law_failsafes k law (failsafe_name f) in
            let a' : Authority k = extend_law k (failsafe_name f) law own extra a in
            let made : failsafe k f a ≡ run k (own.texts ++ extra) a' = ground arith in
            rw made (
              IsRuled-same a' (run k (own.texts ++ extra) a').1 (run-spec k (own.texts ++ extra) a')
                (extend_law-IsRuled (failsafe_name f) law own extra a p h))
      ]
    ]
  ]
