-- ===== src/Law/Interceptor/Safety.antt =====
-- vehicle/kernel/laws/interceptor.py: what the interceptor lets through.
use steeleagle.Prelude.{
  String, ◌≡◌, ◌≢◌, ◌⊎◌, inl, inr, true, false, some, arith, eq_iff, Option-cases, str_cases,
  ne_of_test, ok, Result-cases, rsplit,
}
use steeleagle.Law.Kernel.{Kernel}
use steeleagle.Law.Authority.{Authority, allows, match}
use steeleagle.Law.Interceptor.{
  denied, handled, last_part, Incoming, identity_of, command_of, under_law, by_identity, intercept,
  after_match,
}

module _ (k : Kernel) where
  open k use {Request}

  under_law-handled :
      (command : String) (request : Request) (a : Authority k)
      → (under_law k command request a).0 ≡ ok handled
      → allows k a command request ≡ ok true
  unfolding under_law
  under_law-handled command request a h = elim (Result-cases (allows k a command request)) [
    | inr (e, p) ↦ ground arith
    | inl (true, p) ↦ p
    | inl (false, p) ↦ ground arith
  ]

  under_law-denied :
      (command : String) (request : Request) (a : Authority k)
      → (under_law k command request a).0 ≡ ok denied
      → (under_law k command request a).1 ≡ a
  unfolding under_law after_match
  under_law-denied command request a h = elim (Result-cases (allows k a command request)) [
    | inr (e, p) ↦ ground arith
    | inl (false, p) ↦ ground arith
    | inl (true, p) ↦ elim (Result-cases (match k command request a).0) [
      | inr (e, q) ↦ ground arith
      | inl (b, q) ↦ ground arith
    ]
  ]

  by_identity-granted :
      (identity command : String) (request : Request) (a : Authority k)
      → (by_identity k identity command request a).0 ≡ ok handled
      → (identity ≢ "") × ((identity ≡ "authority") ⊎ (allows k a command request ≡ ok true))
  unfolding by_identity
  by_identity-granted identity command request a h = elim (str_cases identity "") [
    | inl p ↦ absurd (ground (arith, eq_iff identity ""))
    | inr p ↦ (
      ne_of_test identity "" p,
      elim (str_cases identity "authority") [
        | inl q ↦ inl q
        | inr q ↦ inr (under_law-handled command request a (ground arith))
      ],
    )
  ]

  by_identity-denied :
      (identity command : String) (request : Request) (a : Authority k)
      → (by_identity k identity command request a).0 ≡ ok denied
      → (by_identity k identity command request a).1 ≡ a
  unfolding by_identity
  by_identity-denied identity command request a h =
      ground (arith, under_law-denied command request a)

  -- A call that reaches its service.
  pub record Passed (c : Incoming k) (a : Authority k) : Type 0 where
    pub identity : String
    pub known : identity_of k c.metadata ≡ some identity
    pub named : identity ≢ ""
    pub service_url : String
    pub method : String
    pub parts : rsplit b'/' c.method_name ≡ some (service_url, method)
    pub granted :
        (identity ≡ "authority")
        ⊎ (allows k a (command_of k identity (last_part service_url) method) c.request ≡ ok true)

  -- A call reaches its service only with an identity that is not empty, and only if that is the
  -- authority's or the law allows the command.
  pub intercept-Passed :
      (c : Incoming k) (a : Authority k) → (intercept k c a).0 ≡ ok handled → Passed c a
  unfolding intercept
  intercept-Passed c a h = elim (Option-cases (identity_of k c.metadata)) [
    | inl p ↦ ground arith
    | inr (identity, p) ↦ elim (Option-cases (rsplit b'/' c.method_name)) [
      | inl q ↦ ground arith
      | inr ((url, method), q) ↦
          let g =
            by_identity-granted identity (command_of k identity (last_part url) method) c.request a
              (ground arith) in
          record {
            identity = identity;
            known = p;
            named = g.0;
            service_url = url;
            method = method;
            parts = q;
            granted = g.1;
          }
    ]
  ]

  -- A call that is denied leaves the law, the specification and the log of calls as they were.
  intercept-denied :
      (c : Incoming k) (a : Authority k) → (intercept k c a).0 ≡ ok denied → (intercept k c a).1 ≡ a
  unfolding intercept
  intercept-denied c a h = elim (Option-cases (identity_of k c.metadata)) [
    | inl p ↦ ground arith
    | inr (identity, p) ↦ elim (Option-cases (rsplit b'/' c.method_name)) [
      | inl q ↦ ground arith
      | inr ((url, method), q) ↦ ground (
        arith,
        by_identity-denied identity (command_of k identity (last_part url) method) c.request a,
      )
    ]
  ]
