-- ===== src/Law/Authority/Failsafes.antt =====
-- `failsafe`, and the list in the law that `commands += …` changes in place.
use steeleagle.Prelude.{
  ℕ, zero, suc, String, ◌≡◌, refl, ◌≢◌, inl, inr, some, List, [], ◌++◌, arith, ◌==◌, eq_refl,
  Bool-cases, Option-cases, test_of_ne, Fault, key_error, type_error, err, Result-cases, Dict,
  lookup, insert, lookup-insert,
}
use mathlib.Core.List.{append_assoc, append-nil}
use steeleagle.Law.Kernel.{Kernel}
use steeleagle.Law.Authority.{
  Law, Failsafe, base_name, Authority, current, base, run, Listed, law_failsafes, base_failsafes,
  put_failsafe, extend_law, failsafe, failsafe_name,
}
use steeleagle.Law.Authority.Placed.{IsPlaced, run-IsPlaced}

module _ (k : Kernel) where
  -- The lists of commands that the current law and the base law have for a failsafe.
  pub record Lists (f : Failsafe) (a : Authority k) (s : String) (texts extra : List String)
      : Type 0 where
    pub at : a.state ≡ some s
    pub law : Law
    pub law_found : lookup s a.spec ≡ some law
    pub own : Dict (List String)
    pub has_own : law.failsafes ≡ some own
    pub texts_found : lookup (failsafe_name f) own ≡ some texts
    pub base_law : Law
    pub base_found : lookup base_name a.spec ≡ some base_law
    pub fallback : Dict (List String)
    pub has_fallback : base_law.failsafes ≡ some fallback
    pub extra_found : lookup (failsafe_name f) fallback ≡ some extra

  module _ {f : Failsafe} {a : Authority k} {s : String} {texts extra : List String}
      (h : Lists f a s texts extra) where
    pub extended : Authority k
    extended = record a {
      spec =
          insert s
            (record (h.law) { failsafes = some (insert (failsafe_name f) (texts ++ extra) h.own) })
            a.spec;
    }

    -- The failsafe sends the law's own commands and behind them those of the base law, and it writes
    -- this longer list into the law.
    pub failsafe-extended : failsafe k f a ≡ run k (texts ++ extra) extended
    unfolding failsafe extended current base law_failsafes base_failsafes extend_law run
    failsafe-extended = ground (
      arith, h.at, h.law_found, h.base_found, h.has_fallback, h.extra_found, h.has_own,
      h.texts_found,
    )

    failsafe-Lists : s ≢ base_name → Lists f (failsafe k f a).1 s (texts ++ extra) extra
    unfolding extended
    failsafe-Lists ne = rw failsafe-extended (
        unfold run in
        record {
          at = h.at;
          law = record (h.law) {
            failsafes = some (insert (failsafe_name f) (texts ++ extra) h.own);
          };
          law_found = rw (lookup-insert, eq_refl);
          own = insert (failsafe_name f) (texts ++ extra) h.own;
          has_own = refl;
          texts_found = rw (lookup-insert, eq_refl);
          base_law = h.base_law;
          base_found = rw (lookup-insert, test_of_ne s base_name ne) h.base_found;
          fallback = h.fallback;
          has_fallback = h.has_fallback;
          extra_found = h.extra_found;
        })

  -- the authority after a number of failsafes of one kind
  pub failsafes : ℕ → Failsafe → Authority k → Authority k
  failsafes zero f a = a
  failsafes (suc n) f a = failsafes n f (failsafe k f a).1

  unfoldable pub repeated : ℕ → List String → List String
  repeated zero xs = []
  repeated (suc n) xs = xs ++ repeated n xs

  -- Failsafes pile up: after `n` of one kind in a law that lists commands of its own for it, the law
  -- lists its commands followed by `n` copies of those of the base law, and the next failsafe sends
  -- all of them.
  pub failsafes-Lists :
      (n : ℕ) (f : Failsafe) (a : Authority k) (s : String) (texts extra : List String)
      → s ≢ base_name
      → Lists f a s texts extra
      → Lists f (failsafes n f a) s (texts ++ repeated n extra) extra
  unfolding failsafes repeated
  failsafes-Lists zero f a s texts extra ne h = rw append-nil h
  failsafes-Lists (suc n) f a s texts extra ne h =
      rw (← append_assoc texts extra (repeated n extra))
        (failsafes-Lists n f (failsafe k f a).1 s (texts ++ extra) extra ne (failsafe-Lists h ne))

  -- In a law other than the base law, where both list commands for a kind of failsafe: after `n`
  -- failsafes of that kind, the next one sends the law's own commands and then the base law's
  -- commands `n + 1` times, and its result is that of sending them.
  pub failsafes-run :
      (n : ℕ) (f : Failsafe) (a : Authority k) (s : String) (texts extra : List String)
      → s ≢ base_name
      → Lists f a s texts extra
      → ((failsafe k f (failsafes n f a)).0
          ≡ (run k ((texts ++ repeated n extra) ++ extra) (failsafes n f a)).0)
        × ((failsafe k f (failsafes n f a)).1.sent
            ≡ (run k ((texts ++ repeated n extra) ++ extra) (failsafes n f a)).1.sent)
  failsafes-run n f a s texts extra ne h =
      let g : Lists f (failsafes n f a) s (texts ++ repeated n extra) extra =
        failsafes-Lists n f a s texts extra ne h in
      rw (failsafe-extended g) (unfold run extended in (refl, refl))

  insert-IsPlaced :
      (s : String) (law : Law) (a : Authority k)
      → IsPlaced k a
      → IsPlaced k (record a { spec = insert s law a.spec })
  insert-IsPlaced s law a h = record {
    place = λ t e. found t (h.place t e);
    ground_law = found base_name h.ground_law;
  }
    where
      found :
          (t : String)
          → (l : Law) × (lookup t a.spec ≡ some l)
          → (l : Law) × (lookup t (insert s law a.spec) ≡ some l)
      found t (l, p) = elim (Bool-cases (s == t)) [
        | inl q ↦ (law, rw (lookup-insert, q))
        | inr q ↦ (l, rw (lookup-insert, q) p)
      ]

  extend_law-IsPlaced :
      (name : String) (law : Law) (own : Listed k) (extra : List String) (a : Authority k)
      → IsPlaced k a
      → IsPlaced k (extend_law k name law own extra a)
  unfolding extend_law
  extend_law-IsPlaced name law own extra a h = elim (Bool-cases own.shared) [
    | inr e ↦ rw e h
    | inl e ↦ elim (Option-cases a.state) [
      | inl p ↦ rw (e, p) h
      | inr (s, p) ↦
          rw (e, p) (insert-IsPlaced s (put_failsafe k name (own.texts ++ extra) law) a h)
    ]
  ]

  pub failsafe-IsPlaced :
      (f : Failsafe) (a : Authority k) → IsPlaced k a → IsPlaced k (failsafe k f a).1
  unfolding failsafe
  failsafe-IsPlaced f a h = elim (Option-cases (current k a)) [
    | inl p ↦ stays type_error (ground arith)
    | inr (law, p) ↦ elim (Option-cases (base k a)) [
      | inl q ↦ stays key_error (ground arith)
      | inr (b, q) ↦ elim (Result-cases (base_failsafes k b (failsafe_name f))) [
        | inr (e, r) ↦ stays e (ground arith)
        | inl (extra, r) ↦
            let own : Listed k = law_failsafes k law (failsafe_name f) in
            let a' : Authority k = extend_law k (failsafe_name f) law own extra a in
            let eq : failsafe k f a ≡ run k (own.texts ++ extra) a' = ground arith in
            rw eq (
              run-IsPlaced k (own.texts ++ extra) a'
                (extend_law-IsPlaced (failsafe_name f) law own extra a h))
      ]
    ]
  ]
    where
      stays : (e : Fault) → failsafe k f a ≡ (err e, a) → IsPlaced k (failsafe k f a).1
      stays e eq = rw eq h
