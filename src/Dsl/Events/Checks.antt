-- ===== src/Dsl/Events/Checks.antt =====
-- sdk/src/steeleagle_sdk/dsl/types/events/singulars/singulars.py and dsl/types/utils.py: the loops of
-- the telemetry events, over all the messages that they fetch.
use steeleagle.Prelude.{
  ℕ, suc, ◌≡◌, sym, subst, ◌↔◌, inl, inr, true, false, Option, some, List, [], ◌∷◌, arith,
  Bool-cases, Option-cases,
}
use steeleagle.Prelude.Int.{ℤ}
use steeleagle.Dsl.Events.{Telemetry, given, Event, fits, check}
use steeleagle.Dsl.Events.Fields.{given_iff}
use steeleagle.Dsl.Events.Rounds.{IsReached}
use steeleagle.Dsl.Events.Reached.{fits_iff}

module _ (gc : ℤ → ℤ → ℤ → ℤ → ℕ) where
  -- the message of a round reports the event
  abbrev pub Reports : Event → Option Telemetry → Type 0
  Reports ev o = (tel : Telemetry) × (o ≡ some tel) × IsReached gc ev tel

  Reports-iff : (ev : Event) (o : Option Telemetry) → (given o (fits gc ev) ≡ true) ↔ Reports ev o
  Reports-iff ev o = (
    λ h. let (tel, e, f) = (given_iff o _).0 h in (tel, e, (fits_iff gc ev tel).0 f),
    λ (tel, e, r). (given_iff o _).1 (tel, e, (fits_iff gc ev tel).1 r),
  )

  -- The round with this number is the first whose message reports the event.
  pub data FirstReport (ev : Event) : List (Option Telemetry) → ℕ → Type 0 where
    now :
        {o : Option Telemetry} {feed : List (Option Telemetry)}
        → Reports ev o
        → FirstReport ev (o ∷ feed) 0
    later :
        {o : Option Telemetry} {feed : List (Option Telemetry)} {n : ℕ}
        → ¬ Reports ev o
        → FirstReport ev feed n
        → FirstReport ev (o ∷ feed) (suc n)

  not_reported : (ev : Event) (o : Option Telemetry) → given o (fits gc ev) ≡ false → ¬ Reports ev o
  not_reported ev o e r = absurd (let f = (Reports-iff ev o).1 r in cc)

  unreported : (ev : Event) (o : Option Telemetry) → ¬ Reports ev o → given o (fits gc ev) ≡ false
  unreported ev o h = elim (Bool-cases (given o (fits gc ev))) [
    | inl e ↦ absurd (h ((Reports-iff ev o).0 e))
    | inr e ↦ e
  ]

  returns-First :
      (ev : Event) (feed : List (Option Telemetry)) (n : ℕ)
      → check gc ev feed ≡ some n
      → FirstReport ev feed n
  unfolding check
  returns-First ev [] n h = absurd cc
  returns-First ev (o ∷ feed) n h = elim (Bool-cases (given o (fits gc ev))) [
    | inl e ↦
        let z : n ≡ 0 = ground (arith, h, e) in
        subst (FirstReport ev (o ∷ feed)) (sym z) (now ((Reports-iff ev o).0 e))
    | inr e ↦ elim (Option-cases (check gc ev feed)) [
      | inl p ↦ absurd (ground (arith, h, e, p))
      | inr (m, p) ↦
          let z : n ≡ suc m = ground (arith, h, e, p) in
          subst (FirstReport ev (o ∷ feed)) (sym z)
            (later (not_reported ev o e) (returns-First ev feed m p))
    ]
  ]

  first-returns :
      {ev : Event} {feed : List (Option Telemetry)} {n : ℕ}
      → FirstReport ev feed n
      → check gc ev feed ≡ some n
  unfolding check
  first-returns {ev = ev} (now {o = o} r) = ground (arith, (Reports-iff ev o).1 r)
  first-returns {ev = ev} (later {o = o} nr f) = ground (arith, unreported ev o nr, first-returns f)

  -- A check returns in a round exactly when that round's message is the first of all that were fetched
  -- to report its event; so it returns at all as soon as one of them does.
  pub check-First :
      (ev : Event) (feed : List (Option Telemetry)) (n : ℕ)
      → (check gc ev feed ≡ some n) ↔ FirstReport ev feed n
  check-First ev feed n = (returns-First ev feed n, first-returns)
