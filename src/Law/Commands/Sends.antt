-- ===== src/Law/Commands/Sends.antt =====
-- What `_send_commands` answers and what it sends.
use steeleagle.Prelude.{
  ◌≤◌, String, ◌≡◌, refl, sym, ◌∙◌, ◌≢◌, inl, inr, List, [], ◌∷◌, ◌++◌, arith, length,
  length-append, Fault, key_error, ok, err, Result-cases,
}
use mathlib.Core.List.{append_assoc, append-nil}
use steeleagle.Law.Kernel.{Kernel, Call, Response}
use steeleagle.Law.Commands.{Command, resolve, dispatch, send_one, send_commands}

-- Everything in the list was sent by `who`.
abbrev pub SentBy {ℓ} : {R : Type ℓ} → (R → String) → String → List R → Type ℓ
SentBy id who [] = Unit
SentBy id who (c ∷ cs) = (id c ≡ who) × SentBy id who cs

module _ (k : Kernel) where
  open k use {Request, Packed}

  abbrev Log : Type 0
  Log = List (Call Request)

  abbrev pub sender : Call Request → String
  sender c = c.identity

  -- When `_send_commands` returns, it returns one response for each command.
  length-send_commands :
      (identity : String) (cs : List (Command Packed)) (log : Log) (rs : List Response)
      → (send_commands k identity cs log).0 ≡ ok rs
      → length rs ≡ length cs
  unfolding send_commands
  length-send_commands identity [] log rs h = ground arith
  length-send_commands identity (c ∷ cs) log rs h =
      elim (Result-cases (send_one k identity c log).0) [
        | inr (e, p) ↦ ground arith
        | inl (r, p) ↦
            elim (Result-cases (send_commands k identity cs (send_one k identity c log).1).0) [
              | inr (e, q) ↦ ground arith
              | inl (ts, q) ↦
                  ground (arith, length-send_commands identity cs (send_one k identity c log).1 ts)
            ]
      ]

  dispatch_err-log :
      (identity : String) (e : Fault) (log : Log) → (dispatch k identity (err e) log).1 ≡ log
  unfolding dispatch
  dispatch_err-log identity key_error log = refl
  dispatch_err-log identity e log = refl

  -- A round of the loop sends at most one call, in the name that it is given.
  send_one-log :
      (identity : String) (c : Command Packed) (log : Log)
      → (new : Log) × ((send_one k identity c log).1 ≡ log ++ new)
        × SentBy sender identity new
        × (length new ≤ 1)
  unfolding send_one
  send_one-log identity c log = elim (Result-cases (resolve k c)) [
    | inl (t, p) ↦ (
      record { identity = identity; service = t.service; method = t.method; request = t.request }
          ∷ [],
      rw (p, dispatch),
      (refl, tt),
      omega arith,
    )
    | inr (e, p) ↦
        ([], rw p (dispatch_err-log identity e log ∙ sym (append-nil log)), tt, omega arith)
  ]

  SentBy-append :
      (identity : String) (xs ys : Log)
      → SentBy sender identity xs
      → SentBy sender identity ys
      → SentBy sender identity (xs ++ ys)
  SentBy-append identity [] ys h g = g
  SentBy-append identity (x ∷ xs) ys h g = (h.0, SentBy-append identity xs ys h.1 g)

  -- Whether it returns or raises, `_send_commands` only adds calls to what was sent before, at most
  -- one for each command, and every one of them in the name that it was given.
  pub send_commands-SentBy :
      (identity : String) (cs : List (Command Packed)) (log : Log)
      → (new : Log) × ((send_commands k identity cs log).1 ≡ log ++ new)
        × SentBy sender identity new
        × (length new ≤ length cs)
  unfolding send_commands
  send_commands-SentBy identity [] log = ([], sym (append-nil log), tt, omega arith)
  send_commands-SentBy identity (c ∷ cs) log =
      let (a, p, h, m) = send_one-log identity c log in
      let (b, q, g, n) = send_commands-SentBy identity cs (send_one k identity c log).1 in
      elim (Result-cases (send_one k identity c log).0) [
        | inr (e, r) ↦ (a, ground (arith, p, r), h, omega arith)
        | inl (t, r) ↦ (
          a ++ b,
          ground (arith, p, q, r, append_assoc log a b),
          SentBy-append identity a b h g,
          omega (arith, length-append a b),
        )
      ]

  dispatch_raises :
      (identity : String) (log : Log) (e : Fault)
      → e ≢ key_error
      → dispatch k identity (err e) log ≡ (err e, log)
  unfolding dispatch
  dispatch_raises identity log key_error ne = absurd (ne refl)
  dispatch_raises identity log e ne = refl

  send_one_raises :
      (identity : String) (bad : Command Packed) (log : Log) (e : Fault)
      → resolve k bad ≡ err e
      → e ≢ key_error
      → send_one k identity bad log ≡ (err e, log)
  unfolding send_one
  send_one_raises identity bad log e p ne = rw p (dispatch_raises identity log e ne)

  -- A command that raises anything but a KeyError before it is sent ends the loop: the commands
  -- behind it are not sent, and the responses to those before it are lost.
  pub send_commands-raises :
      (identity : String) (before after : List (Command Packed)) (bad : Command Packed) (log : Log)
      (e : Fault) (rs : List Response)
      → (send_commands k identity before log).0 ≡ ok rs
      → resolve k bad ≡ err e
      → e ≢ key_error
      → send_commands k identity (before ++ bad ∷ after) log
        ≡ (err e, (send_commands k identity before log).1)
  unfolding send_commands
  send_commands-raises identity [] after bad log e rs h p ne =
      ground (arith, send_one_raises identity bad log e p ne)
  send_commands-raises identity (c ∷ cs) after bad log e rs h p ne =
      elim (Result-cases (send_one k identity c log).0) [
        | inr (f, r) ↦ ground arith
        | inl (t, r) ↦
            elim (Result-cases (send_commands k identity cs (send_one k identity c log).1).0) [
              | inr (f, q) ↦ ground arith
              | inl (ts, q) ↦ ground (
                arith,
                send_commands-raises identity cs after bad (send_one k identity c log).1 e ts,
              )
            ]
      ]
