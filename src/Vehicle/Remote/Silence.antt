-- ===== src/Vehicle/Remote/Silence.antt =====
-- vehicle/kernel/handlers/command_handler.py: what the loop does while no message arrives.
use steeleagle.Prelude.{
  ℕ, ◌≡◌, refl, sym, ap, ◌∙◌, subst, inl, inr, Bool, true, false, ◌&&◌, none, List, [], ◌∷◌, map,
  arith, if◌then◌else◌, Bool-cases, any, Result, ok, err, Result-cases,
}
use steeleagle.Law.Kernel.{Kernel, Response}
use steeleagle.Law.Commands.{proto, send_commands, send_one}
use steeleagle.Law.Authority.{Authority, dc_server, failsafe, is_state, remote_name}
use steeleagle.Vehicle.Remote.{
  CommandRequest, CommandResponse, first_result, send_results, Poll, silent, message, Loop, is_late,
  after_failsafe, on_silence, round, rounds,
}

module _ (k : Kernel) where
  -- The failsafe is due at a poll.
  abbrev pub is_due : ℕ → Loop k → ℕ → Bool
  is_due timeout l now =
      is_late timeout l.last_manual_command_ts now && is_state k l.authority.state remote_name

  forgotten :
      (timeout : ℕ) (nows : List ℕ) (l : Loop k)
      → l.last_manual_command_ts ≡ none
      → rounds k timeout (map silent nows) l ≡ l
  unfolding rounds
  forgotten timeout [] l h = refl
  forgotten timeout (n ∷ ns) l h =
      let same : round k timeout (silent n) l ≡ l =
        unfold round on_silence is_late in ground (arith, h) in
      subst (λ x. rounds k timeout (map silent ns) x ≡ l) (sym same) (forgotten timeout ns l h)

  dead :
      (timeout : ℕ) (ps : List (Poll k)) (l : Loop k) → l.alive ≡ false → rounds k timeout ps l ≡ l
  unfolding rounds
  dead timeout [] l h = refl
  dead timeout (silent n ∷ ps) l h =
      let same : round k timeout (silent n) l ≡ l = unfold round in ground arith in
      rw same (dead timeout ps l h)
  dead timeout (message n m ∷ ps) l h =
      let same : round k timeout (message n m) l ≡ l = unfold round in ground arith in
      rw same (dead timeout ps l h)

  fired :
      (timeout : ℕ) (nows : List ℕ) (l : Loop k) (r : Result Bool × Authority k)
      → rounds k timeout (map silent nows) (after_failsafe k r l) ≡ after_failsafe k r l
  unfolding after_failsafe
  fired timeout nows l (ok b, a) = forgotten timeout nows _ refl
  fired timeout nows l (err e, a) = dead timeout (map silent nows) _ refl

  -- Over a row of polls that deliver nothing, a loop that runs fires the failsafe of a lost server
  -- exactly once if it is due at one of them, whether the failsafe then raises or not, and otherwise
  -- stays as it is.
  pub silence-once :
      (timeout : ℕ) (nows : List ℕ) (l : Loop k)
      → l.alive ≡ true
      → rounds k timeout (map silent nows) l ≡ (
          if any (is_due timeout l) nows
          then after_failsafe k (failsafe k dc_server l.authority) l
          else l)
  unfolding rounds
  silence-once timeout [] l h = refl
  silence-once timeout (n ∷ ns) l h = elim (Bool-cases (is_due timeout l n)) [
    | inl e ↦
        let once : round k timeout (silent n) l
            ≡ after_failsafe k (failsafe k dc_server l.authority) l =
          unfold round on_silence in ground (arith, e, h) in
        rw e (
          ap (rounds k timeout (map silent ns)) once
          ∙ fired timeout ns l (failsafe k dc_server l.authority))
    | inr e ↦
        let same : round k timeout (silent n) l ≡ l =
          unfold round on_silence in ground (arith, e, h) in
        rw e (ap (rounds k timeout (map silent ns)) same ∙ silence-once timeout ns l h)
  ]

  -- the reply to a command, by what sending it alone gives
  abbrev pub reply_of : CommandRequest k → Result Response → Result (CommandResponse k)
  reply_of c (err e) = err e
  reply_of c (ok r) = ok (record { sequence_number = c.sequence_number; response = r })

  -- A remote command is sent once, under the identity that it came with, and its reply carries the
  -- command's own sequence number and the response; where sending raises there is no reply.
  send_results-reply :
      (c : CommandRequest k) (a : Authority k)
      → (send_results k c a).0
          ≡ reply_of c (send_one k c.identity (proto c.method_name c.request) a.sent).0
        × ((send_results k c a).1.sent
            ≡ (send_one k c.identity (proto c.method_name c.request) a.sent).1)
  unfolding send_results send_commands first_result
  send_results-reply c a =
      elim (Result-cases (send_one k c.identity (proto c.method_name c.request) a.sent).0) [
        | inl (r, p) ↦ (ground (arith, p), ground (arith, p))
        | inr (e, p) ↦ (ground (arith, p), ground (arith, p))
      ]
