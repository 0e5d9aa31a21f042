-- ===== src/Vehicle/Startup/Quiet.antt =====
-- vehicle/kernel/main.py: the kernel whose configuration has no timeout for the server.
use steeleagle.Prelude.{
  ℕ, String, ◌≡◌, refl, ap, ◌∙◌, Bool, true, false, Option, none, some, List, [], ◌∷◌,
  if◌then◌else◌, value_error, Result, ok, err,
}
use steeleagle.Law.Kernel.{Kernel}
use steeleagle.Law.Authority.{Authority, start}
use steeleagle.Vehicle.Remote.{
  Loop, Poll, silent, message, is_late, on_silence, on_message, round, rounds, CommandRequest,
}
use steeleagle.Vehicle.Startup.{listening, served, kernel_main}

is_late-zero : (last : Option ℕ) (now : ℕ) → is_late 0 last now ≡ false
unfolding is_late
is_late-zero none now = refl
is_late-zero (some last) now = refl

module _ (k : Kernel) where
  if-authority :
      (b : Bool) (l l' : Loop k)
      → l'.authority ≡ l.authority
      → (if b then l' else l).authority ≡ l.authority
  if-authority true l l' e = e
  if-authority false l l' e = refl

  on_silence-quiet : (now : ℕ) (l : Loop k) → (on_silence k 0 now l).authority ≡ l.authority
  unfolding on_silence
  on_silence-quiet now l = rw (is_late-zero l.last_manual_command_ts now)

  on_message-authority :
      (now : ℕ) (m : Result (CommandRequest k)) (l : Loop k)
      → (on_message k now m l).authority ≡ l.authority
  unfolding on_message
  on_message-authority now (ok c) l = refl
  on_message-authority now (err e) l = refl

  round-authority : (p : Poll k) (l : Loop k) → (round k 0 p l).authority ≡ l.authority
  unfolding round
  round-authority (silent now) l =
      if-authority l.alive l (on_silence k 0 now l) (on_silence-quiet now l)
  round-authority (message now m) l =
      if-authority l.alive l (on_message k now m l) (on_message-authority now m l)

  rounds-authority : (ps : List (Poll k)) (l : Loop k) → (rounds k 0 ps l).authority ≡ l.authority
  unfolding rounds
  rounds-authority [] l = refl
  rounds-authority (p ∷ ps) l = rounds-authority ps (round k 0 p l) ∙ round-authority p l

  served-ok :
      (r : Result Bool × Authority k) (t : ℕ) (l : Loop k)
      → served k (err value_error) r ≡ ok (some (t, l))
      → (r.0 ≡ ok true) × (t ≡ 0) × (l ≡ listening k r.1)
  unfolding served
  served-ok (err fault, a) t l e = cc
  served-ok (ok false, a) t l e = cc
  served-ok (ok true, a) t l e = (refl, cc, cc)

  -- Where the timeout is missing from the configuration, a kernel that comes up has started its
  -- authority, and whatever messages and silences follow, its command loop leaves the authority as the
  -- start left it: no silence fires a failsafe.
  pub kernel_main-quiet :
      (texts : List String) (a : Authority k) (t : ℕ) (l : Loop k) (ps : List (Poll k))
      → kernel_main k texts (err value_error) a ≡ ok (some (t, l))
      → ((start k texts a).0 ≡ ok true) × ((rounds k t ps l).authority ≡ (start k texts a).1)
  unfolding kernel_main
  kernel_main-quiet texts a t l ps e =
      let (started, zero_timeout, first) = served-ok (start k texts a) t l e in
      (started, rw zero_timeout (rounds-authority ps l ∙ ap (λ (x : Loop k). x.authority) first))
