-- ===== src/Vehicle/Remote.antt =====
-- vehicle/kernel/handlers/command_handler.py: `CommandHandler`. Times are milliseconds, and a poll
-- that delivers nothing is an event of its own. What runs under the authority is Law.Authority.
pub mod Silence
use steeleagle.Prelude.{
  ℕ, ◌+◌, String, Bool, false, ◌&&◌, not, Option, none, some, List, [], ◌∷◌, ◌++◌, leb, eqb,
  if◌then◌else◌, index_error, Result, ok, err,
}
use steeleagle.Law.Kernel.{Kernel, Call, Response}
use steeleagle.Law.Commands.{Command, proto, send_commands}
use steeleagle.Law.Authority.{Authority, dc_server, failsafe, is_state, remote_name}

-- timeout and last and now - last >= timeout: a zero and a None are false
unfoldable pub is_late : ℕ → Option ℕ → ℕ → Bool
is_late timeout none now = false
is_late timeout (some last) now =
    not (eqb timeout 0) && not (eqb last 0) && leb (last + timeout) now

module _ (k : Kernel) where
  -- `CommandRequest`
  pub record CommandRequest : Type 0 where
    pub sequence_number : ℕ
    pub identity : String
    pub method_name : String
    pub request : k.Packed

  -- `CommandResponse`
  pub record CommandResponse : Type 0 where
    pub sequence_number : ℕ
    pub response : Response

  -- `results[0]`
  unfoldable pub first_result : Result (List Response) → Result Response
  first_result (err e) = err e
  first_result (ok []) = err index_error
  first_result (ok (r ∷ rs)) = ok r

  unfoldable pub send_results : CommandRequest → Authority k → Result CommandResponse × Authority k
  unfolding send_commands first_result
  send_results c a =
      let (results, log) = send_commands k c.identity (proto c.method_name c.request ∷ []) a.sent in
      (
        elim (first_result results) [
          | err e ↦ err e
          | ok r ↦ ok (record { sequence_number = c.sequence_number; response = r })
        ],
        record a { sent = log },
      )

  -- A poll that times out, or a message that is read, each with the time that it happens at. What
  -- `ParseFromString` makes of the message is part of the event.
  pub data Poll : Type 0 where
    silent : ℕ → Poll
    message : ℕ → Result CommandRequest → Poll

  -- The loop: `pending` are the tasks that it has created, `alive` is false behind its `except`.
  pub record Loop : Type 0 where
    pub authority : Authority k
    pub last_manual_command_ts : Option ℕ
    pub pending : List CommandRequest
    pub alive : Bool

  -- what follows the failsafe: the time is forgotten, or the exception ends the loop
  unfoldable pub after_failsafe : Result Bool × Authority k → Loop → Loop
  after_failsafe (ok b, a) l = record l { authority = a; last_manual_command_ts = none }
  after_failsafe (err e, a) l = record l { authority = a; alive = false }

  unfoldable pub on_silence : ℕ → ℕ → Loop → Loop
  unfolding is_late after_failsafe is_state
  on_silence timeout now l =
      if is_late timeout l.last_manual_command_ts now && is_state k l.authority.state remote_name
      then after_failsafe (failsafe k dc_server l.authority) l
      else l

  unfoldable pub on_message : ℕ → Result CommandRequest → Loop → Loop
  on_message now (ok c) l = record l {
    last_manual_command_ts = some now;
    pending = l.pending ++ c ∷ [];
  }
  on_message now (err e) l = record l { last_manual_command_ts = some now; alive = false }

  -- one round of `while True`
  unfoldable pub round : ℕ → Poll → Loop → Loop
  unfolding on_silence on_message
  round timeout (silent now) l = if l.alive then on_silence timeout now l else l
  round timeout (message now m) l = if l.alive then on_message now m l else l

  unfoldable pub rounds : ℕ → List Poll → Loop → Loop
  unfolding round
  rounds timeout [] l = l
  rounds timeout (p ∷ ps) l = rounds timeout ps (round timeout p l)
