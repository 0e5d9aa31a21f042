-- ===== src/Law/Interceptor.antt =====
-- `LawInterceptor.intercept` of vehicle/kernel/laws/interceptor.py, and what may happen to the
-- authority over a run of the kernel: calls from outside and failsafes.
pub mod Safety
pub mod Runs
use steeleagle.Prelude.{
  String, Bool, true, false, Option, none, some, List, [], ◌∷◌, ◌==◌, if◌then◌else◌, value_error,
  Result, ok, err, rsplit, concat,
}
use steeleagle.Law.Kernel.{Kernel, Call, Response}
use steeleagle.Law.Commands.{Command, json, send_commands, all_completed}
use steeleagle.Law.Authority.{
  Law, Failsafe, base_name, remote_name, Authority, current, base, check_equal, allows, first_match,
  next_state, commands, run, enter_law, set_law, switch, match, Listed, law_failsafes,
  base_failsafes, put_failsafe, extend_law, failsafe, failsafe_name, start, is_state,
}

-- `context.abort` raises, so a call is either denied, or handed to the method of the service.
pub data Outcome : Type 0 where
  denied : Outcome
  handled : Outcome

-- service_url.rsplit('.', 2)[-1]
unfoldable pub last_part : String → String
unfolding rsplit
last_part url = elim (rsplit b'.' url) [ none ↦ url | some (front, back) ↦ back ]

module _ (k : Kernel) where
  open k use {Request}

  -- a call as the server receives it
  pub record Incoming : Type 0 where
    pub metadata : List (String × String)
    pub method_name : String
    pub request : Request

  -- `metadata[1][1]`; `none` where there are fewer than two entries
  unfoldable pub identity_of : List (String × String) → Option String
  identity_of [] = none
  identity_of (m ∷ []) = none
  identity_of (m ∷ n ∷ rest) = some n.1

  unfoldable pub command_of : String → String → String → String
  unfolding concat
  command_of identity service method = concat (identity ∷ "." ∷ service ∷ "." ∷ method ∷ [])

  -- `match` returns nothing: what it raises ends the call.
  unfoldable pub after_match : Result Bool × Authority k → Result Outcome × Authority k
  after_match (ok b, a) = (ok handled, a)
  after_match (err e, a) = (err e, a)

  -- a call under the law
  unfoldable pub under_law : String → Request → Authority k → Result Outcome × Authority k
  under_law command request a = elim (allows k a command request) [
    | err e ↦ (err e, a)
    | ok false ↦ (ok denied, a)
    | ok true ↦ after_match (match k command request a)
  ]

  -- the branches on the identity
  unfoldable pub by_identity :
      String → String → Request → Authority k → Result Outcome × Authority k
  by_identity identity command request a =
      if identity == ""
      then (ok denied, a)
      else if identity == "authority"
      then (ok handled, a)
      else under_law command request a

  unfoldable pub intercept : Incoming → Authority k → Result Outcome × Authority k
  intercept c a = elim (identity_of c.metadata) [
    | none ↦ (ok denied, a)
    | some identity ↦ elim (rsplit b'/' c.method_name) [
      | none ↦ (err value_error, a)
      | some (service_url, method) ↦
          by_identity identity (command_of identity (last_part service_url) method) c.request a
    ]
  ]

  -- What reaches the authority while the kernel runs: a call to a kernel service, a failsafe of the
  -- command handler, or a change of law asked for directly.
  pub data Input : Type 0 where
    call : Incoming → Input
    fail : Failsafe → Input
    change : String → Input

  unfoldable pub step : Authority k → Input → Authority k
  step a (call c) = (intercept c a).1
  step a (fail f) = (failsafe k f a).1
  step a (change s) = (set_law k s a).1

  unfoldable pub steps : Authority k → List Input → Authority k
  unfolding step
  steps a [] = a
  steps a (i ∷ is) = steps (step a i) is
