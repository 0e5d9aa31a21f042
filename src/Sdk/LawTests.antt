-- ===== src/Sdk/LawTests.antt =====
-- vehicle/kernel/laws/interceptor.py with the actions of missions: the theorem at a landing.
use steeleagle.Prelude.{
  ◌≡◌, refl, inl, true, none, some, [], ◌∷◌, ok, lookup, split, rsplit, concat,
}
use steeleagle.Law.Glob.{fnmatch}
use steeleagle.Law.Authority.{
  Law, Authority, current, base, check_equal, allowed_of, matches_of, allowed_lists, user_matches,
  match_lists, allows, first_match, next_state, run, enter_law, set_law, switch, match, is_state,
}
use steeleagle.Law.Commands.{send_commands, send_one, dispatch, resolve, grpc_call}
use steeleagle.Law.Interceptor.{
  identity_of, command_of, last_part, by_identity, under_law, after_match, intercept,
}
use steeleagle.Law.Samples.{kernel, base_law}
use steeleagle.Sdk.Calls.{land_request, internal_call, run_streaming}
use steeleagle.Sdk.Vehicle.{control, land}
use steeleagle.Sdk.Actions.{flight, land_action, execute_flight, last_of, execute}
use steeleagle.Sdk.Actions.Sent.{path, reply, stream-reply, Orders}
use steeleagle.Sdk.Actions.Lawful.{law_command, order-Lawful}

-- a law under which a mission may do everything
abbrev local_law : Law
local_law = record {
  rules = some (record { allowed = some ("internal.Control.*" ∷ []); matches = none });
  enter = some [];
  failsafes = none;
}

abbrev local : Authority kernel
local = record {
  spec = ("__BASE__", base_law) ∷ ("LOCAL", local_law) ∷ [];
  state = some "LOCAL";
  sent = [];
}

abbrev landing : Orders (λ c log. execute c (flight land_action) log)
unfolding execute execute_flight land last_of run_streaming internal_call reply path rsplit control
    concat last_part
landing = record {
  call = internal_call (control "Land") land_request;
  streams = true;
  internal = refl;
  routed = record {
    service_url = "/steeleagle.protocol.services.control_service.Control";
    service = "Control";
    parts = refl;
    short = refl;
    kernel_service = inl refl;
  };
  ordered = λ c log. stream-reply c log _;
}

order-Lawful_example :
    allows kernel local (law_command kernel (λ r. "now") landing.call landing.routed.service) "now"
    ≡ ok true
unfolding landing send_commands send_one dispatch resolve grpc_call split rsplit lookup current base
    allows allowed_lists allowed_of match_lists matches_of user_matches check_equal fnmatch
    first_match next_state run enter_law set_law switch match is_state intercept identity_of
    command_of last_part by_identity under_law after_match concat path control internal_call
order-Lawful_example =
    order-Lawful kernel (λ r. "now") (flight land_action) landing ("user-agent", "grpc") local refl
