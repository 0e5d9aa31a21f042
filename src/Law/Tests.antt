-- ===== src/Law/Tests.antt =====
-- vehicle/kernel/laws: the theorems on the authority at a small law file, where one service answers
-- every call with 'completed'.
use steeleagle.Prelude.{
  ◌≤◌, String, Option, key_error, Bool-cases, inl, inr, ◌==◌, ap, sym, some_inj, ◌≡◌, refl, Bool,
  none, some, List, [], ◌∷◌, length, value_error, ok, err, lookup, split, rsplit, concat,
}
use steeleagle.Law.Kernel.{Call, Response}
use steeleagle.Law.Glob.{fnmatch}
use steeleagle.Law.Commands.{Command, json, resolve, dispatch, send_one, grpc_call, send_commands}
use steeleagle.Law.Authority.{
  dc_server, Authority, current, base, check_equal, allowed_of, matches_of, allowed_lists,
  user_matches, match_lists, allows, first_match, next_state, run, enter_law, set_law, switch,
  match, failsafe, failsafe_name, start, is_state,
}
use steeleagle.Law.Commands.Sends.{SentBy, sender, send_commands-SentBy, send_commands-raises}
use steeleagle.Law.Authority.Transitions.{Entered, set_law-Entered, set_law-kept}
use steeleagle.Law.Authority.Failsafes.{failsafes, repeated, failsafes-run}
use steeleagle.Law.Authority.Ruled.{IsRuled}
use steeleagle.Law.Authority.Matching.{Verdict, allows-Verdict, Decided, next_state-Decided}
use steeleagle.Law.Interceptor.{
  identity_of, command_of, last_part, by_identity, under_law, after_match, call, fail, change,
  Incoming, intercept, steps,
}
use steeleagle.Law.Interceptor.Safety.{Passed, intercept-Passed}
use steeleagle.Law.Interceptor.Runs.{IsSound, started_run}
use steeleagle.Law.Samples.{kernel, base_law, remote_law, standing}

abbrev completed : Response
completed = record { status = 2; response_string = "" }

-- an authority whose law to enter has a command that no service has
abbrev deaf : Authority kernel
deaf = record (standing (some "__BASE__")) {
  spec =
      ("__BASE__", base_law)
      ∷ ("REMOTE", record remote_law { enter = some ("Radio.Mute" ∷ []) })
      ∷ [];
}

-- a text without a dot, between two commands
abbrev hold : Command String
hold = json "Control.Hold"

abbrev nonsense : Command String
nonsense = json "REMOTE"

abbrev server_call : Incoming kernel
server_call = record {
  metadata = ("user-agent", "grpc") ∷ ("identity", "server") ∷ [];
  method_name = "/steeleagle.protocol.services.Control/Land";
  request = "";
}

send_commands-SentBy_example :
    (new : List (Call String)) × ((send_commands kernel "authority" (hold ∷ nonsense ∷ []) []).1
      ≡ new)
    × SentBy (sender kernel) "authority" new
    × (length new ≤ 2)
send_commands-SentBy_example = send_commands-SentBy kernel "authority" (hold ∷ nonsense ∷ []) []

send_commands-raises_example :
    send_commands kernel "authority" (hold ∷ nonsense ∷ hold ∷ []) []
    ≡ (err value_error, (send_commands kernel "authority" (hold ∷ []) []).1)
unfolding send_commands send_one dispatch resolve grpc_call split rsplit lookup
send_commands-raises_example =
    send_commands-raises kernel "authority" (hold ∷ []) (hold ∷ []) nonsense [] value_error
      (completed ∷ []) refl refl (λ e. absurd cc)

allows-Verdict_example :
    Verdict kernel
      (standing (some "REMOTE"))
      "server.Control.Land"
      ""
      (allows kernel (standing (some "REMOTE")) "server.Control.Land" "")
allows-Verdict_example = allows-Verdict kernel (standing (some "REMOTE")) "server.Control.Land" ""

next_state-Decided_example :
    (next : Option String) × (next_state kernel (standing (some "REMOTE")) "server.Control.Hold" ""
      ≡ ok next)
    × Decided kernel "server.Control.Hold" ""
        (("*.Control.Hold", "REMOTE") ∷ [])
        (("*.Control.Hold", "__BASE__") ∷ [])
        next
unfolding current base lookup matches_of user_matches
next_state-Decided_example =
    next_state-Decided kernel (standing (some "REMOTE")) remote_law base_law
      (("*.Control.Hold", "REMOTE") ∷ []) (("*.Control.Hold", "__BASE__") ∷ [])
      "server.Control.Hold" "" refl refl refl refl

-- a law without a list under `allowed`
unlisted_law :
    allows kernel
      (record (standing (some "FOO")) {
        spec =
            ("__BASE__", base_law)
            ∷ ("FOO", record { enter = some []; rules = none; failsafes = none })
            ∷ [];
      })
      "server.Control.Land"
      ""
    ≡ err key_error
unfolding allows allowed_lists allowed_of current base lookup
unlisted_law = refl

small-IsRuled : IsRuled kernel (standing none)
unfolding IsRuled lookup allowed_of
small-IsRuled s law p = elim (Bool-cases ("__BASE__" == s)) [
  | inl e ↦ ("*.Report.*" ∷ [], ap allowed_of (sym (some_inj (rw e at p))))
  | inr e ↦ elim (Bool-cases ("REMOTE" == s)) [
    | inl f ↦ ("server.Control.*" ∷ [], ap allowed_of (sym (some_inj (rw (e, f) at p))))
    | inr f ↦ cc (rw (e, f) at p)
  ]
]

failsafes-run_example :
    ((failsafe kernel dc_server (failsafes kernel 2 dc_server (standing (some "REMOTE")))).0
      ≡ (run kernel
          ("Control.Land" ∷ "Control.Hold" ∷ "Control.Hold" ∷ "Control.Hold" ∷ [])
          (failsafes kernel 2 dc_server (standing (some "REMOTE")))).0)
    × ((failsafe kernel dc_server (failsafes kernel 2 dc_server (standing (some "REMOTE")))).1.sent
        ≡ (run kernel
            ("Control.Land" ∷ "Control.Hold" ∷ "Control.Hold" ∷ "Control.Hold" ∷ [])
            (failsafes kernel 2 dc_server (standing (some "REMOTE")))).1.sent)
unfolding failsafe_name lookup repeated
failsafes-run_example =
    failsafes-run kernel 2 dc_server (standing (some "REMOTE")) "REMOTE" ("Control.Land" ∷ [])
      ("Control.Hold" ∷ []) (λ e. absurd cc)
      (record {
        at = refl;
        law = remote_law;
        law_found = refl;
        own = ("dc_server", "Control.Land" ∷ []) ∷ [];
        has_own = refl;
        texts_found = refl;
        base_law = base_law;
        base_found = refl;
        fallback = ("dc_server", "Control.Hold" ∷ []) ∷ [];
        has_fallback = refl;
        extra_found = refl;
      })

started_run_example :
    IsSound kernel (
      steps kernel
        (start kernel ("Control.Hold" ∷ []) (standing none)).1
        (call server_call ∷ fail dc_server ∷ change "REMOTE" ∷ []))
    × ((answer : Bool) × (allows kernel
            (steps kernel
              (start kernel ("Control.Hold" ∷ []) (standing none)).1
              (call server_call ∷ fail dc_server ∷ change "REMOTE" ∷ []))
            "server.Control.Land"
            ""
          ≡ ok answer))
unfolding send_commands send_one dispatch resolve grpc_call split rsplit lookup current base allows
    allowed_lists allowed_of match_lists matches_of user_matches check_equal fnmatch first_match
    next_state run enter_law set_law switch match is_state start
started_run_example =
    started_run kernel ("Control.Hold" ∷ []) (standing none)
      (call server_call ∷ fail dc_server ∷ change "REMOTE" ∷ []) base_law "server.Control.Land" ""
      refl refl small-IsRuled refl

set_law-Entered_example :
    Entered kernel "REMOTE"
      (standing (some "__BASE__"))
      (set_law kernel "REMOTE" (standing (some "__BASE__"))).1
unfolding send_commands send_one dispatch resolve grpc_call split rsplit lookup current base allows
    allowed_lists allowed_of match_lists matches_of user_matches check_equal fnmatch first_match
    next_state run enter_law set_law switch match is_state
set_law-Entered_example =
    set_law-Entered kernel "REMOTE" (standing (some "__BASE__")) (λ e. absurd cc) refl

set_law-kept_example : (set_law kernel "REMOTE" deaf).1.state ≡ some "__BASE__"
unfolding send_commands send_one dispatch resolve grpc_call split rsplit lookup current base allows
    allowed_lists allowed_of match_lists matches_of user_matches check_equal fnmatch first_match
    next_state run enter_law set_law switch match is_state
set_law-kept_example = set_law-kept kernel "REMOTE" deaf (λ e. absurd cc)

intercept-Passed_example : Passed kernel server_call (standing (some "REMOTE"))
unfolding send_commands send_one dispatch resolve grpc_call split rsplit lookup current base allows
    allowed_lists allowed_of match_lists matches_of user_matches check_equal fnmatch first_match
    next_state run enter_law set_law switch match is_state intercept identity_of command_of
    last_part by_identity under_law after_match concat
intercept-Passed_example = intercept-Passed kernel server_call (standing (some "REMOTE")) refl
