-- ===== src/Sdk/Tests.antt =====
-- sdk/src/steeleagle_sdk/api and sdk/src/steeleagle_sdk/dsl/types/actions: the theorems at small inputs.
use steeleagle.Prelude.{
  ◌≡◌, refl, ◌⊎◌, none, some, List, [], ◌∷◌, ◌++◌, map, ok, err, value_error, Option, Dict,
}
use steeleagle.Prelude.Int.{pos, negsuc}
use steeleagle.Law.Kernel.{Call, Response, RpcError, replied}
use steeleagle.Map.Waypoints.{Waypoint}
use steeleagle.Sdk.Calls.{
  Request, Channel, internal_call, make_response, validate_stamp, error_to_api_response, yield_last,
  yielded, run_streaming,
}
use steeleagle.Sdk.Vehicle.{Returned, control, set_global_position}
use steeleagle.Sdk.Actions.{
  Action, flight, take_off_action, consumed, last_of, execute_move, execute,
}
use steeleagle.Sdk.Actions.Sent.{Raises, Orders, execute-Once}
use steeleagle.Sdk.Actions.Outcomes.{is_broken, failing, execute-failing}
use steeleagle.Sdk.Procedures.{goto, visit_points, visit_areas, patrol}
use steeleagle.Sdk.Procedures.Visited.{order_to, all_waypoints, Flown, patrol-Visited}

abbrev completed : Response
completed = record { status = 2; response_string = "" }

abbrev unavailable : RpcError
unavailable = record { code = 14; details = "no driver" }

abbrev climb : Action
climb = flight (take_off_action (pos 10000))

execute-Once_example : Raises (λ c log. execute c climb log) ⊎ Orders (λ c log. execute c climb log)
execute-Once_example = execute-Once climb

execute-failing_example :
    (call : Call Request) × (call.identity ≡ "internal")
    × (execute (failing unavailable (λ call. completed ∷ [])) climb []
        ≡ (err value_error, [] ++ call ∷ []))
unfolding is_broken
execute-failing_example = execute-failing unavailable (λ call. completed ∷ []) climb [] refl

abbrev corner : Waypoint
corner = record { lat = pos 40443; lon = negsuc 79943; alt = pos 12000 }

abbrev areas : Dict (List Waypoint)
areas = ("field", corner ∷ corner ∷ []) ∷ []

-- The second order fails.
abbrev patchy : Channel
patchy = record {
  unary = λ log call. replied completed;
  stream = λ log call. record {
    responses = [];
    failure = elim log [ [] ↦ none | c ∷ cs ↦ some unavailable ];
  };
}

patrol-Visited_example :
    (out : Returned (Option Response)) × (patrol patchy 1000 (some (ok areas)) [] ≡ some out)
    × Flown patchy [] (map (order_to 1000) (all_waypoints areas)) out
patrol-Visited_example = patrol-Visited patchy 1000 areas []

-- It raises at the second of the two, whose order is sent.
patchy-patrol :
    patrol patchy 1000 (some (ok areas)) []
    ≡ some (err value_error, order_to 1000 corner ∷ order_to 1000 corner ∷ [])
unfolding patrol visit_areas visit_points goto execute_move set_global_position run_streaming
    internal_call control last_of consumed yielded yield_last error_to_api_response make_response
    validate_stamp
patchy-patrol = refl
