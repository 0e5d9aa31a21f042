-- ===== src/Backend/Tests.antt =====
-- backend/server/swarm_controller/swarm_controller.py: a command's stream at a small input.
use steeleagle.Prelude.{◌≡◌, refl, none, List, [], ◌∷◌, parse_error, ok, err}
use steeleagle.Law.Commands.{generate_response}
use steeleagle.Backend.Swarm.{Swarm, Message, find_response, command}
use steeleagle.Backend.Swarm.Streams.{answer_in, progress, command-progress}

-- the third command, where the second is answered
abbrev controller : Swarm
controller = record { sequence_number = 2; response_map = (1, generate_response 2 "landed") ∷ [] }

-- a late answer to another command, then the answer to this one behind a text that does not parse
abbrev arrivals : List (List Message)
arrivals =
    (ok (0, generate_response 2 "old") ∷ [])
    ∷ (err parse_error ∷ ok (2, generate_response 3 "busy") ∷ [])
    ∷ []

command-progress_example :
    ((command none arrivals controller).0
      ≡ generate_response 0 ""
        ∷ generate_response 1 ""
        ∷ generate_response 1 ""
        ∷ generate_response 3 "busy"
        ∷ [])
    × ((command none arrivals controller).1.sequence_number ≡ 3)
unfolding find_response progress answer_in
command-progress_example = command-progress none arrivals controller refl
