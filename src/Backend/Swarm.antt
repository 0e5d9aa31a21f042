-- ===== src/Backend/Swarm.antt =====
-- backend/server/swarm_controller/swarm_controller.py: `SwarmController`, whose stream of a command and
-- whose listener meet in the map of responses. What arrives from the vehicles is an input.
pub mod Streams
use steeleagle.Prelude.{
  ℕ, ◌+◌, Option, none, some, List, [], ◌∷◌, eqb, if◌then◌else◌, Fault, Result, ok, err,
}
use steeleagle.Law.Kernel.{Response}
use steeleagle.Law.Commands.{generate_response}

-- `_response_map`, keyed by sequence numbers
abbrev pub ResponseMap : Type 0
ResponseMap = List (ℕ × Response)

pub record Swarm : Type 0 where
  pub sequence_number : ℕ
  pub response_map : ResponseMap

-- A message from a vehicle: the number and the response of a `CommandResponse`, or what parsing raises.
abbrev pub Message : Type 0
Message = Result (ℕ × Response)

unfoldable pub find_response : ℕ → ResponseMap → Option Response
find_response n [] = none
find_response n ((m, r) ∷ rest) = if eqb m n then some r else find_response n rest

unfoldable pub put_response : ℕ → Response → ResponseMap → ResponseMap
put_response n r [] = (n, r) ∷ []
put_response n r ((m, q) ∷ rest) = if eqb m n then (m, r) ∷ rest else (m, q) ∷ put_response n r rest

-- `_get_sequence_number`
unfoldable pub get_sequence_number : Swarm → ℕ × Swarm
get_sequence_number s = (s.sequence_number, record s { sequence_number = s.sequence_number + 1 })

-- `_poll_for_response`
unfoldable pub poll_for_response : ℕ → Swarm → Option Response
unfolding find_response
poll_for_response n s = find_response n s.response_map

-- one round of `_listen_for_responses`
unfoldable pub listen : Message → Swarm → Swarm
unfolding put_response
listen (err e) s = s
listen (ok (n, r)) s = record s { response_map = put_response n r s.response_map }

unfoldable pub listens : List Message → Swarm → Swarm
unfolding listen
listens [] s = s
listens (m ∷ ms) s = listens ms (listen m s)

-- `while not response`: each sleep lets some messages in. The list of what is yielded ends where the
-- sleeps that are looked at end.
unfoldable pub await_response : ℕ → List (List Message) → Swarm → List Response × Swarm
unfolding poll_for_response listens
await_response n [] s = (generate_response 1 "" ∷ [], s)
await_response n (ms ∷ sleeps) s =
    let now = listens ms s in
    let later = await_response n sleeps now in
    elim (poll_for_response n now) [
      | some r ↦ (generate_response 1 "" ∷ r ∷ [], now)
      | none ↦ (generate_response 1 "" ∷ later.0, later.1)
    ]

-- `Command`: what it yields, where `sent` is what sending raised, if it did.
unfoldable pub command : Option Fault → List (List Message) → Swarm → List Response × Swarm
unfolding get_sequence_number await_response
command sent sleeps s =
    let (n, s') = get_sequence_number s in
    elim sent [
      | some e ↦ (generate_response 0 "" ∷ generate_response 4 "" ∷ [], s')
      | none ↦ let (rs, s'') = await_response n sleeps s' in (generate_response 0 "" ∷ rs, s'')
    ]
