-- ===== src/Backend/Swarm/Streams.antt =====
-- backend/server/swarm_controller/swarm_controller.py: which responses a command's stream yields.
use steeleagle.Prelude.{
  ℕ, ◌+◌, ◌≡◌, refl, ap, ◌∙◌, inl, inr, Option, none, some, List, [], ◌∷◌, arith, eqb,
  if◌then◌else◌, eqb_iff, Option-cases, Fault, ok, err,
}
use steeleagle.Law.Kernel.{Response}
use steeleagle.Law.Commands.{generate_response}
use steeleagle.Backend.Swarm.{
  ResponseMap, Swarm, Message, find_response, put_response, get_sequence_number, poll_for_response,
  listen, listens, await_response, command,
}

-- The last of the messages that carries the number.
unfoldable pub answer_in : ℕ → List Message → Option Response
answer_in n [] = none
answer_in n (err e ∷ ms) = answer_in n ms
answer_in n (ok (m, r) ∷ ms) = elim (answer_in n ms) [
  | some q ↦ some q
  | none ↦ if eqb m n then some r else none
]

-- What a stream yields for the messages that carry its number: 'in progress' for each sleep up to the
-- first that brings one, then the last response that this sleep brought.
unfoldable pub progress : ℕ → List (List Message) → List Response
unfolding answer_in
progress n [] = generate_response 1 "" ∷ []
progress n (ms ∷ sleeps) =
    generate_response 1 "" ∷ (elim (answer_in n ms) [ some r ↦ r ∷ [] | none ↦ progress n sleeps ])

find-put :
    (n m : ℕ) (r : Response) (t : ResponseMap)
    → find_response n (put_response m r t) ≡ (if eqb m n then some r else find_response n t)
unfolding find_response put_response
find-put n m r [] = ground arith
find-put n m r ((j, q) ∷ t) =
    ground (arith, find-put n m r t, eqb_iff j m, eqb_iff j n, eqb_iff m n)

abbrev or_else : Option Response → Option Response → Option Response
or_else (some r) o = some r
or_else none o = o

find-listens :
    (n : ℕ) (ms : List Message) (s : Swarm)
    → find_response n (listens ms s).response_map
      ≡ or_else (answer_in n ms) (find_response n s.response_map)
unfolding listens answer_in
find-listens n [] s = refl
find-listens n (err e ∷ ms) s = unfold listen in find-listens n ms s
find-listens n (ok (m, r) ∷ ms) s =
    unfold listen in
    ground (arith, find-listens n ms (listen (ok (m, r)) s), find-put n m r s.response_map)

await-progress :
    (n : ℕ) (sleeps : List (List Message)) (s : Swarm)
    → find_response n s.response_map ≡ none
    → (await_response n sleeps s).0 ≡ progress n sleeps
unfolding await_response progress
await-progress n [] s h = refl
await-progress n (ms ∷ sleeps) s h = elim (Option-cases (answer_in n ms)) [
  | inl p ↦
      let fresh : find_response n (listens ms s).response_map ≡ none = rw (find-listens, p) h in
      unfold poll_for_response in
      ground (arith, p, fresh, await-progress n sleeps (listens ms s) fresh)
  | inr (r, p) ↦
      let found : find_response n (listens ms s).response_map ≡ some r = rw (find-listens, p) in
      unfold poll_for_response in ground (arith, p, found)
]

listens-number :
    (ms : List Message) (s : Swarm) → (listens ms s).sequence_number ≡ s.sequence_number
unfolding listens
listens-number [] s = refl
listens-number (err e ∷ ms) s = unfold listen in listens-number ms s
listens-number (ok m ∷ ms) s = listens-number ms (listen (ok m) s) ∙ (unfold listen in refl)

await-number :
    (n : ℕ) (sleeps : List (List Message)) (s : Swarm)
    → (await_response n sleeps s).1.sequence_number ≡ s.sequence_number
unfolding await_response
await-number n [] s = refl
await-number n (ms ∷ sleeps) s = elim (Option-cases (poll_for_response n (listens ms s))) [
  | inl p ↦ ground (arith, p, await-number n sleeps (listens ms s), listens-number ms s)
  | inr (r, p) ↦ ground (arith, p, listens-number ms s)
]

-- A command that could be sent, under a number that has no response yet, is accepted, is in progress
-- for each sleep up to the first that brings a message with its own number, and ends with the response
-- of that message: messages with other numbers or that do not parse never end it. One that could not be
-- sent is answered with status 4. Either way the next command gets the next number.
pub command-progress :
    (sent : Option Fault) (sleeps : List (List Message)) (s : Swarm)
    → find_response s.sequence_number s.response_map ≡ none
    → ((command sent sleeps s).0
        ≡ generate_response 0 "" ∷ (elim sent [
          | some e ↦ generate_response 4 "" ∷ []
          | none ↦ progress s.sequence_number sleeps
        ]))
      × ((command sent sleeps s).1.sequence_number ≡ s.sequence_number + 1)
unfolding command get_sequence_number
command-progress (some e) sleeps s h = (refl, refl)
command-progress none sleeps s h = (
  ap (λ rs. generate_response 0 "" ∷ rs)
      (await-progress s.sequence_number sleeps (get_sequence_number s).1 h),
  await-number s.sequence_number sleeps (get_sequence_number s).1,
)
