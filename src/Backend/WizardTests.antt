-- ===== src/Backend/WizardTests.antt =====
-- The setup wizard at a small conversation.
use steeleagle.Prelude.{
  ℕ, ◌*◌, String, ◌≡◌, refl, true, false, Option, none, some, [], ◌∷◌, ◌==◌, if◌then◌else◌, mem,
  os_error, Result, ok, err, lookup, insert,
}
use steeleagle.Prelude.Int.{ℤ, pos, negsuc}
use steeleagle.Backend.Wizard.{number, Context, Conversions, User, World, configure, main}
use steeleagle.Backend.Wizard.Kinds.{Typed}
use steeleagle.Backend.Wizard.Answers.{configure-Typed}

whole_number : String → Option ℤ
whole_number t =
    if t == "5"
    then some (pos 5)
    else if t == "8080"
    then some (pos 8080)
    else if t == "70"
    then some (pos 70)
    else none

abbrev decimal : String → Option ℤ
decimal t = elim (whole_number t) [
  | some (pos n) ↦ some (pos (1000 * n))
  | some (negsuc n) ↦ none
  | none ↦ if t == "0.7" then some (pos 700) else none
]

abbrev conversions : Conversions
conversions = record { int = whole_number; float = decimal }

decimal_of_whole :
    (t : String) (n : ℕ) → whole_number t ≡ some (pos n) → decimal t ≡ some (pos (1000 * n))
decimal_of_whole t n e = rw (e, decimal)

-- A user who answers every question, first with a text that the dialog refuses.
abbrev user : User
user = record {
  yes = λ title. title == "Detection - Use Geofence";
  texts = λ title.
      if mem title ("Detection - Confidence Threshold" ∷ "Detection - HSV Filter Threshold" ∷ [])
      then "5" ∷ "0.7" ∷ []
      else if title == "HTTP - Webserver Port"
      then "70" ∷ "8080" ∷ []
      else "8080" ∷ "5" ∷ [];
  picked = λ title. some 2;
}

abbrev world : World
world = record { downloads = true; redis_exists = false }

abbrev context_of : Result Context → Context
context_of (err fault) = []
context_of (ok c) = c

tokens_depth :
    lookup "gabriel_tokens" (context_of (configure conversions user world)) ≡ some (number (pos 5))
unfolding configure lookup insert whole_number
tokens_depth = refl

-- The directory `redis` of an earlier run stops the wizard at the end.
second_run :
    main conversions user (record world { redis_exists = true }) (λ template c. template)
    ≡ err os_error
unfolding main insert whole_number
second_run = refl

configure-Typed_example : Typed (context_of (configure conversions user world))
unfolding configure whole_number insert
configure-Typed_example =
    configure-Typed conversions user world decimal_of_whole
      (context_of (configure conversions user world)) refl
