-- ===== src/Gcs/Cli/Table.antt =====
-- gcs/cli/cli.py: the commands of a row of keys.
use steeleagle.Prelude.{
  String, ◌≡◌, refl, false, List, [], ◌∷◌, ◌++◌, arith, ◌==◌, if◌then◌else◌, any, keys,
}
use steeleagle.Gcs.Cli.{Prompts, CommandRequest, key_command, sent_for, consume_keys}

-- the commands of the keys before the first ESC, each by itself
abbrev commands : String → List (String × Prompts) → List CommandRequest
commands vehicle [] = []
commands vehicle ((key, p) ∷ keys) =
    if key == "\u{1b}" then [] else sent_for vehicle (key_command key p) ++ commands vehicle keys

-- Without the key that compiles, the commands are those of the keys before the first ESC, each by itself
-- and in the order of the keys.
consume_keys-commands :
    (vehicle : String) (keys : List (String × Prompts))
    → any (λ (k : String × Prompts). k.0 == "c") keys ≡ false
    → consume_keys vehicle 0 keys ≡ commands vehicle keys
unfolding consume_keys
consume_keys-commands vehicle [] e = refl
consume_keys-commands vehicle ((key, p) ∷ keys) e =
    ground (arith, consume_keys-commands vehicle keys)
