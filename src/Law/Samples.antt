-- ===== src/Law/Samples.antt =====
-- vehicle/kernel/laws: a small law file for the tests, and kernel services where one service answers
-- every call with 'completed'.
use steeleagle.Prelude.{String, false, Option, none, some, [], ◌∷◌, ◌==◌, ok}
use steeleagle.Law.Kernel.{Kernel, replied}
use steeleagle.Law.Authority.{Law, Authority}

abbrev pub kernel : Kernel
kernel = record {
  Request = String;
  Packed = String;
  Value = String;
  same = λ a b. a == b;
  loads = λ s. none;
  to_dict = λ r. none;
  name_table = ("Control", "steeleagle.Control") ∷ [];
  streams = λ s m. some false;
  parse_payload = λ s m p. ok p;
  unpack = λ s m p. p;
  unary = λ log c. replied (record { status = 2; response_string = "" });
  stream = λ log c. record { responses = []; failure = none };
}

abbrev pub base_law : Law
base_law = record {
  rules = some (record {
    allowed = some ("*.Report.*" ∷ []);
    matches = some (("*.Control.Hold", "REMOTE") ∷ []);
  });
  enter = some [];
  failsafes = some (("dc_server", "Control.Hold" ∷ []) ∷ []);
}

abbrev pub remote_law : Law
remote_law = record {
  rules = some (record {
    allowed = some ("server.Control.*" ∷ []);
    matches = some (("*.Control.Hold", "__BASE__") ∷ []);
  });
  enter = some ("Control.Hold" ∷ []);
  failsafes = some (("dc_server", "Control.Land" ∷ []) ∷ []);
}

-- the authority in a law of this file
abbrev pub standing : Option String → Authority kernel
standing s = record {
  spec = ("__BASE__", base_law) ∷ ("REMOTE", remote_law) ∷ [];
  state = s;
  sent = [];
}
