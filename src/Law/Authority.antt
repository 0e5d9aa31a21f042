-- ===== src/Law/Authority.antt =====
-- `LawAuthority` of vehicle/kernel/laws/authority.py: the state of the control law and the methods
-- that query and change it. `_law` and `_base` are references into `_spec`, so they are read there.
-- A method that takes the writer lock is one step.
pub mod Transitions
pub mod Placed
pub mod Failsafes
pub mod Ruled
pub mod Matching
use steeleagle.Prelude.{
  String, Bool, true, false, ◌||◌, Option, none, some, List, [], ◌∷◌, ◌++◌, map, ◌==◌,
  if◌then◌else◌, any, all, key_error, type_error, Result, ok, err, Dict, lookup, insert, split,
}
use steeleagle.Law.Glob.{fnmatch}
use steeleagle.Law.Kernel.{Kernel, Call, Response}
use steeleagle.Law.Commands.{Command, json, send_commands, all_completed}

-- the table `rules` of a law: the lists under `allowed` and `match`
pub record Rules : Type 0 where
  pub allowed : Option (List String)
  pub matches : Option (List (String × String))

-- One law of the TOML file. Any key may be missing.
pub record Law : Type 0 where
  pub enter : Option (List String)
  pub rules : Option Rules
  pub failsafes : Option (Dict (List String))

-- `law['rules']['allowed']` and `law['rules']['match']`, where `none` is the KeyError
unfoldable pub allowed_of : Law → Option (List String)
allowed_of law = elim law.rules [ none ↦ none | some r ↦ r.allowed ]

unfoldable pub matches_of : Law → Option (List (String × String))
matches_of law = elim law.rules [ none ↦ none | some r ↦ r.matches ]

abbrev pub base_name : String
base_name = "__BASE__"

abbrev pub remote_name : String
remote_name = "REMOTE"

-- `Failsafe`, with the names that its members have in the law file
pub data Failsafe : Type 0 where
  dc_server dc_driver dc_mission dc_remote_compute dc_local_compute core_error : Failsafe

-- failsafe.name.lower()
unfoldable pub failsafe_name : Failsafe → String
failsafe_name dc_server = "dc_server"
failsafe_name dc_driver = "dc_driver"
failsafe_name dc_mission = "dc_mission"
failsafe_name dc_remote_compute = "dc_remote_compute"
failsafe_name dc_local_compute = "dc_local_compute"
failsafe_name core_error = "core_error"

module _ (k : Kernel) where
  open k use {Request, Value, same, loads, to_dict}

  pub record Authority : Type 0 where
    pub spec : Dict Law
    pub state : Option String
    pub sent : List (Call Request)

  -- self._law, None before the first transition
  unfoldable pub current : Authority → Option Law
  unfolding lookup
  current a = elim a.state [ none ↦ none | some s ↦ lookup s a.spec ]

  -- self._base
  unfoldable pub base : Authority → Option Law
  unfolding lookup
  base a = lookup base_name a.spec

  -- k in obj and obj[k] == v for every item of the payload
  unfoldable pub holds : Dict Value → Dict Value → Bool
  unfolding lookup
  holds obj payload =
      all (λ (p : String × Value). elim (lookup p.0 obj) [ none ↦ false | some v ↦ same v p.1 ])
        payload

  payload_equal : String → Request → String → String → Bool
  unfolding holds fnmatch
  payload_equal command request root payload = elim (loads payload) [
    | none ↦ false
    | some want ↦
        if fnmatch command root
        then (elim (to_dict request) [ none ↦ false | some obj ↦ holds obj want ])
        else false
  ]

  -- The clauses are the cases of `len(splits)`; more than one bar raises in the `try` block.
  split_equal : String → Request → List String → Bool
  unfolding payload_equal fnmatch
  split_equal command request [] = false
  split_equal command request (root ∷ []) = fnmatch command root
  split_equal command request (root ∷ payload ∷ []) = payload_equal command request root payload
  split_equal command request _ = false

  unfoldable pub check_equal : String → Request → String → Bool
  unfolding split_equal split
  check_equal command request matcher = split_equal command request (split b'|' matcher)

  -- the two lists, of the current law first; `None['rules']` is a TypeError
  unfoldable pub allowed_lists : Authority → Result (List String)
  unfolding current base allowed_of
  allowed_lists a = elim (current a) [
    | none ↦ err type_error
    | some law ↦ elim (allowed_of law) [
      | none ↦ err key_error
      | some own ↦ elim (base a) [
        | none ↦ err key_error
        | some b ↦ elim (allowed_of b) [ none ↦ err key_error | some more ↦ ok (own ++ more) ]
      ]
    ]
  ]

  unfoldable pub allows : Authority → String → Request → Result Bool
  unfolding allowed_lists
  allows a command request = elim (allowed_lists a) [
    | err e ↦ err e
    | ok exprs ↦ ok (any (check_equal command request) exprs)
  ]

  -- One `for … break` loop of `match`: the target of the first entry that fits, else what was there.
  unfoldable pub first_match :
      String → Request → Option String → List (String × String) → Option String
  first_match command request found [] = found
  first_match command request found ((expr, target) ∷ rest) =
      elim (check_equal command request expr) [
        | true ↦ some target
        | false ↦ first_match command request found rest
      ]

  -- the entries of the current law: none without `match`, a KeyError without `rules`
  unfoldable pub user_matches : Law → Result (List (String × String))
  user_matches law = elim law.rules [
    | none ↦ err key_error
    | some r ↦ elim r.matches [ none ↦ ok [] | some entries ↦ ok entries ]
  ]

  -- the entries of the base law and those of the current law, in the order in which they are looked up
  unfoldable pub match_lists : Authority → Result (List (String × String) × List (String × String))
  unfolding current base matches_of user_matches
  match_lists a = elim (base a) [
    | none ↦ err key_error
    | some b ↦ elim (matches_of b) [
      | none ↦ err key_error
      | some matches ↦ elim (current a) [
        | none ↦ err type_error
        | some law ↦ elim (user_matches law) [ err e ↦ err e | ok own ↦ ok (matches, own) ]
      ]
    ]
  ]

  -- The law that `match` would switch to, before it is compared with the present one.
  unfoldable pub next_state : Authority → String → Request → Result (Option String)
  unfolding match_lists first_match
  next_state a command request = elim (match_lists a) [
    | err e ↦ err e
    | ok (matches, own) ↦
        ok (first_match command request (first_match command request none own) matches)
  ]

  abbrev pub commands : List String → List (Command k.Packed)
  commands texts = map json texts

  -- Send a list of texts as the authority, and tell whether all were completed.
  unfoldable pub run : List String → Authority → Result Bool × Authority
  run texts a =
      let (r, log) = send_commands k "authority" (commands texts) a.sent in
      let a' : Authority = record a { sent = log } in
      (elim r [ ok rs ↦ ok (all_completed rs) | err e ↦ err e ], a')

  -- `set_law` behind the lock, with `state` in the specification.
  unfoldable pub enter_law : String → Law → Authority → Result Bool × Authority
  unfolding run
  enter_law s law a = elim law.enter [
    | none ↦ (err key_error, a)
    | some [] ↦ (ok true, record a { state = some s })
    | some (c ∷ cs) ↦
        let (r, a') = run (c ∷ cs) a in
        elim r [
          | err e ↦ (err e, a')
          | ok done ↦ if done then (ok true, record a' { state = some s }) else (ok false, a')
        ]
  ]

  unfoldable pub is_state : Option String → String → Bool
  is_state none s = false
  is_state (some t) s = s == t

  -- An unknown state becomes 'REMOTE'.
  unfoldable pub set_law : String → Authority → Result Bool × Authority
  unfolding enter_law is_state lookup
  set_law s a = if is_state a.state s then (ok true, a) else elim (lookup s a.spec) [
    | some law ↦ enter_law s law a
    | none ↦ elim (lookup remote_name a.spec) [
      | some law ↦ enter_law remote_name law a
      | none ↦ (err key_error, a)
    ]
  ]

  -- The end of `match`: a name that is empty or is the present one changes nothing.
  unfoldable pub switch : Result (Option String) → Authority → Result Bool × Authority
  unfolding set_law is_state
  switch (err e) a = (err e, a)
  switch (ok none) a = (ok true, a)
  switch (ok (some s)) a = if s == "" || is_state a.state s then (ok true, a) else set_law s a

  unfoldable pub match : String → Request → Authority → Result Bool × Authority
  unfolding next_state switch
  match command request a = switch (next_state a command request) a

  -- The list that `commands` names, and whether it is the law's own list.
  pub record Listed : Type 0 where
    pub texts : List String
    pub shared : Bool

  unfoldable pub law_failsafes : Law → String → Listed
  unfolding lookup
  law_failsafes law name = elim law.failsafes [
    | none ↦ record { texts = []; shared = false }
    | some d ↦ elim (lookup name d) [
      | none ↦ record { texts = []; shared = false }
      | some texts ↦ record { texts = texts; shared = true }
    ]
  ]

  unfoldable pub base_failsafes : Law → String → Result (List String)
  unfolding lookup
  base_failsafes b name = elim b.failsafes [
    | none ↦ err key_error
    | some d ↦ elim (lookup name d) [ none ↦ err key_error | some texts ↦ ok texts ]
  ]

  abbrev pub put_failsafe : String → List String → Law → Law
  put_failsafe name texts law = elim law.failsafes [
    | none ↦ law
    | some d ↦ record law { failsafes = some (insert name texts d) }
  ]

  -- `commands += …` changes the list in place: where it is the law's own, the law changes.
  unfoldable pub extend_law : String → Law → Listed → List String → Authority → Authority
  unfolding insert
  extend_law name law own extra a =
      if own.shared
      then (elim a.state [
        | none ↦ a
        | some s ↦ record a { spec = insert s (put_failsafe name (own.texts ++ extra) law) a.spec }
      ])
      else a

  unfoldable pub failsafe : Failsafe → Authority → Result Bool × Authority
  failsafe f a = elim (current a) [
    | none ↦ (err type_error, a)
    | some law ↦ elim (base a) [
      | none ↦ (err key_error, a)
      | some b ↦
          let name = failsafe_name f in
          let own = law_failsafes law name in
          elim (base_failsafes b name) [
            | err e ↦ (err e, a)
            | ok extra ↦ run (own.texts ++ extra) (extend_law name law own extra a)
          ]
    ]
  ]

  -- `start`: the startup commands, then the base law
  unfoldable pub start : List String → Authority → Result Bool × Authority
  unfolding run set_law
  start [] a = set_law base_name a
  start (c ∷ cs) a =
      let (r, a') = run (c ∷ cs) a in
      elim r [
        | err e ↦ (err e, a')
        | ok done ↦ if done then set_law base_name a' else (ok false, a')
      ]
