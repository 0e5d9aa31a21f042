-- ===== src/Law/Authority/Matching.antt =====
-- Which commands a law allows, and which entry of the match lists decides.
use steeleagle.Prelude.{
  inl, inr, ◌⊎◌, Bool-cases, Option-cases, String, ◌≡◌, refl, sym, ap, ◌∙◌, Bool, true, false,
  Option, none, some, some_inj, List, [], ◌∷◌, ◌++◌, arith, any, In, here, there, any-In, In-any,
  In-append_left, In-append_right, type_error, key_error, Result, ok, err,
}
use steeleagle.Law.Kernel.{Kernel}
use steeleagle.Law.Authority.{
  Law, Authority, allowed_of, matches_of, current, base, check_equal, allowed_lists, allows,
  first_match, user_matches, match_lists, next_state,
}

module _ (k : Kernel) where
  open k use {Request}

  -- What `allows` may come to, and what is then the case.
  pub data Verdict (a : Authority k) (command : String) (request : Request)
      : Result Bool → Type 0 where
    no_law : current k a ≡ none → Verdict a command request (err type_error)
    unlisted :
        (law : Law)
        → current k a ≡ some law
        → (allowed_of law ≡ none) ⊎ ((b : Law) → base k a ≡ some b → allowed_of b ≡ none)
        → Verdict a command request (err key_error)
    permitted :
        (law b : Law) (own more : List String) (expr : String)
        → current k a ≡ some law
        → base k a ≡ some b
        → allowed_of law ≡ some own
        → allowed_of b ≡ some more
        → In expr own ⊎ In expr more
        → check_equal k command request expr ≡ true
        → Verdict a command request (ok true)
    refused :
        (law b : Law) (own more : List String)
        → current k a ≡ some law
        → base k a ≡ some b
        → allowed_of law ≡ some own
        → allowed_of b ≡ some more
        → ((expr : String)
            → In expr own ⊎ In expr more
            → check_equal k command request expr ≡ false)
        → Verdict a command request (ok false)

  In-split : {x : String} (xs ys : List String) → In x (xs ++ ys) → In x xs ⊎ In x ys
  In-split [] ys m = inr m
  In-split (y ∷ xs) ys here = inl here
  In-split (y ∷ xs) ys (there m) = elim (In-split xs ys m) [ inl p ↦ inl (there p) | inr p ↦ inr p ]

  In-join : {x : String} (xs ys : List String) → In x xs ⊎ In x ys → In x (xs ++ ys)
  In-join xs ys (inl m) = In-append_left ys m
  In-join xs ys (inr m) = In-append_right xs m

  listed-Verdict :
      (a : Authority k) (law b : Law) (own more : List String) (command : String)
      (request : Request)
      → current k a ≡ some law
      → base k a ≡ some b
      → allowed_of law ≡ some own
      → allowed_of b ≡ some more
      → Verdict a command request (ok (any (check_equal k command request) (own ++ more)))
  listed-Verdict a law b own more command request p q u v =
      elim (Bool-cases (any (check_equal k command request) (own ++ more))) [
        | inl e ↦
            let (expr, m, fits) = any-In (check_equal k command request) (own ++ more) e in
            rw e (permitted law b own more expr p q u v (In-split own more m) fits)
        | inr e ↦ rw e (
            refused law b own more p q u v (λ expr m.
              elim (Bool-cases (check_equal k command request expr)) [
                | inl f ↦ cc (In-any (check_equal k command request) (In-join own more m) f)
                | inr f ↦ f
              ]))
      ]

  -- `allows` raises a TypeError before the first change of law, and a KeyError where the law or the base
  -- law has no list under `allowed` of its `rules` (or there is no base law). Otherwise it answers: yes,
  -- and then an entry of one of the two lists fits the command, or no, and then no entry of either does.
  pub allows-Verdict :
      (a : Authority k) (command : String) (request : Request)
      → Verdict a command request (allows k a command request)
  unfolding allows allowed_lists
  allows-Verdict a command request = elim (Option-cases (current k a)) [
    | inl p ↦ gives (err type_error) (no_law p) (ground arith)
    | inr (law, p) ↦ elim (Option-cases (allowed_of law)) [
      | inl u ↦ gives (err key_error) (unlisted law p (inl u)) (ground arith)
      | inr (own, u) ↦ elim (Option-cases (base k a)) [
        | inl q ↦
            gives (err key_error) (unlisted law p (inr (λ b e. absurd (ground arith))))
              (ground arith)
        | inr (b, q) ↦ elim (Option-cases (allowed_of b)) [
          | inl v ↦
              gives (err key_error)
                (unlisted law p (inr (λ c e. ap allowed_of (some_inj (sym e ∙ q)) ∙ v)))
                (ground arith)
          | inr (more, v) ↦
              gives (ok (any (check_equal k command request) (own ++ more)))
                (listed-Verdict a law b own more command request p q u v) (ground arith)
        ]
      ]
    ]
  ]
    where
      gives :
          (r : Result Bool)
          → Verdict a command request r
          → allows k a command request ≡ r
          → Verdict a command request (allows k a command request)
      gives r v e = rw e v

  abbrev pub fits : String → Request → String × String → Bool
  fits command request entry = check_equal k command request entry.0

  first_match-found :
      (command : String) (request : Request) (found : Option String) (l : List (String × String))
      → any (fits command request) l ≡ true
      → first_match k command request found l ≡ first_match k command request none l
  unfolding first_match
  first_match-found command request found [] h = cc
  first_match-found command request found ((expr, target) ∷ rest) h =
      ground (arith, first_match-found command request found rest)

  first_match-none :
      (command : String) (request : Request) (found : Option String) (l : List (String × String))
      → any (fits command request) l ≡ false
      → first_match k command request found l ≡ found
  unfolding first_match
  first_match-none command request found [] h = refl
  first_match-none command request found ((expr, target) ∷ rest) h =
      ground (arith, first_match-none command request found rest)

  -- The first entry of a list that fits: no entry before it does.
  pub data FirstFit (command : String) (request : Request) (l : List (String × String))
      (target : String) : Type 0 where
    first :
        (before after : List (String × String)) (expr : String)
        → l ≡ before ++ (expr, target) ∷ after
        → any (fits command request) before ≡ false
        → check_equal k command request expr ≡ true
        → FirstFit command request l target

  FirstFit-later :
      (command : String) (request : Request) (entry : String × String) (l : List (String × String))
      (target : String)
      → check_equal k command request entry.0 ≡ false
      → FirstFit command request l target
      → FirstFit command request (entry ∷ l) target
  FirstFit-later command request entry l target e (first before after expr parts none_before fit) =
      first (entry ∷ before) after expr (ap (λ r. entry ∷ r) parts) (rw e none_before) fit

  first_match-FirstFit :
      (command : String) (request : Request) (l : List (String × String))
      → any (fits command request) l ≡ true
      → (target : String) × (first_match k command request none l ≡ some target)
        × FirstFit command request l target
  unfolding first_match
  first_match-FirstFit command request [] h = cc
  first_match-FirstFit command request ((expr, target) ∷ rest) h =
      elim (Bool-cases (check_equal k command request expr)) [
        | inl e ↦ (target, ground arith, first [] rest expr refl refl e)
        | inr e ↦
            let (found, p, q) = first_match-FirstFit command request rest (rw e at h) in
            (found, ground (arith, p), FirstFit-later command request (expr, target) rest found e q)
      ]

  -- Which entry decides, over the entries of the base law and those of the current law.
  pub data Decided (command : String) (request : Request) (matches own : List (String × String))
      : Option String → Type 0 where
    by_base :
        (target : String)
        → FirstFit command request matches target
        → Decided command request matches own (some target)
    by_law :
        (target : String)
        → any (fits command request) matches ≡ false
        → FirstFit command request own target
        → Decided command request matches own (some target)
    undecided :
        any (fits command request) matches ≡ false
        → any (fits command request) own ≡ false
        → Decided command request matches own none

  loops-Decided :
      (command : String) (request : Request) (matches own : List (String × String))
      → Decided command request matches own
          (first_match k command request (first_match k command request none own) matches)
  loops-Decided command request matches own =
      elim (Bool-cases (any (fits command request) matches)) [
        | inl e ↦
            let (target, p, q) = first_match-FirstFit command request matches e in
            rw
              (
                first_match-found command request (first_match k command request none own) matches
                    e,
                p,
              )
              (by_base target q)
        | inr e ↦ elim (Bool-cases (any (fits command request) own)) [
          | inl f ↦
              let (target, p, q) = first_match-FirstFit command request own f in
              rw
                (
                  first_match-none command request (first_match k command request none own) matches
                      e,
                  p,
                )
                (by_law target e q)
          | inr f ↦
              rw
                (
                  first_match-none command request (first_match k command request none own) matches
                      e,
                  first_match-none command request none own f,
                )
                (undecided e f)
        ]
      ]

  -- Where the base law has a list under `match` and the current law has `rules`, `match` finds a next
  -- state without raising, and the base law's entries have the last word: if one of them fits, the first
  -- that does (no entry before it fits) gives the state, whatever the current law says; if none fits, the
  -- first fitting entry of the current law gives it; if none fits there either, there is none.
  pub next_state-Decided :
      (a : Authority k) (law b : Law) (matches own : List (String × String)) (command : String)
      (request : Request)
      → current k a ≡ some law
      → base k a ≡ some b
      → matches_of b ≡ some matches
      → user_matches k law ≡ ok own
      → (next : Option String) × (next_state k a command request ≡ ok next)
        × Decided command request matches own next
  unfolding next_state match_lists
  next_state-Decided a law b matches own command request p q r u = (
    first_match k command request (first_match k command request none own) matches,
    ground arith,
    loops-Decided command request matches own,
  )
