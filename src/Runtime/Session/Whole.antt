-- ===== src/Runtime/Session/Whole.antt =====
-- sdk/src/steeleagle_sdk/dsl/runtime/__init__.py: the module's state between its calls.
use steeleagle.Prelude.{String, ◌≡◌, refl, inl, inr, true, Option, some, Bool-cases}
use steeleagle.Runtime.Session.{
  Session, idle, Breaks, nowhere, at_channel, at_store, at_store_start, at_vehicle, at_compute,
  at_fsm, bring_up, clean_up, init, term,
}

-- A session is idle, or everything that a running mission needs is in place.
pub data IsWhole {Mission : Type 0} : Session Mission → Type 0 where
  down : (s : Session Mission) → s ≡ idle → IsWhole s
  running :
      (s : Session Mission) (m : Mission)
      → s.started ≡ true
      → s.fsm ≡ some m
      → s.fsm_task ≡ true
      → s.store ≡ true
      → s.channel ≡ true
      → s.vehicle ≡ true
      → s.compute ≡ true
      → IsWhole s

module _ {Mission : Type 0} where
  bring_up-IsWhole :
      (b : Breaks) (m : Mission) (mp : Option String) (s : Session Mission)
      → IsWhole (clean_up (bring_up b m mp s)).0
  unfolding clean_up bring_up
  bring_up-IsWhole nowhere m mp s = running _ m refl refl refl refl refl refl refl
  bring_up-IsWhole (at_channel e) m mp s = down _ refl
  bring_up-IsWhole (at_store e) m mp s = down _ refl
  bring_up-IsWhole (at_store_start e) m mp s = down _ refl
  bring_up-IsWhole (at_vehicle e) m mp s = down _ refl
  bring_up-IsWhole (at_compute e) m mp s = down _ refl
  bring_up-IsWhole (at_fsm e) m mp s = down _ refl

  pub init-IsWhole :
      (b : Breaks) (m : Mission) (mp : Option String) (s : Session Mission)
      → IsWhole s
      → IsWhole (init b m mp s).0
  unfolding init
  init-IsWhole b m mp s h = elim (Bool-cases s.started) [
    | inl p ↦ simp p h
    | inr p ↦ simp p (bring_up-IsWhole b m mp s)
  ]

  pub term-IsWhole : (s : Session Mission) → IsWhole s → IsWhole (term s)
  unfolding term
  term-IsWhole s h = elim (Bool-cases s.started) [
    | inl p ↦ simp p (down _ refl)
    | inr p ↦ simp p (h)
  ]
