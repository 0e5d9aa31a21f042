-- ===== src/Runtime/Resources/Closing.antt =====
-- sdk/src/steeleagle_sdk/api/mission_store.py and dsl/runtime/__init__.py: what is closed when a runtime is released.
use steeleagle.Prelude.{
  ℕ, ◌≡◌, refl, ◌∙◌, subst, ◌≢◌, ◌⊎◌, inl, inr, true, false, Option, none, some, List, [], ◌∷◌,
  ◌++◌, arith, eqb, Bool-cases, In, here, there,
}
use steeleagle.Runtime.Resources.{
  World, without, close, cancel, Store, stop_store, stop_held, cancel_mission, Held, release,
}

abbrev pub the_number : Option ℕ → List ℕ
the_number none = []
the_number (some h) = h ∷ []

abbrev store_connections : Option Store → List ℕ
store_connections none = []
store_connections (some st) = the_number st.results ++ the_number st.telemetry ++ the_number st.db

abbrev pub store_tasks : Option Store → List ℕ
store_tasks none = []
store_tasks (some st) = st.tasks

-- what the names refer to
abbrev pub connections_of : {Mission : Type 0} → Held Mission → List ℕ
connections_of h = store_connections h.store ++ the_number h.channel

abbrev pub tasks_of : {Mission : Type 0} → Held Mission → List ℕ
tasks_of h = the_number h.mission_task ++ store_tasks h.store

-- No name holds anything.
abbrev pub IsBare : {Mission : Type 0} → Held Mission → Type 0
IsBare h = (h.channel ≡ none) × (h.store ≡ none) × (h.mission_task ≡ none)

pub not_In : {A : Type 0} (x : A) → ¬ In x []
not_In x m = elim m [ ]

In-kept :
    (h x k : ℕ) (xs ys : List ℕ)
    → x ≢ h
    → (In k ys → In k xs × (k ≢ h))
    → In k (x ∷ ys)
    → In k (x ∷ xs) × (k ≢ h)
In-kept h x k xs ys ne rest here = (here, ne)
In-kept h x k xs ys ne rest (there m) = let (p, q) = rest m in (there p, q)

without-same : (h x : ℕ) (xs : List ℕ) → eqb x h ≡ true → without h (x ∷ xs) ≡ without h xs
without-same h x xs e = rw e

without-other : (h x : ℕ) (xs : List ℕ) → eqb x h ≡ false → without h (x ∷ xs) ≡ x ∷ without h xs
without-other h x xs e = rw e

pub In-without : (h k : ℕ) (xs : List ℕ) → In k (without h xs) → In k xs × (k ≢ h)
In-without h k [] m = absurd (not_In k m)
In-without h k (x ∷ xs) m = elim (Bool-cases (eqb x h)) [
  | inl p ↦ let (q, r) = In-without h k xs (subst (In k) (without-same h x xs p) m) in (there q, r)
  | inr p ↦
      In-kept h x k xs (without h xs) (λ e. absurd (ground arith)) (In-without h k xs)
        (subst (In k) (without-other h x xs p) m)
]

pub In-split : {A : Type 0} (x : A) (xs ys : List A) → In x (xs ++ ys) → In x xs ⊎ In x ys
In-split x [] ys m = inr m
In-split x (y ∷ xs) ys here = inl here
In-split x (y ∷ xs) ys (there m) = elim (In-split x xs ys m) [
  | inl p ↦ inl (there p)
  | inr p ↦ inr p
]

not_In-cons : {A : Type 0} {x y : A} {xs : List A} → x ≢ y → ¬ In x xs → ¬ In x (y ∷ xs)
not_In-cons ne rest here = ne refl
not_In-cons ne rest (there m) = rest m

In-close :
    (o : Option ℕ) (k : ℕ) (w : World)
    → In k (close o w).connections
    → In k w.connections × ¬ In k (the_number o)
unfolding close
In-close none k w m = (m, not_In k)
In-close (some h) k w m =
    let (p, q) = In-without h k w.connections m in (p, not_In-cons q (not_In k))

cancel-connections : (ts : List ℕ) (w : World) → (cancel ts w).connections ≡ w.connections
unfolding cancel
cancel-connections [] w = refl
cancel-connections (t ∷ ts) w = cancel-connections ts _

close-running : (o : Option ℕ) (w : World) → (close o w).running ≡ w.running
unfolding close
close-running none w = refl
close-running (some h) w = refl

In-cancel :
    (ts : List ℕ) (k : ℕ) (w : World) → In k (cancel ts w).running → In k w.running × ¬ In k ts
unfolding cancel
In-cancel [] k w m = (m, not_In k)
In-cancel (t ∷ ts) k w m =
    let (p, q) = In-cancel ts k (record w { running = without t w.running }) m in
    let (r, ne) = In-without t k w.running p in (r, not_In-cons ne q)

pub not_In-append :
    {A : Type 0} (x : A) (xs ys : List A) → ¬ In x xs → ¬ In x ys → ¬ In x (xs ++ ys)
not_In-append x xs ys p q m = elim (In-split x xs ys m) [ inl a ↦ p a | inr b ↦ q b ]

-- what stopping a store leaves
In-stop_held :
    (st : Option Store) (k : ℕ) (w : World)
    → In k (stop_held st w).connections
    → In k w.connections × ¬ In k (store_connections st)
unfolding stop_held stop_store
In-stop_held none k w m = (m, not_In k)
In-stop_held (some st) k w m =
    let (a, p) = In-close st.db k _ m in
    let (b, q) = In-close st.results k _ a in
    let (c, r) = In-close st.telemetry k _ b in
    (
      subst (In k) (cancel-connections st.tasks w) c,
      not_In-append k (the_number st.results ++ the_number st.telemetry) (the_number st.db)
          (not_In-append k (the_number st.results) (the_number st.telemetry) q r) p,
    )

In-stop_held_tasks :
    (st : Option Store) (k : ℕ) (w : World)
    → In k (stop_held st w).running
    → In k w.running × ¬ In k (store_tasks st)
unfolding stop_held stop_store
In-stop_held_tasks none k w m = (m, not_In k)
In-stop_held_tasks (some st) k w m = In-cancel st.tasks k w (
    subst (In k)
      (close-running st.db _
        ∙ (close-running st.results _ ∙ close-running st.telemetry (cancel st.tasks w)))
      m)

pub cancel_mission-connections :
    (o : Option ℕ) (w : World) → (cancel_mission o w).connections ≡ w.connections
unfolding cancel_mission
cancel_mission-connections none w = refl
cancel_mission-connections (some t) w = cancel-connections (t ∷ []) w

pub In-cancel_mission :
    (o : Option ℕ) (k : ℕ) (w : World)
    → In k (cancel_mission o w).running
    → In k w.running × ¬ In k (the_number o)
unfolding cancel_mission
In-cancel_mission none k w m = (m, not_In k)
In-cancel_mission (some t) k w m = In-cancel (t ∷ []) k w m

module _ {Mission : Type 0} where
  pub In-release :
      (h : Held Mission) (k : ℕ)
      → In k (release h).world.connections
      → In k h.world.connections × ¬ In k (connections_of h)
  unfolding release
  In-release h k m =
      let (a, p) = In-close h.channel k (stop_held h.store h.world) m in
      let (b, q) = In-stop_held h.store k h.world a in
      (b, not_In-append k (store_connections h.store) _ q p)

  pub In-release_tasks :
      (h : Held Mission) (k : ℕ)
      → In k (release h).world.running
      → In k h.world.running × ¬ In k (store_tasks h.store)
  unfolding release
  In-release_tasks h k m =
      In-stop_held_tasks h.store k h.world
        (subst (In k) (close-running h.channel (stop_held h.store h.world)) m)
