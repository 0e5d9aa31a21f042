-- ===== src/Gcs/Control/Threads.antt =====
-- gcs/streamlit/pages/control.py: the threads that send a manual command, in any order.
use steeleagle.Prelude.{
  ◌+◌, ◌≤◌, ◌<◌, String, ◌≡◌, refl, sym, ap, subst, List, [], ◌∷◌, arith, length, In, here, there,
}
use steeleagle.Gcs.Control.{Sending, Step, spawn, call, Steps, done, next, fresh}

-- Every vehicle that is named is one of those selected, and none is counted twice.
record IsFair (selected : List String) (s : Sending) : Type 0 where
  counted : length s.sent + s.waiting + length s.left ≡ length selected
  to_send : (v : String) → In v s.left → In v selected
  set : 0 < s.waiting → In s.vehicle selected
  sent_to : (v : String) → In v s.sent → In v selected

fresh-IsFair : (selected : List String) → IsFair selected (fresh selected)
fresh-IsFair selected = record {
  counted = omega arith;
  to_send = λ v m. m;
  set = λ h. absurd (omega arith);
  sent_to = λ v m. elim m [ ];
}

In-cons :
    {x v : String} {xs selected : List String}
    → In x selected
    → ((u : String) → In u xs → In u selected)
    → In v (x ∷ xs)
    → In v selected
In-cons first others here = first
In-cons first others (there m) = others _ m

Step-IsFair :
    {selected : List String} {s t : Sending} → Step s t → IsFair selected s → IsFair selected t
Step-IsFair {selected} (spawn s v vs e) f = record {
  counted = omega (arith, f.counted, ap length e);
  to_send = λ u m. f.to_send u (subst (λ (l : List String). In u l) (sym e) (there m));
  set = λ h. f.to_send v (subst (λ (l : List String). In v l) (sym e) here);
  sent_to = f.sent_to;
}
Step-IsFair {selected} (call s n e) f = record {
  counted = omega (arith, f.counted);
  to_send = f.to_send;
  set = λ h. f.set (omega arith);
  sent_to = λ u m. In-cons (f.set (omega arith)) f.sent_to m;
}

Steps-IsFair :
    {selected : List String} {s t : Sending} → Steps s t → IsFair selected s → IsFair selected t
Steps-IsFair done f = f
Steps-IsFair (next run step) f = Step-IsFair step (Steps-IsFair run f)

-- Whenever the loop is through and all threads have called the stub, as many commands were sent as
-- vehicles are selected, and each went to a vehicle that is selected. In between no more were sent.
pub run-Fair :
    (selected : List String) (t : Sending)
    → Steps (fresh selected) t
    → (length t.sent ≤ length selected)
      × ((v : String) → In v t.sent → In v selected)
      × (t.left ≡ [] → t.waiting ≡ 0 → length t.sent ≡ length selected)
run-Fair selected t run =
    let f = Steps-IsFair run (fresh-IsFair selected) in
    (omega (arith, f.counted), f.sent_to, λ e w. omega (arith, f.counted, ap length e))

-- The first thread may call the stub after the second vehicle is set: the first gets no command.
pub overtaken :
    (v w : String)
    → Steps (fresh (v ∷ w ∷ [])) (record { vehicle = w; waiting = 0; left = []; sent = w ∷ w ∷ [] })
overtaken v w =
    next
      (next
        (next (next done (spawn (fresh (v ∷ w ∷ [])) v (w ∷ []) refl))
          (spawn (record { vehicle = v; waiting = 1; left = w ∷ []; sent = [] }) w [] refl))
        (call (record { vehicle = w; waiting = 2; left = []; sent = [] }) 1 refl))
      (call (record { vehicle = w; waiting = 1; left = []; sent = w ∷ [] }) 0 refl)
