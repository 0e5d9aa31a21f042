-- ===== src/Vehicle/Sinks/Synced.antt =====
-- vehicle/kernel/services/compute_service.py with the stream handler: which engines the producers
-- send to.
use steeleagle.Prelude.{
  ◌⊎◌, inl, inr, String, ◌≡◌, refl, ap, ◌∙◌, Bool, true, ◌&&◌, ◌||◌, not, List, [], ◌∷◌, ◌++◌,
  arith, ◌==◌, eq_iff, any, All, mem,
}
use steeleagle.Vehicle.Sinks.{
  Datasink, Sinks, sink_name, add, new_datasinks, union, difference, remote_engines, local_engines,
  change_target_engines, change_local, update_target_engines, Request, add_datasinks, set_datasinks,
  remove_datasinks, datasinks_after, handle, handles,
}

-- Every producer of the list sends to these engines.
abbrev pub Carry : List String → List (List String) → Type 0
Carry engines ps = All (λ (p : List String). p ≡ engines) ps

map-Carry :
    (engines : List String) (ps : List (List String))
    → Carry engines (change_target_engines engines ps)
unfolding change_target_engines
map-Carry engines [] = tt
map-Carry engines (p ∷ ps) = (refl, map-Carry engines ps)

mem-append : (x y : String) (xs : List String) → mem x (xs ++ y ∷ []) ≡ (mem x xs || (x == y))
mem-append x y [] = ground arith
mem-append x y (z ∷ zs) = ground (arith, mem-append x y zs)

mem_of_eq : (x y : String) (xs : List String) → (x == y) ≡ true → mem x xs ≡ mem y xs
mem_of_eq x y xs e = ap (λ z. mem z xs) ((eq_iff x y).0 e)

mem-add : (x y : String) (xs : List String) → mem x (add y xs) ≡ (mem x xs || (x == y))
unfolding add
mem-add x y xs = ground (arith, mem-append x y xs, mem_of_eq x y xs)

mem-union : (x : String) (xs ys : List String) → mem x (union xs ys) ≡ (mem x xs || mem x ys)
unfolding union
mem-union x xs [] = ground arith
mem-union x xs (y ∷ ys) = ground (arith, mem-union x (add y xs) ys, mem-add x y xs)

mem-difference :
    (x : String) (xs ys : List String) → mem x (difference xs ys) ≡ (mem x xs && not (mem x ys))
unfolding difference
mem-difference x [] ys = ground arith
mem-difference x (z ∷ zs) ys = ground (arith, mem-difference x zs ys, eq_iff x z, mem_of_eq x z ys)

-- whether one of the sinks has the name
abbrev pub names : List Datasink → String → Bool
names ds x = any (λ (d : Datasink). x == sink_name d) ds

mem-new_datasinks :
    (x : String) (ds : List Datasink) (found : List String)
    → mem x (new_datasinks ds found) ≡ (mem x found || names ds x)
unfolding new_datasinks
mem-new_datasinks x [] found = ground arith
mem-new_datasinks x (d ∷ ds) found =
    ground (arith, mem-new_datasinks x ds (add (sink_name d) found), mem-add x (sink_name d) found)

-- The request on the abstract set, a predicate on names.
abbrev pub effect : Request → (String → Bool) → String → Bool
effect (add_datasinks ds) held x = held x || names ds x
effect (set_datasinks ds) held x = names ds x
effect (remove_datasinks ds) held x = held x && not (names ds x)

-- The name is a member after the request.
abbrev pub member_after : Request → List String → String → Bool
member_after r now x = effect r (λ y. mem y now) x

-- What a request leaves: its members, every remote producer at the remote engines, and the local
-- producers at the local engines, unless there are none.
pub record IsUpdated (r : Request) (before after : Sinks) : Type 0 where
  pub members : (x : String) → mem x after.datasinks ≡ member_after r before.datasinks x
  pub remote : Carry (remote_engines after.datasinks) after.remote_producers
  pub local :
      Carry (local_engines after.datasinks) after.local_producers
      ⊎ ((local_engines after.datasinks ≡ []) × (after.local_producers ≡ before.local_producers))

after-members :
    (r : Request) (now : List String) (x : String)
    → mem x (datasinks_after r now) ≡ member_after r now x
unfolding datasinks_after
after-members (add_datasinks ds) now x =
    ground (arith, mem-union x now (new_datasinks ds []), mem-new_datasinks x ds [])
after-members (set_datasinks ds) now x = mem-new_datasinks x ds []
after-members (remove_datasinks ds) now x =
    ground (arith, mem-difference x now (new_datasinks ds []), mem-new_datasinks x ds [])

local-Carry :
    (engines : List String) (ps : List (List String))
    → Carry engines (change_local engines ps) ⊎ ((engines ≡ []) × (change_local engines ps ≡ ps))
unfolding change_local
local-Carry [] ps = inr (refl, refl)
local-Carry (e ∷ es) ps = inl (map-Carry (e ∷ es) ps)

-- After each request the set has exactly the members that a union, an assignment or a difference of
-- sets gives it; every remote producer sends to the set's remote engines; every local producer sends
-- to its local engines if there are any, and otherwise keeps the engines that it had before.
handle-IsUpdated : (r : Request) (s : Sinks) → IsUpdated r s (handle r s)
unfolding handle update_target_engines
handle-IsUpdated r s = record {
  members = after-members r s.datasinks;
  remote = map-Carry _ s.remote_producers;
  local = local-Carry _ s.local_producers;
}

-- The requests on the abstract set, in their order.
unfoldable pub replay : List Request → (String → Bool) → String → Bool
replay [] held = held
replay (r ∷ rs) held = replay rs (effect r held)

-- The service refines an abstract set of names: after any sequence of requests, a name is in the
-- service's list exactly if it is in the set that the requests make, by union, assignment and
-- difference, of the names at the start.
pub handles-replay :
    (rs : List Request) (s : Sinks) (x : String)
    → mem x (handles rs s).datasinks ≡ replay rs (λ y. mem y s.datasinks) x
unfolding handles handle update_target_engines replay
handles-replay [] s x = refl
handles-replay (r ∷ rs) s x =
    handles-replay rs (handle r s) x
    ∙ ap (λ p. replay rs p x) (λ i y. after-members r s.datasinks y i)
