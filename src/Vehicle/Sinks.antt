-- ===== src/Vehicle/Sinks.antt =====
-- vehicle/kernel/services/compute_service.py, and `update_target_engines` of
-- vehicle/kernel/handlers/stream_handler.py. A set is a list without repetitions; a producer is the list
-- of the engines that it was told to send to.
pub mod Synced
use steeleagle.Prelude.{
  remove, remove_from, String, Bool, not, List, [], ◌∷◌, ◌++◌, map, if◌then◌else◌, keep, mem, codes,
  contains, concat,
}

-- `DatasinkInfo`: its id, and whether its location is local
pub record Datasink : Type 0 where
  pub id : String
  pub location : Bool

-- The service's set of data sinks, and the producers of the two compute handlers.
pub record Sinks : Type 0 where
  pub datasinks : List String
  pub remote_producers : List (List String)
  pub local_producers : List (List String)

unfoldable pub sink_name : Datasink → String
unfolding concat
sink_name d = concat ((if d.location then "local:" else "remote:") ∷ d.id ∷ [])

-- `add` of a set
unfoldable pub add : String → List String → List String
add x xs = if mem x xs then xs else xs ++ x ∷ []

-- the loop that builds `new_datasinks`
unfoldable pub new_datasinks : List Datasink → List String → List String
unfolding add sink_name
new_datasinks [] found = found
new_datasinks (d ∷ ds) found = new_datasinks ds (add (sink_name d) found)

-- `union` and `difference` of sets
unfoldable pub union : List String → List String → List String
unfolding add
union xs [] = xs
union xs (y ∷ ys) = union (add y xs) ys

unfoldable pub difference : List String → List String → List String
difference xs ys = keep (λ x. not (mem x ys)) xs

-- `change_target_engines` of every producer of a list
unfoldable pub change_target_engines : List String → List (List String) → List (List String)
change_target_engines engines ps = map (λ (p : List String). engines) ps

-- `if len(local_engines)`
unfoldable pub change_local : List String → List (List String) → List (List String)
change_local [] ps = ps
change_local (e ∷ es) ps = change_target_engines (e ∷ es) ps

pub data Request : Type 0 where
  add_datasinks set_datasinks remove_datasinks : List Datasink → Request

-- the new value of `_datasinks`
unfoldable pub datasinks_after : Request → List String → List String
unfolding union difference new_datasinks
datasinks_after (add_datasinks ds) now = union now (new_datasinks ds [])
datasinks_after (set_datasinks ds) now = new_datasinks ds []
datasinks_after (remove_datasinks ds) now = difference now (new_datasinks ds [])

-- the list that a branch of the loop of `update_target_engines` fills, with the prefix taken away
unfoldable pub remote_engines : List String → List String
unfolding contains remove_from
remote_engines [] = []
remote_engines (e ∷ es) =
    let rest = remote_engines es in
    if contains (codes "remote:") (codes e) then remove "remote:" e ∷ rest else rest

unfoldable pub local_engines : List String → List String
unfolding contains remove_from
local_engines [] = []
local_engines (e ∷ es) =
    let rest = local_engines es in
    if contains (codes "remote:") (codes e)
    then rest
    else if contains (codes "local:") (codes e)
    then remove "local:" e ∷ rest
    else rest

unfoldable pub update_target_engines : List String → Sinks → Sinks
unfolding change_target_engines change_local
update_target_engines targets s = record s {
  remote_producers = change_target_engines (remote_engines targets) s.remote_producers;
  local_producers = change_local (local_engines targets) s.local_producers;
}

-- The three requests; each is answered with status 2.
unfoldable pub handle : Request → Sinks → Sinks
unfolding update_target_engines datasinks_after
handle r s =
    let after = datasinks_after r s.datasinks in
    update_target_engines after (record s { datasinks = after })

unfoldable pub handles : List Request → Sinks → Sinks
unfolding handle
handles [] s = s
handles (r ∷ rs) s = handles rs (handle r s)
