-- ===== src/Backend/OpenScout.antt =====
-- backend/server/engines/detection/openscout_object_engine.py: which detections of a frame the engine
-- keeps, stores in Redis and reports. The image model, the drawing of images and the timing statistics
-- are left out; scores and coordinates are integers of thousandths.
pub mod Duplicates
use steeleagle.Prelude.{
  ℕ, String, Bool, true, false, ◌&&◌, ◌||◌, not, Option, none, some, List, [], ◌∷◌, ◌++◌, ◌==◌, eqb,
  if◌then◌else◌, length, any, keep, key_error, type_error, attribute_error, unbound_local_error,
  Result, ok, err, ◌>>=◌, Dict, lookup, insert, concat,
}
use steeleagle.Prelude.Int.{ℤ, pos, negsuc, ◌-ℤ◌, leb_ℤ, ltb_ℤ}
use steeleagle.Backend.Redis.{Command, hset, expire, geoadd, delete, zadd, Commands, Server}

-- The engine's settings.
pub record Settings : Type 0 where
  pub threshold : ℤ
  pub store_detections : Bool
  pub unittest : Bool
  pub search_radius : ℤ
  pub ttl_secs : ℤ
  pub geofence : List (ℤ × ℤ)
  pub geofence_enabled : Bool
  pub exclusions : List ℕ
  -- `os.environ["WEBSERVER"]`, if it is set
  pub webserver : Option String

-- What changes from frame to frame: the commands that went to Redis, and `last_geodb_gc_time`.
pub record Engine : Type 0 where
  pub sent : Commands
  pub last_geodb_gc_time : ℤ

-- Redis, with Pygeodesy's `isenclosedBy` at the one estimated position, and `os.path.join`.
pub record World : Type 0 where
  pub server : Server
  pub is_enclosed : List (ℤ × ℤ) → Bool
  pub join : List String → String

-- a row of the model's results
pub record Row : Type 0 where
  pub name : String
  pub class_id : ℕ
  pub confidence : ℤ

pub record Detection : Type 0 where
  pub id : String
  pub class_name : String
  pub score : ℤ
  pub lat : ℤ
  pub lon : ℤ

-- what a step comes to, with the engine after it
abbrev pub After {ℓ} : Type ℓ → Type ℓ
After A = Result A × Engine

unfoldable pub object_key : String → String
unfolding concat
object_key name = concat ("objects:" ∷ name ∷ [])

-- the loop of the garbage collection: the members whose object still exists
unfoldable pub living : Server → Commands → List (String × ℤ) → Dict ℤ → Dict ℤ
unfolding object_key insert
living s sent [] objects = objects
living s sent ((key, score) ∷ items) objects =
    living s sent items
      (if s.exists sent (object_key key) then insert key score objects else objects)

unfoldable pub geodb_garbage_collection : Server → Commands → Commands
unfolding living
geodb_garbage_collection s sent = elim (living s sent (s.zscan sent "detections") []) [
  | [] ↦ sent ++ delete "detections" ∷ []
  | o ∷ os ↦ sent ++ delete "detections" ∷ zadd "detections" (o ∷ os) ∷ []
]

unfoldable pub name_object : Server → Commands → String → Option String → String
unfolding concat
name_object s sent cls (some name) = name
name_object s sent cls none = concat (cls ∷ "-" ∷ s.random_hex sent ∷ [])

unfoldable pub store_detection_db :
    Server → ℤ → Commands → Detection → String → Option String → Commands
unfolding object_key name_object
store_detection_db s ttl sent d link object_name =
    let name = name_object s sent d.class_name object_name in
    let key = object_key name in
    sent
    ++ (geoadd "detections" d.lon d.lat name
        ∷ hset key "last_seen" (s.show (s.now sent))
        ∷ hset key "id" d.id
        ∷ hset key "cls" d.class_name
        ∷ hset key "confidence" (s.show d.score)
        ∷ hset key "link" link
        ∷ hset key "longitude" (s.show d.lon)
        ∷ hset key "latitude" (s.show d.lat)
        ∷ expire key ttl
        ∷ [])

-- `d and d["cls"] == cls`, where the hash may lack the field
unfoldable pub value_is : String → Option String → Result Bool
value_is cls none = err key_error
value_is cls (some value) = ok (value == cls)

unfoldable pub is_class : String → Dict String → Result Bool
unfolding lookup value_is
is_class cls [] = ok false
is_class cls (p ∷ d) = value_is cls (lookup "cls" (p ∷ d))

-- Behind `d["cls"] == cls`, both branches read `d['vehicle_id']` for their log before they return.
unfoldable pub same_class : String → String → Dict String → Result (Bool × Option String)
unfolding lookup
same_class obj vehicle d = do
  id ← elim (lookup "id" d) [ none ↦ err key_error | some v ↦ ok v ]
  shown ← elim (lookup "vehicle_id" d) [ none ↦ err key_error | some v ↦ ok v ]
  if id == vehicle then ok (true, some obj) else ok (false, none)

-- the loop over the objects that are near
unfoldable pub near_objects :
    Server → Commands → String → String → List String → Result (Bool × Option String)
unfolding object_key is_class same_class
near_objects s sent cls vehicle [] = ok (true, none)
near_objects s sent cls vehicle (obj ∷ objs) =
    let d = s.hgetall sent (object_key obj) in
    let rest = near_objects s sent cls vehicle objs in
    is_class cls d >>= (λ same. if same then same_class obj vehicle d else rest)

-- the garbage collection when it is due
unfoldable pub collected : Server → ℤ → Engine → Engine
unfolding geodb_garbage_collection
collected s ttl e =
    let now = s.now e.sent in
    if leb_ℤ ttl (now -ℤ e.last_geodb_gc_time)
    then record { sent = geodb_garbage_collection s e.sent; last_geodb_gc_time = now }
    else e

-- In a unit test there is no `self.r`.
unfoldable pub geofilter_passed :
    Server → Settings → Detection → Engine → After (Bool × Option String)
unfolding collected near_objects
geofilter_passed s c d e =
    let e' = collected s c.ttl_secs e in
    if c.unittest then (err attribute_error, e) else (
      near_objects s e'.sent d.class_name d.id
          (s.geosearch e'.sent "detections" d.lon d.lat c.search_radius),
      e',
    )

-- `store_detection_db` unless this is a unit test
unfoldable pub stored : Server → Settings → Detection → String → Option String → Engine → Engine
unfolding store_detection_db
stored s c d url prev_obj e =
    if c.unittest
    then e
    else record e { sent = store_detection_db s c.ttl_secs e.sent d url prev_obj }

-- The body of the loop for one detection: whether it is kept.
unfoldable pub fenced :
    World → Settings → String → Detection → Result (Bool × Option String) → Engine → After Bool
unfolding stored
fenced w c url d (err fault) e = (err fault, e)
fenced w c url d (ok (true, prev_obj)) e = (ok true, stored w.server c d url prev_obj e)
fenced w c url d (ok (false, prev_obj)) e = (ok false, e)

unfoldable pub keep_detection : World → Settings → String → Detection → Engine → After Bool
unfolding stored geofilter_passed fenced
keep_detection w c url d e =
    let (passed, e') = geofilter_passed w.server c d e in
    if not c.geofence_enabled
    then (ok true, stored w.server c d url none e)
    else if eqb (length c.geofence) 0 || w.is_enclosed c.geofence
    then fenced w c url d passed e'
    else (ok false, e)

-- the position, which is not estimated
unfoldable pub detection_of : String → Row → Detection
detection_of vehicle row = record {
  id = vehicle;
  class_name = row.name;
  score = row.confidence;
  lat = pos 42000;
  lon = pos 42000;
}

-- the loop over the rows
unfoldable pub keep_rows :
    World → Settings → String → String → List Row → Engine → After (List Detection)
unfolding keep_detection detection_of
keep_rows w c url vehicle [] e = (ok [], e)
keep_rows w c url vehicle (row ∷ rows) e =
    let d = detection_of vehicle row in
    let (kept, e') = keep_detection w c url d e in
    let (rest, last) = keep_rows w c url vehicle rows e' in
    elim kept [
      | err fault ↦ (err fault, e')
      | ok true ↦ (rest >>= (λ (ds : List Detection). ok (d ∷ ds)), last)
      | ok false ↦ (rest, last)
    ]

-- `df.filter`
unfoldable pub filtered : Settings → List Row → List Row
filtered c rows =
    keep (λ (r : Row). ltb_ℤ c.threshold r.confidence && not (any (eqb r.class_id) c.exclusions))
      rows

-- `detection_url`
unfoldable pub detection_url : World → Settings → String → String → Result String
detection_url w c vehicle filename =
    if c.store_detections
    then (elim c.webserver [
      | none ↦ err key_error
      | some server ↦ ok (w.join (server ∷ "detected" ∷ "vehicles" ∷ vehicle ∷ filename ∷ []))
    ])
    else ok ""

-- `process_results`, where `none` stands for None
unfoldable pub none_if_empty : List Detection → Option (List Detection)
none_if_empty [] = none
none_if_empty (d ∷ ds) = some (d ∷ ds)

unfoldable pub process_results :
    World → Settings → String → String → List Row → Engine → After (Option (List Detection))
unfolding keep_rows filtered detection_url none_if_empty
process_results w c vehicle filename rows e = elim (detection_url w c vehicle filename) [
  | err fault ↦ (err fault, e)
  | ok url ↦
      let (kept, e') = keep_rows w c url vehicle (filtered c rows) e in
      (kept >>= (λ ds. ok (none_if_empty ds)), e')
]

-- A frame: a text payload, or an image with the model's results for it, one table of rows for each
-- image of the batch.
pub record Frame : Type 0 where
  pub is_text : Bool
  pub vehicle : String
  pub filename : String
  pub results : List (List Row)

-- What `handle` returns: the rejection of a text, or a frame result whose only compute result holds
-- the text of the detections, if it has one.
pub data Answer : Type 0 where
  wrong_input_format : Answer
  frame_result : Option String → Answer

-- The rest of `handle` once `detections` is bound: a list is no value for a text field.
unfoldable pub answer : Option (List Detection) → Result Answer
answer none = ok (frame_result none)
answer (some ds) = err type_error

unfoldable pub handle_results : World → Settings → Frame → List (List Row) → Engine → After Answer
unfolding process_results answer
handle_results w c frame [] e = (err unbound_local_error, e)
handle_results w c frame (rows ∷ more) e =
    let (found, e') = process_results w c frame.vehicle frame.filename rows e in
    (found >>= (λ ds. answer ds), e')

unfoldable pub handle : World → Settings → Frame → Engine → After Answer
unfolding handle_results
handle w c frame e =
    if frame.is_text then (ok wrong_input_format, e) else handle_results w c frame frame.results e
