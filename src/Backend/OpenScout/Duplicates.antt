-- ===== src/Backend/OpenScout/Duplicates.antt =====
-- backend/server/engines/detection/openscout_object_engine.py: detections near an object that is stored
-- already.
use steeleagle.Prelude.{
  String, ◌≡◌, refl, ap, ◌∙◌, inl, inr, Bool, true, false, ◌||◌, Option, none, some, List, [], ◌∷◌,
  ◌++◌, arith, ◌==◌, eqb, if◌then◌else◌, Option-cases, length, any, key_error, Result, ok, err,
  ◌>>=◌, Dict, lookup,
}
use steeleagle.Prelude.Int.{ℤ}
use steeleagle.Backend.Redis.{Command, hset, Commands, Server}
use steeleagle.Backend.OpenScout.{
  Settings, Engine, World, Detection, object_key, store_detection_db, value_is, is_class,
  same_class, near_objects, collected, geofilter_passed, stored, fenced, keep_detection,
}

-- The command sets the field of a hash.
abbrev pub sets : String → Command → Bool
sets name (hset key field value) = field == name
sets name _ = false

any-append {ℓ} :
    {A : Type ℓ} (p : A → Bool) (xs ys : List A) → any p (xs ++ ys) ≡ (any p xs || any p ys)
any-append p [] ys = refl
any-append p (x ∷ xs) ys = ground (arith, any-append p xs ys)

-- No hash that the engine stores has a field 'vehicle_id'.
store_detection_db-fields :
    (s : Server) (ttl : ℤ) (sent : Commands) (d : Detection) (link : String)
    (object_name : Option String)
    → any (sets "vehicle_id") (store_detection_db s ttl sent d link object_name)
      ≡ any (sets "vehicle_id") sent
unfolding store_detection_db
store_detection_db-fields s ttl sent d link object_name =
    any-append (sets "vehicle_id") sent _ ∙ ground arith

-- The hash of an object is of the class, or of none at all.
abbrev pub value_collides : String → Option String → Bool
value_collides cls none = true
value_collides cls (some value) = value == cls

abbrev pub collides : String → Dict String → Bool
collides cls [] = false
collides cls (p ∷ d) = value_collides cls (lookup "cls" (p ∷ d))

same_class-raises :
    (obj vehicle : String) (d : Dict String)
    → lookup "vehicle_id" d ≡ none
    → same_class obj vehicle d ≡ err key_error
unfolding same_class
same_class-raises obj vehicle d missing = elim (Option-cases (lookup "id" d)) [
  | inl e ↦ rw (same_class, e) refl
  | inr (id, e) ↦ rw (same_class, e, missing) refl
]

value_step :
    (cls : String) (found : Option String) (same rest : Result (Bool × Option String))
    → same ≡ err key_error
    → (value_is cls found >>= (λ b. if b then same else rest))
      ≡ (if value_collides cls found then err key_error else rest)
unfolding value_is
value_step cls none same rest e = refl
value_step cls (some value) same rest e = rw e refl

class_step :
    (cls obj vehicle : String) (d : Dict String) (rest : Result (Bool × Option String))
    → lookup "vehicle_id" d ≡ none
    → (is_class cls d >>= (λ same. if same then same_class obj vehicle d else rest))
      ≡ (if collides cls d then err key_error else rest)
unfolding is_class
class_step cls obj vehicle [] rest missing = refl
class_step cls obj vehicle (p ∷ d) rest missing =
    value_step cls (lookup "cls" (p ∷ d)) _ rest (same_class-raises obj vehicle (p ∷ d) missing)

-- One of the objects is of the class.
abbrev pub any_collides : Server → Commands → String → List String → Bool
any_collides s sent cls objs =
    any (λ (obj : String). collides cls (s.hgetall sent (object_key obj))) objs

near_objects-collides :
    (s : Server) (sent : Commands) (cls vehicle : String) (objs : List String)
    → ((key : String) → lookup "vehicle_id" (s.hgetall sent key) ≡ none)
    → near_objects s sent cls vehicle objs
      ≡ (if any_collides s sent cls objs then err key_error else ok (true, none))
unfolding near_objects
near_objects-collides s sent cls vehicle [] missing = refl
near_objects-collides s sent cls vehicle (obj ∷ objs) missing =
    let d = s.hgetall sent (object_key obj) in
    let rest = near_objects s sent cls vehicle objs in
    class_step cls obj vehicle d rest (missing (object_key obj))
    ∙ ground (arith, near_objects-collides s sent cls vehicle objs missing)

geofilter_passed-live :
    (s : Server) (c : Settings) (d : Detection) (e : Engine)
    → c.unittest ≡ false
    → geofilter_passed s c d e ≡ (
      near_objects s
          (collected s c.ttl_secs e).sent
          d.class_name
          d.id
          (s.geosearch (collected s c.ttl_secs e).sent "detections" d.lon d.lat c.search_radius),
      collected s c.ttl_secs e,
    )
unfolding geofilter_passed
geofilter_passed-live s c d e live = rw (geofilter_passed, live) refl

stored-live :
    (s : Server) (c : Settings) (d : Detection) (url : String) (prev : Option String) (e : Engine)
    → c.unittest ≡ false
    → stored s c d url prev e
      ≡ record e { sent = store_detection_db s c.ttl_secs e.sent d url prev }
unfolding stored
stored-live s c d url prev e live = rw (stored, live) refl

keep_detection-inside :
    (w : World) (c : Settings) (url : String) (d : Detection) (e : Engine)
    → c.geofence_enabled ≡ true
    → (eqb (length c.geofence) 0 || w.is_enclosed c.geofence) ≡ true
    → keep_detection w c url d e
      ≡ fenced w c url d (geofilter_passed w.server c d e).0 (geofilter_passed w.server c d e).1
unfolding keep_detection
keep_detection-inside w c url d e enabled inside = rw (keep_detection, enabled, inside) refl

-- Where the geofence lets a detection through and no hash has the field 'vehicle_id', which the engine
-- itself never writes: the detection is stored as a new object if no object within the radius is of
-- its class, and otherwise the frame raises a KeyError. So no detection is ever ignored as known, or
-- stored under the name of a known object.
pub keep_detection-New :
    (w : World) (c : Settings) (url : String) (d : Detection) (e : Engine)
    → c.geofence_enabled ≡ true
    → (eqb (length c.geofence) 0 || w.is_enclosed c.geofence) ≡ true
    → c.unittest ≡ false
    → ((sent : Commands) (key : String) → lookup "vehicle_id" (w.server.hgetall sent key) ≡ none)
    → let e' = collected w.server c.ttl_secs e in
      keep_detection w c url d e ≡ (
        if any_collides w.server e'.sent d.class_name
          (w.server.geosearch e'.sent "detections" d.lon d.lat c.search_radius)
        then (err key_error, e')
        else (
          ok true,
          record e' { sent = store_detection_db w.server c.ttl_secs e'.sent d url none },
        ))
unfolding fenced
keep_detection-New w c url d e enabled inside live missing =
    let e' : Engine = collected w.server c.ttl_secs e in
    let objs : List String = w.server.geosearch e'.sent "detections" d.lon d.lat c.search_radius in
    let known : Bool = any_collides w.server e'.sent d.class_name objs in
    let near : near_objects w.server e'.sent d.class_name d.id objs
        ≡ (if known then err key_error else ok (true, none)) =
      near_objects-collides w.server e'.sent d.class_name d.id objs (missing e'.sent) in
    keep_detection-inside w c url d e enabled inside
    ∙ ap (λ p. fenced w c url d p.0 p.1) (geofilter_passed-live w.server c d e live)
    ∙ ap (λ r. fenced w c url d r e') near
    ∙ (elim known
        as (λ b. fenced w c url d (if b then err key_error else ok (true, none)) e' ≡ (
          if b then (err key_error, e') else (
            ok true,
            record e' { sent = store_detection_db w.server c.ttl_secs e'.sent d url none },
          ))) [
            | true ↦ refl
            | false ↦ ap (λ after. (ok true, after)) (stored-live w.server c d url none e' live)
          ])
