-- ===== src/Backend/Telemetry/Keys.antt =====
-- backend/server/engines/telemetry/telemetry_engine.py: which keys of Redis a telemetry message changes,
-- and when they expire.

use steeleagle.Prelude.{
  String, ◌≡◌, refl, ap, ◌∙◌, inl, inr, Bool, true, false, ◌||◌, not, Option, none, some, [], ◌∷◌,
  ◌++◌, arith, ◌==◌, eq_refl, ltb, if◌then◌else◌, Bool-cases, length, any, All, index_error, Result,
  ok, err,
}
use steeleagle.Prelude.Int.{ℤ}
use steeleagle.Backend.Redis.{expire, Commands, Server, key_of}
use steeleagle.Backend.Telemetry.{
  Extras, Numeric, vehicle_key, vehicle_fields, set_cameras, hash_commands, update_vehicle, Code,
  success, text_frame, updated, handle,
}
use steeleagle.Backend.Telemetry.Cameras.{
  All-append, Own, any-append, expires, set_cameras-Cameras, set_cameras-raises, set_fields-Own,
  set_fields-expires, telemetry_other,
}

-- What a message leaves in Redis: the commands that it adds, each on one of the two keys of its
-- vehicle; that the loop over the cameras raised; that the vehicle's key has got a time to live.
pub record IsOwn (ttl : ℤ) (before : Commands) (e : Extras)
    (out : Commands × Result (Code × Option String)) : Type 0 where
  pub added : Commands
  pub appended : out.0 ≡ before ++ added
  pub own : All (Own e.name) added
  pub outcome : out.1 ≡ (
      if ltb (length e.sensors) (length e.stream_status.secondary_cams)
      then err index_error
      else ok (success, some "Telemetry updated"))
  pub expiring :
      any (expires (vehicle_key e.name)) added
      ≡ not (ltb (length e.sensors) (length e.stream_status.secondary_cams))

hash_commands-Own :
    (s : Server) (n : Numeric) (ttl : ℤ) (before : Commands) (e : Extras)
    → All (Own e.name) (hash_commands s n ttl before e)
unfolding hash_commands key_of
hash_commands-Own s n ttl before e =
    (inl refl, (inl refl, (inr refl, set_fields-Own e.name (vehicle_fields s e))))

hash_commands-expires :
    (s : Server) (n : Numeric) (ttl : ℤ) (before : Commands) (e : Extras)
    → any (expires (vehicle_key e.name)) (hash_commands s n ttl before e) ≡ false
unfolding hash_commands
hash_commands-expires s n ttl before e = ground (
  arith,
  telemetry_other e.name,
  set_fields-expires (vehicle_key e.name) (vehicle_key e.name) (vehicle_fields s e),
)

-- the sensors and cameras of a message: too few sensors
abbrev pub too_few : Extras → Bool
too_few e = ltb (length e.sensors) (length e.stream_status.secondary_cams)

abbrev pub most : Server → Numeric → ℤ → Commands → Extras → Commands
most s n ttl before e =
    hash_commands s n ttl before e
    ++ (set_cameras s (vehicle_key e.name) e.sensors 0 e.stream_status.secondary_cams).0

most-Own :
    (s : Server) (n : Numeric) (ttl : ℤ) (before : Commands) (e : Extras)
    → All (Own e.name) (most s n ttl before e)
most-Own s n ttl before e =
    All-append (Own e.name) (hash_commands s n ttl before e)
      (set_cameras s (vehicle_key e.name) e.sensors 0 e.stream_status.secondary_cams).0
      (hash_commands-Own s n ttl before e)
      (set_cameras-Cameras s e.name e.sensors 0 e.stream_status.secondary_cams).own

most-expires :
    (s : Server) (n : Numeric) (ttl : ℤ) (before : Commands) (e : Extras)
    → any (expires (vehicle_key e.name)) (most s n ttl before e) ≡ false
most-expires s n ttl before e =
    let key = vehicle_key e.name in
    let loop = set_cameras s key e.sensors 0 e.stream_status.secondary_cams in
    any-append (expires key) (hash_commands s n ttl before e) loop.0
    ∙ ap (λ b. b || any (expires key) loop.0) (hash_commands-expires s n ttl before e)
    ∙ (set_cameras-Cameras s e.name e.sensors 0 e.stream_status.secondary_cams).unexpired

handle-short :
    (s : Server) (n : Numeric) (ttl : ℤ) (before : Commands) (e : Extras)
    → (e.name == "") ≡ false
    → too_few e ≡ true
    → handle s n ttl before (text_frame e) ≡ (before ++ most s n ttl before e, err index_error)
unfolding handle update_vehicle updated
handle-short s n ttl before e named short =
    let key = vehicle_key e.name in
    let cams = e.stream_status.secondary_cams in
    let raised : (set_cameras s key e.sensors 0 cams).1 ≡ err index_error =
      ground (arith, set_cameras-raises s key e.sensors 0 cams (ground arith), short) in
    let done_vehicle : update_vehicle s n ttl before e
        ≡ (before ++ most s n ttl before e, err index_error) =
      rw (update_vehicle, raised) refl in
    rw (handle, named) (ap updated done_vehicle)

handle-enough :
    (s : Server) (n : Numeric) (ttl : ℤ) (before : Commands) (e : Extras)
    → (e.name == "") ≡ false
    → too_few e ≡ false
    → handle s n ttl before (text_frame e) ≡ (
      before ++ (most s n ttl before e ++ expire (vehicle_key e.name) ttl ∷ []),
      ok (success, some "Telemetry updated"),
    )
unfolding handle update_vehicle updated
handle-enough s n ttl before e named enough =
    let key = vehicle_key e.name in
    let cams = e.stream_status.secondary_cams in
    let done : (set_cameras s key e.sensors 0 cams).1 ≡ ok none =
      ground (arith, set_cameras-raises s key e.sensors 0 cams (ground arith), enough) in
    let done_vehicle : update_vehicle s n ttl before e
        ≡ (before ++ (most s n ttl before e ++ expire (vehicle_key e.name) ttl ∷ []), ok none) =
      rw (update_vehicle, done) refl in
    rw (handle, named) (ap updated done_vehicle)

-- A telemetry message with a name only adds commands behind those sent before, each on the two keys
-- of its own vehicle. It is answered, and the vehicle's key gets its time to live, exactly if there
-- are as many sensors as secondary cameras; otherwise it raises an IndexError, and the key that it
-- has filled gets none.
pub handle-IsOwn :
    (s : Server) (n : Numeric) (ttl : ℤ) (before : Commands) (e : Extras)
    → (e.name == "") ≡ false
    → IsOwn ttl before e (handle s n ttl before (text_frame e))
unfolding key_of
handle-IsOwn s n ttl before e named = elim (Bool-cases (too_few e)) [
  | inl short ↦
      let result = handle-short s n ttl before e named short in
      record {
        added = most s n ttl before e;
        appended = ap (λ out. out.0) result;
        own = most-Own s n ttl before e;
        outcome = ap (λ out. out.1) result ∙ rw short refl;
        expiring = most-expires s n ttl before e ∙ rw short refl;
      }
  | inr enough ↦
      let result = handle-enough s n ttl before e named enough in
      let last = expire (vehicle_key e.name) ttl ∷ [] in
      record {
        added = most s n ttl before e ++ last;
        appended = ap (λ out. out.0) result;
        own =
            All-append (Own e.name) (most s n ttl before e) last (most-Own s n ttl before e)
              (inr refl, tt);
        outcome = ap (λ out. out.1) result ∙ rw enough refl;
        expiring =
            any-append (expires (vehicle_key e.name)) (most s n ttl before e) last
            ∙ ground (arith, most-expires s n ttl before e, eq_refl (vehicle_key e.name), enough);
      }
]
