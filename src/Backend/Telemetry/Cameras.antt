-- ===== src/Backend/Telemetry/Cameras.antt =====
-- backend/server/engines/telemetry/telemetry_engine.py: the fields that are set, and the loop over the cameras.
use Prim.Native.String as Str
use Prim.Native.String.append as Append
use steeleagle.Prelude.{
  ℕ, zero, suc, ◌+◌, ◌≤◌, code, String, ◌≡◌, refl, sym, ap, ◌∙◌, ◌⊎◌, inl, inr, Bool, false, ◌||◌,
  Option, none, some, List, [], ◌∷◌, ◌++◌, arith, ◌==◌, ltb, if◌then◌else◌, Option-cases,
  test_of_ne, length, get_elem?, any, All, index_error, Result, ok, err, Dict, concat,
}
use steeleagle.Prelude.Int.{ℤ}
use steeleagle.Backend.Redis.{Command, expire, Commands, Server, key_of}
use steeleagle.Backend.Telemetry.{
  Sensor, telemetry_key, vehicle_key, set_fields, camera_fields, set_cameras,
}

-- The command changes a key of this vehicle.
abbrev pub Own : String → Command → Type 0
Own name c = (key_of c ≡ telemetry_key name) ⊎ (key_of c ≡ vehicle_key name)

-- The command gives the key a time to live.
abbrev pub expires : String → Command → Bool
expires key (expire k seconds) = k == key
expires key _ = false

pub All-append {ℓ κ} :
    {A : Type ℓ} (P : A → Type κ) (xs ys : List A) → All P xs → All P ys → All P (xs ++ ys)
All-append P [] ys tt q = q
All-append P (x ∷ xs) ys (p, ps) q = (p, All-append P xs ys ps q)

pub any-append {ℓ} :
    {A : Type ℓ} (p : A → Bool) (xs ys : List A) → any p (xs ++ ys) ≡ (any p xs || any p ys)
any-append p [] ys = refl
any-append p (x ∷ xs) ys = ground (arith, any-append p xs ys)

pub set_fields-Own :
    (name : String) (fields : Dict String) → All (Own name) (set_fields (vehicle_key name) fields)
unfolding set_fields key_of
set_fields-Own name [] = tt
set_fields-Own name ((field, value) ∷ fields) = (inr refl, set_fields-Own name fields)

pub set_fields-expires :
    (key k : String) (fields : Dict String) → any (expires key) (set_fields k fields) ≡ false
unfolding set_fields
set_fields-expires key k [] = refl
set_fields-expires key k ((field, value) ∷ fields) = set_fields-expires key k fields

get_elem?-length :
    (sensors : List Sensor) (i : ℕ)
    → ((get_elem? sensors i ≡ none) × (length sensors ≤ i))
      ⊎ ((c : Sensor) × (get_elem? sensors i ≡ some c) × (suc i ≤ length sensors))
get_elem?-length [] i = inl (refl, ground arith)
get_elem?-length (c ∷ cs) zero = inr (c, refl, ground arith)
get_elem?-length (c ∷ cs) (suc i) = elim (get_elem?-length cs i) [
  | inl (e, short) ↦ inl (e, ground arith)
  | inr (d, e, long) ↦ inr (d, e, ground arith)
]

-- What the camera loop leaves.
pub record Cameras (s : Server) (name : String) (out : Commands × Result (Option String))
    : Type 0 where
  pub own : All (Own name) out.0
  pub unexpired : any (expires (vehicle_key name)) out.0 ≡ false

pub set_cameras-Cameras :
    (s : Server) (name : String) (sensors : List Sensor) (i : ℕ) (cams : List ℤ)
    → Cameras s name (set_cameras s (vehicle_key name) sensors i cams)
unfolding set_cameras
set_cameras-Cameras s name sensors i [] = record { own = tt; unexpired = refl }
set_cameras-Cameras s name sensors i (cam ∷ cams) = elim (Option-cases (get_elem? sensors i)) [
  | inl e ↦ rw (set_cameras, e) (record { own = tt; unexpired = refl })
  | inr (c, e) ↦
      let rest = set_cameras-Cameras s name sensors (suc i) cams in
      let later = (set_cameras s (vehicle_key name) sensors (suc i) cams).0 in
      let fields = camera_fields s i c in
      rw (set_cameras, e)
        (record {
          own =
              All-append (Own name) (set_fields (vehicle_key name) fields) later
                (set_fields-Own name fields) rest.own;
          unexpired =
              any-append (expires (vehicle_key name)) (set_fields (vehicle_key name) fields) later
              ∙ ap (λ b. b || any (expires (vehicle_key name)) later)
                  (set_fields-expires (vehicle_key name) (vehicle_key name) fields)
              ∙ rest.unexpired;
        })
]

-- The loop raises exactly if it comes to a camera without a sensor.
pub set_cameras-raises :
    (s : Server) (key : String) (sensors : List Sensor) (i : ℕ) (cams : List ℤ)
    → i ≤ length sensors
    → (set_cameras s key sensors i cams).1
      ≡ (if ltb (length sensors) (i + length cams) then err index_error else ok none)
unfolding set_cameras
set_cameras-raises s key sensors i [] inside = ground arith
set_cameras-raises s key sensors i (cam ∷ cams) inside = elim (get_elem?-length sensors i) [
  | inl (e, short) ↦ rw (set_cameras, e) (ground arith)
  | inr (c, e, long) ↦
      rw (set_cameras, e) (ground (arith, set_cameras-raises s key sensors (suc i) cams long))
]

first_code : String → ℕ
first_code Str.[] = 0
first_code (Str.◌∷◌ c s) = code c

pub telemetry_other : (name : String) → (telemetry_key name == vehicle_key name) ≡ false
unfolding telemetry_key vehicle_key concat first_code
telemetry_other name = test_of_ne _ _ (λ same.
    let codes_equal : 116 ≡ 118 =
      sym (ap first_code (Append.cons "t" "elemetry:" (Str.◌++◌ name "")))
      ∙ ap first_code same
      ∙ ap first_code (Append.cons "v" "ehicle:" (Str.◌++◌ name "")) in
    absurd (ground arith))
