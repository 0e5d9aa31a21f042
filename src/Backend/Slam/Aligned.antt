-- ===== src/Backend/Slam/Aligned.antt =====
-- backend/server/engines/slam/terraslam.py: the answers to a row of images.
use steeleagle.Prelude.{
  ℕ, ◌≡◌, sym, subst, true, some, List, [], ◌∷◌, ◌++◌, map, arith, length, All, ◌↔◌, Bool, false,
  Bool-cases, inl, inr, ◌&&◌,
}
use steeleagle.Prelude.Int.{ℤ, pos, negsuc}
use steeleagle.Backend.Redis.{xadd, Commands}
use steeleagle.Backend.Slam.{
  Pose, Codec, status_of, answered, image_frame, is, all_are, slam_entry, gps,
  initializing_response, lost_response, initializing, lost, success, SlamStatus, Response, Engine,
  respond, handles,
}
use steeleagle.Backend.Slam.Images.{Encodes, answer, answers_and_entries, entries_of, entry}

-- All three coordinates are this one.
abbrev AllAre : ℤ → Pose → Type 0
AllAre a p = (p.x ≡ a) × (p.y ≡ a) × (p.z ≡ a)

-- The answers to a row of poses, and the entries that are added for them: a pose of three times -1000
-- means that the server is initializing and one of three times -3000 that the track is lost, and for
-- neither an entry is added; any other pose is answered with itself and added.
pub data Told : List Pose → List Response → Commands → Type 0 where
  nothing : Told [] [] []
  told_initializing :
      (p : Pose) (ps : List Pose) (answers : List Response) (entries : Commands)
      → AllAre (negsuc 999) p
      → Told ps answers entries
      → Told (p ∷ ps) (initializing_response ∷ answers) entries
  told_lost :
      (p : Pose) (ps : List Pose) (answers : List Response) (entries : Commands)
      → AllAre (negsuc 2999) p
      → Told ps answers entries
      → Told (p ∷ ps) (lost_response ∷ answers) entries
  told_gps :
      (p : Pose) (ps : List Pose) (answers : List Response) (entries : Commands)
      → ¬ AllAre (negsuc 999) p
      → ¬ AllAre (negsuc 2999) p
      → Told ps answers entries
      → Told (p ∷ ps) (gps p ∷ answers) (
          xadd "slam" (
            ("pose_x", pos 0)
            ∷ ("pose_y", pos 0)
            ∷ ("pose_z", pos 0)
            ∷ ("lat", p.x)
            ∷ ("lon", p.y)
            ∷ ("alt", p.z)
            ∷ [])
          ∷ entries)

and_left : (a b : Bool) → (a && b) ≡ true → a ≡ true
and_left a b h = ground arith

and_right : (a b : Bool) → (a && b) ≡ true → b ≡ true
and_right a b h = ground arith

is_iff : (a b : ℤ) → (is a b ≡ true) ↔ (b ≡ a)
is_iff (pos m) (pos n) = (λ h. ground arith, λ h. ground arith)
is_iff (pos m) (negsuc n) = (λ h. ground arith, λ h. ground arith)
is_iff (negsuc m) (pos n) = (λ h. ground arith, λ h. ground arith)
is_iff (negsuc m) (negsuc n) = (λ h. ground arith, λ h. ground arith)

all_are_iff : (a : ℤ) (p : Pose) → (all_are a p ≡ true) ↔ AllAre a p
all_are_iff a p = (
  λ h. (
    (is_iff a p.x).0
        (and_left (is a p.x) (is a p.y) (and_left (is a p.x && is a p.y) (is a p.z) h)),
    (is_iff a p.y).0
        (and_right (is a p.x) (is a p.y) (and_left (is a p.x && is a p.y) (is a p.z) h)),
    (is_iff a p.z).0 (and_right (is a p.x && is a p.y) (is a p.z) h),
  ),
  λ h. rw ((is_iff a p.x).1 h.0, (is_iff a p.y).1 h.1, (is_iff a p.z).1 h.2),
)

status-initializing : (p : Pose) → all_are (negsuc 999) p ≡ true → status_of p ≡ initializing
unfolding status_of
status-initializing p h = rw h

status-lost :
    (p : Pose)
    → all_are (negsuc 999) p ≡ false
    → all_are (negsuc 2999) p ≡ true
    → status_of p ≡ lost
unfolding status_of
status-lost p g h = rw (g, h)

status-success :
    (p : Pose)
    → all_are (negsuc 999) p ≡ false
    → all_are (negsuc 2999) p ≡ false
    → status_of p ≡ success
unfolding status_of
status-success p g h = rw (g, h)

is_not : (a : ℤ) (p : Pose) → all_are a p ≡ false → ¬ AllAre a p
is_not a p e h = cc ((all_are_iff a p).1 h)

pose-Told :
    (p : Pose) (ps : List Pose) (answers : List Response) (entries : Commands)
    → Told ps answers entries
    → Told (p ∷ ps) (answer p ∷ answers) (entry p ++ entries)
unfolding respond slam_entry
pose-Told p ps answers entries t = elim (Bool-cases (all_are (negsuc 999) p)) [
  | inl e ↦
      subst by_status (sym (status-initializing p e))
        (told_initializing p ps answers entries ((all_are_iff (negsuc 999) p).0 e) t)
  | inr e ↦ elim (Bool-cases (all_are (negsuc 2999) p)) [
    | inl f ↦
        subst by_status (sym (status-lost p e f))
          (told_lost p ps answers entries ((all_are_iff (negsuc 2999) p).0 f) t)
    | inr f ↦
        subst by_status (sym (status-success p e f))
          (told_gps p ps answers entries (is_not (negsuc 999) p e) (is_not (negsuc 2999) p f) t)
  ]
]
  where
    by_status : SlamStatus → Type 0
    by_status s =
        Told (p ∷ ps) ((respond s (some p)).0 ∷ answers) ((respond s (some p)).1 ++ entries)

poses-Told :
    (k : Codec) (pieces : List (List ℕ))
    → Told
        (map (λ (piece : List ℕ). k.unpack piece) pieces)
        (map (λ (piece : List ℕ). answer (k.unpack piece)) pieces)
        (entries_of k pieces)
poses-Told k [] = nothing
poses-Told k (piece ∷ pieces) = pose-Told (k.unpack piece) _ _ _ (poses-Told k pieces)

-- For images that can be encoded, where each answer of the server arrives as one piece of 24 bytes: the
-- i-th image gets the answer that its own pose calls for, exactly the poses that are neither three times
-- -1000 (initializing) nor three times -3000 (track lost) are answered with themselves and added to the
-- stream, in their order, and no byte of an answer is left over.
pub handles-aligned :
    (k : Codec) (e : Engine) (images pieces : List (List ℕ)) (rest : List (List ℕ))
    → All (Encodes k) images
    → All (λ (piece : List ℕ). length piece ≡ 24) pieces
    → length images ≡ length pieces
    → e.slam_client.incoming ≡ pieces ++ rest
    → (answers : List Response) × (entries : Commands) × Told
        (map (λ (piece : List ℕ). k.unpack piece) pieces)
        answers
        entries
      × ((handles k e (map (image_frame true) images)).1 ≡ answers)
      × ((handles k e (map (image_frame true) images)).0.redis ≡ e.redis ++ entries)
      × ((handles k e (map (image_frame true) images)).0.slam_client.incoming ≡ rest)
handles-aligned k e images pieces rest encode whole same incoming =
    let (answered, added, left) =
      answers_and_entries k e images pieces rest encode whole same incoming in
    (
      map (λ (piece : List ℕ). answer (k.unpack piece)) pieces,
      entries_of k pieces,
      poses-Told k pieces,
      answered,
      added,
      left,
    )
