-- ===== src/Backend/SlamTests.antt =====
-- The SLAM engine at two images.
use steeleagle.Prelude.{ℕ, ◌≡◌, refl, true, none, some, List, [], ◌∷◌, ◌++◌, map}
use steeleagle.Prelude.Int.{pos}
use steeleagle.Backend.Redis.{Commands}
use steeleagle.Backend.Slam.{
  Codec, Response, Engine, image_frame, handle, handles, failed_response, process_image,
  receive_pose, received, recv, answered, respond,
}
use steeleagle.Backend.Slam.Aligned.{Told, handles-aligned}

-- The first byte of a pose is its first coordinate here.
abbrev codec : Codec
codec = record {
  encode = λ image. some image;
  unpack = λ bytes. elim bytes [
    | [] ↦ record { x = pos 0; y = pos 0; z = pos 0 }
    | b ∷ more ↦ record { x = pos b; y = pos 0; z = pos 0 }
  ];
}

abbrev piece : ℕ → List ℕ
piece b =
    b ∷ 0 ∷ 0 ∷ 0 ∷ 0 ∷ 0 ∷ 0 ∷ 0 ∷ 0 ∷ 0 ∷ 0 ∷ 0 ∷ 0 ∷ 0 ∷ 0 ∷ 0 ∷ 0 ∷ 0 ∷ 0 ∷ 0 ∷ 0 ∷ 0 ∷ 0 ∷ 0
    ∷ []

abbrev engine : List (List ℕ) → Engine
engine incoming = record {
  slam_client = record { latest_pose = none; previous_pose = none; incoming = incoming; sent = [] };
  redis = [];
  count = 0;
}

-- An answer that arrives in two pieces is read as two, and both images fail.
split_answer :
    (handles codec
      (engine ((7 ∷ []) ∷ (8 ∷ []) ∷ []))
      (map (image_frame true) ((1 ∷ []) ∷ (2 ∷ []) ∷ []))).1
    ≡ failed_response ∷ failed_response ∷ []
unfolding handles handle process_image receive_pose received recv answered respond
split_answer = refl

abbrev images : List (List ℕ)
images = (1 ∷ []) ∷ (2 ∷ []) ∷ []

handles-aligned_example :
    (answers : List Response) × (entries : Commands) × Told
      (map (λ (p : List ℕ). codec.unpack p) (piece 7 ∷ piece 8 ∷ []))
      answers
      entries
    × ((handles codec (engine (piece 7 ∷ piece 8 ∷ [])) (map (image_frame true) images)).1
        ≡ answers)
    × ((handles codec (engine (piece 7 ∷ piece 8 ∷ [])) (map (image_frame true) images)).0.redis
        ≡ [] ++ entries)
    × ((handles codec
          (engine (piece 7 ∷ piece 8 ∷ []))
          (map (image_frame true) images)).0.slam_client.incoming
        ≡ [])
handles-aligned_example =
    handles-aligned codec (engine (piece 7 ∷ piece 8 ∷ [])) images (piece 7 ∷ piece 8 ∷ []) []
      (((1 ∷ []), refl), (((2 ∷ []), refl), tt)) (refl, (refl, tt)) refl refl
