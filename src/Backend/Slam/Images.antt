-- ===== src/Backend/Slam/Images.antt =====
-- backend/server/engines/slam/terraslam.py: an image whose answer arrives as one piece, and a row of them.
use steeleagle.Prelude.{
  ℕ, zero, suc, ◌≤◌, ◌≡◌, refl, sym, ap, ◌∙◌, true, some, List, [], ◌∷◌, ◌++◌, map, arith, length,
  All,
}
use mathlib.Core.List.{append-nil, append_assoc}
use steeleagle.Backend.Redis.{Commands}
use steeleagle.Backend.Slam.{
  Pose, Client, Codec, take, drop, recv, status_of, received, receive_pose, answered, process_image,
  image_frame, is, Response, Engine, respond, handle, handles,
}

take_all : (n : ℕ) (s : List ℕ) → length s ≤ n → take n s ≡ s
unfolding take
take_all zero [] h = refl
take_all zero (c ∷ s) h = absurd (omega arith)
take_all (suc n) [] h = refl
take_all (suc n) (c ∷ s) h = ap (λ (t : List ℕ). c ∷ t) (take_all n s (omega arith))

drop_all : (n : ℕ) (s : List ℕ) → length s ≤ n → drop n s ≡ []
unfolding drop
drop_all zero [] h = refl
drop_all zero (c ∷ s) h = absurd (omega arith)
drop_all (suc n) [] h = refl
drop_all (suc n) (c ∷ s) h = drop_all n s (omega arith)

-- what a pose leads to
abbrev pub answer : Pose → Response
answer p = (respond (status_of p) (some p)).0

abbrev pub entry : Pose → Commands
entry p = (respond (status_of p) (some p)).1

abbrev pub entries_of : Codec → List (List ℕ) → Commands
entries_of k [] = []
entries_of k (piece ∷ pieces) = entry (k.unpack piece) ++ entries_of k pieces

abbrev pub Encodes : Codec → List ℕ → Type 0
Encodes k image = (bytes : List ℕ) × (k.encode image ≡ some bytes)

recv_piece :
    (piece : List ℕ) (rest : List (List ℕ)) (n : ℕ)
    → length piece ≤ n
    → recv n (piece ∷ rest) ≡ (piece, rest)
unfolding recv
recv_piece piece rest n h = rw (take_all n piece h, drop_all n piece h)

received-whole :
    (k : Codec) (c : Client) (piece : List ℕ) (rest : List (List ℕ))
    → length piece ≡ 24
    → received k c (piece, rest) ≡ (
      record c {
        incoming = rest;
        previous_pose = c.latest_pose;
        latest_pose = some (k.unpack piece);
      },
      status_of (k.unpack piece),
    )
unfolding received
received-whole k c piece rest whole = rw whole

receive_pose-whole :
    (k : Codec) (c : Client) (piece : List ℕ) (rest : List (List ℕ))
    → length piece ≡ 24
    → c.incoming ≡ piece ∷ rest
    → receive_pose k c ≡ (
      record c {
        incoming = rest;
        previous_pose = c.latest_pose;
        latest_pose = some (k.unpack piece);
      },
      status_of (k.unpack piece),
    )
unfolding receive_pose received
receive_pose-whole k c piece rest whole incoming =
    rw (incoming, recv_piece piece rest 24 (omega arith)) (received-whole k c piece rest whole)

process_image-whole :
    (k : Codec) (c : Client) (image bytes piece : List ℕ) (rest : List (List ℕ))
    → k.encode image ≡ some bytes
    → length piece ≡ 24
    → c.incoming ≡ piece ∷ rest
    → process_image k c image ≡ (
      record {
        incoming = rest;
        previous_pose = c.latest_pose;
        latest_pose = some (k.unpack piece);
        sent = bytes ∷ c.sent;
      },
      status_of (k.unpack piece),
    )
unfolding process_image
process_image-whole k c image bytes piece rest encoded whole incoming =
    rw (encoded, process_image)
      (receive_pose-whole k (record c { sent = bytes ∷ c.sent }) piece rest whole incoming)

-- One image, where the next piece is a whole pose.
handle-whole :
    (k : Codec) (e : Engine) (image piece : List ℕ) (rest : List (List ℕ))
    → Encodes k image
    → length piece ≡ 24
    → e.slam_client.incoming ≡ piece ∷ rest
    → (e' : Engine) × (e'.slam_client.incoming ≡ rest)
      × (e'.redis ≡ e.redis ++ entry (k.unpack piece))
      × (handle k e (image_frame true image) ≡ (e', answer (k.unpack piece)))
unfolding handle answered
handle-whole k e image piece rest (bytes, encoded) whole incoming =
    let c : Client = record e.slam_client { sent = bytes ∷ e.slam_client.sent } in
    (
      record {
        slam_client = record c {
          incoming = rest;
          previous_pose = c.latest_pose;
          latest_pose = some (k.unpack piece);
        };
        redis = e.redis ++ entry (k.unpack piece);
        count = suc e.count;
      },
      refl,
      refl,
      ap (answered e)
          (process_image-whole k e.slam_client image bytes piece rest encoded whole incoming),
    )

pub answers_and_entries :
    (k : Codec) (e : Engine) (images pieces : List (List ℕ)) (rest : List (List ℕ))
    → All (Encodes k) images
    → All (λ (piece : List ℕ). length piece ≡ 24) pieces
    → length images ≡ length pieces
    → e.slam_client.incoming ≡ pieces ++ rest
    → ((handles k e (map (image_frame true) images)).1
        ≡ map (λ (piece : List ℕ). answer (k.unpack piece)) pieces)
      × ((handles k e (map (image_frame true) images)).0.redis ≡ e.redis ++ entries_of k pieces)
      × ((handles k e (map (image_frame true) images)).0.slam_client.incoming ≡ rest)
unfolding handles
answers_and_entries k e [] [] rest encode whole same incoming =
    (refl, sym (append-nil e.redis), incoming)
answers_and_entries k e [] (p ∷ ps) rest encode whole same incoming = absurd (omega arith)
answers_and_entries k e (i ∷ is) [] rest encode whole same incoming = absurd (omega arith)
answers_and_entries k e (i ∷ is) (p ∷ ps) rest (encodes, encode) (is_whole, whole) same incoming =
    let (e', incoming', redis, eq) = handle-whole k e i p (ps ++ rest) encodes is_whole incoming in
    let (answers, added, left) =
      answers_and_entries k e' is ps rest encode whole (omega arith) incoming' in
    (
      rw eq (ap (λ (more : List Response). answer (k.unpack p) ∷ more) answers),
      rw (handles, eq)
          (added
            ∙ ap (λ (r : Commands). r ++ entries_of k ps) redis
            ∙ append_assoc e.redis (entry (k.unpack p)) (entries_of k ps)),
      rw (handles, eq) left,
    )
