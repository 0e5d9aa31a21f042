-- ===== src/Backend/Slam.antt =====
-- backend/server/engines/slam/terraslam.py: the client of the SLAM server and the engine around it.
-- Encoding an image and reading three doubles from 24 bytes are parameters; coordinates are integers of
-- thousandths. What the server sends is the list of the pieces that arrive, each a list of bytes.
mod Images
pub mod Aligned
use steeleagle.Prelude.{
  ℕ, zero, suc, Bool, true, false, ◌&&◌, Option, none, some, List, [], ◌∷◌, ◌++◌, eqb,
  if◌then◌else◌, length,
}
use steeleagle.Prelude.Int.{ℤ, pos, negsuc, leb_ℤ}
use steeleagle.Backend.Redis.{Command, xadd, Commands}

pub record Pose : Type 0 where
  pub x : ℤ
  pub y : ℤ
  pub z : ℤ

pub record Client : Type 0 where
  pub latest_pose : Option Pose
  pub previous_pose : Option Pose
  -- what is still to be received, and the images that were sent
  pub incoming : List (List ℕ)
  pub sent : List (List ℕ)

-- The libraries: the bytes of an image as JPEG, `none` where decoding raises; and `struct.unpack`.
pub record Codec : Type 0 where
  pub encode : List ℕ → Option (List ℕ)
  pub unpack : List ℕ → Pose

pub data SlamStatus : Type 0 where
  success initializing lost error : SlamStatus

-- `connect`: the outcomes of the attempts; `none` while none has succeeded
unfoldable pub connect : List Bool → Option Bool
connect [] = none
connect (works ∷ attempts) = elim works [ true ↦ some true | false ↦ connect attempts ]

unfoldable pub take : ℕ → List ℕ → List ℕ
take zero s = []
take (suc n) [] = []
take (suc n) (c ∷ s) = c ∷ take n s

unfoldable pub drop : ℕ → List ℕ → List ℕ
drop zero s = s
drop (suc n) [] = []
drop (suc n) (c ∷ s) = drop n s

-- `recv(n)`: at most `n` bytes of the piece that is there; the rest of it stays. Nothing at the end.
unfoldable pub recv : ℕ → List (List ℕ) → List ℕ × List (List ℕ)
unfolding take drop
recv n [] = ([], [])
recv n (piece ∷ pieces) =
    (take n piece, (elim (drop n piece) [ [] ↦ pieces | c ∷ s ↦ (c ∷ s) ∷ pieces ]))

abbrev pub is : ℤ → ℤ → Bool
is a b = leb_ℤ a b && leb_ℤ b a

abbrev pub all_are : ℤ → Pose → Bool
all_are a p = is a p.x && is a p.y && is a p.z

-- the tests of the received pose
unfoldable pub status_of : Pose → SlamStatus
status_of p =
    if all_are (negsuc 999) p
    then initializing
    else if all_are (negsuc 2999) p
    then lost
    else success

-- what was received, and what is still to come
unfoldable pub received : Codec → Client → List ℕ × List (List ℕ) → Client × SlamStatus
received k c (pose_data, incoming) =
    if eqb (length pose_data) 24
    then (
      record c {
        incoming = incoming;
        previous_pose = c.latest_pose;
        latest_pose = some (k.unpack pose_data);
      },
      status_of (k.unpack pose_data),
    )
    else (record c { incoming = incoming }, error)

unfoldable pub receive_pose : Codec → Client → Client × SlamStatus
receive_pose k c = received k c (recv 24 c.incoming)

-- the size and the bytes of the image are one message here
unfoldable pub process_image : Codec → Client → List ℕ → Client × SlamStatus
process_image k c image = elim (k.encode image) [
  | none ↦ (c, error)
  | some bytes ↦ receive_pose k (record c { sent = bytes ∷ c.sent })
]

pub data InputFrame : Type 0 where
  text_frame : InputFrame
  image_frame : Bool → List ℕ → InputFrame

pub data Response : Type 0 where
  gps : Pose → Response
  initializing_response lost_response failed_response : Response
  ignoring_text expected_compute : Response

pub record Engine : Type 0 where
  pub slam_client : Client
  pub redis : Commands
  pub count : ℕ

unfoldable pub slam_entry : Pose → Command
slam_entry p = xadd "slam" (
    ("pose_x", pos 0)
    ∷ ("pose_y", pos 0)
    ∷ ("pose_z", pos 0)
    ∷ ("lat", p.x)
    ∷ ("lon", p.y)
    ∷ ("alt", p.z)
    ∷ [])

-- the response by the status, and the entry that is added
unfoldable pub respond : SlamStatus → Option Pose → Response × Commands
unfolding slam_entry
respond success (some p) = (gps p, slam_entry p ∷ [])
respond success none = (failed_response, [])
respond initializing pose = (initializing_response, [])
respond lost pose = (lost_response, [])
respond error pose = (failed_response, [])

-- from the status on
unfoldable pub answered : Engine → Client × SlamStatus → Engine × Response
answered e (client, status) =
    let response = respond status client.latest_pose in
    (
      record { slam_client = client; redis = e.redis ++ response.1; count = suc e.count },
      response.0,
    )

-- `handle`; an image comes with whether its compute configuration is set
unfoldable pub handle : Codec → Engine → InputFrame → Engine × Response
handle k e text_frame = (e, ignoring_text)
handle k e (image_frame false image) = (e, expected_compute)
handle k e (image_frame true image) = answered e (process_image k e.slam_client image)

unfoldable pub handles : Codec → Engine → List InputFrame → Engine × List Response
handles k e [] = (e, [])
handles k e (f ∷ fs) =
    let first = handle k e f in let rest = handles k first.0 fs in (rest.0, first.1 ∷ rest.1)
