-- ===== src/Backend/Avoidance.antt =====
-- backend/server/engines/avoidance/obstacle_avoidance_engine.py: from the contours of near obstacles in a
-- frame to the vector that steers around them. The depth images are left out; a contour comes with its
-- area and its moments as OpenCV gives them.
pub mod Steering
use steeleagle.Prelude.{
  ℕ, ◌+◌, ◌-◌, ◌*◌, ◌/◌, String, Bool, Option, none, some, List, [], ◌∷◌, ◌++◌, ◌==◌, ltb, eqb,
  if◌then◌else◌, mem, zero_division_error, Result, ok, err,
}
use steeleagle.Prelude.Int.{ℤ, pos, ◌-ℤ◌}

pub record Contour : Type 0 where
  pub area : ℕ
  pub m00 : ℕ
  pub m10 : ℕ

-- An actuation vector, as a fraction.
pub record Vector : Type 0 where
  pub numerator : ℤ
  pub denominator : ℕ

abbrev pub zero_vector : Vector
zero_vector = record { numerator = pos 0; denominator = 1 }

-- the margin to the left and to the right of the region that is looked at
abbrev pub scrap_x : ℕ → ℕ
scrap_x frame_width = frame_width / 5

-- `max(contours, key=cv2.contourArea)`: the first of the largest
unfoldable pub largest : Contour → List Contour → Contour
largest best [] = best
largest best (c ∷ cs) = if ltb best.area c.area then largest c cs else largest best cs

-- `(scrapX + cX - width / 2 + 1) / (width / 2 - scrapX)`, both parts doubled
unfoldable pub actuation_vector : ℕ → Contour → Vector
actuation_vector frame_width c =
    let c_x = c.m10 / c.m00 in
    record {
      numerator = pos (2 * (scrap_x frame_width + c_x) + 2) -ℤ pos frame_width;
      denominator = frame_width - 2 * scrap_x frame_width;
    }

-- `MidasAvoidanceEngine.inference`, which divides by the moment
unfoldable pub midas_inference : ℕ → List Contour → Result Vector
unfolding largest actuation_vector
midas_inference frame_width [] = ok zero_vector
midas_inference frame_width (c ∷ cs) =
    let best = largest c cs in
    if eqb best.m00 0 then err zero_division_error else ok (actuation_vector frame_width best)

-- `Metric3DAvoidanceEngine.inference`, which looks at the moment first
unfoldable pub metric3d_inference : ℕ → List Contour → Vector
unfolding largest actuation_vector
metric3d_inference frame_width [] = zero_vector
metric3d_inference frame_width (c ∷ cs) =
    let best = largest c cs in
    if eqb best.m00 0 then zero_vector else actuation_vector frame_width best

-- The engine: its model, the valid ones, whether it runs in a unit test, the vectors that went to
-- Redis under the stream 'avoidance', and the number of its frames.
pub record Engine : Type 0 where
  pub model : String
  pub valid_models : List String
  pub unittest : Bool
  pub stored : List (String × Vector)
  pub count : ℕ

unfoldable pub maybe_load_model : String → Engine → Engine
maybe_load_model model e =
    if model == ""
    then e
    else if model == e.model
    then e
    else if mem model e.valid_models
    then record e { model = model }
    else e

-- `handle_helper`, from what the payload is: a text, or a frame of a vehicle with the result of
-- `inference`; `none` stands for the answer to a text.
pub data Payload : Type 0 where
  text_payload : Payload
  frame_payload : String → Result Vector → Payload

unfoldable pub handle_helper : Payload → Engine → Result (Option Vector) × Engine
handle_helper text_payload e = (ok none, e)
handle_helper (frame_payload vehicle (err fault)) e = (err fault, e)
handle_helper (frame_payload vehicle (ok v)) e =
    let stored = if e.unittest then e.stored else e.stored ++ (vehicle, v) ∷ [] in
    (ok (some v), record e { stored = stored; count = e.count + 1 })

-- the transform that goes with a MiDaS model
unfoldable pub transform_name : String → String
transform_name model =
    if model == "MiDaS_small"
    then "small"
    else if mem model ("DPT_SwinV2_L_384" ∷ "DPT_SwinV2_B_384" ∷ "DPT_Swin_L_384" ∷ [])
    then "swin384"
    else if model == "MiDaS"
    then "default"
    else if model == "DPT_SwinV2_T_256"
    then "swin256"
    else if model == "DPT_LeViT_224"
    then "levit"
    else if model == "DPT_BEiT_L_512"
    then "beit512"
    else "dpt"
