-- ===== src/Vehicle/Gabriel.antt =====
-- vehicle/compute/gabriel_compute.py: the telemetry and the frames that the vehicle sends to the Gabriel
-- server, and the results that come back. What the data store gives at each look is an input.
pub mod Messages
use steeleagle.Prelude.{
  ◌>>=◌, ℕ, String, Bool, true, false, ◌&&◌, not, Option, none, some, List, [], ◌∷◌, ◌++◌, ◌==◌,
  if◌then◌else◌, value_error, index_error, Result, ok, err,
}
use steeleagle.Prelude.Int.{ℤ, pos, negsuc, leb_ℤ}

-- `set_params`, with what the frame producer and the telemetry producer keep
pub record GabrielCompute : Type 0 where
  pub model : Option String
  pub hsv_lower : Option (List ℕ)
  pub hsv_upper : Option (List ℕ)
  pub drone_registered : Bool
  pub frame_ts : ℤ

unfoldable pub fresh : GabrielCompute
fresh = record {
  model = some "coco";
  hsv_lower = none;
  hsv_upper = none;
  drone_registered = false;
  frame_ts = negsuc 0;
}

-- `set`
unfoldable pub set_params :
    GabrielCompute → Option String → Option (List ℕ) → Option (List ℕ) → GabrielCompute
set_params g model lower upper = record g { model = model; hsv_lower = lower; hsv_upper = upper }

-- The extras of a telemetry message: the drone and whether it registers.
pub record TelemetryExtras : Type 0 where
  pub drone : String
  pub registering : Bool

-- one call of the telemetry producer; the store has no telemetry, or that of a drone
unfoldable pub produce_telemetry :
    GabrielCompute → Option String → GabrielCompute × Option TelemetryExtras
produce_telemetry g none = (g, none)
produce_telemetry g (some name) =
    if not g.drone_registered && not (name == "")
    then (record g { drone_registered = true }, some (record { drone = name; registering = true }))
    else (g, some (record { drone = name; registering = false }))

unfoldable pub telemetry_messages : GabrielCompute → List (Option String) → List TelemetryExtras
unfolding produce_telemetry
telemetry_messages g [] = []
telemetry_messages g (look ∷ looks) =
    let first = produce_telemetry g look in
    let rest = telemetry_messages first.0 looks in elim first.1 [ none ↦ rest | some e ↦ e ∷ rest ]

-- What the store holds of the raw frames: when it came, and its bytes as JPEG, `none` where encoding
-- raises; `empty` where the frame has no data.
pub data FrameData : Type 0 where
  empty unencodable : FrameData
  jpeg : List ℕ → FrameData

pub record Entry : Type 0 where
  pub timestamp : ℤ
  pub frame : FrameData

-- the compute request: the model and the bounds
pub record ComputeRequest : Type 0 where
  pub cpt_model : Option String
  pub lower_bound : Option (ℕ × ℕ × ℕ)
  pub upper_bound : Option (ℕ × ℕ × ℕ)

pub data Payload : Type 0 where
  image : List ℕ → Payload
  note : String → Payload

pub record InputFrame : Type 0 where
  pub is_image : Bool
  pub payloads : List Payload
  pub extras : Option ComputeRequest

-- `hsv[0]`, `hsv[1]` and `hsv[2]`
unfoldable pub bound : List ℕ → Result (ℕ × ℕ × ℕ)
bound [] = err index_error
bound (h ∷ []) = err index_error
bound (h ∷ s ∷ []) = err index_error
bound (h ∷ s ∷ v ∷ more) = ok (h, s, v)

unfoldable pub optional_bound : Option (List ℕ) → Result (Option (ℕ × ℕ × ℕ))
unfolding bound
optional_bound none = ok none
optional_bound (some hsv) = do b ← bound hsv; ok (some b)

unfoldable pub compute_request : GabrielCompute → Result ComputeRequest
unfolding optional_bound
compute_request g = do
  lower ← optional_bound g.hsv_lower
  upper ← optional_bound g.hsv_upper
  ok (record { cpt_model = g.model; lower_bound = lower; upper_bound = upper })

-- the handler of an exception, behind the payloads that are there
unfoldable pub unable : List Payload → InputFrame
unable payloads = record {
  is_image = false;
  payloads = payloads ++ note "Unable to produce a frame!" ∷ [];
  extras = none;
}

-- what is sent for a frame
unfoldable pub input_frame : GabrielCompute → FrameData → InputFrame
unfolding compute_request unable
input_frame g empty = record {
  is_image = false;
  payloads = note "Streaming not started, no frame to show." ∷ [];
  extras = none;
}
input_frame g unencodable = unable []
input_frame g (jpeg bytes) = elim (compute_request g) [
  | err fault ↦ unable (image bytes ∷ [])
  | ok request ↦ record { is_image = true; payloads = image bytes ∷ []; extras = some request }
]

-- `entry is None or entry.timestamp <= self.frame_ts`
unfoldable pub is_stale : ℤ → Option Entry → Bool
is_stale ts none = true
is_stale ts (some e) = leb_ℤ e.timestamp ts

-- the calls of the frame producer, over what the store holds at each look: a stale entry is waited over
unfoldable pub frames : GabrielCompute → List (Option Entry) → List (ℤ × InputFrame)
unfolding is_stale input_frame
frames g [] = []
frames g (none ∷ looks) = frames g looks
frames g (some e ∷ looks) = elim (is_stale g.frame_ts (some e)) [
  | true ↦ frames g looks
  | false ↦
      (e.timestamp, input_frame g e.frame) ∷ frames (record g { frame_ts = e.timestamp }) looks
]

-- A result of the server: its payload if it is a text, where `none` inside is one that is not UTF-8.
pub record ResultWrapper : Type 0 where
  pub producer : String
  -- the sequence number in the extras, or what unpacking them raises
  pub seq_num : Result ℕ
  pub results : List (Option (Option String))

pub record ComputeResult : Type 0 where
  pub compute_type : String
  pub payload : String
  pub seq : ℕ

unfoldable pub stored : String → ℕ → Option (Option String) → Result (List ComputeResult)
stored producer seq none = ok []
stored producer seq (some none) = err value_error
stored producer seq (some (some payload)) = ok (
    if payload == ""
    then []
    else record { compute_type = producer; payload = payload; seq = seq } ∷ [])

-- `process_results`: what is put into the data store
unfoldable pub process_results : ResultWrapper → Result (List ComputeResult)
unfolding stored
process_results w = elim w.results [
  | [] ↦ ok []
  | r ∷ [] ↦ do seq ← w.seq_num; stored w.producer seq r
  | r ∷ q ∷ more ↦ ok []
]
