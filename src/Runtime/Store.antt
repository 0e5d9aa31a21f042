-- ===== src/Runtime/Store.antt =====
-- sdk/src/steeleagle_sdk/api/mission_store.py: `MissionStore`, the latest message for each source and
-- topic. SQLite's table is a list of rows; what the libraries make of
-- payloads and of JSON are parameters.
pub mod Latest
use steeleagle.Prelude.{
  String, Bool, ◌&&◌, Option, none, some, List, [], ◌∷◌, ◌==◌, if◌then◌else◌, get_last?,
}

pub record Row : Type 0 where
  pub source : String
  pub topic : String
  pub payload_json : String

-- `SQL_UPSERT_LATEST` and `SQL_SELECT_LATEST`, whose key is the source with the topic
abbrev pub is_row : String → String → Row → Bool
is_row source topic r = (r.source == source) && (r.topic == topic)

unfoldable pub upsert_latest : Row → List Row → List Row
upsert_latest new [] = new ∷ []
upsert_latest new (r ∷ rows) =
    if is_row new.source new.topic r then new ∷ rows else r ∷ upsert_latest new rows

unfoldable pub select_latest : String → String → List Row → Option String
select_latest source topic [] = none
select_latest source topic (r ∷ rows) =
    if is_row source topic r then some r.payload_json else select_latest source topic rows

-- Protobuf's, Pydantic's and Python's JSON: `read_…` is `ParseFromString`, `MessageToDict` and
-- `model_validate`, `validate_…` is `json.loads` and `model_validate`, each `none` where it raises;
-- `dump` writes `model_dump()`, and `is_null` tells whether `json.loads` gives None.
pub record Codec : Type 1 where
  pub Telemetry : Type 0
  pub FrameResult : Type 0
  pub read_telemetry : String → Option Telemetry
  pub read_result : String → Option FrameResult
  pub dump_telemetry : Telemetry → String
  pub dump_result : FrameResult → String
  pub is_null : String → Bool
  pub validate_telemetry : String → Option Telemetry
  pub validate_result : String → Option FrameResult

pub data Model (c : Codec) : Type 0 where
  telemetry_model : c.Telemetry → Model c
  result_model : c.FrameResult → Model c

module _ (c : Codec) where
  unfoldable pub as_telemetry : Option c.Telemetry → Option (Model c)
  as_telemetry none = none
  as_telemetry (some t) = some (telemetry_model t)

  unfoldable pub as_result : Option c.FrameResult → Option (Model c)
  as_result none = none
  as_result (some r) = some (result_model r)

  -- `_parse_payload`, which logs what is raised and gives None
  unfoldable pub parse_payload : String → String → Option (Model c)
  unfolding as_telemetry as_result
  parse_payload source payload =
      if source == "telemetry"
      then as_telemetry (c.read_telemetry payload)
      else if source == "results"
      then as_result (c.read_result payload)
      else none

  -- `_to_json`
  unfoldable pub to_json : Option (Model c) → String
  to_json none = "null"
  to_json (some (telemetry_model t)) = c.dump_telemetry t
  to_json (some (result_model r)) = c.dump_result r

  -- `_from_json`
  unfoldable pub from_json : String → String → Option (Model c)
  unfolding as_telemetry as_result
  from_json source payload_json =
      if c.is_null payload_json
      then none
      else if source == "telemetry"
      then as_telemetry (c.validate_telemetry payload_json)
      else if source == "results"
      then as_result (c.validate_result payload_json)
      else none

-- What one `recv_multipart` gives to the consumer of a source, and whether the upsert raises.
pub record Received : Type 0 where
  pub source : String
  pub frames : List String
  pub broken : Bool

module _ (c : Codec) where
  unfoldable pub store_payload : String → String → String → List Row → List Row
  unfolding upsert_latest parse_payload to_json
  store_payload source topic payload rows =
      upsert_latest
        (record {
          source = source;
          topic = topic;
          payload_json = to_json c (parse_payload c source payload);
        })
        rows

  -- The first frame is the topic and the last is the payload.
  unfoldable pub store_frames : String → List String → Bool → List Row → List Row
  unfolding store_payload
  store_frames source [] broken rows = rows
  store_frames source (topic ∷ more) broken rows =
      if topic == "telemetry"
      then rows
      else if broken
      then rows
      else (elim (get_last? (topic ∷ more)) [
        | none ↦ rows
        | some payload ↦ store_payload source topic payload rows
      ])

  -- one round of `_receive_and_store`
  unfoldable pub receive : Received → List Row → List Row
  unfolding store_frames
  receive r rows = store_frames r.source r.frames r.broken rows

  unfoldable pub receives : List Received → List Row → List Row
  unfolding receive
  receives [] rows = rows
  receives (r ∷ rs) rows = receives rs (receive r rows)

  unfoldable pub get_latest : String → String → List Row → Option (Model c)
  unfolding select_latest from_json
  get_latest source topic rows = elim (select_latest source topic rows) [
    | none ↦ none
    | some payload_json ↦ from_json c source payload_json
  ]
