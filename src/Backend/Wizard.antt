-- ===== src/Backend/Wizard.antt =====
-- backend/server/setup_wizard.py: the questions of the setup wizard, the context that the answers make
-- and the files that are written from it. The templates are rendered by Jinja, a parameter.
pub mod Kinds
mod Steps
pub mod Answers
use steeleagle.Prelude.{
  ℕ, ◌-◌, ◌/◌, String, Bool, true, false, ◌&&◌, Option, none, some, List, [], ◌∷◌, map,
  if◌then◌else◌, get_elem?, value_error, type_error, os_error, Result, ok, err, ◌>>=◌, Dict, insert,
  concat,
}
use steeleagle.Prelude.Int.{ℤ, pos, negsuc, ltb_ℤ}

-- What a prompt leaves in the context. A fraction is an integer of thousandths; `nothing` is None.
pub data Setting : Type 0 where
  flag : Bool → Setting
  number : ℤ → Setting
  fraction : ℤ → Setting
  text : String → Setting
  nothing : Setting

abbrev pub Context : Type 0
Context = Dict Setting

-- `int` and `float` of a text; `none` is a ValueError.
pub record Conversions : Type 0 where
  pub int : String → Option ℤ
  pub float : String → Option ℤ

-- What the user does at the dialog of each title: yes or no; the texts that are tried, behind which the
-- dialog is cancelled; the place of the value that is picked.
pub record User : Type 0 where
  pub yes : String → Bool
  pub texts : String → List String
  pub picked : String → Option ℕ

-- The files and the network: whether the model can be downloaded, and whether there is a directory
-- `redis` already.
pub record World : Type 0 where
  pub downloads : Bool
  pub redis_exists : Bool

-- the entries of CONTAINERS
abbrev pub containers : List (String × String)
containers =
    ("gabriel", "Gabriel Server")
    ∷ ("telemetry", "Telemetry Engine")
    ∷ ("obstacle", "Avoidance Engine")
    ∷ ("object", "Object Detection Engine")
    ∷ ("slam", "SLAM Engine")
    ∷ ("sc", "Swarm Controller")
    ∷ []

-- the entries of TEMPLATES
abbrev pub templates : List (String × String)
templates =
    ("template.env", ".env")
    ∷ ("redis.conf.template", "./redis/redis.conf")
    ∷ ("secrets.toml.template", "../../gcs/streamlit/.streamlit/secrets.toml")
    ∷ []

-- the entries of DEFAULTS, without their descriptions
abbrev pub defaults : Context
defaults =
    ("one_tag_to_rule_them_all", flag true)
    ∷ ("one_tag", text "latest")
    ∷ ("store_imagery", flag true)
    ∷ ("gabriel_tokens", number (pos 5))
    ∷ ("use_metric3d", flag true)
    ∷ ("depth_threshold", number (pos 150))
    ∷ ("depth_model", text "metric3d_vit_large")
    ∷ ("use_custom_model", flag false)
    ∷ ("detection_model", text "coco")
    ∷ ("detection_threshold", fraction (pos 700))
    ∷ ("hsv_threshold", fraction (pos 500))
    ∷ ("geofence", flag false)
    ∷ ("object_ttl", number (pos 300))
    ∷ ("object_diff_radius", number (pos 5))
    ∷ ("exclusions", text "")
    ∷ ("terraslam_host", text "localhost")
    ∷ ("webserver_url", text "localhost")
    ∷ ("webserver_port", number (pos 8080))
    ∷ []

abbrev pub metric3d_models : List String
metric3d_models =
    "metric3d_vit_small" ∷ "metric3d_vit_large" ∷ "metric3d_vit_giant2" ∷ "metric3d_convnext_large"
    ∷ []

abbrev pub midas_models : List String
midas_models = "MiDaS_small" ∷ "MiDaS" ∷ "DPT_Hybrid" ∷ "DPT_Large" ∷ []

-- `run` of an input dialog with a validator: it closes at the first text that is valid.
unfoldable pub entered : (String → Bool) → List String → Option String
entered valid [] = none
entered valid (t ∷ ts) = elim (valid t) [ true ↦ some t | false ↦ entered valid ts ]

-- an input dialog without a validator
unfoldable pub input : List String → Setting
input [] = nothing
input (t ∷ ts) = text t

-- `run` of a list of choices, by the values
unfoldable pub choice : Option ℕ → List String → Setting
choice none values = nothing
choice (some n) values = elim (get_elem? values n) [ none ↦ nothing | some v ↦ text v ]

-- `a > low and a < high`, where the text has a value at all
unfoldable pub is_between : (String → Option ℤ) → ℤ → ℤ → String → Bool
is_between read low high t = elim (read t) [ none ↦ false | some a ↦ ltb_ℤ low a && ltb_ℤ a high ]

-- `a > 0`
unfoldable pub is_positive : (String → Option ℤ) → String → Bool
is_positive read t = elim (read t) [ none ↦ false | some a ↦ ltb_ℤ (pos 0) a ]

-- `int` or `float` of what a dialog returns
unfoldable pub converted : (String → Option ℤ) → Option String → Result ℤ
converted read none = err type_error
converted read (some t) = elim (read t) [ none ↦ err value_error | some a ↦ ok a ]

-- `download_coco_model`
unfoldable pub download_coco_model : World → Context → Result Context
download_coco_model w c =
    if w.downloads then ok (insert "detection_model" (text "coco") c) else err os_error

-- `write_files`, with the rendering of a template as an argument
unfoldable pub write_files :
    (String → Context → String) → World → Context → Result (List (String × String))
write_files render w c =
    if w.redis_exists
    then err os_error
    else ok (map (λ (t : String × String). (t.1, render t.0 c)) templates)

module _ (py : Conversions) (user : User) (w : World) where
  unfoldable pub container_tags : List (String × String) → Context → Context
  unfolding concat input
  container_tags [] c = c
  container_tags ((container, name) ∷ more) c = container_tags more (
      insert (concat (container ∷ "_image_tag" ∷ []))
        (input (user.texts (concat (name ∷ " Docker Image Tag" ∷ [])))) c)

  unfoldable pub ask_tags : Context → Context
  unfolding container_tags input
  ask_tags c =
      let one = user.yes "Default Docker Image Tag" in
      let c' = insert "one_tag_to_rule_them_all" (flag one) c in
      if one
      then insert "one_tag" (input (user.texts "Universal Docker Image Tag")) c'
      else container_tags containers c'

  unfoldable pub ask_gabriel : Context → Result Context
  unfolding converted entered is_between
  ask_gabriel c = do
    tokens ←
        converted py.int
          (entered (is_between py.int (pos 0) (pos 30)) (user.texts "Gabriel - Tokens"))
    ok (
        insert "gabriel_tokens" (number tokens)
          (insert "store_imagery" (flag (user.yes "Store Imagery Locally")) c))

  -- the radio lists of the avoidance engine
  unfoldable pub depth_model : Bool → Setting
  unfolding choice
  depth_model metric3d =
      if metric3d
      then choice (user.picked "Avoidance - Metric3D Model ") metric3d_models
      else choice (user.picked "Avoidance - MiDaS Model ") midas_models

  unfoldable pub ask_avoidance : Context → Result Context
  unfolding converted entered is_between depth_model
  ask_avoidance c =
      let use_defaults = user.yes "Avoidance - Use Defaults" in
      let c' = insert "use_defaults_avoidance" (flag use_defaults) c in
      let metric3d = user.yes "Avoidance - Metric3D or MiDaS" in
      let asked : Result Context = do
        threshold ← converted py.int (
            entered (is_between py.int (pos 0) (pos 255))
              (user.texts "Avoidance - Depth Threshold"))
        ok (
            insert "depth_model" (depth_model metric3d) (
              insert "depth_threshold" (number threshold)
                (insert "use_metric3d" (flag metric3d) c')))
      in if use_defaults then ok c' else asked

  -- the model of the object detection engine
  unfoldable pub ask_model : Context → Result Context
  unfolding download_coco_model input
  ask_model c =
      let custom = user.yes "Detection - Custom Model" in
      let c' = insert "use_custom_model" (flag custom) c in
      if custom
      then ok (insert "detection_model" (input (user.texts "Detection - Custom Model Name")) c')
      else download_coco_model w c'

  unfoldable pub ask_geofence : Context → Context
  unfolding input
  ask_geofence c =
      let geofence = user.yes "Detection - Use Geofence" in
      let c' = insert "geofence" (flag geofence) c in
      if geofence
      then insert "geofence_file" (input (user.texts "Detection - Geofence Filename")) c'
      else c'

  -- the thresholds, both between 0 and 1
  unfoldable pub ask_thresholds : Context → Result Context
  unfolding converted entered is_between
  ask_thresholds c = do
    confidence ← converted py.float (
        entered (is_between py.float (pos 0) (pos 1000))
          (user.texts "Detection - Confidence Threshold"))
    hsv ← converted py.float (
        entered (is_between py.float (pos 0) (pos 1000))
          (user.texts "Detection - HSV Filter Threshold"))
    ok (
        insert "hsv_threshold" (fraction hsv)
          (insert "detection_threshold" (fraction confidence) c))

  unfoldable pub ask_objects : Context → Result Context
  unfolding converted entered is_positive input
  ask_objects c = do
    ttl ← converted py.int (entered (is_positive py.int) (user.texts "Detection - Object TTL"))
    radius ←
        converted py.int
          (entered (is_positive py.int) (user.texts "Detection - Object Diff Radius"))
    ok (
        insert "exclusions" (input (user.texts "Detection - Class Exclusions"))
          (insert "object_diff_radius" (number radius) (insert "object_ttl" (number ttl) c)))

  -- the values of the object detection engine
  unfoldable pub ask_detection : Context → Result Context
  unfolding ask_thresholds ask_geofence ask_objects
  ask_detection c =
      let use_defaults = user.yes "Detection - Use Defaults" in
      let c' = insert "use_defaults_detection" (flag use_defaults) c in
      let asked : Result Context = ask_thresholds c' >>= (λ c''. ask_objects (ask_geofence c'')) in
      if use_defaults then ok c' else asked

  unfoldable pub ask_hosts : Context → Result Context
  unfolding converted entered is_between input
  ask_hosts c = do
    port ←
        converted py.float
          (entered (is_between py.int (pos 1024) (pos 65535)) (user.texts "HTTP - Webserver Port"))
    ok (
        insert "webserver_port" (fraction port) (
          insert "webserver_url" (input (user.texts "HTTP - Webserver Host"))
            (insert "terraslam_host" (input (user.texts "SLAM - TerraSLAM Host")) c)))

  -- the prompts behind a no to the default configuration
  unfoldable pub ask_all : Context → Result Context
  unfolding ask_tags ask_gabriel ask_avoidance ask_model ask_detection ask_hosts
  ask_all c = do
    gabriel ← ask_gabriel (ask_tags c)
    avoidance ← ask_avoidance gabriel
    model ← ask_model avoidance
    detection ← ask_detection model
    ask_hosts detection

  -- `main` up to the writing: the context
  unfoldable pub configure : Result Context
  unfolding ask_all download_coco_model input
  configure =
      let use_defaults = user.yes "Use Default Configuration" in
      let c = insert "use_default_configuration" (flag use_defaults) defaults in
      let filled : Result Context = if use_defaults then download_coco_model w c else ask_all c in
      do
        c' ← filled
        ok (
            insert "streamlit_pw" (input (user.texts "Streamlit - Password"))
              (insert "redis_pw" (input (user.texts "Redis - Password")) c'))

  -- `main`: the files that are written, by their paths
  unfoldable pub main : (String → Context → String) → Result (List (String × String))
  unfolding configure write_files
  main render = do c ← configure; write_files render w c
