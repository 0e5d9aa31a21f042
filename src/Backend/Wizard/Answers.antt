-- ===== src/Backend/Wizard/Answers.antt =====
-- backend/server/setup_wizard.py: the context that the wizard leaves, section by section.
use steeleagle.Prelude.{
  ℕ, ◌*◌, String, ◌≡◌, refl, sym, ◌∙◌, some, List, [], ◌∷◌, arith, if◌then◌else◌, some_inj, All, ok,
  insert, concat,
}
use steeleagle.Prelude.Int.{ℤ, pos}
use steeleagle.Backend.Wizard.{
  flag, number, fraction, Context, Conversions, User, World, containers, defaults, entered, input,
  is_between, is_positive, converted, download_coco_model, container_tags, ask_tags, ask_gabriel,
  depth_model, ask_avoidance, ask_model, ask_geofence, ask_thresholds, ask_objects, ask_detection,
  ask_hosts, ask_all, configure,
}
use steeleagle.Backend.Wizard.Kinds.{
  name, web_port, kind_of, Fits, Typed, insert-Typed, defaults-Typed, depth_model-Fits,
  entered-valid, converted-read, between-value, asked_between, asked_positive,
}
use steeleagle.Backend.Wizard.Steps.{
  Returns, bind-Returns, download-Returns, if-Returns, if-Typed, put_name, put_positive,
  put_threshold, put_whole, returned-Typed,
}

module _ (py : Conversions) (user : User) (w : World) where
  container_tags-Typed :
      (cs : List (String × String)) (c : Context)
      → All (λ (e : String × String). kind_of (concat (e.0 ∷ "_image_tag" ∷ [])) ≡ some name) cs
      → Typed c
      → Typed (container_tags py user w cs c)
  unfolding container_tags
  container_tags-Typed [] c named typed = typed
  container_tags-Typed ((container, title) ∷ cs) c (first, named) typed =
      let tag = concat (container ∷ "_image_tag" ∷ []) in
      let ts = user.texts (concat (title ∷ " Docker Image Tag" ∷ [])) in
      container_tags-Typed cs (insert tag (input ts) c) named (put_name tag ts c first typed)

  containers-named :
      All
        (λ (e : String × String). kind_of (concat (e.0 ∷ "_image_tag" ∷ [])) ≡ some name)
        containers
  unfolding concat
  containers-named = (refl, (refl, (refl, (refl, (refl, (refl, tt))))))

  ask_tags-Typed : (c : Context) → Typed c → Typed (ask_tags py user w c)
  unfolding ask_tags
  ask_tags-Typed c typed =
      let one = user.yes "Default Docker Image Tag" in
      let c' = insert "one_tag_to_rule_them_all" (flag one) c in
      let typed' = insert-Typed "one_tag_to_rule_them_all" (flag one) c tt typed in
      let ts = user.texts "Universal Docker Image Tag" in
      if-Typed one (insert "one_tag" (input ts) c') (container_tags py user w containers c')
        (put_name "one_tag" ts c' refl typed')
        (container_tags-Typed containers c' containers-named typed')

  ask_gabriel-Returns : (c : Context) → Typed c → Returns (ask_gabriel py user w c)
  unfolding ask_gabriel
  ask_gabriel-Returns c typed =
      bind-Returns
        (converted py.int
          (entered (is_between py.int (pos 0) (pos 30)) (user.texts "Gabriel - Tokens")))
        _
        λ tokens e.
          let c' = insert "store_imagery" (flag (user.yes "Store Imagery Locally")) c in
          put_whole "gabriel_tokens" 0 29 tokens c' refl
            (asked_between py.int 0 30 (user.texts "Gabriel - Tokens") tokens e)
            (insert-Typed "store_imagery" (flag (user.yes "Store Imagery Locally")) c tt typed)

  ask_avoidance-Returns : (c : Context) → Typed c → Returns (ask_avoidance py user w c)
  unfolding ask_avoidance
  ask_avoidance-Returns c typed =
      let use_defaults = user.yes "Avoidance - Use Defaults" in
      let c' = insert "use_defaults_avoidance" (flag use_defaults) c in
      let typed' = insert-Typed "use_defaults_avoidance" (flag use_defaults) c tt typed in
      let metric3d = user.yes "Avoidance - Metric3D or MiDaS" in
      let c'' = insert "use_metric3d" (flag metric3d) c' in
      let typed'' = insert-Typed "use_metric3d" (flag metric3d) c' tt typed' in
      let ts = user.texts "Avoidance - Depth Threshold" in
      if-Returns use_defaults (ok c') _ typed' (
        bind-Returns (converted py.int (entered (is_between py.int (pos 0) (pos 255)) ts)) _
          λ threshold e.
            insert-Typed "depth_model" (depth_model py user w metric3d)
              (insert "depth_threshold" (number threshold) c'')
              (depth_model-Fits py user w metric3d)
              (put_whole "depth_threshold" 0 254 threshold c'' refl
                (asked_between py.int 0 255 ts threshold e) typed''))

  ask_model-Returns : (c : Context) → Typed c → Returns (ask_model py user w c)
  unfolding ask_model
  ask_model-Returns c typed =
      let custom = user.yes "Detection - Custom Model" in
      let c' = insert "use_custom_model" (flag custom) c in
      let typed' = insert-Typed "use_custom_model" (flag custom) c tt typed in
      let ts = user.texts "Detection - Custom Model Name" in
      if-Returns custom (ok (insert "detection_model" (input ts) c')) (download_coco_model w c')
        (put_name "detection_model" ts c' refl typed') (download-Returns w c' typed')

  ask_geofence-Typed : (c : Context) → Typed c → Typed (ask_geofence py user w c)
  unfolding ask_geofence
  ask_geofence-Typed c typed =
      let geofence = user.yes "Detection - Use Geofence" in
      let c' = insert "geofence" (flag geofence) c in
      let typed' = insert-Typed "geofence" (flag geofence) c tt typed in
      let ts = user.texts "Detection - Geofence Filename" in
      if-Typed geofence (insert "geofence_file" (input ts) c') c'
        (put_name "geofence_file" ts c' refl typed') typed'

  ask_thresholds-Returns : (c : Context) → Typed c → Returns (ask_thresholds py user w c)
  unfolding ask_thresholds
  ask_thresholds-Returns c typed =
      let ts = user.texts "Detection - Confidence Threshold" in
      let us = user.texts "Detection - HSV Filter Threshold" in
      bind-Returns (converted py.float (entered (is_between py.float (pos 0) (pos 1000)) ts)) _
        λ confidence e.
          bind-Returns (converted py.float (entered (is_between py.float (pos 0) (pos 1000)) us)) _
            λ hsv f.
              put_threshold "hsv_threshold" hsv
                (insert "detection_threshold" (fraction confidence) c) refl
                (asked_between py.float 0 1000 us hsv f)
                (put_threshold "detection_threshold" confidence c refl
                  (asked_between py.float 0 1000 ts confidence e) typed)

  ask_objects-Returns : (c : Context) → Typed c → Returns (ask_objects py user w c)
  unfolding ask_objects
  ask_objects-Returns c typed =
      let ts = user.texts "Detection - Object TTL" in
      let us = user.texts "Detection - Object Diff Radius" in
      bind-Returns (converted py.int (entered (is_positive py.int) ts)) _ λ ttl e.
        bind-Returns (converted py.int (entered (is_positive py.int) us)) _ λ radius f.
          let c' = insert "object_ttl" (number ttl) c in
          put_name "exclusions" (user.texts "Detection - Class Exclusions")
            (insert "object_diff_radius" (number radius) c') refl
            (put_positive "object_diff_radius" radius c' refl (asked_positive py.int us radius f)
              (put_positive "object_ttl" ttl c refl (asked_positive py.int ts ttl e) typed))

  ask_detection-Returns : (c : Context) → Typed c → Returns (ask_detection py user w c)
  unfolding ask_detection
  ask_detection-Returns c typed =
      let use_defaults = user.yes "Detection - Use Defaults" in
      let c' = insert "use_defaults_detection" (flag use_defaults) c in
      let typed' = insert-Typed "use_defaults_detection" (flag use_defaults) c tt typed in
      if-Returns use_defaults (ok c') _ typed' (
        bind-Returns (ask_thresholds py user w c') _ λ c'' e.
          ask_objects-Returns (ask_geofence py user w c'') (
            ask_geofence-Typed c'' (
              returned-Typed (ask_thresholds py user w c') c'' (ask_thresholds-Returns c' typed')
                e)))

  -- `float` of the text of a whole number is that number.
  module _
      (agree : (t : String) (n : ℕ)
        → py.int t ≡ some (pos n)
        → py.float t ≡ some (pos (1000 * n))) where
    asked_port :
        (ts : List String) (port : ℤ)
        → converted py.float (entered (is_between py.int (pos 1024) (pos 65535)) ts) ≡ ok port
        → Fits web_port (fraction port)
    asked_port ts port e =
        let (t, typed, value) =
          converted-read py.float (entered (is_between py.int (pos 1024) (pos 65535)) ts) port e in
        let passes = entered-valid (is_between py.int (pos 1024) (pos 65535)) ts t typed in
        let (n, whole_number, above, below) = between-value py.int 1024 65535 t passes in
        (n, some_inj (sym value ∙ agree t n whole_number), above, omega arith)

    ask_hosts-Returns : (c : Context) → Typed c → Returns (ask_hosts py user w c)
    unfolding ask_hosts
    ask_hosts-Returns c typed =
        let ts = user.texts "HTTP - Webserver Port" in
        let host = user.texts "SLAM - TerraSLAM Host" in
        let url = user.texts "HTTP - Webserver Host" in
        let c' = insert "terraslam_host" (input host) c in
        bind-Returns (converted py.float (entered (is_between py.int (pos 1024) (pos 65535)) ts)) _
          λ port e.
            insert-Typed "webserver_port" (fraction port) (insert "webserver_url" (input url) c')
              (asked_port ts port e)
              (put_name "webserver_url" url c' refl (put_name "terraslam_host" host c refl typed))

    ask_all-Returns : (c : Context) → Typed c → Returns (ask_all py user w c)
    unfolding ask_all
    ask_all-Returns c typed =
        bind-Returns (ask_gabriel py user w (ask_tags py user w c)) _ λ gabriel e.
          bind-Returns (ask_avoidance py user w gabriel) _ λ avoidance f.
            bind-Returns (ask_model py user w avoidance) _ λ model g.
              bind-Returns (ask_detection py user w model) _ λ detection h.
                let a =
                  returned-Typed _ gabriel
                    (ask_gabriel-Returns (ask_tags py user w c) (ask_tags-Typed c typed)) e in
                let b = returned-Typed _ avoidance (ask_avoidance-Returns gabriel a) f in
                let d = returned-Typed _ model (ask_model-Returns avoidance b) g in
                ask_hosts-Returns detection
                  (returned-Typed _ detection (ask_detection-Returns model d) h)

    -- Where `float` reads a whole number as `int` does, a context that the wizard makes holds only
    -- the settings of the table, and each has the kind and the bounds that the table gives: 1 to 29
    -- tokens, a depth threshold of 1 to 254, thresholds between 0 and 1, a positive time to live and
    -- radius, a depth model of the lists offered (or None), a whole port of 1025 to 65534.
    pub configure-Typed : (c : Context) → configure py user w ≡ ok c → Typed c
    unfolding configure
    configure-Typed c e =
        let use_defaults = user.yes "Use Default Configuration" in
        let start = insert "use_default_configuration" (flag use_defaults) defaults in
        let start-Typed =
          insert-Typed "use_default_configuration" (flag use_defaults) defaults tt defaults-Typed in
        returned-Typed (configure py user w) c
          (bind-Returns
            (if use_defaults then download_coco_model w start else ask_all py user w start) _
            λ filled f.
              let filled-Typed =
                returned-Typed _ filled
                  (if-Returns use_defaults (download_coco_model w start) (ask_all py user w start)
                    (download-Returns w start start-Typed) (ask_all-Returns start start-Typed))
                  f in
              put_name "streamlit_pw" (user.texts "Streamlit - Password")
                (insert "redis_pw" (input (user.texts "Redis - Password")) filled) refl
                (put_name "redis_pw" (user.texts "Redis - Password") filled refl filled-Typed))
          e
