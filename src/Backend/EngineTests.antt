-- ===== src/Backend/EngineTests.antt =====
-- backend/server/engines: the theorems of the engines at small inputs.
use steeleagle.Prelude.{
  ◌≡◌, refl, inl, inr, true, false, none, List, [], ◌∷◌, arith, if◌then◌else◌, key_error,
  zero_division_error, ok, err, lookup,
}
use steeleagle.Prelude.Int.{pos}
use steeleagle.Backend.Redis.{Server}
use steeleagle.Backend.Telemetry.{Place, Speed, Extras, Numeric, text_frame, handle}
use steeleagle.Backend.Telemetry.Keys.{IsOwn, handle-IsOwn}
use steeleagle.Backend.Avoidance.{Contour, midas_inference, metric3d_inference}
use steeleagle.Backend.Avoidance.Steering.{InRange, is_flat, inference-InRange}
use steeleagle.Backend.OpenScout.{
  Settings, Engine, World, Detection, store_detection_db, collected, keep_detection,
}
use steeleagle.Backend.OpenScout.Duplicates.{any_collides, keep_detection-New}

abbrev no_redis : Server
no_redis = record {
  exists = λ sent key. true;
  zscan = λ sent key. [];
  geosearch = λ sent key lon lat radius. "car-1f2e" ∷ [];
  hgetall = λ sent key. ("id", "drone") ∷ ("cls", "car") ∷ [];
  now = λ sent. pos 0;
  random_hex = λ sent. "0a0b";
  show = λ n. "0";
}

abbrev nowhere : Place
nowhere = record { latitude = pos 0; longitude = pos 0; altitude = pos 0; heading = pos 0 }

abbrev still : Speed
still = record { x_vel = pos 0; y_vel = pos 0; z_vel = pos 0; angular_vel = pos 0 }

-- one secondary camera, and no sensor
abbrev lost_camera : Extras
lost_camera = record {
  name = "drone";
  model = "parrot";
  percentage = pos 80;
  satellites = pos 9;
  global_position = nowhere;
  relative_position = record { x = pos 0; y = pos 0; z = pos 0; angle = pos 0 };
  velocity_body = still;
  velocity_neu = still;
  home = nowhere;
  alert_info = record {
    battery_warning = pos 0;
    magnetometer_warning = pos 0;
    gps_warning = pos 0;
    connection_warning = pos 0;
  };
  stream_status = record {
    stream_capacity = pos 2;
    num_streams = pos 1;
    primary_cam = pos 0;
    secondary_cams = pos 1 ∷ [];
  };
  sensors = [];
}

abbrev plain : Numeric
plain = record { norm = λ x y z. x; int_of = λ x. x }

handle-IsOwn_example :
    IsOwn (pos 60) [] lost_camera (handle no_redis plain (pos 60) [] (text_frame lost_camera))
handle-IsOwn_example = handle-IsOwn no_redis plain (pos 60) [] lost_camera refl

abbrev world : World
world = record { server = no_redis; is_enclosed = λ fence. true; join = λ parts. "url" }

abbrev settings : Settings
settings = record {
  threshold = pos 500;
  store_detections = false;
  unittest = false;
  search_radius = pos 5000;
  ttl_secs = pos 60;
  geofence = [];
  geofence_enabled = true;
  exclusions = [];
  webserver = none;
}

abbrev idle_engine : Engine
idle_engine = record { sent = []; last_geodb_gc_time = pos 0 }

abbrev car : Detection
car = record { id = "drone"; class_name = "car"; score = pos 900; lat = pos 42000; lon = pos 42000 }

keep_detection-New_example :
    let e' = collected no_redis (pos 60) idle_engine in
    keep_detection world settings "" car idle_engine ≡ (
      if any_collides no_redis e'.sent "car"
        (no_redis.geosearch e'.sent "detections" (pos 42000) (pos 42000) (pos 5000))
      then (err key_error, e')
      else (ok true, record e' { sent = store_detection_db no_redis (pos 60) e'.sent car "" none }))
unfolding lookup
keep_detection-New_example =
    keep_detection-New world settings "" car idle_engine refl refl refl (λ sent key. refl)

-- a thin contour, and one of an area of 40 around the column 20
abbrev contours : List Contour
contours = record { area = 0; m00 = 0; m10 = 0 } ∷ record { area = 40; m00 = 40; m10 = 800 } ∷ []

inference-InRange_example :
    InRange (metric3d_inference 100 contours)
    × (midas_inference 100 contours ≡ (
        if is_flat contours then err zero_division_error else ok (metric3d_inference 100 contours)))
inference-InRange_example =
    inference-InRange 100 contours (ground arith) (inl refl, (inr (ground arith), tt))
