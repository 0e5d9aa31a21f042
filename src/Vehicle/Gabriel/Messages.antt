-- ===== src/Vehicle/Gabriel/Messages.antt =====
-- vehicle/compute/gabriel_compute.py: the messages that a vehicle sends, in a row.
use steeleagle.Prelude.{
  suc, ◌+◌, ◌≤◌, String, ◌≡◌, refl, inl, inr, true, false, Option, none, some, List, [], ◌∷◌, arith,
  ◌==◌, if◌then◌else◌, Bool-cases, keep, In, here, there,
}
use steeleagle.Prelude.Int.{ℤ, pos_part, neg_part}
use steeleagle.Vehicle.Gabriel.{
  GabrielCompute, TelemetryExtras, telemetry_messages, Entry, InputFrame, input_frame, is_stale,
  frames,
}

-- the registration of the first drone with a name, if there is one
abbrev pub first_named : List (Option String) → List TelemetryExtras
first_named [] = []
first_named (none ∷ looks) = first_named looks
first_named (some name ∷ looks) =
    if name == "" then first_named looks else record { drone = name; registering = true } ∷ []

abbrev pub registers : List TelemetryExtras → List TelemetryExtras
registers = keep (λ (e : TelemetryExtras). e.registering)

-- Of the messages in a row, those that register are none if the drone is registered already, and else
-- one: the first message of a drone with a name.
pub registers-telemetry_messages :
    (g : GabrielCompute) (looks : List (Option String))
    → registers (telemetry_messages g looks)
      ≡ (if g.drone_registered then [] else first_named looks)
unfolding telemetry_messages
registers-telemetry_messages g [] = ground arith
registers-telemetry_messages g (none ∷ looks) = registers-telemetry_messages g looks
registers-telemetry_messages g (some name ∷ looks) = ground (
  arith,
  registers-telemetry_messages g looks,
  registers-telemetry_messages (record g { drone_registered = true }) looks,
)

-- Each frame came later than the one before, and than `ts`; it is one of the store's, as it is sent.
abbrev Later : GabrielCompute → ℤ → List (Option Entry) → List (ℤ × InputFrame) → Type 0
Later g ts looks [] = Unit
Later g ts looks ((t, f) ∷ sent) =
    (suc (pos_part ts + neg_part t) ≤ pos_part t + neg_part ts)
    × ((e : Entry) × In (some e) looks × (t ≡ e.timestamp) × (f ≡ input_frame g e.frame))
    × Later g t looks sent

Later-there :
    (g : GabrielCompute) (ts : ℤ) (look : Option Entry) (looks : List (Option Entry))
    (sent : List (ℤ × InputFrame))
    → Later g ts looks sent
    → Later g ts (look ∷ looks) sent
Later-there g ts look looks [] h = tt
Later-there g ts look looks ((t, f) ∷ sent) (less, (e, m, p, q), more) =
    (less, (e, there m, p, q), Later-there g t look looks sent more)

is_stale-later :
    (ts : ℤ) (e : Entry)
    → is_stale ts (some e) ≡ false
    → suc (pos_part ts + neg_part e.timestamp) ≤ pos_part e.timestamp + neg_part ts
unfolding is_stale
is_stale-later ts e newer = ground arith

Later-frame_ts :
    (g : GabrielCompute) (ts t : ℤ) (looks : List (Option Entry)) (sent : List (ℤ × InputFrame))
    → Later (record g { frame_ts = t }) ts looks sent
    → Later g ts looks sent
unfolding input_frame
Later-frame_ts g ts t looks [] h = tt
Later-frame_ts g ts t looks ((u, f) ∷ sent) (less, (e, m, p, q), more) =
    (less, (e, m, p, q), Later-frame_ts g u t looks sent more)

-- The frames that are sent have times that grow from one to the next and from the last one sent before,
-- and each is made of an entry of the store: none is sent twice.
pub frames-Later :
    (g : GabrielCompute) (looks : List (Option Entry)) → Later g g.frame_ts looks (frames g looks)
unfolding frames
frames-Later g [] = tt
frames-Later g (none ∷ looks) =
    Later-there g g.frame_ts none looks (frames g looks) (frames-Later g looks)
frames-Later g (some e ∷ looks) = elim (Bool-cases (is_stale g.frame_ts (some e))) [
  | inl stale ↦
      rw (stale, frames)
        (Later-there g g.frame_ts (some e) looks (frames g looks) (frames-Later g looks))
  | inr newer ↦
      let rest = frames (record g { frame_ts = e.timestamp }) looks in
      rw (newer, frames)
        (
          is_stale-later g.frame_ts e newer,
          (e, here, refl, refl),
          Later-frame_ts g e.timestamp e.timestamp (some e ∷ looks) rest (
              Later-there (record g { frame_ts = e.timestamp }) e.timestamp (some e) looks rest
                (frames-Later (record g { frame_ts = e.timestamp }) looks)),
        )
]
