-- ===== src/Runtime/Store/Latest.antt =====
-- sdk/src/steeleagle_sdk/api/mission_store.py: what is read is what came last.
use steeleagle.Prelude.{
  true, false, Bool-cases, String, ◌≡◌, refl, inl, inr, Bool, ◌&&◌, ◌||◌, not, Option, none, some,
  List, [], ◌∷◌, arith, ◌==◌, eq_iff, if◌then◌else◌, Option-cases, get_last?,
}
use steeleagle.Runtime.Store.{
  Row, is_row, upsert_latest, select_latest, as_telemetry, as_result, parse_payload, to_json,
  from_json, Codec, Received, store_payload, store_frames, receive, receives, get_latest,
}

-- The payload of a message that is stored for this source and topic.
unfoldable pub payload_for : String → String → Received → Option String
payload_for source topic r = elim r.frames [
  | [] ↦ none
  | t ∷ more ↦
      if (t == "telemetry") || r.broken || not ((r.source == source) && (t == topic))
      then none
      else get_last? (t ∷ more)
]

-- the last such payload
unfoldable pub last_payload : String → String → List Received → Option String
unfolding payload_for
last_payload source topic [] = none
last_payload source topic (r ∷ rs) = elim (last_payload source topic rs) [
  | some p ↦ some p
  | none ↦ payload_for source topic r
]

select-upsert :
    (source topic : String) (new : Row) (rows : List Row)
    → select_latest source topic (upsert_latest new rows)
      ≡ (if is_row source topic new then some new.payload_json else select_latest source topic rows)
unfolding select_latest upsert_latest
select-upsert source topic new [] = refl
select-upsert source topic new (r ∷ rows) = ground (
  arith,
  select-upsert source topic new rows,
  eq_iff r.source new.source,
  eq_iff r.topic new.topic,
  eq_iff r.source source,
  eq_iff r.topic topic,
  eq_iff new.source source,
  eq_iff new.topic topic,
)

module _ (c : Codec) where
  -- What JSON and Pydantic promise: a model that is written is no null and is read back as itself.
  pub record RoundTrips : Type 0 where
    pub null : c.is_null "null" ≡ true
    pub telemetry_written : (t : c.Telemetry) → c.is_null (c.dump_telemetry t) ≡ false
    pub result_written : (r : c.FrameResult) → c.is_null (c.dump_result r) ≡ false
    pub telemetry_read : (t : c.Telemetry) → c.validate_telemetry (c.dump_telemetry t) ≡ some t
    pub result_read : (r : c.FrameResult) → c.validate_result (c.dump_result r) ≡ some r

  from_json-to_json :
      (source payload : String)
      → RoundTrips
      → from_json c source (to_json c (parse_payload c source payload))
        ≡ parse_payload c source payload
  unfolding from_json to_json parse_payload as_telemetry as_result
  from_json-to_json source payload h = elim (Bool-cases (source == "telemetry")) [
    | inl e ↦ elim (Option-cases (c.read_telemetry payload)) [
      | inl p ↦ rw (e, p, h.null)
      | inr (t, p) ↦ rw (e, p, h.telemetry_written, h.telemetry_read)
    ]
    | inr e ↦ elim (Bool-cases (source == "results")) [
      | inl f ↦ elim (Option-cases (c.read_result payload)) [
        | inl p ↦ rw (e, f, p, h.null)
        | inr (r, p) ↦ rw (e, f, p, h.result_written, h.result_read)
      ]
      | inr f ↦ rw (e, f, h.null)
    ]
  ]

  -- what a row holds after one message
  abbrev row_after : String → Option String → Option String → Option String
  row_after source none before = before
  row_after source (some p) before = some (to_json c (parse_payload c source p))

  select-frames :
      (source topic s : String) (frames : List String) (b : Bool) (rows : List Row)
      → select_latest source topic (store_frames c s frames b rows)
        ≡ row_after source
            (payload_for source topic (record { source = s; frames = frames; broken = b }))
            (select_latest source topic rows)
  unfolding store_frames payload_for store_payload
  select-frames source topic s [] b rows = refl
  select-frames source topic s (t ∷ more) b rows = elim (Option-cases (get_last? (t ∷ more))) [
    | inl p ↦ ground (arith, p)
    | inr (q, p) ↦
        let row : Row = record {
          source = s;
          topic = t;
          payload_json = to_json c (parse_payload c s q);
        } in
        ground (arith, p, select-upsert source topic row rows, eq_iff s source)
  ]

  select-receive :
      (source topic : String) (r : Received) (rows : List Row)
      → select_latest source topic (receive c r rows)
        ≡ row_after source (payload_for source topic r) (select_latest source topic rows)
  unfolding receive
  select-receive source topic r rows = select-frames source topic r.source r.frames r.broken rows

  select-receives :
      (source topic : String) (rs : List Received) (rows : List Row)
      → select_latest source topic (receives c rs rows)
        ≡ row_after source (last_payload source topic rs) (select_latest source topic rows)
  unfolding receives last_payload
  select-receives source topic [] rows = refl
  select-receives source topic (r ∷ rs) rows = ground (
    arith,
    select-receives source topic rs (receive c r rows),
    select-receive source topic r rows,
  )

  -- Where JSON and Pydantic read back what they wrote, reading a source's topic from a store that began
  -- empty gives the last message that arrived for them and was stored, as the source's kind of message
  -- parses: None where it does not parse, even after ones that did, and None where there was no such
  -- message or the source is neither telemetry nor results.
  pub get_latest-receives :
      (source topic : String) (rs : List Received)
      → RoundTrips
      → get_latest c source topic (receives c rs [])
        ≡ (elim (last_payload source topic rs) [ none ↦ none | some p ↦ parse_payload c source p ])
  unfolding get_latest
  get_latest-receives source topic rs h = elim (Option-cases (last_payload source topic rs)) [
    | inl p ↦ ground (arith, p, select-receives source topic rs [])
    | inr (q, p) ↦
        ground (arith, p, select-receives source topic rs [], from_json-to_json source q h)
  ]
