-- ===== src/Pipeline.antt =====
-- src/planter_telemetry/simulator and ingestion together: what the simulator publishes, handled by the
-- ingestion service. The broker between them delivers the messages in order.
use planter_telemetry.Simulator.Publisher.Run.{Moment, message, run_publisher}
use planter_telemetry.Simulator.Publisher.Run.Sound.{handed, run_publisher-IsHonest}
use planter_telemetry.Simulator.Stream.{Emission, CorruptionMode}
use planter_telemetry.Simulator.Wire.{WireCodec, payload_of, corrupted}
use planter_telemetry.Ingestion.Handle.{Item, handle_one, handle_all}
use planter_telemetry.Ingestion.Handle.Idempotent.{Present, handle_all-own, continue-keeps}
use planter_telemetry.Ingestion.Handle.Replay.{InTables}
use planter_telemetry.Ingestion.Handle.Registry.{Covered}
use planter_telemetry.Ingestion.Handle.Keys.{UniqueKeys, handle_one-UniqueKeys}
use planter_telemetry.Ingestion.Db.{World, Db, has_key}
use planter_telemetry.Ingestion.Core.{PyText, classify, valid_reading}
use planter_telemetry.Ingestion.Core.Verdict.{classify-valid_iff}
use planter_telemetry.Contract.Reading.{
  Pydantic, RawFields, fields, given, TelemetryV1, validate_json, valid, to_utc,
}
use planter_telemetry.Contract.Reading.Bounds.{WellFormed, validate_json_complete}
use planter_telemetry.Contract.Topic.{telemetry_topic}
use planter_telemetry.Prelude.Floats.{Floats}
use planter_telemetry.Prelude.Time.{instant_add, max_instant}
use planter_telemetry.Prelude.Int.{pos, ◌-ℤ◌}
use planter_telemetry.Prelude.{
  All-take, ℕ, Bool, true, List, [], ◌∷◌, Option, none, some, ok, ◌≡◌, ◌≤◌, refl, All, map, take,
  inr, sym, ◌∙◌, ap, arith,
}
use mathlib.Core.Path.{subst}

module _ {F : Type 0} where
  -- the fields of a reading's JSON form
  abbrev pub fields_of : TelemetryV1 F → RawFields F
  fields_of r = record {
    schema_version = given r.schema_version;
    device_id = given r.device_id;
    measured_at = given (record { local = r.measured_at; utc_offset = some (pos 0) });
    water_level = given r.water_level;
    battery_voltage = given r.battery_voltage;
  }

  -- The emission was sent whole, and its reading is in the tables: a row of its device and time, and its
  -- device, with a span of times that encloses its own.
  abbrev pub IsStored : Db F → Emission F → Option CorruptionMode → Type 0
  IsStored db e none = (has_key e.reading db.telemetry ≡ true) × Covered db.devices e.reading
  IsStored db e (some mode) = Unit

to_utc-utc : (at : ℕ) → at ≤ max_instant → to_utc at (pos 0) ≡ some at
unfolding to_utc instant_add ◌-ℤ◌
to_utc-utc at h = ground (arith, h)

module _ {F V : Type 0} ⦃fl : Floats F⦄ (w : WireCodec F V) (pd : Pydantic F) (py : PyText) where
  -- What pydantic documents: the JSON that it dumps, it reads back.
  abbrev pub ReadsBack : Type 0
  ReadsBack = (r : TelemetryV1 F) → WellFormed r → pd.parse (w.encode r) ≡ fields (fields_of r)

  validate_json-encode :
      ReadsBack → (r : TelemetryV1 F) → WellFormed r → validate_json pd (w.encode r) ≡ valid r
  validate_json-encode reads r h =
      validate_json_complete pd (w.encode r) (fields_of r) r.device_id r.measured_at (pos 0)
        r.measured_at r.water_level r.battery_voltage (reads r h) (inr (ap given h.version)) refl
        h.id refl (to_utc-utc r.measured_at h.time) refl (h.water_low, h.water_high) refl
        (h.battery_low, h.battery_high)
      ∙ ap valid (λ i. record {
        schema_version = sym h.version i;
        device_id = r.device_id;
        measured_at = r.measured_at;
        water_level = r.water_level;
        battery_voltage = r.battery_voltage;
      })

  classify-encode :
      ReadsBack
      → (r : TelemetryV1 F) → WellFormed r
      → classify pd py (telemetry_topic r.device_id) (w.encode r) ≡ ok (valid_reading r)
  classify-encode reads r h =
      (classify-valid_iff pd py (telemetry_topic r.device_id) (w.encode r) r).1
        (validate_json-encode reads r h, refl)

  Present-IsStored :
      ReadsBack
      → (db : Db F) (e : Emission F) → WellFormed e.reading
      → Present pd py db (message w e)
      → IsStored db e e.corruption
  unfolding payload_of
  Present-IsStored reads db e h p = go e.corruption p
    where
      go :
          (mode : Option CorruptionMode)
          → InTables db (
              classify pd py
                (telemetry_topic e.reading.device_id)
                (corrupted w (w.encode e.reading) mode))
          → IsStored db e mode
      go none q = subst (InTables db) (classify-encode reads e.reading h) q
      go (some mode) q = tt

  All-IsStored :
      ReadsBack
      → (db : Db F) (es : List (Emission F)) → All (λ (e : Emission F). WellFormed e.reading) es
      → All (Present pd py db) (map (message w) es)
      → All (λ (e : Emission F). IsStored db e e.corruption) es
  All-IsStored reads db [] h p = tt
  All-IsStored reads db (e ∷ es) h p =
      (Present-IsStored reads db e h.0 p.0, All-IsStored reads db es h.1 p.1)

  handle_all-UniqueKeys :
      (items : List Item) (v : World F)
      → UniqueKeys v.db.telemetry
      → UniqueKeys (handle_all pd py items v).1.db.telemetry
  unfolding handle_all
  handle_all-UniqueKeys [] v h = h
  handle_all-UniqueKeys (item ∷ items) v h =
      continue-keeps (λ (u : World F). UniqueKeys u.db.telemetry) (handle_one pd py item v) _
        (handle_one-UniqueKeys pd py item v h) (λ u k. handle_all-UniqueKeys items u k)

  -- From the simulator to the database. Of all the emissions that the publisher hands over until its
  -- interrupt, with duplicates and late ones among them, whatever the client answered: once the
  -- ingestion service has handled the messages in order without an exception, each reading that was not
  -- corrupted has a row of its device and time in `telemetry`, its device is registered with a span of
  -- times that encloses its own, and no two rows have one device and time. The readings are well-formed,
  -- pydantic reads back the JSON that it dumps, and the table had no two such rows before.
  pub simulated-IsStored :
      (acceleration : F) (anchor : ℕ) (touches : Bool) (emissions : List (Emission F))
      (moments : List (Moment F)) (v : World F)
      → ReadsBack
      → All (λ (e : Emission F). WellFormed e.reading) emissions
      → UniqueKeys v.db.telemetry
      → let s = run_publisher w acceleration anchor touches emissions moments in
        (handle_all pd py s.published v).0 ≡ ok tt
        → let db = (handle_all pd py s.published v).1.db in
          All (λ (e : Emission F). IsStored db e e.corruption) (take (handed moments) emissions)
          × UniqueKeys db.telemetry
  simulated-IsStored acceleration anchor touches emissions moments v reads formed unique h =
      let s = run_publisher w acceleration anchor touches emissions moments in
      let db = (handle_all pd py s.published v).1.db in
      let sent = (run_publisher-IsHonest w acceleration anchor touches emissions moments).0 in
      (
        All-IsStored reads db (take (handed moments) emissions)
            (All-take _ (handed moments) emissions formed)
            (subst (All (Present pd py db)) sent (handle_all-own pd py s.published v h)),
        handle_all-UniqueKeys s.published v unique,
      )
