-- ===== src/Contract/Reading/Bounds.antt =====
-- src/planter_telemetry/contract.py: what an accepted reading satisfies, which readings are
-- accepted, and the canonical UTC time in the idempotency key.
use planter_telemetry.Prelude.Floats.{lit, Floats}
use planter_telemetry.Prelude.Time.{max_instant, instant_add}
use planter_telemetry.Prelude.{◌⊎◌, text, ◌≤◌, true, arith, some, ◌≡◌, Text, ℕ}
use planter_telemetry.Prelude.Int.{◌-ℤ◌, pos, pos, ℤ}
use planter_telemetry.Contract.Topic.{is_device_id, schema_version}
use planter_telemetry.Contract.Reading.{
  given, absent, malformed, fields, Parsed, RawFields, to_utc, validate_parsed, accepted, valid,
  LocalTime, Bytes, Field, check_measured_at, check_range, validate_json, check_device_id,
  check_schema_version, Checked, TelemetryV1, Pydantic, combine,
}

pub record WellFormed {F : Type 0} ⦃fl : Floats F⦄ (r : TelemetryV1 F) : Type 0 where
  pub version : r.schema_version ≡ schema_version
  pub id : is_device_id r.device_id ≡ true
  pub time : r.measured_at ≤ max_instant
  pub water_low : fl.le (lit 0) r.water_level ≡ true
  pub water_high : fl.le r.water_level (lit 100) ≡ true
  pub battery_low : fl.le (fl.ratio 25 10) r.battery_voltage ≡ true
  pub battery_high : fl.le r.battery_voltage (fl.ratio 44 10) ≡ true

pub instant_add-le : (t : ℕ) (d : ℤ) {u : ℕ} → instant_add t d ≡ some u → u ≤ max_instant
unfolding instant_add
instant_add-le t d h = ground arith

combine-inv :
    {F : Type 0} (v : Checked ℕ) (d : Checked Text) (t : Checked ℕ) (w b : Checked F)
    {r : TelemetryV1 F}
    → combine v d t w b ≡ valid r
    → (v ≡ accepted r.schema_version)
      × (d ≡ accepted r.device_id)
      × (t ≡ accepted r.measured_at)
      × (w ≡ accepted r.water_level)
      × (b ≡ accepted r.battery_voltage)
unfolding combine
combine-inv v d t w b h = ground arith

module _ {F : Type 0} ⦃fl : Floats F⦄ (py : Pydantic F) where
  check_schema_version-inv :
      (f : Field ℕ) (name : Text) {n : ℕ}
      → check_schema_version py f name ≡ accepted n
      → n ≡ schema_version
  unfolding check_schema_version
  check_schema_version-inv f name h = ground arith

  check_device_id-inv :
      (f : Field Text) (name : Text) {d : Text}
      → check_device_id py f name ≡ accepted d
      → is_device_id d ≡ true
  unfolding check_device_id
  check_device_id-inv f name h = ground arith

  check_measured_at-inv :
      (f : Field LocalTime) (name : Text) {t : ℕ}
      → check_measured_at py f name ≡ accepted t
      → t ≤ max_instant
  unfolding check_measured_at instant_add
  check_measured_at-inv f name h = ground arith

  check_range-inv :
      (lo hi : F) (f : Field F) (name : Text) {x : F}
      → check_range py lo hi f name ≡ accepted x
      → (fl.le lo x ≡ true) × (fl.le x hi ≡ true)
  unfolding check_range
  check_range-inv lo hi f name h = ground arith

  validate_parsed-WellFormed :
      (p : Parsed F) {r : TelemetryV1 F} → validate_parsed py p ≡ valid r → WellFormed r
  unfolding validate_parsed
  validate_parsed-WellFormed (malformed errors) h = cc
  validate_parsed-WellFormed (fields raw) h =
      let (v, d, t, w, b) = combine-inv _ _ _ _ _ h in
      let water = check_range-inv (lit 0) (lit 100) raw.water_level (text "water_level") w in
      let battery =
        check_range-inv (fl.ratio 25 10) (fl.ratio 44 10) raw.battery_voltage
          (text "battery_voltage") b in
      record {
        version = check_schema_version-inv raw.schema_version (text "schema_version") v;
        id = check_device_id-inv raw.device_id (text "device_id") d;
        time = check_measured_at-inv raw.measured_at (text "measured_at") t;
        water_low = water.0;
        water_high = water.1;
        battery_low = battery.0;
        battery_high = battery.1;
      }

  -- A payload that the contract accepts becomes a well-formed reading: schema version 1, a device
  -- id of the pattern, a time that `datetime` can hold, water within 0 and 100 and battery voltage
  -- within 2.5 and 4.4.
  pub validate_json-WellFormed :
      (payload : Bytes) {r : TelemetryV1 F} → validate_json py payload ≡ valid r → WellFormed r
  unfolding validate_json
  validate_json-WellFormed payload h = validate_parsed-WellFormed (py.parse payload) h

  -- Conversely, when a payload parses into an object that gives a device id of the pattern, an aware
  -- time whose UTC instant `datetime` can hold, and both measurements in range, and gives schema
  -- version 1 or none, then it is accepted, as exactly those values with the time in UTC.
  pub validate_json_complete :
      (payload : Bytes) (raw : RawFields F) (d : Text) (local : ℕ) (offset : ℤ) (at : ℕ) (w b : F)
      → py.parse payload ≡ fields raw
      → (raw.schema_version ≡ absent) ⊎ (raw.schema_version ≡ given 1)
      → raw.device_id ≡ given d
      → is_device_id d ≡ true
      → raw.measured_at ≡ given (record { local = local; utc_offset = some offset })
      → to_utc local offset ≡ some at
      → raw.water_level ≡ given w
      → (fl.le (lit 0) w ≡ true) × (fl.le w (lit 100) ≡ true)
      → raw.battery_voltage ≡ given b
      → (fl.le (fl.ratio 25 10) b ≡ true) × (fl.le b (fl.ratio 44 10) ≡ true)
      → validate_json py payload
        ≡ valid (record {
          schema_version = 1;
          device_id = d;
          measured_at = at;
          water_level = w;
          battery_voltage = b;
        })
  unfolding validate_json to_utc
  validate_json_complete payload raw d local offset at w b p v i id m utc hw wr hb br =
      rw p (ground arith)

-- The stored time depends only on the instant that the sender meant: two local times that differ by
-- their UTC offsets alone have the same UTC time, so the key (device_id, measured_at) is the same.
pub to_utc-canonical : (a b : ℕ) (x y : ℤ) → pos a -ℤ x ≡ pos b -ℤ y → to_utc a x ≡ to_utc b y
unfolding to_utc instant_add ◌-ℤ◌
to_utc-canonical a b x y h = ground arith
