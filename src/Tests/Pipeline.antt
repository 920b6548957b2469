-- ===== src/Tests/Pipeline.antt =====
-- The simulator and the ingestion service together at concrete inputs.
use planter_telemetry.Pipeline.{ReadsBack, IsStored, simulated-IsStored, fields_of}
use planter_telemetry.Simulator.Publisher.Run.{run_publisher}
use planter_telemetry.Simulator.Publisher.Run.Sound.{handed}
use planter_telemetry.Simulator.Stream.{Emission}
use planter_telemetry.Simulator.Wire.{WireCodec}
use planter_telemetry.Ingestion.Handle.{handle_all}
use planter_telemetry.Ingestion.Handle.Keys.{UniqueKeys}
use planter_telemetry.Contract.Reading.{Pydantic, Parsed, Bytes, malformed, fields, validate_json}
use planter_telemetry.Contract.Reading.Bounds.{WellFormed}
use planter_telemetry.Contract.Topic.{is_device_id, telemetry_topic, device_id_from_topic}
use planter_telemetry.Tests.Fixtures.{milli, reading_at, three_bytes, plain, empty_world, pot}
use planter_telemetry.Ingestion.Core.{classify}
use planter_telemetry.Ingestion.Db.{has_key, insert_row}
use planter_telemetry.Prelude.Time.{instant_add}
use planter_telemetry.Tests.Publishing.{emitted, moments}
use planter_telemetry.Prelude.Int.{◌-ℤ◌, ◌*ℤ◌, ℤ, pos, negsuc}
use planter_telemetry.Prelude.{
  ℕ, sym, text_eq, [], ◌∷◌, zero, suc, ok, ◌≡◌, refl, ◌≤◌, All, take, true, arith,
}

-- a number as its sign and its size
abbrev sign : ℤ → ℕ
sign (pos n) = 0
sign (negsuc n) = 1

abbrev size : ℤ → ℕ
size (pos n) = n
size (negsuc n) = n

abbrev signed : ℕ → ℕ → ℤ
signed zero n = pos n
signed (suc s) n = negsuc n

signed-sign : (z : ℤ) → signed (sign z) (size z) ≡ z
signed-sign (pos n) = refl
signed-sign (negsuc n) = refl

-- a payload is the time, the two measurements, and the device id
abbrev flat : WireCodec ℤ ℕ
flat = record {
  encode = λ r.
      r.measured_at
      ∷ sign r.water_level
      ∷ size r.water_level
      ∷ sign r.battery_voltage
      ∷ size r.battery_voltage
      ∷ r.device_id;
  loads = λ payload. [];
  dumps = λ items. [];
  high = 0;
}

abbrev parse_flat : Bytes → Parsed ℤ
parse_flat (at ∷ s ∷ n ∷ s' ∷ n' ∷ d) = fields (
    fields_of (record {
      schema_version = 1;
      device_id = d;
      measured_at = at;
      water_level = signed s n;
      battery_voltage = signed s' n';
    }))
parse_flat _ = malformed []

abbrev flat_pydantic : Pydantic ℤ
flat_pydantic = record three_bytes { parse = parse_flat }

flat-ReadsBack : ReadsBack flat flat_pydantic plain
flat-ReadsBack r h =
    let v : 1 ≡ r.schema_version = sym h.version in
    λ i. fields (
      fields_of (record {
        schema_version = v i;
        device_id = r.device_id;
        measured_at = r.measured_at;
        water_level = signed-sign r.water_level i;
        battery_voltage = signed-sign r.battery_voltage i;
      }))

pot-is_device_id : is_device_id pot ≡ true
unfolding is_device_id
pot-is_device_id = refl

reading_at-WellFormed : (hour : ℕ) → hour ≤ 24 → WellFormed (reading_at hour)
reading_at-WellFormed hour h = record {
  version = refl;
  id = pot-is_device_id;
  time = omega (arith, h);
  water_low = refl;
  water_high = refl;
  battery_low = refl;
  battery_high = refl;
}

-- the second message is a dead letter
handled_all :
    (handle_all flat_pydantic plain
      (run_publisher flat (pos 180000) 0 true emitted moments).published
      empty_world).0
    ≡ ok tt
unfolding handle_all classify device_id_from_topic text_eq validate_json is_device_id instant_add
    ◌-ℤ◌ has_key insert_row run_publisher telemetry_topic ◌*ℤ◌
handled_all = refl

simulated-IsStored_example :
    let s = run_publisher flat (pos 180000) 0 true emitted moments in
    let db = (handle_all flat_pydantic plain s.published empty_world).1.db in
    All (λ (e : Emission ℤ). IsStored db e e.corruption) (take (handed moments) emitted)
    × UniqueKeys db.telemetry
simulated-IsStored_example =
    simulated-IsStored flat flat_pydantic plain (pos 180000) 0 true emitted moments empty_world
      flat-ReadsBack
      (
        reading_at-WellFormed 1 (omega arith),
        (reading_at-WellFormed 2 (omega arith), (reading_at-WellFormed 1 (omega arith), tt)),
      )
      tt handled_all
