-- ===== src/Tests/Fixtures.antt =====
-- Concrete parameters and data for the tests: a fixed-point arithmetic, a parser, and messages.
use planter_telemetry.Prelude.{
  true, ◌&&◌, some, [], if◌then◌else◌, Text, ◌∷◌, text, leb, ◌/◌, ◌*◌, ◌+◌, suc, zero, ℕ,
}
use planter_telemetry.Prelude.Int.{
  neg_part, pos_part, ◌*ℤ◌, ◌+ℤ◌, leb_ℤ, ltb_ℤ, ◌-ℤ◌, ℤ, pos, negsuc,
}
use planter_telemetry.Prelude.Floats.{Floats}
use planter_telemetry.Contract.Reading.{
  malformed, given, fields, Bytes, absent, Pydantic, RawFields, TelemetryV1, Parsed, ErrorDetail,
}
use planter_telemetry.Ingestion.Session.{Settings}
use planter_telemetry.Ingestion.Db.{World}
use planter_telemetry.Ingestion.Core.{PyText}

-- truncating division
abbrev div_ℤ : ℤ → ℤ → ℤ
div_ℤ (pos a) (pos b) = pos (a / b)
div_ℤ (pos a) (negsuc b) = pos 0 -ℤ pos (a / suc b)
div_ℤ (negsuc a) (pos b) = pos 0 -ℤ pos (suc a / b)
div_ℤ (negsuc a) (negsuc b) = pos (suc a / suc b)

abbrev sqrt_ℕ : ℕ → ℕ
sqrt_ℕ zero = 0
sqrt_ℕ (suc n) = let r = sqrt_ℕ n in if leb (suc r * suc r) (suc n) then suc r else r

-- Fixed-point numbers of three decimals; the quantile is that of 0.95 at every argument.
instance abbrev pub milli : Floats ℤ
milli = record {
  lt = ltb_ℤ;
  le = leb_ℤ;
  eq = λ x y. leb_ℤ x y && leb_ℤ y x;
  is_finite = λ x. true;
  add = λ x y. x +ℤ y;
  sub = λ x y. x -ℤ y;
  mul = λ x y. div_ℤ (x *ℤ y) (pos 1000);
  div = λ x y. div_ℤ (x *ℤ pos 1000) y;
  neg = λ x. pos 0 -ℤ x;
  abs = λ x. pos (pos_part x + neg_part x);
  sqrt = λ x. pos (sqrt_ℕ (pos_part x * 1000));
  inf = pos 1000000000000000000;
  ratio = λ n d. pos (n * 1000 / d);
  floor = λ x. pos (pos_part x / 1000) -ℤ pos ((neg_part x + 999) / 1000);
  ceil = λ x. pos ((pos_part x + 999) / 1000) -ℤ pos (neg_part x / 1000);
  inv_cdf = λ p. pos 1645;
  total_seconds = λ d. div_ℤ d (pos 1000);
  timedelta_seconds = λ x. some (x *ℤ pos 1000);
  timedelta_hours = λ x. some (x *ℤ pos 3600000);
}

abbrev pub pot : Text
pot = text "pot-1"

abbrev pub pot_topic : Text
pot_topic = text "planter/v1/pot-1/telemetry"

abbrev detail : Text → ErrorDetail
detail name = record { loc = name ∷ []; msg = text "Invalid" }

-- A reading of `pot` at `hour` o'clock, an hour east of UTC.
abbrev pub raw_fields : ℕ → ℕ → ℕ → RawFields ℤ
raw_fields hour water tenths = record {
  schema_version = absent;
  device_id = given pot;
  measured_at = given (record { local = hour * 3600000000; utc_offset = some (pos 3600000000) });
  water_level = given (pos (water * 1000));
  battery_voltage = given (pos (tenths * 100));
}

abbrev parse_bytes : Bytes → Parsed ℤ
parse_bytes (hour ∷ water ∷ tenths ∷ []) = fields (raw_fields hour water tenths)
parse_bytes _ = malformed (detail (text "payload") ∷ [])

-- a parser of three bytes: the hour, the water level, and the voltage in tenths
abbrev pub three_bytes : Pydantic ℤ
three_bytes = record {
  parse = parse_bytes;
  missing = detail;
  not_literal = detail;
  pattern_mismatch = detail;
  naive_datetime = detail;
  below_minimum = detail;
  above_maximum = detail;
}

abbrev pub plain : PyText
plain = record { repr = λ s. s; str_int = λ n. (48 + n) ∷ [] }

abbrev pub reading_at : ℕ → TelemetryV1 ℤ
reading_at hour = record {
  schema_version = 1;
  device_id = pot;
  measured_at = hour * 3600000000;
  water_level = pos 40000;
  battery_voltage = pos 3700;
}

-- the payload of `reading_at 4`
abbrev pub five_oclock : Bytes
five_oclock = 5 ∷ 40 ∷ 37 ∷ []

-- its time lies before the year 1 in UTC
abbrev pub midnight : Bytes
midnight = 0 ∷ 40 ∷ 37 ∷ []

abbrev pub empty_world : World ℤ
empty_world = record {
  db = record { telemetry = []; devices = []; ingest_events = []; dead_letters = [] };
  fates = [];
  counters = record { ingested = 0; deduplicated = 0; dead_lettered = 0; out_of_order = 0 };
  latest = [];
}

abbrev pub quick : Settings
quick = record { reconnect_initial = 1000; reconnect_max = 60000 }
