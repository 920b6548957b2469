-- ===== src/Contract/Reading.antt =====
-- src/planter_telemetry/contract.py: class TelemetryV1 and its field types. The JSON parser and the
-- coercion of each field's value are pydantic's, a parameter; the constraints are the contract's.
pub mod Bounds
use planter_telemetry.Prelude.{
  text, ℕ, Text, Bool, true, false, ◌&&◌, Option, none, some, List, [], ◌∷◌, ◌++◌, ◌==◌,
  if◌then◌else◌,
}
use planter_telemetry.Prelude.Int.{ℤ, pos, ◌-ℤ◌}
use planter_telemetry.Prelude.Time.{instant_add}
use planter_telemetry.Prelude.Floats.{Floats, lit}
use planter_telemetry.Contract.Topic.{schema_version, is_device_id}

abbrev pub Bytes : Type 0
Bytes = List ℕ

pub record TelemetryV1 (F : Type 0) : Type 0 where
  pub schema_version : ℕ
  pub device_id : Text
  pub measured_at : ℕ
  pub water_level : F
  pub battery_voltage : F

-- One entry of ValidationError.errors(), its location's pieces already turned into text.
pub record ErrorDetail : Type 0 where
  pub loc : List Text
  pub msg : Text

-- What pydantic makes of one field of a JSON object before the contract's constraints apply.
pub data Field (A : Type 0) : Type 0 where
  absent : Field A
  rejected : ErrorDetail → Field A
  given : A → Field A

-- A parsed datetime: its local microseconds, and its UTC offset in microseconds unless it is naive.
pub record LocalTime : Type 0 where
  pub local : ℕ
  pub utc_offset : Option ℤ

pub record RawFields (F : Type 0) : Type 0 where
  pub schema_version : Field ℕ
  pub device_id : Field Text
  pub measured_at : Field LocalTime
  pub water_level : Field F
  pub battery_voltage : Field F

pub data Parsed (F : Type 0) : Type 0 where
  malformed : List ErrorDetail → Parsed F
  fields : RawFields F → Parsed F

-- pydantic: the parser of a payload, and its errors for a missing field and a failed constraint.
pub record Pydantic (F : Type 0) : Type 0 where
  pub parse : Bytes → Parsed F
  pub missing : Text → ErrorDetail
  pub not_literal : Text → ErrorDetail
  pub pattern_mismatch : Text → ErrorDetail
  pub naive_datetime : Text → ErrorDetail
  pub below_minimum : Text → ErrorDetail
  pub above_maximum : Text → ErrorDetail

-- The end of one field's validation.
pub data Checked (A : Type 0) : Type 0 where
  accepted : A → Checked A
  refused : ErrorDetail → Checked A
  overflowed : Checked A

pub data Validation (F : Type 0) : Type 0 where
  valid : TelemetryV1 F → Validation F
  invalid : List ErrorDetail → Validation F
  -- the OverflowError of a validator, which pydantic passes on
  overflow : Validation F

-- _to_utc: value.astimezone(UTC); none is its OverflowError
unfoldable pub to_utc : ℕ → ℤ → Option ℕ
to_utc local offset = instant_add local (pos 0 -ℤ offset)

unfoldable utc_or_overflow : Option ℕ → Checked ℕ
utc_or_overflow none = overflowed
utc_or_overflow (some at) = accepted at

abbrev check_utc : LocalTime → Option ℤ → Text → ErrorDetail → Checked ℕ
check_utc t none name naive = refused naive
check_utc t (some offset) name naive = utc_or_overflow (to_utc t.local offset)

module _ {F : Type 0} ⦃fl : Floats F⦄ (py : Pydantic F) where
  -- schema_version: Literal[1] = 1
  unfoldable pub check_schema_version : Field ℕ → Text → Checked ℕ
  check_schema_version absent name = accepted schema_version
  check_schema_version (rejected e) name = refused e
  check_schema_version (given n) name =
      if n == schema_version then accepted n else refused (py.not_literal name)

  -- device_id: DeviceId
  unfoldable pub check_device_id : Field Text → Text → Checked Text
  check_device_id absent name = refused (py.missing name)
  check_device_id (rejected e) name = refused e
  check_device_id (given d) name =
      if is_device_id d then accepted d else refused (py.pattern_mismatch name)

  -- measured_at: UtcDatetime
  unfoldable pub check_measured_at : Field LocalTime → Text → Checked ℕ
  unfolding to_utc utc_or_overflow
  check_measured_at absent name = refused (py.missing name)
  check_measured_at (rejected e) name = refused e
  check_measured_at (given t) name = check_utc t t.utc_offset name (py.naive_datetime name)

  -- float = Field(ge=lo, le=hi)
  unfoldable pub check_range : F → F → Field F → Text → Checked F
  check_range lo hi absent name = refused (py.missing name)
  check_range lo hi (rejected e) name = refused e
  check_range lo hi (given x) name =
      if fl.le x hi
      then (if fl.le lo x then accepted x else refused (py.below_minimum name))
      else refused (py.above_maximum name)

-- The error of one field, put in front of those of the fields below it.
abbrev errors_of : {A : Type 0} → Checked A → List ErrorDetail → List ErrorDetail
errors_of (accepted a) es = es
errors_of (refused e) es = e ∷ es
errors_of overflowed es = es

-- All fields are validated in the order of the class, and their errors are collected.
unfoldable pub combine :
    {F : Type 0} → Checked ℕ → Checked Text → Checked ℕ → Checked F → Checked F → Validation F
combine (accepted v) (accepted d) (accepted t) (accepted w) (accepted b) = valid (record {
  schema_version = v;
  device_id = d;
  measured_at = t;
  water_level = w;
  battery_voltage = b;
})
combine v d overflowed w b = overflow
combine v d t w b = invalid (errors_of v (errors_of d (errors_of t (errors_of w (errors_of b [])))))

module _ {F : Type 0} ⦃fl : Floats F⦄ (py : Pydantic F) where
  unfoldable pub validate_parsed : Parsed F → Validation F
  unfolding combine check_schema_version check_device_id check_measured_at check_range
  validate_parsed (malformed errors) = invalid errors
  validate_parsed (fields raw) =
      combine (check_schema_version py raw.schema_version (text "schema_version"))
        (check_device_id py raw.device_id (text "device_id"))
        (check_measured_at py raw.measured_at (text "measured_at"))
        (check_range py (lit 0) (lit 100) raw.water_level (text "water_level"))
        (check_range py (fl.ratio 25 10) (fl.ratio 44 10) raw.battery_voltage
          (text "battery_voltage"))

  -- TelemetryV1.model_validate_json
  unfoldable pub validate_json : Bytes → Validation F
  unfolding validate_parsed
  validate_json payload = validate_parsed (py.parse payload)
