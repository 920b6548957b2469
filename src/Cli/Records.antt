-- ===== src/Cli/Records.antt =====
-- src/planter_telemetry/cli/records.py: the codec of captured messages. json, base64, UTF-8 and the
-- ISO format of datetimes are the standard library's, a parameter.
pub mod RoundTrip
pub mod Accepts
use planter_telemetry.Prelude.{
  none, text_eq, [], if◌then◌else◌, text, some, ◌∷◌, List, Option, Text,
}
use planter_telemetry.Analytics.Store.{is_none}
use planter_telemetry.Contract.Reading.{Bytes, LocalTime}

-- What record.get answers: None for a missing name and for null, a str, or something else.
pub data JsonField : Type 0 where
  null other : JsonField
  str : Text → JsonField

-- What json.loads makes of a line: an error, a value that is no dict, or the items of a dict.
pub data Loaded : Type 0 where
  not_json not_object : Loaded
  object : List (Text × JsonField) → Loaded

pub record Codecs : Type 0 where
  -- json.dumps of a dict of strings, with ensure_ascii=False and compact separators
  pub dumps : List (Text × Text) → Text
  pub loads : Text → Loaded
  pub isoformat : LocalTime → Text
  -- none is a ValueError
  pub fromisoformat : Text → Option LocalTime
  -- payload.decode("utf-8"); none is a UnicodeDecodeError
  pub utf8_decode : Bytes → Option Text
  -- text.encode("utf-8"); none is a UnicodeEncodeError, of a lone surrogate
  pub utf8_encode : Text → Option Bytes
  pub b64encode : Bytes → Text
  -- b64decode(encoded, validate=True); none is a ValueError
  pub b64decode : Text → Option Bytes

pub record CapturedMessage : Type 0 where
  pub topic : Text
  pub payload : Bytes
  pub captured_at : LocalTime

-- The ValueErrors of decode_record, in the order in which it raises them.
pub data RecordError : Type 0 where
  invalid_json record_not_object invalid_topic missing_captured_at invalid_captured_at : RecordError
  naive_captured_at not_exactly_one payload_not_text unencodable_payload : RecordError
  payload_b64_not_text invalid_payload_b64 : RecordError

pub data Decoded : Type 0 where
  decoded : CapturedMessage → Decoded
  value_error : RecordError → Decoded

-- record.get(name)
unfoldable pub get_field : Text → List (Text × JsonField) → JsonField
get_field name [] = null
get_field name ((n, v) ∷ rest) = if text_eq n name then v else get_field name rest

module _ (c : Codecs) where
  abbrev pub payload_item : CapturedMessage → Option Text → Text × Text
  payload_item message (some s) = (text "payload", s)
  payload_item message none = (text "payload_b64", c.b64encode message.payload)

  abbrev pub record_of : CapturedMessage → List (Text × Text)
  record_of message =
      (text "topic", message.topic)
      ∷ (text "captured_at", c.isoformat message.captured_at)
      ∷ payload_item message (c.utf8_decode message.payload)
      ∷ []

  -- encode_record; none is the ValueError
  unfoldable pub encode_record : CapturedMessage → Option Text
  encode_record message =
      if is_none message.captured_at.utc_offset then none else some (c.dumps (record_of message))

  -- `not isinstance(topic, str) or not topic`
  abbrev pub with_topic : JsonField → (Text → Decoded) → Decoded
  with_topic (str (x ∷ topic)) k = k (x ∷ topic)
  with_topic _ k = value_error invalid_topic

  abbrev pub with_aware : Option LocalTime → (LocalTime → Decoded) → Decoded
  with_aware none k = value_error invalid_captured_at
  with_aware (some at) k = if is_none at.utc_offset then value_error naive_captured_at else k at

  abbrev pub with_captured_at : JsonField → (LocalTime → Decoded) → Decoded
  with_captured_at (str raw) k = with_aware (c.fromisoformat raw) k
  with_captured_at _ k = value_error missing_captured_at

  abbrev pub with_bytes : RecordError → Option Bytes → (Bytes → Decoded) → Decoded
  with_bytes e none k = value_error e
  with_bytes e (some payload) k = k payload

  -- `text` and `encoded`
  abbrev pub with_payload : JsonField → JsonField → (Bytes → Decoded) → Decoded
  with_payload null null k = value_error not_exactly_one
  with_payload null (str encoded) k = with_bytes invalid_payload_b64 (c.b64decode encoded) k
  with_payload null other k = value_error payload_b64_not_text
  with_payload (str s) null k = with_bytes unencodable_payload (c.utf8_encode s) k
  with_payload other null k = value_error payload_not_text
  with_payload _ _ k = value_error not_exactly_one

  unfoldable pub decode_items : List (Text × JsonField) → Decoded
  unfolding get_field
  decode_items items = with_topic (get_field (text "topic") items) (λ topic.
      with_captured_at (get_field (text "captured_at") items) (λ captured_at.
        with_payload (get_field (text "payload") items) (get_field (text "payload_b64") items)
          (λ payload.
            decoded (record { topic = topic; payload = payload; captured_at = captured_at }))))

  abbrev pub decode_loaded : Loaded → Decoded
  decode_loaded not_json = value_error invalid_json
  decode_loaded not_object = value_error record_not_object
  decode_loaded (object items) = decode_items items

  -- decode_record
  unfoldable pub decode_record : Text → Decoded
  unfolding decode_items
  decode_record line = decode_loaded (c.loads line)
