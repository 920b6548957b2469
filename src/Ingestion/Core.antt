-- ===== src/Ingestion/Core.antt =====
-- src/planter_telemetry/ingestion/core.py: the classification of one message.
use planter_telemetry.Contract.Reading.{
  overflow, validate_json, invalid, valid, Validation, Pydantic, Bytes, TelemetryV1, ErrorDetail,
}
use planter_telemetry.Prelude.Floats.{Floats}
use planter_telemetry.Prelude.{
  none, overflow_error, raised, [], length, some, ◌-◌, text_eq, map, ltb, ok, Option, if◌then◌else◌,
  take, ◌∷◌, ◌++◌, Result, text, List, Text, join, ℕ,
}
use planter_telemetry.Contract.Topic.{device_id_from_topic}
pub mod Verdict

abbrev pub max_reason_errors : ℕ
max_reason_errors = 3

abbrev max_reason_chars : ℕ
max_reason_chars = 500

-- repr(s) of a str and str(n) of an int
pub record PyText : Type 0 where
  pub repr : Text → Text
  pub str_int : ℕ → Text

pub record DeadLetter : Type 0 where
  pub topic : Text
  pub payload : Bytes
  pub reason : Text

pub data Outcome (F : Type 0) : Type 0 where
  valid_reading : TelemetryV1 F → Outcome F
  dead_letter : DeadLetter → Outcome F

abbrev or_payload : Text → Text
or_payload [] = text "payload"
or_payload (c ∷ s) = c ∷ s

-- f"{loc}: {error['msg']}" of one error
abbrev pub part_of : ErrorDetail → Text
part_of error = or_payload (join (text ".") error.loc) ++ (text ": " ++ error.msg)

-- the entry for the errors that are left out
abbrev more_part : PyText → ℕ → List Text
more_part py n =
    if ltb max_reason_errors n
    then (text "(+" ++ (py.str_int (n - max_reason_errors) ++ text " more)")) ∷ []
    else []

-- _reason
unfoldable pub reason_of : PyText → List ErrorDetail → Text
unfolding join
reason_of py errors =
    take max_reason_chars (
      join (text "; ")
        (map part_of (take max_reason_errors errors) ++ more_part py (length errors)))

abbrev pub bad_topic : Text
bad_topic = text "topic does not match planter/v1/{device_id}/telemetry"

abbrev pub mismatch : PyText → Text → Text → Text
mismatch py topic_id payload_id =
    text "device_id mismatch: topic="
    ++ (py.repr topic_id ++ (text " payload=" ++ py.repr payload_id))

module _ {F : Type 0} ⦃fl : Floats F⦄ (pd : Pydantic F) (py : PyText) where
  abbrev dead : Text → Bytes → Text → Outcome F
  dead topic payload reason =
      dead_letter (record { topic = topic; payload = payload; reason = reason })

  -- what follows a payload's validation
  unfoldable pub outcome_of : Text → Bytes → Text → Validation F → Result (Outcome F)
  outcome_of topic payload topic_id (valid reading) =
      if text_eq reading.device_id topic_id
      then ok (valid_reading reading)
      else ok (dead topic payload (mismatch py topic_id reading.device_id))
  outcome_of topic payload topic_id (invalid errors) =
      ok (dead topic payload (text "invalid payload: " ++ reason_of py errors))
  outcome_of topic payload topic_id overflow = raised overflow_error

  unfoldable pub classify_from : Text → Bytes → Option Text → Result (Outcome F)
  unfolding outcome_of
  classify_from topic payload none = ok (dead topic payload bad_topic)
  classify_from topic payload (some topic_id) =
      outcome_of topic payload topic_id (validate_json pd payload)

  unfoldable pub classify : Text → Bytes → Result (Outcome F)
  unfolding classify_from
  classify topic payload = classify_from topic payload (device_id_from_topic topic)
