-- ===== src/Cli/Sample.antt =====
-- src/planter_telemetry/cli/sample.py: the records of the sample, from the emissions of the fleet.
use planter_telemetry.Cli.Records.{CapturedMessage}
use planter_telemetry.Simulator.Wire.{WireCodec, payload_of}
use planter_telemetry.Simulator.Stream.{Emission}
use planter_telemetry.Contract.Topic.{telemetry_topic}
use planter_telemetry.Prelude.Int.{pos}
use planter_telemetry.Prelude.{ℕ, List, take, map, some}

-- SAMPLE_MESSAGE_COUNT
abbrev pub sample_message_count : ℕ
sample_message_count = 200

module _ {F V : Type 0} (w : WireCodec F V) where
  -- one record; publish_at is in UTC
  abbrev pub sample_record : Emission F → CapturedMessage
  sample_record emission = record {
    topic = telemetry_topic emission.reading.device_id;
    payload = payload_of w emission;
    captured_at = record { local = emission.publish_at; utc_offset = some (pos 0) };
  }

  -- sample_records, on what build_streams yields
  unfoldable pub sample_records : List (Emission F) → List CapturedMessage
  unfolding payload_of
  sample_records emissions = map sample_record (take sample_message_count emissions)
