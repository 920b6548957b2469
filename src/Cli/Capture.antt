-- ===== src/Cli/Capture.antt =====
-- src/planter_telemetry/cli/capture.py: the loop of capture. What the MQTT client and the timer do is
-- the input. The flush of each line is left out.
pub mod Stops
use planter_telemetry.Cli.Records.{Codecs, CapturedMessage, encode_record}
use planter_telemetry.Contract.Reading.{Bytes, LocalTime}
use planter_telemetry.Prelude.{
  suc, if◌then◌else◌, none, ◌∷◌, [], ◌++◌, false, some, Bool, List, Option, ℕ, Text,
}
use planter_telemetry.Prelude.Int.{ℤ, pos, leb_ℤ}

-- a message with the clock at its arrival, or the end of the duration
pub data Event : Type 0 where
  message : Text → Bytes → ℕ → Event
  timeout : Event

-- The end of capture, with the lines written: it returned, it raised the ValueError of
-- encode_record, or it still waits for an event.
pub data Capture : Type 0 where
  returned : ℕ → List Text → Capture
  failed : List Text → Capture
  waiting : ℕ → List Text → Capture

-- `count is not None and written >= count`
abbrev pub is_enough : Option ℤ → ℕ → Bool
is_enough none written = false
is_enough (some count) written = leb_ℤ count (pos written)

-- datetime.now(UTC)
abbrev pub captured : Text → Bytes → ℕ → CapturedMessage
captured topic payload now = record {
  topic = topic;
  payload = payload;
  captured_at = record { local = now; utc_offset = some (pos 0) };
}

module _ (c : Codecs) (count : Option ℤ) where
  -- `out.write(encode_record(record) + "\n")`, and what follows it
  abbrev write_line : Option Text → ℕ → List Text → (ℕ → List Text → Capture) → Capture
  write_line none written out rest = failed out
  write_line (some line) written out rest =
      let lines = out ++ (line ++ 10 ∷ []) ∷ [] in
      if is_enough count (suc written)
      then returned (suc written) lines
      else rest (suc written) lines

  unfoldable pub capture_loop : List Event → ℕ → List Text → Capture
  unfolding encode_record
  capture_loop [] written out = waiting written out
  capture_loop (timeout ∷ events) written out = returned written out
  capture_loop (message topic payload now ∷ events) written out =
      write_line (encode_record c (captured topic payload now)) written out (capture_loop events)

  -- capture
  unfoldable pub capture : List Event → Capture
  unfolding capture_loop
  capture events = capture_loop events 0 []
