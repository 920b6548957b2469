-- ===== src/Cli/Replay.antt =====
-- src/planter_telemetry/cli/replay.py: what replay publishes. The lines of the file are the input; the
-- connection, the clock and the sleeps up to each offset are left out.
pub mod Faithful
use planter_telemetry.Cli.Records.{
  Codecs, CapturedMessage, decode_record, Decoded, decoded, value_error, RecordError,
}
use planter_telemetry.Cli.Schedule.{replay_offsets}
use planter_telemetry.Contract.Reading.{Bytes, LocalTime}
use planter_telemetry.Prelude.Floats.{Floats, lit}
use planter_telemetry.Prelude.{
  ◌==◌, ◌||◌, if◌then◌else◌, ◌&&◌, [], suc, true, leb, ◌∷◌, Bool, none, some, List, Text, ℕ, Option,
}
use planter_telemetry.Prelude.Int.{ℤ, pos, ◌-ℤ◌}

-- str.isspace of one character
abbrev is_space : ℕ → Bool
is_space x =
    (leb 9 x && leb x 13)
    || (leb 28 x && leb x 32)
    || (x == 133)
    || (x == 160)
    || (x == 5760)
    || (leb 8192 x && leb x 8202)
    || (x == 8232)
    || (x == 8233)
    || (x == 8239)
    || (x == 8287)
    || (x == 12288)

-- `not line.strip()`
unfoldable pub is_blank : Text → Bool
is_blank [] = true
is_blank (x ∷ line) = let rest = is_blank line in is_space x && rest

-- The ValueErrors of replay: of a line, with its number, or of the speed.
pub data ReplayError : Type 0 where
  bad_line : ℕ → RecordError → ReplayError
  bad_speed : ReplayError

-- The messages in order, each with its offset, and the error that ended the replay, if one did.
pub record Replay (F : Type 0) : Type 0 where
  pub published : List (CapturedMessage × F)
  pub error : Option ReplayError

-- a time as microseconds since the year 1 in UTC; every decoded time is aware
abbrev utc_micros : LocalTime → ℤ
utc_micros t = elim t.utc_offset [ none ↦ pos t.local | some offset ↦ pos t.local -ℤ offset ]

abbrev pub times : List CapturedMessage → List ℤ
times [] = []
times (m ∷ messages) = utc_micros m.captured_at ∷ times messages

module _ (c : Codecs) where
  abbrev yield_decoded :
      ℕ
      → Decoded
      → List CapturedMessage × Option ReplayError
      → List CapturedMessage × Option ReplayError
  yield_decoded number (decoded m) (messages, error) = (m ∷ messages, error)
  yield_decoded number (value_error e) rest = ([], some (bad_line number e))

  -- _decoded, from the line of that number on: the messages up to the first bad line
  unfoldable pub decode_lines : ℕ → List Text → List CapturedMessage × Option ReplayError
  unfolding is_blank decode_record
  decode_lines number [] = ([], none)
  decode_lines number (line ∷ lines) =
      let rest = decode_lines (suc number) lines in
      if is_blank line then rest else yield_decoded number (decode_record c line) rest

module _ {F : Type 0} ⦃fl : Floats F⦄ where
  -- zip(records, offsets, strict=False)
  unfoldable pub zip_offsets : List CapturedMessage → List F → List (CapturedMessage × F)
  zip_offsets [] offsets = []
  zip_offsets (m ∷ messages) [] = []
  zip_offsets (m ∷ messages) (offset ∷ offsets) = (m, offset) ∷ zip_offsets messages offsets

  -- itertools.repeat(0.0), as far as zip reads it
  unfoldable pub without_delay : List CapturedMessage → List (CapturedMessage × F)
  without_delay [] = []
  without_delay (m ∷ messages) = (m, lit 0) ∷ without_delay messages

  -- The generators run when zip asks for the first message: a file without one raises no error.
  abbrev pub paced : List CapturedMessage × Option ReplayError → Option (List F) → Replay F
  paced ([], error) offsets = record { published = []; error = error }
  paced (m ∷ messages, error) none = record { published = []; error = some bad_speed }
  paced (m ∷ messages, error) (some offsets) = record {
    published = zip_offsets (m ∷ messages) offsets;
    error = error;
  }

  -- replay
  unfoldable pub replay : Codecs → Option F → List Text → Replay F
  unfolding decode_lines replay_offsets zip_offsets without_delay
  replay c none lines =
      let (messages, error) = decode_lines c 1 lines in
      record { published = without_delay messages; error = error }
  replay c (some speed) lines =
      let (messages, error) = decode_lines c 1 lines in
      paced (messages, error) (replay_offsets speed (times messages))
