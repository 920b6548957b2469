-- ===== src/Tests/Cli.antt =====
-- src/planter_telemetry/cli at concrete inputs.
use planter_telemetry.Prelude.{All}
use planter_telemetry.Cli.Capture.{Capture}
use planter_telemetry.Cli.Replay.Faithful.{IsWire}
use planter_telemetry.Cli.Schedule.{replay_offsets}
use planter_telemetry.Cli.Schedule.Pacing.{
  replay_offsets-Ascending, NonNegative, StartsAtZero, Ascending,
}
use planter_telemetry.Cli.Command.{
  Args, capture_args, replay_args, parse_command, command, capture_command, replay_command,
  CaptureCommand, ReplayCommand,
}
use planter_telemetry.Cli.Command.Checked.{parse_command-IsAnswer, IsAnswer}
use planter_telemetry.Cli.Capture.{Event, message, capture, returned}
use planter_telemetry.Cli.Capture.Stops.{parsed_capture-IsReturned, IsReturned, arrivals}
use planter_telemetry.Cli.Records.{CapturedMessage, encode_record, decode_record, decoded}
use planter_telemetry.Cli.Records.RoundTrip.{decode-encode_record, IsCaptured}
use planter_telemetry.Cli.Records.Accepts.{decode_record_iff, IsRecord}
use planter_telemetry.Cli.Replay.{replay}
use planter_telemetry.Cli.Replay.Faithful.{replay-capture, Publishes, received}
use planter_telemetry.Prelude.Floats.{lit}
use planter_telemetry.Prelude.Int.{ℤ, pos, negsuc, ◌*ℤ◌, ◌+ℤ◌}
use planter_telemetry.Prelude.{
  false, refl, true, none, inl, length, ◌↔◌, text, arith, ◌≡◌, some, ◌∷◌, [], ◌++◌, take, List,
  Text,
}
use planter_telemetry.Tests.Codecs.{codecs, codecs_laws}
use planter_telemetry.Tests.Fixtures.{milli, pot_topic}

-- the laws at speed 2
double-NonNegative : NonNegative ⦃fl = milli⦄ (pos 2000)
unfolding ◌*ℤ◌ ◌+ℤ◌
double-NonNegative = record {
  le_refl = λ x h. ground arith;
  zero = refl;
  lt_le = λ x h. ground arith;
  add_ascends = λ x y h k. ground arith;
  add_positive = λ x y h k. ground arith;
  div_positive = λ x h. div x h;
}
  where
    div : (x : ℤ) → milli.le (lit 0) x ≡ true → milli.le (lit 0) (milli.div x (pos 2000)) ≡ true
    div (pos n) h = ground arith
    div (negsuc n) h = absurd (ground arith)

-- seconds 5, 3 and 9
abbrev shuffled : List ℤ
shuffled = pos 5000000 ∷ pos 3000000 ∷ pos 9000000 ∷ []

replay_offsets-Ascending_example :
    (offsets : List ℤ) × (replay_offsets (pos 2000) shuffled ≡ some offsets)
    × (length offsets ≡ length shuffled)
    × StartsAtZero offsets
    × Ascending (lit 0) offsets
replay_offsets-Ascending_example =
    replay_offsets-Ascending (pos 2000) shuffled double-NonNegative refl

-- planter-telemetry capture --count 2
abbrev two_messages : CaptureCommand ℤ
two_messages = record {
  host = text "localhost";
  port = pos 1883;
  topic = text "planter/v1/+/telemetry";
  count = some (pos 2);
  duration_seconds = none;
  out = text "-";
}

abbrev count_two : Args ℤ
count_two =
    capture_args (text "localhost") (pos 1883) (text "planter/v1/+/telemetry") (some (pos 2)) none
      (text "-")

count_two-parsed : parse_command count_two ≡ command (capture_command two_messages)
unfolding parse_command
count_two-parsed = refl

-- planter-telemetry replay
abbrev default_replay : ReplayCommand ℤ
default_replay = record {
  host = text "localhost";
  port = pos 1883;
  speed = some (lit 100);
  source = text "-";
}

default_replay-parsed :
    parse_command (replay_args (text "localhost") (pos 1883) none false (text "-"))
    ≡ command (replay_command default_replay)
unfolding parse_command
default_replay-parsed = refl

parse_command-IsAnswer_example :
    IsAnswer {F = ℤ}
      (pos 3 ∷ pos 7 ∷ [])
      (replay_args (text "localhost") (pos 1883) none false (text "-"))
      (parse_command (replay_args (text "localhost") (pos 1883) none false (text "-")))
parse_command-IsAnswer_example =
    parse_command-IsAnswer (pos 3 ∷ pos 7 ∷ [])
      (replay_args (text "localhost") (pos 1883) none false (text "-")) refl

-- a text, a payload that is none, and a third message
abbrev three_events : List Event
three_events =
    message pot_topic (104 ∷ 105 ∷ []) 7
    ∷ message pot_topic (255 ∷ 1 ∷ []) 9
    ∷ message pot_topic [] 11
    ∷ []

parsed_capture-IsReturned_example :
    IsReturned (some (pos 2)) (capture codecs (some (pos 2)) three_events)
unfolding arrivals
parsed_capture-IsReturned_example =
    parsed_capture-IsReturned codecs count_two two_messages three_events count_two-parsed (inl refl)

-- of an hour east of UTC
abbrev binary : CapturedMessage
binary = record {
  topic = pot_topic;
  payload = 255 ∷ 1 ∷ [];
  captured_at = record { local = 7; utc_offset = some (pos 3600000000) };
}

binary-IsCaptured : IsCaptured binary
binary-IsCaptured = record {
  topic = λ e. cc;
  payload = (omega arith, (omega arith, tt));
  captured_at = (omega arith, omega arith);
}

decode-encode_record_example :
    (line : Text) × (encode_record codecs binary ≡ some line)
    × (decode_record codecs line ≡ decoded binary)
    × (decode_record codecs (line ++ 10 ∷ []) ≡ decoded binary)
decode-encode_record_example = decode-encode_record codecs codecs_laws binary binary-IsCaptured

decode_record_iff_example :
    (decode_record codecs (text "{}") ≡ decoded binary)
    ↔ IsRecord codecs (codecs.loads (text "{}")) binary
decode_record_iff_example = decode_record_iff codecs (text "{}") binary

abbrev lines_of : Capture → List Text
lines_of (returned n lines) = lines
lines_of _ = []

-- what is captured of the first two of them
abbrev file : List Text
file = lines_of (capture codecs (some (pos 2)) three_events)

file-captured : capture codecs (some (pos 2)) three_events ≡ returned 2 file
unfolding capture
file-captured = refl

three_events-IsWire : All IsWire three_events
three_events-IsWire = (
  ((λ e. cc), (omega arith, (omega arith, tt)), omega arith),
  (((λ e. cc), (omega arith, (omega arith, tt)), omega arith), (((λ e. cc), tt, omega arith), tt)),
)

replay-capture_example :
    Publishes (take 2 (received three_events)) (replay codecs (some (pos 2000)) file)
replay-capture_example =
    replay-capture codecs (some (pos 2000)) (some (pos 2)) three_events 2 file codecs_laws
      three_events-IsWire refl file-captured
