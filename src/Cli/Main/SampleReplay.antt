-- ===== src/Cli/Main/SampleReplay.antt =====
-- src/planter_telemetry/cli/app.py: the sample, written by one run of main and replayed by another.
use planter_telemetry.Cli.Main.{
  Machine, exit_0, set_file, get_file, write_out, read_source, write_records, main_sampled,
  main_replayed, replay_ending, run_command, main,
}
use planter_telemetry.Cli.Command.{
  sample_args, replay_args, parse_command, is_not_positive, speed_of,
}
use planter_telemetry.Cli.Command.Checked.{speed_of-positive}
use planter_telemetry.Cli.Capture.{Event}
use planter_telemetry.Cli.Replay.{replay}
use planter_telemetry.Cli.Replay.Faithful.{
  line_of, decode_lines-line_of, replay-lines, Publishes, messages_of,
}
use planter_telemetry.Cli.Records.{Codecs, CapturedMessage, encode_record}
use planter_telemetry.Cli.Records.RoundTrip.{CodecLaws, IsCaptured, IsBytes}
use planter_telemetry.Cli.Sample.{sample_records, sample_record, sample_message_count}
use planter_telemetry.Simulator.Wire.{WireCodec, corrupt, corrupted, payload_of}
use planter_telemetry.Simulator.Stream.{
  Emission, CorruptionMode, truncated, wrong_type, missing_field,
}
use planter_telemetry.Contract.Reading.{Bytes, TelemetryV1}
use planter_telemetry.Contract.Topic.{telemetry_topic}
use planter_telemetry.Prelude.Floats.{Floats, lit}
use planter_telemetry.Prelude.Time.{max_instant}
use planter_telemetry.Prelude.Int.{ℤ}
use planter_telemetry.Prelude.{
  All-take, ◌<◌, Text, text, text_eq, List, [], ◌∷◌, Option, none, some, Bool, false, ◌≡◌, ◌≤◌,
  refl, All, map, take, inl, inr, Bool-cases, ap, eq→text_eq, arith, ◌≢◌,
}

get_file-set_file :
    (path : Text) (lines : List Text) (files : List (Text × List Text))
    → get_file path (set_file path lines files) ≡ some lines
unfolding get_file set_file
get_file-set_file path lines [] = rw (eq→text_eq path path refl) refl
get_file-set_file path lines ((p, old) ∷ files) = elim (Bool-cases (text_eq p path)) [
  | inl e ↦ rw (e, e) refl
  | inr e ↦ rw (e, e) (get_file-set_file path lines files)
]

-- What was written to a file is read from it.
read_source-write_out :
    (path : Text) (lines : List Text) (m : Machine)
    → text_eq path (text "-") ≡ false
    → read_source path (write_out path lines m) ≡ some lines
unfolding read_source write_out
read_source-write_out path lines m h = rw (h) (get_file-set_file path lines m.files)

telemetry_topic-nonempty : (d : Text) → telemetry_topic d ≢ []
unfolding telemetry_topic
telemetry_topic-nonempty d h = cc

-- What pydantic and json document: their output, encoded, is a list of bytes.
pub record WireLaws {F V : Type 0} (w : WireCodec F V) : Type 0 where
  pub encode_bytes : (reading : TelemetryV1 F) → IsBytes (w.encode reading)
  pub dumps_bytes : (items : List (Text × V)) → IsBytes (w.dumps items)

module _ {F V : Type 0} (c : Codecs) (w : WireCodec F V) where
  corrupt-IsBytes :
      WireLaws w
      → (payload : Bytes) (mode : CorruptionMode) → IsBytes payload
      → IsBytes (corrupt w payload mode)
  unfolding corrupt
  corrupt-IsBytes laws payload truncated h = All-take (λ b. b < 256) _ payload h
  corrupt-IsBytes laws payload wrong_type h = laws.dumps_bytes _
  corrupt-IsBytes laws payload missing_field h = laws.dumps_bytes _

  payload_of-IsBytes : WireLaws w → (e : Emission F) → IsBytes (payload_of w e)
  unfolding payload_of
  payload_of-IsBytes laws e = go e.corruption
    where
      go : (mode : Option CorruptionMode) → IsBytes (corrupted w (w.encode e.reading) mode)
      go none = laws.encode_bytes e.reading
      go (some mode) = corrupt-IsBytes laws _ mode (laws.encode_bytes e.reading)

  sample_record-IsCaptured :
      WireLaws w → (e : Emission F) → e.publish_at ≤ max_instant → IsCaptured (sample_record w e)
  sample_record-IsCaptured laws e h = record {
    topic = telemetry_topic-nonempty e.reading.device_id;
    payload = payload_of-IsBytes laws e;
    captured_at = (h, omega arith);
  }

  sampled-IsCaptured :
      WireLaws w
      → (es : List (Emission F)) → All (λ (e : Emission F). e.publish_at ≤ max_instant) es
      → All IsCaptured (map (sample_record w) es)
  sampled-IsCaptured laws [] h = tt
  sampled-IsCaptured laws (e ∷ es) h =
      (sample_record-IsCaptured laws e h.0, sampled-IsCaptured laws es h.1)

  write_records-sampled :
      (es : List (Emission F))
      → write_records c (map (sample_record w) es)
        ≡ (map (line_of c) (map (sample_record w) es), exit_0)
  unfolding write_records encode_record
  write_records-sampled [] = refl
  write_records-sampled (e ∷ es) = rw (write_records-sampled es) refl

module _ {F V : Type 0} ⦃fl : Floats F⦄ (c : Codecs) (w : WireCodec F V) where
  main_replayed-Publishes :
      (events : List Event) (emissions : List (Emission F)) (m : Machine) (speed : Option F)
      (lines : List Text) (messages : List CapturedMessage)
      → Publishes messages (replay c speed lines)
      → let r = main_replayed c w events emissions m speed (some lines) in
        (messages_of r.published ≡ messages) × (r.ending ≡ exit_0)
  main_replayed-Publishes events emissions m speed lines messages h = (h.0, ap replay_ending h.1)

  sample_records-lines :
      (emissions : List (Emission F))
      → write_records c (sample_records w emissions)
        ≡ (map (line_of c) (sample_records w emissions), exit_0)
  unfolding sample_records
  sample_records-lines emissions = write_records-sampled c w (take sample_message_count emissions)

  main-sample :
      (events : List Event) (emissions : List (Emission F)) (m : Machine) (path : Text)
      → main c w events emissions (sample_args path) m
        ≡ main_sampled path m (map (line_of c) (sample_records w emissions), exit_0)
  unfolding main run_command parse_command
  main-sample events emissions m path = ap (main_sampled path m) (sample_records-lines emissions)

  main-replay :
      (events : List Event) (emissions : List (Emission F)) (m : Machine) (path host : Text)
      (port : ℤ) (speed : Option F) (no_delay : Bool) (lines : List Text)
      → is_not_positive speed ≡ false
      → read_source path m ≡ some lines
      → main c w events emissions (replay_args host port speed no_delay path) m
        ≡ main_replayed c w events emissions m (speed_of no_delay speed) (some lines)
  unfolding main run_command parse_command
  main-replay events emissions m path host port speed no_delay lines h e = rw (h, e) refl

  -- The sample survives the two commands. Under the documented laws of the codecs, `sample` writes its
  -- file and `replay` of that file then publishes the sample's messages, all and in order, with their
  -- topics and, byte for byte, their payloads, the corrupted ones too, and both end without an error.
  -- The path is not `-`, the emissions are of before the year 10000, and the speed is not at most zero,
  -- whether it is given or the default one, of which 100 <= 0 must be False.
  pub replay-sample :
      (events : List Event) (emissions : List (Emission F)) (m : Machine) (path host : Text)
      (port : ℤ) (speed : Option F) (no_delay : Bool)
      → CodecLaws c
      → WireLaws w
      → fl.le (lit 100) (lit 0) ≡ false
      → is_not_positive speed ≡ false
      → text_eq path (text "-") ≡ false
      → All (λ (e : Emission F). e.publish_at ≤ max_instant) emissions
      → let first = main c w events emissions (sample_args path) m in
        let second =
          main c w events emissions (replay_args host port speed no_delay path) first.machine in
        (first.ending ≡ exit_0)
        × (messages_of second.published ≡ sample_records w emissions)
        × (second.ending ≡ exit_0)
  unfolding sample_records
  replay-sample events emissions m path host port speed no_delay laws wire hundred positive file
        times =
      let messages = sample_records w emissions in
      let lines = map (line_of c) messages in
      let sampled =
        sampled-IsCaptured c w wire (take sample_message_count emissions)
          (All-take _ sample_message_count emissions times) in
      let played =
        main_replayed-Publishes events emissions (write_out path lines m) (speed_of no_delay speed)
          lines messages
          (replay-lines c (speed_of no_delay speed) lines messages
            (speed_of-positive no_delay speed hundred positive)
            (decode_lines-line_of c laws 1 messages sampled)) in
      rw
        (
          main-sample events emissions m path,
          main-replay events emissions (write_out path lines m) path host port speed no_delay lines
              positive (read_source-write_out path lines m file),
        )
        (refl, played.0, played.1)
