-- ===== src/Tests/Sample.antt =====
-- The sample of src/planter_telemetry/cli at concrete inputs.
use planter_telemetry.Cli.Main.{Machine, main, exit_0}
use planter_telemetry.Cli.Main.SampleReplay.{WireLaws, replay-sample}
use planter_telemetry.Cli.Command.{sample_args, replay_args}
use planter_telemetry.Cli.Replay.Faithful.{messages_of}
use planter_telemetry.Cli.Sample.{sample_records}
use planter_telemetry.Tests.Codecs.{codecs, codecs_laws}
use planter_telemetry.Tests.Publishing.{wire, emitted}
use planter_telemetry.Tests.Fixtures.{milli}
use planter_telemetry.Prelude.Int.{pos, ◌*ℤ◌}
use planter_telemetry.Prelude.{Text, text, text_eq, none, false, [], ◌≡◌, refl, arith}

wire-laws : WireLaws wire
wire-laws = record {
  encode_bytes = λ reading. (omega arith, (omega arith, tt));
  dumps_bytes = λ items. (omega arith, (omega arith, tt));
}

abbrev fresh_machine : Machine
fresh_machine = record { stdin = []; stdout = []; files = [] }

abbrev sample_path : Text
sample_path = text "sample.jsonl"

sample_path-IsFile : text_eq sample_path (text "-") ≡ false
unfolding text_eq
sample_path-IsFile = refl

hundred : milli.le (milli.ratio 100 1) (milli.ratio 0 1) ≡ false
unfolding ◌*ℤ◌
hundred = refl

replay-sample_example :
    let first = main codecs wire [] emitted (sample_args sample_path) fresh_machine in
    let second =
      main codecs wire [] emitted
        (replay_args (text "localhost") (pos 1883) none false sample_path)
        first.machine in
    (first.ending ≡ exit_0)
    × (messages_of second.published ≡ sample_records wire emitted)
    × (second.ending ≡ exit_0)
replay-sample_example =
    replay-sample codecs wire [] emitted fresh_machine sample_path (text "localhost") (pos 1883)
      none false codecs_laws wire-laws hundred refl sample_path-IsFile
      (omega arith, (omega arith, (omega arith, tt)))
