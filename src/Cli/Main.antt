-- ===== src/Cli/Main.antt =====
-- src/planter_telemetry/cli/app.py: main, on what argparse answers. The terminal and the files are lists
-- of lines; the broker's messages and the emissions of the sample's fleet are the input; the connections,
-- the clock and the logs are left out.
pub mod SampleReplay
use planter_telemetry.Cli.Command.{
  Args, Command, CommandResult, UsageError, capture_command, replay_command, sample_command,
  command, usage, parse_command,
}
use planter_telemetry.Cli.Capture.{Event, Capture, returned, failed, waiting, capture}
use planter_telemetry.Cli.Replay.{Replay, ReplayError, replay}
use planter_telemetry.Cli.Records.{Codecs, CapturedMessage, encode_record}
use planter_telemetry.Cli.Sample.{sample_records}
use planter_telemetry.Simulator.Wire.{WireCodec}
use planter_telemetry.Simulator.Stream.{Emission}
use planter_telemetry.Prelude.Floats.{Floats}
use planter_telemetry.Prelude.{
  Text, text, text_eq, List, [], ◌∷◌, ◌++◌, Option, none, some, if◌then◌else◌, Bool,
}

-- sys.stdin, sys.stdout and the files by their paths, as lines
pub record Machine : Type 0 where
  pub stdin : List Text
  pub stdout : List Text
  pub files : List (Text × List Text)

-- How main ends: it returns 0; parser.error exits; encode_record or the replay raises a ValueError; the
-- source is not there; or the capture still waits for a message.
pub data Ending : Type 0 where
  exit_0 no_source bad_record waits : Ending
  exit_2 : UsageError → Ending
  bad_replay : ReplayError → Ending

pub record Main (F : Type 0) : Type 0 where
  pub machine : Machine
  pub published : List (CapturedMessage × F)
  pub ending : Ending

unfoldable pub set_file : Text → List Text → List (Text × List Text) → List (Text × List Text)
set_file path lines [] = (path, lines) ∷ []
set_file path lines ((p, old) ∷ files) =
    let rest = set_file path lines files in
    if text_eq p path then (p, lines) ∷ files else (p, old) ∷ rest

unfoldable pub get_file : Text → List (Text × List Text) → Option (List Text)
get_file path [] = none
get_file path ((p, lines) ∷ files) =
    let rest = get_file path files in if text_eq p path then some lines else rest

-- _open_out, and what is written to the stream; mode "w" drops what the file had
unfoldable pub write_out : Text → List Text → Machine → Machine
unfolding set_file
write_out path lines m =
    if text_eq path (text "-")
    then record m { stdout = m.stdout ++ lines }
    else record m { files = set_file path lines m.files }

-- _open_source
unfoldable pub read_source : Text → Machine → Option (List Text)
unfolding get_file
read_source path m = if text_eq path (text "-") then some m.stdin else get_file path m.files

module _ (c : Codecs) where
  -- behind the line of one record
  abbrev write_next : Option Text → List Text × Ending → List Text × Ending
  write_next none rest = ([], bad_record)
  write_next (some line) (lines, ending) = ((line ++ 10 ∷ []) ∷ lines, ending)

  -- `for record in sample_records()`
  unfoldable pub write_records : List CapturedMessage → List Text × Ending
  unfolding encode_record
  write_records [] = ([], exit_0)
  write_records (r ∷ records) = write_next (encode_record c r) (write_records records)

abbrev pub replay_ending : Option ReplayError → Ending
replay_ending none = exit_0
replay_ending (some e) = bad_replay e

module _ {F : Type 0} where
  abbrev main_captured : Text → Machine → Capture → Main F
  main_captured out m (returned written lines) = record {
    machine = write_out out lines m;
    published = [];
    ending = exit_0;
  }
  main_captured out m (failed lines) = record {
    machine = write_out out lines m;
    published = [];
    ending = bad_record;
  }
  main_captured out m (waiting written lines) = record {
    machine = write_out out lines m;
    published = [];
    ending = waits;
  }

  abbrev pub main_sampled : Text → Machine → List Text × Ending → Main F
  main_sampled out m (lines, ending) = record {
    machine = write_out out lines m;
    published = [];
    ending = ending;
  }

module _ {F V : Type 0} ⦃fl : Floats F⦄ (c : Codecs) (w : WireCodec F V) (events : List Event)
    (emissions : List (Emission F)) where
  abbrev pub main_replayed : Machine → Option F → Option (List Text) → Main F
  main_replayed m speed none = record { machine = m; published = []; ending = no_source }
  main_replayed m speed (some lines) =
      let r = replay c speed lines in
      record { machine = m; published = r.published; ending = replay_ending r.error }

  -- `match command`
  unfoldable pub run_command : Command F → Machine → Main F
  unfolding capture write_out replay read_source sample_records write_records
  run_command (capture_command k) m = main_captured k.out m (capture c k.count events)
  run_command (replay_command k) m = main_replayed m k.speed (read_source k.source m)
  run_command (sample_command k) m =
      main_sampled k.out m (write_records c (sample_records w emissions))

  abbrev run_parsed : CommandResult F → Machine → Main F
  run_parsed (command k) m = run_command k m
  run_parsed (usage e) m = record { machine = m; published = []; ending = exit_2 e }

  -- main
  unfoldable pub main : Args F → Machine → Main F
  unfolding parse_command run_command
  main args m = run_parsed (parse_command args) m
