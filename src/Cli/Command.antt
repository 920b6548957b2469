-- ===== src/Cli/Command.antt =====
-- src/planter_telemetry/cli/app.py: parse_command. What argparse makes of the command line is the
-- input; what parser.error prints before it exits is a value.
pub mod Checked
use planter_telemetry.Prelude.Floats.{Floats, lit}
use planter_telemetry.Prelude.{true, ◌&&◌, some, none, false, Text, Bool, if◌then◌else◌, Option}
use planter_telemetry.Analytics.Store.{is_none}
use planter_telemetry.Prelude.Int.{ℤ, pos, ltb_ℤ}

-- the namespace of parse_args
pub data Args (F : Type 0) : Type 0 where
  -- host, port, --topic, --count, --duration, --out
  capture_args : Text → ℤ → Text → Option ℤ → Option F → Text → Args F
  -- host, port, --speed, --no-delay, FILE
  replay_args : Text → ℤ → Option F → Bool → Text → Args F
  -- --out
  sample_args : Text → Args F

pub record CaptureCommand (F : Type 0) : Type 0 where
  pub host : Text
  pub port : ℤ
  pub topic : Text
  pub count : Option ℤ
  pub duration_seconds : Option F
  pub out : Text

pub record ReplayCommand (F : Type 0) : Type 0 where
  pub host : Text
  pub port : ℤ
  pub speed : Option F
  pub source : Text

pub record SampleCommand : Type 0 where
  pub out : Text

pub data Command (F : Type 0) : Type 0 where
  capture_command : CaptureCommand F → Command F
  replay_command : ReplayCommand F → Command F
  sample_command : SampleCommand → Command F

pub data UsageError : Type 0 where
  never_stops count_too_small duration_not_positive speed_not_positive : UsageError

pub data CommandResult (F : Type 0) : Type 0 where
  command : Command F → CommandResult F
  usage : UsageError → CommandResult F

-- `count is not None and count < 1`
abbrev pub is_small : Option ℤ → Bool
is_small none = false
is_small (some count) = ltb_ℤ count (pos 1)

module _ {F : Type 0} ⦃fl : Floats F⦄ where
  -- `x is not None and x <= 0`
  abbrev pub is_not_positive : Option F → Bool
  is_not_positive none = false
  is_not_positive (some x) = fl.le x (lit 0)

  abbrev pub speed_of : Bool → Option F → Option F
  speed_of true speed = none
  speed_of false none = some (lit 100)
  speed_of false (some speed) = some speed

  -- parse_command
  unfoldable pub parse_command : Args F → CommandResult F
  parse_command (capture_args host port topic count duration out) =
      if is_none count && is_none duration
      then usage never_stops
      else if is_small count
      then usage count_too_small
      else if is_not_positive duration
      then usage duration_not_positive
      else command (
          capture_command (record {
            host = host;
            port = port;
            topic = topic;
            count = count;
            duration_seconds = duration;
            out = out;
          }))
  parse_command (replay_args host port speed no_delay source) =
      if is_not_positive speed
      then usage speed_not_positive
      else command (
          replay_command
            (record { host = host; port = port; speed = speed_of no_delay speed; source = source }))
  parse_command (sample_args out) = command (sample_command (record { out = out }))
