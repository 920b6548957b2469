-- ===== src/Analytics/Service.antt =====
-- src/planter_telemetry/analytics/service.py: run_pass on the tables of the database, and the polling
-- loop of run. The signals, the periodic log of counters and the server of /healthz are left out.
pub mod Watermark
pub mod Retry
pub mod Events
pub mod Silent
pub mod Stored
pub mod Gauge
use planter_telemetry.Analytics.Window.{
  Collation, data_now, load_window, by_kind, latest_alert_states, DeviceSeries,
}
use planter_telemetry.Analytics.Pass.{run_pass, ByKind, AlertStates, metric_windows, metrics}
use planter_telemetry.Analytics.Decision.{Run, Settings}
use planter_telemetry.Analytics.Alert.{AlertTransition, firing, cleared}
use planter_telemetry.Analytics.Model.{Metric}
use planter_telemetry.Contract.Reading.{TelemetryV1}
use planter_telemetry.Prelude.{
  raised, ◌+◌, text, text_eq, none, true, false, ltb, some, ◌∷◌, Exn, ok, if◌then◌else◌, [], ℕ,
  Bool, Text, Result, List, Option,
}
use planter_telemetry.Prelude.Floats.{Floats}

-- the column `state`, which has two values
abbrev state_of : Text → AlertTransition
state_of state = if text_eq state (text "firing") then firing else cleared

-- Store.latest_alert_states, the dictionary of its rows
abbrev pub as_states : List ((Text × Text) × (Text × ℕ)) → AlertStates
as_states [] = []
as_states ((key, (state, at)) ∷ rest) =
    (key, record { state = state_of state; as_of = at }) ∷ as_states rest

-- min(window_start for ...), of the earliest so far and the others
abbrev pub earliest : {F : Type 0} → ℕ → List (Metric F × ℕ) → ℕ
earliest start [] = start
earliest start ((metric, other) ∷ rest) = earliest (if ltb other start then other else start) rest

-- `longest`
abbrev pub longest : {F : Type 0} → List (Metric F × ℕ) → ℕ
longest [] = 0
longest ((metric, start) ∷ rest) = earliest start rest

abbrev pub of_kinds : {F : Type 0} → List (Text × DeviceSeries F) → List (Text × ByKind F)
of_kinds [] = []
of_kinds ((device_id, series) ∷ rest) = (device_id, by_kind series) ∷ of_kinds rest

-- HealthState
pub record HealthState (F : Type 0) : Type 0 where
  pub last_pass_ok : Bool
  pub last_pass_monotonic : Option F

-- One turn of the loop: the rows of `telemetry` that the pass reads, the clock before and after it,
-- and, where a psycopg.Error or an OSError ended it, what it had done until then.
pub record Turn (F : Type 0) : Type 0 where
  pub rows : List (TelemetryV1 F)
  pub began : F
  pub ended : F
  pub fault : Option (Run F)

-- The loop between two turns: what the passes wrote and counted, `last_data_now`, the counters and
-- flags of run itself, and the exception that ended it.
pub record Loop (F : Type 0) : Type 0 where
  pub work : Run F
  pub last_data_now : Option ℕ
  pub passes : ℕ
  pub pass_failures : ℕ
  pub health : HealthState F
  pub last_pass_duration : F
  pub crashed : Option Exn

module _ {F : Type 0} ⦃fl : Floats F⦄ (before : Collation) (settings : Settings F) where
  -- what load_window answers the pass, from the longest of the metrics' windows
  unfoldable pub read_window :
      List (TelemetryV1 F) → Option (List (Metric F × ℕ)) → List (Text × ByKind F)
  unfolding load_window
  read_window rows none = []
  read_window rows (some windows) = of_kinds (load_window before (longest windows) rows)

  abbrev pass_on : Option ℕ → List (TelemetryV1 F) → Option ℕ → Run F → Result (Option ℕ) × Run F
  pass_on since rows none s = run_pass settings since none [] [] s
  pass_on since rows (some now) s =
      run_pass settings since (some now) (as_states (latest_alert_states s.tables.alert_events []))
        (read_window rows (metric_windows settings now (metrics settings))) s

  -- run_pass, with its reads of the database
  unfoldable pub stored_pass : Option ℕ → List (TelemetryV1 F) → Run F → Result (Option ℕ) × Run F
  unfolding data_now run_pass latest_alert_states read_window
  stored_pass since rows s = pass_on since rows (data_now rows) s

  -- behind the try statement
  abbrev timed : Turn F → Bool → Loop F → Loop F
  timed turn passed s = record s {
    health = record { last_pass_ok = passed; last_pass_monotonic = some turn.ended };
    last_pass_duration = fl.sub turn.ended turn.began;
  }

  abbrev pub passed : Turn F → Loop F → Result (Option ℕ) × Run F → Loop F
  passed turn s (ok watermark, r) =
      timed turn true (record s { work = r; last_data_now = watermark; passes = s.passes + 1 })
  -- nothing catches an OverflowError
  passed turn s (raised e, r) = record s { work = r; crashed = some e }

  abbrev pub attempt : Turn F → Option (Run F) → Loop F → Loop F
  attempt turn (some left) s =
      timed turn false (record s { work = left; pass_failures = s.pass_failures + 1 })
  attempt turn none s = passed turn s (stored_pass s.last_data_now turn.rows s.work)

  -- nothing runs behind an exception
  abbrev pub unless_crashed : Option Exn → Turn F → Loop F → Loop F
  unless_crashed (some e) turn s = s
  unless_crashed none turn s = attempt turn turn.fault s

  unfoldable pub turn_step : Turn F → Loop F → Loop F
  unfolding stored_pass
  turn_step turn s = unless_crashed s.crashed turn s

  -- `while not stop.is_set()`: the turns until the stop
  unfoldable pub poll : List (Turn F) → Loop F → Loop F
  unfolding turn_step
  poll [] s = s
  poll (turn ∷ turns) s = poll turns (turn_step turn s)
