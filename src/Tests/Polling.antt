-- ===== src/Tests/Polling.antt =====
-- The polling loop of analytics/service.py at concrete inputs.
use planter_telemetry.Analytics.Service.{Loop, Turn, poll, passed, stored_pass}
use planter_telemetry.Analytics.Service.Watermark.{poll-watermark, watermark, count_faults}
use planter_telemetry.Analytics.Service.Retry.{retry_is_whole}
use planter_telemetry.Analytics.Service.Stored.{stored_pass_twice}
use planter_telemetry.Analytics.Health.{
  healthz_of_poll, healthz_payload, counters_of, overdue_after,
}
use planter_telemetry.Prelude.{
  text_eq, text, List, ◌&&◌, false, some, if◌then◌else◌, ◌*◌, ◌+◌, refl, ◌≡◌, none, ◌∷◌, [],
}
use planter_telemetry.Tests.Fixtures.{reading_at, milli}
use planter_telemetry.Tests.Pass.{settings, first_run}
use planter_telemetry.Prelude.Int.{◌*ℤ◌, ◌-ℤ◌, pos, ℤ}
use planter_telemetry.Analytics.Window.{by_kind, data_now}
use planter_telemetry.Analytics.Store.{is_none}
use planter_telemetry.Contract.Reading.{TelemetryV1}
use planter_telemetry.Analytics.Pass.{metrics}
use planter_telemetry.Prelude.Time.{instant_add}
use planter_telemetry.Analytics.Series.{is_valid_series}
use planter_telemetry.Tests.Window.{by_first}

-- two devices, some months after the year 1 began
abbrev later : List (TelemetryV1 ℤ)
later =
    reading_at 2000 ∷ record (reading_at 2000) { device_id = text "aloe" } ∷ reading_at 1999 ∷ []

abbrev starting : Loop ℤ
starting = record {
  work = first_run;
  last_data_now = none;
  passes = 0;
  pass_failures = 0;
  health = record { last_pass_ok = false; last_pass_monotonic = none };
  last_pass_duration = pos 0;
  crashed = none;
}

-- a turn that fails before it has written anything, and one that reads two devices
abbrev refused : Turn ℤ
refused = record { rows = later; began = pos 0; ended = pos 1000; fault = some first_run }

abbrev read : Turn ℤ
read = record { rows = later; began = pos 31000; ended = pos 32000; fault = none }

read-runs : (poll by_first settings (refused ∷ read ∷ []) starting).crashed ≡ none
unfolding poll metrics instant_add ◌-ℤ◌ ◌*ℤ◌ text_eq by_kind is_valid_series
read-runs = refl

poll-watermark_example :
    let s' = poll by_first settings (refused ∷ read ∷ []) starting in
    (s'.last_data_now ≡ watermark (refused ∷ read ∷ []) none)
    × (s'.pass_failures ≡ 0 + count_faults (refused ∷ read ∷ []))
    × (s'.passes + s'.pass_failures ≡ 0 + 0 + 2)
poll-watermark_example = poll-watermark by_first settings (refused ∷ read ∷ []) starting read-runs

later-newest : data_now later ≡ some (2000 * 3600000000)
unfolding data_now
later-newest = refl

retry_is_whole_example :
    let left = poll by_first settings (refused ∷ []) starting in
    poll by_first settings (refused ∷ read ∷ []) starting
    ≡ passed by_first settings read left (stored_pass by_first settings none later left.work)
retry_is_whole_example =
    retry_is_whole by_first settings (refused ∷ []) read starting (2000 * 3600000000) refl
      (refl, tt) refl later-newest tt

healthz_of_poll_example :
    let t = poll by_first settings (refused ∷ read ∷ []) starting in
    (healthz_payload t.health (counters_of t) (pos 30000) (pos 40000)).0 ≡ (
      if is_none read.fault
        && milli.le (milli.sub (pos 40000) read.ended) (overdue_after (pos 30000))
      then 200
      else 503)
healthz_of_poll_example =
    healthz_of_poll by_first settings (refused ∷ []) read starting (pos 30000) (pos 40000) read-runs

stored_pass_twice_example :
    let first = stored_pass by_first settings none later first_run in
    let second = stored_pass by_first settings none later (record (first.1) { answers = [] }) in
    (second.0 ≡ first.0)
    × (second.1.tables.forecasts ≡ first.1.tables.forecasts)
    × (second.1.tables.alert_events ≡ first.1.tables.alert_events)
    × (second.1.counters ≡ first.1.counters)
    × (second.1.pushed ≡ first.1.pushed)
stored_pass_twice_example = stored_pass_twice by_first settings later first_run []
