-- ===== src/Tests/Analytics.antt =====
-- src/planter_telemetry/analytics/model.py at concrete inputs.
use planter_telemetry.Analytics.Series.{
  is_valid_series, cadence_seconds, gap_limit_of, split_segments,
}
use planter_telemetry.Analytics.Series.Segments.{split_segments-IsCut, IsCut, concat}
use planter_telemetry.Analytics.Forecast.{forecast}
use planter_telemetry.Analytics.Forecast.Statuses.{forecast-Returns, KeyedBySeries}
use planter_telemetry.Analytics.Forecast.Returning.{Returns}
use planter_telemetry.Analytics.Alert.Transitions.{alert_transition_iff, IsArmed, IsFiring}
use planter_telemetry.Prelude.{
  ◌-◌, overflow_error, raised, refl, false, true, ◌↔◌, some, none, [], text, ◌*◌, ◌∷◌, ◌≡◌, List, ℕ,
}
use planter_telemetry.Analytics.Alert.{
  cleared, alert_transition, firing, horizon_seconds, AlertState,
}
use planter_telemetry.Prelude.Int.{◌-ℤ◌, ◌+ℤ◌, ◌*ℤ◌, ℤ, pos}
use planter_telemetry.Analytics.Model.{Metric, on_track, aware, Sample, Forecast, water}
use planter_telemetry.Analytics.Forecast.Overflow.{forecast-IsOutOfRange, IsOutOfRange}
use planter_telemetry.Prelude.Time.{instant_add, max_instant}
use planter_telemetry.Analytics.Fit.{theil_sen}
use planter_telemetry.Tests.Fixtures.{milli}

abbrev sample : ℕ → ℕ → Sample ℤ
sample hour value = record { at = aware (hour * 3600000000); value = pos (value * 1000) }

-- It sinks, is refilled, and sinks again.
abbrev levels : List (Sample ℤ)
levels = sample 1 50 ∷ sample 2 48 ∷ sample 3 60 ∷ sample 4 59 ∷ sample 90 20 ∷ []

split_segments-IsCut_example :
    let segments = split_segments levels (pos 5000) (pos 6000) in
    (concat segments ≡ levels)
    × IsCut (pos 5000) (gap_limit_of (pos 6000) (cadence_seconds levels)) segments
split_segments-IsCut_example = split_segments-IsCut levels (pos 5000) (pos 6000)

forecast-Returns_example :
    Returns
      (KeyedBySeries levels water (aware (91 * 3600000000)))
      (forecast levels water (aware (91 * 3600000000)) none)
forecast-Returns_example = forecast-Returns levels water (aware (91 * 3600000000)) none

-- The tank is empty a day after 90:00.
abbrev pub soon : Forecast ℤ
soon = record {
  kind = text "water";
  status = on_track;
  as_of = some (90 * 3600000000);
  target = pos 10000;
  latest_value = some (pos 20000);
  crosses_at = some (114 * 3600000000);
  crosses_at_earliest = none;
  crosses_at_latest = none;
  fit = none;
}

abbrev fired : AlertState
fired = record { state = firing; as_of = 80 * 3600000000 }

alert_transition_iff_example :
    let horizon = horizon_seconds {F = ℤ} (114 * 3600000000) (90 * 3600000000) in
    let transition = alert_transition soon water (some fired) (pos 86400000) (pos 1500) in
    ((transition ≡ some firing) ↔ (
      (milli.le horizon water.alert_horizon_seconds ≡ true)
      × IsArmed (pos 86400000) (90 * 3600000000) (some fired)))
    × ((transition ≡ some cleared) ↔ (
        (milli.le horizon water.alert_horizon_seconds ≡ false)
        × (milli.lt (milli.mul water.alert_horizon_seconds (pos 1500)) horizon ≡ true)
        × IsFiring (some fired)))
alert_transition_iff_example =
    alert_transition_iff soon water (some fired) (pos 86400000) (pos 1500) refl refl

-- the last hours that a datetime can hold
abbrev last_hours : List (Sample ℤ)
last_hours =
    record { at = aware (max_instant - 7200000000); value = pos 50000 }
    ∷ record { at = aware (max_instant - 3600000000); value = pos 48000 }
    ∷ record { at = aware max_instant; value = pos 46000 }
    ∷ []

abbrev eager : Metric ℤ
eager = record {
  kind = text "water";
  unit = text "pct";
  target = pos 10000;
  refill_jump = pos 5000;
  min_points = 3;
  min_span_seconds = pos 0;
  max_fit_points = 300;
  lookback_seconds = pos 864000000;
  gap_factor = pos 6000;
  stale_after_seconds = pos 1800000;
  max_horizon_seconds = pos 2592000000;
  alert_horizon_seconds = pos 172800000;
}

last_hours-overflow : forecast last_hours eager (aware max_instant) none ≡ raised overflow_error
unfolding forecast is_valid_series ◌*ℤ◌ ◌+ℤ◌ ◌-ℤ◌ theil_sen instant_add
last_hours-overflow = refl

forecast-IsOutOfRange_example : IsOutOfRange last_hours eager overflow_error
forecast-IsOutOfRange_example =
    forecast-IsOutOfRange last_hours eager (aware max_instant) none overflow_error
      last_hours-overflow
