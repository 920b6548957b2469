-- ===== src/Analytics/Pass.antt =====
-- src/planter_telemetry/analytics/service.py: run_pass. What the database reads is the input. Logs and
-- gauges are left out.
pub mod Plan
pub mod Rerun
pub mod Keys
pub mod Twice
pub mod Jobs
use planter_telemetry.Analytics.Decision.{Run, handle_alert, Settings}
use planter_telemetry.Analytics.Store.{insert_forecast}
use planter_telemetry.Prelude.Floats.{lit, Floats}
use planter_telemetry.Prelude.{
  leb, overflow_error, ◌&&◌, text_eq, false, raised, ltb, ok, if◌then◌else◌, [], ◌∷◌, ◌+◌, Result,
  some, none, Bool, ℕ, Text, List, Option,
}
use planter_telemetry.Analytics.Alert.{AlertState}
use planter_telemetry.Analytics.Model.{battery, water, micros, aware, Forecast, Sample, Metric}
use planter_telemetry.Analytics.Forecast.{forecast}
use planter_telemetry.Prelude.Time.{instant_add}
use planter_telemetry.Prelude.Int.{◌-ℤ◌, pos}

-- AnalyticsSettings.metrics
module _ {F : Type 0} ⦃fl : Floats F⦄ where
  unfoldable pub water_metric : Settings F → Metric F
  unfolding water
  water_metric settings = record (water {F = F}) {
    target = settings.water_target_pct;
    alert_horizon_seconds = fl.mul settings.water_alert_days (lit 86400);
  }

  unfoldable pub battery_metric : Settings F → Metric F
  unfolding battery
  battery_metric settings = record (battery {F = F}) {
    target = settings.battery_target_volts;
    alert_horizon_seconds = fl.mul settings.battery_alert_days (lit 86400);
  }

  unfoldable pub metrics : Settings F → List (Metric F)
  unfolding water_metric battery_metric
  metrics settings = water_metric settings ∷ battery_metric settings ∷ []

-- latest_alert_states: the state of each (device_id, kind)
abbrev pub AlertStates : Type 0
AlertStates = List ((Text × Text) × AlertState)

-- alert_states.get((device_id, kind))
unfoldable pub lookup_state : Text → Text → AlertStates → Option AlertState
lookup_state d k [] = none
lookup_state d k (((e, l), s) ∷ rest) =
    if text_eq e d && text_eq l k then some s else lookup_state d k rest

-- `by_kind[metric.kind]`, of a window as load_window returns it
abbrev pub ByKind : Type 0 → Type 0
ByKind F = Text → List (Sample F)

module _ {F : Type 0} where
  -- s.at > window_start
  unfoldable pub newer_than : ℕ → List (Sample F) → List (Sample F)
  newer_than window_start [] = []
  newer_than window_start (s ∷ samples) =
      let rest = newer_than window_start samples in
      if ltb window_start (micros s.at) then s ∷ rest else rest

  -- what was written before an exception stays written
  abbrev pub and_then :
      {A : Type 0} → Result (Unit {0}) × Run F → (Run F → Result A × Run F) → Result A × Run F
  and_then (ok u, s) f = f s
  and_then (raised e, s) f = (raised e, s)

module _ {F : Type 0} ⦃fl : Floats F⦄ (settings : Settings F) where
  -- `if await store.insert_forecast(device_id, fc)`
  unfoldable pub write_forecast : Text → Forecast F → Run F → Run F
  unfolding insert_forecast
  write_forecast device_id fc s =
      let (written, t) = insert_forecast device_id fc s.tables in
      let c = s.counters in
      record s {
        tables = t;
        counters = if written then record c { forecasts_written = c.forecasts_written + 1 } else c;
      }

  unfoldable pub write_and_alert : Text → Metric F → AlertStates → Forecast F → Run F → Run F
  unfolding write_forecast handle_alert lookup_state
  write_and_alert device_id metric states fc s =
      handle_alert settings device_id metric fc (lookup_state device_id metric.kind states)
        (write_forecast device_id fc s)

  abbrev pub assessed :
      Text → Metric F → AlertStates → Result (Forecast F) → Run F → Result (Unit {0}) × Run F
  assessed device_id metric states (ok fc) s = (ok tt, write_and_alert device_id metric states fc s)
  assessed device_id metric states (raised e) s = (raised e, s)

  -- one device and one metric of the pass
  unfoldable assess :
      ℕ → AlertStates → Text → ByKind F → Metric F × ℕ → Run F → Result (Unit {0}) × Run F
  unfolding forecast write_and_alert newer_than
  assess now states device_id by_kind (metric, window_start) s =
      assessed device_id metric states
        (forecast (newer_than window_start (by_kind metric.kind)) metric (aware now)
          (some window_start))
        s

  unfoldable pub assess_device :
      ℕ → AlertStates → Text → ByKind F → List (Metric F × ℕ) → Run F → Result (Unit {0}) × Run F
  unfolding assess
  assess_device now states device_id by_kind [] s = (ok tt, s)
  assess_device now states device_id by_kind (m ∷ rest) s =
      and_then (assess now states device_id by_kind m s)
        (assess_device now states device_id by_kind rest)

  -- `for device_id, by_kind in window.items()`
  unfoldable pub assess_fleet :
      ℕ
      → AlertStates
      → List (Metric F × ℕ)
      → List (Text × ByKind F)
      → Run F
      → Result (Unit {0}) × Run F
  unfolding assess_device
  assess_fleet now states metrics [] s = (ok tt, s)
  assess_fleet now states metrics ((device_id, by_kind) ∷ rest) s =
      and_then (assess_device now states device_id by_kind metrics s)
        (assess_fleet now states metrics rest)

  -- `now_data - timedelta(seconds=metric.lookback_seconds)`; none is an OverflowError
  unfoldable pub window_of : ℕ → Metric F → Option ℕ
  window_of now metric = elim (fl.timedelta_seconds metric.lookback_seconds) [
    | none ↦ none
    | some lookback ↦ instant_add now (pos 0 -ℤ lookback)
  ]

  abbrev pub with_window :
      Metric F → Option ℕ → Option (List (Metric F × ℕ)) → Option (List (Metric F × ℕ))
  with_window metric (some start) (some rest) = some ((metric, start) ∷ rest)
  with_window metric _ _ = none

  unfoldable pub metric_windows : ℕ → List (Metric F) → Option (List (Metric F × ℕ))
  unfolding window_of
  metric_windows now [] = some []
  metric_windows now (metric ∷ metrics) =
      with_window metric (window_of now metric) (metric_windows now metrics)

  abbrev pub pass_at :
      ℕ
      → AlertStates
      → List (Text × ByKind F)
      → Option (List (Metric F × ℕ))
      → Run F
      → Result (Option ℕ) × Run F
  pass_at now states window none s = (raised overflow_error, s)
  pass_at now states window (some metrics) s =
      and_then (assess_fleet now states metrics window s) (λ s'. (ok (some now), s'))

  abbrev pub is_unmoved : ℕ → Option ℕ → Bool
  is_unmoved now none = false
  is_unmoved now (some since) = leb now since

  -- run_pass, on what data_now, load_window and latest_alert_states answer
  unfoldable pub run_pass :
      Option ℕ → Option ℕ → AlertStates → List (Text × ByKind F) → Run F → Result (Option ℕ) × Run F
  unfolding assess_fleet metric_windows
  run_pass since none states window s = (ok none, s)
  run_pass since (some now) states window s =
      if is_unmoved now since
      then (ok (some now), s)
      else pass_at now states window (metric_windows now (metrics settings)) s
