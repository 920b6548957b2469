-- ===== src/Analytics/Service/Gauge.antt =====
-- src/planter_telemetry/analytics/service.py: of run_pass, the check of the metrics' kinds and the gauge
-- `devices_forecast`.
use planter_telemetry.Analytics.Service.{stored_pass, read_window}
use planter_telemetry.Analytics.Window.{Collation, data_now}
use planter_telemetry.Analytics.Pass.{is_unmoved, metric_windows, metrics}
use planter_telemetry.Analytics.Decision.{Run, Settings}
use planter_telemetry.Analytics.Model.{Metric}
use planter_telemetry.Contract.Reading.{TelemetryV1}
use planter_telemetry.Prelude.{
  ℕ, Text, text, text_eq, List, [], ◌∷◌, Option, none, some, Result, ok, raised, if◌then◌else◌,
  ◌||◌, length, ◌≡◌, refl, Bool,
}
use planter_telemetry.Prelude.Floats.{Floats}

-- kind in WINDOW_KINDS
abbrev is_window_kind : Text → Bool
is_window_kind kind = text_eq kind (text "water") || text_eq kind (text "battery")

module _ {F : Type 0} where
  -- `missing`; the pass raises a ValueError unless it is empty
  unfoldable missing_kinds : List (Metric F) → List Text
  missing_kinds [] = []
  missing_kinds (m ∷ metrics) =
      let rest = missing_kinds metrics in if is_window_kind m.kind then rest else m.kind ∷ rest

abbrev devices_of : {A : Type 0} → Result A → ℕ → ℕ → ℕ
devices_of (ok a) devices gauge = devices
devices_of (raised e) devices gauge = gauge

module _ {F : Type 0} ⦃fl : Floats F⦄ (before : Collation) (settings : Settings F) where
  -- The settings' metrics all have a column, so the pass never raises that ValueError.
  missing_kinds-metrics : missing_kinds (metrics settings) ≡ []
  unfolding missing_kinds metrics text_eq
  missing_kinds-metrics = refl

  abbrev gauge_at : Option ℕ → Option ℕ → List (TelemetryV1 F) → Run F → ℕ → ℕ
  gauge_at since none rows s gauge = 0
  gauge_at since (some now) rows s gauge =
      if is_unmoved settings now since
      then gauge
      else devices_of (stored_pass before settings since rows s).0
          (length
            (read_window before settings rows (metric_windows settings now (metrics settings))))
          gauge

  -- gauges.devices_forecast behind a pass, from what it was before
  unfoldable gauge_after : Option ℕ → List (TelemetryV1 F) → Run F → ℕ → ℕ
  unfolding data_now stored_pass read_window metric_windows
  gauge_after since rows s gauge = gauge_at since (data_now rows) rows s gauge
