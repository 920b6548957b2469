-- ===== src/Analytics/Forecast.antt =====
-- src/planter_telemetry/analytics/model.py: _crossing and forecast. Where a time leaves the range
-- of `datetime` or `timedelta`, the OverflowError is the result.
use planter_telemetry.Prelude.Floats.{max_f, lit, Floats}
use planter_telemetry.Analytics.Model.{
  is_aware, insufficient_span, on_track, at_or_below_target, insufficient_points, no_data,
  not_depleting, stale, beyond_horizon, naive, invalid_series, micros, aware, Forecast, Sample, Fit,
  Status, Metric, DateTime,
}
use planter_telemetry.Prelude.{
  ◌>>=◌, ◌&&◌, ◌-◌, [], length, overflow_error, drop, ltb, ◌==◌, ok, true, raised, none, last_from,
  ◌∷◌, Bool, if◌then◌else◌, some, Option, Result, List, ℕ,
}
use planter_telemetry.Prelude.Int.{ℤ}
use planter_telemetry.Analytics.Series.{
  split_segments, is_valid_series, cadence_seconds, seconds_between,
}
use planter_telemetry.Prelude.Time.{instant_add, instant_sub}
use planter_telemetry.Analytics.Fit.{theil_sen}
pub mod Returning
pub mod Statuses
pub mod Overflow

abbrev pub add_or_overflow : ℕ → Option ℤ → Result (Option ℕ)
add_or_overflow anchor none = raised overflow_error
add_or_overflow anchor (some d) = elim (instant_add anchor d) [
  | none ↦ raised overflow_error
  | some t ↦ ok (some t)
]

abbrev pub aware_at : DateTime → Option ℕ
aware_at (aware t) = some t
aware_at (naive t) = none

module _ {F : Type 0} ⦃fl : Floats F⦄ where
  -- _crossing
  unfoldable pub crossing : F → F → F → ℕ → Result (Option ℕ)
  crossing value_now target slope anchor =
      if fl.le (lit 0) slope
      then ok none
      else add_or_overflow anchor
          (fl.timedelta_hours (max_f (lit 0) (fl.div (fl.sub value_now target) (fl.neg slope))))

  -- the local function no_crossing
  abbrev pub no_crossing : Metric F → Status → Option ℕ → Option F → Option (Fit F) → Forecast F
  no_crossing metric status as_of latest fit = record {
    kind = metric.kind;
    status = status;
    as_of = as_of;
    target = metric.target;
    latest_value = latest;
    crosses_at = none;
    crosses_at_earliest = none;
    crosses_at_latest = none;
    fit = fit;
  }

  -- a status without a crossing time, for the newest sample
  abbrev pub unanswered : Metric F → Sample F → Status → Result (Forecast F)
  unanswered metric newest status =
      ok (no_crossing metric status (some (micros newest.at)) (some newest.value) none)

  -- the answer to a malformed series
  abbrev pub invalid_forecast : Metric F → Sample F → Forecast F
  invalid_forecast metric newest =
      no_crossing metric invalid_series (aware_at newest.at)
        (if fl.is_finite newest.value then some newest.value else none) none

  abbrev stale_after : Metric F → Option F → F
  stale_after metric none = metric.stale_after_seconds
  stale_after metric (some cadence) =
      max_f metric.stale_after_seconds (fl.mul cadence metric.gap_factor)

  abbrev edge_slack : Metric F → Option F → F
  edge_slack metric none = lit 0
  edge_slack metric (some cadence) = fl.mul cadence metric.gap_factor

  abbrev reached_edge : F → List (Sample F) → Option ℕ → Bool
  reached_edge slack segment none = true
  reached_edge slack [] (some window_start) = true
  reached_edge slack (s ∷ segment) (some window_start) =
      fl.le (fl.total_seconds (instant_sub (micros s.at) window_start)) slack

  -- segment[-k:]
  unfoldable pub newest_points : ℕ → List (Sample F) → List (Sample F)
  newest_points k segment = if k == 0 then segment else drop (length segment - k) segment

  -- (samples[-1].at - samples[0].at).total_seconds()
  unfoldable pub span_of : List (Sample F) → F
  span_of [] = lit 0
  span_of (s ∷ samples) = seconds_between s (last_from s samples)

  abbrev pub crossing_forecast :
      Metric F → Status → Sample F → ℕ → Option ℕ → Option ℕ → Option (Fit F) → Forecast F
  crossing_forecast metric status newest at earliest latest fit = record {
    kind = metric.kind;
    status = status;
    as_of = some (micros newest.at);
    target = metric.target;
    latest_value = some newest.value;
    crosses_at = some at;
    crosses_at_earliest = earliest;
    crosses_at_latest = latest;
    fit = fit;
  }

  abbrev pub horizon_status : Metric F → Fit F → ℕ → Status
  horizon_status metric fit at =
      if fl.lt metric.max_horizon_seconds (fl.total_seconds (instant_sub at fit.anchor_at))
      then beyond_horizon
      else on_track

  -- from the crossing time on: the status, and the band of the two outer slopes
  unfoldable pub forecast_crossing : Metric F → Sample F → Fit F → Option ℕ → Result (Forecast F)
  unfolding crossing
  forecast_crossing metric newest fit none =
      ok (no_crossing metric not_depleting (some (micros newest.at)) (some newest.value) (some fit))
  forecast_crossing metric newest fit (some at) = do
    earliest ← crossing fit.value_at_anchor metric.target fit.slope_low_per_hour fit.anchor_at
    latest ← crossing fit.value_at_anchor metric.target fit.slope_high_per_hour fit.anchor_at
    ok (
        crossing_forecast metric (horizon_status metric fit at) newest at earliest latest
          (some fit))

  unfoldable pub forecast_fit : Metric F → Sample F → Fit F → Result (Forecast F)
  unfolding forecast_crossing
  forecast_fit metric newest fit = do
    at ← crossing fit.value_at_anchor metric.target fit.slope_per_hour fit.anchor_at
    forecast_crossing metric newest fit at

  unfoldable pub forecast_from_fit :
      Metric F → Sample F → ℕ → Bool → Option (Fit F) → Result (Forecast F)
  unfolding forecast_fit
  forecast_from_fit metric newest segment_points truncated none =
      unanswered metric newest insufficient_points
  forecast_from_fit metric newest segment_points truncated (some fit) =
      forecast_fit metric newest
        (record fit { segment_points = segment_points; truncated = truncated })

  abbrev pub last_segment : List (List (Sample F)) → List (Sample F)
  last_segment [] = []
  last_segment (segment ∷ segments) = last_from segment segments

  -- behind the gate on the segment's points: the gate on its span, and the fit
  unfoldable pub forecast_span : Metric F → Sample F → List (Sample F) → Bool → Result (Forecast F)
  unfolding newest_points span_of forecast_from_fit
  forecast_span metric newest segment truncated =
      let fit_samples = newest_points metric.max_fit_points segment in
      if fl.lt (span_of fit_samples) metric.min_span_seconds
      then unanswered metric newest insufficient_span
      else forecast_from_fit metric newest (length segment) truncated (theil_sen fit_samples)

  -- whether the edge of the window, and no refill, began the newest segment
  abbrev pub is_truncated : Metric F → Option F → Option ℕ → List (List (Sample F)) → Bool
  is_truncated metric cadence window_start segments =
      (length segments == 1)
      && reached_edge (edge_slack metric cadence) (last_segment segments) window_start

  unfoldable pub forecast_segment :
      Metric F → Sample F → Option F → Option ℕ → List (List (Sample F)) → Result (Forecast F)
  unfolding forecast_span
  forecast_segment metric newest cadence window_start segments =
      if ltb (length (last_segment segments)) metric.min_points
      then unanswered metric newest insufficient_points
      else forecast_span metric newest (last_segment segments)
          (is_truncated metric cadence window_start segments)

  -- AT_OR_BELOW_TARGET: already crossed, so the horizon is zero
  abbrev pub crossed : Metric F → Sample F → Result (Forecast F)
  crossed metric newest =
      let at = micros newest.at in
      ok (crossing_forecast metric at_or_below_target newest at (some at) (some at) none)

  -- behind the staleness gate
  unfoldable pub forecast_fresh :
      Metric F → Option ℕ → Sample F → List (Sample F) → Result (Forecast F)
  unfolding forecast_segment split_segments cadence_seconds
  forecast_fresh metric window_start newest samples =
      if fl.le newest.value metric.target
      then crossed metric newest
      else forecast_segment metric newest (cadence_seconds samples) window_start
          (split_segments samples metric.refill_jump metric.gap_factor)

  abbrev pub is_stale : Metric F → ℕ → Sample F → Option F → Bool
  is_stale metric now newest cadence =
      fl.lt (stale_after metric cadence) (fl.total_seconds (instant_sub now (micros newest.at)))

  unfoldable pub forecast_valid :
      Metric F → ℕ → Option ℕ → Sample F → List (Sample F) → Result (Forecast F)
  unfolding forecast_fresh
  forecast_valid metric now window_start newest samples =
      if is_stale metric now newest (cadence_seconds samples)
      then unanswered metric newest stale
      else forecast_fresh metric window_start newest samples

  unfoldable pub forecast : List (Sample F) → Metric F → DateTime → Option ℕ → Result (Forecast F)
  unfolding forecast_valid
  forecast [] metric now window_start = ok (no_crossing metric no_data none none none)
  forecast (s ∷ samples) metric now window_start =
      let newest = last_from s samples in
      if is_valid_series (s ∷ samples) && is_aware now
      then forecast_valid metric (micros now) window_start newest (s ∷ samples)
      else ok (invalid_forecast metric newest)
