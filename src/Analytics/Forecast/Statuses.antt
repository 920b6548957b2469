-- ===== src/Analytics/Forecast/Statuses.antt =====
-- src/planter_telemetry/analytics/model.py: what every forecast holds, by its status.
use planter_telemetry.Analytics.Forecast.Returning.{is_some, Returns, Returns-bind, Returns-if}
use planter_telemetry.Analytics.Model.{
  is_aware, invalid_series, no_data, insufficient_span, insufficient_points, DateTime, stale,
  not_depleting, Fit, Status, at_or_below_target, micros, has_fit, Forecast, is_crossing, Sample,
  Metric,
}
use planter_telemetry.Prelude.Floats.{Floats}
use planter_telemetry.Analytics.Forecast.{
  invalid_forecast, unanswered, aware_at, span_of, newest_points, is_truncated, crossed,
  last_segment, is_stale, forecast_span, forecast_fresh, forecast_fit, forecast_valid,
  forecast_crossing, forecast, forecast_segment, forecast_from_fit, horizon_status,
  crossing_forecast, no_crossing, crossing,
}
use planter_telemetry.Analytics.Series.{cadence_seconds, split_segments, is_valid_series}
use planter_telemetry.Analytics.Fit.{theil_sen}
use planter_telemetry.Prelude.{
  length, ltb, ◌&&◌, last_from, ◌∷◌, [], List, refl, none, arith, true, some, ◌≡◌, ℕ, false,
  if◌then◌else◌, ok, Option, Bool,
}

module _ {F : Type 0} where
  -- A crossing time is there exactly with one of CROSSING_STATUSES, and the two ends of its band
  -- only with it; a fit is there with the statuses that come after a fit.
  pub record Fits (metric : Metric F) (fc : Forecast F) : Type 0 where
    pub kind : fc.kind ≡ metric.kind
    pub target : fc.target ≡ metric.target
    pub crossing : is_some fc.crosses_at ≡ is_crossing fc.status
    pub earliest : is_some fc.crosses_at_earliest ≡ true → is_crossing fc.status ≡ true
    pub latest : is_some fc.crosses_at_latest ≡ true → is_crossing fc.status ≡ true
    pub fitted : is_some fc.fit ≡ has_fit fc.status
    pub now :
        fc.status ≡ at_or_below_target
        → (fc.crosses_at ≡ fc.as_of)
          × (fc.crosses_at_earliest ≡ fc.as_of)
          × (fc.crosses_at_latest ≡ fc.as_of)

  -- The forecast is keyed by the newest sample.
  abbrev pub Keyed : Metric F → Sample F → Forecast F → Type 0
  Keyed metric newest fc =
      Fits metric fc × (fc.as_of ≡ some (micros newest.at)) × (fc.latest_value ≡ some newest.value)

module _ {F : Type 0} ⦃fl : Floats F⦄ where
  crossing-Returns :
      (value target slope : F) (anchor : ℕ)
      → Returns (λ _. Unit {0}) (crossing value target slope anchor)
  unfolding crossing
  crossing-Returns value target slope anchor = ground arith

  no_crossing-Fits :
      (metric : Metric F) (status : Status) (as_of : Option ℕ) (latest : Option F)
      (fit : Option (Fit F))
      → is_crossing status ≡ false
      → is_some fit ≡ has_fit status
      → Fits metric (no_crossing metric status as_of latest fit)
  unfolding is_crossing has_fit
  no_crossing-Fits metric status as_of latest fit c f = ground arith

  crossing_forecast-Fits :
      (metric : Metric F) (newest : Sample F) (fit : Fit F) (at : ℕ) (earliest latest : Option ℕ)
      → Fits metric (
          crossing_forecast metric
            (horizon_status metric fit at)
            newest
            at
            earliest
            latest
            (some fit))
  unfolding is_crossing has_fit
  crossing_forecast-Fits metric newest fit at earliest latest = ground arith

  keyed :
      (metric : Metric F) (newest : Sample F) (status : Status)
      → is_crossing status ≡ false
      → false ≡ has_fit status
      → Keyed metric newest
          (no_crossing metric status (some (micros newest.at)) (some newest.value) none)
  keyed metric newest status c f = (
    no_crossing-Fits metric status (some (micros newest.at)) (some newest.value) none c f,
    refl,
    refl,
  )

  forecast_crossing-Returns :
      (metric : Metric F) (newest : Sample F) (fit : Fit F) (at : Option ℕ)
      → Returns (Keyed metric newest) (forecast_crossing metric newest fit at)
  unfolding forecast_crossing
  forecast_crossing-Returns metric newest fit none = (
    no_crossing-Fits metric not_depleting (some (micros newest.at)) (some newest.value) (some fit)
        (unfold is_crossing in refl) (unfold has_fit in refl),
    refl,
    refl,
  )
  forecast_crossing-Returns metric newest fit (some at) =
      Returns-bind (λ _. Unit {0}) (Keyed metric newest)
        (crossing fit.value_at_anchor metric.target fit.slope_low_per_hour fit.anchor_at) _
        (crossing-Returns fit.value_at_anchor metric.target fit.slope_low_per_hour fit.anchor_at)
        λ earliest _.
          Returns-bind (λ _. Unit {0}) (Keyed metric newest)
            (crossing fit.value_at_anchor metric.target fit.slope_high_per_hour fit.anchor_at) _
            (crossing-Returns fit.value_at_anchor metric.target fit.slope_high_per_hour
              fit.anchor_at)
            λ latest _. (crossing_forecast-Fits metric newest fit at earliest latest, refl, refl)

  forecast_from_fit-Returns :
      (metric : Metric F) (newest : Sample F) (n : ℕ) (b : Bool) (fit : Option (Fit F))
      → Returns (Keyed metric newest) (forecast_from_fit metric newest n b fit)
  unfolding forecast_from_fit forecast_fit
  forecast_from_fit-Returns metric newest n b none =
      keyed metric newest insufficient_points (unfold is_crossing in refl) (unfold has_fit in refl)
  forecast_from_fit-Returns metric newest n b (some fit) =
      Returns-bind (λ _. Unit {0}) (Keyed metric newest)
        (crossing fit.value_at_anchor metric.target fit.slope_per_hour fit.anchor_at)
        (forecast_crossing metric newest (record fit { segment_points = n; truncated = b }))
        (crossing-Returns fit.value_at_anchor metric.target fit.slope_per_hour fit.anchor_at)
        λ at _.
          forecast_crossing-Returns metric newest (record fit { segment_points = n; truncated = b })
            at

  forecast_span-Returns :
      (metric : Metric F) (newest : Sample F) (segment : List (Sample F)) (b : Bool)
      → Returns (Keyed metric newest) (forecast_span metric newest segment b)
  unfolding forecast_span
  forecast_span-Returns metric newest segment b =
      let fit_samples = newest_points metric.max_fit_points segment in
      Returns-if (Keyed metric newest) (fl.lt (span_of fit_samples) metric.min_span_seconds)
        (unanswered metric newest insufficient_span)
        (forecast_from_fit metric newest (length segment) b (theil_sen fit_samples))
        (keyed metric newest insufficient_span (unfold is_crossing in refl)
          (unfold has_fit in refl))
        (forecast_from_fit-Returns metric newest (length segment) b (theil_sen fit_samples))

  forecast_segment-Returns :
      (metric : Metric F) (newest : Sample F) (cadence : Option F) (w : Option ℕ)
      (segments : List (List (Sample F)))
      → Returns (Keyed metric newest) (forecast_segment metric newest cadence w segments)
  unfolding forecast_segment
  forecast_segment-Returns metric newest cadence w segments =
      let segment = last_segment segments in
      let b = is_truncated metric cadence w segments in
      Returns-if (Keyed metric newest) (ltb (length segment) metric.min_points)
        (unanswered metric newest insufficient_points) (forecast_span metric newest segment b)
        (keyed metric newest insufficient_points (unfold is_crossing in refl)
          (unfold has_fit in refl))
        (forecast_span-Returns metric newest segment b)

  crossed-Fits :
      (metric : Metric F) (newest : Sample F)
      → Returns (Keyed metric newest) (crossed metric newest)
  unfolding is_crossing has_fit
  crossed-Fits metric newest = ground arith

  forecast_fresh-Returns :
      (metric : Metric F) (w : Option ℕ) (newest : Sample F) (samples : List (Sample F))
      → Returns (Keyed metric newest) (forecast_fresh metric w newest samples)
  unfolding forecast_fresh
  forecast_fresh-Returns metric w newest samples =
      let segments = split_segments samples metric.refill_jump metric.gap_factor in
      Returns-if (Keyed metric newest) (fl.le newest.value metric.target) (crossed metric newest)
        (forecast_segment metric newest (cadence_seconds samples) w segments)
        (crossed-Fits metric newest)
        (forecast_segment-Returns metric newest (cadence_seconds samples) w segments)

  forecast_valid-Returns :
      (metric : Metric F) (now : ℕ) (w : Option ℕ) (newest : Sample F) (samples : List (Sample F))
      → Returns (Keyed metric newest) (forecast_valid metric now w newest samples)
  unfolding forecast_valid
  forecast_valid-Returns metric now w newest samples =
      Returns-if (Keyed metric newest) (is_stale metric now newest (cadence_seconds samples))
        (unanswered metric newest stale) (forecast_fresh metric w newest samples)
        (keyed metric newest stale (unfold is_crossing in refl) (unfold has_fit in refl))
        (forecast_fresh-Returns metric w newest samples)

  -- What the forecast of a series is keyed by: nothing if there are no samples, what is aware and
  -- finite of the newest one if the series or the present time is malformed, and the newest sample
  -- otherwise.
  abbrev pub KeyedBySeries : List (Sample F) → Metric F → DateTime → Forecast F → Type 0
  KeyedBySeries [] metric now fc =
      Fits metric fc × (fc.status ≡ no_data) × (fc.as_of ≡ none) × (fc.latest_value ≡ none)
  KeyedBySeries (s ∷ samples) metric now fc =
      if is_valid_series (s ∷ samples) && is_aware now
      then Keyed metric (last_from s samples) fc
      else Fits metric fc
        × (fc.status ≡ invalid_series)
        × (fc.as_of ≡ aware_at ((last_from s samples).at))

  -- What a forecast holds. Its crossing time is there exactly with one of CROSSING_STATUSES, a fit
  -- exactly with the statuses behind the fit, and AT_OR_BELOW_TARGET crosses at `as_of`. A series with
  -- no samples has the status NO_DATA and no `as_of`; a malformed one INVALID_SERIES, with the newest
  -- time if that is aware; any other is keyed by its newest sample and has that sample's value. An
  -- OverflowError may be raised, and nothing else.
  pub forecast-Returns :
      (samples : List (Sample F)) (metric : Metric F) (now : DateTime) (w : Option ℕ)
      → Returns (KeyedBySeries samples metric now) (forecast samples metric now w)
  unfolding forecast
  forecast-Returns [] metric now w = (
    no_crossing-Fits metric no_data none none none (unfold is_crossing in refl)
        (unfold has_fit in refl),
    refl,
    refl,
    refl,
  )
  forecast-Returns (s ∷ samples) metric now w = go (is_valid_series (s ∷ samples) && is_aware now)
    where
      go :
          (b : Bool)
          → Returns
              (λ fc.
                if b
                then Keyed metric (last_from s samples) fc
                else Fits metric fc
                  × (fc.status ≡ invalid_series)
                  × (fc.as_of ≡ aware_at ((last_from s samples).at)))
              (if b
                then forecast_valid metric (micros now) w (last_from s samples) (s ∷ samples)
                else ok (invalid_forecast metric (last_from s samples)))
      go true = forecast_valid-Returns metric (micros now) w (last_from s samples) (s ∷ samples)
      go false = (
        no_crossing-Fits metric invalid_series _ _ none (unfold is_crossing in refl)
            (unfold has_fit in refl),
        refl,
        refl,
      )
