-- ===== src/Analytics/Forecast/Overflow.antt =====
-- src/planter_telemetry/analytics/model.py: where an OverflowError of forecast comes from, and that
-- a well-formed series is not called malformed.
use planter_telemetry.Prelude.{arith, ◌&&◌, length, ltb, last_from, ◌>>=◌}
use planter_telemetry.Prelude.Floats.{Floats, max_f, lit}
use planter_telemetry.Prelude.Int.{ℤ}
use planter_telemetry.Prelude.Time.{instant_add}
use planter_telemetry.Analytics.Forecast.{
  add_or_overflow, is_truncated, unanswered, span_of, crossed, newest_points, last_segment,
  is_stale, forecast_span, crossing, forecast_valid, forecast_segment, forecast_fresh, forecast_fit,
  forecast_from_fit, forecast, forecast_crossing, horizon_status,
}
use planter_telemetry.Analytics.Model.{
  micros, is_aware, stale, insufficient_points, insufficient_span, Forecast, DateTime, Fit, Sample,
  Metric, invalid_series,
}
use mathlib.Core.Path.{subst}
use planter_telemetry.Analytics.Series.{cadence_seconds, is_valid_series, split_segments}
use planter_telemetry.Analytics.Fit.{theil_sen}
use planter_telemetry.Prelude.{
  none, [], some, ◌∷◌, refl, false, ◌≡◌, raised, true, Option, if◌then◌else◌, ok, Bool, List,
  Result, ℕ, Exn, ◌≢◌, ◌⊎◌, inl, inr, Bool-cases, overflow_error,
}

-- The time to add is none that timedelta can hold, or the sum is no time that datetime can hold.
abbrev IsBeyond : ℕ → Option ℤ → Type 0
IsBeyond anchor none = Unit
IsBeyond anchor (some hours) = instant_add anchor hours ≡ none

add_or_overflow-raised :
    (anchor : ℕ) (hours : Option ℤ) (e : Exn)
    → add_or_overflow anchor hours ≡ raised e
    → IsBeyond anchor hours × (e ≡ overflow_error)
add_or_overflow-raised anchor none e h = (tt, cc)
add_or_overflow-raised anchor (some hours) e h = go (instant_add anchor hours) refl h
  where
    go :
        (o : Option ℕ)
        → instant_add anchor hours ≡ o
        → elim o [ none ↦ raised overflow_error | some t ↦ ok (some t) ] ≡ raised e
        → IsBeyond anchor (some hours) × (e ≡ overflow_error)
    go none k r = (k, cc)
    go (some t) k r = cc

abbrev IsRaised : Exn → Result (Option ℕ) → Type 0
IsRaised e r = r ≡ raised e

returned_none : (e : Exn) → IsRaised e (ok none) → ⊥
returned_none e h = cc

module _ {F : Type 0} where
  -- What is returned has another status than INVALID_SERIES, and what is raised has `P`.
  abbrev pub Answers : (Exn → Type 0) → Result (Forecast F) → Type 0
  Answers P (ok fc) = fc.status ≢ invalid_series
  Answers P (raised e) = P e

  Answers-bind :
      {A : Type 0} (P : Exn → Type 0) (m : Result A) (f : A → Result (Forecast F))
      → ((e : Exn) → m ≡ raised e → P e)
      → ((a : A) → Answers P (f a))
      → Answers P (m >>= f)
  Answers-bind P (ok a) f h k = k a
  Answers-bind P (raised e) f h k = h e refl

  Answers-if :
      (P : Exn → Type 0) (b : Bool) (x y : Result (Forecast F))
      → Answers P x
      → Answers P y
      → Answers P (if b then x else y)
  Answers-if P true x y hx hy = hx
  Answers-if P false x y hx hy = hy

module _ {F : Type 0} ⦃fl : Floats F⦄ where
  -- The slope is not at least zero, and the time that the line with this slope takes from the fit's
  -- anchor down to the target cannot be added to the anchor's.
  abbrev Leaves : Metric F → Fit F → F → Type 0
  Leaves metric fit slope =
      (fl.le (lit 0) slope ≡ false)
      × IsBeyond fit.anchor_at (
          fl.timedelta_hours
            (max_f (lit 0) (fl.div (fl.sub fit.value_at_anchor metric.target) (fl.neg slope))))

  crossing-Leaves :
      (metric : Metric F) (fit : Fit F) (slope : F) (e : Exn)
      → crossing fit.value_at_anchor metric.target slope fit.anchor_at ≡ raised e
      → Leaves metric fit slope × (e ≡ overflow_error)
  unfolding crossing
  crossing-Leaves metric fit slope e h = elim (Bool-cases (fl.le (lit 0) slope)) [
    | inl p ↦ absurd (returned_none e (rw p at h))
    | inr p ↦ let (b, o) = add_or_overflow-raised fit.anchor_at _ e (rw p at h) in ((p, b), o)
  ]

  -- The exception is an OverflowError, and so it is with the fitted slope or one of the two outer slopes.
  abbrev Overflows : Metric F → Fit F → Exn → Type 0
  Overflows metric fit e =
      (e ≡ overflow_error)
      × (Leaves metric fit fit.slope_per_hour
          ⊎ (Leaves metric fit fit.slope_low_per_hour ⊎ Leaves metric fit fit.slope_high_per_hour))

  -- the fit of the newest segment of a series
  abbrev pub fit_of : List (Sample F) → Metric F → Option (Fit F)
  fit_of samples metric = theil_sen (
      newest_points metric.max_fit_points
        (last_segment (split_segments samples metric.refill_jump metric.gap_factor)))

  -- The newest segment of the series has a fit, and its line, with the slope or an outer slope, leaves
  -- the range of times.
  abbrev pub IsOutOfRange : List (Sample F) → Metric F → Exn → Type 0
  IsOutOfRange samples metric e =
      (fit : Fit F) × ((fit_of samples metric ≡ some fit) × Overflows metric fit e)

  horizon_status-valid :
      (metric : Metric F) (fit : Fit F) (at : ℕ) → horizon_status metric fit at ≢ invalid_series
  horizon_status-valid metric fit at = ground arith

  module _ (P : Exn → Type 0) where
    forecast_crossing-Answers :
        (metric : Metric F) (newest : Sample F) (fit : Fit F) (at : Option ℕ)
        → ((e : Exn) → Overflows metric fit e → P e)
        → Answers P (forecast_crossing metric newest fit at)
    unfolding forecast_crossing
    forecast_crossing-Answers metric newest fit none k = λ e. cc
    forecast_crossing-Answers metric newest fit (some at) k =
        Answers-bind P
          (crossing fit.value_at_anchor metric.target fit.slope_low_per_hour fit.anchor_at) _
          (λ e h.
            let (l, o) = crossing-Leaves metric fit fit.slope_low_per_hour e h in
            k e (o, inr (inl l)))
          (λ earliest.
            Answers-bind P
              (crossing fit.value_at_anchor metric.target fit.slope_high_per_hour fit.anchor_at) _
              (λ e h.
                let (l, o) = crossing-Leaves metric fit fit.slope_high_per_hour e h in
                k e (o, inr (inr l)))
              (λ latest. horizon_status-valid metric fit at))

    forecast_fit-Answers :
        (metric : Metric F) (newest : Sample F) (fit : Fit F)
        → ((e : Exn) → Overflows metric fit e → P e)
        → Answers P (forecast_fit metric newest fit)
    unfolding forecast_fit
    forecast_fit-Answers metric newest fit k =
        Answers-bind P (crossing fit.value_at_anchor metric.target fit.slope_per_hour fit.anchor_at)
          (forecast_crossing metric newest fit)
          (λ e h. let (l, o) = crossing-Leaves metric fit fit.slope_per_hour e h in k e (o, inl l))
          (λ at. forecast_crossing-Answers metric newest fit at k)

    forecast_from_fit-Answers :
        (metric : Metric F) (newest : Sample F) (n : ℕ) (truncated : Bool) (o : Option (Fit F))
        → ((fit : Fit F) → o ≡ some fit → (e : Exn) → Overflows metric fit e → P e)
        → Answers P (forecast_from_fit metric newest n truncated o)
    unfolding forecast_from_fit
    forecast_from_fit-Answers metric newest n truncated none k = λ e. cc
    forecast_from_fit-Answers metric newest n truncated (some fit) k =
        forecast_fit-Answers metric newest _ (k fit refl)

    forecast_segment-Answers :
        (metric : Metric F) (newest : Sample F) (cadence : Option F) (w : Option ℕ)
        (segments : List (List (Sample F)))
        → ((fit : Fit F)
            → theil_sen (newest_points metric.max_fit_points (last_segment segments)) ≡ some fit
            → (e : Exn) → Overflows metric fit e
            → P e)
        → Answers P (forecast_segment metric newest cadence w segments)
    unfolding forecast_segment forecast_span
    forecast_segment-Answers metric newest cadence w segments k =
        let segment = last_segment segments in
        let truncated = is_truncated metric cadence w segments in
        let points = newest_points metric.max_fit_points segment in
        Answers-if P (ltb (length segment) metric.min_points)
          (unanswered metric newest insufficient_points)
          (forecast_span metric newest segment truncated) (λ e. cc)
          (Answers-if P (fl.lt (span_of points) metric.min_span_seconds)
            (unanswered metric newest insufficient_span)
            (forecast_from_fit metric newest (length segment) truncated (theil_sen points))
            (λ e. cc)
            (forecast_from_fit-Answers metric newest (length segment) truncated (theil_sen points)
              k))

  forecast_valid-Answers :
      (metric : Metric F) (now : ℕ) (w : Option ℕ) (newest : Sample F) (samples : List (Sample F))
      → Answers (IsOutOfRange samples metric) (forecast_valid metric now w newest samples)
  unfolding forecast_valid forecast_fresh
  forecast_valid-Answers metric now w newest samples =
      let P = IsOutOfRange samples metric in
      let segments = split_segments samples metric.refill_jump metric.gap_factor in
      Answers-if P (is_stale metric now newest (cadence_seconds samples))
        (unanswered metric newest stale) (forecast_fresh metric w newest samples) (λ e. cc)
        (Answers-if P (fl.le newest.value metric.target) (crossed metric newest)
          (forecast_segment metric newest (cadence_seconds samples) w segments) (λ e. cc)
          (forecast_segment-Answers P metric newest (cadence_seconds samples) w segments
            (λ fit h e o. (fit, (h, o)))))

  pub forecast-Answers :
      (samples : List (Sample F)) (metric : Metric F) (now : DateTime) (w : Option ℕ)
      → (is_valid_series samples && is_aware now) ≡ true
      → Answers (IsOutOfRange samples metric) (forecast samples metric now w)
  unfolding forecast
  forecast-Answers [] metric now w h = λ e. cc
  forecast-Answers (s ∷ samples) metric now w h =
      rw h (forecast_valid-Answers metric (micros now) w (last_from s samples) (s ∷ samples))

  forecast-malformed :
      (samples : List (Sample F)) (metric : Metric F) (now : DateTime) (w : Option ℕ) (e : Exn)
      → (is_valid_series samples && is_aware now) ≡ false
      → forecast samples metric now w ≢ raised e
  unfolding forecast
  forecast-malformed [] metric now w e h = λ k. cc
  forecast-malformed (s ∷ samples) metric now w e h = rw h (λ k. cc)

  -- If forecast raises an exception, then it is an OverflowError, the newest segment of the series has
  -- a fit, and for the fit's own slope or one of its two outer slopes, of which 0 <= slope is False, the
  -- hours from the anchor down to the metric's target make no timedelta, or no datetime when added to
  -- the anchor's time.
  pub forecast-IsOutOfRange :
      (samples : List (Sample F)) (metric : Metric F) (now : DateTime) (w : Option ℕ) (e : Exn)
      → forecast samples metric now w ≡ raised e
      → IsOutOfRange samples metric e
  forecast-IsOutOfRange samples metric now w e h =
      elim (Bool-cases (is_valid_series samples && is_aware now)) [
        | inl v ↦
            subst (Answers (IsOutOfRange samples metric)) h
              (forecast-Answers samples metric now w v)
        | inr v ↦ absurd (forecast-malformed samples metric now w e v h)
      ]
