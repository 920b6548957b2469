-- ===== src/Analytics/Fit.antt =====
-- src/planter_telemetry/analytics/model.py: theil_sen.
use planter_telemetry.Prelude.Int.{pos_part, ℤ}
use planter_telemetry.Prelude.{
  false, map, ◌+◌, some, last_from, [], length, ◌++◌, none, ◌-◌, Option, ltb, ◌∷◌, ◌*◌, List,
  if◌then◌else◌, ℕ,
}
use planter_telemetry.Analytics.Model.{micros, Fit, Sample}
use planter_telemetry.Analytics.Series.{item_or, median, middle, sort}
use planter_telemetry.Prelude.Time.{instant_sub}
use planter_telemetry.Prelude.Floats.{lit, Floats}

abbrev min_fit_points : ℕ
min_fit_points = 3

-- min(max(i, 0), m - 1) of an int i, for a positive m
unfoldable clamp_rank : ℤ → ℕ → ℕ
clamp_rank i m = if ltb (m - 1) (pos_part i) then m - 1 else pos_part i

module _ {F : Type 0} ⦃fl : Floats F⦄ where
  abbrev point : ℕ → Sample F → F × F
  point anchor s =
      (fl.div (fl.total_seconds (instant_sub (micros s.at) anchor)) (lit 3600), s.value)

  -- the slopes from one point to the later ones, pairs of equal x left out
  unfoldable slopes_from : F × F → List (F × F) → List F
  slopes_from p [] = []
  slopes_from p (q ∷ rest) =
      let others = slopes_from p rest in
      if fl.eq q.0 p.0 then others else fl.div (fl.sub q.1 p.1) (fl.sub q.0 p.0) ∷ others

  unfoldable pair_slopes : List (F × F) → List F
  unfolding slopes_from
  pair_slopes [] = []
  pair_slopes (p ∷ rest) = slopes_from p rest ++ pair_slopes rest

  -- z * sqrt(n(n-1)(2n+5)/18)
  unfoldable rank_spread : F → ℕ → F
  rank_spread confidence n =
      fl.mul (fl.inv_cdf (fl.add (fl.ratio 5 10) (fl.div confidence (lit 2))))
        (fl.sqrt (fl.div (lit (n * (n - 1) * (2 * n + 5))) (lit 18)))

  unfoldable low_rank : F → ℕ → ℕ
  unfolding clamp_rank
  low_rank spread m = clamp_rank (fl.floor (fl.div (fl.sub (lit m) spread) (lit 2))) m

  unfoldable high_rank : F → ℕ → ℕ
  unfolding clamp_rank
  high_rank spread m = clamp_rank (fl.ceil (fl.div (fl.add (lit m) spread) (lit 2))) m

  -- y - slope * x, and |y - (slope * x + intercept)|
  abbrev offset_of : F → F × F → F
  offset_of slope p = fl.sub p.1 (fl.mul slope p.0)

  abbrev residual_of : F → F → F × F → F
  residual_of slope intercept p = fl.abs (fl.sub p.1 (fl.add (fl.mul slope p.0) intercept))

  -- the fit, from its points and its sorted slopes
  unfoldable fit_of : F → ℕ → F × F → List (F × F) → List F → Fit F
  unfolding low_rank high_rank rank_spread
  fit_of confidence anchor p rest slopes =
      let points = p ∷ rest in
      let n = length points in
      let m = length slopes in
      let slope = middle slopes in
      let spread = rank_spread confidence n in
      let intercept = median (map (offset_of slope) points) in
      record {
        slope_per_hour = slope;
        slope_low_per_hour = item_or slopes (low_rank spread m) (lit 0);
        slope_high_per_hour = item_or slopes (high_rank spread m) (lit 0);
        value_at_anchor = intercept;
        anchor_at = anchor;
        residual_mad = median (map (residual_of slope intercept) points);
        points = n;
        segment_points = n;
        span_seconds = fl.mul (fl.neg p.0) (lit 3600);
        truncated = false;
      }

  unfoldable fit_or_none : F → ℕ → F × F → List (F × F) → List F → Option (Fit F)
  unfolding fit_of
  fit_or_none confidence anchor p rest [] = none
  fit_or_none confidence anchor p rest (s ∷ slopes) =
      some (fit_of confidence anchor p rest (s ∷ slopes))

  -- theil_sen with its default confidence of 0.95
  unfoldable pub theil_sen : List (Sample F) → Option (Fit F)
  unfolding fit_or_none pair_slopes sort
  theil_sen [] = none
  theil_sen (s ∷ samples) =
      let anchor = micros ((last_from s samples).at) in
      if ltb (length (s ∷ samples)) min_fit_points
      then none
      else fit_or_none (fl.ratio 95 100) anchor (point anchor s) (map (point anchor) samples)
          (sort (pair_slopes (map (point anchor) (s ∷ samples))))
