-- ===== src/Analytics/Series.antt =====
-- src/planter_telemetry/analytics/model.py: _is_valid_series, cadence_seconds and split_segments.
pub mod Segments
use planter_telemetry.Prelude.Floats.{lit, Floats}
use planter_telemetry.Prelude.{
  ◌-◌, ◌/◌, ◌==◌, zero, ◌&&◌, ◌%◌, ltb, suc, ◌||◌, if◌then◌else◌, true, [], Bool, ℕ, ◌∷◌, some,
  length, none, Option, List,
}
use planter_telemetry.Analytics.Model.{is_aware, micros, Sample}
use planter_telemetry.Prelude.Time.{instant_sub}

module _ {F : Type 0} ⦃fl : Floats F⦄ where
  unfoldable pub all_sound : List (Sample F) → Bool
  all_sound [] = true
  all_sound (s ∷ samples) = (fl.is_finite s.value && is_aware s.at) && all_sound samples

  -- all(a.at < b.at for a, b in pairwise(samples)), from the sample `a` on
  unfoldable pub increasing_from : Sample F → List (Sample F) → Bool
  increasing_from a [] = true
  increasing_from a (b ∷ rest) = ltb (micros a.at) (micros b.at) && increasing_from b rest

  unfoldable pub is_valid_series : List (Sample F) → Bool
  unfolding all_sound increasing_from
  is_valid_series [] = true
  is_valid_series (a ∷ rest) = all_sound (a ∷ rest) && increasing_from a rest

  -- (b.at - a.at).total_seconds()
  abbrev pub seconds_between : Sample F → Sample F → F
  seconds_between a b = fl.total_seconds (instant_sub (micros b.at) (micros a.at))

  -- sorted(xs)
  unfoldable insert_sorted : F → List F → List F
  insert_sorted x [] = x ∷ []
  insert_sorted x (y ∷ ys) = if fl.lt y x then y ∷ insert_sorted x ys else x ∷ y ∷ ys

  unfoldable pub sort : List F → List F
  unfolding insert_sorted
  sort [] = []
  sort (x ∷ xs) = insert_sorted x (sort xs)

  -- xs[i], where `d` stands in for the IndexError
  unfoldable pub item_or : List F → ℕ → F → F
  item_or [] i d = d
  item_or (x ∷ xs) zero d = x
  item_or (x ∷ xs) (suc i) d = item_or xs i d

  -- the middle of a sorted list, or the mean of its two middle items
  unfoldable pub middle : List F → F
  unfolding item_or
  middle xs =
      let n = length xs in
      if n % 2 == 1
      then item_or xs (n / 2) (lit 0)
      else fl.div (fl.add (item_or xs (n / 2 - 1) (lit 0)) (item_or xs (n / 2) (lit 0))) (lit 2)

  -- statistics.median of a list that is not empty
  unfoldable pub median : List F → F
  unfolding middle sort
  median xs = middle (sort xs)

  unfoldable deltas_from : Sample F → List (Sample F) → List F
  deltas_from a [] = []
  deltas_from a (b ∷ rest) =
      let others = deltas_from b rest in
      if fl.lt (lit 0) (seconds_between a b) then seconds_between a b ∷ others else others

  abbrev median_or_none : List F → Option F
  median_or_none [] = none
  median_or_none (d ∷ ds) = some (median (d ∷ ds))

  unfoldable pub cadence_seconds : List (Sample F) → Option F
  unfolding deltas_from median
  cadence_seconds [] = none
  cadence_seconds (a ∷ rest) = median_or_none (deltas_from a rest)

  abbrev pub gap_limit_of : F → Option F → F
  gap_limit_of gap_factor none = fl.inf
  gap_limit_of gap_factor (some cadence) = fl.mul cadence gap_factor

  -- a refill or an implausible gap between two consecutive samples
  unfoldable pub is_break : F → F → Sample F → Sample F → Bool
  is_break jump gap_limit a b =
      fl.le jump (fl.sub b.value a.value) || fl.lt gap_limit (seconds_between a b)

  -- a sample in front of the first segment
  unfoldable pub extend : Sample F → List (List (Sample F)) → List (List (Sample F))
  extend a [] = (a ∷ []) ∷ []
  extend a (segment ∷ segments) = (a ∷ segment) ∷ segments

  unfoldable pub split_from : F → F → Sample F → List (Sample F) → List (List (Sample F))
  unfolding is_break extend
  split_from jump gap_limit a [] = (a ∷ []) ∷ []
  split_from jump gap_limit a (b ∷ rest) =
      let segments = split_from jump gap_limit b rest in
      if is_break jump gap_limit a b then (a ∷ []) ∷ segments else extend a segments

  unfoldable pub split_segments : List (Sample F) → F → F → List (List (Sample F))
  unfolding split_from cadence_seconds
  split_segments [] jump gap_factor = []
  split_segments (a ∷ rest) jump gap_factor =
      split_from jump (gap_limit_of gap_factor (cadence_seconds (a ∷ rest))) a rest
