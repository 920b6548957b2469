-- ===== src/Analytics/Window/Clipped.antt =====
-- src/planter_telemetry/analytics/service.py: the samples of a metric's own window, cut from a
-- series of load_window, are a well-formed series still.
use planter_telemetry.Analytics.Pass.{newer_than}
use planter_telemetry.Analytics.Series.{increasing_from, all_sound, is_valid_series}
use planter_telemetry.Analytics.Model.{micros, Sample}
use planter_telemetry.Prelude.Floats.{Floats}
use planter_telemetry.Prelude.{arith, refl, inl, inr, [], ◌∷◌, ltb, true, Bool-cases, List, ◌≡◌, ℕ}

module _ {F : Type 0} ⦃fl : Floats F⦄ (start : ℕ) where
  -- behind a sample that is newer, every sample is
  newer_than-all :
      (s : Sample F) (samples : List (Sample F))
      → ltb start (micros s.at) ≡ true
      → increasing_from s samples ≡ true
      → newer_than start samples ≡ samples
  unfolding newer_than increasing_from
  newer_than-all s [] h i = refl
  newer_than-all s (q ∷ samples) h i =
      let newer : ltb start (micros q.at) ≡ true = ground arith in
      rw (newer, newer_than-all q samples newer (ground arith)) refl

  valid_tail :
      (s : Sample F) (samples : List (Sample F))
      → is_valid_series (s ∷ samples) ≡ true
      → is_valid_series samples ≡ true
  unfolding is_valid_series all_sound increasing_from
  valid_tail s [] h = refl
  valid_tail s (q ∷ samples) h = ground arith

  pub newer_than-valid :
      (samples : List (Sample F))
      → is_valid_series samples ≡ true
      → is_valid_series (newer_than start samples) ≡ true
  unfolding newer_than is_valid_series
  newer_than-valid [] h = refl
  newer_than-valid (s ∷ samples) h = elim (Bool-cases (ltb start (micros s.at))) [
    | inl e ↦
        let all : newer_than start samples ≡ samples = newer_than-all s samples e (ground arith) in
        rw (e, all) h
    | inr e ↦ rw e (newer_than-valid samples (valid_tail s samples h))
  ]
