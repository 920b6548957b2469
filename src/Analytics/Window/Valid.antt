-- ===== src/Analytics/Window/Valid.antt =====
-- src/planter_telemetry/analytics/db.py: what load_window gives the forecasting core,
-- and what that makes of it.
use planter_telemetry.Analytics.Window.{
  by_device, battery_sample, water_sample, by_time, Collation, select_window, load_window,
  newer_rows,
}
use planter_telemetry.Prelude.Floats.{Floats}
use planter_telemetry.Prelude.{
  ok, raised, some, Exn, Result, All-imp, eq→text_eq, arith, inr, sym, ◌∙◌, text_eq→eq, refl, ◌≢◌,
  inl, [], text_eq, map, ltb, false, Bool-cases, All, ◌∷◌, true, List, ◌≡◌, Text, ℕ,
}
use planter_telemetry.Contract.Reading.{TelemetryV1}
use planter_telemetry.Analytics.Series.{increasing_from, all_sound, is_valid_series}
use planter_telemetry.Analytics.Model.{aware, Sample, Forecast, Metric, invalid_series}
use planter_telemetry.Analytics.Forecast.{forecast}
use planter_telemetry.Analytics.Forecast.Overflow.{Answers, IsOutOfRange, forecast-Answers}
use planter_telemetry.Analytics.Pass.{newer_than}
use planter_telemetry.Analytics.Window.Clipped.{newer_than-valid}
use planter_telemetry.Ingestion.Handle.Keys.{UniqueKeys}
use planter_telemetry.Ingestion.Db.{same_key}
use planter_telemetry.Analytics.Window.Grouped.{series_of-group_rows, series_of}
use planter_telemetry.Analytics.Window.Order.{
  All-of_device, All-by_time, by_time-Ordered, by_time-NoTies, of_device-by_time,
  of_device-by_device, Ordered, NoTies, of_device,
}

module _ {F : Type 0} where
  All-newer_rows :
      (P : TelemetryV1 F → Type 0) (cutoff : ℕ) (rows : List (TelemetryV1 F))
      → All P rows
      → All P (newer_rows cutoff rows)
  unfolding newer_rows
  All-newer_rows P cutoff [] h = tt
  All-newer_rows P cutoff (r ∷ rows) h = elim (Bool-cases (ltb cutoff r.measured_at)) [
    | inl e ↦ rw e (h.0, All-newer_rows P cutoff rows h.1)
    | inr e ↦ rw e (All-newer_rows P cutoff rows h.1)
  ]

  same_key_of :
      (r q : TelemetryV1 F)
      → r.device_id ≡ q.device_id
      → r.measured_at ≡ q.measured_at
      → same_key r q ≡ false
      → ⊥
  same_key_of r q e t h = ground (arith, eq→text_eq r.device_id q.device_id)

  newer_rows-UniqueKeys :
      (cutoff : ℕ) (rows : List (TelemetryV1 F))
      → UniqueKeys rows
      → UniqueKeys (newer_rows cutoff rows)
  unfolding newer_rows
  newer_rows-UniqueKeys cutoff [] h = tt
  newer_rows-UniqueKeys cutoff (r ∷ rows) h = elim (Bool-cases (ltb cutoff r.measured_at)) [
    | inl e ↦ rw e (All-newer_rows _ cutoff rows h.0, newer_rows-UniqueKeys cutoff rows h.1)
    | inr e ↦ rw e (newer_rows-UniqueKeys cutoff rows h.1)
  ]

  -- the rows of one device have different times
  of_device-NoTies :
      (d : Text) (rows : List (TelemetryV1 F)) → UniqueKeys rows → NoTies (of_device d rows)
  unfolding of_device
  of_device-NoTies d [] h = tt
  of_device-NoTies d (r ∷ rows) h = elim (Bool-cases (text_eq r.device_id d)) [
    | inl e ↦ rw e (apart rows h.0 e, of_device-NoTies d rows h.1)
    | inr e ↦ rw e (of_device-NoTies d rows h.1)
  ]
    where
      apart :
          (rows : List (TelemetryV1 F))
          → All (λ q. same_key r q ≡ false) rows
          → text_eq r.device_id d ≡ true
          → All (λ q. r.measured_at ≢ q.measured_at) (of_device d rows)
      apart [] a e = tt
      apart (q ∷ rows) a e = elim (Bool-cases (text_eq q.device_id d)) [
        | inl f ↦ rw f (
          (λ t.
              let same : r.device_id ≡ q.device_id =
                text_eq→eq r.device_id d e ∙ sym (text_eq→eq q.device_id d f) in
              same_key_of r q same t a.0),
          apart rows a.1 e,
        )
        | inr f ↦ rw f (apart rows a.1 e)
      ]

module _ {F : Type 0} ⦃fl : Floats F⦄ where
  -- The values of the row are finite.
  abbrev IsFinite : TelemetryV1 F → Type 0
  IsFinite r = (fl.is_finite r.water_level ≡ true) × (fl.is_finite r.battery_voltage ≡ true)

  module _ (sample : TelemetryV1 F → Sample F)
      (at : (r : TelemetryV1 F) → (sample r).at ≡ aware r.measured_at) where
    all_sound-map :
        (rows : List (TelemetryV1 F))
        → All (λ r. fl.is_finite (sample r).value ≡ true) rows
        → all_sound (map sample rows) ≡ true
    unfolding all_sound
    all_sound-map [] h = refl
    all_sound-map (r ∷ rows) h = rw (h.0, at r, all_sound-map rows h.1) refl

    increasing_from-map :
        (r : TelemetryV1 F) (rows : List (TelemetryV1 F))
        → Ordered (r ∷ rows)
        → NoTies (r ∷ rows)
        → increasing_from (sample r) (map sample rows) ≡ true
    unfolding increasing_from
    increasing_from-map r [] o n = refl
    increasing_from-map r (q ∷ rows) o n =
        let lt : ltb r.measured_at q.measured_at ≡ true = ground (arith, n.0.0) in
        rw (increasing_from-map q rows o.1 n.1, at r, at q, lt) refl

    -- Rows in order, with different times and finite values, make a valid series.
    valid_of_Ordered :
        (rows : List (TelemetryV1 F))
        → All (λ r. fl.is_finite (sample r).value ≡ true) rows
        → Ordered rows
        → NoTies rows
        → is_valid_series (map sample rows) ≡ true
    unfolding is_valid_series
    valid_of_Ordered [] fin o n = refl
    valid_of_Ordered (r ∷ rows) fin o n =
        rw (all_sound-map (r ∷ rows) fin, increasing_from-map r rows o n) refl

  -- The answer is no forecast with the status INVALID_SERIES.
  abbrev pub IsNotInvalid : Result (Forecast F) → Type 0
  IsNotInvalid (ok fc) = fc.status ≢ invalid_series
  IsNotInvalid (raised e) = Unit

  -- what run_pass asks of forecast for a series of the window
  abbrev pub forecast_of : List (Sample F) → Metric F → ℕ → ℕ → Result (Forecast F)
  forecast_of series metric now start =
      forecast (newer_than start series) metric (aware now) (some start)

  Answers-IsNotInvalid : (P : Exn → Type 0) (r : Result (Forecast F)) → Answers P r → IsNotInvalid r
  Answers-IsNotInvalid P (ok fc) h = h
  Answers-IsNotInvalid P (raised e) h = tt

  forecast_of-IsNotInvalid :
      (series : List (Sample F)) (metric : Metric F) (now start : ℕ)
      → is_valid_series series ≡ true
      → IsNotInvalid (forecast_of series metric now start)
  forecast_of-IsNotInvalid series metric now start v =
      let valid = newer_than-valid start series v in
      Answers-IsNotInvalid (IsOutOfRange (newer_than start series) metric)
        (forecast_of series metric now start)
        (forecast-Answers (newer_than start series) metric (aware now) (some start)
          (rw (valid) refl))

  -- The series of a device in the window are its rows newer than the cutoff, in the order of their
  -- times, whatever the order of devices that the database's collation gives. If no two rows of the
  -- table have one key and all values are finite, both series are valid, and what forecast makes of
  -- their samples newer than the start of a metric's own window has another status than
  -- INVALID_SERIES, or is an exception, whatever the metric, its start and the present time.
  pub load_window-series :
      (before : Collation) (cutoff : ℕ) (rows : List (TelemetryV1 F)) (d : Text) (metric : Metric F)
      (now start : ℕ)
      → ((e : Text) → before e e ≡ false)
      → UniqueKeys rows
      → All IsFinite rows
      → let own = by_time (of_device d (newer_rows cutoff rows)) in
        let v = series_of d (load_window before cutoff rows) in
        (v.water ≡ map water_sample own)
        × (v.battery ≡ map battery_sample own)
        × (is_valid_series v.water ≡ true)
        × (is_valid_series v.battery ≡ true)
        × IsNotInvalid (forecast_of v.water metric now start)
        × IsNotInvalid (forecast_of v.battery metric now start)
  unfolding load_window select_window series_of
  load_window-series before cutoff rows d metric now start irr u fin =
      let newer = newer_rows cutoff rows in
      let own = by_time (of_device d newer) in
      let e : of_device d (by_device before (by_time newer)) ≡ own =
        of_device-by_device before d (by_time newer) irr ∙ of_device-by_time d newer in
      let n : NoTies own =
        by_time-NoTies (of_device d newer)
          (of_device-NoTies d newer (newer_rows-UniqueKeys cutoff rows u)) in
      let o : Ordered own = by_time-Ordered (of_device d newer) in
      let f : All IsFinite own =
        All-by_time IsFinite (of_device d newer)
          (All-of_device IsFinite d newer (All-newer_rows IsFinite cutoff rows fin)) in
      let w : is_valid_series (map water_sample own) ≡ true =
        valid_of_Ordered water_sample (λ r. refl) own (All-imp IsFinite _ own (λ r k. k.0) f) o n in
      let b : is_valid_series (map battery_sample own) ≡ true =
        valid_of_Ordered battery_sample (λ r. refl) own (All-imp IsFinite _ own (λ r k. k.1) f) o
          n in
      rw (series_of-group_rows d (by_device before (by_time newer)) [], e)
        (
          refl,
          refl,
          w,
          b,
          forecast_of-IsNotInvalid (map water_sample own) metric now start w,
          forecast_of-IsNotInvalid (map battery_sample own) metric now start b,
        )
