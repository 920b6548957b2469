-- ===== src/Analytics/Store/Latest.antt =====
-- src/planter_telemetry/analytics/db.py: which row a forecast's key has after insert_forecast.
use planter_telemetry.Analytics.Store.{
  status_value, forecast_row, Tables, same_forecast, upsert_forecast, insert_forecast, ForecastRow,
}
use planter_telemetry.Analytics.Model.{Forecast}
use planter_telemetry.Analytics.Store.Idempotent.{same_forecast_refl}
use planter_telemetry.Prelude.{
  sym, inr, ◌⊎◌, text_eq, [], inl, if◌then◌else◌, Bool-cases, text_eq→eq, refl, arith, ◌∷◌, some,
  none, false, true, ℕ, List, Option, ◌≡◌, Text,
}

module _ {F : Type 0} where
  -- the row of a forecast's key
  unfoldable pub find_forecast : ForecastRow F → List (ForecastRow F) → Option (ForecastRow F)
  find_forecast r [] = none
  find_forecast r (q ∷ rows) = if same_forecast r q then some q else find_forecast r rows

  -- A row with this status is there.
  abbrev pub HasStatus : Text → Option (ForecastRow F) → Type 0
  HasStatus status none = ⊥
  HasStatus status (some q) = q.status ≡ status

  same_forecast-keys :
      (r x : ForecastRow F)
      → same_forecast r x ≡ true
      → (r.device_id ≡ x.device_id) × (r.kind ≡ x.kind) × (r.as_of ≡ x.as_of)
  unfolding same_forecast
  same_forecast-keys r x h =
      ground (arith, text_eq→eq r.device_id x.device_id, text_eq→eq r.kind x.kind)

  same_forecast-cong :
      (q r x : ForecastRow F) → same_forecast r x ≡ true → same_forecast q x ≡ same_forecast q r
  unfolding same_forecast
  same_forecast-cong q r x h = let (d, k, t) = same_forecast-keys r x h in rw (d, k, t) refl

  pub find-upsert_self :
      (r : ForecastRow F) (rows : List (ForecastRow F))
      → HasStatus r.status (find_forecast r (upsert_forecast r rows).0)
  unfolding find_forecast upsert_forecast
  find-upsert_self r [] = rw (same_forecast_refl r) refl
  find-upsert_self r (q ∷ rows) = elim (Bool-cases (same_forecast r q)) [
    | inl same ↦ elim (Bool-cases (text_eq r.status q.status)) [
      | inl kept ↦ rw (same, kept, same) (sym (text_eq→eq r.status q.status kept))
      | inr changed ↦ rw (same, changed, same_forecast_refl r) refl
    ]
    | inr other ↦ rw (other, other) (find-upsert_self r rows)
  ]

  pub find-upsert_other :
      (q r : ForecastRow F) (rows : List (ForecastRow F))
      → same_forecast q r ≡ false
      → find_forecast q (upsert_forecast r rows).0 ≡ find_forecast q rows
  unfolding find_forecast upsert_forecast
  find-upsert_other q r [] h = rw h refl
  find-upsert_other q r (x ∷ rows) h = elim (Bool-cases (same_forecast r x)) [
    | inl same ↦ elim (Bool-cases (text_eq r.status x.status)) [
      | inl kept ↦ rw (same, kept) refl
      | inr changed ↦ rw (same, changed, h, same_forecast-cong q r x same, h) refl
    ]
    | inr other ↦ rw (other) (ground (arith, find-upsert_other q r rows h))
  ]

  -- After insert_forecast the row of the forecast's device, kind and watermark has the forecast's
  -- status, even where a healthy one was recorded for the same watermark before; the row of every
  -- other key is the one it was.
  insert_forecast-latest :
      (device_id : Text) (fc : Forecast F) (as_of : ℕ) (q : ForecastRow F) (t : Tables F)
      → fc.as_of ≡ some as_of
      → let row = forecast_row device_id as_of fc in
        let rows = (insert_forecast device_id fc t).1.forecasts in
        HasStatus (status_value fc.status) (find_forecast row rows)
        × ((same_forecast q row ≡ true) ⊎ (find_forecast q rows ≡ find_forecast q t.forecasts))
  unfolding insert_forecast
  insert_forecast-latest device_id fc as_of q t h =
      let row = forecast_row device_id as_of fc in
      rw h (
        find-upsert_self row t.forecasts,
        elim (Bool-cases (same_forecast q row)) [
          | inl same ↦ inl same
          | inr other ↦ inr (find-upsert_other q row t.forecasts other)
        ],
      )
