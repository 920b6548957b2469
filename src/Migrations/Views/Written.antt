-- ===== src/Migrations/Views/Written.antt =====
-- src/planter_telemetry/analytics/service.py and migrations/versions/0010_forecasts_latest_fix.py: what
-- the dashboard's view shows of a forecast that a pass wrote.
use planter_telemetry.Migrations.Views.{
  forecasts_latest, Device, with_horizon, LatestForecast, newest_first, forecasts_of,
  is_forecast_of, newest_forecast,
}
use planter_telemetry.Migrations.Views.Distinct.{is_forecast_of→eq}
use planter_telemetry.Migrations.Views.Newest.{newer, newest_forecast-cons}
use planter_telemetry.Analytics.Store.{
  forecast_row, status_value, Tables, insert_forecast, ForecastRow, same_forecast, upsert_forecast,
}
use planter_telemetry.Prelude.{
  eq→text_eq, ◌≢◌, text_eq, ltb, Text, Option, none, some, List, [], ◌∷◌, ℕ, ◌≡◌, refl, true, false,
  All, inl, inr, Bool-cases, ap, ◌∙◌, sym, arith, text_eq→eq, ◌≤◌,
}
use mathlib.Core.Path.{subst}
use planter_telemetry.Prelude.Floats.{Floats}
use planter_telemetry.Analytics.Model.{Forecast}
use planter_telemetry.Migrations.Views.Shown.{shown-forecasts_latest, shown, is_kind, in_roster}
use mathlib.Core.Option

module _ {F : Type 0} where
  -- No forecast of the device and kind is newer.
  abbrev NoneNewer : Text → Text → ℕ → List (ForecastRow F) → Type 0
  NoneNewer d k at rows =
      All (λ (q : ForecastRow F). is_forecast_of d k q ≡ true → q.as_of ≤ at) rows

  abbrev IsAtMost : ℕ → Option (ForecastRow F) → Type 0
  IsAtMost at none = Unit
  IsAtMost at (some q) = q.as_of ≤ at

  newest_forecast-nil : (d k : Text) → newest_forecast {F = F} d k [] ≡ none
  unfolding newest_forecast forecasts_of newest_first
  newest_forecast-nil d k = refl

  newest_forecast-IsAtMost :
      (d k : Text) (at : ℕ) (rows : List (ForecastRow F))
      → NoneNewer d k at rows
      → IsAtMost at (newest_forecast d k rows)
  newest_forecast-IsAtMost d k at [] h = rw (newest_forecast-nil d k) tt
  newest_forecast-IsAtMost d k at (q ∷ rows) h =
      subst (IsAtMost at) (sym (newest_forecast-cons d k q rows))
        (elim (Bool-cases (is_forecast_of d k q)) [
          | inl e ↦
              rw (e)
                (go (newest_forecast d k rows) (h.0 e) (newest_forecast-IsAtMost d k at rows h.1))
          | inr e ↦ rw (e) (newest_forecast-IsAtMost d k at rows h.1)
        ])
    where
      go :
          (o : Option (ForecastRow F))
          → q.as_of ≤ at
          → IsAtMost at o
          → IsAtMost at (some (newer q o))
      go none a b = a
      go (some x) a b = elim (Bool-cases (ltb q.as_of x.as_of)) [
        | inl e ↦ rw (e) b
        | inr e ↦ rw (e) a
      ]

  -- the watermark and the status of a row
  abbrev judgement : ForecastRow F → ℕ × Text
  judgement r = (r.as_of, r.status)

  newer-older :
      (q : ForecastRow F) (o : Option (ForecastRow F)) (at : ℕ) (status : Text)
      → ltb q.as_of at ≡ true
      → Option.map judgement o ≡ some (at, status)
      → Option.map judgement (some (newer q o)) ≡ some (at, status)
  newer-older q none at status h e = cc
  newer-older q (some x) at status h e =
      let a : x.as_of ≡ at = ap watermark e in
      let older : ltb q.as_of x.as_of ≡ true = rw (a) h in rw (older) e
    where
      watermark : Option (ℕ × Text) → ℕ
      watermark none = 0
      watermark (some j) = j.0

  newer-newest :
      (q : ForecastRow F) (o : Option (ForecastRow F)) → IsAtMost q.as_of o → newer q o ≡ q
  newer-newest q none h = refl
  newer-newest q (some x) h =
      let old : ltb q.as_of x.as_of ≡ false = ground (arith, h) in rw (old) refl

  newest_row :
      (d k : Text) (r : ForecastRow F) (rows : List (ForecastRow F))
      → is_forecast_of d k r ≡ true
      → NoneNewer d k r.as_of rows
      → Option.map judgement (newest_forecast d k (r ∷ rows)) ≡ some (judgement r)
  newest_row d k r rows own h =
      rw
        (
          newest_forecast-cons d k r rows,
          own,
          newer-newest r (newest_forecast d k rows) (newest_forecast-IsAtMost d k r.as_of rows h),
        )
        refl

  is_forecast_of-same :
      (d k : Text) (r q : ForecastRow F)
      → r.device_id ≡ q.device_id
      → r.kind ≡ q.kind
      → is_forecast_of d k r ≡ true
      → is_forecast_of d k q ≡ true
  unfolding is_forecast_of
  is_forecast_of-same d k r q e l h = rw (sym e, sym l) h

  -- rows of one key
  same_forecast→eq :
      (r q : ForecastRow F)
      → same_forecast r q ≡ true
      → (r.device_id ≡ q.device_id) × (r.kind ≡ q.kind) × (r.as_of ≡ q.as_of)
  unfolding same_forecast
  same_forecast→eq r q h = (
    text_eq→eq r.device_id q.device_id (ground (arith, h)),
    text_eq→eq r.kind q.kind (ground (arith, h)),
    ground (arith, h),
  )

  same_forecast-other :
      (d k : Text) (r q : ForecastRow F)
      → is_forecast_of d k r ≡ true
      → is_forecast_of d k q ≡ true
      → same_forecast r q ≡ false
      → r.as_of ≢ q.as_of
  unfolding same_forecast
  same_forecast-other d k r q own mine h e =
      let (rd, rk) = is_forecast_of→eq d k r own in
      let (qd, qk) = is_forecast_of→eq d k q mine in
      let a = eq→text_eq r.device_id q.device_id (rd ∙ sym qd) in
      let b = eq→text_eq r.kind q.kind (rk ∙ sym qk) in absurd (ground (arith, a, b, h, e))

  newest_forecast-upsert_forecast :
      (d k : Text) (r : ForecastRow F) (rows : List (ForecastRow F))
      → is_forecast_of d k r ≡ true
      → NoneNewer d k r.as_of rows
      → Option.map judgement (newest_forecast d k (upsert_forecast r rows).0) ≡ some (judgement r)
  unfolding upsert_forecast
  newest_forecast-upsert_forecast d k r [] own h = newest_row d k r [] own tt
  newest_forecast-upsert_forecast d k r (q ∷ rows) own h = elim (Bool-cases (same_forecast r q)) [
    | inl same ↦ elim (Bool-cases (text_eq r.status q.status)) [
      | inl unchanged ↦
          rw (same, unchanged)
            (let (sd, sk, sa) = same_forecast→eq r q same in
              let mine : is_forecast_of d k q ≡ true = is_forecast_of-same d k r q sd sk own in
              newest_row d k q rows mine (subst (λ at. NoneNewer d k at rows) sa h.1)
              ∙ ap some (λ i. (sym sa i, sym (text_eq→eq r.status q.status unchanged) i)))
      | inr changed ↦ rw (same, changed) (newest_row d k r rows own h.1)
    ]
    | inr other ↦ rw (other) (elim (Bool-cases (is_forecast_of d k q)) [
      | inl mine ↦
          let differ = same_forecast-other d k r q own mine other in
          let le = h.0 mine in
          rw (newest_forecast-cons d k q (upsert_forecast r rows).0, mine)
            (newer-older q _ r.as_of r.status (ground (arith, differ, le))
              (newest_forecast-upsert_forecast d k r rows own h.1))
      | inr foreign ↦
          rw (newest_forecast-cons d k q (upsert_forecast r rows).0, foreign)
            (newest_forecast-upsert_forecast d k r rows own h.1)
    ])
  ]

module _ {F : Type 0} ⦃fl : Floats F⦄ where
  -- the watermark and the status that the view shows
  abbrev pub shown_judgement : Option (LatestForecast F) → Option (ℕ × Text)
  shown_judgement none = none
  shown_judgement (some l) = some (judgement l.forecast)

  shown_judgement-with_horizon :
      (o : Option (ForecastRow F))
      → shown_judgement (Option.map with_horizon o) ≡ Option.map judgement o
  shown_judgement-with_horizon none = refl
  shown_judgement-with_horizon (some r) = refl

  forecast_row-own :
      (device_id : Text) (fc : Forecast F) (at : ℕ)
      → is_forecast_of device_id fc.kind (forecast_row device_id at fc) ≡ true
  unfolding is_forecast_of
  forecast_row-own device_id fc at =
      let d = eq→text_eq device_id device_id refl in
      let k = eq→text_eq fc.kind fc.kind refl in ground (arith, d, k)

  -- What a pass writes is what the dashboard reads: behind the insert of a forecast that has a watermark,
  -- the view shows for its device and kind a row of that watermark and of its status, and no older one.
  -- The device is in the table `devices`, the kind is one of the view's list, and the table `forecasts`
  -- has no row of the device and kind with a newer watermark.
  pub shown-insert_forecast :
      (device_id : Text) (fc : Forecast F) (at : ℕ) (devices : List Device) (t : Tables F)
      → fc.as_of ≡ some at
      → in_roster device_id devices ≡ true
      → is_kind fc.kind ≡ true
      → NoneNewer device_id fc.kind at t.forecasts
      → shown_judgement (
          shown device_id fc.kind
            (forecasts_latest devices (insert_forecast device_id fc t).1.forecasts))
        ≡ some (at, status_value fc.status)
  unfolding insert_forecast
  shown-insert_forecast device_id fc at devices t a roster kind h =
      let r = forecast_row device_id at fc in
      let own : is_forecast_of device_id fc.kind r ≡ true = forecast_row-own device_id fc at in
      rw (a) (
        ap shown_judgement (
          shown-forecasts_latest device_id fc.kind devices (upsert_forecast r t.forecasts).0
          ∙ rw (roster, kind) refl)
        ∙ shown_judgement-with_horizon _
        ∙ newest_forecast-upsert_forecast device_id fc.kind r t.forecasts own h)
