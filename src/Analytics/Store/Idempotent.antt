-- ===== src/Analytics/Store/Idempotent.antt =====
-- src/planter_telemetry/analytics/db.py: what is written twice is there once.
use planter_telemetry.Prelude.{
  refl, text_eq, inr, [], Bool-cases, inl, Option-cases, ◌++◌, arith, ◌∷◌, text_eq_refl, false,
  true, Option, List, ◌≡◌, ℕ, Text,
}
use planter_telemetry.Analytics.Alert.{AlertTransition}
use planter_telemetry.Analytics.Model.{Forecast}
use planter_telemetry.Analytics.Store.{
  forecast_row, state_value, AlertEvent, Tables, same_event, ForecastRow, mark_event,
  upsert_forecast, has_event, insert_alert_event, insert_forecast, same_forecast,
}

module _ {F : Type 0} where
  pub same_forecast_refl : (r : ForecastRow F) → same_forecast r r ≡ true
  unfolding same_forecast
  same_forecast_refl r = ground (arith, text_eq_refl r.device_id, text_eq_refl r.kind)

  upsert_forecast_twice :
      (r : ForecastRow F) (rows : List (ForecastRow F))
      → upsert_forecast r (upsert_forecast r rows).0 ≡ ((upsert_forecast r rows).0, false)
  unfolding upsert_forecast
  upsert_forecast_twice r [] = rw (same_forecast_refl r, text_eq_refl r.status) refl
  upsert_forecast_twice r (q ∷ rows) = elim (Bool-cases (same_forecast r q)) [
    | inl same ↦ elim (Bool-cases (text_eq r.status q.status)) [
      | inl kept ↦ rw (same, kept, same, kept) refl
      | inr changed ↦ rw (same, changed, same_forecast_refl r, text_eq_refl r.status) refl
    ]
    | inr other ↦ rw (other, other, upsert_forecast_twice r rows) refl
  ]

  -- Recording a forecast a second time writes nothing: the insert answers False, and the tables stay
  -- as the first one left them, whatever rows they held before.
  insert_forecast_twice :
      (device_id : Text) (fc : Forecast F) (t : Tables F)
      → let t' = (insert_forecast device_id fc t).1 in insert_forecast device_id fc t' ≡ (false, t')
  unfolding insert_forecast
  insert_forecast_twice device_id fc t = elim (Option-cases fc.as_of) [
    | inl unkeyed ↦ rw (unkeyed) refl
    | inr (as_of, keyed) ↦
        rw (keyed, upsert_forecast_twice (forecast_row device_id as_of fc) t.forecasts) refl
  ]

  has_event-append :
      (d k : Text) (at : ℕ) (state : Text) (e : AlertEvent F) (events : List (AlertEvent F))
      → same_event d k at state e ≡ true
      → has_event d k at state (events ++ e ∷ []) ≡ true
  unfolding has_event
  has_event-append d k at state e [] h = ground arith
  has_event-append d k at state e (o ∷ events) h =
      ground (arith, has_event-append d k at state e events h)

  pub has_event-mark_event :
      (d k : Text) (at : ℕ) (state : Text) (id : ℕ) (error : Option Text)
      (events : List (AlertEvent F))
      → has_event d k at state (mark_event id error events) ≡ has_event d k at state events
  unfolding has_event mark_event same_event
  has_event-mark_event d k at state id error [] = refl
  has_event-mark_event d k at state id error (o ∷ events) =
      ground (arith, has_event-mark_event d k at state id error events)

  -- A decision that was inserted is recorded.
  pub insert_alert_event-recorded :
      (d k : Text) (state : AlertTransition) (at crosses_at : ℕ) (horizon threshold : F)
      (t : Tables F)
      → has_event d k at
          (state_value state)
          (insert_alert_event d k state at crosses_at horizon threshold t).1.alert_events
        ≡ true
  unfolding insert_alert_event
  insert_alert_event-recorded d k state at crosses_at horizon threshold t =
      elim (Bool-cases (has_event d k at (state_value state) t.alert_events)) [
        | inl there ↦ rw (there, there) refl
        | inr new ↦ rw (new) (
            has_event-append d k at (state_value state) _ t.alert_events (
              unfold same_event in
              ground (arith, text_eq_refl d, text_eq_refl k, text_eq_refl (state_value state))))
      ]

  pub insert_alert_event-forecasts :
      (d k : Text) (state : AlertTransition) (at crosses_at : ℕ) (horizon threshold : F)
      (t : Tables F)
      → (insert_alert_event d k state at crosses_at horizon threshold t).1.forecasts ≡ t.forecasts
  unfolding insert_alert_event
  insert_alert_event-forecasts d k state at crosses_at horizon threshold t = ground arith
