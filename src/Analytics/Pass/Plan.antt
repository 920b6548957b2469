-- ===== src/Analytics/Pass/Plan.antt =====
-- src/planter_telemetry/analytics/service.py: what a pass writes to the forecasts table, as a
-- function of the window alone.
use planter_telemetry.Prelude.{
  inr, true, inl, Option-cases, ◌∷◌, refl, false, arith, none, some, ◌+◌, [], ◌++◌, Option, ◌∙◌, ℕ,
  ◌≡◌, Bool, Text, List,
}
use planter_telemetry.Prelude.Floats.{Floats}
use planter_telemetry.Analytics.Store.{
  insert_alert_event, forecast_row, insert_forecast, mark_notified, ForecastRow,
}
use planter_telemetry.Analytics.Model.{Metric, Forecast}
use planter_telemetry.Analytics.Pass.{lookup_state, AlertStates, write_and_alert, write_forecast}
use planter_telemetry.Analytics.Alert.{
  cleared, firing, horizon_seconds, AlertState, AlertTransition,
}
use planter_telemetry.Analytics.Store.Batch.{writes, writes-append, upsert_all-append, upsert_all}
use planter_telemetry.Analytics.Store.Idempotent.{insert_alert_event-forecasts}
use planter_telemetry.Analytics.Decision.{
  next_answer, apply_transition, count_failure, handle_alert, record_transition, Settings, announce,
  notify, Run,
}

module _ {F : Type 0} where
  abbrev pub row_at : Text → Forecast F → Option ℕ → List (ForecastRow F)
  row_at device_id fc none = []
  row_at device_id fc (some as_of) = forecast_row device_id as_of fc ∷ []

  -- the row of a forecast, if it has a watermark
  abbrev pub row_of : Text → Forecast F → List (ForecastRow F)
  row_of device_id fc = row_at device_id fc fc.as_of

  -- From `s` to `s'` the batch was recorded, and counted.
  abbrev pub Wrote : List (ForecastRow F) → Run F → Run F → Type 0
  Wrote rs s s' =
      (s'.tables.forecasts ≡ upsert_all rs s.tables.forecasts)
      × (s'.counters.forecasts_written
          ≡ s.counters.forecasts_written + writes rs s.tables.forecasts)

  pub Wrote-trans :
      (rs qs : List (ForecastRow F)) (s t u : Run F)
      → Wrote rs s t
      → Wrote qs t u
      → Wrote (rs ++ qs) s u
  Wrote-trans rs qs s t u a b = (
    rw (upsert_all-append rs qs s.tables.forecasts, ← a.0) b.0,
    rw (writes-append rs qs s.tables.forecasts, ← a.0) (omega (arith, a.1, b.1)),
  )

  Wrote-same :
      (rs : List (ForecastRow F)) (s t u : Run F)
      → Wrote rs s t
      → u.tables.forecasts ≡ t.tables.forecasts
      → u.counters.forecasts_written ≡ t.counters.forecasts_written
      → Wrote rs s u
  Wrote-same rs s t u a f c = (f ∙ a.0, c ∙ a.1)

  -- The two states agree on the forecasts and on the count of those written.
  abbrev SameForecasts : Run F → Run F → Type 0
  SameForecasts s t =
      (t.tables.forecasts ≡ s.tables.forecasts)
      × (t.counters.forecasts_written ≡ s.counters.forecasts_written)

  notify-SameForecasts : (b : Bool) (id : ℕ) (s : Run F) → SameForecasts s (notify b id s)
  unfolding notify mark_notified
  notify-SameForecasts false id s = (refl, refl)
  notify-SameForecasts true id s = go (next_answer s.answers).0
    where
      go :
          (error : Option Text)
          → ((mark_notified id error s.tables).forecasts ≡ s.tables.forecasts)
            × ((count_failure error s.counters).forecasts_written ≡ s.counters.forecasts_written)
      go none = (refl, refl)
      go (some e) = (refl, refl)

  announce-SameForecasts :
      (b : Bool) (t : AlertTransition) (id : Option ℕ) (s : Run F)
      → SameForecasts s (announce b t id s)
  unfolding announce
  announce-SameForecasts b t none s = (refl, refl)
  announce-SameForecasts b firing (some id) s = notify-SameForecasts b id _
  announce-SameForecasts b cleared (some id) s = (refl, refl)

module _ {F : Type 0} ⦃fl : Floats F⦄ (settings : Settings F) where
  record_transition-SameForecasts :
      (d : Text) (metric : Metric F) (t : AlertTransition) (at c : ℕ) (s : Run F)
      → SameForecasts s (record_transition settings d metric t at c s)
  unfolding record_transition
  record_transition-SameForecasts d metric t at c s =
      let horizon = horizon_seconds {F = F} c at in
      let x =
        insert_alert_event d metric.kind t at c horizon metric.alert_horizon_seconds s.tables in
      let (f, n) = announce-SameForecasts settings.notifies t x.0 (record s { tables = x.1 }) in
      (
        f
            ∙ insert_alert_event-forecasts d metric.kind t at c horizon metric.alert_horizon_seconds
                s.tables,
        n,
      )

  apply_transition-SameForecasts :
      (d : Text) (metric : Metric F) (t : Option AlertTransition) (a c : Option ℕ) (s : Run F)
      → SameForecasts s (apply_transition settings d metric t a c s)
  apply_transition-SameForecasts d metric none a c s = (refl, refl)
  apply_transition-SameForecasts d metric (some t) none c s = (refl, refl)
  apply_transition-SameForecasts d metric (some t) (some at) none s = (refl, refl)
  apply_transition-SameForecasts d metric (some t) (some at) (some c) s =
      record_transition-SameForecasts d metric t at c s

  handle_alert-SameForecasts :
      (d : Text) (metric : Metric F) (fc : Forecast F) (previous : Option AlertState) (s : Run F)
      → SameForecasts s (handle_alert settings d metric fc previous s)
  unfolding handle_alert
  handle_alert-SameForecasts d metric fc previous s =
      apply_transition-SameForecasts d metric _ fc.as_of fc.crosses_at s

  write_forecast-Wrote :
      (d : Text) (fc : Forecast F) (s : Run F)
      → Wrote (row_of d fc) s (write_forecast settings d fc s)
  unfolding write_forecast insert_forecast upsert_all writes
  write_forecast-Wrote d fc s = elim (Option-cases fc.as_of) [
    | inl unkeyed ↦ rw (unkeyed) (refl, omega arith)
    | inr (at, keyed) ↦ rw (keyed) (refl, ground arith)
  ]

  pub write_and_alert-Wrote :
      (d : Text) (metric : Metric F) (states : AlertStates) (fc : Forecast F) (s : Run F)
      → Wrote (row_of d fc) s (write_and_alert settings d metric states fc s)
  unfolding write_and_alert
  write_and_alert-Wrote d metric states fc s =
      let t = write_forecast settings d fc s in
      let (f, n) = handle_alert-SameForecasts d metric fc (lookup_state d metric.kind states) t in
      Wrote-same (row_of d fc) s t
        (handle_alert settings d metric fc (lookup_state d metric.kind states) t)
        (write_forecast-Wrote d fc s) f n
