-- ===== src/Analytics/Store.antt =====
-- src/planter_telemetry/analytics/db.py: the writes of class Store, on lists of rows.
use planter_telemetry.Prelude.{
  ◌++◌, ◌==◌, ◌&&◌, ◌||◌, text_eq, if◌then◌else◌, true, false, suc, ℕ, Text, text, Option, none,
  some, Bool, List, [], ◌∷◌,
}
use planter_telemetry.Analytics.Model.{
  beyond_horizon, not_depleting, at_or_below_target, insufficient_span, insufficient_points,
  invalid_series, stale, no_data, on_track, Forecast, Status, Fit,
}
use planter_telemetry.Analytics.Alert.{AlertTransition, firing, cleared}
pub mod Idempotent
pub mod Latest
pub mod Batch

abbrev pub is_none : {A : Type 0} → Option A → Bool
is_none none = true
is_none (some a) = false

-- the values of the enum Status
unfoldable pub status_value : Status → Text
status_value on_track = text "ok"
status_value no_data = text "no_data"
status_value stale = text "stale"
status_value invalid_series = text "invalid_series"
status_value insufficient_points = text "insufficient_points"
status_value insufficient_span = text "insufficient_span"
status_value at_or_below_target = text "at_or_below_target"
status_value not_depleting = text "not_depleting"
status_value beyond_horizon = text "beyond_horizon"

unfoldable pub state_value : AlertTransition → Text
state_value firing = text "firing"
state_value cleared = text "cleared"

pub record ForecastRow (F : Type 0) : Type 0 where
  pub device_id : Text
  pub kind : Text
  pub as_of : ℕ
  pub status : Text
  pub target_value : F
  pub latest_value : Option F
  pub crosses_at : Option ℕ
  pub crosses_at_earliest : Option ℕ
  pub crosses_at_latest : Option ℕ
  pub slope_per_hour : Option F
  pub residual_mad : Option F
  pub fit_points : Option ℕ
  pub segment_points : Option ℕ
  pub fit_span_seconds : Option F
  pub truncated : Bool

pub record AlertEvent (F : Type 0) : Type 0 where
  pub id : ℕ
  pub device_id : Text
  pub kind : Text
  pub state : Text
  pub as_of : ℕ
  pub crosses_at : ℕ
  pub horizon_seconds : F
  pub threshold_seconds : F
  -- false until a delivery has succeeded
  pub notified : Bool
  pub notify_error : Option Text

-- The two tables, and the identity column's next value, which a conflict uses up too.
pub record Tables (F : Type 0) : Type 0 where
  pub forecasts : List (ForecastRow F)
  pub alert_events : List (AlertEvent F)
  pub next_id : ℕ

module _ {F : Type 0} where
  -- NULL where there is no fit
  abbrev fit_column : {A : Type 0} → (Fit F → A) → Option (Fit F) → Option A
  fit_column column none = none
  fit_column column (some f) = some (column f)

  abbrev pub forecast_row : Text → ℕ → Forecast F → ForecastRow F
  forecast_row device_id as_of fc = record {
    device_id = device_id;
    kind = fc.kind;
    as_of = as_of;
    status = status_value fc.status;
    target_value = fc.target;
    latest_value = fc.latest_value;
    crosses_at = fc.crosses_at;
    crosses_at_earliest = fc.crosses_at_earliest;
    crosses_at_latest = fc.crosses_at_latest;
    slope_per_hour = fit_column (λ f. f.slope_per_hour) fc.fit;
    residual_mad = fit_column (λ f. f.residual_mad) fc.fit;
    fit_points = fit_column (λ f. f.points) fc.fit;
    segment_points = fit_column (λ f. f.segment_points) fc.fit;
    fit_span_seconds = fit_column (λ f. f.span_seconds) fc.fit;
    truncated = elim fc.fit [ none ↦ false | some f ↦ f.truncated ];
  }

  -- (device_id, kind, as_of)
  unfoldable pub same_forecast : ForecastRow F → ForecastRow F → Bool
  same_forecast r q =
      text_eq r.device_id q.device_id && (text_eq r.kind q.kind && (r.as_of == q.as_of))

  -- _INSERT_FORECAST: ON CONFLICT DO UPDATE, where the status is distinct
  unfoldable pub upsert_forecast :
      ForecastRow F → List (ForecastRow F) → List (ForecastRow F) × Bool
  unfolding same_forecast
  upsert_forecast r [] = (r ∷ [], true)
  upsert_forecast r (q ∷ rows) =
      let (rest, changed) = upsert_forecast r rows in
      if same_forecast r q
      then (if text_eq r.status q.status then (q ∷ rows, false) else (r ∷ rows, true))
      else (q ∷ rest, changed)

  abbrev pub insert_at : Text → Forecast F → Option ℕ → Tables F → Bool × Tables F
  insert_at device_id fc none t = (false, t)
  insert_at device_id fc (some as_of) t =
      let (rows, changed) = upsert_forecast (forecast_row device_id as_of fc) t.forecasts in
      (changed, record t { forecasts = rows })

  -- Store.insert_forecast
  unfoldable pub insert_forecast : Text → Forecast F → Tables F → Bool × Tables F
  unfolding upsert_forecast
  insert_forecast device_id fc t = insert_at device_id fc fc.as_of t

  -- the row of (device_id, kind, as_of, state)
  unfoldable pub same_event : Text → Text → ℕ → Text → AlertEvent F → Bool
  same_event d k at state o =
      text_eq d o.device_id && (text_eq k o.kind && ((at == o.as_of) && text_eq state o.state))

  unfoldable pub has_event : Text → Text → ℕ → Text → List (AlertEvent F) → Bool
  unfolding same_event
  has_event d k at state [] = false
  has_event d k at state (o ∷ events) = same_event d k at state o || has_event d k at state events

  -- Store.insert_alert_event: ON CONFLICT DO NOTHING RETURNING id
  unfoldable pub insert_alert_event :
      Text → Text → AlertTransition → ℕ → ℕ → F → F → Tables F → Option ℕ × Tables F
  unfolding has_event
  insert_alert_event device_id kind state as_of crosses_at horizon threshold t =
      let event : AlertEvent F = record {
        id = t.next_id;
        device_id = device_id;
        kind = kind;
        state = state_value state;
        as_of = as_of;
        crosses_at = crosses_at;
        horizon_seconds = horizon;
        threshold_seconds = threshold;
        notified = false;
        notify_error = none;
      } in
      let t' = record t { next_id = suc t.next_id } in
      if has_event device_id kind as_of (state_value state) t.alert_events
      then (none, t')
      else (some t.next_id, record t' { alert_events = t.alert_events ++ event ∷ [] })

  -- Store.mark_notified
  unfoldable pub mark_event : ℕ → Option Text → List (AlertEvent F) → List (AlertEvent F)
  mark_event id error [] = []
  mark_event id error (e ∷ events) =
      let rest = mark_event id error events in
      if e.id == id
      then (record e { notified = is_none error; notify_error = error }) ∷ rest
      else e ∷ rest

  unfoldable pub mark_notified : ℕ → Option Text → Tables F → Tables F
  unfolding mark_event
  mark_notified id error t = record t { alert_events = mark_event id error t.alert_events }
