-- ===== src/Analytics/Decision.antt =====
-- src/planter_telemetry/analytics/service.py: _handle_alert. The answers of the notifier are the input.
-- Logs are left out.
pub mod Rerun
use planter_telemetry.Analytics.Store.{insert_alert_event, insert_forecast, Tables, mark_notified}
use planter_telemetry.Prelude.Floats.{lit, Floats}
use planter_telemetry.Prelude.{
  leb, overflow_error, ◌&&◌, true, text_eq, false, raised, ltb, ok, if◌then◌else◌, [], ◌∷◌, ◌+◌,
  Result, some, none, ◌++◌, Bool, ℕ, Text, List, Option,
}
use planter_telemetry.Analytics.Alert.{
  cleared, firing, horizon_seconds, AlertState, AlertTransition, alert_transition,
}
use planter_telemetry.Analytics.Model.{battery, water, micros, aware, Forecast, Sample, Metric}
use planter_telemetry.Analytics.Forecast.{forecast}
use planter_telemetry.Prelude.Time.{instant_add}
use planter_telemetry.Prelude.Int.{◌-ℤ◌, pos}

pub record Counters : Type 0 where
  pub forecasts_written : ℕ
  pub alerts_fired : ℕ
  pub alerts_cleared : ℕ
  pub notify_failures : ℕ

pub record Settings (F : Type 0) : Type 0 where
  pub water_target_pct : F
  pub battery_target_volts : F
  pub water_alert_days : F
  pub battery_alert_days : F
  pub alert_cooldown_hours : F
  -- whether `ntfy_url` is not empty
  pub notifies : Bool

-- The tables, the counters, the events a push was sent for, and the notifier's answers to come: an
-- error, or none (also where the list is at its end).
pub record Run (F : Type 0) : Type 0 where
  pub tables : Tables F
  pub counters : Counters
  pub pushed : List ℕ
  pub answers : List (Option Text)

abbrev pub next_answer : List (Option Text) → Option Text × List (Option Text)
next_answer [] = (none, [])
next_answer (a ∷ rest) = (a, rest)

abbrev pub count_failure : Option Text → Counters → Counters
count_failure none c = c
count_failure (some error) c = record c { notify_failures = c.notify_failures + 1 }

module _ {F : Type 0} where
  -- `if settings.ntfy_url:`
  unfoldable pub notify : Bool → ℕ → Run F → Run F
  unfolding mark_notified
  notify false event_id s = s
  notify true event_id s =
      let (error, answers) = next_answer s.answers in
      record s {
        tables = mark_notified event_id error s.tables;
        counters = count_failure error s.counters;
        pushed = s.pushed ++ event_id ∷ [];
        answers = answers;
      }

  -- behind the insert: nothing, where the decision was recorded already
  unfoldable pub announce : Bool → AlertTransition → Option ℕ → Run F → Run F
  unfolding notify
  announce notifies transition none s = s
  announce notifies firing (some event_id) s =
      notify notifies event_id
        (record s { counters = record (s.counters) { alerts_fired = s.counters.alerts_fired + 1 } })
  announce notifies cleared (some event_id) s = record s {
    counters = record (s.counters) { alerts_cleared = s.counters.alerts_cleared + 1 };
  }

module _ {F : Type 0} ⦃fl : Floats F⦄ (settings : Settings F) where
  unfoldable pub record_transition : Text → Metric F → AlertTransition → ℕ → ℕ → Run F → Run F
  unfolding insert_alert_event announce
  record_transition device_id metric transition as_of crosses_at s =
      let (event_id, t) =
        insert_alert_event device_id metric.kind transition as_of crosses_at
          (horizon_seconds {F = F} crosses_at as_of) metric.alert_horizon_seconds s.tables in
      announce settings.notifies transition event_id (record s { tables = t })

  abbrev pub apply_transition :
      Text → Metric F → Option AlertTransition → Option ℕ → Option ℕ → Run F → Run F
  apply_transition device_id metric (some transition) (some as_of) (some crosses_at) s =
      record_transition device_id metric transition as_of crosses_at s
  apply_transition device_id metric _ _ _ s = s

  -- _handle_alert
  unfoldable pub handle_alert : Text → Metric F → Forecast F → Option AlertState → Run F → Run F
  unfolding alert_transition record_transition
  handle_alert device_id metric fc previous s =
      let cooldown = fl.mul settings.alert_cooldown_hours (lit 3600) in
      apply_transition device_id metric
        (alert_transition fc metric previous cooldown (fl.ratio 15 10)) fc.as_of fc.crosses_at s
