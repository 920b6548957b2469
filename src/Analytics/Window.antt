-- ===== src/Analytics/Window.antt =====
-- src/planter_telemetry/analytics/db.py: the reads of class Store, on the rows of `telemetry` and of
-- `alert_events`. The order of device ids in an ORDER BY is the database's collation, a parameter.
pub mod Order
pub mod Grouped
pub mod Clipped
pub mod Valid
use planter_telemetry.Prelude.{
  text, ◌++◌, ◌&&◌, some, ltb, text_eq, none, if◌then◌else◌, [], Bool, Option, ◌∷◌, ℕ, List, Text,
}
use planter_telemetry.Contract.Reading.{TelemetryV1}
use planter_telemetry.Analytics.Store.{AlertEvent}
use planter_telemetry.Analytics.Model.{aware, Sample}
pub mod Latest

-- a.device_id sorts before b.device_id
abbrev pub Collation : Type 0
Collation = Text → Text → Bool

pub record DeviceSeries (F : Type 0) : Type 0 where
  pub water : List (Sample F)
  pub battery : List (Sample F)

-- `previous` replaced by a later event of the same device and kind
unfoldable pub add_state :
    Text → Text → Text → ℕ → List ((Text × Text) × (Text × ℕ)) → List ((Text × Text) × (Text × ℕ))
add_state d k state at [] = ((d, k), (state, at)) ∷ []
add_state d k state at (((e, l), (s, t)) ∷ rest) =
    if text_eq e d && text_eq l k
    then (if ltb t at then ((e, l), (state, at)) ∷ rest else ((e, l), (s, t)) ∷ rest)
    else ((e, l), (s, t)) ∷ add_state d k state at rest

module _ {F : Type 0} where
  -- Store.data_now: max(measured_at)
  unfoldable pub data_now : List (TelemetryV1 F) → Option ℕ
  data_now [] = none
  data_now (r ∷ rows) = elim (data_now rows) [
    | none ↦ some r.measured_at
    | some t ↦ some (if ltb t r.measured_at then r.measured_at else t)
  ]

  -- WHERE measured_at > cutoff
  unfoldable pub newer_rows : ℕ → List (TelemetryV1 F) → List (TelemetryV1 F)
  newer_rows cutoff [] = []
  newer_rows cutoff (r ∷ rows) =
      let rest = newer_rows cutoff rows in if ltb cutoff r.measured_at then r ∷ rest else rest

  unfoldable pub insert_by_time : TelemetryV1 F → List (TelemetryV1 F) → List (TelemetryV1 F)
  insert_by_time r [] = r ∷ []
  insert_by_time r (q ∷ rows) =
      if ltb q.measured_at r.measured_at then q ∷ insert_by_time r rows else r ∷ q ∷ rows

  unfoldable pub by_time : List (TelemetryV1 F) → List (TelemetryV1 F)
  unfolding insert_by_time
  by_time [] = []
  by_time (r ∷ rows) = insert_by_time r (by_time rows)

  unfoldable pub insert_by_device :
      Collation → TelemetryV1 F → List (TelemetryV1 F) → List (TelemetryV1 F)
  insert_by_device before r [] = r ∷ []
  insert_by_device before r (q ∷ rows) =
      if before q.device_id r.device_id then q ∷ insert_by_device before r rows else r ∷ q ∷ rows

  -- a stable sort
  unfoldable pub by_device : Collation → List (TelemetryV1 F) → List (TelemetryV1 F)
  unfolding insert_by_device
  by_device before [] = []
  by_device before (r ∷ rows) = insert_by_device before r (by_device before rows)

  -- _SELECT_WINDOW: ORDER BY device_id, measured_at, by the less significant key first
  unfoldable pub select_window : Collation → ℕ → List (TelemetryV1 F) → List (TelemetryV1 F)
  unfolding newer_rows by_time by_device
  select_window before cutoff rows = by_device before (by_time (newer_rows cutoff rows))

  abbrev pub water_sample : TelemetryV1 F → Sample F
  water_sample r = record { at = aware r.measured_at; value = r.water_level }

  abbrev pub battery_sample : TelemetryV1 F → Sample F
  battery_sample r = record { at = aware r.measured_at; value = r.battery_voltage }

  -- the loop's body: the row's samples at the end of its device's series
  unfoldable pub add_row :
      TelemetryV1 F → List (Text × DeviceSeries F) → List (Text × DeviceSeries F)
  add_row r [] =
      (r.device_id, record { water = water_sample r ∷ []; battery = battery_sample r ∷ [] }) ∷ []
  add_row r ((e, v) ∷ series) =
      if text_eq e r.device_id
      then (
        e,
        record {
          water = v.water ++ water_sample r ∷ [];
          battery = v.battery ++ battery_sample r ∷ [];
        },
      )
        ∷ series
      else (e, v) ∷ add_row r series

  unfoldable pub group_rows :
      List (TelemetryV1 F) → List (Text × DeviceSeries F) → List (Text × DeviceSeries F)
  unfolding add_row
  group_rows [] series = series
  group_rows (r ∷ rows) series = group_rows rows (add_row r series)

  -- Store.load_window
  unfoldable pub load_window : Collation → ℕ → List (TelemetryV1 F) → List (Text × DeviceSeries F)
  unfolding select_window group_rows
  load_window before cutoff rows = group_rows (select_window before cutoff rows) []

  -- by_kind[kind], for the kinds of WINDOW_KINDS
  unfoldable pub by_kind : DeviceSeries F → Text → List (Sample F)
  by_kind v kind =
      if text_eq kind (text "water")
      then v.water
      else if text_eq kind (text "battery")
      then v.battery
      else []

  -- Store.latest_alert_states. Of two events at one watermark the server may answer either; here it
  -- is the older one.
  unfoldable pub latest_alert_states :
      List (AlertEvent F) → List ((Text × Text) × (Text × ℕ)) → List ((Text × Text) × (Text × ℕ))
  unfolding add_state
  latest_alert_states [] states = states
  latest_alert_states (e ∷ events) states =
      latest_alert_states events (add_state e.device_id e.kind e.state e.as_of states)
