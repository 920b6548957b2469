-- ===== src/Tests/Window.antt =====
-- The reads of analytics/db.py and the key of `telemetry` at concrete inputs.
use planter_telemetry.Analytics.Window.{
  latest_alert_states, load_window, water_sample, battery_sample, by_time, newer_rows, Collation,
}
use planter_telemetry.Analytics.Window.Valid.{load_window-series, IsNotInvalid, forecast_of}
use planter_telemetry.Analytics.Model.{water}
use planter_telemetry.Analytics.Window.Latest.{
  find_state, IsSince, IsEvent, latest_alert_states-IsLatest,
}
use planter_telemetry.Prelude.{
  none, true, refl, ltb, [], arith, map, ◌∷◌, text, false, text_eq, ◌≡◌, ℕ, Text, All, List,
}
use planter_telemetry.Ingestion.Handle.{handle_one}
use planter_telemetry.Analytics.Window.Order.{of_device}
use planter_telemetry.Contract.Reading.{TelemetryV1}
use planter_telemetry.Tests.Fixtures.{
  empty_world, five_oclock, pot_topic, reading_at, plain, pot, three_bytes,
}
use planter_telemetry.Analytics.Store.{AlertEvent}
use planter_telemetry.Prelude.Int.{pos, ℤ}
use planter_telemetry.Analytics.Window.Grouped.{series_of}
use planter_telemetry.Analytics.Series.{is_valid_series}
use planter_telemetry.Ingestion.Handle.Keys.{handle_one-UniqueKeys, UniqueKeys}
use planter_telemetry.Tests.Fixtures.{milli}

-- code point order of the first character
abbrev pub by_first : Collation
by_first (c ∷ s) (d ∷ t) = ltb c d
by_first _ _ = false

pub by_first-irreflexive : (e : Text) → by_first e e ≡ false
by_first-irreflexive [] = refl
by_first-irreflexive (c ∷ s) = ground arith

-- three rows of two devices, out of order
abbrev stored : List (TelemetryV1 ℤ)
stored = reading_at 4 ∷ record (reading_at 4) { device_id = text "aloe" } ∷ reading_at 3 ∷ []

stored-UniqueKeys : UniqueKeys stored
unfolding text_eq
stored-UniqueKeys = ((refl, (refl, tt)), ((refl, tt), (tt, tt)))

load_window-series_example :
    let own = by_time (of_device pot (newer_rows 5 stored)) in
    let v = series_of pot (load_window by_first 5 stored) in
    (v.water ≡ map water_sample own)
    × (v.battery ≡ map battery_sample own)
    × (is_valid_series v.water ≡ true)
    × (is_valid_series v.battery ≡ true)
    × IsNotInvalid (forecast_of v.water water 9 2)
    × IsNotInvalid (forecast_of v.battery water 9 2)
load_window-series_example =
    load_window-series by_first 5 stored pot water 9 2 by_first-irreflexive stored-UniqueKeys
      ((refl, refl), ((refl, refl), ((refl, refl), tt)))

abbrev event : ℕ → Text → AlertEvent ℤ
event at state = record {
  id = at;
  device_id = pot;
  kind = text "water";
  state = state;
  as_of = at;
  crosses_at = at;
  horizon_seconds = pos 0;
  threshold_seconds = pos 0;
  notified = false;
  notify_error = none;
}

abbrev both_events : List (AlertEvent ℤ)
both_events = event 7 (text "firing") ∷ event 9 (text "cleared") ∷ []

latest_alert_states-IsLatest_example :
    let states = latest_alert_states both_events [] in
    IsEvent pot (text "water") both_events (find_state pot (text "water") states)
    × All (λ (e : AlertEvent ℤ). IsSince e.as_of (find_state e.device_id e.kind states)) both_events
latest_alert_states-IsLatest_example = latest_alert_states-IsLatest both_events pot (text "water")

handle_one-UniqueKeys_example :
    UniqueKeys (handle_one three_bytes plain (pot_topic, five_oclock) empty_world).1.db.telemetry
handle_one-UniqueKeys_example =
    handle_one-UniqueKeys three_bytes plain (pot_topic, five_oclock) empty_world tt
