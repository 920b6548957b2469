-- ===== src/Migrations/Views/Agree.antt =====
-- src/planter_telemetry/migrations/versions/0010_forecasts_latest_fix.py: the view that 0010 puts in
-- place of the one of 0008.
use planter_telemetry.Migrations.Views.{
  forecasts_latest_0008, Device, forecasts_latest, clamped, with_horizon, LatestForecast, clamp_all,
  greatest_horizon, horizon_or_null, is_forecast_of, newest_forecast,
}
use planter_telemetry.Analytics.Store.{ForecastRow}
use planter_telemetry.Analytics.Window.{Collation}
use planter_telemetry.Migrations.Views.Newest.{find_row}
use mathlib.Core.Option
use planter_telemetry.Prelude.Floats.{Floats}
use planter_telemetry.Prelude.{
  ◌&&◌, if◌then◌else◌, Text, ℕ, Option, none, some, List, [], ◌∷◌, ◌≡◌, refl, false, inl, inr,
  Bool-cases, ap, ◌∙◌,
}
use planter_telemetry.Migrations.Views.Distinct.{find_row-sorted}
use planter_telemetry.Migrations.Views.Shown.{shown, in_roster, is_kind, shown-forecasts_latest}

module _ {F : Type 0} ⦃fl : Floats F⦄ where
  abbrev keep_unless_null : Option ℕ → Option F → Option F
  keep_unless_null none horizon = none
  keep_unless_null (some crosses_at) horizon = horizon

  -- The row with its own horizon, which is NULL if the forecast has no crossing.
  abbrev pub null_horizon : LatestForecast F → LatestForecast F
  null_horizon l = record {
    forecast = l.forecast;
    horizon_seconds = keep_unless_null l.forecast.crosses_at l.horizon_seconds;
  }

  shown-clamp_all :
      (d k : Text) (rows : List (ForecastRow F))
      → shown d k (clamp_all rows) ≡ Option.map clamped (find_row d k rows)
  unfolding shown clamp_all find_row
  shown-clamp_all d k [] = refl
  shown-clamp_all d k (r ∷ rows) = elim (Bool-cases (is_forecast_of d k r)) [
    | inl e ↦ rw (e) refl
    | inr e ↦ rw (e) (shown-clamp_all d k rows)
  ]

  abbrev row_with : ForecastRow F → Option F → LatestForecast F
  row_with r horizon = record { forecast = r; horizon_seconds = horizon }

  keep_unless_null-clamped :
      (crosses_at : Option ℕ) (as_of : ℕ)
      → keep_unless_null crosses_at (some (greatest_horizon crosses_at as_of))
        ≡ horizon_or_null crosses_at as_of
  keep_unless_null-clamped none as_of = refl
  keep_unless_null-clamped (some crosses_at) as_of = refl

  null_horizon-clamped : (r : ForecastRow F) → null_horizon (clamped r) ≡ with_horizon r
  null_horizon-clamped r = ap (row_with r) (keep_unless_null-clamped r.crosses_at r.as_of)

  map-null_horizon :
      (o : Option (ForecastRow F))
      → Option.map null_horizon (Option.map clamped o) ≡ Option.map with_horizon o
  map-null_horizon none = refl
  map-null_horizon (some r) = ap some (null_horizon-clamped r)

  -- For each device of the table `devices` and each kind of its list, the view of 0010 shows the row that
  -- the view of 0008 showed, with the horizon_seconds of that row where the forecast has a crossing and
  -- NULL in its place where it has none. Of any other device or kind it shows nothing. The collation sorts no text before
  -- itself.
  pub forecasts_latest-corrected :
      (before : Collation) (d k : Text) (devices : List Device) (rows : List (ForecastRow F))
      → ((x : Text) → before x x ≡ false)
      → shown d k (forecasts_latest devices rows) ≡ (
          if in_roster d devices && is_kind k
          then Option.map null_horizon (shown d k (forecasts_latest_0008 before rows))
          else none)
  unfolding forecasts_latest_0008
  forecasts_latest-corrected before d k devices rows h =
      let old : shown d k (forecasts_latest_0008 before rows)
          ≡ Option.map clamped (newest_forecast d k rows) =
        shown-clamp_all d k _ ∙ ap (Option.map clamped) (find_row-sorted before d k rows h) in
      rw (old, map-null_horizon (newest_forecast d k rows))
        (shown-forecasts_latest d k devices rows)
