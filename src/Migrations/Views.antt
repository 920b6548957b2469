-- ===== src/Migrations/Views.antt =====
-- src/planter_telemetry/migrations/versions/0008_forecasts.py and 0010_forecasts_latest_fix.py: the
-- view forecasts_latest, as 0008 creates it and as 0010 replaces it. The column computed_at is left out.
pub mod Newest
pub mod Distinct
pub mod Shown
pub mod Agree
pub mod Written
use planter_telemetry.Ingestion.Db.{Device}
use planter_telemetry.Analytics.Window.{Collation}
use planter_telemetry.Analytics.Store.{ForecastRow}
use planter_telemetry.Prelude.{
  ◌++◌, ◌&&◌, text_eq, text, ltb, if◌then◌else◌, Text, Bool, Option, none, some, List, [], ◌∷◌, ℕ,
}
use planter_telemetry.Prelude.Int.{ℤ, pos, negsuc}
use planter_telemetry.Prelude.Time.{instant_sub}
use planter_telemetry.Prelude.Floats.{Floats}

-- a row of the view
pub record LatestForecast (F : Type 0) : Type 0 where
  pub forecast : ForecastRow F
  pub horizon_seconds : Option F

-- greatest(x, 0)
abbrev at_least_zero : ℤ → ℤ
at_least_zero (pos n) = pos n
at_least_zero (negsuc n) = pos 0

module _ {F : Type 0} where
  -- device_id = d AND kind = k
  unfoldable pub is_forecast_of : Text → Text → ForecastRow F → Bool
  is_forecast_of d k r = text_eq r.device_id d && text_eq r.kind k

  unfoldable pub forecasts_of : Text → Text → List (ForecastRow F) → List (ForecastRow F)
  unfolding is_forecast_of
  forecasts_of d k [] = []
  forecasts_of d k (r ∷ rows) =
      let rest = forecasts_of d k rows in if is_forecast_of d k r then r ∷ rest else rest

  -- ORDER BY as_of DESC
  unfoldable pub insert_newest : ForecastRow F → List (ForecastRow F) → List (ForecastRow F)
  insert_newest r [] = r ∷ []
  insert_newest r (q ∷ rows) =
      if ltb r.as_of q.as_of then q ∷ insert_newest r rows else r ∷ q ∷ rows

  unfoldable pub newest_first : List (ForecastRow F) → List (ForecastRow F)
  unfolding insert_newest
  newest_first [] = []
  newest_first (r ∷ rows) = insert_newest r (newest_first rows)

  -- a stable sort by a column of text, in the order of the database's collation
  unfoldable pub insert_by :
      (ForecastRow F → Text)
      → Collation
      → ForecastRow F
      → List (ForecastRow F)
      → List (ForecastRow F)
  insert_by column before r [] = r ∷ []
  insert_by column before r (q ∷ rows) =
      if before (column q) (column r) then q ∷ insert_by column before r rows else r ∷ q ∷ rows

  unfoldable pub sort_by :
      (ForecastRow F → Text) → Collation → List (ForecastRow F) → List (ForecastRow F)
  unfolding insert_by
  sort_by column before [] = []
  sort_by column before (r ∷ rows) = insert_by column before r (sort_by column before rows)

  unfoldable pub others_than : Text → Text → List (ForecastRow F) → List (ForecastRow F)
  unfolding is_forecast_of
  others_than d k [] = []
  others_than d k (r ∷ rows) =
      let rest = others_than d k rows in if is_forecast_of d k r then rest else r ∷ rest

  -- DISTINCT ON (device_id, kind): the first row of each
  unfoldable pub distinct_on : List (ForecastRow F) → List (ForecastRow F)
  unfolding others_than
  distinct_on [] = []
  distinct_on (r ∷ rows) = r ∷ others_than r.device_id r.kind (distinct_on rows)

  -- LIMIT 1
  abbrev pub first_row : List (ForecastRow F) → Option (ForecastRow F)
  first_row [] = none
  first_row (r ∷ rows) = some r

  -- the subquery of the CROSS JOIN LATERAL
  unfoldable pub newest_forecast : Text → Text → List (ForecastRow F) → Option (ForecastRow F)
  unfolding newest_first forecasts_of
  newest_forecast d k rows = first_row (newest_first (forecasts_of d k rows))

module _ {F : Type 0} ⦃fl : Floats F⦄ where
  -- greatest(EXTRACT(EPOCH FROM (crosses_at - as_of)), 0), which ignores a NULL
  abbrev pub greatest_horizon : Option ℕ → ℕ → F
  greatest_horizon none as_of = fl.total_seconds (pos 0)
  greatest_horizon (some crosses_at) as_of =
      fl.total_seconds (at_least_zero (instant_sub crosses_at as_of))

  -- CASE WHEN crosses_at IS NULL THEN NULL ELSE greatest(...) END
  abbrev pub horizon_or_null : Option ℕ → ℕ → Option F
  horizon_or_null none as_of = none
  horizon_or_null (some crosses_at) as_of = some (greatest_horizon (some crosses_at) as_of)

  abbrev pub clamped : ForecastRow F → LatestForecast F
  clamped r = record {
    forecast = r;
    horizon_seconds = some (greatest_horizon r.crosses_at r.as_of);
  }

  abbrev pub with_horizon : ForecastRow F → LatestForecast F
  with_horizon r = record { forecast = r; horizon_seconds = horizon_or_null r.crosses_at r.as_of }

  unfoldable pub clamp_all : List (ForecastRow F) → List (LatestForecast F)
  clamp_all [] = []
  clamp_all (r ∷ rows) = clamped r ∷ clamp_all rows

  -- forecasts_latest of 0008: ORDER BY device_id, kind, as_of DESC, by the least significant key first
  unfoldable pub forecasts_latest_0008 : Collation → List (ForecastRow F) → List (LatestForecast F)
  unfolding newest_first sort_by distinct_on clamp_all
  forecasts_latest_0008 before rows = clamp_all (
      distinct_on
        (sort_by (λ r. r.device_id) before (sort_by (λ r. r.kind) before (newest_first rows))))

  abbrev pub joined : Option (ForecastRow F) → List (LatestForecast F) → List (LatestForecast F)
  joined none rest = rest
  joined (some r) rest = with_horizon r ∷ rest

  -- forecasts_latest of 0010
  unfoldable pub forecasts_latest : List Device → List (ForecastRow F) → List (LatestForecast F)
  unfolding newest_forecast
  forecasts_latest [] rows = []
  forecasts_latest (d ∷ devices) rows =
      joined (newest_forecast d.device_id (text "water") rows)
        (joined (newest_forecast d.device_id (text "battery") rows) (forecasts_latest devices rows))
