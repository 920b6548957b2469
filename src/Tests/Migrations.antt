-- ===== src/Tests/Migrations.antt =====
-- src/planter_telemetry/migrate.py and the view forecasts_latest at concrete inputs.
use planter_telemetry.Migrations.Startup.{Attempt, wait_for_db, wait_for_db-Ends, Ends}
use planter_telemetry.Migrations.Views.{forecasts_latest, forecasts_latest_0008}
use planter_telemetry.Migrations.Views.Shown.{shown, in_roster, is_kind}
use planter_telemetry.Migrations.Views.Agree.{null_horizon, forecasts_latest-corrected}
use planter_telemetry.Migrations.Views.Written.{shown_judgement, shown-insert_forecast}
use planter_telemetry.Analytics.Store.{ForecastRow, forecast_row, insert_forecast, status_value}
use planter_telemetry.Ingestion.Db.{Device}
use planter_telemetry.Tests.Fixtures.{milli, pot}
use planter_telemetry.Tests.Window.{by_first, by_first-irreflexive}
use planter_telemetry.Tests.Pass.{first_run}
use planter_telemetry.Tests.Analytics.{soon}
use planter_telemetry.Prelude.Int.{ℤ}
use mathlib.Core.Option
use planter_telemetry.Prelude.{
  ◌*◌, text_eq, ◌+◌, true, if◌then◌else◌, List, [], ◌∷◌, none, some, text, ok, raised,
  operational_error, refl, ◌≡◌, ◌&&◌, arith,
}

-- the server is up at the third attempt
abbrev attempts : List Attempt
attempts =
    record { connects = raised operational_error; now = 10 }
    ∷ record { connects = raised operational_error; now = 600 }
    ∷ record { connects = ok tt; now = 1200 }
    ∷ []

wait_for_db-Ends_example : Ends (0 + 800) (wait_for_db 0 800 attempts) attempts
wait_for_db-Ends_example =
    wait_for_db-Ends 0 800 attempts (omega arith, (omega arith, (omega arith, tt))) (omega arith)

abbrev roster : List Device
roster = record { device_id = pot; first_seen = 3; last_seen = 4 } ∷ []

-- a forecast, and a newer one without a crossing
abbrev history : List (ForecastRow ℤ)
history = forecast_row pot 5 soon ∷ record (forecast_row pot 7 soon) { crosses_at = none } ∷ []

forecasts_latest-corrected_example : shown pot (text "water") (forecasts_latest roster history) ≡ (
    if in_roster pot roster && is_kind (text "water")
    then Option.map null_horizon (shown pot (text "water") (forecasts_latest_0008 by_first history))
    else none)
forecasts_latest-corrected_example =
    forecasts_latest-corrected by_first pot (text "water") roster history by_first-irreflexive

pot-in_roster : in_roster pot roster ≡ true
unfolding in_roster text_eq
pot-in_roster = refl

soon-is_kind : is_kind soon.kind ≡ true
unfolding text_eq
soon-is_kind = refl

shown-insert_forecast_example :
    shown_judgement (
      shown pot soon.kind
        (forecasts_latest roster (insert_forecast pot soon first_run.tables).1.forecasts))
    ≡ some (90 * 3600000000, status_value soon.status)
shown-insert_forecast_example =
    shown-insert_forecast pot soon (90 * 3600000000) roster first_run.tables refl pot-in_roster
      soon-is_kind tt
