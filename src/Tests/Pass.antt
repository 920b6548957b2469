-- ===== src/Tests/Pass.antt =====
-- src/planter_telemetry/analytics/service.py and db.py at concrete inputs.
use planter_telemetry.Analytics.Decision.Rerun.{handle_alert_again, Quiet}
use planter_telemetry.Tests.Fixtures.{milli, pot}
use planter_telemetry.Analytics.Decision.{Settings, handle_alert, Run}
use planter_telemetry.Analytics.Alert.{horizon_seconds, firing, alert_transition}
use planter_telemetry.Prelude.Int.{◌*ℤ◌, pos, ℤ}
use planter_telemetry.Analytics.Model.{stale, Forecast, water}
use planter_telemetry.Prelude.{◌∷◌, ◌*◌, refl, text, true, some, none, [], ◌≡◌}
use planter_telemetry.Prelude.Floats.{lit}
use planter_telemetry.Tests.Analytics.{soon}

abbrev pub settings : Settings ℤ
settings = record {
  water_target_pct = pos 10000;
  battery_target_volts = pos 3400;
  water_alert_days = pos 2000;
  battery_alert_days = pos 3000;
  alert_cooldown_hours = pos 24000;
  notifies = true;
}

-- nothing is written yet, and the first push fails
abbrev pub first_run : Run ℤ
first_run = record {
  tables = record { forecasts = []; alert_events = []; next_id = 1 };
  counters = record {
    forecasts_written = 0;
    alerts_fired = 0;
    alerts_cleared = 0;
    notify_failures = 0;
  };
  pushed = [];
  answers = some (text "TimeoutError") ∷ [];
}

soon-fires :
    alert_transition soon water none (milli.mul (pos 24000) (lit 3600)) (milli.ratio 15 10)
    ≡ some firing
unfolding alert_transition horizon_seconds water ◌*ℤ◌
soon-fires = refl

handle_alert_again_example :
    let s' = handle_alert settings pot water soon none first_run in
    Quiet s' (
      handle_alert settings pot water soon
        (some (record { state = firing; as_of = 90 * 3600000000 }))
        s')
handle_alert_again_example =
    handle_alert_again settings pot water soon none firing
      (some (record { state = firing; as_of = 90 * 3600000000 })) first_run soon-fires

-- the device went dark at the same watermark
abbrev dark : Forecast ℤ
dark = record soon { status = stale; crosses_at = none }
