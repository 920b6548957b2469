-- ===== src/Ingestion/Health.antt =====
-- src/planter_telemetry/ingestion/ops.py: the answer of /healthz, over the service's flags and
-- counters.
use planter_telemetry.Prelude.Floats.{Floats}
use planter_telemetry.Prelude.{
  arith, ◌||◌, ◌≤◌, text, List, if◌then◌else◌, false, ◌&&◌, ◌≡◌, ℕ, true, Bool, Text,
}
use planter_telemetry.Ingestion.Db.{greatest, World, Counters}
use planter_telemetry.Contract.Reading.{Pydantic}
use planter_telemetry.Ingestion.Service.Flags.{start-Sound, run-Sound, Sound}
use planter_telemetry.Ingestion.Core.{PyText}
use planter_telemetry.Ingestion.Service.{run}
use planter_telemetry.Ingestion.Session.{
  start, draining, subscribing, Input, waiting, consuming, replaying, Settings, Health, Phase,
}

pub record HealthzBody : Type 0 where
  pub status : Text
  pub broker_connected : Bool
  pub db_connected : Bool
  pub counters : Counters

-- healthz_payload
unfoldable pub healthz_payload : Health → Counters → ℕ × HealthzBody
healthz_payload health counters =
    let healthy = health.broker_connected && health.db_connected in
    (
      if healthy then 200 else 503,
      record {
        status = if healthy then text "healthy" else text "unhealthy";
        broker_connected = health.broker_connected;
        db_connected = health.db_connected;
        counters = counters;
      },
    )

-- The service is inside its session: it has subscribed, and its connections are not torn down.
unfoldable pub in_session : Phase → Bool
in_session replaying = true
in_session consuming = true
in_session waiting = true
in_session draining = true
in_session _ = false

-- Writer.connect has been made, and the session has not begun.
abbrev is_subscribing : Phase → Bool
is_subscribing subscribing = true
is_subscribing _ = false

-- The answer of /healthz in a phase.
abbrev pub IsHealthz : Phase → ℕ × HealthzBody → Type 0
IsHealthz phase answer =
    (answer.0 ≡ (if in_session phase then 200 else 503))
    × (answer.1.status ≡ (if in_session phase then text "healthy" else text "unhealthy"))
    × (answer.1.broker_connected ≡ in_session phase)
    × (answer.1.db_connected ≡ (in_session phase || is_subscribing phase))

module _ {F : Type 0} ⦃fl : Floats F⦄ (pd : Pydantic F) (py : PyText) where
  sound :
      (settings : Settings) (w : World F) (inputs : List Input)
      → Sound
          (greatest settings.reconnect_initial settings.reconnect_max)
          (run pd py settings inputs (start settings w))
  sound settings w inputs =
      let limit = greatest settings.reconnect_initial settings.reconnect_max in
      run-Sound pd py limit settings inputs (start settings w) (ground arith) (ground arith)
        (start-Sound limit settings w (ground arith))

  -- The wait before a reconnection never exceeds the larger of the two configured delays.
  backoff_of_run :
      (settings : Settings) (w : World F) (inputs : List Input)
      → (run pd py settings inputs (start settings w)).backoff
        ≤ greatest settings.reconnect_initial settings.reconnect_max
  backoff_of_run settings w inputs = (sound settings w inputs).1
