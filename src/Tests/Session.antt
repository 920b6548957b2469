-- ===== src/Tests/Session.antt =====
-- src/planter_telemetry/ingestion/service.py: runs of the service at concrete inputs.
use planter_telemetry.Ingestion.Service.Loss.{no_silent_loss, CleanRun}
use planter_telemetry.Ingestion.Service.StopInReplay.{stop_in_replay_loses, IsLost, IsAbsent}
use mathlib.Core.Path.{subst}
use planter_telemetry.Prelude.Int.{ℤ}
use planter_telemetry.Ingestion.Session.Safe.{Safe}
use planter_telemetry.Ingestion.Handle.{handle_one, Item}
use planter_telemetry.Ingestion.Session.{
  request_stop, backoff_over, arrive, subscribe_made, State, replaying, connect_made, advance,
  Input, start,
}
use planter_telemetry.Prelude.{
  arith, ap, length, text_eq, true, sym, ◌≢◌, refl, ok, ◌∷◌, ◌≡◌, [], text, List,
}
use planter_telemetry.Ingestion.Service.{step, run}
use planter_telemetry.Ingestion.Db.{insert_row, has_key, cut, answered}
use planter_telemetry.Ingestion.Core.{classify}
use planter_telemetry.Contract.Topic.{is_device_id, device_id_from_topic}
use planter_telemetry.Contract.Reading.{validate_parsed, validate_json}
use planter_telemetry.Prelude.Time.{instant_add}
use planter_telemetry.Prelude.Int.{◌-ℤ◌}
use planter_telemetry.Tests.Fixtures.{
  milli, pot_topic, three_bytes, five_oclock, plain, empty_world, quick,
}

abbrev message : Item
message = (pot_topic, five_oclock)

-- A message arrives, its insert fails, the service reconnects, replays it, and stops.
abbrev rough_day : List Input
rough_day =
    connect_made
    ∷ subscribe_made
    ∷ advance []
    ∷ advance []
    ∷ arrive message
    ∷ advance (answered ∷ cut ∷ [])
    ∷ backoff_over
    ∷ connect_made
    ∷ subscribe_made
    ∷ advance []
    ∷ advance []
    ∷ advance []
    ∷ request_stop
    ∷ advance []
    ∷ advance []
    ∷ []

rough_day-CleanRun : CleanRun three_bytes plain quick rough_day (start quick empty_world)
unfolding step start classify device_id_from_topic handle_one text_eq is_device_id validate_json
    instant_add ◌-ℤ◌ validate_parsed has_key insert_row
rough_day-CleanRun = (
  tt,
  (
    tt,
    (
      (λ h. cc),
      (tt, (tt, (tt, (tt, (tt, (tt, ((λ h. cc), ((λ h. cc), (tt, (tt, (tt, (tt, tt)))))))))))),
    ),
  ),
)

no_silent_loss_example :
    let s = run three_bytes plain quick rough_day (start quick empty_world) in Safe s.phase s
no_silent_loss_example =
    no_silent_loss three_bytes plain quick empty_world rough_day rough_day-CleanRun

abbrev foreign_message : Item
foreign_message = (text "planter", five_oclock)

-- A message arrives, its insert fails, and the service reconnects. Another message arrives, and a stop
-- is requested before the first one is replayed.
abbrev early_stop : List Input
early_stop =
    connect_made
    ∷ subscribe_made
    ∷ advance []
    ∷ advance []
    ∷ arrive message
    ∷ advance (answered ∷ cut ∷ [])
    ∷ backoff_over
    ∷ connect_made
    ∷ arrive foreign_message
    ∷ subscribe_made
    ∷ request_stop
    ∷ []

early_stop-CleanRun : CleanRun three_bytes plain quick early_stop (start quick empty_world)
unfolding step start classify device_id_from_topic handle_one text_eq is_device_id validate_json
    instant_add ◌-ℤ◌ validate_parsed has_key insert_row
early_stop-CleanRun = (tt, (tt, ((λ h. cc), (tt, (tt, (tt, (tt, (tt, (tt, (tt, (tt, tt)))))))))))

abbrev stopped : State ℤ
stopped = run three_bytes plain quick early_stop (start quick empty_world)

stopped_state :
    (stopped.phase ≡ replaying)
    × (stopped.stop ≡ true)
    × (stopped.pending ≡ message ∷ [])
    × (stopped.messages ≡ foreign_message ∷ [])
    × (stopped.settled ≡ [])
    × ((handle_one three_bytes plain foreign_message (record (stopped.world) { fates = [] })).0
        ≡ ok tt)
unfolding run start classify device_id_from_topic handle_one text_eq is_device_id validate_json
    instant_add ◌-ℤ◌ validate_parsed has_key insert_row
stopped_state = (refl, refl, refl, refl, refl, refl)

foreign-apart : foreign_message ≢ message
foreign-apart e =
    let lengths : length foreign_message.0 ≡ length message.0 = ap (λ (x : Item). length x.0) e in
    absurd (omega arith)

stop_in_replay_loses_example :
    IsLost message (run three_bytes plain quick (advance [] ∷ advance [] ∷ advance [] ∷ []) stopped)
stop_in_replay_loses_example =
    stop_in_replay_loses three_bytes plain quick empty_world early_stop message foreign_message []
      [] early_stop-CleanRun stopped_state.0 stopped_state.1 stopped_state.2 stopped_state.3
      stopped_state.5 foreign-apart tt (subst (IsAbsent message) (sym stopped_state.4) tt)
