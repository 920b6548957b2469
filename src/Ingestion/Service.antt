-- ===== src/Ingestion/Service.antt =====
-- src/planter_telemetry/ingestion/service.py: run, as a step function. The environment's choices
-- (messages that arrive, a stop request, connections that fail, the fates of statements) are the
-- steps' inputs, so a run is any list of inputs. Clocks and log lines are left out.
use planter_telemetry.Prelude.Floats.{lit, Floats}
use planter_telemetry.Contract.Reading.{Pydantic}
use planter_telemetry.Ingestion.Core.{PyText}
use planter_telemetry.Ingestion.Session.{
  flush_failed, backoff_over, subscribe_failed, subscribe_made, connect_failed, connect_made,
  backing_off, connecting, lose_broker, request_stop, flushing, min_ms, advance, waiting, replaying,
  draining, arrive, consuming, subscribing, closed, give_up, State, Input, loop_test, Settings,
  fail_broker, after_flush, is_listening, after_handle, tear_down, Phase,
}
use planter_telemetry.Prelude.{◌*◌, true, not, false, ◌&&◌, [], ◌++◌, ◌∷◌, if◌then◌else◌, List}
use planter_telemetry.Ingestion.Db.{Fate}
use planter_telemetry.Ingestion.Handle.{handle_one, Item}
pub mod Loss
pub mod StopInReplay
pub mod Flags

module _ {F : Type 0} where
  -- What the environment's other choices do; one that the phase does not allow does nothing.
  unfoldable pub react : Settings → Phase → Input → State F → State F
  unfolding fail_broker loop_test give_up
  react settings connecting connect_made s = record s {
    phase = subscribing;
    health = record { broker_connected = false; db_connected = true };
  }
  react settings connecting connect_failed s = fail_broker s
  react settings subscribing subscribe_made s = record s {
    phase = replaying;
    health = record { broker_connected = true; db_connected = true };
    backoff = settings.reconnect_initial;
  }
  react settings subscribing subscribe_failed s = fail_broker s
  react settings backing_off backoff_over s =
      loop_test (record s { backoff = min_ms (s.backoff * 2) settings.reconnect_max })
  react settings flushing flush_failed s = give_up s
  react settings _ _ s = s

module _ {F : Type 0} ⦃fl : Floats F⦄ (pd : Pydantic F) (py : PyText) where
  -- `await _handle_one(item, writer, counters, latest)` inside the session
  unfoldable pub handle_in : Phase → Item → List Fate → State F → State F
  unfolding after_handle
  handle_in next item fates s =
      let (res, w) = handle_one pd py item (record (s.world) { fates = fates }) in
      after_handle item next res (record s { world = w })

  unfoldable pub handle_flush : Item → List Fate → State F → State F
  unfolding after_flush
  handle_flush item fates s =
      let (res, w) = handle_one pd py item (record (s.world) { fates = fates }) in
      after_flush item res (record s { world = w })

  -- a message is taken off the client's queue and handled
  unfoldable pub take_message : Phase → Item → List Item → List Fate → State F → State F
  unfolding handle_in
  take_message next item rest fates s =
      handle_in next item fates (record s { messages = rest; pending = s.pending ++ item ∷ [] })

  -- `while pending and not stop.is_set()`
  unfoldable pub replay_step : List Item → List Fate → State F → State F
  unfolding handle_in
  replay_step [] fates s = record s { phase = consuming }
  replay_step (item ∷ rest) fates s =
      if s.stop then record s { phase = draining } else handle_in replaying item fates s

  -- _next_message: a queued message wins over a lost broker, and that over a stop
  unfoldable pub wait_step : List Item → List Fate → State F → State F
  unfolding take_message fail_broker
  wait_step (item ∷ rest) fates s = take_message consuming item rest fates s
  wait_step [] fates s =
      if s.broker_lost then fail_broker s else if s.stop then record s { phase = draining } else s

  -- `while len(messages) > 0`
  unfoldable pub drain_step : List Item → List Fate → State F → State F
  unfolding take_message tear_down loop_test
  drain_step (item ∷ rest) fates s = take_message draining item rest fates s
  drain_step [] fates s = loop_test (tear_down s)

  unfoldable pub flush_step : List Item → List Fate → State F → State F
  unfolding handle_flush
  flush_step [] fates s = record s { phase = closed }
  flush_step (item ∷ rest) fates s = handle_flush item fates s

  unfoldable pub advance_in : Phase → List Fate → State F → State F
  unfolding replay_step wait_step drain_step flush_step
  advance_in replaying fates s = replay_step s.pending fates s
  advance_in consuming fates s =
      if s.stop then record s { phase = draining } else record s { phase = waiting }
  advance_in waiting fates s = wait_step s.messages fates s
  advance_in draining fates s = drain_step s.messages fates s
  advance_in flushing fates s = flush_step s.pending fates s
  advance_in _ fates s = s

  unfoldable pub step : Settings → Input → State F → State F
  unfolding is_listening advance_in react
  step settings (arrive item) s =
      if is_listening s.phase && not s.broker_lost
      then record s { messages = s.messages ++ item ∷ []; acked = s.acked ++ item ∷ [] }
      else s
  step settings request_stop s = record s { stop = true }
  step settings lose_broker s = if is_listening s.phase then record s { broker_lost = true } else s
  step settings (advance fates) s = advance_in s.phase fates s
  step settings input s = react settings s.phase input s

  unfoldable pub run : Settings → List Input → State F → State F
  unfolding step
  run settings [] s = s
  run settings (input ∷ inputs) s = run settings inputs (step settings input s)
