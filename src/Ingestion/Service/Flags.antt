-- ===== src/Ingestion/Service/Flags.antt =====
-- src/planter_telemetry/ingestion/service.py: the health flags and the backoff over a whole run.
use planter_telemetry.Prelude.{
  not, ◌&&◌, ◌++◌, [], ◌∷◌, ◌*◌, List, raised, refl, ok, Result, true, ◌≡◌, ◌≤◌, false, arith,
  if◌then◌else◌, Bool, ℕ,
}
use planter_telemetry.Ingestion.Handle.{handle_one, Item}
use planter_telemetry.Prelude.Results.{overflow_error, mqtt_error, operational_error}
use planter_telemetry.Prelude.Floats.{Floats}
use planter_telemetry.Ingestion.Service.{
  handle_flush, handle_in, replay_step, flush_step, wait_step, run, take_message, step, advance_in,
  drain_step, react,
}
use planter_telemetry.Contract.Reading.{Pydantic}
use planter_telemetry.Ingestion.Db.{Fate, World}
use planter_telemetry.Ingestion.Core.{PyText}
use planter_telemetry.Ingestion.Session.{
  flush_failed, backoff_over, subscribe_failed, lose_broker, request_stop, subscribe_made, advance,
  connect_failed, connect_made, backing_off, is_listening, connecting, arrive, min_ms, Input,
  Settings, start, draining, waiting, consuming, replaying, flushing, salvage_queue, subscribing,
  closed, tear_down, caught, fail_broker, leave_loop, fail_database, after_handle, loop_test,
  after_flush, State, Health, Phase,
}

-- The flags that a phase stands for: both in a session, the database's alone while it subscribes.
abbrev pub flags_of : Phase → Health
flags_of subscribing = record { broker_connected = false; db_connected = true }
flags_of replaying = record { broker_connected = true; db_connected = true }
flags_of consuming = record { broker_connected = true; db_connected = true }
flags_of waiting = record { broker_connected = true; db_connected = true }
flags_of draining = record { broker_connected = true; db_connected = true }
flags_of _ = record { broker_connected = false; db_connected = false }

module _ {F : Type 0} (limit : ℕ) where
  -- The flags are those of the phase, and the backoff is at most `limit`.
  abbrev pub Sound : State F → Type 0
  Sound s = (s.health ≡ flags_of s.phase) × (s.backoff ≤ limit)

  -- Outside a session: both flags are down.
  abbrev Down : State F → Type 0
  Down s = (s.health ≡ flags_of closed) × (s.backoff ≤ limit)

  if-Sound : (b : Bool) (x y : State F) → Sound x → Sound y → Sound (if b then x else y)
  if-Sound true x y hx hy = hx
  if-Sound false x y hx hy = hy

  leave_loop-Sound : (s : State F) → Down s → Sound (leave_loop s)
  unfolding leave_loop
  leave_loop-Sound s h = ground arith

  loop_test-Sound : (s : State F) → Down s → Sound (loop_test s)
  unfolding loop_test
  loop_test-Sound s h = if-Sound s.stop _ _ (leave_loop-Sound s h) h

  caught-Sound : (s : State F) → Down s → Sound (caught s)
  unfolding caught
  caught-Sound s h = if-Sound s.stop _ _ (leave_loop-Sound s h) h

  fail_broker-Sound : (s : State F) → s.backoff ≤ limit → Sound (fail_broker s)
  unfolding fail_broker
  fail_broker-Sound s h = caught-Sound (tear_down s) (refl, h)

  fail_database-Sound : (s : State F) → s.backoff ≤ limit → Sound (fail_database s)
  unfolding fail_database
  fail_database-Sound s h = caught-Sound (tear_down (salvage_queue s)) (refl, h)

  after_handle-Sound :
      (item : Item) (next : Phase) (res : Result (Unit {0})) (s : State F)
      → s.health ≡ flags_of next
      → s.backoff ≤ limit
      → Sound (after_handle item next res s)
  unfolding after_handle
  after_handle-Sound item next (ok u) s f h = (f, h)
  after_handle-Sound item next (raised operational_error) s f h = fail_database-Sound s h
  after_handle-Sound item next (raised mqtt_error) s f h = fail_broker-Sound s h
  after_handle-Sound item next (raised overflow_error) s f h = (refl, h)

  after_flush-Sound :
      (item : Item) (res : Result (Unit {0})) (s : State F)
      → s.phase ≡ flushing
      → Down s
      → Sound (after_flush item res s)
  unfolding after_flush
  after_flush-Sound item (ok u) s p h = rw p h
  after_flush-Sound item (raised e) s p h = h

  react-Sound :
      (settings : Settings) (phase : Phase) (input : Input) (s : State F)
      → settings.reconnect_initial ≤ limit
      → settings.reconnect_max ≤ limit
      → s.phase ≡ phase
      → s.health ≡ flags_of phase
      → s.backoff ≤ limit
      → Sound (react settings phase input s)
  unfolding react
  react-Sound settings connecting connect_made s i m p f h = (refl, h)
  react-Sound settings connecting connect_failed s i m p f h = fail_broker-Sound s h
  react-Sound settings subscribing subscribe_made s i m p f h = (refl, i)
  react-Sound settings subscribing subscribe_failed s i m p f h = fail_broker-Sound s h
  react-Sound settings backing_off backoff_over s i m p f h =
      loop_test-Sound (record s { backoff = min_ms (s.backoff * 2) settings.reconnect_max })
        (f, ground arith)
  react-Sound settings flushing flush_failed s i m p f h = (f, h)
  react-Sound settings _ _ s i m p f h = rw p (f, h)

module _ {F : Type 0} ⦃fl : Floats F⦄ (pd : Pydantic F) (py : PyText) (limit : ℕ) where
  handle_in-Sound :
      (next : Phase) (item : Item) (fates : List Fate) (s : State F)
      → s.health ≡ flags_of next
      → s.backoff ≤ limit
      → Sound limit (handle_in pd py next item fates s)
  unfolding handle_in
  handle_in-Sound next item fates s f h =
      let w = record (s.world) { fates = fates } in
      after_handle-Sound limit item next (handle_one pd py item w).0
        (record s { world = (handle_one pd py item w).1 }) f h

  replay_step-Sound :
      (pending : List Item) (fates : List Fate) (s : State F)
      → s.health ≡ flags_of replaying
      → s.backoff ≤ limit
      → Sound limit (replay_step pd py pending fates s)
  unfolding replay_step
  replay_step-Sound [] fates s f h = (f, h)
  replay_step-Sound (item ∷ rest) fates s f h =
      if-Sound limit s.stop _ _ (f, h) (handle_in-Sound replaying item fates s f h)

  take_message-Sound :
      (next : Phase) (item : Item) (rest : List Item) (fates : List Fate) (s : State F)
      → s.health ≡ flags_of next
      → s.backoff ≤ limit
      → Sound limit (take_message pd py next item rest fates s)
  unfolding take_message
  take_message-Sound next item rest fates s f h =
      handle_in-Sound next item fates
        (record s { messages = rest; pending = s.pending ++ item ∷ [] }) f h

  wait_step-Sound :
      (messages : List Item) (fates : List Fate) (s : State F)
      → s.phase ≡ waiting
      → s.health ≡ flags_of waiting
      → s.backoff ≤ limit
      → Sound limit (wait_step pd py messages fates s)
  unfolding wait_step
  wait_step-Sound (item ∷ rest) fates s p f h = take_message-Sound consuming item rest fates s f h
  wait_step-Sound [] fates s p f h =
      if-Sound limit s.broker_lost _ _ (fail_broker-Sound limit s h)
        (if-Sound limit s.stop _ _ (f, h) (rw p (f, h)))

  drain_step-Sound :
      (messages : List Item) (fates : List Fate) (s : State F)
      → s.health ≡ flags_of draining
      → s.backoff ≤ limit
      → Sound limit (drain_step pd py messages fates s)
  unfolding drain_step
  drain_step-Sound (item ∷ rest) fates s f h = take_message-Sound draining item rest fates s f h
  drain_step-Sound [] fates s f h = loop_test-Sound limit (tear_down s) (refl, h)

  flush_step-Sound :
      (pending : List Item) (fates : List Fate) (s : State F)
      → s.phase ≡ flushing
      → Down limit s
      → Sound limit (flush_step pd py pending fates s)
  unfolding flush_step handle_flush
  flush_step-Sound [] fates s p h = h
  flush_step-Sound (item ∷ rest) fates s p h =
      let w = record (s.world) { fates = fates } in
      after_flush-Sound limit item (handle_one pd py item w).0
        (record s { world = (handle_one pd py item w).1 }) p h

  advance_in-Sound :
      (phase : Phase) (fates : List Fate) (s : State F)
      → s.phase ≡ phase
      → s.health ≡ flags_of phase
      → s.backoff ≤ limit
      → Sound limit (advance_in pd py phase fates s)
  unfolding advance_in
  advance_in-Sound replaying fates s p f h = replay_step-Sound s.pending fates s f h
  advance_in-Sound consuming fates s p f h = if-Sound limit s.stop _ _ (f, h) (f, h)
  advance_in-Sound waiting fates s p f h = wait_step-Sound s.messages fates s p f h
  advance_in-Sound draining fates s p f h = drain_step-Sound s.messages fates s f h
  advance_in-Sound flushing fates s p f h = flush_step-Sound s.pending fates s p (f, h)
  advance_in-Sound _ fates s p f h = rw p (f, h)

  step-Sound :
      (settings : Settings) (input : Input) (s : State F)
      → settings.reconnect_initial ≤ limit
      → settings.reconnect_max ≤ limit
      → Sound limit s
      → Sound limit (step pd py settings input s)
  unfolding step
  step-Sound settings (arrive item) s i m h =
      if-Sound limit (is_listening s.phase && not s.broker_lost) _ _ h h
  step-Sound settings request_stop s i m h = h
  step-Sound settings lose_broker s i m h = if-Sound limit (is_listening s.phase) _ _ h h
  step-Sound settings (advance fates) s i m h = advance_in-Sound s.phase fates s refl h.0 h.1
  step-Sound settings _ s i m h = react-Sound limit settings s.phase _ s i m refl h.0 h.1

  pub run-Sound :
      (settings : Settings) (inputs : List Input) (s : State F)
      → settings.reconnect_initial ≤ limit
      → settings.reconnect_max ≤ limit
      → Sound limit s
      → Sound limit (run pd py settings inputs s)
  unfolding run
  run-Sound settings [] s i m h = h
  run-Sound settings (input ∷ inputs) s i m h =
      run-Sound settings inputs (step pd py settings input s) i m
        (step-Sound settings input s i m h)

pub start-Sound :
    {F : Type 0} (limit : ℕ) (settings : Settings) (w : World F)
    → settings.reconnect_initial ≤ limit
    → Sound limit (start settings w)
unfolding start
start-Sound limit settings w i = (refl, i)
