-- ===== src/Simulator/Publisher/Run.antt =====
-- src/planter_telemetry/simulator/publisher.py: run, behind connect_with_retry. The clock, the answers of
-- the MQTT client and of the file system, and the signals are the input; the fields of the logs are left
-- out.
pub mod Sound
use planter_telemetry.Simulator.Stream.{Emission}
use planter_telemetry.Simulator.Wire.{WireCodec, payload_of}
use planter_telemetry.Contract.Reading.{Bytes}
use planter_telemetry.Contract.Topic.{telemetry_topic}
use planter_telemetry.Prelude.Time.{instant_sub}
use planter_telemetry.Prelude.Floats.{Floats, lit}
use planter_telemetry.Prelude.{ℕ, Bool, true, false, if◌then◌else◌, List, [], ◌∷◌, ◌++◌, Text, ◌+◌}

-- When the KeyboardInterrupt comes: never, in the sleep, or behind the publish.
pub data Interrupt : Type 0 where
  never sleeping reporting : Interrupt

-- What the loop's body meets at one emission.
pub record Moment (F : Type 0) : Type 0 where
  -- time.monotonic() - wall_start
  pub elapsed : F
  pub interrupt : Interrupt
  -- result.rc == mqtt.MQTT_ERR_SUCCESS
  pub accepted : Bool
  pub is_connected : Bool
  -- touch() raises no OSError
  pub touches : Bool

-- What run has done: the sleeps and the calls of publish, in order, the times the heartbeat file was
-- touched, the warnings and the lines "publish" of the log, and whether the client was stopped and
-- disconnected.
pub record Publishing (F : Type 0) : Type 0 where
  pub sleeps : List F
  pub published : List (Text × Bytes)
  pub heartbeats : ℕ
  pub heartbeat_warned : Bool
  pub heartbeat_failed : ℕ
  pub publish_failed : ℕ
  pub publish_logged : ℕ
  pub is_closed : Bool

module _ {F : Type 0} where
  abbrev pub nothing_done : Publishing F
  nothing_done = record {
    sleeps = [];
    published = [];
    heartbeats = 0;
    heartbeat_warned = false;
    heartbeat_failed = 0;
    publish_failed = 0;
    publish_logged = 0;
    is_closed = false;
  }

  abbrev pub warn_once : Bool → Publishing F → Publishing F
  warn_once true s = s
  warn_once false s = record s {
    heartbeat_warned = true;
    heartbeat_failed = s.heartbeat_failed + 1;
  }

  -- beat
  unfoldable pub beat : Bool → Publishing F → Publishing F
  beat true s = record s { heartbeats = s.heartbeats + 1 }
  beat false s = warn_once s.heartbeat_warned s

  abbrev beat_if : Bool → Bool → Publishing F → Publishing F
  beat_if true touches s = beat touches s
  beat_if false touches s = s

  -- behind the call of publish
  unfoldable pub report : Bool → Bool → Bool → Publishing F → Publishing F
  unfolding beat
  report false is_connected touches s = record s { publish_failed = s.publish_failed + 1 }
  report true is_connected touches s =
      let s' = beat_if is_connected touches s in
      record s' { publish_logged = s'.publish_logged + 1 }

  -- the finally block
  abbrev close : Publishing F → Publishing F
  close s = record s { is_closed = true }

module _ {F : Type 0} ⦃fl : Floats F⦄ (acceleration : F) (anchor : ℕ) where
  -- wall_target - (time.monotonic() - wall_start)
  unfoldable pub sleep_for : Emission F → F → F
  sleep_for e elapsed =
      fl.sub (fl.div (fl.total_seconds (instant_sub e.publish_at anchor)) acceleration) elapsed

  unfoldable pub pace : Emission F → F → Publishing F → Publishing F
  unfolding sleep_for
  pace e elapsed s =
      let seconds = sleep_for e elapsed in
      if fl.lt (lit 0) seconds then record s { sleeps = s.sleeps ++ seconds ∷ [] } else s

module _ {F V : Type 0} (w : WireCodec F V) where
  abbrev pub message : Emission F → Text × Bytes
  message e = (telemetry_topic e.reading.device_id, payload_of w e)

  unfoldable pub publish : Emission F → Publishing F → Publishing F
  unfolding payload_of
  publish e s = record s { published = s.published ++ message e ∷ [] }

module _ {F V : Type 0} ⦃fl : Floats F⦄ (w : WireCodec F V) (acceleration : F) (anchor : ℕ) where
  -- the body for one emission, and the rest of the loop
  abbrev pub turn :
      Emission F
      → Moment F
      → Interrupt
      → (Publishing F → Publishing F)
      → Publishing F
      → Publishing F
  turn e m never rest s = rest (
      report m.accepted m.is_connected m.touches
        (publish w e (pace acceleration anchor e m.elapsed s)))
  turn e m sleeping rest s = pace acceleration anchor e m.elapsed s
  turn e m reporting rest s = publish w e (pace acceleration anchor e m.elapsed s)

  -- `for emission in build_streams(settings, anchor)`, as far as the moments go
  unfoldable pub publish_loop : List (Emission F) → List (Moment F) → Publishing F → Publishing F
  unfolding pace publish report
  publish_loop [] moments s = s
  publish_loop (e ∷ emissions) [] s = s
  publish_loop (e ∷ emissions) (m ∷ moments) s =
      turn e m m.interrupt (publish_loop emissions moments) s

  -- run, from the first heartbeat to the finally block
  unfoldable pub run_publisher : Bool → List (Emission F) → List (Moment F) → Publishing F
  unfolding publish_loop beat
  run_publisher touches emissions moments =
      close (publish_loop emissions moments (beat touches nothing_done))
