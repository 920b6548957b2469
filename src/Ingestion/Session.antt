-- ===== src/Ingestion/Session.antt =====
-- src/planter_telemetry/ingestion/service.py: the state of run, and what its handlers of exceptions,
-- its `finally` clauses and its loops' tests do to it.
pub mod Safe
use planter_telemetry.Ingestion.Db.{Fate, World}
use planter_telemetry.Ingestion.Handle.{Item}
use planter_telemetry.Prelude.Results.{overflow_error, mqtt_error, operational_error}
use planter_telemetry.Prelude.{
  raised, ok, false, ◌∷◌, ltb, Result, true, length, ◌++◌, [], ℕ, Bool, List, if◌then◌else◌, Exn,
}

-- Where `run` stands. `consuming` is the test of `while not stop.is_set()`, and `waiting` the wait
-- in _next_message.
pub data Phase : Type 0 where
  connecting subscribing replaying consuming waiting draining backing_off flushing closed : Phase
  -- an exception that nothing catches has ended the service
  crashed : Exn → Phase

pub record Settings : Type 0 where
  -- reconnect_initial_seconds and reconnect_max_seconds, in milliseconds
  pub reconnect_initial : ℕ
  pub reconnect_max : ℕ

pub record Health : Type 0 where
  pub broker_connected : Bool
  pub db_connected : Bool

pub record State (F : Type 0) : Type 0 where
  pub phase : Phase
  pub world : World F
  -- messages that the broker has been told are delivered, and that are not in the database yet
  pub pending : List Item
  -- the queue inside the MQTT client
  pub messages : List Item
  pub stop : Bool
  pub broker_lost : Bool
  pub backoff : ℕ
  pub health : Health
  -- the count of acked_messages_dropped
  pub dropped : ℕ
  -- no variables of the program: every message acked so far, and those that _handle_one finished
  pub acked : List Item
  pub settled : List Item

pub data Input : Type 0 where
  -- the client buffers a message, which acknowledges it
  arrive : Item → Input
  request_stop : Input
  lose_broker : Input
  -- Writer.connect and the MQTT connection: made, or failed
  connect_made connect_failed : Input
  subscribe_made subscribe_failed : Input
  -- the program runs on, and its statements meet these fates
  advance : List Fate → Input
  -- the wait of the backoff is over
  backoff_over : Input
  -- the final flush does not connect, or runs out of time
  flush_failed : Input

abbrev pub min_ms : ℕ → ℕ → ℕ
min_ms a b = if ltb b a then b else a

abbrev pub pop : List Item → List Item
pop [] = []
pop (p ∷ ps) = ps

-- an MQTT client exists, so messages can arrive
unfoldable pub is_listening : Phase → Bool
is_listening subscribing = true
is_listening replaying = true
is_listening consuming = true
is_listening waiting = true
is_listening draining = true
is_listening _ = false

module _ {F : Type 0} where
  -- the service as `run` enters its loop, over a database
  unfoldable pub start : Settings → World F → State F
  start settings w = record {
    phase = connecting;
    world = w;
    pending = [];
    messages = [];
    stop = false;
    broker_lost = false;
    backoff = settings.reconnect_initial;
    health = record { broker_connected = false; db_connected = false };
    dropped = 0;
    acked = [];
    settled = [];
  }

  -- `if pending:` behind the loop
  unfoldable pub leave_loop : State F → State F
  leave_loop s = record s { phase = elim s.pending [ [] ↦ closed | p ∷ ps ↦ flushing ] }

  -- `while not stop.is_set()` of the reconnect loop
  unfoldable pub loop_test : State F → State F
  unfolding leave_loop
  loop_test s = if s.stop then leave_loop s else record s { phase = connecting }

  -- the inner `finally`: both flags drop, and the client goes with its queue
  unfoldable pub tear_down : State F → State F
  tear_down s = record s {
    messages = [];
    broker_lost = false;
    health = record { broker_connected = false; db_connected = false };
  }

  -- `except (aiomqtt.MqttError, psycopg.OperationalError)`
  unfoldable pub caught : State F → State F
  unfolding leave_loop
  caught s = if s.stop then leave_loop s else record s { phase = backing_off }

  -- an MqttError
  unfoldable pub fail_broker : State F → State F
  unfolding tear_down caught
  fail_broker s = caught (tear_down s)

  -- _salvage_queue
  unfoldable pub salvage_queue : State F → State F
  salvage_queue s = record s { pending = s.pending ++ s.messages; messages = [] }

  -- an OperationalError while messages are handled
  unfoldable pub fail_database : State F → State F
  unfolding salvage_queue tear_down caught
  fail_database s = caught (tear_down (salvage_queue s))

  -- what follows the call of _handle_one: `pending.popleft()`, or the exception's way out
  unfoldable pub after_handle : Item → Phase → Result (Unit {0}) → State F → State F
  unfolding fail_database fail_broker
  after_handle item next (ok u) s = record s {
    phase = next;
    pending = pop s.pending;
    settled = s.settled ++ item ∷ [];
  }
  after_handle item next (raised operational_error) s = fail_database s
  after_handle item next (raised mqtt_error) s = fail_broker s
  after_handle item next (raised overflow_error) s = record (tear_down s) {
    phase = crashed overflow_error;
  }

  -- `logger.error("acked_messages_dropped", extra={"count": len(pending)})`
  unfoldable pub give_up : State F → State F
  give_up s = record s { phase = closed; dropped = length s.pending }

  unfoldable pub after_flush : Item → Result (Unit {0}) → State F → State F
  unfolding give_up
  after_flush item (ok u) s = record s { pending = pop s.pending; settled = s.settled ++ item ∷ [] }
  after_flush item (raised e) s = give_up s
