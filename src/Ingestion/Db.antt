-- ===== src/Ingestion/Db.antt =====
-- src/planter_telemetry/ingestion/db.py: class Writer, each statement as a function on the tables.
-- A statement runs on its own (autocommit), and the connection may fail at any of them.
use planter_telemetry.Prelude.{
  operational_error, ◌==◌, raised, ◌||◌, ◌&&◌, ok, text, ltb, [], not, false, text_eq, ◌++◌, ◌∷◌,
  Bool, if◌then◌else◌, Result, Text, List, ℕ,
}
use planter_telemetry.Ingestion.Core.{DeadLetter}
use planter_telemetry.Contract.Reading.{TelemetryV1}
pub mod Tables

pub record Device : Type 0 where
  pub device_id : Text
  pub first_seen : ℕ
  pub last_seen : ℕ

pub record IngestEvent : Type 0 where
  pub event : Text
  pub device_id : Text
  pub measured_at : ℕ

-- A row of `telemetry` has the columns of a reading.
pub record Db (F : Type 0) : Type 0 where
  pub telemetry : List (TelemetryV1 F)
  pub devices : List Device
  pub ingest_events : List IngestEvent
  pub dead_letters : List DeadLetter

module _ {F : Type 0} where
  abbrev pub same_key : TelemetryV1 F → TelemetryV1 F → Bool
  same_key r q = text_eq r.device_id q.device_id && (r.measured_at == q.measured_at)

  -- whether a row has the reading's (device_id, measured_at)
  unfoldable pub has_key : TelemetryV1 F → List (TelemetryV1 F) → Bool
  has_key r [] = false
  has_key r (q ∷ rows) = same_key q r || has_key r rows

  -- _INSERT_READING: ON CONFLICT (device_id, measured_at) DO NOTHING
  unfoldable pub insert_row : TelemetryV1 F → List (TelemetryV1 F) → List (TelemetryV1 F)
  insert_row r rows = if has_key r rows then rows else rows ++ r ∷ []

abbrev pub least : ℕ → ℕ → ℕ
least a b = if ltb b a then b else a

abbrev pub greatest : ℕ → ℕ → ℕ
greatest a b = if ltb a b then b else a

-- _UPSERT_DEVICE: ON CONFLICT (device_id) DO UPDATE with LEAST and GREATEST
unfoldable pub upsert_row : Text → ℕ → List Device → List Device
upsert_row d t [] = (record { device_id = d; first_seen = t; last_seen = t }) ∷ []
upsert_row d t (v ∷ rows) =
    if text_eq v.device_id d
    then (record v { first_seen = least v.first_seen t; last_seen = greatest v.last_seen t }) ∷ rows
    else v ∷ upsert_row d t rows

-- What becomes of one statement: it is answered; it fails before the server ran it; or the server
-- ran it and the connection is lost before the answer.
pub data Fate : Type 0 where
  answered refused cut : Fate

pub record Counters : Type 0 where
  pub ingested : ℕ
  pub deduplicated : ℕ
  pub dead_lettered : ℕ
  pub out_of_order : ℕ

-- The database, the fates of the statements to come (answered, when the list is at its end), and
-- the service's counters and newest time per device.
pub record World (F : Type 0) : Type 0 where
  pub db : Db F
  pub fates : List Fate
  pub counters : Counters
  pub latest : List (Text × ℕ)

-- A coroutine of the service: it returns or raises, and what was written stays written.
abbrev pub Exec : Type 0 → Type 0 → Type 0
Exec F A = World F → Result A × World F

module _ {F : Type 0} where
  unfoldable pub run_statement : {A : Type 0} → (Db F → Db F) → (Db F → A) → Exec F A
  run_statement change answer w = elim w.fates [
    | [] ↦ (ok (answer w.db), record w { db = change w.db })
    | answered ∷ rest ↦ (ok (answer w.db), record w { db = change w.db; fates = rest })
    | refused ∷ rest ↦ (raised operational_error, record w { fates = rest })
    | cut ∷ rest ↦ (raised operational_error, record w { db = change w.db; fates = rest })
  ]

  -- the effect of each statement on the tables
  abbrev pub store : TelemetryV1 F → Db F → Db F
  store r db = record db { telemetry = insert_row r db.telemetry }

  abbrev pub register : TelemetryV1 F → Db F → Db F
  register r db = record db { devices = upsert_row r.device_id r.measured_at db.devices }

  -- _INSERT_INGEST_EVENT
  abbrev pub log_dedupe : TelemetryV1 F → Db F → Db F
  log_dedupe r db =
      let entry : IngestEvent = record {
        event = text "deduplicated";
        device_id = r.device_id;
        measured_at = r.measured_at;
      } in
      record db { ingest_events = db.ingest_events ++ entry ∷ [] }

  -- _INSERT_DEAD_LETTER
  abbrev pub bury : DeadLetter → Db F → Db F
  bury dl db = record db { dead_letters = db.dead_letters ++ dl ∷ [] }

  -- cursor.rowcount == 1
  abbrev pub is_new : TelemetryV1 F → Db F → Bool
  is_new r db = not (has_key r db.telemetry)

  abbrev pub no_answer : Db F → Unit {0}
  no_answer db = tt

  -- Writer.insert_reading
  unfoldable pub insert_reading : TelemetryV1 F → Exec F Bool
  unfolding run_statement
  insert_reading r = run_statement (store r) (is_new r)

  -- Writer.upsert_device
  unfoldable pub upsert_device : TelemetryV1 F → Exec F (Unit {0})
  unfolding run_statement
  upsert_device r = run_statement (register r) no_answer

  -- Writer.record_dedupe
  unfoldable pub record_dedupe : TelemetryV1 F → Exec F (Unit {0})
  unfolding run_statement
  record_dedupe r = run_statement (log_dedupe r) no_answer

  -- Writer.insert_dead_letter
  unfoldable pub insert_dead_letter : DeadLetter → Exec F (Unit {0})
  unfolding run_statement
  insert_dead_letter dl = run_statement (bury dl) no_answer
