-- ===== src/Lib.antt =====
-- planter-telemetry: a verification library for the Python package of src/planter_telemetry.
--
-- Planters publish readings over MQTT, one topic per device. The ingestion service validates each
-- message against a contract, and writes it to a database: a reading, or a dead letter. The
-- analytics service reads the readings back, and forecasts when a planter runs dry. A simulator
-- plays the planters; a command line captures a window of messages to a file, and replays it.
--
-- Prelude: the names the modules share. Python's float is a type parameter with the record
--   `Floats` of its operations (Prelude/Floats); a datetime is a number of microseconds since the
--   year 1 in UTC, a timedelta an integer (Prelude/Time, Prelude/Int); a str is the list of its
--   code points (Prelude/Texts); an exception is a value (Prelude/Results).
-- Contract: src/planter_telemetry/contract.py. Contract/Topic has telemetry_topic and
--   device_id_from_topic, Contract/Reading the class TelemetryV1. What pydantic does before the
--   contract's own constraints (JSON, coercion) and the texts of its errors are the parameter
--   `Pydantic`.
-- Ingestion: src/planter_telemetry/ingestion. Ingestion/Core has classify of core.py; repr and str
--   are the parameter `PyText`. Ingestion/Db has the statements of class Writer in db.py, on lists
--   of rows; a statement is answered, refused, or cut off after the server ran it, as the list of
--   fates says. Ingestion/Handle has _handle_one of service.py, which writes the tables, the
--   counters and the newest time per device. Ingestion/Session has the state of run and its
--   exception handlers, and Ingestion/Service its loops, as a step function: what the environment
--   does (messages, a stop, lost connections, the fates of statements) is the list of inputs, so a
--   theorem over all lists of inputs is one over all interleavings at the program's awaits.
--   Ingestion/Health has healthz_payload of ops.py.
-- Analytics: src/planter_telemetry/analytics. Of model.py, Analytics/Model has the data, Analytics/Series
--   the validation, the cadence and the segments, Analytics/Fit theil_sen, Analytics/Forecast the
--   function forecast, Analytics/Alert alert_transition. Analytics/Store has the writes of class
--   Store in db.py, on lists of rows, Analytics/Window its reads, Analytics/Decision _handle_alert and Analytics/Pass run_pass of
--   service.py; what run_pass reads and what the notifier answers is their input.
--   Analytics/Service puts run_pass on the tables of the database, and has the polling loop of run,
--   one step for each turn: a pass, or a fault that ends it. Analytics/Health has healthz_payload of
--   ops.py, and Analytics/Notify the texts of a push and post_ntfy of notify.py.
-- Simulator: src/planter_telemetry/simulator. Simulator/Dynamics has device_readings of dynamics.py, and
--   Simulator/Stream device_emissions, Simulator/Fleet merged_emissions and build_streams of stream.py;
--   what the random generators draw is part of the input, for finitely many wakes.
--   Simulator/Wire has the payloads of wire.py, and Simulator/Publisher connect_with_retry and run of
--   publisher.py.
-- Cli: src/planter_telemetry/cli. Cli/Command has parse_command of app.py, on what argparse answers,
--   Cli/Main its function main, with files as lists of lines,
--   Cli/Capture the loop of capture.py, Cli/Records the codec of records.py, Cli/Schedule replay_offsets
--   of schedule.py, Cli/Replay the file and the pacing of replay.py, and Cli/Sample the records of
--   sample.py. The codecs of the standard
--   library (JSON, base64, UTF-8, ISO dates) are the parameter `Codecs`, and what it documents of them
--   the record `CodecLaws`, which a concrete codec of Tests/Codecs has.
-- Migrations: src/planter_telemetry/migrate.py, whose start and whose decisions are in
--   Migrations/Startup, with Alembic as a parameter, and of src/planter_telemetry/migrations/versions
--   the view forecasts_latest of 0008 and of 0010, in Migrations/Views.
-- Pipeline: the simulator's publisher and the ingestion service, one behind the other.
-- Tests: the properties at concrete inputs.
--
-- Every loop is a recursion on a list (the samples, the items, the inputs, the turns) or on the number
-- of attempts that are left, so there is no fuel. Four theorems have laws of floats as hypotheses: on
-- the offsets of a replay, the default speed, alone and in the replay of the sample, and the ranges of
-- simulated readings, where what is asked of products is asked of finite numbers only; the others hold
-- of every arithmetic, whatever it does with a NaN. Durations of
-- the reconnect loop and of wait_for_db are whole milliseconds.
--
-- Not modelled: the MQTT client, the database server and the HTTP server themselves; logs; clocks
-- and timeouts (a timeout of the final flush, and of a capture, is an input); the texts of errors; the
-- sleeps of a replay; the settings of the sample; the tables' columns and the other revisions of the
-- schema; the metrics that Prometheus scrapes.
pub mod Prelude
pub mod Contract
pub mod Ingestion
pub mod Analytics
pub mod Simulator
pub mod Cli
pub mod Migrations
pub mod Pipeline
pub mod Tests
