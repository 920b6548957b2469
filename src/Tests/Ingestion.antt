-- ===== src/Tests/Ingestion.antt =====
-- src/planter_telemetry/ingestion/core.py and _handle_one at concrete inputs.
use planter_telemetry.Ingestion.Core.Verdict.{
  classify-valid_iff, classify-dead_letter, classify-raises, WhyDead,
}
use planter_telemetry.Ingestion.Handle.Registry.{handle_one-IsRegistered, IsRegistered}
use planter_telemetry.Ingestion.Handle.Idempotent.{replay_idempotent, retry_after_failure}
use planter_telemetry.Ingestion.Core.{valid_reading, bad_topic, dead_letter, classify, DeadLetter}
use planter_telemetry.Ingestion.Handle.Effects.{handled, Stored, Same}
use planter_telemetry.Prelude.{
  text_eq, ◌+◌, ◌↔◌, ◌*◌, overflow_error, operational_error, ◌∷◌, none, refl, [], ok, text, raised,
  some, ◌≡◌, arith, List,
}
use planter_telemetry.Ingestion.Db.{insert_row, has_key, cut, answered, World}
use planter_telemetry.Contract.Topic.{is_device_id, telemetry_topic, device_id_from_topic}
use planter_telemetry.Contract.Reading.{valid, validate_json, to_utc}
use planter_telemetry.Ingestion.Handle.{Item, handle_all, handle_one}
use planter_telemetry.Prelude.Int.{◌-ℤ◌, pos, ℤ}
use planter_telemetry.Prelude.Time.{instant_add}
use planter_telemetry.Ingestion.Db.Tables.{seen}
use planter_telemetry.Tests.Fixtures.{
  milli, pot, pot_topic, three_bytes, reading_at, five_oclock, raw_fields, plain, midnight,
  empty_world,
}

classify-valid_iff_example :
    (classify three_bytes plain pot_topic five_oclock ≡ ok (valid_reading (reading_at 4))) ↔ (
      (validate_json three_bytes five_oclock ≡ valid (reading_at 4))
      × (pot_topic ≡ telemetry_topic pot))
classify-valid_iff_example =
    classify-valid_iff three_bytes plain pot_topic five_oclock (reading_at 4)

abbrev foreign : DeadLetter
foreign = record { topic = text "planter/v1/pot-1"; payload = five_oclock; reason = bad_topic }

foreign-buried :
    classify three_bytes plain (text "planter/v1/pot-1") five_oclock ≡ ok (dead_letter foreign)
unfolding classify device_id_from_topic
foreign-buried = refl

classify-dead_letter_example :
    (foreign.topic ≡ text "planter/v1/pot-1")
    × (foreign.payload ≡ five_oclock)
    × WhyDead three_bytes plain (text "planter/v1/pot-1") five_oclock foreign
classify-dead_letter_example =
    classify-dead_letter three_bytes plain (text "planter/v1/pot-1") five_oclock foreign
      foreign-buried

pot_topic-id : device_id_from_topic pot_topic ≡ some pot
unfolding device_id_from_topic text_eq
pot_topic-id = refl

midnight-overflows : to_utc 0 (pos 3600000000) ≡ none
unfolding to_utc instant_add ◌-ℤ◌
midnight-overflows = refl

classify-raises_example : classify three_bytes plain pot_topic midnight ≡ raised overflow_error
classify-raises_example =
    classify-raises three_bytes plain pot_topic midnight pot (raw_fields 0 40 37) 0 (pos 3600000000)
      pot_topic-id refl refl midnight-overflows

-- a database with the reading of three o'clock
abbrev one_row : World ℤ
one_row = record empty_world {
  db = record {
    telemetry = reading_at 3 ∷ [];
    devices =
        (record { device_id = pot; first_seen = 3 * 3600000000; last_seen = 3 * 3600000000 }) ∷ [];
    ingest_events = [];
    dead_letters = [];
  };
  fates = answered ∷ cut ∷ [];
}

one_row-IsRegistered : IsRegistered one_row.db
unfolding seen text_eq
one_row-IsRegistered = record { rows = ((omega arith, omega arith), tt) }

handle_one-IsRegistered_example :
    IsRegistered (handle_one three_bytes plain (pot_topic, five_oclock) one_row).1.db
handle_one-IsRegistered_example =
    handle_one-IsRegistered three_bytes plain (pot_topic, five_oclock) one_row one_row-IsRegistered

abbrev batch : List Item
batch = (pot_topic, five_oclock) ∷ (text "planter", midnight) ∷ (pot_topic, five_oclock) ∷ []

batch-handled : (handle_all three_bytes plain batch empty_world).0 ≡ ok tt
unfolding handle_all classify device_id_from_topic text_eq validate_json is_device_id instant_add
    ◌-ℤ◌ has_key insert_row
batch-handled = refl

replay_idempotent_example :
    Same
      (handle_all three_bytes plain batch empty_world).1.db
      (handle_all three_bytes plain batch
        (record ((handle_all three_bytes plain batch empty_world).1) { fates = [] })).1.db
replay_idempotent_example = replay_idempotent three_bytes plain batch empty_world [] batch-handled

five_oclock-classified :
    classify three_bytes plain pot_topic five_oclock ≡ ok (valid_reading (reading_at 4))
unfolding classify device_id_from_topic text_eq validate_json is_device_id instant_add ◌-ℤ◌
five_oclock-classified = refl

-- the insert's answer is lost
cut-fails :
    (handle_one three_bytes plain (pot_topic, five_oclock) one_row).0 ≡ raised operational_error
unfolding handle_one classify device_id_from_topic text_eq validate_json is_device_id instant_add
    ◌-ℤ◌
cut-fails = refl

retry-succeeds :
    (handle_one three_bytes plain
      (pot_topic, five_oclock)
      (record ((handle_one three_bytes plain (pot_topic, five_oclock) one_row).1) { fates = [] })).0
    ≡ ok tt
unfolding handle_one classify device_id_from_topic text_eq validate_json is_device_id instant_add
    ◌-ℤ◌ has_key insert_row
retry-succeeds = refl

retry_after_failure_example :
    let second =
      handle_one three_bytes plain
        (pot_topic, five_oclock)
        (record ((handle_one three_bytes plain (pot_topic, five_oclock) one_row).1) {
          fates = [];
        }) in
    Stored (reading_at 4) one_row.db second.1.db × (handled second.1 ≡ handled one_row + 1)
retry_after_failure_example =
    retry_after_failure three_bytes plain pot_topic five_oclock (reading_at 4) one_row []
      five_oclock-classified cut-fails retry-succeeds
