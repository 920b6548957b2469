-- ===== src/Tests/Contract.antt =====
-- src/planter_telemetry/contract.py at concrete inputs.
use planter_telemetry.Contract.Topic.{device_id_from_topic, telemetry_topic, is_device_id}
use planter_telemetry.Contract.Topic.RoundTrip.{device_id_from_topic_iff, Lacks}
use planter_telemetry.Contract.Reading.Bounds.{
  validate_json-WellFormed, validate_json_complete, to_utc-canonical, WellFormed,
}
use planter_telemetry.Contract.Reading.{valid, to_utc, validate_json}
use planter_telemetry.Prelude.{text_eq, [], ◌≢◌, inl, ◌↔◌, refl, ◌*◌, true, some, ◌≡◌}
use planter_telemetry.Prelude.Int.{◌-ℤ◌, negsuc, pos}
use planter_telemetry.Prelude.Time.{instant_add}
use planter_telemetry.Tests.Fixtures.{
  milli, pot, pot_topic, three_bytes, reading_at, five_oclock, raw_fields,
}

pot-topic_lem : device_id_from_topic pot_topic ≡ some pot
unfolding device_id_from_topic text_eq
pot-topic_lem = refl

device_id_from_topic_iff_example :
    (device_id_from_topic pot_topic ≡ some pot)
    ↔ ((pot_topic ≡ telemetry_topic pot) × (pot ≢ []) × Lacks b'/' pot)
device_id_from_topic_iff_example = device_id_from_topic_iff pot_topic pot

pot-IsDeviceId : is_device_id pot ≡ true
unfolding is_device_id
pot-IsDeviceId = refl

five_oclock-valid : validate_json three_bytes five_oclock ≡ valid (reading_at 4)
unfolding validate_json is_device_id instant_add ◌-ℤ◌
five_oclock-valid = refl

validate_json-WellFormed_example : WellFormed (reading_at 4)
validate_json-WellFormed_example =
    validate_json-WellFormed three_bytes five_oclock five_oclock-valid

five_oclock-utc : to_utc (5 * 3600000000) (pos 3600000000) ≡ some (4 * 3600000000)
unfolding to_utc instant_add ◌-ℤ◌
five_oclock-utc = refl

validate_json_complete_example : validate_json three_bytes five_oclock ≡ valid (reading_at 4)
validate_json_complete_example =
    validate_json_complete three_bytes five_oclock (raw_fields 5 40 37) pot (5 * 3600000000)
      (pos 3600000000) (4 * 3600000000) (pos 40000) (pos 3700) refl (inl refl) refl pot-IsDeviceId
      refl five_oclock-utc refl (refl, refl) refl (refl, refl)

to_utc-canonical_example :
    to_utc (5 * 3600000000) (pos 3600000000) ≡ to_utc (3 * 3600000000) (negsuc 3599999999)
to_utc-canonical_example =
    to_utc-canonical (5 * 3600000000) (3 * 3600000000) (pos 3600000000) (negsuc 3599999999)
      (unfold ◌-ℤ◌ in refl)
