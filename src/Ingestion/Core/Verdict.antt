-- ===== src/Ingestion/Core/Verdict.antt =====
-- src/planter_telemetry/ingestion/core.py: which messages become readings, and which dead letters.
use planter_telemetry.Contract.Reading.{
  overflowed, Checked, to_utc, fields, given, combine, check_measured_at, RawFields,
  validate_parsed, ErrorDetail, overflow, invalid, valid, validate_json, Validation, TelemetryV1,
  Bytes, Pydantic,
}
use planter_telemetry.Ingestion.Core.{
  more_part, max_reason_errors, part_of, mismatch, Outcome, dead_letter, bad_topic, reason_of,
  DeadLetter, valid_reading, outcome_of, classify, classify_from, PyText,
}
use planter_telemetry.Prelude.{
  take, map, join, length-take-le, ◌++◌, refl, overflow_error, raised, inr, text_eq, ℕ, Bool-cases,
  Result, inl, ◌≢◌, ◌≤◌, text, length, ◌⊎◌, List, none, sym, ap, text_eq_refl, text_eq→eq, some,
  ◌↔◌, arith, ok, ◌≡◌, Option, Text,
}
use planter_telemetry.Contract.Topic.{telemetry_topic, device_id_from_topic}
use planter_telemetry.Contract.Topic.RoundTrip.{device_id-topic_safe, device_id_from_topic_iff}
use planter_telemetry.Contract.Reading.Bounds.{validate_json-WellFormed}
use planter_telemetry.Prelude.Int.{ℤ}
use planter_telemetry.Prelude.Floats.{Floats}

combine-overflow :
    {F : Type 0} (v : Checked ℕ) (d : Checked Text) (w b : Checked F)
    → combine v d overflowed w b ≡ overflow
unfolding combine
combine-overflow v d w b = ground arith

module _ {F : Type 0} ⦃fl : Floats F⦄ (pd : Pydantic F) (py : PyText) where
  outcome_of-valid :
      (topic : Text) (payload : Bytes) (id : Text) (v : Validation F) {r : TelemetryV1 F}
      → outcome_of pd py topic payload id v ≡ ok (valid_reading r)
      → (v ≡ valid r) × (r.device_id ≡ id)
  unfolding outcome_of
  outcome_of-valid topic payload id (valid r) h = ground (arith, text_eq→eq r.device_id id)
  outcome_of-valid topic payload id (invalid errors) h = cc
  outcome_of-valid topic payload id overflow h = cc

  classify_from-valid :
      (topic : Text) (payload : Bytes) (id : Option Text) {r : TelemetryV1 F}
      → classify_from pd py topic payload id ≡ ok (valid_reading r)
      → (validate_json pd payload ≡ valid r) × (id ≡ some r.device_id)
  unfolding classify_from
  classify_from-valid topic payload none h = cc
  classify_from-valid topic payload (some id) h =
      let (v, e) = outcome_of-valid topic payload id (validate_json pd payload) h in
      (v, ap some (sym e))

  classify-of_valid :
      (topic : Text) (payload : Bytes) (r : TelemetryV1 F)
      → validate_json pd payload ≡ valid r
      → device_id_from_topic topic ≡ some r.device_id
      → classify pd py topic payload ≡ ok (valid_reading r)
  unfolding classify
  classify-of_valid topic payload r v t = rw (t, v, text_eq_refl r.device_id)

  -- A message is a valid reading exactly when its payload validates as that reading and its topic
  -- is the telemetry topic of the reading's own device id.
  pub classify-valid_iff :
      (topic : Text) (payload : Bytes) (r : TelemetryV1 F)
      → (classify pd py topic payload ≡ ok (valid_reading r))
        ↔ ((validate_json pd payload ≡ valid r) × (topic ≡ telemetry_topic r.device_id))
  unfolding classify
  classify-valid_iff topic payload r = (
    λ h.
        let (v, t) = classify_from-valid topic payload (device_id_from_topic topic) h in
        (v, ((device_id_from_topic_iff topic r.device_id).0 t).0),
    λ h. classify-of_valid topic payload r h.0 (
        rw h.1 ((device_id-topic_safe r.device_id (validate_json-WellFormed pd payload h.0).id).0)),
  )

  -- Why a message was dead-lettered: a foreign topic, a payload that does not validate (with a
  -- reason of bounded length), or a valid reading of another device than the topic's.
  abbrev pub WhyDead : Text → Bytes → DeadLetter → Type 0
  WhyDead topic payload dl =
      ((device_id_from_topic topic ≡ none) × (dl.reason ≡ bad_topic))
      ⊎ ((errors : List ErrorDetail) × (validate_json pd payload ≡ invalid errors)
          × (length dl.reason ≤ 517))
      ⊎ ((r : TelemetryV1 F) × (validate_json pd payload ≡ valid r)
          × (device_id_from_topic topic ≢ some r.device_id))

  length-invalid_reason :
      (errors : List ErrorDetail) → length (text "invalid payload: " ++ reason_of py errors) ≤ 517
  unfolding reason_of
  length-invalid_reason errors = omega (
    arith,
    length-take-le {0} 500 (
        join (text "; ")
          (map part_of (take max_reason_errors errors) ++ more_part py (length errors))),
  )

  dead-inv :
      (topic : Text) (payload : Bytes) (reason : Text) {dl : DeadLetter}
      → ◌≡◌ {A = Result (Outcome F)}
          (ok (dead_letter (record { topic = topic; payload = payload; reason = reason })))
          (ok (dead_letter dl))
      → (dl.topic ≡ topic) × (dl.payload ≡ payload) × (dl.reason ≡ reason)
  dead-inv topic payload reason h = ground arith

  outcome_of-dead :
      (topic : Text) (payload : Bytes) (id : Text) {dl : DeadLetter}
      → device_id_from_topic topic ≡ some id
      → (v : Validation F) → validate_json pd payload ≡ v
      → outcome_of pd py topic payload id v ≡ ok (dead_letter dl)
      → (dl.topic ≡ topic) × (dl.payload ≡ payload) × WhyDead topic payload dl
  unfolding outcome_of
  outcome_of-dead topic payload id t (valid r) v h = elim (Bool-cases (text_eq r.device_id id)) [
    | inl e ↦ let same : ok (valid_reading r) ≡ ok (dead_letter _) = rw e at h in cc
    | inr e ↦
        let (a, b, _) = dead-inv topic payload (mismatch py id r.device_id) (rw e at h) in
        (a, b, inr (inr (r, v, λ other. cc (e, t, other, text_eq_refl r.device_id))))
  ]
  outcome_of-dead topic payload id t (invalid errors) v h =
      let (a, b, c) = dead-inv topic payload (text "invalid payload: " ++ reason_of py errors) h in
      (a, b, inr (inl (errors, v, rw c (length-invalid_reason errors))))
  outcome_of-dead topic payload id t overflow v h = cc

  classify_from-dead :
      (topic : Text) (payload : Bytes) (id : Option Text) {dl : DeadLetter}
      → device_id_from_topic topic ≡ id
      → classify_from pd py topic payload id ≡ ok (dead_letter dl)
      → (dl.topic ≡ topic) × (dl.payload ≡ payload) × WhyDead topic payload dl
  unfolding classify_from
  classify_from-dead topic payload none t h =
      let (a, b, c) = dead-inv topic payload bad_topic h in (a, b, inl (t, c))
  classify_from-dead topic payload (some id) t h =
      outcome_of-dead topic payload id t (validate_json pd payload) refl h

  -- A dead letter holds the message's topic and payload unchanged, and it was written for one of
  -- three reasons: the topic is no telemetry topic, the payload does not validate (then the reason
  -- has at most 517 characters), or it is a valid reading of a device other than the topic's.
  pub classify-dead_letter :
      (topic : Text) (payload : Bytes) (dl : DeadLetter)
      → classify pd py topic payload ≡ ok (dead_letter dl)
      → (dl.topic ≡ topic) × (dl.payload ≡ payload) × WhyDead topic payload dl
  unfolding classify
  classify-dead_letter topic payload dl h =
      classify_from-dead topic payload (device_id_from_topic topic) refl h

  validate_parsed-overflow :
      (raw : RawFields F) (local : ℕ) (offset : ℤ)
      → raw.measured_at ≡ given (record { local = local; utc_offset = some offset })
      → to_utc local offset ≡ none
      → validate_parsed pd (fields raw) ≡ overflow
  unfolding validate_parsed check_measured_at combine
  validate_parsed-overflow raw local offset m u = rw (m, u) (combine-overflow _ _ _ _)

  -- `classify` is not total: a message on a telemetry topic whose `measured_at` is aware, and lies
  -- outside the range of `datetime` once its UTC offset is taken off, raises an OverflowError,
  -- whatever its other fields hold.
  pub classify-raises :
      (topic : Text) (payload : Bytes) (id : Text) (raw : RawFields F) (local : ℕ) (offset : ℤ)
      → device_id_from_topic topic ≡ some id
      → pd.parse payload ≡ fields raw
      → raw.measured_at ≡ given (record { local = local; utc_offset = some offset })
      → to_utc local offset ≡ none
      → classify pd py topic payload ≡ raised overflow_error
  unfolding classify validate_json
  classify-raises topic payload id raw local offset t p m u =
      rw (t, p, validate_parsed-overflow raw local offset m u)
