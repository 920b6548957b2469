-- ===== src/Cli/Records/RoundTrip.antt =====
-- src/planter_telemetry/cli/records.py: decode_record inverts encode_record.
use planter_telemetry.Cli.Records.{
  JsonField, Codecs, CapturedMessage, Decoded, decoded, str, object, get_field, payload_item,
  record_of, encode_record, with_topic, with_captured_at, with_payload, decode_items, decode_record,
}
use planter_telemetry.Contract.Reading.{Bytes, LocalTime}
use planter_telemetry.Prelude.Time.{max_instant}
use planter_telemetry.Prelude.Int.{ℤ, pos_part, neg_part}
use planter_telemetry.Analytics.Store.{is_none}
use planter_telemetry.Prelude.{
  ◌∙◌, text, text_eq, ◌∷◌, [], ◌++◌, List, Text, All, none, some, Option, false, ◌≡◌, refl, ◌≢◌,
  ◌<◌, ◌≤◌, ◌*◌, ◌+◌,
}

abbrev pub IsBytes : Bytes → Type 0
IsBytes payload = All (λ b. b < 256) payload

abbrev IsOffset : Option ℤ → Type 0
IsOffset none = ⊥
IsOffset (some offset) = pos_part offset + neg_part offset < 24 * 3600000000

-- An aware datetime of Python: its year is at most 9999, and its UTC offset less than a day.
abbrev IsAware : LocalTime → Type 0
IsAware t = (t.local ≤ max_instant) × IsOffset t.utc_offset

abbrev pub as_fields : List (Text × Text) → List (Text × JsonField)
as_fields [] = []
as_fields ((name, value) ∷ rest) = (name, str value) ∷ as_fields rest

-- No two items of a dict have one name.
abbrev DistinctNames : List (Text × Text) → Type 0
DistinctNames [] = Unit
DistinctNames (x ∷ rest) =
    All (λ (y : Text × Text). text_eq x.0 y.0 ≡ false) rest × DistinctNames rest

-- What the library documents of its codecs. A line of a file ends in a newline.
pub record CodecLaws (c : Codecs) : Type 0 where
  -- an object begins with a brace
  pub dumps_object : (items : List (Text × Text)) → (rest : Text) × (c.dumps items ≡ 123 ∷ rest)
  pub loads_dumps :
      (items : List (Text × Text))
      → DistinctNames items
      → c.loads (c.dumps items) ≡ object (as_fields items)
  pub loads_line :
      (items : List (Text × Text))
      → DistinctNames items
      → c.loads (c.dumps items ++ 10 ∷ []) ≡ object (as_fields items)
  pub fromisoformat_isoformat :
      (t : LocalTime) → IsAware t → c.fromisoformat (c.isoformat t) ≡ some t
  pub utf8_encode_decode :
      (payload : Bytes) (s : Text) → c.utf8_decode payload ≡ some s → c.utf8_encode s ≡ some payload
  pub b64decode_encode :
      (payload : Bytes) → IsBytes payload → c.b64decode (c.b64encode payload) ≡ some payload

-- A message as the MQTT client gives it, with an aware time.
pub record IsCaptured (message : CapturedMessage) : Type 0 where
  pub topic : message.topic ≢ []
  pub payload : IsBytes message.payload
  pub captured_at : IsAware message.captured_at

module _ (c : Codecs) where
  record_of-DistinctNames : (message : CapturedMessage) → DistinctNames (record_of c message)
  unfolding text_eq
  record_of-DistinctNames message = go (c.utf8_decode message.payload)
    where
      go :
          (o : Option Text)
          → DistinctNames (
              (text "topic", message.topic)
              ∷ (text "captured_at", c.isoformat message.captured_at)
              ∷ payload_item c message o
              ∷ [])
      go none = ((refl, (refl, tt)), ((refl, tt), (tt, tt)))
      go (some s) = ((refl, (refl, tt)), ((refl, tt), (tt, tt)))

  offset_given : (o : Option ℤ) → IsOffset o → is_none o ≡ false
  offset_given none h = absurd h
  offset_given (some offset) h = refl

  encode_record-aware :
      (message : CapturedMessage)
      → IsAware message.captured_at
      → encode_record c message ≡ some (c.dumps (record_of c message))
  unfolding encode_record
  encode_record-aware message h = rw (offset_given message.captured_at.utc_offset h.1) refl

  pub with_topic-str :
      (topic : Text) (k : Text → Decoded) → topic ≢ [] → with_topic c (str topic) k ≡ k topic
  with_topic-str [] k h = absurd (h refl)
  with_topic-str (x ∷ topic) k h = refl

  with_captured_at-isoformat :
      CodecLaws c
      → (at : LocalTime) (k : LocalTime → Decoded) → IsAware at
      → with_captured_at c (str (c.isoformat at)) k ≡ k at
  with_captured_at-isoformat laws at k h =
      rw (laws.fromisoformat_isoformat at h, offset_given at.utc_offset h.1) refl

  decode_items-record_of :
      CodecLaws c
      → (message : CapturedMessage) → IsCaptured message
      → decode_items c (as_fields (record_of c message)) ≡ decoded message
  unfolding decode_items get_field text_eq
  decode_items-record_of laws message h =
      with_topic-str message.topic _ h.topic
      ∙ with_captured_at-isoformat laws message.captured_at _ h.captured_at
      ∙ go (c.utf8_decode message.payload) refl
    where
      go :
          (o : Option Text)
          → c.utf8_decode message.payload ≡ o
          → with_payload c
              (get_field (text "payload") (as_fields (payload_item c message o ∷ [])))
              (get_field (text "payload_b64") (as_fields (payload_item c message o ∷ [])))
              (λ payload. decoded (record {
                topic = message.topic;
                payload = payload;
                captured_at = message.captured_at;
              }))
            ≡ decoded message
      go none e = rw (laws.b64decode_encode message.payload h.payload) refl
      go (some s) e = rw (laws.utf8_encode_decode message.payload s e) refl

  -- the line of a file
  pub decode_record-line :
      CodecLaws c
      → (message : CapturedMessage) → IsCaptured message
      → decode_record c (c.dumps (record_of c message) ++ 10 ∷ []) ≡ decoded message
  unfolding decode_record
  decode_record-line laws message h =
      rw (laws.loads_line (record_of c message) (record_of-DistinctNames message))
        (decode_items-record_of laws message h)

  -- Under the documented laws of the codecs, every captured message with a topic, bytes as its
  -- payload and an aware time has a line, and decode_record reads the message back from it, byte
  -- for byte, whether its payload is UTF-8 or not; likewise with the newline that a file has behind
  -- the line.
  pub decode-encode_record :
      CodecLaws c
      → (message : CapturedMessage) → IsCaptured message
      → (line : Text) × (encode_record c message ≡ some line)
        × (decode_record c line ≡ decoded message)
        × (decode_record c (line ++ 10 ∷ []) ≡ decoded message)
  unfolding decode_record
  decode-encode_record laws message h =
      let e = decode_items-record_of laws message h in
      let d = record_of-DistinctNames message in
      (
        c.dumps (record_of c message),
        encode_record-aware message h.captured_at,
        rw (laws.loads_dumps (record_of c message) d) e,
        decode_record-line laws message h,
      )
