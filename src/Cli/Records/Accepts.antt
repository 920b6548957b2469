-- ===== src/Cli/Records/Accepts.antt =====
-- src/planter_telemetry/cli/records.py: the lines that decode_record accepts.
use mathlib.Core.Path.{subst}
use planter_telemetry.Cli.Records.RoundTrip.{with_topic-str}
use planter_telemetry.Cli.Records.{
  naive_captured_at, JsonField, Loaded, Codecs, CapturedMessage, Decoded, decoded, value_error,
  null, str, other, not_json, not_object, object, RecordError, get_field, with_topic, with_aware,
  with_captured_at, with_bytes, with_payload, decode_items, decode_loaded, decode_record,
}
use planter_telemetry.Contract.Reading.{Bytes, LocalTime}
use planter_telemetry.Analytics.Store.{is_none}
use planter_telemetry.Prelude.{
  ◌∙◌, ap, text, ◌∷◌, [], List, Text, none, some, Option, false, ◌≡◌, refl, ◌≢◌, ◌⊎◌, inl, inr, ◌↔◌,
  Bool-cases,
}

module _ (c : Codecs) where
  -- the time of a record
  abbrev IsTime : JsonField → LocalTime → Type 0
  IsTime f at =
      (raw : Text) × (f ≡ str raw)
      × (c.fromisoformat raw ≡ some at)
      × (is_none at.utc_offset ≡ false)

  -- exactly one of "payload" and "payload_b64", a str that encodes the bytes
  abbrev IsPayload : JsonField → JsonField → Bytes → Type 0
  IsPayload f g payload =
      ((s : Text) × (f ≡ str s) × (g ≡ null) × (c.utf8_encode s ≡ some payload))
      ⊎ ((s : Text) × (f ≡ null) × (g ≡ str s) × (c.b64decode s ≡ some payload))

  abbrev pub IsRecord : Loaded → CapturedMessage → Type 0
  IsRecord loaded message =
      (items : List (Text × JsonField)) × (loaded ≡ object items)
      × (get_field (text "topic") items ≡ str message.topic)
      × (message.topic ≢ [])
      × IsTime (get_field (text "captured_at") items) message.captured_at
      × IsPayload (get_field (text "payload") items) (get_field (text "payload_b64") items)
          message.payload

  with_topic-decoded :
      (f : JsonField) (k : Text → Decoded) (m : CapturedMessage)
      → with_topic c f k ≡ decoded m
      → (topic : Text) × (f ≡ str topic) × (topic ≢ []) × (k topic ≡ decoded m)
  with_topic-decoded null k m h = cc
  with_topic-decoded other k m h = cc
  with_topic-decoded (str []) k m h = cc
  with_topic-decoded (str (x ∷ topic)) k m h = (x ∷ topic, refl, (λ e. cc), h)

  with_aware-decoded :
      (o : Option LocalTime) (k : LocalTime → Decoded) (m : CapturedMessage)
      → with_aware c o k ≡ decoded m
      → (at : LocalTime) × (o ≡ some at) × (is_none at.utc_offset ≡ false) × (k at ≡ decoded m)
  with_aware-decoded none k m h = cc
  with_aware-decoded (some at) k m h = elim (Bool-cases (is_none at.utc_offset)) [
    | inl e ↦ let bad : value_error naive_captured_at ≡ decoded m = rw e at h in cc
    | inr e ↦ (at, refl, e, rw e at h)
  ]

  with_captured_at-decoded :
      (f : JsonField) (k : LocalTime → Decoded) (m : CapturedMessage)
      → with_captured_at c f k ≡ decoded m
      → (at : LocalTime) × IsTime f at × (k at ≡ decoded m)
  with_captured_at-decoded null k m h = cc
  with_captured_at-decoded other k m h = cc
  with_captured_at-decoded (str raw) k m h =
      let (at, e, a, d) = with_aware-decoded (c.fromisoformat raw) k m h in
      (at, (raw, refl, e, a), d)

  with_bytes-decoded :
      (e : RecordError) (o : Option Bytes) (k : Bytes → Decoded) (m : CapturedMessage)
      → with_bytes c e o k ≡ decoded m
      → (payload : Bytes) × (o ≡ some payload) × (k payload ≡ decoded m)
  with_bytes-decoded e none k m h = cc
  with_bytes-decoded e (some payload) k m h = (payload, refl, h)

  with_payload-decoded :
      (f g : JsonField) (k : Bytes → Decoded) (m : CapturedMessage)
      → with_payload c f g k ≡ decoded m
      → (payload : Bytes) × IsPayload f g payload × (k payload ≡ decoded m)
  with_payload-decoded null (str s) k m h =
      let (payload, e, d) = with_bytes-decoded _ (c.b64decode s) k m h in
      (payload, inr (s, refl, refl, e), d)
  with_payload-decoded (str s) null k m h =
      let (payload, e, d) = with_bytes-decoded _ (c.utf8_encode s) k m h in
      (payload, inl (s, refl, refl, e), d)
  with_payload-decoded null null k m h = cc
  with_payload-decoded null other k m h = cc
  with_payload-decoded other null k m h = cc
  with_payload-decoded (str s) (str t) k m h = cc
  with_payload-decoded (str s) other k m h = cc
  with_payload-decoded other (str t) k m h = cc
  with_payload-decoded other other k m h = cc

  abbrev message_of : CapturedMessage → Decoded → CapturedMessage
  message_of m (decoded n) = n
  message_of m (value_error e) = m

  of_decoded : (l : Loaded) (m : CapturedMessage) → decode_loaded c l ≡ decoded m → IsRecord l m
  unfolding decode_items
  of_decoded not_json m h = cc
  of_decoded not_object m h = cc
  of_decoded (object items) m h =
      let (topic, et, nt, h1) = with_topic-decoded (get_field (text "topic") items) _ m h in
      let (at, ea, h2) = with_captured_at-decoded (get_field (text "captured_at") items) _ m h1 in
      let (payload, ep, h3) =
        with_payload-decoded (get_field (text "payload") items)
          (get_field (text "payload_b64") items) _ m h2 in
      subst (IsRecord (object items)) (ap (message_of m) h3) (items, refl, et, nt, ea, ep)

  with_payload-IsPayload :
      (f g : JsonField) (payload : Bytes) (k : Bytes → Decoded)
      → IsPayload f g payload
      → with_payload c f g k ≡ k payload
  with_payload-IsPayload f g payload k (inl (s, ef, eg, e)) = rw (ef, eg, e) refl
  with_payload-IsPayload f g payload k (inr (s, ef, eg, e)) = rw (ef, eg, e) refl

  with_captured_at-IsTime :
      (f : JsonField) (at : LocalTime) (k : LocalTime → Decoded)
      → IsTime f at
      → with_captured_at c f k ≡ k at
  with_captured_at-IsTime f at k (raw, ef, e, a) = rw (ef, e, a) refl

  to_decoded : (l : Loaded) (m : CapturedMessage) → IsRecord l m → decode_loaded c l ≡ decoded m
  unfolding decode_items
  to_decoded l m (items, e, et, nt, time, p) =
      let f = get_field (text "payload") items in
      let g = get_field (text "payload_b64") items in
      let on_time : Text → LocalTime → Decoded = λ topic at.
        with_payload c f g
          (λ payload. decoded (record { topic = topic; payload = payload; captured_at = at })) in
      let on_topic : Text → Decoded =
        λ topic. with_captured_at c (get_field (text "captured_at") items) (on_time topic) in
      ap (decode_loaded c) e
      ∙ ap (λ f. with_topic c f on_topic) et
      ∙ with_topic-str c m.topic on_topic nt
      ∙ with_captured_at-IsTime (get_field (text "captured_at") items) m.captured_at
          (on_time m.topic) time
      ∙ with_payload-IsPayload f g m.payload (λ payload. decoded (record m { payload = payload })) p

  -- decode_record answers a message exactly for a line that is a JSON object with a non-empty string
  -- "topic", a "captured_at" that is an aware datetime in ISO format, and exactly one of "payload", whose
  -- UTF-8 encoding are the message's bytes, and "payload_b64", whose base64 decoding they are. On every
  -- other line it raises a ValueError.
  pub decode_record_iff :
      (line : Text) (m : CapturedMessage)
      → (decode_record c line ≡ decoded m) ↔ IsRecord (c.loads line) m
  unfolding decode_record
  decode_record_iff line m = (of_decoded (c.loads line) m, to_decoded (c.loads line) m)
