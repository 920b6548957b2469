-- ===== src/Cli/Replay/Faithful.antt =====
-- src/planter_telemetry/cli: replaying a captured file publishes the captured messages.
use mathlib.Core.Path.{subst}
use planter_telemetry.Prelude.{
  All-take, inr, inl, Bool-cases, append_assoc, append-nil, sym, ap, ◌∙◌, length, refl, ◌+◌, false,
  ◌≤◌, arith, ◌≢◌, ◌≡◌, ◌∷◌, [], List, suc, ◌++◌, take, map, ℕ, Text, All, Option, none, some,
}
use planter_telemetry.Cli.Replay.{
  is_blank, Replay, times, decode_lines, zip_offsets, without_delay, paced, replay,
}
use planter_telemetry.Cli.Capture.{
  Event, message, timeout, Capture, returned, failed, waiting, is_enough, captured, capture_loop,
  capture,
}
use planter_telemetry.Cli.Records.{Codecs, CapturedMessage, encode_record, record_of}
use planter_telemetry.Cli.Records.RoundTrip.{decode_record-line, CodecLaws, IsCaptured, IsBytes}
use planter_telemetry.Cli.Schedule.{replay_offsets, offsets_from}
use planter_telemetry.Cli.Schedule.Pacing.{length-offsets_from}
use planter_telemetry.Cli.Command.{is_not_positive}
use planter_telemetry.Prelude.Floats.{Floats, lit}
use planter_telemetry.Prelude.Int.{ℤ}
use planter_telemetry.Prelude.Time.{max_instant}

-- the messages before the first timeout, as capture records them
unfoldable pub received : List Event → List CapturedMessage
received [] = []
received (timeout ∷ events) = []
received (message topic payload now ∷ events) = captured topic payload now ∷ received events

-- A message has a topic and a payload of bytes, and arrives before the year 10000.
abbrev pub IsWire : Event → Type 0
IsWire timeout = Unit
IsWire (message topic payload now) = (topic ≢ []) × IsBytes payload × (now ≤ max_instant)

received-IsCaptured : (events : List Event) → All IsWire events → All IsCaptured (received events)
unfolding received
received-IsCaptured [] h = tt
received-IsCaptured (timeout ∷ events) h = tt
received-IsCaptured (message topic payload now ∷ events) h = (
  record { topic = h.0.0; payload = h.0.1; captured_at = (h.0.2, omega arith) },
  received-IsCaptured events h.1,
)

module _ (c : Codecs) where
  abbrev pub line_of : CapturedMessage → Text
  line_of m = c.dumps (record_of c m) ++ 10 ∷ []

  -- A capture that has returned wrote the lines of so many messages behind the earlier ones.
  abbrev Wrote : List CapturedMessage → ℕ → List Text → Capture → Type 0
  Wrote messages written out (returned n lines) =
      (k : ℕ) × (n ≡ written + k) × (lines ≡ out ++ map line_of (take k messages))
  Wrote messages written out _ = Unit

  capture_loop-Wrote :
      (count : Option ℤ) (events : List Event) (written : ℕ) (out : List Text)
      → Wrote (received events) written out (capture_loop c count events written out)
  unfolding capture_loop received encode_record
  capture_loop-Wrote count [] written out = tt
  capture_loop-Wrote count (timeout ∷ events) written out = (0, omega arith, sym (append-nil out))
  capture_loop-Wrote count (message topic payload now ∷ events) written out =
      let m = captured topic payload now in
      elim (Bool-cases (is_enough count (suc written))) [
        | inl enough ↦ rw enough (1, omega arith, refl)
        | inr more ↦ rw more (
            one_more m (received events) (capture_loop c count events (suc written) _)
              (capture_loop-Wrote count events (suc written) (out ++ line_of m ∷ [])))
      ]
    where
      one_more :
          (m : CapturedMessage) (messages : List CapturedMessage) (x : Capture)
          → Wrote messages (suc written) (out ++ line_of m ∷ []) x
          → Wrote (m ∷ messages) written out x
      one_more m messages (returned n lines) (k, e, f) = (
        suc k,
        omega (arith, e),
        f ∙ append_assoc out (line_of m ∷ []) (map line_of (take k messages)),
      )
      one_more m messages (failed lines) h = tt
      one_more m messages (waiting n lines) h = tt

  is_blank-dumps :
      CodecLaws c → (items : List (Text × Text)) → is_blank (c.dumps items ++ 10 ∷ []) ≡ false
  unfolding is_blank
  is_blank-dumps laws items = let (rest, e) = laws.dumps_object items in rw e refl

  pub decode_lines-line_of :
      CodecLaws c
      → (number : ℕ) (messages : List CapturedMessage) → All IsCaptured messages
      → decode_lines c number (map line_of messages) ≡ (messages, none)
  unfolding decode_lines
  decode_lines-line_of laws number [] h = refl
  decode_lines-line_of laws number (m ∷ messages) h =
      rw
        (
          is_blank-dumps laws (record_of c m),
          decode_record-line c laws m h.0,
          decode_lines-line_of laws (suc number) messages h.1,
        )
        refl

length-times : (messages : List CapturedMessage) → length (times messages) ≡ length messages
length-times [] = refl
length-times (m ∷ messages) = ap suc (length-times messages)

module _ {F : Type 0} ⦃fl : Floats F⦄ where
  -- what was published, without the offsets
  unfoldable pub messages_of : List (CapturedMessage × F) → List CapturedMessage
  messages_of [] = []
  messages_of ((m, offset) ∷ rest) = m ∷ messages_of rest

module _ (F : Type 0) ⦃fl : Floats F⦄ where
  messages_of-without_delay :
      (messages : List CapturedMessage) → messages_of (without_delay {F = F} messages) ≡ messages
  unfolding messages_of without_delay
  messages_of-without_delay [] = refl
  messages_of-without_delay (m ∷ messages) = ap (◌∷◌ m) (messages_of-without_delay messages)

module _ {F : Type 0} ⦃fl : Floats F⦄ where
  messages_of-zip_offsets :
      (messages : List CapturedMessage) (offsets : List F)
      → length offsets ≡ length messages
      → messages_of (zip_offsets messages offsets) ≡ messages
  unfolding messages_of zip_offsets
  messages_of-zip_offsets [] offsets e = refl
  messages_of-zip_offsets (m ∷ messages) [] e = absurd (omega (arith, e))
  messages_of-zip_offsets (m ∷ messages) (offset ∷ offsets) e =
      ap (◌∷◌ m) (messages_of-zip_offsets messages offsets (omega (arith, e)))

  -- The replay publishes the messages in order, and raises nothing.
  abbrev pub Publishes : List CapturedMessage → Replay F → Type 0
  Publishes messages r = (messages_of r.published ≡ messages) × (r.error ≡ none)

  paced-Publishes :
      (messages : List CapturedMessage) (offsets : List F)
      → length offsets ≡ length messages
      → Publishes messages (paced (messages, none) (some offsets))
  unfolding messages_of
  paced-Publishes [] offsets e = (refl, refl)
  paced-Publishes (m ∷ messages) offsets e =
      (messages_of-zip_offsets (m ∷ messages) offsets e, refl)

  pub replay-lines :
      (c : Codecs) (speed : Option F) (lines : List Text) (messages : List CapturedMessage)
      → is_not_positive speed ≡ false
      → decode_lines c 1 lines ≡ (messages, none)
      → Publishes messages (replay c speed lines)
  unfolding replay replay_offsets
  replay-lines c none lines messages h e = rw e (messages_of-without_delay F messages, refl)
  replay-lines c (some speed) lines messages h e =
      rw (e, h)
        (paced-Publishes messages (offsets_from speed (lit 0) none (times messages))
          (length-offsets_from speed (lit 0) none (times messages) ∙ length-times messages))

  -- Under the documented laws of the codecs: a file that capture has written and returned from,
  -- with its number of lines, is replayed without an error, without delays or at any speed that is
  -- not at most zero. The messages published are the first ones received, as many as there are
  -- lines, in order, with the same topics and, byte for byte, the same payloads.
  pub replay-capture :
      (c : Codecs) (speed : Option F) (count : Option ℤ) (events : List Event) (n : ℕ)
      (lines : List Text)
      → CodecLaws c
      → All IsWire events
      → is_not_positive speed ≡ false
      → capture c count events ≡ returned n lines
      → Publishes (take n (received events)) (replay c speed lines)
  unfolding capture
  replay-capture c speed count events n lines laws wire h e =
      let (k, en, el) =
        subst (Wrote c (received events) 0 []) e (capture_loop-Wrote c count events 0 []) in
      let messages = take k (received events) in
      let ok = All-take IsCaptured k (received events) (received-IsCaptured events wire) in
      let d : decode_lines c 1 lines ≡ (messages, none) =
        ap (decode_lines c 1) el ∙ decode_lines-line_of c laws 1 messages ok in
      let same : n ≡ k = omega (arith, en) in
      subst (λ j. Publishes (take j (received events)) (replay c speed lines)) (sym same)
        (replay-lines c speed lines messages h d)
