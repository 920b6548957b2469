-- ===== src/Contract/Topic/RoundTrip.antt =====
-- src/planter_telemetry/contract.py: device_id_from_topic inverts telemetry_topic.
use planter_telemetry.Prelude.{
  join, ℕ, Text, text, text_eq, text_eq→eq, true, false, ◌≡◌, ◌≢◌, ◌↔◌, refl, sym, ap, ◌∙◌, some,
  List, [], ◌∷◌, ◌++◌, arith, ◌==◌, All, Bool-cases, inl, inr,
}
use planter_telemetry.Contract.Topic.{
  telemetry_topic, push_char, split, match_segments, device_id_from_topic, is_id_char, all_id_chars,
  is_device_id,
}

-- No character of the text is `sep`.
abbrev pub Lacks : ℕ → Text → Type 0
Lacks sep [] = Unit
Lacks sep (c ∷ s) = (c ≢ sep) × Lacks sep s

split_whole : (sep : ℕ) (s : Text) → Lacks sep s → split sep s ≡ s ∷ []
unfolding split
split_whole sep [] h = refl
split_whole sep (c ∷ s) h = ground (arith, split_whole sep s h.1)

split-append : (sep : ℕ) (s t : Text) → Lacks sep s → split sep (s ++ sep ∷ t) ≡ s ∷ split sep t
unfolding split
split-append sep [] t h = ground arith
split-append sep (c ∷ s) t h = ground (arith, split-append sep s t h.1)

join-push_char :
    (sep c : ℕ) (segments : List Text)
    → join (sep ∷ []) (push_char c segments) ≡ c ∷ join (sep ∷ []) segments
unfolding join
join-push_char sep c [] = refl
join-push_char sep c (s ∷ []) = refl
join-push_char sep c (s ∷ t ∷ segments) = refl

join-nil :
    (sep : ℕ) (segments : List Text)
    → segments ≢ []
    → join (sep ∷ []) ([] ∷ segments) ≡ sep ∷ join (sep ∷ []) segments
unfolding join
join-nil sep [] h = absurd (h refl)
join-nil sep (s ∷ segments) h = refl

push_char-ne-nil : (c : ℕ) (segments : List Text) → push_char c segments ≢ []
push_char-ne-nil c [] h = cc
push_char-ne-nil c (s ∷ segments) h = cc

split-ne-nil : (sep : ℕ) (s : Text) → split sep s ≢ []
unfolding split
split-ne-nil sep [] h = cc
split-ne-nil sep (c ∷ s) h = ground (arith, push_char-ne-nil c (split sep s))

join-split : (sep : ℕ) (s : Text) → join (sep ∷ []) (split sep s) ≡ s
unfolding split
join-split sep [] = unfold join in refl
join-split sep (c ∷ s) = ground (
  arith,
  join-push_char sep c (split sep s),
  join-nil sep (split sep s) (split-ne-nil sep s),
  join-split sep s,
)

match_segments-inv :
    (segments : List Text) {d : Text}
    → match_segments segments ≡ some d
    → (segments ≡ text "planter" ∷ text "v1" ∷ d ∷ text "telemetry" ∷ []) × (d ≢ [])
unfolding match_segments
match_segments-inv (a ∷ b ∷ [] ∷ e ∷ []) h = cc
match_segments-inv (a ∷ b ∷ (c ∷ cs) ∷ e ∷ []) h = ground (
  arith,
  text_eq→eq a (text "planter"),
  text_eq→eq b (text "v1"),
  text_eq→eq e (text "telemetry"),
)
match_segments-inv _ h = cc

push_char-Lacks :
    (sep c : ℕ) (segments : List Text)
    → c ≢ sep
    → All (Lacks sep) segments
    → All (Lacks sep) (push_char c segments)
push_char-Lacks sep c [] ne h = ((ne, tt), tt)
push_char-Lacks sep c (s ∷ segments) ne h = ((ne, h.0), h.1)

split-Lacks : (sep : ℕ) (s : Text) → All (Lacks sep) (split sep s)
unfolding split
split-Lacks sep [] = (tt, tt)
split-Lacks sep (c ∷ s) = elim (Bool-cases (c == sep)) [
  | inl e ↦ rw e (tt, split-Lacks sep s)
  | inr e ↦ rw e (push_char-Lacks sep c (split sep s) (ground arith) (split-Lacks sep s))
]

split-telemetry_topic :
    (d : Text)
    → Lacks b'/' d
    → split b'/' (telemetry_topic d) ≡ text "planter" ∷ text "v1" ∷ d ∷ text "telemetry" ∷ []
unfolding split telemetry_topic
split-telemetry_topic d h =
    ap (λ segments. text "planter" ∷ text "v1" ∷ segments)
      (split-append b'/' d (text "telemetry") h)

match_segments_lem :
    (d : Text)
    → d ≢ []
    → match_segments (text "planter" ∷ text "v1" ∷ d ∷ text "telemetry" ∷ []) ≡ some d
unfolding match_segments text_eq
match_segments_lem [] h = absurd (h refl)
match_segments_lem (c ∷ cs) h = refl

topic_lem : (d : Text) → d ≢ [] → Lacks b'/' d → device_id_from_topic (telemetry_topic d) ≡ some d
unfolding device_id_from_topic
topic_lem d ne h = rw (split-telemetry_topic d h) (match_segments_lem d ne)

from_topic_lem :
    (topic d : Text)
    → device_id_from_topic topic ≡ some d
    → (topic ≡ telemetry_topic d) × (d ≢ []) × Lacks b'/' d
unfolding device_id_from_topic
from_topic_lem topic d e =
    let (segments, ne) = match_segments-inv (split b'/' topic) e in
    let parts : All (Lacks b'/') (text "planter" ∷ text "v1" ∷ d ∷ text "telemetry" ∷ []) =
      rw segments at (split-Lacks b'/' topic) in
    (
      sym (join-split b'/' topic)
          ∙ ap (join (b'/' ∷ [])) segments
          ∙ (unfold join telemetry_topic in refl),
      ne,
      parts.1.1.0,
    )

-- A topic yields the device id `d` exactly when it is the telemetry topic of `d`, `d` is not
-- empty and `d` has no slash: `device_id_from_topic` is the inverse of `telemetry_topic`.
pub device_id_from_topic_iff :
    (topic d : Text)
    → (device_id_from_topic topic ≡ some d)
      ↔ ((topic ≡ telemetry_topic d) × (d ≢ []) × Lacks b'/' d)
device_id_from_topic_iff topic d = (from_topic_lem topic d, λ h. rw h.0 (topic_lem d h.1 h.2))

all_id_chars-Lacks :
    (sep : ℕ) (s : Text) → is_id_char sep ≡ false → all_id_chars s ≡ true → Lacks sep s
unfolding all_id_chars
all_id_chars-Lacks sep [] ne h = tt
all_id_chars-Lacks sep (c ∷ s) ne h = ground (arith, all_id_chars-Lacks sep s ne)

is_device_id-all_id_chars : (d : Text) → is_device_id d ≡ true → all_id_chars d ≡ true
unfolding is_device_id
is_device_id-all_id_chars [] h = cc
is_device_id-all_id_chars (c ∷ s) h = ground arith

id_ne_nil : (d : Text) → is_device_id d ≡ true → d ≢ []
unfolding is_device_id
id_ne_nil [] h e = cc
id_ne_nil (c ∷ s) h e = cc

-- A device id that the contract's pattern accepts is what its own topic yields, and it holds none
-- of the topic's metacharacters `/`, `+`, `#` and `$`.
pub device_id-topic_safe :
    (d : Text)
    → is_device_id d ≡ true
    → (device_id_from_topic (telemetry_topic d) ≡ some d)
      × Lacks b'/' d
      × Lacks b'+' d
      × Lacks b'#' d
      × Lacks b'$' d
device_id-topic_safe d h = (
  topic_lem d (id_ne_nil d h) (lacks b'/' refl),
  lacks b'/' refl,
  lacks b'+' refl,
  lacks b'#' refl,
  lacks b'$' refl,
)
  where
    lacks : (sep : ℕ) → is_id_char sep ≡ false → Lacks sep d
    lacks sep ne = all_id_chars-Lacks sep d ne (is_device_id-all_id_chars d h)
