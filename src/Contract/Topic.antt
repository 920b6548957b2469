-- ===== src/Contract/Topic.antt =====
-- src/planter_telemetry/contract.py: telemetry_topic, device_id_from_topic and the pattern of
-- DeviceId.
pub mod RoundTrip
use planter_telemetry.Prelude.{
  ℕ, Text, text, text_eq, Bool, true, false, ◌&&◌, ◌||◌, Option, none, some, List, [], ◌∷◌, ◌++◌,
  ◌==◌, leb, length, if◌then◌else◌,
}

abbrev pub schema_version : ℕ
schema_version = 1

abbrev telemetry_topic_filter : Text
telemetry_topic_filter = text "planter/v1/+/telemetry"

unfoldable pub telemetry_topic : Text → Text
telemetry_topic device_id = text "planter/v1/" ++ (device_id ++ text "/telemetry")

-- the first segment of a split, put in front of the others
abbrev pub push_char : ℕ → List Text → List Text
push_char c [] = (c ∷ []) ∷ []
push_char c (s ∷ segments) = (c ∷ s) ∷ segments

-- `s.split(sep)` for a separator of one character
unfoldable pub split : ℕ → Text → List Text
split sep [] = [] ∷ []
split sep (c ∷ s) =
    let segments = split sep s in if c == sep then [] ∷ segments else push_char c segments

-- the `match` on the segments
unfoldable pub match_segments : List Text → Option Text
match_segments (a ∷ b ∷ [] ∷ d ∷ []) = none
match_segments (a ∷ b ∷ (c ∷ cs) ∷ d ∷ []) =
    if text_eq a (text "planter") && (text_eq b (text "v1") && text_eq d (text "telemetry"))
    then some (c ∷ cs)
    else none
match_segments _ = none

unfoldable pub device_id_from_topic : Text → Option Text
unfolding split match_segments
device_id_from_topic topic = match_segments (split b'/' topic)

-- [a-z0-9]
abbrev is_id_start : ℕ → Bool
is_id_start c = (leb b'a' c && leb c b'z') || (leb b'0' c && leb c b'9')

-- [a-z0-9_-]
abbrev pub is_id_char : ℕ → Bool
is_id_char c = is_id_start c || (c == b'_' || c == b'-')

unfoldable pub all_id_chars : Text → Bool
all_id_chars [] = true
all_id_chars (c ∷ s) = is_id_char c && all_id_chars s

-- DeviceId: ^[a-z0-9][a-z0-9_-]{0,31}$
unfoldable pub is_device_id : Text → Bool
unfolding all_id_chars
is_device_id [] = false
is_device_id (c ∷ s) = is_id_start c && (all_id_chars s && leb (length s) 31)
