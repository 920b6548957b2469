-- ===== src/Ingestion/Handle.antt =====
-- src/planter_telemetry/ingestion/service.py: Counters and _handle_one. Log lines are left out.
use planter_telemetry.Prelude.Floats.{Floats}
use planter_telemetry.Ingestion.Db.{
  insert_dead_letter, World, insert_reading, record_dedupe, upsert_device, Counters, Exec,
}
use planter_telemetry.Prelude.{
  ltb, [], text_eq, some, true, raised, ◌∷◌, none, ◌+◌, false, ok, List, Bool, if◌then◌else◌,
  Option, Result, ℕ, Text,
}
use planter_telemetry.Contract.Reading.{Pydantic, Bytes, TelemetryV1}
use planter_telemetry.Ingestion.Core.{dead_letter, valid_reading, classify, PyText, Outcome}
pub mod Effects
pub mod Registry
pub mod Keys
pub mod Replay
pub mod Idempotent

abbrev pub Item : Type 0
Item = Text × Bytes

-- latest.get(d)
unfoldable lookup : Text → List (Text × ℕ) → Option ℕ
lookup d [] = none
lookup d ((e, t) ∷ rest) = if text_eq e d then some t else lookup d rest

-- latest[d] = t
unfoldable insert : Text → ℕ → List (Text × ℕ) → List (Text × ℕ)
insert d t [] = (d, t) ∷ []
insert d t ((e, u) ∷ rest) = if text_eq e d then (d, t) ∷ rest else (e, u) ∷ insert d t rest

abbrev is_older : ℕ → Option ℕ → Bool
is_older t none = false
is_older t (some newest) = ltb t newest

module _ {F : Type 0} where
  infixl 5 ◌>>=◌ ◌>>◌
  abbrev pub continue : {A B : Type 0} → Result A × World F → (A → Exec F B) → Result B × World F
  continue (ok a, w) f = f a w
  continue (raised e, w) f = (raised e, w)

  abbrev pub ◌>>=◌ : {A B : Type 0} → Exec F A → (A → Exec F B) → Exec F B
  ◌>>=◌ m f w = continue (m w) f

  abbrev pub ◌>>◌ : {A B : Type 0} → Exec F A → Exec F B → Exec F B
  m >> n = m >>= λ _. n

  abbrev count : (Counters → Counters) → Exec F (Unit {0})
  count f w = (ok tt, record w { counters = f w.counters })

  -- the comparison with the newest time seen for the device
  unfoldable pub note_arrival : TelemetryV1 F → Exec F (Unit {0})
  unfolding lookup insert
  note_arrival r w =
      if is_older r.measured_at (lookup r.device_id w.latest)
      then (
        ok tt,
        record w { counters = record (w.counters) { out_of_order = w.counters.out_of_order + 1 } },
      )
      else (ok tt, record w { latest = insert r.device_id r.measured_at w.latest })

  unfoldable pub count_insert : TelemetryV1 F → Bool → Exec F (Unit {0})
  unfolding record_dedupe
  count_insert r true = count (λ c. record c { ingested = c.ingested + 1 })
  count_insert r false = do
    record_dedupe r
    count (λ c. record c { deduplicated = c.deduplicated + 1 })

  unfoldable pub handle_outcome : Outcome F → Exec F (Unit {0})
  unfolding note_arrival upsert_device insert_reading count_insert insert_dead_letter
  handle_outcome (valid_reading r) = do
    note_arrival r
    upsert_device r
    inserted ← insert_reading r
    count_insert r inserted
  handle_outcome (dead_letter dl) = do
    insert_dead_letter dl
    count (λ c. record c { dead_lettered = c.dead_lettered + 1 })

  unfoldable pub handle_classified : Result (Outcome F) → Exec F (Unit {0})
  unfolding handle_outcome
  handle_classified (ok outcome) w = handle_outcome outcome w
  handle_classified (raised e) w = (raised e, w)

module _ {F : Type 0} ⦃fl : Floats F⦄ (pd : Pydantic F) (py : PyText) where
  -- _handle_one
  unfoldable pub handle_one : Item → Exec F (Unit {0})
  unfolding handle_classified
  handle_one (topic, payload) w = handle_classified (classify pd py topic payload) w

  -- the loop `while pending` of the final flush, on the tables: one message after another
  unfoldable pub handle_all : List Item → Exec F (Unit {0})
  unfolding handle_one
  handle_all [] w = (ok tt, w)
  handle_all (item ∷ items) w = (handle_one item >>= λ _. handle_all items) w
