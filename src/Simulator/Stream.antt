-- ===== src/Simulator/Stream.antt =====
-- src/planter_telemetry/simulator/stream.py: device_emissions, one device's imperfections. What the
-- random generator draws at each wake is part of the input.
use planter_telemetry.Prelude.{
  none, suc, some, [], leb, ◌+◌, ◌∷◌, Option, ◌++◌, if◌then◌else◌, List, ℕ,
}
use planter_telemetry.Contract.Reading.{TelemetryV1}
use planter_telemetry.Prelude.Floats.{Floats}
pub mod Deferred
pub mod Ordered
pub mod Readings

-- simulator/wire.py
pub data CorruptionMode : Type 0 where
  truncated wrong_type missing_field : CorruptionMode

-- itertools.cycle(CorruptionMode)
abbrev next_mode : CorruptionMode → CorruptionMode
next_mode truncated = wrong_type
next_mode wrong_type = missing_field
next_mode missing_field = truncated

pub data Kind : Type 0 where
  normal duplicate late : Kind

pub record Emission (F : Type 0) : Type 0 where
  pub publish_at : ℕ
  pub reading : TelemetryV1 F
  pub corruption : Option CorruptionMode
  pub kind : Kind

-- One wake: its reading, and the five draws.
pub record Wake (F : Type 0) : Type 0 where
  pub reading : TelemetryV1 F
  pub missed_roll : F
  pub malformed_roll : F
  pub duplicate_roll : F
  pub defer_roll : F
  pub defer_wakes : ℕ

pub record Rates (F : Type 0) : Type 0 where
  pub duplicate_rate : F
  pub out_of_order_rate : F
  pub malformed_rate : F
  pub missed_checkin_rate : F

abbrev pub Deferred : Type 0 → Type 0
Deferred F = List (ℕ × Emission F)

-- The generator between two wakes: its emissions so far, the readings held back, and the next mode.
pub record Emitter (F : Type 0) : Type 0 where
  pub emitted : List (Emission F)
  pub deferred : Deferred F
  pub mode : CorruptionMode

module _ {F : Type 0} where
  -- before the first wake
  abbrev pub fresh : Emitter F
  fresh = record { emitted = []; deferred = []; mode = truncated }

  abbrev as_late : ℕ → Emission F → Emission F
  as_late at held = record {
    publish_at = at;
    reading = held.reading;
    corruption = held.corruption;
    kind = late;
  }

  -- `while deferred and deferred[0][0] <= wake`: what is released, and what is still held
  unfoldable pub release : ℕ → ℕ → Deferred F → List (Emission F) × Deferred F
  release wake at [] = ([], [])
  release wake at ((due, held) ∷ rest) =
      let (out, left) = release wake at rest in
      if leb due wake then (as_late at held ∷ out, left) else ([], (due, held) ∷ rest)

module _ {F : Type 0} ⦃fl : Floats F⦄ (rates : Rates F) where
  -- the emissions of a wake that was neither missed nor deferred
  unfoldable pub emit : Wake F → Emission F → List (Emission F)
  emit w emission =
      if fl.lt w.duplicate_roll rates.duplicate_rate
      then emission ∷ record emission { kind = duplicate } ∷ []
      else emission ∷ []

  unfoldable pub send_or_defer : ℕ → Wake F → Emission F → Emitter F → Emitter F
  unfolding emit
  send_or_defer wake w emission s =
      if fl.lt w.defer_roll rates.out_of_order_rate
      then record s { deferred = s.deferred ++ (wake + w.defer_wakes, emission) ∷ [] }
      else record s { emitted = s.emitted ++ emit w emission }

  -- a wake that was not missed
  unfoldable pub check_in : ℕ → Wake F → Emitter F → Emitter F
  unfolding send_or_defer
  check_in wake w s =
      let malformed = fl.lt w.malformed_roll rates.malformed_rate in
      let emission : Emission F = record {
        publish_at = w.reading.measured_at;
        reading = w.reading;
        corruption = if malformed then some s.mode else none;
        kind = normal;
      } in
      send_or_defer wake w emission
        (record s { mode = if malformed then next_mode s.mode else s.mode })

  unfoldable pub wake_step : ℕ → Wake F → Emitter F → Emitter F
  unfolding release check_in
  wake_step wake w s =
      let (out, left) = release wake w.reading.measured_at s.deferred in
      let s' = record s { emitted = s.emitted ++ out; deferred = left } in
      if fl.lt w.missed_roll rates.missed_checkin_rate then s' else check_in wake w s'

  -- the wakes from number `wake` on
  unfoldable pub device_emissions : ℕ → List (Wake F) → Emitter F → Emitter F
  unfolding wake_step
  device_emissions wake [] s = s
  device_emissions wake (w ∷ wakes) s = device_emissions (suc wake) wakes (wake_step wake w s)
