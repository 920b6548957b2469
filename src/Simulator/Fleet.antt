-- ===== src/Simulator/Fleet.antt =====
-- src/planter_telemetry/simulator/stream.py: merged_emissions and build_streams, on what the random
-- generators of each device draw. The id of a device is formatted from its number by a parameter.
pub mod Ordered
pub mod Readings
use planter_telemetry.Prelude.{
  if◌then◌else◌, suc, leb, none, some, ◌∷◌, [], List, Text, ℕ, Option, true, false,
}
use planter_telemetry.Simulator.Stream.{Emission, Wake, Rates, Emitter, fresh, device_emissions}
use planter_telemetry.Simulator.Dynamics.{
  DeviceParams, ParamRolls, WakeRolls, Device, draw_device_params, start_device, device_readings,
}
use planter_telemetry.Contract.Reading.{TelemetryV1}
use planter_telemetry.Prelude.Floats.{Floats}
use planter_telemetry.Prelude.Time.{instant_add}
use planter_telemetry.Prelude.Int.{ℤ}

-- the five draws of device_emissions at one wake
pub record ImperfectionRolls (F : Type 0) : Type 0 where
  pub missed : F
  pub malformed : F
  pub duplicate : F
  pub defer : F
  pub defer_wakes : ℕ

-- what the three generators of one device draw
pub record DeviceRolls (F : Type 0) : Type 0 where
  pub params : ParamRolls F
  pub phase : F
  pub level : F
  pub battery : F
  pub wakes : List (WakeRolls F)
  pub imperfections : List (ImperfectionRolls F)

module _ {F : Type 0} where
  -- heapq.merge of two streams: on a tie the first one's
  unfoldable pub merge_two : List (Emission F) → List (Emission F) → List (Emission F)
  merge_two [] ys = ys
  merge_two (x ∷ xs) [] = x ∷ xs
  merge_two (x ∷ xs) (y ∷ ys) =
      let first = merge_two xs (y ∷ ys) in
      let second = merge_two (x ∷ xs) ys in
      if leb x.publish_at y.publish_at then x ∷ first else y ∷ second

  -- merged_emissions: the least head, of the earliest stream on a tie
  unfoldable pub merged_emissions : List (List (Emission F)) → List (Emission F)
  unfolding merge_two
  merged_emissions [] = []
  merged_emissions (stream ∷ streams) = merge_two stream (merged_emissions streams)

  -- enumerate(readings), with the draws for each
  unfoldable pub wakes_of : List (TelemetryV1 F) → List (ImperfectionRolls F) → List (Wake F)
  wakes_of [] rolls = []
  wakes_of (reading ∷ readings) [] = []
  wakes_of (reading ∷ readings) (r ∷ rolls) =
      record {
        reading = reading;
        missed_roll = r.missed;
        malformed_roll = r.malformed;
        duplicate_roll = r.duplicate;
        defer_roll = r.defer;
        defer_wakes = r.defer_wakes;
      }
      ∷ wakes_of readings rolls

module _ {F : Type 0} ⦃fl : Floats F⦄ (round : F → ℕ → F) (rates : Rates F) (interval_seconds : F)
    (device_id : ℕ → Text) (start : ℕ) where
  -- start + phase; none is an OverflowError
  abbrev pub phase_start : Option ℤ → Option ℕ
  phase_start none = none
  phase_start (some phase) = instant_add start phase

  -- one device's emissions, from its start
  unfoldable pub device_stream : ℕ → ℤ → Option ℕ → DeviceRolls F → Option (List (Emission F))
  unfolding draw_device_params start_device device_readings wakes_of device_emissions
  device_stream index interval none r = none
  device_stream index interval (some at) r =
      let readings =
        device_readings round (draw_device_params r.params) interval (device_id index) r.wakes
          (start_device r.level r.battery at) in
      some ((device_emissions rates 0 (wakes_of readings r.imperfections) fresh).emitted)

  abbrev pub cons_stream :
      Option (List (Emission F))
      → Option (List (List (Emission F)))
      → Option (List (List (Emission F)))
  cons_stream (some stream) (some streams) = some (stream ∷ streams)
  cons_stream _ _ = none

  -- the loop over the devices, from number `index` on
  unfoldable pub fleet_streams : ℕ → ℤ → List (DeviceRolls F) → Option (List (List (Emission F)))
  unfolding device_stream
  fleet_streams index interval [] = some []
  fleet_streams index interval (r ∷ devices) =
      cons_stream
        (device_stream index interval
          (phase_start (fl.timedelta_seconds (fl.mul r.phase interval_seconds))) r)
        (fleet_streams (suc index) interval devices)

  abbrev pub merged_streams : Option (List (List (Emission F))) → Option (List (Emission F))
  merged_streams none = none
  merged_streams (some streams) = some (merged_emissions streams)

  abbrev streams_every : List (DeviceRolls F) → Option ℤ → Option (List (Emission F))
  streams_every devices none = none
  streams_every devices (some interval) = merged_streams (fleet_streams 0 interval devices)

  -- build_streams, for the draws of each device; none is the OverflowError of a timedelta or a start
  unfoldable pub build_streams : List (DeviceRolls F) → Option (List (Emission F))
  unfolding fleet_streams merged_emissions
  build_streams devices = streams_every devices (fl.timedelta_seconds interval_seconds)
