-- ===== src/Simulator/Fleet/Ordered.antt =====
-- src/planter_telemetry/simulator/stream.py: the merged stream is in the order of publish_at.
use mathlib.Core.Path.{subst}
use planter_telemetry.Prelude.{
  suc, inr, refl, arith, inl, ◌+◌, length, ◌≡◌, Bool-cases, ◌∷◌, [], List, ℕ, Ascends, All, some,
  none, Option, Text, leb,
}
use planter_telemetry.Simulator.Fleet.{
  ImperfectionRolls, DeviceRolls, merge_two, merged_emissions, wakes_of, device_stream, cons_stream,
  fleet_streams, merged_streams, build_streams,
}
use planter_telemetry.Simulator.Stream.{Emission, Wake, Rates, fresh}
use planter_telemetry.Simulator.Stream.Ordered.{publish_time, device_emissions-Ascends}
use planter_telemetry.Simulator.Dynamics.{
  draw_device_params, start_device, device_readings, jitter_of,
}
use planter_telemetry.Simulator.Dynamics.Forward.{IsShort, device_readings-Ascends}
use planter_telemetry.Contract.Reading.{TelemetryV1}
use planter_telemetry.Prelude.Floats.{Floats}
use mathlib.Core.Path.{subst}
use planter_telemetry.Prelude.Int.{ℤ, neg_part}

module _ {F : Type 0} where
  merge_two-Ascends :
      (from : ℕ) (xs ys : List (Emission F))
      → Ascends publish_time from xs
      → Ascends publish_time from ys
      → Ascends publish_time from (merge_two xs ys)
  unfolding merge_two
  merge_two-Ascends from [] ys a b = b
  merge_two-Ascends from (x ∷ xs) [] a b = a
  merge_two-Ascends from (x ∷ xs) (y ∷ ys) a b = elim (Bool-cases (leb x.publish_at y.publish_at)) [
    | inl e ↦ rw e (a.0, merge_two-Ascends x.publish_at xs (y ∷ ys) a.1 (ground arith, b.1))
    | inr e ↦ rw e (b.0, merge_two-Ascends y.publish_at (x ∷ xs) ys (ground arith, a.1) b.1)
  ]

  length-merge_two : (xs ys : List (Emission F)) → length (merge_two xs ys) ≡ length xs + length ys
  unfolding merge_two
  length-merge_two [] ys = omega arith
  length-merge_two (x ∷ xs) [] = omega arith
  length-merge_two (x ∷ xs) (y ∷ ys) = elim (Bool-cases (leb x.publish_at y.publish_at)) [
    | inl e ↦ rw e (omega (arith, length-merge_two xs (y ∷ ys)))
    | inr e ↦ rw e (omega (arith, length-merge_two (x ∷ xs) ys))
  ]

  abbrev total_length : List (List (Emission F)) → ℕ
  total_length [] = 0
  total_length (stream ∷ streams) = length stream + total_length streams

  -- Streams in order merge to one in order, which has as many emissions as they have together.
  merged_emissions-Ascends :
      (streams : List (List (Emission F)))
      → All (Ascends publish_time 0) streams
      → Ascends publish_time 0 (merged_emissions streams)
        × (length (merged_emissions streams) ≡ total_length streams)
  unfolding merged_emissions
  merged_emissions-Ascends [] h = (tt, refl)
  merged_emissions-Ascends (stream ∷ streams) h =
      let (a, n) = merged_emissions-Ascends streams h.1 in
      (
        merge_two-Ascends 0 stream (merged_emissions streams) h.0 a,
        omega (arith, n, length-merge_two stream (merged_emissions streams)),
      )

  wakes_of-Ascends :
      (from : ℕ) (readings : List (TelemetryV1 F)) (rolls : List (ImperfectionRolls F))
      → Ascends (λ (r : TelemetryV1 F). r.measured_at) from readings
      → Ascends (λ (w : Wake F). w.reading.measured_at) from (wakes_of readings rolls)
  unfolding wakes_of
  wakes_of-Ascends from [] rolls a = tt
  wakes_of-Ascends from (r ∷ readings) [] a = tt
  wakes_of-Ascends from (r ∷ readings) (q ∷ rolls) a =
      (a.0, wakes_of-Ascends r.measured_at readings rolls a.1)

module _ {F : Type 0} ⦃fl : Floats F⦄ (round : F → ℕ → F) (rates : Rates F) (interval_seconds : F)
    (device_id : ℕ → Text) (start : ℕ) where
  -- The jitters of the device's wakes take away no more than the interval.
  abbrev HasShortJitter : ℤ → DeviceRolls F → Type 0
  HasShortJitter interval r =
      All (λ w. IsShort interval (jitter_of round (draw_device_params r.params) interval w)) r.wakes

  abbrev AscendsIn : Option (List (Emission F)) → Type 0
  AscendsIn none = Unit
  AscendsIn (some stream) = Ascends publish_time 0 stream

  abbrev AllAscend : Option (List (List (Emission F))) → Type 0
  AllAscend none = Unit
  AllAscend (some streams) = All (Ascends publish_time 0) streams

  device_stream-Ascends :
      (index : ℕ) (interval : ℤ) (at : Option ℕ) (r : DeviceRolls F)
      → neg_part interval ≡ 0
      → HasShortJitter interval r
      → AscendsIn (device_stream round rates interval_seconds device_id start index interval at r)
  unfolding device_stream start_device
  device_stream-Ascends index interval none r h k = tt
  device_stream-Ascends index interval (some at) r h k =
      device_emissions-Ascends rates 0 at
        (wakes_of
          (device_readings round (draw_device_params r.params) interval (device_id index) r.wakes
            (start_device r.level r.battery at))
          r.imperfections)
        fresh
        (wakes_of-Ascends at _ r.imperfections (
          device_readings-Ascends round (draw_device_params r.params) interval (device_id index)
            r.wakes (start_device r.level r.battery at) h k))
        (tt, tt)

  cons_stream-AllAscend :
      (a : Option (List (Emission F))) (b : Option (List (List (Emission F))))
      → AscendsIn a
      → AllAscend b
      → AllAscend (cons_stream round rates interval_seconds device_id start a b)
  cons_stream-AllAscend none b h k = tt
  cons_stream-AllAscend (some a) none h k = tt
  cons_stream-AllAscend (some a) (some b) h k = (h, k)

  fleet_streams-AllAscend :
      (index : ℕ) (interval : ℤ) (devices : List (DeviceRolls F))
      → neg_part interval ≡ 0
      → All (HasShortJitter interval) devices
      → AllAscend
          (fleet_streams round rates interval_seconds device_id start index interval devices)
  unfolding fleet_streams
  fleet_streams-AllAscend index interval [] h k = tt
  fleet_streams-AllAscend index interval (r ∷ devices) h k =
      cons_stream-AllAscend _ _ (device_stream-Ascends index interval _ r h k.0)
        (fleet_streams-AllAscend (suc index) interval devices h k.1)

  merged_streams-AscendsIn :
      (o : Option (List (List (Emission F))))
      → AllAscend o
      → AscendsIn (merged_streams round rates interval_seconds device_id start o)
  merged_streams-AscendsIn none h = tt
  merged_streams-AscendsIn (some streams) h = (merged_emissions-Ascends streams h).0

  -- The emissions of the whole fleet come in the order of their publish_at, late and duplicate ones
  -- included, whatever else the generators draw: the publisher never has to send a message before one
  -- that it has sent. The interval is not negative, and no jitter takes away more than an interval.
  pub build_streams-Ascends :
      (devices : List (DeviceRolls F)) (interval : ℤ) (emissions : List (Emission F))
      → fl.timedelta_seconds interval_seconds ≡ some interval
      → neg_part interval ≡ 0
      → All (HasShortJitter interval) devices
      → build_streams round rates interval_seconds device_id start devices ≡ some emissions
      → Ascends publish_time 0 emissions
  unfolding build_streams
  build_streams-Ascends devices interval emissions i h k e =
      let e' : merged_streams round rates interval_seconds device_id start
            (fleet_streams round rates interval_seconds device_id start 0 interval devices)
          ≡ some emissions =
        rw i at e in
      subst AscendsIn e'
        (merged_streams-AscendsIn _ (fleet_streams-AllAscend 0 interval devices h k))
