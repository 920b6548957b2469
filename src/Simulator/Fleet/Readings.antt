-- ===== src/Simulator/Fleet/Readings.antt =====
-- src/planter_telemetry/simulator/stream.py: the fleet's emissions carry well-formed readings.
use planter_telemetry.Simulator.Fleet.{
  phase_start, ImperfectionRolls, DeviceRolls, merge_two, merged_emissions, wakes_of, device_stream,
  cons_stream, fleet_streams, merged_streams, build_streams,
}
use planter_telemetry.Simulator.Stream.{Emission, Wake, Rates, fresh}
use planter_telemetry.Simulator.Stream.Readings.{Carry, device_emissions-Carry}
use planter_telemetry.Simulator.Dynamics.{draw_device_params, start_device, device_readings}
use planter_telemetry.Contract.Reading.{TelemetryV1}
use planter_telemetry.Prelude.Floats.{Floats, lit}
use planter_telemetry.Prelude.Time.{instant_add, max_instant}
use planter_telemetry.Contract.Reading.Bounds.{WellFormed, instant_add-le}
use planter_telemetry.Contract.Topic.{is_device_id}
use planter_telemetry.Simulator.Dynamics.InRange.{
  RangeLaws, InTank, IsRate, IsDrawn, device_readings-WellFormed,
}
use planter_telemetry.Simulator.Dynamics.{uniform}
use planter_telemetry.Prelude.Int.{ℤ, neg_part}
use planter_telemetry.Prelude.{
  arith, All-imp, refl, ◌≤◌, true, ℕ, suc, List, [], ◌∷◌, Option, none, some, All, Text, leb,
  Bool-cases, inl, inr, ◌≡◌,
}
use mathlib.Core.Path.{subst}

module _ {F : Type 0} (P : TelemetryV1 F → Type 0) where
  merge_two-Carry :
      (xs ys : List (Emission F)) → Carry P xs → Carry P ys → Carry P (merge_two xs ys)
  unfolding merge_two
  merge_two-Carry [] ys a b = b
  merge_two-Carry (x ∷ xs) [] a b = a
  merge_two-Carry (x ∷ xs) (y ∷ ys) a b = elim (Bool-cases (leb x.publish_at y.publish_at)) [
    | inl e ↦ rw (e) (a.0, merge_two-Carry xs (y ∷ ys) a.1 b)
    | inr e ↦ rw (e) (b.0, merge_two-Carry (x ∷ xs) ys a b.1)
  ]

  merged_emissions-Carry :
      (streams : List (List (Emission F)))
      → All (Carry P) streams
      → Carry P (merged_emissions streams)
  unfolding merged_emissions
  merged_emissions-Carry [] h = tt
  merged_emissions-Carry (stream ∷ streams) h =
      merge_two-Carry stream (merged_emissions streams) h.0 (merged_emissions-Carry streams h.1)

  wakes_of-All :
      (readings : List (TelemetryV1 F)) (rolls : List (ImperfectionRolls F))
      → All P readings
      → All (λ (w : Wake F). P w.reading) (wakes_of readings rolls)
  unfolding wakes_of
  wakes_of-All [] rolls h = tt
  wakes_of-All (r ∷ readings) [] h = tt
  wakes_of-All (r ∷ readings) (q ∷ rolls) h = (h.0, wakes_of-All readings rolls h.1)

  abbrev CarryIn : Option (List (Emission F)) → Type 0
  CarryIn none = Unit
  CarryIn (some stream) = Carry P stream

  abbrev AllCarry : Option (List (List (Emission F))) → Type 0
  AllCarry none = Unit
  AllCarry (some streams) = All (Carry P) streams

-- an instant that `datetime` can hold, where there is one
abbrev IsInstant : Option ℕ → Type 0
IsInstant none = Unit
IsInstant (some at) = at ≤ max_instant

module _ {F : Type 0} ⦃fl : Floats F⦄ (P : TelemetryV1 F → Type 0) (round : F → ℕ → F)
    (rates : Rates F) (interval_seconds : F) (device_id : ℕ → Text) (start : ℕ) where
  -- `P` holds of the readings of a device, whatever its number and its start.
  abbrev pub Yields : ℤ → DeviceRolls F → Type 0
  Yields interval r =
      (index at : ℕ)
      → at ≤ max_instant
      → All P (
          device_readings round (draw_device_params r.params) interval (device_id index) r.wakes
            (start_device r.level r.battery at))

  phase_start-IsInstant :
      (phase : Option ℤ)
      → IsInstant (phase_start round rates interval_seconds device_id start phase)
  phase_start-IsInstant none = tt
  phase_start-IsInstant (some phase) = go (instant_add start phase) refl
    where
      go : (o : Option ℕ) → instant_add start phase ≡ o → IsInstant o
      go none e = tt
      go (some at) e = instant_add-le start phase e

  device_stream-CarryIn :
      (index : ℕ) (interval : ℤ) (at : Option ℕ) (r : DeviceRolls F)
      → IsInstant at
      → Yields interval r
      → CarryIn P (device_stream round rates interval_seconds device_id start index interval at r)
  unfolding device_stream
  device_stream-CarryIn index interval none r i h = tt
  device_stream-CarryIn index interval (some at) r i h =
      device_emissions-Carry P rates 0 (wakes_of _ r.imperfections) fresh
        (wakes_of-All P _ r.imperfections (h index at i)) (tt, tt)

  cons_stream-AllCarry :
      (a : Option (List (Emission F))) (b : Option (List (List (Emission F))))
      → CarryIn P a
      → AllCarry P b
      → AllCarry P (cons_stream round rates interval_seconds device_id start a b)
  cons_stream-AllCarry none b h k = tt
  cons_stream-AllCarry (some a) none h k = tt
  cons_stream-AllCarry (some a) (some b) h k = (h, k)

  fleet_streams-AllCarry :
      (index : ℕ) (interval : ℤ) (devices : List (DeviceRolls F))
      → All (Yields interval) devices
      → AllCarry P
          (fleet_streams round rates interval_seconds device_id start index interval devices)
  unfolding fleet_streams
  fleet_streams-AllCarry index interval [] h = tt
  fleet_streams-AllCarry index interval (r ∷ devices) h =
      cons_stream-AllCarry _ _
        (device_stream-CarryIn index interval _ r
          (phase_start-IsInstant (fl.timedelta_seconds (fl.mul r.phase interval_seconds))) h.0)
        (fleet_streams-AllCarry (suc index) interval devices h.1)

  merged_streams-CarryIn :
      (o : Option (List (List (Emission F))))
      → AllCarry P o
      → CarryIn P (merged_streams round rates interval_seconds device_id start o)
  merged_streams-CarryIn none h = tt
  merged_streams-CarryIn (some streams) h = merged_emissions-Carry P streams h

  -- What holds of each reading that a device draws holds of each reading that the fleet emits.
  pub build_streams-Carry :
      (devices : List (DeviceRolls F)) (interval : ℤ) (emissions : List (Emission F))
      → fl.timedelta_seconds interval_seconds ≡ some interval
      → All (Yields interval) devices
      → build_streams round rates interval_seconds device_id start devices ≡ some emissions
      → Carry P emissions
  unfolding build_streams
  build_streams-Carry devices interval emissions e h k =
      subst (CarryIn P) k
        (rw (e) (merged_streams-CarryIn _ (fleet_streams-AllCarry 0 interval devices h)))

module _ {F : Type 0} ⦃fl : Floats F⦄ (round : F → ℕ → F) (laws : RangeLaws round) (rates : Rates F)
    (interval_seconds : F) (device_id : ℕ → Text) (start : ℕ) where
  -- The draws of a device are what random() gives, its rate of depletion is finite and not negative, and
  -- its first level is of the tank.
  pub record IsDrawnDevice (interval : ℤ) (r : DeviceRolls F) : Type 0 where
    pub depletes : IsRate (draw_device_params r.params).depletion_pct_per_hour
    pub level : InTank (uniform (lit 40) (lit 100) r.level)
    pub wakes : All (IsDrawn round (draw_device_params r.params) interval laws depletes) r.wakes

  IsDrawnDevice-Yields :
      (interval : ℤ) (r : DeviceRolls F)
      → ((index : ℕ) → is_device_id (device_id index) ≡ true)
      → neg_part interval ≡ 0
      → IsDrawnDevice interval r
      → Yields WellFormed round rates interval_seconds device_id start interval r
  unfolding start_device
  IsDrawnDevice-Yields interval r ids n d index at i =
      device_readings-WellFormed round (draw_device_params r.params) interval laws d.depletes
        (device_id index) r.wakes (start_device r.level r.battery at) (ids index) n
        (d.level, omega arith, i) d.wakes

  -- Every emission of the fleet, a duplicate, a late and a corrupted one too, carries a reading that the
  -- contract accepts. The ids of the devices are of its pattern, the interval is not negative, the draws
  -- are numbers of random() whose jitters take away no more than the interval, the rates of depletion
  -- are finite and not negative, the first levels are of the tank, and the floats obey RangeLaws.
  pub build_streams-WellFormed :
      (devices : List (DeviceRolls F)) (interval : ℤ) (emissions : List (Emission F))
      → fl.timedelta_seconds interval_seconds ≡ some interval
      → ((index : ℕ) → is_device_id (device_id index) ≡ true)
      → neg_part interval ≡ 0
      → All (IsDrawnDevice interval) devices
      → build_streams round rates interval_seconds device_id start devices ≡ some emissions
      → All (λ (e : Emission F). WellFormed e.reading) emissions
  build_streams-WellFormed devices interval emissions e ids n d h =
      build_streams-Carry WellFormed round rates interval_seconds device_id start devices interval
        emissions e (All-imp _ _ devices (λ r k. IsDrawnDevice-Yields interval r ids n k) d) h
