-- ===== src/Simulator/Dynamics/InRange.antt =====
-- src/planter_telemetry/simulator/dynamics.py: the readings satisfy the contract.
use planter_telemetry.Simulator.Dynamics.Forward.{IsLater}
use planter_telemetry.Prelude.{
  if◌then◌else◌, Bool, none, some, ◌∷◌, [], List, Text, ℕ, Option, true, false, All, ◌≡◌, ◌≤◌, inl,
  inr, Bool-cases, arith, ◌-◌, refl,
}
use planter_telemetry.Simulator.Dynamics.{
  DeviceParams, WakeRolls, Device, device_readings, next_at, add_jitter, until_overflow, jitter_of,
  reading_of, wake_level, wake_battery, uniform, min_f,
}
use planter_telemetry.Simulator.Dynamics.Forward.{IsShort, next_at-IsLater}
use planter_telemetry.Contract.Reading.Bounds.{WellFormed, instant_add-le}
use planter_telemetry.Contract.Topic.{is_device_id}
use planter_telemetry.Prelude.Floats.{Floats, lit, max_f}
use planter_telemetry.Prelude.Time.{instant_add, instant_sub, max_instant}
use planter_telemetry.Prelude.Int.{ℤ, pos, neg_part}

module _ {F : Type 0} ⦃fl : Floats F⦄ where
  -- from 0 to 100
  abbrev pub InTank : F → Type 0
  InTank x = (fl.le (lit 0) x ≡ true) × (fl.le x (lit 100) ≡ true)

  -- a draw of random()
  abbrev pub InUnit : F → Type 0
  InUnit roll = (fl.le (lit 0) roll ≡ true) × (fl.lt roll (lit 1) ≡ true)

  -- a number from zero up, neither infinite nor NaN
  abbrev pub IsRate : F → Type 0
  IsRate x = (fl.le (lit 0) x ≡ true) × (fl.is_finite x ≡ true)

  -- What IEEE arithmetic, random.uniform and round say of the numbers that a device uses.
  pub record RangeLaws (round : F → ℕ → F) : Type 0 where
    pub lt_le : (x y : F) → fl.lt x y ≡ true → fl.le x y ≡ true
    pub empty : InTank (lit 0)
    pub lowest : fl.le (fl.ratio 25 10) (fl.ratio 25 10) ≡ true
    pub highest : fl.le (fl.ratio 44 10) (fl.ratio 44 10) ≡ true
    pub volts : fl.le (fl.ratio 25 10) (fl.ratio 44 10) ≡ true
    -- random.uniform(92.0, 100.0) lies between its bounds
    pub refilled : (roll : F) → InUnit roll → InTank (uniform (lit 92) (lit 100) roll)
    -- the hours between two instants
    pub hours : (n : ℕ) → n ≤ max_instant → IsRate (fl.div (fl.total_seconds (pos n)) (lit 3600))
    -- the product of two finite numbers is a number, or infinite if it is too large
    pub mul_positive : (x y : F) → IsRate x → IsRate y → fl.le (lit 0) (fl.mul x y) ≡ true
    pub drained :
        (x y : F)
        → fl.le x (lit 100) ≡ true
        → fl.le (lit 0) y ≡ true
        → fl.le (fl.sub x y) (lit 100) ≡ true
    pub rounded : (x : F) → InTank x → InTank (round x 1)

module _ {F : Type 0} ⦃fl : Floats F⦄ (round : F → ℕ → F) (params : DeviceParams F) (interval : ℤ)
    (laws : RangeLaws round) (depletes : IsRate params.depletion_pct_per_hour) where
  -- The tank's level is in range, and time has not run backwards.
  abbrev pub IsSane : Device F → Type 0
  IsSane s = InTank s.level × (s.prev_at ≤ s.at) × (s.at ≤ max_instant)

  instant_sub-pos : (a b : ℕ) → b ≤ a → instant_sub a b ≡ pos (a - b)
  instant_sub-pos a b h = ground arith

  drained-InTank :
      (x y : F)
      → fl.le x (lit 100) ≡ true
      → fl.le (lit 0) y ≡ true
      → InTank (max_f (lit 0) (fl.sub x y))
  drained-InTank x y h k = elim (Bool-cases (fl.lt (lit 0) (fl.sub x y))) [
    | inl e ↦ rw e (laws.lt_le (lit 0) (fl.sub x y) e, laws.drained x y h k)
    | inr e ↦ rw e laws.empty
  ]

  if-InTank : (b : Bool) (x y : F) → InTank x → InTank y → InTank (if b then x else y)
  if-InTank true x y h k = h
  if-InTank false x y h k = k

  wake_level-InTank :
      (r : WakeRolls F) (s : Device F)
      → IsSane s
      → InUnit r.refill_target
      → InTank (wake_level round params interval r s)
  unfolding wake_level
  wake_level-InTank r s h u = if-InTank _ _ _ (laws.refilled r.refill_target u) (
      drained-InTank s.level _ h.0.1 (
        laws.mul_positive _ _ depletes (
          rw (instant_sub-pos s.at s.prev_at h.1)
            (laws.hours (s.at - s.prev_at) (ground (arith, h.2))))))

  abbrev InVolts : F → Type 0
  InVolts v = (fl.le (fl.ratio 25 10) v ≡ true) × (fl.le v (fl.ratio 44 10) ≡ true)

  max_f-low : (x : F) → fl.le (fl.ratio 25 10) (max_f (fl.ratio 25 10) x) ≡ true
  max_f-low x = elim (Bool-cases (fl.lt (fl.ratio 25 10) x)) [
    | inl e ↦ rw e (laws.lt_le (fl.ratio 25 10) x e)
    | inr e ↦ rw e laws.lowest
  ]

  min_f-InVolts : (m : F) → fl.le (fl.ratio 25 10) m ≡ true → InVolts (min_f (fl.ratio 44 10) m)
  min_f-InVolts m h = elim (Bool-cases (fl.lt m (fl.ratio 44 10))) [
    | inl e ↦ rw e (h, laws.lt_le m (fl.ratio 44 10) e)
    | inr e ↦ rw e (laws.volts, laws.highest)
  ]

  reading_of-WellFormed :
      (device_id : Text) (r : WakeRolls F) (s : Device F)
      → is_device_id device_id ≡ true
      → IsSane s
      → InUnit r.refill_target
      → WellFormed (reading_of round params interval device_id r s)
  unfolding reading_of
  reading_of-WellFormed device_id r s d h u =
      let water = laws.rounded _ (wake_level-InTank r s h u) in
      let volts = min_f-InVolts _ (max_f-low _) in
      record {
        version = refl;
        id = d;
        time = h.2;
        water_low = water.0;
        water_high = water.1;
        battery_low = volts.0;
        battery_high = volts.1;
      }

  -- A value, where there is one, is a time of datetime's range.
  abbrev IsInstant : Option ℕ → Type 0
  IsInstant none = Unit
  IsInstant (some at) = at ≤ max_instant

  next_at-IsInstant :
      (at : ℕ) (jitter : Option ℤ) → IsInstant (next_at round params interval at jitter)
  next_at-IsInstant at none = tt
  next_at-IsInstant at (some jitter) = of_sum (instant_add at interval)
    where
      of_result : (o : Option ℕ) (next : ℕ) → instant_add next jitter ≡ o → IsInstant o
      of_result none next e = tt
      of_result (some u) next e = instant_add-le next jitter e

      of_sum : (o : Option ℕ) → IsInstant (add_jitter o jitter)
      of_sum none = tt
      of_sum (some next) = of_result (instant_add next jitter) next refl

  -- The draws of a wake: the refill is one of random(), and the jitter takes away no more than the
  -- interval.
  abbrev pub IsDrawn : WakeRolls F → Type 0
  IsDrawn r = InUnit r.refill_target × IsShort interval (jitter_of round params interval r)

  -- Every reading that a simulated device makes satisfies the contract's WellFormed, under the
  -- RangeLaws of floats: from a device whose level and times are in range, for any draws whose
  -- refills are numbers of random() and whose jitters take away no more than the interval, which is
  -- not negative, and for a rate of depletion that is finite and not negative. The battery's draws may be
  -- anything, a NaN too.
  pub device_readings-WellFormed :
      (device_id : Text) (rolls : List (WakeRolls F)) (s : Device F)
      → is_device_id device_id ≡ true
      → neg_part interval ≡ 0
      → IsSane s
      → All IsDrawn rolls
      → All WellFormed (device_readings round params interval device_id rolls s)
  unfolding device_readings
  device_readings-WellFormed device_id [] s d n h k = tt
  device_readings-WellFormed device_id (r ∷ rolls) s d n h k = (
    reading_of-WellFormed device_id r s d h k.0.0,
    later (next_at round params interval s.at (jitter_of round params interval r))
        (next_at-IsLater round params interval s.at (jitter_of round params interval r) n k.0.1)
        (next_at-IsInstant s.at (jitter_of round params interval r))
        (λ s' h'. device_readings-WellFormed device_id rolls s' d n h' k.1),
  )
    where
      later :
          (o : Option ℕ)
          → IsLater s.at o
          → IsInstant o
          → ((s' : Device F)
              → IsSane s'
              → All WellFormed (device_readings round params interval device_id rolls s'))
          → All WellFormed (
              until_overflow
                (λ at. device_readings round params interval device_id rolls (record {
                  level = wake_level round params interval r s;
                  battery = wake_battery round params interval r s;
                  at = at;
                  prev_at = s.at;
                }))
                o)
      later none l i rest = tt
      later (some at) l i rest = rest _ (wake_level-InTank r s h k.0.0, l, i)
