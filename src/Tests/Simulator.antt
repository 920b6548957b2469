-- ===== src/Tests/Simulator.antt =====
-- src/planter_telemetry/simulator/stream.py at concrete draws.
use planter_telemetry.Contract.Topic.{is_device_id}
use planter_telemetry.Prelude.{◌*◌}
use planter_telemetry.Prelude.{refl, All, true}
use planter_telemetry.Prelude.Floats.{lit}
use planter_telemetry.Prelude.Int.{negsuc}
use planter_telemetry.Simulator.Dynamics.InRange.{RangeLaws, IsRate, InUnit, InTank}
use planter_telemetry.Contract.Reading.Bounds.{WellFormed}
use planter_telemetry.Prelude.Int.{◌*ℤ◌, ◌+ℤ◌, ◌-ℤ◌}
use planter_telemetry.Simulator.Dynamics.{jitter_of, draw_device_params, uniform}
use planter_telemetry.Simulator.Dynamics.Forward.{IsShort}
use planter_telemetry.Simulator.Publisher.{connect_with_retry, connect_with_retry-IsFirst, IsFirst}
use planter_telemetry.Simulator.Dynamics.{WakeRolls}
use planter_telemetry.Simulator.Fleet.{DeviceRolls, ImperfectionRolls, build_streams}
use planter_telemetry.Simulator.Fleet.Readings.{IsDrawnDevice, build_streams-WellFormed}
use planter_telemetry.Simulator.Fleet.Ordered.{build_streams-Ascends}
use planter_telemetry.Simulator.Stream.Ordered.{publish_time}
use planter_telemetry.Simulator.Stream.{Emission}
use planter_telemetry.Prelude.{◌≡◌, refl, ◌==◌, some, none, Option, Bool, Ascends}
use planter_telemetry.Tests.Fixtures.{pot}
use planter_telemetry.Prelude.{[], arith, ◌∷◌, ℕ, List}
use planter_telemetry.Simulator.Stream.{Wake, Rates}
use planter_telemetry.Prelude.Int.{◌*ℤ◌, pos, ℤ}
use planter_telemetry.Prelude.Time.{instant_add}
use planter_telemetry.Tests.Fixtures.{milli, reading_at}

abbrev rates : Rates ℤ
rates = record {
  duplicate_rate = pos 100;
  out_of_order_rate = pos 500;
  malformed_rate = pos 100;
  missed_checkin_rate = pos 100;
}

-- a wake whose reading is held back for `wakes` wakes
abbrev late_wake : ℕ → ℕ → Wake ℤ
late_wake hour wakes = record {
  reading = reading_at hour;
  missed_roll = pos 900;
  malformed_roll = pos 900;
  duplicate_roll = pos 900;
  defer_roll = pos 300;
  defer_wakes = wakes;
}

abbrev night : List (Wake ℤ)
night = late_wake 1 3 ∷ late_wake 2 3 ∷ late_wake 3 1 ∷ []

-- the broker comes up at the third attempt
abbrev third : ℕ → Bool
third n = n == 3

connect_with_retry-IsFirst_example : IsFirst third 30 1 (connect_with_retry third 30)
connect_with_retry-IsFirst_example = connect_with_retry-IsFirst third 30 (omega arith)

-- one planter: two wakes, of half of every range
abbrev half : WakeRolls ℤ
half = record {
  jitter = pos 500;
  refill = pos 500;
  refill_target = pos 500;
  recharge_target = pos 500;
  adc_noise = pos 500;
}

abbrev calm : ImperfectionRolls ℤ
calm = record {
  missed = pos 900;
  malformed = pos 900;
  duplicate = pos 50;
  defer = pos 900;
  defer_wakes = 1;
}

abbrev planter : ℤ → DeviceRolls ℤ
planter phase = record {
  params = record {
    tank_days = pos 500;
    battery_days = pos 500;
    refill_threshold = pos 500;
    refill_prob = pos 500;
    jitter = pos 500;
  };
  phase = phase;
  level = pos 500;
  battery = pos 500;
  wakes = half ∷ half ∷ [];
  imperfections = calm ∷ calm ∷ [];
}

abbrev fleet : List (DeviceRolls ℤ)
fleet = planter (pos 700) ∷ planter (pos 200) ∷ []

abbrev merged : Option (List (Emission ℤ))
merged = build_streams (λ x n. x) rates (pos 300000) (λ n. pot) 5000000 fleet

abbrev emissions : List (Emission ℤ)
emissions = elim merged [ none ↦ [] | some es ↦ es ]

merged-emissions : merged ≡ some emissions
unfolding build_streams instant_add ◌*ℤ◌
merged-emissions = refl

-- half of a range about zero
half-jitter :
    jitter_of (λ x n. x) (draw_device_params (planter (pos 0)).params) (pos 300000000) half
    ≡ some (pos 0)
unfolding jitter_of draw_device_params uniform ◌+ℤ◌ ◌-ℤ◌ ◌*ℤ◌
half-jitter = refl

half-IsShort :
    IsShort
      (pos 300000000)
      (jitter_of (λ x n. x) (draw_device_params (planter (pos 0)).params) (pos 300000000) half)
half-IsShort = rw half-jitter (omega arith)

build_streams-Ascends_example : Ascends publish_time 0 emissions
unfolding ◌*ℤ◌
build_streams-Ascends_example =
    build_streams-Ascends (λ x n. x) rates (pos 300000) (λ n. pot) 5000000 fleet (pos 300000000)
      emissions refl refl
      ((half-IsShort, (half-IsShort, tt)), ((half-IsShort, (half-IsShort, tt)), tt))
      merged-emissions

mul-pos : (a b : ℕ) → pos a *ℤ pos b ≡ pos (a * b)
unfolding ◌*ℤ◌
mul-pos a b = ground arith

half-depletes : IsRate (draw_device_params (planter (pos 0)).params).depletion_pct_per_hour
unfolding draw_device_params uniform ◌*ℤ◌ ◌+ℤ◌ ◌-ℤ◌
half-depletes = (refl, refl)

pot-id : is_device_id pot ≡ true
unfolding is_device_id
pot-id = refl

-- numbers of three decimals are rounded already
exact-RangeLaws : RangeLaws ⦃fl = milli⦄ (λ x n. x)
unfolding uniform ◌*ℤ◌ ◌+ℤ◌ ◌-ℤ◌
exact-RangeLaws = record {
  lt_le = λ x y h. ground arith;
  empty = (refl, refl);
  lowest = refl;
  highest = refl;
  volts = refl;
  refilled = λ roll h. refill roll h;
  hours = λ n h. (ground arith, refl);
  mul_positive = λ x y h k. mul x y h.0 k.0;
  drained = λ x y h k. ground arith;
  rounded = λ x h. h;
}
  where
    mul :
        (x y : ℤ)
        → milli.le (lit 0) x ≡ true
        → milli.le (lit 0) y ≡ true
        → milli.le (lit 0) (milli.mul x y) ≡ true
    mul (pos a) (pos b) h k = rw (mul-pos a b) (ground arith)
    mul (pos a) (negsuc b) h k = absurd (ground arith)
    mul (negsuc a) y h k = absurd (ground arith)

    refill : (roll : ℤ) → InUnit roll → InTank (uniform (lit 92) (lit 100) roll)
    refill (pos n) h = rw (mul-pos 8000 n) (ground (arith, h.1))
    refill (negsuc n) h = absurd (ground arith)

half-level : InTank (uniform (lit 40) (lit 100) (pos 500))
unfolding uniform ◌*ℤ◌ ◌+ℤ◌ ◌-ℤ◌
half-level = (refl, refl)

planter-IsDrawnDevice :
    (phase : ℤ)
    → IsDrawnDevice
        (λ x n. x)
        exact-RangeLaws
        rates
        (pos 300000)
        (λ n. pot)
        5000000
        (pos 300000000)
        (planter phase)
planter-IsDrawnDevice phase = record {
  depletes = half-depletes;
  level = half-level;
  wakes = (((refl, refl), half-IsShort), (((refl, refl), half-IsShort), tt));
}

build_streams-WellFormed_example : All (λ (e : Emission ℤ). WellFormed e.reading) emissions
unfolding ◌*ℤ◌
build_streams-WellFormed_example =
    build_streams-WellFormed (λ x n. x) exact-RangeLaws rates (pos 300000) (λ n. pot) 5000000 fleet
      (pos 300000000) emissions refl (λ index. pot-id) refl
      (planter-IsDrawnDevice (pos 700), (planter-IsDrawnDevice (pos 200), tt)) merged-emissions
