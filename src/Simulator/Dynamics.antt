-- ===== src/Simulator/Dynamics.antt =====
-- src/planter_telemetry/simulator/dynamics.py: one device's readings. What the random generator draws,
-- numbers from 0 to 1, is part of the input, as is round, a built-in.
pub mod Forward
pub mod InRange
use planter_telemetry.Prelude.{none, some, ◌∷◌, [], List, Text, ℕ, Option}
use planter_telemetry.Contract.Reading.{TelemetryV1}
use planter_telemetry.Prelude.Floats.{Floats, lit, max_f}
use planter_telemetry.Prelude.Time.{instant_add, instant_sub}
use planter_telemetry.Prelude.{◌∷◌, some, List, Text, Option, ◌&&◌, ℕ, if◌then◌else◌}
use planter_telemetry.Prelude.Int.{ℤ}

pub record DeviceParams (F : Type 0) : Type 0 where
  pub depletion_pct_per_hour : F
  pub refill_threshold_pct : F
  pub refill_prob_per_wake : F
  pub battery_decay_v_per_hour : F
  pub jitter_seconds : F

-- the draws of draw_device_params
pub record ParamRolls (F : Type 0) : Type 0 where
  pub tank_days : F
  pub battery_days : F
  pub refill_threshold : F
  pub refill_prob : F
  pub jitter : F

-- the draws of one wake
pub record WakeRolls (F : Type 0) : Type 0 where
  pub jitter : F
  pub refill : F
  pub refill_target : F
  pub recharge_target : F
  pub adc_noise : F

-- the generator between two readings
pub record Device (F : Type 0) : Type 0 where
  pub level : F
  pub battery : F
  pub at : ℕ
  pub prev_at : ℕ

abbrev pub add_jitter : Option ℕ → ℤ → Option ℕ
add_jitter none jitter = none
add_jitter (some next) jitter = instant_add next jitter

abbrev pub until_overflow : {A : Type 0} → (ℕ → List A) → Option ℕ → List A
until_overflow later none = []
until_overflow later (some at) = later at

module _ {F : Type 0} ⦃fl : Floats F⦄ where
  -- min(x, y): the first argument, unless the second is less
  abbrev pub min_f : F → F → F
  min_f x y = if fl.lt y x then y else x

  -- rng.uniform(a, b)
  unfoldable pub uniform : F → F → F → F
  uniform a b roll = fl.add a (fl.mul (fl.sub b a) roll)

  -- _BATTERY_FULL_V
  abbrev battery_full : F
  battery_full = fl.ratio 42 10

  unfoldable pub draw_device_params : ParamRolls F → DeviceParams F
  unfolding uniform
  draw_device_params r =
      let tank_days = uniform (lit 2) (lit 6) r.tank_days in
      let battery_days = uniform (lit 14) (lit 28) r.battery_days in
      record {
        depletion_pct_per_hour = fl.div (lit 100) (fl.mul tank_days (lit 24));
        refill_threshold_pct = uniform (lit 5) (lit 25) r.refill_threshold;
        refill_prob_per_wake = uniform (fl.ratio 2 10) (fl.ratio 6 10) r.refill_prob;
        battery_decay_v_per_hour =
            fl.div (fl.sub battery_full (lit 3)) (fl.mul battery_days (lit 24));
        jitter_seconds = uniform (lit 0) (lit 15) r.jitter;
      }

  -- before the first reading
  unfoldable pub start_device : F → F → ℕ → Device F
  unfolding uniform
  start_device level_roll battery_roll start = record {
    level = uniform (lit 40) (lit 100) level_roll;
    battery = uniform (fl.ratio 37 10) battery_full battery_roll;
    at = start;
    prev_at = start;
  }

module _ {F : Type 0} ⦃fl : Floats F⦄ (round : F → ℕ → F) (params : DeviceParams F)
    (interval : ℤ) where
  abbrev jitter_limit : F
  jitter_limit = min_f params.jitter_seconds (fl.div (fl.total_seconds interval) (lit 4))

  -- timedelta(seconds=jitter); none is an OverflowError
  unfoldable pub jitter_of : WakeRolls F → Option ℤ
  unfolding uniform
  jitter_of r = fl.timedelta_seconds (uniform (fl.neg jitter_limit) jitter_limit r.jitter)

  -- level and battery at this wake
  unfoldable pub wake_level : WakeRolls F → Device F → F
  unfolding uniform
  wake_level r s =
      let elapsed = fl.div (fl.total_seconds (instant_sub s.at s.prev_at)) (lit 3600) in
      let level = max_f (lit 0) (fl.sub s.level (fl.mul params.depletion_pct_per_hour elapsed)) in
      if fl.lt level params.refill_threshold_pct && fl.lt r.refill params.refill_prob_per_wake
      then uniform (lit 92) (lit 100) r.refill_target
      else level

  unfoldable pub wake_battery : WakeRolls F → Device F → F
  unfolding uniform
  wake_battery r s =
      let elapsed = fl.div (fl.total_seconds (instant_sub s.at s.prev_at)) (lit 3600) in
      let battery = fl.sub s.battery (fl.mul params.battery_decay_v_per_hour elapsed) in
      if fl.lt battery (lit 3)
      then uniform (fl.ratio 415 100) (fl.ratio 425 100) r.recharge_target
      else battery

  unfoldable pub reading_of : Text → WakeRolls F → Device F → TelemetryV1 F
  unfolding wake_level wake_battery uniform
  reading_of device_id r s =
      let noise = uniform (fl.neg (fl.ratio 5 1000)) (fl.ratio 5 1000) r.adc_noise in
      record {
        schema_version = 1;
        device_id = device_id;
        measured_at = s.at;
        water_level = round (wake_level r s) 1;
        battery_voltage =
            min_f (fl.ratio 44 10)
              (max_f (fl.ratio 25 10) (round (fl.add (wake_battery r s) noise) 3));
      }

  -- at + interval + timedelta(seconds=jitter)
  abbrev pub next_at : ℕ → Option ℤ → Option ℕ
  next_at at none = none
  next_at at (some jitter) = add_jitter (instant_add at interval) jitter

  -- device_readings, for so many wakes; an OverflowError ends the series
  unfoldable pub device_readings : Text → List (WakeRolls F) → Device F → List (TelemetryV1 F)
  unfolding reading_of jitter_of
  device_readings device_id [] s = []
  device_readings device_id (r ∷ rolls) s =
      reading_of device_id r s
      ∷ until_overflow
          (λ at. device_readings device_id rolls (record {
            level = wake_level r s;
            battery = wake_battery r s;
            at = at;
            prev_at = s.at;
          }))
          (next_at s.at (jitter_of r))
