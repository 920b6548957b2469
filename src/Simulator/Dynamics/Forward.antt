-- ===== src/Simulator/Dynamics/Forward.antt =====
-- src/planter_telemetry/simulator/dynamics.py: a short interval can never make time run backwards.
use planter_telemetry.Prelude.{
  Ascends-weaken, refl, inr, inl, arith, ◌+◌, Option-cases, ◌≡◌, ◌≤◌, none, some, ◌∷◌, [], List,
  Text, ℕ, Option, Ascends, All,
}
use planter_telemetry.Simulator.Dynamics.{
  wake_battery, wake_level, until_overflow, add_jitter, DeviceParams, WakeRolls, Device,
  device_readings, next_at, jitter_of, reading_of,
}
use planter_telemetry.Contract.Reading.{TelemetryV1}
use planter_telemetry.Prelude.Floats.{Floats}
use planter_telemetry.Prelude.Time.{instant_add}
use planter_telemetry.Prelude.Int.{ℤ, pos_part, neg_part}

-- The jitter, where it is a timedelta at all, takes away no more than the interval.
abbrev pub IsShort : ℤ → Option ℤ → Type 0
IsShort interval none = Unit
IsShort interval (some jitter) = neg_part jitter ≤ pos_part interval

-- A value, where there is one, is at least `t`.
abbrev pub IsLater : ℕ → Option ℕ → Type 0
IsLater t none = Unit
IsLater t (some u) = t ≤ u

instant_add-parts : (t u : ℕ) (d : ℤ) → instant_add t d ≡ some u → u + neg_part d ≡ t + pos_part d
unfolding instant_add
instant_add-parts t u d h = ground arith

module _ {F : Type 0} ⦃fl : Floats F⦄ (round : F → ℕ → F) (params : DeviceParams F)
    (interval : ℤ) where
  pub next_at-IsLater :
      (at : ℕ) (jitter : Option ℤ)
      → neg_part interval ≡ 0
      → IsShort interval jitter
      → IsLater at (next_at round params interval at jitter)
  next_at-IsLater at none h k = tt
  next_at-IsLater at (some jitter) h k =
      elim (Option-cases (add_jitter (instant_add at interval) jitter)) [
        | inl e ↦ rw e tt
        | inr (u, e) ↦ rw e (later (instant_add at interval) refl e)
      ]
    where
      later :
          (o : Option ℕ) {u : ℕ}
          → instant_add at interval ≡ o
          → add_jitter o jitter ≡ some u
          → at ≤ u
      later none e f = cc
      later (some next) {u} e f =
          omega
            (arith, h, k, instant_add-parts at next interval e, instant_add-parts next u jitter f)

  -- The readings of a device are in the order of their times, from its next wake on, if the jitter takes
  -- away no more than an interval, which is not negative.
  pub device_readings-Ascends :
      (device_id : Text) (rolls : List (WakeRolls F)) (s : Device F)
      → neg_part interval ≡ 0
      → All (λ r. IsShort interval (jitter_of round params interval r)) rolls
      → Ascends
          (λ (r : TelemetryV1 F). r.measured_at)
          s.at
          (device_readings round params interval device_id rolls s)
  unfolding device_readings reading_of
  device_readings-Ascends device_id [] s h k = tt
  device_readings-Ascends device_id (r ∷ rolls) s h k = (
    omega arith,
    later (next_at round params interval s.at (jitter_of round params interval r))
        (next_at-IsLater s.at (jitter_of round params interval r) h k.0)
        (λ s'. device_readings-Ascends device_id rolls s' h k.1),
  )
    where
      later :
          (o : Option ℕ)
          → IsLater s.at o
          → ((s' : Device F)
              → Ascends
                  (λ (r : TelemetryV1 F). r.measured_at)
                  s'.at
                  (device_readings round params interval device_id rolls s'))
          → Ascends
              (λ (r : TelemetryV1 F). r.measured_at)
              s.at
              (until_overflow
                (λ at. device_readings round params interval device_id rolls (record {
                  level = wake_level round params interval r s;
                  battery = wake_battery round params interval r s;
                  at = at;
                  prev_at = s.at;
                }))
                o)
      later none l rest = tt
      later (some at) l rest =
          Ascends-weaken (λ (r : TelemetryV1 F). r.measured_at) at s.at _ l (rest _)
