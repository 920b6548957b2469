-- ===== src/Cli/Schedule.antt =====
-- src/planter_telemetry/cli/schedule.py: the offsets at which captured messages are published again. A time is a
-- number of microseconds since the year 1 in UTC; an aware datetime may lie outside of datetime's own
-- range there.
pub mod Pacing
use planter_telemetry.Prelude.Floats.{Floats, lit, max_f}
use planter_telemetry.Prelude.{none, [], ◌∷◌, if◌then◌else◌, some, ℕ, Option, List}
use planter_telemetry.Prelude.Int.{◌-ℤ◌, ℤ}
use planter_telemetry.Prelude.Time.{instant_sub}

module _ {F : Type 0} ⦃fl : Floats F⦄ (speed : F) where
  -- One message of the loop, from the `offset` so far; `previous` is the time of the message before
  unfoldable pub next_offset : F → Option ℤ → ℤ → F
  next_offset offset none timestamp = offset
  next_offset offset (some previous) timestamp =
      fl.add offset (fl.div (max_f (lit 0) (fl.total_seconds (timestamp -ℤ previous))) speed)

  unfoldable pub offsets_from : F → Option ℤ → List ℤ → List F
  unfolding next_offset
  offsets_from offset previous [] = []
  offsets_from offset previous (timestamp ∷ rest) =
      let next = next_offset offset previous timestamp in
      next ∷ offsets_from next (some timestamp) rest

  -- replay_offsets; none is the ValueError
  unfoldable pub replay_offsets : List ℤ → Option (List F)
  unfolding offsets_from
  replay_offsets captured_at =
      if fl.le speed (lit 0) then none else some (offsets_from (lit 0) none captured_at)
