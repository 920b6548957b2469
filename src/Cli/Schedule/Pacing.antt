-- ===== src/Cli/Schedule/Pacing.antt =====
-- src/planter_telemetry/cli/schedule.py: the offsets never decrease.
use planter_telemetry.Cli.Schedule.{next_offset, offsets_from, replay_offsets}
use planter_telemetry.Prelude.Floats.{Floats, lit, max_f}
use planter_telemetry.Prelude.{
  inr, suc, refl, ap, none, inl, length, some, [], Bool-cases, false, true, ◌∷◌, Option, ◌≡◌, List,
}
use planter_telemetry.Prelude.Int.{◌-ℤ◌, ℤ}

module _ {F : Type 0} ⦃fl : Floats F⦄ where
  -- What IEEE arithmetic says of numbers that are at least zero (so none of them is a NaN), for a
  -- divisor that is not at most zero.
  pub record NonNegative (speed : F) : Type 0 where
    pub le_refl : (x : F) → fl.le (lit 0) x ≡ true → fl.le x x ≡ true
    pub zero : fl.le (lit 0) (lit 0) ≡ true
    pub lt_le : (x : F) → fl.lt (lit 0) x ≡ true → fl.le (lit 0) x ≡ true
    pub add_ascends :
        (x y : F) → fl.le (lit 0) x ≡ true → fl.le (lit 0) y ≡ true → fl.le x (fl.add x y) ≡ true
    pub add_positive :
        (x y : F)
        → fl.le (lit 0) x ≡ true
        → fl.le (lit 0) y ≡ true
        → fl.le (lit 0) (fl.add x y) ≡ true
    pub div_positive : (x : F) → fl.le (lit 0) x ≡ true → fl.le (lit 0) (fl.div x speed) ≡ true

  -- No offset is less than the one before; the first is at least `x`.
  abbrev pub Ascending : F → List F → Type 0
  Ascending x [] = Unit
  Ascending x (y ∷ ys) = (fl.le x y ≡ true) × Ascending y ys

  max_f-positive : (speed x : F) → NonNegative speed → fl.le (lit 0) (max_f (lit 0) x) ≡ true
  max_f-positive speed x laws = elim (Bool-cases (fl.lt (lit 0) x)) [
    | inl e ↦ rw e (laws.lt_le x e)
    | inr e ↦ rw e (laws.zero)
  ]

  next_offset-ascends :
      (speed offset : F) (previous : Option ℤ) (timestamp : ℤ)
      → NonNegative speed
      → fl.le (lit 0) offset ≡ true
      → let next = next_offset speed offset previous timestamp in
        (fl.le offset next ≡ true) × (fl.le (lit 0) next ≡ true)
  unfolding next_offset
  next_offset-ascends speed offset none timestamp laws h = (laws.le_refl offset h, h)
  next_offset-ascends speed offset (some previous) timestamp laws h =
      let gap = fl.total_seconds (timestamp -ℤ previous) in
      let p = laws.div_positive (max_f (lit 0) gap) (max_f-positive speed gap laws) in
      (laws.add_ascends offset _ h p, laws.add_positive offset _ h p)

  offsets_from-Ascending :
      (speed offset : F) (previous : Option ℤ) (captured_at : List ℤ)
      → NonNegative speed
      → fl.le (lit 0) offset ≡ true
      → Ascending offset (offsets_from speed offset previous captured_at)
  unfolding offsets_from
  offsets_from-Ascending speed offset previous [] laws h = tt
  offsets_from-Ascending speed offset previous (timestamp ∷ rest) laws h =
      let (a, p) = next_offset-ascends speed offset previous timestamp laws h in
      (
        a,
        offsets_from-Ascending speed (next_offset speed offset previous timestamp) (some timestamp)
            rest laws p,
      )

  pub length-offsets_from :
      (speed offset : F) (previous : Option ℤ) (captured_at : List ℤ)
      → length (offsets_from speed offset previous captured_at) ≡ length captured_at
  unfolding offsets_from
  length-offsets_from speed offset previous [] = refl
  length-offsets_from speed offset previous (timestamp ∷ rest) = ap suc (
      length-offsets_from speed (next_offset speed offset previous timestamp) (some timestamp) rest)

  -- the first message is published at once
  abbrev pub StartsAtZero : List F → Type 0
  StartsAtZero [] = Unit
  StartsAtZero (offset ∷ offsets) = offset ≡ lit 0

  -- For a speed that is not at most zero, and under the laws of NonNegative for floats, there is
  -- one offset for each message, the first is zero, and none is less than the one before, in
  -- whatever order the times of capture are.
  pub replay_offsets-Ascending :
      (speed : F) (captured_at : List ℤ)
      → NonNegative speed
      → fl.le speed (lit 0) ≡ false
      → (offsets : List F) × (replay_offsets speed captured_at ≡ some offsets)
        × (length offsets ≡ length captured_at)
        × StartsAtZero offsets
        × Ascending (lit 0) offsets
  unfolding replay_offsets offsets_from next_offset
  replay_offsets-Ascending speed captured_at laws h = (
    offsets_from speed (lit 0) none captured_at,
    rw h refl,
    length-offsets_from speed (lit 0) none captured_at,
    starts captured_at,
    offsets_from-Ascending speed (lit 0) none captured_at laws laws.zero,
  )
    where
      starts : (captured_at : List ℤ) → StartsAtZero (offsets_from speed (lit 0) none captured_at)
      starts [] = tt
      starts (timestamp ∷ rest) = refl
