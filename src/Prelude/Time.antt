-- ===== src/Prelude/Time.antt =====
-- Python's `datetime` and `timedelta`. An instant is the number of microseconds since
-- 0001-01-01T00:00:00 UTC, which is `datetime.min`, so every representable one is a natural number.
use Prim.Native.Nat.{ℕ, ◌+◌, ◌-◌, ◌*◌}
use mathlib.Core.Option.{Option, none, some}
use planter_telemetry.Prelude.Tests.{ltb, if◌then◌else◌}
use planter_telemetry.Prelude.Int.{ℤ, pos_part, neg_part, sub_ℕ}

-- datetime.max, 9999-12-31T23:59:59.999999: 3652059 days of 86400000000 microseconds, less one
abbrev pub max_instant : ℕ
max_instant = 3652059 * 86400000000 - 1

-- `a - b` of two instants, a timedelta in microseconds
abbrev pub instant_sub : ℕ → ℕ → ℤ
instant_sub a b = sub_ℕ a b

-- `t + d`; none is the OverflowError "date value out of range"
unfoldable pub instant_add : ℕ → ℤ → Option ℕ
instant_add t d =
    let a = t + pos_part d in
    if ltb a (neg_part d)
    then none
    else if ltb max_instant (a - neg_part d)
    then none
    else some (a - neg_part d)
