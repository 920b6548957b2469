-- ===== src/Analytics/Forecast/Returning.antt =====
-- src/planter_telemetry/analytics/model.py: computations that raise nothing but an OverflowError.
use planter_telemetry.Prelude.{
  none, overflow_error, some, ◌≡◌, true, false, raised, ◌>>=◌, if◌then◌else◌, ok, Option, Result,
  Bool,
}

abbrev pub is_some {ℓ} : {A : Type ℓ} → Option A → Bool
is_some none = false
is_some (some a) = true

-- `P` holds of what is returned, and nothing but an OverflowError is raised.
abbrev pub Returns : {A : Type 0} → (A → Type 0) → Result A → Type 0
Returns P (ok a) = P a
Returns P (raised e) = e ≡ overflow_error

pub Returns-bind :
    {A B : Type 0} (P : A → Type 0) (Q : B → Type 0) (m : Result A) (f : A → Result B)
    → Returns P m
    → ((a : A) → P a → Returns Q (f a))
    → Returns Q (m >>= f)
Returns-bind P Q (ok a) f h k = k a h
Returns-bind P Q (raised e) f h k = h

pub Returns-if :
    {A : Type 0} (P : A → Type 0) (b : Bool) (x y : Result A)
    → Returns P x
    → Returns P y
    → Returns P (if b then x else y)
Returns-if P true x y hx hy = hx
Returns-if P false x y hx hy = hy
