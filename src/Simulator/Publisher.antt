-- ===== src/Simulator/Publisher.antt =====
-- src/planter_telemetry/simulator/publisher.py: connect_with_retry. Which of the attempts to connect
-- succeed is the input; the sleeps between them are counted.
pub mod Run
use planter_telemetry.Prelude.{
  ℕ, zero, suc, Bool, true, false, if◌then◌else◌, ◌==◌, ◌≡◌, ◌≤◌, ◌<◌, ◌+◌, arith, inl, inr,
  Bool-cases,
}

-- A client, connected by that attempt; the OSError of the last attempt; the AssertionError. Each with
-- the number of sleeps.
pub data Connection : Type 0 where
  connected : ℕ → ℕ → Connection
  refused : ℕ → Connection
  unreachable : Connection

module _ (connects : ℕ → Bool) (attempts : ℕ) where
  -- the loop, with `left` attempts from number `attempt` on
  unfoldable connect_loop : ℕ → ℕ → ℕ → Connection
  connect_loop zero attempt sleeps = unreachable
  connect_loop (suc left) attempt sleeps =
      let again = connect_loop left (suc attempt) (suc sleeps) in
      if connects attempt
      then connected attempt sleeps
      else if attempt == attempts
      then refused sleeps
      else again

  unfoldable pub connect_with_retry : Connection
  unfolding connect_loop
  connect_with_retry = connect_loop attempts 1 0

  -- It fails for every attempt from `attempt` up to, and without, `end`.
  abbrev FailUntil : ℕ → ℕ → Type 0
  FailUntil attempt end = (n : ℕ) → attempt ≤ n → n < end → connects n ≡ false

  -- The first attempt that can connect, one sleep for each before it; or, where none can, the last one's
  -- error.
  abbrev pub IsFirst : ℕ → Connection → Type 0
  IsFirst attempt (connected n sleeps) =
      (connects n ≡ true) × (n ≤ attempts) × (sleeps + 1 ≡ n) × FailUntil attempt n
  IsFirst attempt (refused sleeps) = (sleeps + 1 ≡ attempts) × FailUntil attempt (attempts + 1)
  IsFirst attempt unreachable = ⊥

  FailUntil-later :
      (attempt end : ℕ)
      → connects attempt ≡ false
      → FailUntil (suc attempt) end
      → FailUntil attempt end
  FailUntil-later attempt end e h n l u = elim (Bool-cases (n == attempt)) [
    | inl same ↦ let eq : n ≡ attempt = ground arith in rw eq e
    | inr other ↦ h n (ground arith) u
  ]

  IsFirst-later :
      (attempt : ℕ) (x : Connection)
      → connects attempt ≡ false
      → IsFirst (suc attempt) x
      → IsFirst attempt x
  IsFirst-later attempt (connected n sleeps) e h = (h.0, h.1, h.2, FailUntil-later attempt n e h.3)
  IsFirst-later attempt (refused sleeps) e h = (h.0, FailUntil-later attempt (attempts + 1) e h.1)
  IsFirst-later attempt unreachable e h = h

  connect_loop-IsFirst :
      (left attempt sleeps : ℕ)
      → attempt + left ≡ attempts + 1
      → sleeps + 1 ≡ attempt
      → attempt ≤ attempts
      → IsFirst attempt (connect_loop left attempt sleeps)
  unfolding connect_loop
  connect_loop-IsFirst zero attempt sleeps h s l = absurd (omega (arith, h, l))
  connect_loop-IsFirst (suc left) attempt sleeps h s l = elim (Bool-cases (connects attempt)) [
    | inl e ↦ rw e (e, l, s, λ n a b. absurd (omega (arith, a, b)))
    | inr e ↦ elim (Bool-cases (attempt == attempts)) [
      | inl end ↦
          rw (e, end)
            (
              ground arith,
              FailUntil-later attempt (attempts + 1) e (λ n a b. absurd (ground arith)),
            )
      | inr more ↦
          rw (e, more)
            (IsFirst-later attempt _ e (
              connect_loop-IsFirst left (suc attempt) (suc sleeps) (omega (arith, h))
                (omega (arith, s)) (ground arith)))
    ]
  ]

  -- connect_with_retry ends after at most `attempts` attempts, of which there is at least one, whatever
  -- the broker does: with the client that the first attempt that succeeds has connected, or, if none
  -- does, with the OSError of the last one. It never reaches its AssertionError.
  pub connect_with_retry-IsFirst : 1 ≤ attempts → IsFirst 1 connect_with_retry
  unfolding connect_with_retry
  connect_with_retry-IsFirst h = connect_loop-IsFirst attempts 1 0 (omega arith) (omega arith) h
