-- ===== src/Cli/Capture/Stops.antt =====
-- src/planter_telemetry/cli: a capture that parse_command lets through stops.
use mathlib.Core.Path.{subst}
use planter_telemetry.Cli.Command.Checked.{parse_command-IsChecked}
use planter_telemetry.Prelude.{refl, ◌++◌, arith, ◌∷◌, [], List, suc, length-append}
use planter_telemetry.Prelude.Int.{negsuc}
use planter_telemetry.Cli.Capture.{
  Event, message, timeout, Capture, returned, is_enough, captured, capture_loop, capture,
}
use planter_telemetry.Cli.Command.{
  Args, parse_command, command, capture_command, CaptureCommand, is_small,
}
use planter_telemetry.Cli.Records.{Codecs, encode_record, record_of}
use planter_telemetry.Prelude.Floats.{Floats}
use planter_telemetry.Prelude.{
  Bool-cases, inr, none, inl, ◌⊎◌, ◌+◌, [], true, false, Text, length, suc, some, Bool, ℕ, ◌≡◌,
  Option, List,
}
use planter_telemetry.Analytics.Store.{is_none}
use planter_telemetry.Prelude.Int.{ℤ, pos, leb_ℤ}

-- the messages before the first timeout
unfoldable pub arrivals : List Event → ℕ
arrivals [] = 0
arrivals (timeout ∷ events) = 0
arrivals (message topic payload now ∷ events) = suc (arrivals events)

unfoldable pub has_timeout : List Event → Bool
has_timeout [] = false
has_timeout (timeout ∷ events) = true
has_timeout (message topic payload now ∷ events) = has_timeout events

-- The events bring as many messages as --count asks for, or the timer of --duration fires.
abbrev MeetsBound : {F : Type 0} → CaptureCommand F → List Event → Type 0
MeetsBound c events =
    (is_enough c.count (arrivals events) ≡ true)
    ⊎ ((is_none c.duration_seconds ≡ false) × (has_timeout events ≡ true))

abbrev AtMost : Option ℤ → ℕ → Type 0
AtMost none n = Unit
AtMost (some count) n = leb_ℤ (pos n) count ≡ true

-- It has returned the number of lines that it wrote, at most as many as asked for.
abbrev pub IsReturned : Option ℤ → Capture → Type 0
IsReturned count (returned n lines) = (n ≡ length lines) × AtMost count n
IsReturned count _ = ⊥

is_enough-AtMost :
    (count : Option ℤ) (n : ℕ) → is_enough count n ≡ false → AtMost count n × AtMost count (suc n)
is_enough-AtMost none n h = (tt, tt)
is_enough-AtMost (some (pos k)) n h = ground arith
is_enough-AtMost (some (negsuc k)) n h = ground arith

is_small-enough : (count : Option ℤ) → is_small count ≡ false → is_enough count 0 ≡ false
is_small-enough none h = refl
is_small-enough (some (pos k)) h = ground arith
is_small-enough (some (negsuc k)) h = ground arith

module _ (c : Codecs) (count : Option ℤ) where
  -- either bound is met, when `written` lines are there
  abbrev WillStop : List Event → ℕ → Type 0
  WillStop events written =
      (is_enough count (written + arrivals events) ≡ true) ⊎ (has_timeout events ≡ true)

  capture_loop-IsReturned :
      (events : List Event) (written : ℕ) (out : List Text)
      → written ≡ length out
      → is_enough count written ≡ false
      → WillStop events written
      → IsReturned count (capture_loop c count events written out)
  unfolding capture_loop encode_record arrivals has_timeout
  capture_loop-IsReturned [] written out e h (inl b) =
      let b' : is_enough count written ≡ true =
        subst (λ n. is_enough count n ≡ true) (omega arith) b in
      cc
  capture_loop-IsReturned [] written out e h (inr b) = cc
  capture_loop-IsReturned (timeout ∷ events) written out e h b =
      (e, (is_enough-AtMost count written h).0)
  capture_loop-IsReturned (message topic payload now ∷ events) written out e h b =
      let line = c.dumps (record_of c (captured topic payload now)) ++ 10 ∷ [] in
      let e' : suc written ≡ length (out ++ line ∷ []) =
        omega (arith, e, length-append out (line ∷ [])) in
      let b' : WillStop events (suc written) = elim b [
        | inl f ↦ inl (subst (λ n. is_enough count n ≡ true) (omega arith) f)
        | inr f ↦ inr f
      ] in
      elim (Bool-cases (is_enough count (suc written))) [
        | inl enough ↦ rw enough (e', (is_enough-AtMost count written h).1)
        | inr more ↦ rw more (capture_loop-IsReturned events (suc written) _ e' more b')
      ]

module _ {F : Type 0} ⦃fl : Floats F⦄ (c : Codecs) where
  -- A capture that the command line lets through returns, whatever the messages are, once as many
  -- messages as --count asks for have arrived or, where --duration is given, its timer has fired.
  -- It then has not raised, it answers the number of lines that it wrote, and this is at most the
  -- count.
  pub parsed_capture-IsReturned :
      (args : Args F) (cmd : CaptureCommand F) (events : List Event)
      → parse_command args ≡ command (capture_command cmd)
      → MeetsBound cmd events
      → IsReturned cmd.count (capture c cmd.count events)
  unfolding capture
  parsed_capture-IsReturned args cmd events h b =
      capture_loop-IsReturned c cmd.count events 0 [] refl
        (is_small-enough cmd.count (parse_command-IsChecked args cmd h).1)
        (elim b [
          | inl f ↦ inl (subst (λ n. is_enough cmd.count n ≡ true) (omega arith) f)
          | inr f ↦ inr f.1
        ])
