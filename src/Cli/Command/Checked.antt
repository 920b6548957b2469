-- ===== src/Cli/Command/Checked.antt =====
-- src/planter_telemetry/cli/app.py: what parse_command lets through and what it refuses.
use mathlib.Core.Path.{subst}
use planter_telemetry.Cli.Command.{
  usage, never_stops, count_too_small, duration_not_positive, speed_not_positive, CaptureCommand,
  Args, parse_command, command, capture_command, replay_command, sample_command, capture_args,
  replay_args, sample_args, Command, CommandResult, is_small, is_not_positive, speed_of,
}
use planter_telemetry.Cli.Schedule.{replay_offsets}
use planter_telemetry.Prelude.Int.{ℤ, pos, ◌≤ℤ◌}
use planter_telemetry.Prelude.{
  arith, List, ◌≢◌, ◌⊎◌, refl, none, true, inr, inl, false, ◌&&◌, Option, ◌≡◌, some, Bool,
  Bool-cases,
}
use planter_telemetry.Prelude.Floats.{Floats, lit}
use planter_telemetry.Analytics.Store.{is_none}

-- What an option holds, if it holds anything, has `P`.
abbrev AllSome : {A : Type 0} → (A → Type 0) → Option A → Type 0
AllSome P none = Unit
AllSome P (some a) = P a

-- An option holds something that has `P`.
abbrev AnySome : {A : Type 0} → (A → Type 0) → Option A → Type 0
AnySome P none = ⊥
AnySome P (some a) = P a

small_count : (count : Option ℤ) → is_small count ≡ true → AnySome (λ n. n ≤ℤ pos 0) count
small_count none h = cc
small_count (some n) h = ground arith

large_count : (count : Option ℤ) → is_small count ≡ false → AllSome (λ n. pos 1 ≤ℤ n) count
large_count none h = tt
large_count (some n) h = ground arith

module _ {F : Type 0} ⦃fl : Floats F⦄ where
  -- A capture has passed the tests.
  abbrev IsChecked : Command F → Type 0
  IsChecked (capture_command c) =
      ((is_none c.count && is_none c.duration_seconds) ≡ false)
      × (is_small c.count ≡ false)
      × (is_not_positive c.duration_seconds ≡ false)
  IsChecked c = Unit

  abbrev IsCheckedResult : CommandResult F → Type 0
  IsCheckedResult (command c) = IsChecked c
  IsCheckedResult (usage e) = Unit

  pub speed_of-positive :
      (no_delay : Bool) (speed : Option F)
      → fl.le (lit 100) (lit 0) ≡ false
      → is_not_positive speed ≡ false
      → is_not_positive (speed_of no_delay speed) ≡ false
  speed_of-positive true speed d h = refl
  speed_of-positive false none d h = d
  speed_of-positive false (some speed) d h = h

  parse_command-result : (args : Args F) → IsCheckedResult (parse_command args)
  unfolding parse_command
  parse_command-result (capture_args host port topic count duration out) =
      elim (Bool-cases (is_none count && is_none duration)) [
        | inl e ↦ rw e tt
        | inr e ↦ elim (Bool-cases (is_small count)) [
          | inl f ↦ rw (e, f) tt
          | inr f ↦ elim (Bool-cases (is_not_positive duration)) [
            | inl g ↦ rw (e, f, g) tt
            | inr g ↦ rw (e, f, g) (e, f, g)
          ]
        ]
      ]
  parse_command-result (replay_args host port speed no_delay source) =
      elim (Bool-cases (is_not_positive speed)) [ inl e ↦ rw e tt | inr e ↦ rw e tt ]
  parse_command-result (sample_args out) = tt

  pub parse_command-IsChecked :
      (args : Args F) (c : CaptureCommand F)
      → parse_command args ≡ command (capture_command c)
      → IsChecked (capture_command c)
  parse_command-IsChecked args c h = subst IsCheckedResult h (parse_command-result args)

  -- No speed if there are to be no delays, and otherwise the given one, or 100.
  abbrev pub IsSpeed : Bool → Option F → Option F → Type 0
  IsSpeed true given speed = speed ≡ none
  IsSpeed false none speed = speed ≡ some (lit 100)
  IsSpeed false (some x) speed = speed ≡ some x

  -- The answer to the arguments, where a replay would publish messages captured at these times.
  abbrev pub IsAnswer : List ℤ → Args F → CommandResult F → Type 0
  IsAnswer times (capture_args host port topic count duration out) (command (capture_command c)) =
      (c.count ≡ count)
      × (c.duration_seconds ≡ duration)
      × ((count ≢ none) ⊎ (duration ≢ none))
      × AllSome (λ n. pos 1 ≤ℤ n) count
      × AllSome (λ x. fl.le x (lit 0) ≡ false) duration
  IsAnswer times (capture_args host port topic count duration out) (usage never_stops) =
      (count ≡ none) × (duration ≡ none)
  IsAnswer times (capture_args host port topic count duration out) (usage count_too_small) =
      AnySome (λ n. n ≤ℤ pos 0) count
  IsAnswer times (capture_args host port topic count duration out) (usage duration_not_positive) =
      AnySome (λ x. fl.le x (lit 0) ≡ true) duration
  IsAnswer times (replay_args host port speed no_delay source) (command (replay_command c)) =
      (c.source ≡ source)
      × IsSpeed no_delay speed c.speed
      × AllSome (λ x. is_none (replay_offsets x times) ≡ false) c.speed
  IsAnswer times (replay_args host port speed no_delay source) (usage speed_not_positive) =
      AnySome (λ x. is_none (replay_offsets x times) ≡ true) speed
  IsAnswer times (sample_args out) (command (sample_command c)) = c.out ≡ out
  IsAnswer times args result = ⊥

  at_most_zero : (x : Option F) → is_not_positive x ≡ true → AnySome (λ y. fl.le y (lit 0) ≡ true) x
  at_most_zero none h = cc
  at_most_zero (some x) h = h

  not_at_most_zero :
      (x : Option F) → is_not_positive x ≡ false → AllSome (λ y. fl.le y (lit 0) ≡ false) x
  not_at_most_zero none h = tt
  not_at_most_zero (some x) h = h

  refused_speed :
      (times : List ℤ) (speed : Option F)
      → is_not_positive speed ≡ true
      → AnySome (λ x. is_none (replay_offsets x times) ≡ true) speed
  unfolding replay_offsets
  refused_speed times none h = cc
  refused_speed times (some x) h = rw h refl

  accepted_speed :
      (times : List ℤ) (speed : Option F)
      → is_not_positive speed ≡ false
      → AllSome (λ x. is_none (replay_offsets x times) ≡ false) speed
  unfolding replay_offsets
  accepted_speed times none h = tt
  accepted_speed times (some x) h = rw h refl

  speed_of-IsSpeed :
      (no_delay : Bool) (speed : Option F) → IsSpeed no_delay speed (speed_of no_delay speed)
  speed_of-IsSpeed true speed = refl
  speed_of-IsSpeed false none = refl
  speed_of-IsSpeed false (some speed) = refl

  both_none :
      (count : Option ℤ) (duration : Option F)
      → (is_none count && is_none duration) ≡ true
      → (count ≡ none) × (duration ≡ none)
  both_none none none h = (refl, refl)
  both_none none (some x) h = cc
  both_none (some n) duration h = cc

  one_given :
      (count : Option ℤ) (duration : Option F)
      → (is_none count && is_none duration) ≡ false
      → (count ≢ none) ⊎ (duration ≢ none)
  one_given none none h = cc
  one_given none (some x) h = inr (λ e. cc)
  one_given (some n) duration h = inl (λ e. cc)

  -- What parse_command answers to any arguments, if 100 <= 0 is False of floats. A capture is accepted
  -- with the count and the duration given, and then there is one of them, the count is at least 1 and
  -- of the duration <= 0 is False; it is refused for lack of a bound only if both are missing, for its
  -- count only if that is at most 0, and for its duration only if <= 0 is True of that. A replay is
  -- accepted with its file, and with no speed if there are to be no delays, else with the given speed
  -- or else with 100; with that speed replay_offsets raises no ValueError, whatever the capture times.
  -- It is refused only for a given speed with which replay_offsets raises one. A sample is accepted with
  -- its output.
  pub parse_command-IsAnswer :
      (times : List ℤ) (args : Args F)
      → fl.le (lit 100) (lit 0) ≡ false
      → IsAnswer times args (parse_command args)
  unfolding parse_command
  parse_command-IsAnswer times (capture_args host port topic count duration out) d =
      elim (Bool-cases (is_none count && is_none duration)) [
        | inl e ↦ rw e (both_none count duration e)
        | inr e ↦ elim (Bool-cases (is_small count)) [
          | inl f ↦ rw (e, f) (small_count count f)
          | inr f ↦ elim (Bool-cases (is_not_positive duration)) [
            | inl g ↦ rw (e, f, g) (at_most_zero duration g)
            | inr g ↦
                rw (e, f, g)
                  (
                    refl,
                    refl,
                    one_given count duration e,
                    large_count count f,
                    not_at_most_zero duration g,
                  )
          ]
        ]
      ]
  parse_command-IsAnswer times (replay_args host port speed no_delay source) d =
      elim (Bool-cases (is_not_positive speed)) [
        | inl e ↦ rw e (refused_speed times speed e)
        | inr e ↦ rw e (
          refl,
          speed_of-IsSpeed no_delay speed,
          accepted_speed times (speed_of no_delay speed) (speed_of-positive no_delay speed d e),
        )
      ]
  parse_command-IsAnswer times (sample_args out) d = refl
