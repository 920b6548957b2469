-- ===== src/Analytics/Service/Retry.antt =====
-- src/planter_telemetry/analytics/service.py: a failed pass is retried whole on the next interval.
use mathlib.Core.Path.{subst}
use planter_telemetry.Analytics.Service.{Loop, Turn, turn_step, poll, stored_pass, passed, attempt}
use planter_telemetry.Analytics.Service.Watermark.{turn_step-running}
use planter_telemetry.Analytics.Window.{Collation, data_now}
use planter_telemetry.Analytics.Pass.{run_pass, is_unmoved}
use planter_telemetry.Analytics.Decision.{Run, Settings}
use planter_telemetry.Contract.Reading.{TelemetryV1}
use planter_telemetry.Prelude.{
  sym, ap, arith, ◌<◌, ◌∙◌, [], refl, All, ◌∷◌, some, false, Option, ◌++◌, ◌≡◌, ℕ, List, none,
}
use planter_telemetry.Analytics.Store.{is_none}
use planter_telemetry.Prelude.Floats.{Floats}

-- `now` is newer than what the last pass saw, if there was one.
abbrev IsNewer : ℕ → Option ℕ → Type 0
IsNewer now none = Unit
IsNewer now (some since) = since < now

-- The turn met a psycopg.Error or an OSError.
abbrev HasFault : {F : Type 0} → Turn F → Type 0
HasFault turn = is_none turn.fault ≡ false

module _ {F : Type 0} ⦃fl : Floats F⦄ (before : Collation) (settings : Settings F) where
  pub poll-append :
      (xs ys : List (Turn F)) (s : Loop F)
      → poll before settings (xs ++ ys) s ≡ poll before settings ys (poll before settings xs s)
  unfolding poll
  poll-append [] ys s = refl
  poll-append (x ∷ xs) ys s = poll-append xs ys (turn_step before settings x s)

  IsNewer-unmoved :
      (now : ℕ) (since : Option ℕ) → IsNewer now since → is_unmoved settings now since ≡ false
  IsNewer-unmoved now none h = refl
  IsNewer-unmoved now (some since) h = ground arith

  stored_pass-whole :
      (now : ℕ) (since : Option ℕ) (rows : List (TelemetryV1 F)) (s : Run F)
      → data_now rows ≡ some now
      → IsNewer now since
      → stored_pass before settings since rows s ≡ stored_pass before settings none rows s
  unfolding stored_pass run_pass
  stored_pass-whole now since rows s e h = rw (e, IsNewer-unmoved now since h) refl

  -- a turn with a fault keeps the watermark
  faults-keep :
      (turns : List (Turn F)) (s : Loop F)
      → s.crashed ≡ none
      → All HasFault turns
      → let t = poll before settings turns s in
        (t.crashed ≡ none) × (t.last_data_now ≡ s.last_data_now)
  unfolding poll
  faults-keep [] s c h = (c, refl)
  faults-keep (turn ∷ turns) s c h =
      let (c', w) =
        subst IsKept (sym (turn_step-running before settings turn s c)) (go turn.fault h.0) in
      let (d, v) = faults-keep turns (turn_step before settings turn s) c' h.1 in (d, v ∙ w)
    where
      IsKept : Loop F → Type 0
      IsKept t = (t.crashed ≡ none) × (t.last_data_now ≡ s.last_data_now)

      go :
          (fault : Option (Run F))
          → is_none fault ≡ false
          → let t = attempt before settings turn fault s in
            (t.crashed ≡ none) × (t.last_data_now ≡ s.last_data_now)
      go none f = cc
      go (some left) f = (c, refl)

  -- After any number of failed turns of a loop that has not crashed, a turn without a fault whose
  -- newest time is newer than what the last pass saw runs the whole pass on the tables that the
  -- failures left: nothing is skipped, and its outcome is that of a pass without `since`.
  pub retry_is_whole :
      (failures : List (Turn F)) (turn : Turn F) (s : Loop F) (now : ℕ)
      → s.crashed ≡ none
      → All HasFault failures
      → turn.fault ≡ none
      → data_now turn.rows ≡ some now
      → IsNewer now s.last_data_now
      → let left = poll before settings failures s in
        poll before settings (failures ++ turn ∷ []) s
        ≡ passed before settings turn left (stored_pass before settings none turn.rows left.work)
  unfolding poll
  retry_is_whole failures turn s now c h f e n =
      let left = poll before settings failures s in
      let (d, w) = faults-keep failures s c h in
      let newer : IsNewer now left.last_data_now = rw w n in
      poll-append failures (turn ∷ []) s
      ∙ turn_step-running before settings turn left d
      ∙ ap (λ o. attempt before settings turn o left) f
      ∙ ap (passed before settings turn left)
          (stored_pass-whole now left.last_data_now turn.rows left.work e newer)
