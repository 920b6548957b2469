-- ===== src/Analytics/Service/Watermark.antt =====
-- src/planter_telemetry/analytics/service.py: what run knows after a list of turns.
use planter_telemetry.Analytics.Service.{
  unless_crashed, Loop, Turn, turn_step, poll, stored_pass, passed, attempt,
}
use planter_telemetry.Analytics.Window.{Collation, data_now}
use planter_telemetry.Analytics.Pass.{
  and_then, run_pass, ByKind, AlertStates, pass_at, assess_fleet, is_unmoved,
}
use planter_telemetry.Analytics.Decision.{Run, Settings}
use planter_telemetry.Analytics.Model.{Metric}
use planter_telemetry.Contract.Reading.{TelemetryV1}
use planter_telemetry.Prelude.{
  sym, ◌∙◌, ap, arith, refl, inr, length, Bool-cases, raised, [], ◌+◌, inl, some, none, ok, ◌≡◌,
  Option-cases, Text, Result, Exn, ◌∷◌, List, Option, ℕ,
}
use planter_telemetry.Prelude.Floats.{Floats}

module _ {F : Type 0} where
  -- the newest time that the latest turn without a fault read
  abbrev next_watermark : Turn F → Option (Run F) → Option ℕ → Option ℕ
  next_watermark turn none w = data_now turn.rows
  next_watermark turn (some left) w = w

  unfoldable pub watermark : List (Turn F) → Option ℕ → Option ℕ
  watermark [] w = w
  watermark (turn ∷ turns) w = watermark turns (next_watermark turn turn.fault w)

  abbrev faults : Option (Run F) → ℕ
  faults none = 0
  faults (some left) = 1

  unfoldable pub count_faults : List (Turn F) → ℕ
  count_faults [] = 0
  count_faults (turn ∷ turns) = faults turn.fault + count_faults turns

  -- A pass that returns answers `w`.
  abbrev Answers : Option ℕ → Result (Option ℕ) × Run F → Type 0
  Answers w (ok v, s) = v ≡ w
  Answers w (raised e, s) = Unit

module _ {F : Type 0} ⦃fl : Floats F⦄ (settings : Settings F) where
  pass_at-Answers :
      (now : ℕ) (states : AlertStates) (window : List (Text × ByKind F))
      (ms : Option (List (Metric F × ℕ))) (s : Run F)
      → Answers (some now) (pass_at settings now states window ms s)
  pass_at-Answers now states window none s = tt
  pass_at-Answers now states window (some ms) s = go (assess_fleet settings now states ms window s)
    where
      go :
          (x : Result (Unit {0}) × Run F)
          → Answers (some now) (and_then x (λ s'. (ok (some now), s')))
      go (ok u, s) = refl
      go (raised e, s) = tt

  run_pass-Answers :
      (since now : Option ℕ) (states : AlertStates) (window : List (Text × ByKind F)) (s : Run F)
      → Answers now (run_pass settings since now states window s)
  unfolding run_pass
  run_pass-Answers since none states window s = refl
  run_pass-Answers since (some now) states window s =
      elim (Bool-cases (is_unmoved settings now since)) [
        | inl e ↦ rw e refl
        | inr e ↦ rw e (pass_at-Answers now states window _ s)
      ]

module _ {F : Type 0} ⦃fl : Floats F⦄ (before : Collation) (settings : Settings F) where
  stored_pass-Answers :
      (since : Option ℕ) (rows : List (TelemetryV1 F)) (s : Run F)
      → Answers (data_now rows) (stored_pass before settings since rows s)
  unfolding stored_pass
  stored_pass-Answers since rows s = elim (Option-cases (data_now rows)) [
    | inl e ↦ rw e (run_pass-Answers settings since none [] [] s)
    | inr (now, e) ↦ rw e (run_pass-Answers settings since (some now) _ _ s)
  ]

  turn_step-crashed :
      (turn : Turn F) (s : Loop F) (e : Exn)
      → s.crashed ≡ some e
      → turn_step before settings turn s ≡ s
  unfolding turn_step
  turn_step-crashed turn s e h = ap (λ c. unless_crashed before settings c turn s) h

  pub turn_step-running :
      (turn : Turn F) (s : Loop F)
      → s.crashed ≡ none
      → turn_step before settings turn s ≡ attempt before settings turn turn.fault s
  unfolding turn_step
  turn_step-running turn s h = ap (λ c. unless_crashed before settings c turn s) h

  poll-crashed :
      (turns : List (Turn F)) (s : Loop F) (e : Exn)
      → s.crashed ≡ some e
      → poll before settings turns s ≡ s
  unfolding poll
  poll-crashed [] s e h = refl
  poll-crashed (turn ∷ turns) s e h =
      ap (poll before settings turns) (turn_step-crashed turn s e h) ∙ poll-crashed turns s e h

  pub poll-was_running :
      (turns : List (Turn F)) (s : Loop F)
      → (poll before settings turns s).crashed ≡ none
      → s.crashed ≡ none
  poll-was_running turns s h = elim (Option-cases s.crashed) [
    | inl e ↦ e
    | inr (e, c) ↦ sym (ap (λ (t : Loop F). t.crashed) (poll-crashed turns s e c)) ∙ h
  ]

  -- The turn is counted, and moves the watermark unless it has a fault.
  abbrev Counted : Turn F → Loop F → Loop F → Type 0
  Counted turn s t =
      (t.last_data_now ≡ next_watermark turn turn.fault s.last_data_now)
      × (t.pass_failures ≡ s.pass_failures + faults turn.fault)
      × (t.passes + t.pass_failures ≡ s.passes + s.pass_failures + 1)

  turn_step-Counted :
      (turn : Turn F) (s : Loop F)
      → s.crashed ≡ none
      → (turn_step before settings turn s).crashed ≡ none
      → Counted turn s (turn_step before settings turn s)
  turn_step-Counted turn s run h =
      let e = turn_step-running turn s run in rw e (go turn.fault (rw e at h))
    where
      counted_by_pass :
          (x : Result (Option ℕ) × Run F)
          → Answers (data_now turn.rows) x
          → (passed before settings turn s x).crashed ≡ none
          → let t = passed before settings turn s x in
            (t.last_data_now ≡ data_now turn.rows)
            × (t.pass_failures ≡ s.pass_failures + 0)
            × (t.passes + t.pass_failures ≡ s.passes + s.pass_failures + 1)
      counted_by_pass (ok w, r) a c = (a, omega arith, omega arith)
      counted_by_pass (raised e, r) a c = cc

      go :
          (fault : Option (Run F))
          → (attempt before settings turn fault s).crashed ≡ none
          → let t = attempt before settings turn fault s in
            (t.last_data_now ≡ next_watermark turn fault s.last_data_now)
            × (t.pass_failures ≡ s.pass_failures + faults fault)
            × (t.passes + t.pass_failures ≡ s.passes + s.pass_failures + 1)
      go none c =
          counted_by_pass (stored_pass before settings s.last_data_now turn.rows s.work)
            (stored_pass-Answers s.last_data_now turn.rows s.work) c
      go (some left) c = (refl, omega arith, omega arith)

  -- While no OverflowError has ended the loop: `last_data_now` is the newest time that the latest turn
  -- without a fault read, so that a failed pass never moves it; and every turn is counted once, the
  -- turns with a fault as failures and the others as passes.
  pub poll-watermark :
      (turns : List (Turn F)) (s : Loop F)
      → (poll before settings turns s).crashed ≡ none
      → let s' = poll before settings turns s in
        (s'.last_data_now ≡ watermark turns s.last_data_now)
        × (s'.pass_failures ≡ s.pass_failures + count_faults turns)
        × (s'.passes + s'.pass_failures ≡ s.passes + s.pass_failures + length turns)
  unfolding poll watermark count_faults
  poll-watermark [] s h = (refl, omega arith, omega arith)
  poll-watermark (turn ∷ turns) s h =
      let t = turn_step before settings turn s in
      let (w, f, n) =
        turn_step-Counted turn s (poll-was_running (turn ∷ turns) s h)
          (poll-was_running turns t h) in
      let (w', f', n') = poll-watermark turns t h in
      (w' ∙ ap (watermark turns) w, omega (arith, f, f'), omega (arith, n, n'))
