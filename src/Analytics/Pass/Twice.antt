-- ===== src/Analytics/Pass/Twice.antt =====
-- src/planter_telemetry/analytics/service.py: run_pass is safe to run again over the same data.
use planter_telemetry.Prelude.Floats.{Floats}
use planter_telemetry.Analytics.Model.{Metric}
use planter_telemetry.Analytics.Pass.{
  battery_metric, water_metric, assess_fleet, window_of, pass_at, with_window, ByKind, and_then,
  AlertStates, metrics, metric_windows,
}
use planter_telemetry.Prelude.{
  arith, ap, sym, ◌∙◌, refl, [], none, raised, some, false, ok, ◌≡◌, Text, List, text_eq, Result,
  Option, ℕ,
}
use planter_telemetry.Analytics.Pass.Keys.{plan_fleet-Distinct, DistinctKinds, DistinctDevices}
use mathlib.Core.Path.{subst}
use planter_telemetry.Analytics.Pass.Rerun.{assess_fleet-Follows, plan_fleet}
use planter_telemetry.Analytics.Store.Batch.{writes, upsert_all, upsert_all-again}
use planter_telemetry.Analytics.Decision.{Run, Settings}

module _ {F : Type 0} (now : ℕ) where
  abbrev finish : Result (Unit {0}) × Run F → Result (Option ℕ) × Run F
  finish x = and_then x (λ s. (ok (some now), s))

  pub finish-run : (x : Result (Unit {0}) × Run F) → (finish x).1 ≡ x.1
  finish-run (ok u, s) = refl
  finish-run (raised e, s) = refl

  finish-result : (x y : Result (Unit {0}) × Run F) → y.0 ≡ x.0 → (finish y).0 ≡ (finish x).0
  finish-result (ok u, s) (ok v, t) h = refl
  finish-result (ok u, s) (raised e, t) h = cc
  finish-result (raised e, s) (ok v, t) h = cc
  finish-result (raised e, s) (raised e', t) h = cc

module _ {F : Type 0} ⦃fl : Floats F⦄ (settings : Settings F) where
  with_window-DistinctKinds :
      (m n : Metric F) (a b : Option ℕ) (ms : List (Metric F × ℕ))
      → text_eq m.kind n.kind ≡ false
      → with_window settings m a (with_window settings n b (some [])) ≡ some ms
      → DistinctKinds ms
  with_window-DistinctKinds m n (some a) (some b) ms ne h = subst (kinds_of) h ((ne, tt), (tt, tt))
    where
      kinds_of : Option (List (Metric F × ℕ)) → Type 0
      kinds_of none = Unit
      kinds_of (some l) = DistinctKinds l
  with_window-DistinctKinds m n none b ms ne h = cc
  with_window-DistinctKinds m n (some a) none ms ne h = cc

  pub metric_windows-DistinctKinds :
      (now : ℕ) (ms : List (Metric F × ℕ))
      → metric_windows settings now (metrics settings) ≡ some ms
      → DistinctKinds ms
  unfolding metric_windows metrics text_eq
  metric_windows-DistinctKinds now ms h =
      with_window-DistinctKinds (water_metric settings) (battery_metric settings)
        (window_of settings now (water_metric settings))
        (window_of settings now (battery_metric settings)) ms refl h

  pub pass_at-again :
      (now : ℕ) (states states' : AlertStates) (window : List (Text × ByKind F))
      (ms : Option (List (Metric F × ℕ))) (s : Run F) (answers : List (Option Text))
      → DistinctDevices window
      → ((l : List (Metric F × ℕ)) → ms ≡ some l → DistinctKinds l)
      → let first = pass_at settings now states window ms s in
        let second =
          pass_at settings now states' window ms (record (first.1) { answers = answers }) in
        (second.0 ≡ first.0)
        × (second.1.tables.forecasts ≡ first.1.tables.forecasts)
        × (second.1.counters.forecasts_written ≡ first.1.counters.forecasts_written)
  pass_at-again now states states' window none s answers d k = (refl, refl, refl)
  pass_at-again now states states' window (some ms) s answers d k =
      let plan = plan_fleet now ms window in
      let x = assess_fleet settings now states ms window s in
      let t = record (x.1) { answers = answers } in
      let y = assess_fleet settings now states' ms window t in
      let (a, w) = assess_fleet-Follows settings now states ms window s in
      let (b, v) = assess_fleet-Follows settings now states' ms window t in
      let (again, none_written) =
        upsert_all-again plan.1 s.tables.forecasts
          (plan_fleet-Distinct now ms window (k ms refl) d) in
      rw (finish-run now x) (
        finish-result now x y (b ∙ sym a),
        ap (λ (t : Run F). t.tables.forecasts) (finish-run now y)
            ∙ v.0
            ∙ ap (upsert_all plan.1) w.0
            ∙ again
            ∙ sym w.0,
        ap (λ (t : Run F). t.counters.forecasts_written) (finish-run now y)
            ∙ omega (arith, v.1, ap (writes plan.1) w.0, none_written),
      )
