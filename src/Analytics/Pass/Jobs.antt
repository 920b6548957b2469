-- ===== src/Analytics/Pass/Jobs.antt =====
-- src/planter_telemetry/analytics/service.py: a pass as a list of forecasts to write and to judge.
pub mod Distinct
use planter_telemetry.Analytics.Pass.{
  write_and_alert, assessed, and_then, assess_fleet, AlertStates, assess_device, ByKind,
}
use planter_telemetry.Analytics.Pass.Rerun.{judge}
use planter_telemetry.Analytics.Decision.{Run, Settings}
use planter_telemetry.Analytics.Model.{Metric, Forecast}
use planter_telemetry.Prelude.Floats.{Floats}
use planter_telemetry.Prelude.{
  sym, ◌∙◌, ap, List, [], ◌∷◌, ◌++◌, ok, raised, Result, Text, ℕ, All, ◌≡◌, refl, false, text_eq,
  ◌&&◌,
}

-- a device, a metric, and the forecast of the pass
abbrev pub Job : Type 0 → Type 0
Job F = Text × (Metric F × Forecast F)

module _ {F : Type 0} where
  abbrev pub judged :
      Text
      → Metric F
      → Result (Forecast F)
      → Result (Unit {0}) × List (Job F)
      → Result (Unit {0}) × List (Job F)
  judged d metric (ok fc) (res, jobs) = (res, (d, (metric, fc)) ∷ jobs)
  judged d metric (raised e) rest = (raised e, [])

  abbrev pub jobs_both :
      Result (Unit {0}) × List (Job F)
      → Result (Unit {0}) × List (Job F)
      → Result (Unit {0}) × List (Job F)
  jobs_both (ok u, jobs) (res, more) = (res, jobs ++ more)
  jobs_both (raised e, jobs) rest = (raised e, jobs)

  -- `d` and `k` are not the device and the kind of the job.
  abbrev IsOther : Text → Text → Job F → Type 0
  IsOther d k j = (text_eq j.0 d && text_eq j.1.0.kind k) ≡ false

  -- The two jobs are of different devices or of different kinds.
  abbrev pub Apart : Job F → Job F → Type 0
  Apart j q = IsOther j.0 j.1.0.kind q × IsOther q.0 q.1.0.kind j

  -- No two jobs are of one device and kind.
  abbrev pub DistinctJobs : List (Job F) → Type 0
  DistinctJobs [] = Unit
  DistinctJobs (j ∷ jobs) = All (Apart j) jobs × DistinctJobs jobs

module _ {F : Type 0} ⦃fl : Floats F⦄ where
  unfoldable pub jobs_device :
      ℕ → Text → ByKind F → List (Metric F × ℕ) → Result (Unit {0}) × List (Job F)
  jobs_device now d by_kind [] = (ok tt, [])
  jobs_device now d by_kind (m ∷ ms) =
      judged d m.0 (judge now by_kind m) (jobs_device now d by_kind ms)

  -- The pass's forecasts in order, up to one that raises, and how it ends.
  unfoldable pub jobs_fleet :
      ℕ → List (Metric F × ℕ) → List (Text × ByKind F) → Result (Unit {0}) × List (Job F)
  unfolding jobs_device
  jobs_fleet now ms [] = (ok tt, [])
  jobs_fleet now ms ((d, by_kind) ∷ rest) =
      jobs_both (jobs_device now d by_kind ms) (jobs_fleet now ms rest)

module _ {F : Type 0} ⦃fl : Floats F⦄ (settings : Settings F) (states : AlertStates) where
  unfoldable pub run_jobs : List (Job F) → Run F → Run F
  unfolding write_and_alert
  run_jobs [] s = s
  run_jobs ((d, (metric, fc)) ∷ jobs) s =
      run_jobs jobs (write_and_alert settings d metric states fc s)

  run_jobs-append :
      (xs ys : List (Job F)) (s : Run F) → run_jobs (xs ++ ys) s ≡ run_jobs ys (run_jobs xs s)
  unfolding run_jobs
  run_jobs-append [] ys s = refl
  run_jobs-append ((d, (metric, fc)) ∷ xs) ys s = run_jobs-append xs ys _

  -- what a pass does with its jobs
  abbrev Runs : Result (Unit {0}) × List (Job F) → Run F → Result (Unit {0}) × Run F → Type 0
  Runs plan s x = x ≡ (plan.0, run_jobs plan.1 s)

  assess_device-Runs :
      (now : ℕ) (d : Text) (by_kind : ByKind F) (ms : List (Metric F × ℕ)) (s : Run F)
      → Runs (jobs_device now d by_kind ms) s (assess_device settings now states d by_kind ms s)
  unfolding assess_device jobs_device run_jobs
  assess_device-Runs now d by_kind [] s = refl
  assess_device-Runs now d by_kind (m ∷ ms) s =
      go (judge now by_kind m) (assess_device-Runs now d by_kind ms)
    where
      go :
          (r : Result (Forecast F))
          → ((t : Run F)
              → Runs
                  (jobs_device now d by_kind ms)
                  t
                  (assess_device settings now states d by_kind ms t))
          → Runs (judged d m.0 r (jobs_device now d by_kind ms)) s (
              and_then
                (assessed settings d m.0 states r s)
                (assess_device settings now states d by_kind ms))
      go (ok fc) rest = rest _
      go (raised e) rest = refl

  and_then-Runs :
      (p q : Result (Unit {0}) × List (Job F)) (s : Run F) (x : Result (Unit {0}) × Run F)
      (f : Run F → Result (Unit {0}) × Run F)
      → Runs p s x
      → ((t : Run F) → Runs q t (f t))
      → Runs (jobs_both p q) s (and_then x f)
  and_then-Runs (ok u, xs) q s x f h k =
      ap (λ y. and_then y f) h ∙ k _ ∙ ap (λ t. (q.0, t)) (sym (run_jobs-append xs q.1 s))
  and_then-Runs (raised e, xs) q s x f h k = ap (λ y. and_then y f) h

  pub assess_fleet-Runs :
      (now : ℕ) (ms : List (Metric F × ℕ)) (window : List (Text × ByKind F)) (s : Run F)
      → Runs (jobs_fleet now ms window) s (assess_fleet settings now states ms window s)
  unfolding assess_fleet jobs_fleet run_jobs
  assess_fleet-Runs now ms [] s = refl
  assess_fleet-Runs now ms ((d, by_kind) ∷ rest) s =
      and_then-Runs (jobs_device now d by_kind ms) (jobs_fleet now ms rest) s
        (assess_device settings now states d by_kind ms s)
        (assess_fleet settings now states ms rest) (assess_device-Runs now d by_kind ms s)
        (assess_fleet-Runs now ms rest)
