-- ===== src/Analytics/Pass/Rerun.antt =====
-- src/planter_telemetry/analytics/service.py: run_pass, run again over unchanged data.
use planter_telemetry.Prelude.{
  refl, arith, some, [], raised, ◌∷◌, ◌≡◌, ◌++◌, ok, List, Result, Text, ℕ,
}
use planter_telemetry.Analytics.Model.{aware, Metric, Forecast}
use planter_telemetry.Analytics.Pass.{
  write_and_alert, assessed, and_then, assess_fleet, AlertStates, newer_than, assess_device,
  Settings, ByKind,
}
use planter_telemetry.Analytics.Store.{ForecastRow}
use planter_telemetry.Analytics.Decision.{Run}
use planter_telemetry.Analytics.Forecast.{forecast}
use planter_telemetry.Analytics.Store.Batch.{writes, upsert_all}
use planter_telemetry.Analytics.Pass.Plan.{write_and_alert-Wrote, Wrote-trans, Wrote, row_of}
use planter_telemetry.Prelude.Floats.{Floats}

module _ {F : Type 0} ⦃fl : Floats F⦄ where
  -- the forecast of one device and one metric of the pass
  abbrev pub judge : ℕ → ByKind F → Metric F × ℕ → Result (Forecast F)
  judge now by_kind m = forecast (newer_than m.1 (by_kind m.0.kind)) m.0 (aware now) (some m.1)

  -- The rows that a device's forecasts ask for, up to one that raises, and how it ends.
  abbrev pub planned :
      Text
      → Result (Forecast F)
      → Result (Unit {0}) × List (ForecastRow F)
      → Result (Unit {0}) × List (ForecastRow F)
  planned d (ok fc) (res, rows) = (res, row_of d fc ++ rows)
  planned d (raised e) rest = (raised e, [])

  unfoldable pub plan_device :
      ℕ → Text → ByKind F → List (Metric F × ℕ) → Result (Unit {0}) × List (ForecastRow F)
  plan_device now d by_kind [] = (ok tt, [])
  plan_device now d by_kind (m ∷ ms) =
      planned d (judge now by_kind m) (plan_device now d by_kind ms)

  abbrev pub plan_both :
      Result (Unit {0}) × List (ForecastRow F)
      → Result (Unit {0}) × List (ForecastRow F)
      → Result (Unit {0}) × List (ForecastRow F)
  plan_both (ok u, rows) (res, more) = (res, rows ++ more)
  plan_both (raised e, rows) rest = (raised e, rows)

  unfoldable pub plan_fleet :
      ℕ → List (Metric F × ℕ) → List (Text × ByKind F) → Result (Unit {0}) × List (ForecastRow F)
  unfolding plan_device
  plan_fleet now ms [] = (ok tt, [])
  plan_fleet now ms ((d, by_kind) ∷ rest) =
      plan_both (plan_device now d by_kind ms) (plan_fleet now ms rest)

  -- What the pass did is what was planned.
  abbrev Follows :
      {A : Type 0} → Result A × List (ForecastRow F) → Run F → Result A × Run F → Type 0
  Follows plan s x = (x.0 ≡ plan.0) × Wrote plan.1 s x.1

module _ {F : Type 0} ⦃fl : Floats F⦄ (settings : Settings F) where
  assess_device-Follows :
      (now : ℕ) (states : AlertStates) (d : Text) (by_kind : ByKind F) (ms : List (Metric F × ℕ))
      (s : Run F)
      → Follows (plan_device now d by_kind ms) s (assess_device settings now states d by_kind ms s)
  unfolding assess_device plan_device upsert_all writes
  assess_device-Follows now states d by_kind [] s = (refl, (refl, omega arith))
  assess_device-Follows now states d by_kind (m ∷ ms) s =
      go (judge now by_kind m) (assess_device-Follows now states d by_kind ms)
    where
      go :
          (r : Result (Forecast F))
          → ((t : Run F)
              → Follows
                  (plan_device now d by_kind ms)
                  t
                  (assess_device settings now states d by_kind ms t))
          → Follows (planned d r (plan_device now d by_kind ms)) s (
              and_then
                (assessed settings d m.0 states r s)
                (assess_device settings now states d by_kind ms))
      go (ok fc) rest =
          let t = write_and_alert settings d m.0 states fc s in
          let (r, w) = rest t in
          (
            r,
            Wrote-trans (row_of d fc) (plan_device now d by_kind ms).1 s t
                (assess_device settings now states d by_kind ms t).1
                (write_and_alert-Wrote settings d m.0 states fc s) w,
          )
      go (raised e) rest = (refl, (refl, omega arith))

  and_then-Follows :
      (p q : Result (Unit {0}) × List (ForecastRow F)) (s : Run F) (x : Result (Unit {0}) × Run F)
      (f : Run F → Result (Unit {0}) × Run F)
      → Follows p s x
      → ((t : Run F) → Follows q t (f t))
      → Follows (plan_both p q) s (and_then x f)
  and_then-Follows (ok u, rows) q s (ok v, t) f h k =
      let (r, w) = k t in (r, Wrote-trans rows q.1 s t (f t).1 h.1 w)
  and_then-Follows (ok u, rows) q s (raised e, t) f h k = cc
  and_then-Follows (raised e, rows) q s (ok v, t) f h k = cc
  and_then-Follows (raised e, rows) q s (raised e', t) f h k = h

  pub assess_fleet-Follows :
      (now : ℕ) (states : AlertStates) (ms : List (Metric F × ℕ)) (window : List (Text × ByKind F))
      (s : Run F)
      → Follows (plan_fleet now ms window) s (assess_fleet settings now states ms window s)
  unfolding assess_fleet plan_fleet upsert_all writes
  assess_fleet-Follows now states ms [] s = (refl, (refl, omega arith))
  assess_fleet-Follows now states ms ((d, by_kind) ∷ rest) s =
      and_then-Follows (plan_device now d by_kind ms) (plan_fleet now ms rest) s
        (assess_device settings now states d by_kind ms s)
        (assess_fleet settings now states ms rest) (assess_device-Follows now states d by_kind ms s)
        (assess_fleet-Follows now states ms rest)
