-- ===== src/Analytics/Pass/Keys.antt =====
-- src/planter_telemetry/analytics/service.py: a pass writes each device and metric once.
use planter_telemetry.Analytics.Store.{forecast_row, same_forecast, ForecastRow}
use planter_telemetry.Analytics.Pass.{newer_than, ByKind}
use planter_telemetry.Analytics.Model.{invalid_series, aware, Sample, Forecast, Metric}
use planter_telemetry.Analytics.Pass.Plan.{row_at, row_of}
use planter_telemetry.Analytics.Store.Batch.{Distinct}
use planter_telemetry.Prelude.Floats.{Floats}
use planter_telemetry.Analytics.Pass.Rerun.{plan_both, plan_fleet, planned, plan_device, judge}
use planter_telemetry.Analytics.Forecast.Statuses.{forecast-Returns, Fits, Keyed, KeyedBySeries}
use planter_telemetry.Analytics.Forecast.Returning.{Returns}
use planter_telemetry.Analytics.Series.{is_valid_series}
use planter_telemetry.Analytics.Forecast.{aware_at}
use mathlib.Core.Path.{subst}
use planter_telemetry.Prelude.{
  none, All-imp, raised, arith, Option, refl, some, inr, last_from, inl, true, ◌&&◌, Bool-cases,
  Result, ok, All-append, ◌++◌, false, text_eq, [], ℕ, ◌∷◌, ◌≡◌, All, Text, List,
}

module _ {F : Type 0} where
  -- The metrics are of different kinds, and the devices of the window differ.
  abbrev pub DistinctKinds : List (Metric F × ℕ) → Type 0
  DistinctKinds [] = Unit
  DistinctKinds (m ∷ ms) =
      All (λ (n : Metric F × ℕ). text_eq m.0.kind n.0.kind ≡ false) ms × DistinctKinds ms

  abbrev pub DistinctDevices : List (Text × ByKind F) → Type 0
  DistinctDevices [] = Unit
  DistinctDevices (x ∷ xs) =
      All (λ (y : Text × ByKind F). text_eq x.0 y.0 ≡ false) xs × DistinctDevices xs

  abbrev IsOf : Text → ForecastRow F → Type 0
  IsOf d r = r.device_id ≡ d

  Distinct-append :
      (rs qs : List (ForecastRow F))
      → Distinct rs
      → Distinct qs
      → All (λ r. All (λ q. same_forecast r q ≡ false) qs) rs
      → Distinct (rs ++ qs)
  Distinct-append [] qs a b c = b
  Distinct-append (r ∷ rs) qs a b c =
      (All-append (λ q. same_forecast r q ≡ false) rs qs a.0 c.0, Distinct-append rs qs a.1 b c.1)

module _ {F : Type 0} ⦃fl : Floats F⦄ where
  -- the kind of a forecast is its metric's
  judge-kind :
      (now : ℕ) (by_kind : ByKind F) (m : Metric F × ℕ) (fc : Forecast F)
      → judge now by_kind m ≡ ok fc
      → fc.kind ≡ m.0.kind
  judge-kind now by_kind m fc h = kind_of (newer_than m.1 (by_kind m.0.kind)) (
      subst (Returns (KeyedBySeries (newer_than m.1 (by_kind m.0.kind)) m.0 (aware now))) h
        (forecast-Returns (newer_than m.1 (by_kind m.0.kind)) m.0 (aware now) (some m.1)))
    where
      kind_of :
          (samples : List (Sample F))
          → KeyedBySeries samples m.0 (aware now) fc
          → fc.kind ≡ m.0.kind
      kind_of [] k = k.0.kind
      kind_of (s ∷ samples) k = elim (Bool-cases (is_valid_series (s ∷ samples) && true)) [
        | inl yes_valid ↦
            let k' : Keyed m.0 (last_from s samples) fc = rw yes_valid at k in k'.0.kind
        | inr not_valid ↦
            let k' : Fits m.0 fc
                × (fc.status ≡ invalid_series)
                × (fc.as_of ≡ aware_at ((last_from s samples).at)) =
              rw not_valid at k in
            k'.0.kind
      ]

  -- A property of every key that a device's rows can have.
  plan_device-All :
      (P : ForecastRow F → Type 0) (now : ℕ) (d : Text) (by_kind : ByKind F)
      (ms : List (Metric F × ℕ))
      → All
          (λ (m : Metric F × ℕ).
            (fc : Forecast F) (at : ℕ) → fc.kind ≡ m.0.kind → P (forecast_row d at fc))
          ms
      → All P (plan_device now d by_kind ms).1
  unfolding plan_device
  plan_device-All P now d by_kind [] h = tt
  plan_device-All P now d by_kind (m ∷ ms) h =
      go (judge now by_kind m) (judge-kind now by_kind m) (plan_device-All P now d by_kind ms h.1)
    where
      go :
          (r : Result (Forecast F))
          → ((fc : Forecast F) → r ≡ ok fc → fc.kind ≡ m.0.kind)
          → All P (plan_device now d by_kind ms).1
          → All P (planned d r (plan_device now d by_kind ms)).1
      go (raised e) k rest = tt
      go (ok fc) k rest =
          All-append P (row_of d fc) (plan_device now d by_kind ms).1 (row fc.as_of) rest
        where
          row : (a : Option ℕ) → All P (row_at d fc a)
          row none = tt
          row (some at) = (h.0 fc at (k fc refl), tt)

  differs_by_kind :
      (r q : ForecastRow F) → text_eq r.kind q.kind ≡ false → same_forecast r q ≡ false
  unfolding same_forecast
  differs_by_kind r q h = ground arith

  differs_by_device :
      (r q : ForecastRow F) → text_eq r.device_id q.device_id ≡ false → same_forecast r q ≡ false
  unfolding same_forecast
  differs_by_device r q h = ground arith

  plan_device-Distinct :
      (now : ℕ) (d : Text) (by_kind : ByKind F) (ms : List (Metric F × ℕ))
      → DistinctKinds ms
      → Distinct (plan_device now d by_kind ms).1
  unfolding plan_device
  plan_device-Distinct now d by_kind [] h = tt
  plan_device-Distinct now d by_kind (m ∷ ms) h =
      go (judge now by_kind m) (judge-kind now by_kind m)
        (plan_device-Distinct now d by_kind ms h.1)
    where
      row :
          (fc : Forecast F) (a : Option ℕ)
          → fc.kind ≡ m.0.kind
          → Distinct (plan_device now d by_kind ms).1
          → Distinct (row_at d fc a ++ (plan_device now d by_kind ms).1)
      row fc none k rest = rest
      row fc (some at) k rest = (
        plan_device-All (λ q. same_forecast (forecast_row d at fc) q ≡ false) now d by_kind ms
            (All-imp _ _ ms
              (λ n ne fc' at' k'.
                differs_by_kind (forecast_row d at fc) (forecast_row d at' fc') (rw (k, k') ne))
              h.0),
        rest,
      )

      go :
          (r : Result (Forecast F))
          → ((fc : Forecast F) → r ≡ ok fc → fc.kind ≡ m.0.kind)
          → Distinct (plan_device now d by_kind ms).1
          → Distinct (planned d r (plan_device now d by_kind ms)).1
      go (raised e) k rest = tt
      go (ok fc) k rest = row fc fc.as_of (k fc refl) rest

  -- every row of the device's plan is of that device
  plan_device-IsOf :
      (now : ℕ) (d : Text) (by_kind : ByKind F) (ms : List (Metric F × ℕ))
      → All (IsOf d) (plan_device now d by_kind ms).1
  plan_device-IsOf now d by_kind ms = plan_device-All (IsOf d) now d by_kind ms (everywhere ms)
    where
      everywhere :
          (ms : List (Metric F × ℕ))
          → All
              (λ (m : Metric F × ℕ).
                (fc : Forecast F) (at : ℕ) → fc.kind ≡ m.0.kind → IsOf d (forecast_row d at fc))
              ms
      everywhere [] = tt
      everywhere (m ∷ ms) = ((λ fc at k. refl), everywhere ms)

  plan_fleet-All :
      (P : ForecastRow F → Type 0) (now : ℕ) (ms : List (Metric F × ℕ))
      (window : List (Text × ByKind F))
      → All (λ (y : Text × ByKind F). (q : ForecastRow F) → IsOf y.0 q → P q) window
      → All P (plan_fleet now ms window).1
  unfolding plan_fleet
  plan_fleet-All P now ms [] h = tt
  plan_fleet-All P now ms ((d, by_kind) ∷ rest) h =
      go (plan_device now d by_kind ms)
        (All-imp (IsOf d) P (plan_device now d by_kind ms).1 h.0
          (plan_device-IsOf now d by_kind ms))
        (plan_fleet-All P now ms rest h.1)
    where
      go :
          (p : Result (Unit {0}) × List (ForecastRow F))
          → All P p.1
          → All P (plan_fleet now ms rest).1
          → All P (plan_both p (plan_fleet now ms rest)).1
      go (ok u, rows) a b = All-append P rows (plan_fleet now ms rest).1 a b
      go (raised e, rows) a b = a

  -- A pass writes no key twice.
  pub plan_fleet-Distinct :
      (now : ℕ) (ms : List (Metric F × ℕ)) (window : List (Text × ByKind F))
      → DistinctKinds ms
      → DistinctDevices window
      → Distinct (plan_fleet now ms window).1
  unfolding plan_fleet
  plan_fleet-Distinct now ms [] k h = tt
  plan_fleet-Distinct now ms ((d, by_kind) ∷ rest) k h =
      go (plan_device now d by_kind ms) (plan_device-Distinct now d by_kind ms k)
        (plan_device-IsOf now d by_kind ms) (plan_fleet-Distinct now ms rest k h.1)
    where
      apart :
          (r : ForecastRow F)
          → IsOf d r
          → All (λ q. same_forecast r q ≡ false) (plan_fleet now ms rest).1
      apart r i =
          plan_fleet-All (λ q. same_forecast r q ≡ false) now ms rest
            (All-imp _ _ rest (λ y ne q j. differs_by_device r q (rw (i, j) ne)) h.0)

      go :
          (p : Result (Unit {0}) × List (ForecastRow F))
          → Distinct p.1
          → All (IsOf d) p.1
          → Distinct (plan_fleet now ms rest).1
          → Distinct (plan_both p (plan_fleet now ms rest)).1
      go (raised e, rows) a i b = a
      go (ok u, rows) a i b = Distinct-append rows (plan_fleet now ms rest).1 a b (
          All-imp (IsOf d) (λ r. All (λ q. same_forecast r q ≡ false) (plan_fleet now ms rest).1)
            rows apart i)
