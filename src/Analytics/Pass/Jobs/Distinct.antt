-- ===== src/Analytics/Pass/Jobs/Distinct.antt =====
-- src/planter_telemetry/analytics/service.py: a pass judges each device and kind once.
use planter_telemetry.Analytics.Pass.Jobs.{
  Job, judged, jobs_both, Apart, DistinctJobs, jobs_device, jobs_fleet,
}
use planter_telemetry.Analytics.Pass.{ByKind}
use planter_telemetry.Analytics.Pass.Rerun.{judge}
use planter_telemetry.Analytics.Pass.Keys.{DistinctKinds, DistinctDevices}
use planter_telemetry.Analytics.Model.{Metric, Forecast}
use planter_telemetry.Prelude.Floats.{Floats}
use planter_telemetry.Prelude.{
  text_eq→eq, sym, All-imp, arith, All-append, eq→text_eq, List, [], ◌∷◌, ◌++◌, ok, raised, Result,
  Text, ℕ, All, ◌≡◌, false, text_eq, Bool-cases, inl, inr,
}

text_eq-false_sym : (a b : Text) → text_eq a b ≡ false → text_eq b a ≡ false
text_eq-false_sym a b h = elim (Bool-cases (text_eq b a)) [
  | inl e ↦ let bad = eq→text_eq a b (sym (text_eq→eq b a e)) in cc
  | inr e ↦ e
]

module _ {F : Type 0} where
  Apart-kinds : (j q : Job F) → text_eq j.1.0.kind q.1.0.kind ≡ false → Apart j q
  Apart-kinds j q h =
      let h' = text_eq-false_sym j.1.0.kind q.1.0.kind h in (ground arith, ground arith)

  Apart-devices : (j q : Job F) → text_eq j.0 q.0 ≡ false → Apart j q
  Apart-devices j q h = let h' = text_eq-false_sym j.0 q.0 h in (ground arith, ground arith)

  DistinctJobs-append :
      (xs ys : List (Job F))
      → DistinctJobs xs
      → DistinctJobs ys
      → All (λ x. All (Apart x) ys) xs
      → DistinctJobs (xs ++ ys)
  DistinctJobs-append [] ys a b h = b
  DistinctJobs-append (x ∷ xs) ys a b h =
      (All-append (Apart x) xs ys a.0 h.0, DistinctJobs-append xs ys a.1 b h.1)

module _ {F : Type 0} ⦃fl : Floats F⦄ where
  jobs_device-All :
      (P : Job F → Type 0) (now : ℕ) (d : Text) (by_kind : ByKind F) (ms : List (Metric F × ℕ))
      → All (λ (m : Metric F × ℕ). (fc : Forecast F) → P (d, (m.0, fc))) ms
      → All P (jobs_device now d by_kind ms).1
  unfolding jobs_device
  jobs_device-All P now d by_kind [] h = tt
  jobs_device-All P now d by_kind (m ∷ ms) h =
      go (judge now by_kind m) (jobs_device-All P now d by_kind ms h.1)
    where
      go :
          (r : Result (Forecast F))
          → All P (jobs_device now d by_kind ms).1
          → All P (judged d m.0 r (jobs_device now d by_kind ms)).1
      go (ok fc) rest = (h.0 fc, rest)
      go (raised e) rest = tt

  jobs_device-Distinct :
      (now : ℕ) (d : Text) (by_kind : ByKind F) (ms : List (Metric F × ℕ))
      → DistinctKinds ms
      → DistinctJobs (jobs_device now d by_kind ms).1
  unfolding jobs_device
  jobs_device-Distinct now d by_kind [] h = tt
  jobs_device-Distinct now d by_kind (m ∷ ms) h =
      go (judge now by_kind m) (jobs_device-Distinct now d by_kind ms h.1)
    where
      go :
          (r : Result (Forecast F))
          → DistinctJobs (jobs_device now d by_kind ms).1
          → DistinctJobs (judged d m.0 r (jobs_device now d by_kind ms)).1
      go (ok fc) rest = (
        jobs_device-All (Apart (d, (m.0, fc))) now d by_kind ms
            (All-imp _ _ ms (λ n ne fc'. Apart-kinds (d, (m.0, fc)) (d, (n.0, fc')) ne) h.0),
        rest,
      )
      go (raised e) rest = tt

  jobs_fleet-All :
      (P : Job F → Type 0) (now : ℕ) (ms : List (Metric F × ℕ)) (window : List (Text × ByKind F))
      → All (λ (y : Text × ByKind F). (m : Metric F) (fc : Forecast F) → P (y.0, (m, fc))) window
      → All P (jobs_fleet now ms window).1
  unfolding jobs_fleet
  jobs_fleet-All P now ms [] h = tt
  jobs_fleet-All P now ms ((d, by_kind) ∷ rest) h =
      go (jobs_device now d by_kind ms) (jobs_device-All P now d by_kind ms (each ms))
        (jobs_fleet-All P now ms rest h.1)
    where
      each :
          (ms : List (Metric F × ℕ))
          → All (λ (m : Metric F × ℕ). (fc : Forecast F) → P (d, (m.0, fc))) ms
      each [] = tt
      each (m ∷ ms) = ((λ fc. h.0 m.0 fc), each ms)

      go :
          (p : Result (Unit {0}) × List (Job F))
          → All P p.1
          → All P (jobs_fleet now ms rest).1
          → All P (jobs_both p (jobs_fleet now ms rest)).1
      go (ok u, jobs) a b = All-append P jobs (jobs_fleet now ms rest).1 a b
      go (raised e, jobs) a b = a

  pub jobs_fleet-Distinct :
      (now : ℕ) (ms : List (Metric F × ℕ)) (window : List (Text × ByKind F))
      → DistinctKinds ms
      → DistinctDevices window
      → DistinctJobs (jobs_fleet now ms window).1
  unfolding jobs_fleet
  jobs_fleet-Distinct now ms [] k h = tt
  jobs_fleet-Distinct now ms ((d, by_kind) ∷ rest) k h =
      go (jobs_device now d by_kind ms) (jobs_device-Distinct now d by_kind ms k)
        (jobs_device-All (λ j. All (Apart j) (jobs_fleet now ms rest).1) now d by_kind ms
          (others ms))
        (jobs_fleet-Distinct now ms rest k h.1)
    where
      others :
          (ms' : List (Metric F × ℕ))
          → All
              (λ (m : Metric F × ℕ).
                (fc : Forecast F) → All (Apart (d, (m.0, fc))) (jobs_fleet now ms rest).1)
              ms'
      others [] = tt
      others (m ∷ ms') = (
        (λ fc. jobs_fleet-All (Apart (d, (m.0, fc))) now ms rest (
            All-imp _ _ rest (λ y ne m' fc'. Apart-devices (d, (m.0, fc)) (y.0, (m', fc')) ne)
              h.0)),
        others ms',
      )

      go :
          (p : Result (Unit {0}) × List (Job F))
          → DistinctJobs p.1
          → All (λ j. All (Apart j) (jobs_fleet now ms rest).1) p.1
          → DistinctJobs (jobs_fleet now ms rest).1
          → DistinctJobs (jobs_both p (jobs_fleet now ms rest)).1
      go (ok u, jobs) a i b = DistinctJobs-append jobs (jobs_fleet now ms rest).1 a b i
      go (raised e, jobs) a i b = a
