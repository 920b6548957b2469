-- ===== src/Analytics/Store/Batch.antt =====
-- src/planter_telemetry/analytics/db.py: a batch of forecasts that is recorded, and recorded again.
use planter_telemetry.Analytics.Store.{same_forecast, ForecastRow, upsert_forecast}
use planter_telemetry.Analytics.Store.Latest.{
  find-upsert_other, find-upsert_self, find_forecast, HasStatus,
}
use planter_telemetry.Prelude.{
  inr, text_eq_refl, inl, refl, Bool-cases, [], ◌+◌, arith, if◌then◌else◌, false, ◌∷◌, All, ℕ, ◌++◌,
  ◌≡◌, List,
}

module _ {F : Type 0} where
  -- the rows after the batch, and how many of its inserts wrote
  unfoldable pub upsert_all : List (ForecastRow F) → List (ForecastRow F) → List (ForecastRow F)
  upsert_all [] rows = rows
  upsert_all (r ∷ rs) rows = upsert_all rs (upsert_forecast r rows).0

  unfoldable pub writes : List (ForecastRow F) → List (ForecastRow F) → ℕ
  writes [] rows = 0
  writes (r ∷ rs) rows =
      (if (upsert_forecast r rows).1 then 1 else 0) + writes rs (upsert_forecast r rows).0

  -- no two rows of the batch have one key
  abbrev pub Distinct : List (ForecastRow F) → Type 0
  Distinct [] = Unit
  Distinct (r ∷ rs) = All (λ q. same_forecast r q ≡ false) rs × Distinct rs

  -- the row's status is recorded
  abbrev pub IsKept : List (ForecastRow F) → ForecastRow F → Type 0
  IsKept rows r = HasStatus r.status (find_forecast r rows)

  pub upsert_all-append :
      (rs qs rows : List (ForecastRow F))
      → upsert_all (rs ++ qs) rows ≡ upsert_all qs (upsert_all rs rows)
  unfolding upsert_all
  upsert_all-append [] qs rows = refl
  upsert_all-append (r ∷ rs) qs rows = upsert_all-append rs qs (upsert_forecast r rows).0

  pub writes-append :
      (rs qs rows : List (ForecastRow F))
      → writes (rs ++ qs) rows ≡ writes rs rows + writes qs (upsert_all rs rows)
  unfolding writes upsert_all
  writes-append [] qs rows = omega arith
  writes-append (r ∷ rs) qs rows = omega (arith, writes-append rs qs (upsert_forecast r rows).0)

  upsert_forecast-IsKept :
      (r : ForecastRow F) (rows : List (ForecastRow F))
      → IsKept rows r
      → upsert_forecast r rows ≡ (rows, false)
  unfolding upsert_forecast find_forecast
  upsert_forecast-IsKept r [] h = absurd h
  upsert_forecast-IsKept r (q ∷ rows) h = elim (Bool-cases (same_forecast r q)) [
    | inl same ↦
        let e : q.status ≡ r.status = rw same at h in rw (same, e, text_eq_refl r.status) refl
    | inr other ↦ rw (other, upsert_forecast-IsKept r rows (rw other at h)) refl
  ]

  upsert_all-keeps :
      (r : ForecastRow F) (rs rows : List (ForecastRow F))
      → All (λ q. same_forecast r q ≡ false) rs
      → IsKept rows r
      → IsKept (upsert_all rs rows) r
  unfolding upsert_all
  upsert_all-keeps r [] rows d h = h
  upsert_all-keeps r (q ∷ rs) rows d h =
      upsert_all-keeps r rs (upsert_forecast q rows).0 d.1 (rw (find-upsert_other r q rows d.0) h)

  upsert_all-own :
      (rs rows : List (ForecastRow F)) → Distinct rs → All (IsKept (upsert_all rs rows)) rs
  unfolding upsert_all
  upsert_all-own [] rows d = tt
  upsert_all-own (r ∷ rs) rows d = (
    upsert_all-keeps r rs (upsert_forecast r rows).0 d.0 (find-upsert_self r rows),
    upsert_all-own rs (upsert_forecast r rows).0 d.1,
  )

  upsert_all-IsKept :
      (rs rows : List (ForecastRow F))
      → All (IsKept rows) rs
      → (upsert_all rs rows ≡ rows) × (writes rs rows ≡ 0)
  unfolding upsert_all writes
  upsert_all-IsKept [] rows h = (refl, refl)
  upsert_all-IsKept (r ∷ rs) rows h =
      rw (upsert_forecast-IsKept r rows h.0)
        (let (a, b) = upsert_all-IsKept rs rows h.1 in (a, omega arith))

  -- a batch that is recorded again
  pub upsert_all-again :
      (rs rows : List (ForecastRow F))
      → Distinct rs
      → (upsert_all rs (upsert_all rs rows) ≡ upsert_all rs rows)
        × (writes rs (upsert_all rs rows) ≡ 0)
  upsert_all-again rs rows d = upsert_all-IsKept rs (upsert_all rs rows) (upsert_all-own rs rows d)
