-- ===== src/Migrations/Views/Newest.antt =====
-- src/planter_telemetry/migrations/versions/0010_forecasts_latest_fix.py: the newest forecast of a
-- device and kind.
use planter_telemetry.Migrations.Views.{
  is_forecast_of, forecasts_of, insert_newest, newest_first, first_row, newest_forecast,
}
use planter_telemetry.Analytics.Store.{ForecastRow}
use planter_telemetry.Prelude.{
  ltb, if◌then◌else◌, Text, Option, none, some, List, [], ◌∷◌, ℕ, ◌≡◌, refl, false, All, inl, inr,
  Bool-cases, ap, ◌∙◌, sym, arith, ◌≤◌,
}

module _ {F : Type 0} where
  -- the row of `d` and `k`
  unfoldable pub find_row : Text → Text → List (ForecastRow F) → Option (ForecastRow F)
  unfolding is_forecast_of
  find_row d k [] = none
  find_row d k (r ∷ rows) = if is_forecast_of d k r then some r else find_row d k rows

  -- the newer of a row and the newest of those behind it
  abbrev pub newer : ForecastRow F → Option (ForecastRow F) → ForecastRow F
  newer r none = r
  newer r (some q) = if ltb r.as_of q.as_of then q else r

  first_row-insert_newest :
      (r : ForecastRow F) (rows : List (ForecastRow F))
      → first_row (insert_newest r rows) ≡ some (newer r (first_row rows))
  unfolding insert_newest
  first_row-insert_newest r [] = refl
  first_row-insert_newest r (q ∷ rows) = elim (Bool-cases (ltb r.as_of q.as_of)) [
    | inl e ↦ rw (e) refl
    | inr e ↦ rw (e) refl
  ]

  -- The newest forecast of a longer table.
  pub newest_forecast-cons :
      (d k : Text) (r : ForecastRow F) (rows : List (ForecastRow F))
      → newest_forecast d k (r ∷ rows) ≡ (
          if is_forecast_of d k r
          then some (newer r (newest_forecast d k rows))
          else newest_forecast d k rows)
  unfolding newest_forecast forecasts_of newest_first
  newest_forecast-cons d k r rows = elim (Bool-cases (is_forecast_of d k r)) [
    | inl e ↦ rw (e) (first_row-insert_newest r (newest_first (forecasts_of d k rows)))
    | inr e ↦ rw (e) refl
  ]

  abbrev Descends : List (ForecastRow F) → Type 0
  Descends [] = Unit
  Descends (r ∷ rows) = All (λ (q : ForecastRow F). q.as_of ≤ r.as_of) rows × Descends rows

  All-insert_newest :
      (b : ℕ) (r : ForecastRow F) (rows : List (ForecastRow F))
      → r.as_of ≤ b
      → All (λ (q : ForecastRow F). q.as_of ≤ b) rows
      → All (λ (q : ForecastRow F). q.as_of ≤ b) (insert_newest r rows)
  unfolding insert_newest
  All-insert_newest b r [] h a = (h, tt)
  All-insert_newest b r (q ∷ rows) h a = elim (Bool-cases (ltb r.as_of q.as_of)) [
    | inl e ↦ rw (e) (a.0, All-insert_newest b r rows h a.1)
    | inr e ↦ rw (e) (h, (a.0, a.1))
  ]

  All-weaken :
      (b c : ℕ) (rows : List (ForecastRow F))
      → b ≤ c
      → All (λ (q : ForecastRow F). q.as_of ≤ b) rows
      → All (λ (q : ForecastRow F). q.as_of ≤ c) rows
  All-weaken b c [] h a = tt
  All-weaken b c (q ∷ rows) h a = (omega (arith, h, a.0), All-weaken b c rows h a.1)

  insert_newest-Descends :
      (r : ForecastRow F) (rows : List (ForecastRow F))
      → Descends rows
      → Descends (insert_newest r rows)
  unfolding insert_newest
  insert_newest-Descends r [] h = (tt, tt)
  insert_newest-Descends r (q ∷ rows) h = elim (Bool-cases (ltb r.as_of q.as_of)) [
    | inl e ↦
        let le : r.as_of ≤ q.as_of = ground arith in
        rw (e) (All-insert_newest q.as_of r rows le h.0, insert_newest-Descends r rows h.1)
    | inr e ↦
        let le : q.as_of ≤ r.as_of = ground arith in
        rw (e) ((le, All-weaken q.as_of r.as_of rows le h.0), h)
  ]

  newest_first-Descends : (rows : List (ForecastRow F)) → Descends (newest_first rows)
  unfolding newest_first
  newest_first-Descends [] = tt
  newest_first-Descends (r ∷ rows) = insert_newest-Descends r _ (newest_first-Descends rows)

  newer-bound :
      (d k : Text) (r : ForecastRow F) (rows : List (ForecastRow F))
      → All (λ (q : ForecastRow F). q.as_of ≤ r.as_of) rows
      → newer r (find_row d k rows) ≡ r
  unfolding find_row
  newer-bound d k r [] a = refl
  newer-bound d k r (q ∷ rows) a = elim (Bool-cases (is_forecast_of d k q)) [
    | inl e ↦ let old : ltb r.as_of q.as_of ≡ false = ground (arith, a.0) in rw (e, old) refl
    | inr e ↦ rw (e) (newer-bound d k r rows a.1)
  ]

  find_row-insert_newest :
      (d k : Text) (r : ForecastRow F) (rows : List (ForecastRow F))
      → Descends rows
      → find_row d k (insert_newest r rows)
        ≡ (if is_forecast_of d k r then some (newer r (find_row d k rows)) else find_row d k rows)
  unfolding find_row insert_newest
  find_row-insert_newest d k r [] h = refl
  find_row-insert_newest d k r (q ∷ rows) h = elim (Bool-cases (ltb r.as_of q.as_of)) [
    | inl e ↦ elim (Bool-cases (is_forecast_of d k q)) [
      | inl own ↦
          rw (e, own, e)
            (elim (Bool-cases (is_forecast_of d k r)) [ inl x ↦ rw (x) refl | inr x ↦ rw (x) refl ])
      | inr other ↦ rw (e, other) (find_row-insert_newest d k r rows h.1)
    ]
    | inr e ↦
        let le : q.as_of ≤ r.as_of = ground arith in
        elim (Bool-cases (is_forecast_of d k r)) [
          | inl own ↦
              rw (e, own)
                (ap some
                  (sym (newer-bound d k r (q ∷ rows) (le, All-weaken q.as_of r.as_of rows le h.0))))
          | inr other ↦ rw (e, other) refl
        ]
  ]

  find_row-newest_nil : (d k : Text) → find_row d k (newest_first []) ≡ newest_forecast d k []
  unfolding newest_first newest_forecast find_row forecasts_of
  find_row-newest_nil d k = refl

  -- The first row of a device and kind in the sorted table is its newest forecast.
  pub find_row-newest_first :
      (d k : Text) (rows : List (ForecastRow F))
      → find_row d k (newest_first rows) ≡ newest_forecast d k rows
  unfolding newest_first
  find_row-newest_first d k [] = find_row-newest_nil d k
  find_row-newest_first d k (r ∷ rows) =
      find_row-insert_newest d k r (newest_first rows) (newest_first-Descends rows)
      ∙ rw (find_row-newest_first d k rows) (sym (newest_forecast-cons d k r rows))
