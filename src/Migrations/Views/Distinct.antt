-- ===== src/Migrations/Views/Distinct.antt =====
-- src/planter_telemetry/migrations/versions/0008_forecasts.py: what a sort and DISTINCT ON keep of a
-- device and kind.
use planter_telemetry.Migrations.Views.{
  others_than, distinct_on, sort_by, insert_by, is_forecast_of, newest_first, newest_forecast,
}
use planter_telemetry.Analytics.Store.{ForecastRow}
use planter_telemetry.Analytics.Window.{Collation}
use planter_telemetry.Migrations.Views.Newest.{find_row-newest_first, find_row}
use planter_telemetry.Prelude.{
  eq→text_eq, text_eq→eq, true, Text, List, [], ◌∷◌, ◌≡◌, refl, false, inl, inr, Bool-cases, ◌∙◌,
  sym, arith,
}

module _ {F : Type 0} where
  pub is_forecast_of→eq :
      (d k : Text) (r : ForecastRow F)
      → is_forecast_of d k r ≡ true
      → (r.device_id ≡ d) × (r.kind ≡ k)
  unfolding is_forecast_of
  is_forecast_of→eq d k r h =
      (text_eq→eq r.device_id d (ground (arith, h)), text_eq→eq r.kind k (ground (arith, h)))

  is_forecast_of-apart :
      (d k : Text) (r q : ForecastRow F)
      → is_forecast_of d k r ≡ false
      → is_forecast_of d k q ≡ true
      → is_forecast_of r.device_id r.kind q ≡ false
  unfolding is_forecast_of
  is_forecast_of-apart d k r q h own = elim (Bool-cases (is_forecast_of r.device_id r.kind q)) [
    | inl e ↦
        let (qd, qk) = is_forecast_of→eq d k q own in
        let (rd, rk) = is_forecast_of→eq r.device_id r.kind q e in
        let a = eq→text_eq r.device_id d (sym rd ∙ qd) in
        let b = eq→text_eq r.kind k (sym rk ∙ qk) in absurd (ground (arith, a, b, h))
    | inr e ↦ e
  ]

  find_row-cons :
      (d k : Text) (r : ForecastRow F) (xs ys : List (ForecastRow F))
      → find_row d k xs ≡ find_row d k ys
      → find_row d k (r ∷ xs) ≡ find_row d k (r ∷ ys)
  unfolding find_row
  find_row-cons d k r xs ys e = rw (e) refl

  find_row-insert_by :
      (column : ForecastRow F → Text) (before : Collation) (d k : Text) (r : ForecastRow F)
      (rows : List (ForecastRow F))
      → ((q : ForecastRow F)
          → is_forecast_of d k q ≡ true
          → is_forecast_of d k r ≡ true
          → before (column q) (column r) ≡ false)
      → find_row d k (insert_by column before r rows) ≡ find_row d k (r ∷ rows)
  unfolding find_row insert_by
  find_row-insert_by column before d k r [] h = refl
  find_row-insert_by column before d k r (q ∷ rows) h =
      let rest = find_row-insert_by column before d k r rows h in
      elim (Bool-cases (before (column q) (column r))) [
        | inl e ↦ elim (Bool-cases (is_forecast_of d k q)) [
          | inl own ↦ elim (Bool-cases (is_forecast_of d k r)) [
            | inl x ↦ let bad = h q own x in cc
            | inr x ↦ rw (e, own, x) refl
          ]
          | inr other ↦ rw (e, other) (rest ∙ refl)
        ]
        | inr e ↦ rw (e) refl
      ]

  -- A stable sort by a column keeps the first row of a device and kind, where no value of the column
  -- sorts before itself.
  find_row-sort_by :
      (column : ForecastRow F → Text) (before : Collation) (d k : Text)
      (rows : List (ForecastRow F))
      → ((q r : ForecastRow F)
          → is_forecast_of d k q ≡ true
          → is_forecast_of d k r ≡ true
          → before (column q) (column r) ≡ false)
      → find_row d k (sort_by column before rows) ≡ find_row d k rows
  unfolding sort_by
  find_row-sort_by column before d k [] h = refl
  find_row-sort_by column before d k (r ∷ rows) h =
      find_row-insert_by column before d k r (sort_by column before rows) (λ q. h q r)
      ∙ find_row-cons d k r _ _ (find_row-sort_by column before d k rows h)

  find_row-others_than :
      (d k e l : Text) (rows : List (ForecastRow F))
      → ((q : ForecastRow F) → is_forecast_of d k q ≡ true → is_forecast_of e l q ≡ false)
      → find_row d k (others_than e l rows) ≡ find_row d k rows
  unfolding find_row others_than
  find_row-others_than d k e l [] h = refl
  find_row-others_than d k e l (q ∷ rows) h =
      let rest = find_row-others_than d k e l rows h in
      elim (Bool-cases (is_forecast_of d k q)) [
        | inl own ↦ let kept = h q own in rw (kept, own) refl
        | inr other ↦ elim (Bool-cases (is_forecast_of e l q)) [
          | inl x ↦ rw (x, other) rest
          | inr x ↦ rw (x, other) rest
        ]
      ]

  -- DISTINCT ON keeps the first row of each device and kind.
  find_row-distinct_on :
      (d k : Text) (rows : List (ForecastRow F))
      → find_row d k (distinct_on rows) ≡ find_row d k rows
  unfolding find_row distinct_on
  find_row-distinct_on d k [] = refl
  find_row-distinct_on d k (r ∷ rows) = elim (Bool-cases (is_forecast_of d k r)) [
    | inl e ↦ rw (e) refl
    | inr e ↦ rw (e) (
        find_row-others_than d k r.device_id r.kind (distinct_on rows)
          (λ q own. is_forecast_of-apart d k r q e own)
        ∙ find_row-distinct_on d k rows)
  ]

  -- The rows of 0008's view, found by device and kind.
  pub find_row-sorted :
      (before : Collation) (d k : Text) (rows : List (ForecastRow F))
      → ((x : Text) → before x x ≡ false)
      → find_row d k (
          distinct_on
            (sort_by (λ r. r.device_id) before (sort_by (λ r. r.kind) before (newest_first rows))))
        ≡ newest_forecast d k rows
  find_row-sorted before d k rows h =
      find_row-distinct_on d k _
      ∙ find_row-sort_by (λ r. r.device_id) before d k _
          (λ q r x y. rw ((is_forecast_of→eq d k q x).0, (is_forecast_of→eq d k r y).0) (h d))
      ∙ find_row-sort_by (λ r. r.kind) before d k _
          (λ q r x y. rw ((is_forecast_of→eq d k q x).1, (is_forecast_of→eq d k r y).1) (h k))
      ∙ find_row-newest_first d k rows
