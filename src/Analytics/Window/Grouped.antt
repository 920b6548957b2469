-- ===== src/Analytics/Window/Grouped.antt =====
-- src/planter_telemetry/analytics/db.py: the grouping of the window's rows by device.
use planter_telemetry.Prelude.{
  ap, append_assoc, refl, append-nil, ◌∙◌, text_eq→eq, inr, inl, true, map, false, sym, arith, All,
  Bool-cases, if◌then◌else◌, ◌≡◌, ◌++◌, text_eq, [], ◌∷◌, List, Text,
}
use planter_telemetry.Contract.Reading.{TelemetryV1}
use planter_telemetry.Analytics.Window.Order.{of_device}
use planter_telemetry.Analytics.Window.{
  battery_sample, water_sample, DeviceSeries, group_rows, add_row,
}

module _ {F : Type 0} where
  -- the series of a device, empty where the window has none
  unfoldable pub series_of : Text → List (Text × DeviceSeries F) → DeviceSeries F
  series_of d [] = record { water = []; battery = [] }
  series_of d ((e, v) ∷ rest) = if text_eq e d then v else series_of d rest

  -- `v` with the samples of the rows at its end
  abbrev extended : DeviceSeries F → List (TelemetryV1 F) → DeviceSeries F
  extended v rows = record {
    water = v.water ++ map water_sample rows;
    battery = v.battery ++ map battery_sample rows;
  }

  extended_none : (v : DeviceSeries F) → extended v [] ≡ v
  extended_none v = ground (arith, append-nil v.water, append-nil v.battery)

  series_of-add_row_same :
      (d : Text) (r : TelemetryV1 F) (series : List (Text × DeviceSeries F))
      → text_eq r.device_id d ≡ true
      → series_of d (add_row r series) ≡ extended (series_of d series) (r ∷ [])
  unfolding series_of add_row
  series_of-add_row_same d r [] h = rw h refl
  series_of-add_row_same d r ((e, v) ∷ series) h =
      let er : text_eq e r.device_id ≡ text_eq e d = ap (text_eq e) (text_eq→eq r.device_id d h) in
      elim (Bool-cases (text_eq e d)) [
        | inl ed ↦ rw (er, ed, ed) refl
        | inr ed ↦ rw (er, ed, ed) (series_of-add_row_same d r series h)
      ]

  series_of-add_row_other :
      (d : Text) (r : TelemetryV1 F) (series : List (Text × DeviceSeries F))
      → text_eq r.device_id d ≡ false
      → series_of d (add_row r series) ≡ series_of d series
  unfolding series_of add_row
  series_of-add_row_other d r [] h = rw h refl
  series_of-add_row_other d r ((e, v) ∷ series) h = elim (Bool-cases (text_eq e r.device_id)) [
    | inl er ↦ let ne : text_eq e d ≡ false = rw (text_eq→eq e r.device_id er) h in rw (er, ne) refl
    | inr er ↦ rw er (ground (arith, series_of-add_row_other d r series h))
  ]

  -- Grouping appends each device's rows to its series, in their order.
  pub series_of-group_rows :
      (d : Text) (rows : List (TelemetryV1 F)) (series : List (Text × DeviceSeries F))
      → series_of d (group_rows rows series) ≡ extended (series_of d series) (of_device d rows)
  unfolding group_rows of_device
  series_of-group_rows d [] series = sym (extended_none (series_of d series))
  series_of-group_rows d (r ∷ rows) series = elim (Bool-cases (text_eq r.device_id d)) [
    | inl e ↦
        series_of-group_rows d rows (add_row r series)
        ∙ rw (series_of-add_row_same d r series e, e)
            (ground (
              arith,
              append_assoc (series_of d series).water (water_sample r ∷ [])
                  (map water_sample (of_device d rows)),
              append_assoc (series_of d series).battery (battery_sample r ∷ [])
                  (map battery_sample (of_device d rows)),
            ))
    | inr e ↦
        series_of-group_rows d rows (add_row r series)
        ∙ rw (series_of-add_row_other d r series e, e) refl
  ]

  -- The devices of the window differ.
  abbrev pub DistinctKeys : List (Text × DeviceSeries F) → Type 0
  DistinctKeys [] = Unit
  DistinctKeys (x ∷ xs) =
      All (λ (y : Text × DeviceSeries F). text_eq x.0 y.0 ≡ false) xs × DistinctKeys xs

  All-add_row :
      (e : Text) (r : TelemetryV1 F) (series : List (Text × DeviceSeries F))
      → text_eq e r.device_id ≡ false
      → All (λ (y : Text × DeviceSeries F). text_eq e y.0 ≡ false) series
      → All (λ (y : Text × DeviceSeries F). text_eq e y.0 ≡ false) (add_row r series)
  unfolding add_row
  All-add_row e r [] ne h = (ne, tt)
  All-add_row e r ((f, v) ∷ series) ne h = elim (Bool-cases (text_eq f r.device_id)) [
    | inl same ↦ rw same h
    | inr other ↦ rw other (h.0, All-add_row e r series ne h.1)
  ]

  add_row-DistinctKeys :
      (r : TelemetryV1 F) (series : List (Text × DeviceSeries F))
      → DistinctKeys series
      → DistinctKeys (add_row r series)
  unfolding add_row
  add_row-DistinctKeys r [] h = (tt, tt)
  add_row-DistinctKeys r ((e, v) ∷ series) h = elim (Bool-cases (text_eq e r.device_id)) [
    | inl same ↦ rw same h
    | inr other ↦ rw other (All-add_row e r series other h.0, add_row-DistinctKeys r series h.1)
  ]

  pub group_rows-DistinctKeys :
      (rows : List (TelemetryV1 F)) (series : List (Text × DeviceSeries F))
      → DistinctKeys series
      → DistinctKeys (group_rows rows series)
  unfolding group_rows
  group_rows-DistinctKeys [] series h = h
  group_rows-DistinctKeys (r ∷ rows) series h =
      group_rows-DistinctKeys rows (add_row r series) (add_row-DistinctKeys r series h)
