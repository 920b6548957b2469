-- ===== src/Ingestion/Handle/Keys.antt =====
-- src/planter_telemetry/ingestion: the key (device_id, measured_at) of `telemetry` stays unique.
use planter_telemetry.Ingestion.Db.{same_key, World, has_key, insert_row}
use planter_telemetry.Contract.Reading.{Pydantic, TelemetryV1}
use planter_telemetry.Prelude.{
  or-eq-false, ok, All-append, [], raised, inr, ◌++◌, inl, false, Result, Bool-cases, All, ◌≡◌, ◌∷◌,
  List,
}
use planter_telemetry.Ingestion.Handle.{handle_outcome, Item, handle_one, handle_classified}
use planter_telemetry.Ingestion.Core.{dead_letter, valid_reading, classify, PyText, Outcome}
use planter_telemetry.Ingestion.Handle.Effects.{
  handle_outcome-Ends, Ends-weaken, Ends-both, Failed, Done,
}
use planter_telemetry.Prelude.Floats.{Floats}

module _ {F : Type 0} where
  -- No two rows have one key.
  abbrev pub UniqueKeys : List (TelemetryV1 F) → Type 0
  UniqueKeys [] = Unit
  UniqueKeys (r ∷ rows) = All (λ q. same_key r q ≡ false) rows × UniqueKeys rows

  has_key-false :
      (r : TelemetryV1 F) (rows : List (TelemetryV1 F))
      → has_key r rows ≡ false
      → All (λ q. same_key q r ≡ false) rows
  unfolding has_key
  has_key-false r [] h = tt
  has_key-false r (q ∷ rows) h =
      let (a, b) = or-eq-false (same_key q r) (has_key r rows) h in (a, has_key-false r rows b)

  UniqueKeys-append :
      (r : TelemetryV1 F) (rows : List (TelemetryV1 F))
      → All (λ q. same_key q r ≡ false) rows
      → UniqueKeys rows
      → UniqueKeys (rows ++ r ∷ [])
  UniqueKeys-append r [] a h = (tt, tt)
  UniqueKeys-append r (q ∷ rows) a h = (
    All-append (λ x. same_key q x ≡ false) rows (r ∷ []) h.0 (a.0, tt),
    UniqueKeys-append r rows a.1 h.1,
  )

  insert_row-UniqueKeys :
      (r : TelemetryV1 F) (rows : List (TelemetryV1 F))
      → UniqueKeys rows
      → UniqueKeys (insert_row r rows)
  unfolding insert_row
  insert_row-UniqueKeys r rows h = elim (Bool-cases (has_key r rows)) [
    | inl e ↦ rw e h
    | inr e ↦ rw e (UniqueKeys-append r rows (has_key-false r rows e) h)
  ]

  abbrev KeysOf : World F → Type 0
  KeysOf w = UniqueKeys w.db.telemetry

  handle_classified-UniqueKeys :
      (c : Result (Outcome F)) (w : World F) → KeysOf w → KeysOf (handle_classified c w).1
  unfolding handle_classified
  handle_classified-UniqueKeys (raised e) w h = h
  handle_classified-UniqueKeys (ok o) w h = Ends-both (handle_outcome o w) KeysOf (
      Ends-weaken (handle_outcome o w) (λ _. Done o w) _ (Failed o w) _ (handle_outcome-Ends o w)
        (λ _ v d. of_Done o v d) (λ v d. of_Failed o v d))
    where
      of_Done : (o : Outcome F) (v : World F) → Done o w v → KeysOf v
      of_Done (valid_reading r) v d = rw (d.0.0) (insert_row-UniqueKeys r w.db.telemetry h)
      of_Done (dead_letter dl) v d = rw (d.0.0) h

      of_Failed : (o : Outcome F) (v : World F) → Failed o w v → KeysOf v
      of_Failed (valid_reading r) v d = elim d.0 [
        | inl s ↦ rw (s.0) h
        | inr (inl s) ↦ rw (s.0) h
        | inr (inr s) ↦ rw (s.0) (insert_row-UniqueKeys r w.db.telemetry h)
      ]
      of_Failed (dead_letter dl) v d = rw (d.0.0) h

module _ {F : Type 0} ⦃fl : Floats F⦄ (pd : Pydantic F) (py : PyText) where
  -- Whatever the message and the fates of the four statements, _handle_one keeps the rows of
  -- `telemetry` unique by (device_id, measured_at): a redelivered reading is never stored twice.
  pub handle_one-UniqueKeys :
      (item : Item) (w : World F)
      → UniqueKeys w.db.telemetry
      → UniqueKeys (handle_one pd py item w).1.db.telemetry
  unfolding handle_one
  handle_one-UniqueKeys (topic, payload) w h =
      handle_classified-UniqueKeys (classify pd py topic payload) w h
