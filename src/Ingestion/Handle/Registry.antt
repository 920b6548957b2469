-- ===== src/Ingestion/Handle/Registry.antt =====
-- src/planter_telemetry/ingestion/service.py: "registry first, so a reading never exists without
-- its device row", whatever fails.
use planter_telemetry.Contract.Reading.{Pydantic, TelemetryV1}
use planter_telemetry.Ingestion.Db.{has_key, upsert_row, Device, World, Db, insert_row}
use planter_telemetry.Ingestion.Core.{classify, dead_letter, valid_reading, PyText, Outcome}
use planter_telemetry.Prelude.{
  All-append, inr, text_eq_refl, text_eq, inl, [], ◌∷◌, arith, ok, none, raised, Bool-cases, ◌≤◌,
  some, All, Option, Result, ℕ, Text, List,
}
use planter_telemetry.Ingestion.Handle.{handle_outcome, Item, handle_one, handle_classified}
use planter_telemetry.Ingestion.Handle.Effects.{
  handle_outcome-Ends, Ends-weaken, Ends-both, Failed, Done, Registered, Same, Stored,
}
use planter_telemetry.Ingestion.Db.Tables.{seen-upsert_row, seen, widen}
use planter_telemetry.Prelude.Floats.{Floats}

-- The time lies within a device's first and last times.
abbrev pub InSpan : ℕ → Option (ℕ × ℕ) → Type 0
InSpan t none = ⊥
InSpan t (some (a, b)) = (a ≤ t) × (t ≤ b)

InSpan-widen : (t u : ℕ) (o : Option (ℕ × ℕ)) → InSpan t o → InSpan t (widen u o)
InSpan-widen t u none h = elim h [ ]
InSpan-widen t u (some (a, b)) h = ground arith

InSpan-widen_self : (t : ℕ) (o : Option (ℕ × ℕ)) → InSpan t (widen t o)
InSpan-widen_self t none = ground arith
InSpan-widen_self t (some (a, b)) = ground arith

module _ {F : Type 0} where
  -- The reading's device is registered, and its time lies within the device's times.
  abbrev pub Covered : List Device → TelemetryV1 F → Type 0
  Covered devices r = InSpan r.measured_at (seen r.device_id devices)

  -- Every row of `telemetry` is covered by a row of `devices`.
  pub record IsRegistered (db : Db F) : Type 0 where
    pub rows : All (Covered db.devices) db.telemetry

  pub Covered-upsert_row :
      (d : Text) (t : ℕ) (devices : List Device) (r : TelemetryV1 F)
      → Covered devices r
      → Covered (upsert_row d t devices) r
  Covered-upsert_row d t devices r h =
      rw seen-upsert_row (elim (Bool-cases (text_eq d r.device_id)) [
        | inl e ↦ rw e (InSpan-widen r.measured_at t (seen r.device_id devices) h)
        | inr e ↦ rw e h
      ])

  pub Covered-upsert_self :
      (devices : List Device) (r : TelemetryV1 F)
      → Covered (upsert_row r.device_id r.measured_at devices) r
  Covered-upsert_self devices r =
      rw (seen-upsert_row, text_eq_refl r.device_id)
        (InSpan-widen_self r.measured_at (seen r.device_id devices))

  All-upsert_row :
      (d : Text) (t : ℕ) (devices : List Device) (rows : List (TelemetryV1 F))
      → All (Covered devices) rows
      → All (Covered (upsert_row d t devices)) rows
  All-upsert_row d t devices [] h = tt
  All-upsert_row d t devices (r ∷ rows) h =
      (Covered-upsert_row d t devices r h.0, All-upsert_row d t devices rows h.1)

  All-insert_row :
      (devices : List Device) (r : TelemetryV1 F) (rows : List (TelemetryV1 F))
      → Covered devices r
      → All (Covered devices) rows
      → All (Covered devices) (insert_row r rows)
  unfolding insert_row
  All-insert_row devices r rows c h = elim (Bool-cases (has_key r rows)) [
    | inl e ↦ rw e h
    | inr e ↦ rw e (All-append (Covered devices) rows (r ∷ []) h (c, tt))
  ]

  Same-IsRegistered : (v w : Db F) → Same v w → IsRegistered v → IsRegistered w
  Same-IsRegistered v w s h = record { rows = rw (s.0, s.1) h.rows }

  Registered-IsRegistered :
      (r : TelemetryV1 F) (v w : Db F) → Registered r v w → IsRegistered v → IsRegistered w
  Registered-IsRegistered r v w s h = record {
    rows = rw (s.0, s.1) (All-upsert_row r.device_id r.measured_at v.devices v.telemetry h.rows);
  }

  Stored-IsRegistered :
      (r : TelemetryV1 F) (v w : Db F) → Stored r v w → IsRegistered v → IsRegistered w
  Stored-IsRegistered r v w s h = record {
    rows =
        rw (s.0, s.1)
          (All-insert_row _ r v.telemetry (Covered-upsert_self v.devices r)
            (All-upsert_row r.device_id r.measured_at v.devices v.telemetry h.rows));
  }

  Done-IsRegistered :
      (o : Outcome F) (v w : World F) → Done o v w → IsRegistered v.db → IsRegistered w.db
  Done-IsRegistered (valid_reading r) v w d h = Stored-IsRegistered r v.db w.db d.0 h
  Done-IsRegistered (dead_letter dl) v w d h = Same-IsRegistered v.db w.db d.0 h

  Failed-IsRegistered :
      (o : Outcome F) (v w : World F) → Failed o v w → IsRegistered v.db → IsRegistered w.db
  Failed-IsRegistered (valid_reading r) v w d h = elim d.0 [
    | inl s ↦ Same-IsRegistered v.db w.db s h
    | inr (inl s) ↦ Registered-IsRegistered r v.db w.db s h
    | inr (inr s) ↦ Stored-IsRegistered r v.db w.db s h
  ]
  Failed-IsRegistered (dead_letter dl) v w d h = Same-IsRegistered v.db w.db d.0 h

  handle_classified-IsRegistered :
      (c : Result (Outcome F)) (w : World F)
      → IsRegistered w.db
      → IsRegistered (handle_classified c w).1.db
  unfolding handle_classified
  handle_classified-IsRegistered (raised e) w h = h
  handle_classified-IsRegistered (ok o) w h =
      Ends-both (handle_outcome o w) (λ v. IsRegistered v.db)
        (Ends-weaken (handle_outcome o w) (λ _. Done o w) _ (Failed o w) _ (handle_outcome-Ends o w)
          (λ _ v d. Done-IsRegistered o w v d h) (λ v d. Failed-IsRegistered o w v d h))

module _ {F : Type 0} ⦃fl : Floats F⦄ (pd : Pydantic F) (py : PyText) where
  -- If every reading in the database has a registered device whose first and last times enclose its
  -- own, this is still so after any message was handled, whichever statement failed and whether or
  -- not the server ran it.
  pub handle_one-IsRegistered :
      (item : Item) (w : World F) → IsRegistered w.db → IsRegistered (handle_one pd py item w).1.db
  unfolding handle_one
  handle_one-IsRegistered (topic, payload) w h =
      handle_classified-IsRegistered (classify pd py topic payload) w h
