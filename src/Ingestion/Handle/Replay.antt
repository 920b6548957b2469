-- ===== src/Ingestion/Handle/Replay.antt =====
-- src/planter_telemetry/ingestion/service.py: redelivery. Handling a message again, after a failure
-- or from a replayed capture, does not change the readings and the devices.
use planter_telemetry.Contract.Reading.{TelemetryV1}
use planter_telemetry.Prelude.{
  raised, arith, ◌⊎◌, refl, none, ◌||◌, inr, some, ap, ◌∙◌, inl, true, ℕ, Option, ◌≡◌, ok, List,
  Result,
}
use planter_telemetry.Ingestion.Core.{dead_letter, valid_reading, Outcome}
use planter_telemetry.Ingestion.Handle.Effects.{
  handle_outcome-Ends, Ends-weaken, Ends-both, Registered, Same, Stored, Done, Failed,
}
use planter_telemetry.Ingestion.Handle.Registry.{
  Covered-upsert_row, InSpan, Covered-upsert_self, Covered,
}
use planter_telemetry.Ingestion.Db.Tables.{
  upsert_row-present, same_key_refl, seen, has_key-insert_row, insert_row-present,
}
use planter_telemetry.Ingestion.Handle.{handle_outcome, handle_classified}
use planter_telemetry.Ingestion.Db.{has_key, upsert_row, Device, insert_row, World, Db}

module _ {F : Type 0} where
  insert_row_twice :
      (r : TelemetryV1 F) (rows : List (TelemetryV1 F))
      → insert_row r (insert_row r rows) ≡ insert_row r rows
  insert_row_twice r rows =
      insert_row-present r (insert_row r rows)
        (has_key-insert_row r r rows ∙ ap (λ b. b || has_key r rows) (same_key_refl r))

  upsert_row-Covered :
      (r : TelemetryV1 F) (devices : List Device)
      → Covered devices r
      → upsert_row r.device_id r.measured_at devices ≡ devices
  upsert_row-Covered r devices h = go (seen r.device_id devices) refl h
    where
      go :
          (o : Option (ℕ × ℕ))
          → seen r.device_id devices ≡ o
          → InSpan r.measured_at o
          → upsert_row r.device_id r.measured_at devices ≡ devices
      go none e s = elim s [ ]
      go (some (a, b)) e s = upsert_row-present r.device_id r.measured_at devices e s.0 s.1

  upsert_row_twice :
      (r : TelemetryV1 F) (devices : List Device)
      → let devices' = upsert_row r.device_id r.measured_at devices in
        upsert_row r.device_id r.measured_at devices' ≡ devices'
  upsert_row_twice r devices =
      upsert_row-Covered r (upsert_row r.device_id r.measured_at devices)
        (Covered-upsert_self devices r)

  -- A message whose handling failed, at any statement and on either side of the server, and that is
  -- then handled with success, leaves the tables as if the first attempt had not been made.
  pub retry_lem :
      (r : TelemetryV1 F) (v w u : World F)
      → Failed (valid_reading r) v w
      → Done (valid_reading r) w u
      → Stored r v.db u.db
  retry_lem r v w u f d = go f.0
    where
      go : Same v.db w.db ⊎ Registered r v.db w.db ⊎ Stored r v.db w.db → Stored r v.db u.db
      go (inl s) =
          (d.0.0 ∙ ap (insert_row r) s.0, d.0.1 ∙ ap (upsert_row r.device_id r.measured_at) s.1)
      go (inr (inl s)) = (
        d.0.0 ∙ ap (insert_row r) s.0,
        d.0.1 ∙ ap (upsert_row r.device_id r.measured_at) s.1 ∙ upsert_row_twice r v.db.devices,
      )
      go (inr (inr s)) = (
        d.0.0 ∙ ap (insert_row r) s.0 ∙ insert_row_twice r v.db.telemetry,
        d.0.1 ∙ ap (upsert_row r.device_id r.measured_at) s.1 ∙ upsert_row_twice r v.db.devices,
      )

  -- What the tables hold once the message has been handled.
  abbrev pub InTables : Db F → Result (Outcome F) → Type 0
  InTables db (ok (valid_reading r)) = (has_key r db.telemetry ≡ true) × Covered db.devices r
  InTables db _ = Unit

  InTables-store :
      (r : TelemetryV1 F) (c : Result (Outcome F)) (v w : Db F)
      → (w.telemetry ≡ v.telemetry) ⊎ (w.telemetry ≡ insert_row r v.telemetry)
      → (w.devices ≡ v.devices) ⊎ (w.devices ≡ upsert_row r.device_id r.measured_at v.devices)
      → InTables v c
      → InTables w c
  InTables-store r (ok (valid_reading q)) v w t d h = (key t, span d)
    where
      key :
          (w.telemetry ≡ v.telemetry) ⊎ (w.telemetry ≡ insert_row r v.telemetry)
          → has_key q w.telemetry ≡ true
      key (inl e) = ap (has_key q) e ∙ h.0
      key (inr e) = ap (has_key q) e ∙ has_key-insert_row r q v.telemetry ∙ ground (arith, h.0)

      span :
          (w.devices ≡ v.devices) ⊎ (w.devices ≡ upsert_row r.device_id r.measured_at v.devices)
          → Covered w.devices q
      span (inl e) = rw e h.1
      span (inr e) = rw e (Covered-upsert_row r.device_id r.measured_at v.devices q h.1)
  InTables-store r (ok (dead_letter dl)) v w t d h = tt
  InTables-store r (raised e) v w t d h = tt

  InTables-Same : (c : Result (Outcome F)) (v w : Db F) → Same v w → InTables v c → InTables w c
  InTables-Same (ok (valid_reading q)) v w s h = (ap (has_key q) s.0 ∙ h.0, rw s.1 h.1)
  InTables-Same (ok (dead_letter dl)) v w s h = tt
  InTables-Same (raised e) v w s h = tt

  -- Later messages take nothing out of the tables, whether they are handled or fail.
  pub InTables-Done :
      (o : Outcome F) (c : Result (Outcome F)) (v w : World F)
      → Done o v w
      → InTables v.db c
      → InTables w.db c
  InTables-Done (valid_reading r) c v w d h = InTables-store r c v.db w.db (inr d.0.0) (inr d.0.1) h
  InTables-Done (dead_letter dl) c v w d h = InTables-Same c v.db w.db d.0 h

  pub InTables-own : (o : Outcome F) (v w : World F) → Done o v w → InTables w.db (ok o)
  InTables-own (valid_reading r) v w d = (
    ap (has_key r) d.0.0
        ∙ has_key-insert_row r r v.db.telemetry
        ∙ ap (λ b. b || has_key r v.db.telemetry) (same_key_refl r),
    rw d.0.1 (Covered-upsert_self v.db.devices r),
  )
  InTables-own (dead_letter dl) v w d = tt

  -- A message whose reading is in the tables changes neither of them, even if it fails.
  Same-Stored :
      (r : TelemetryV1 F) (v w : Db F) → Stored r v w → InTables v (ok (valid_reading r)) → Same v w
  Same-Stored r v w s h =
      (s.0 ∙ insert_row-present r v.telemetry h.0, s.1 ∙ upsert_row-Covered r v.devices h.1)

  Same-Done : (o : Outcome F) (v w : World F) → Done o v w → InTables v.db (ok o) → Same v.db w.db
  Same-Done (valid_reading r) v w d h = Same-Stored r v.db w.db d.0 h
  Same-Done (dead_letter dl) v w d h = d.0

  Same-Failed :
      (o : Outcome F) (v w : World F) → Failed o v w → InTables v.db (ok o) → Same v.db w.db
  Same-Failed (valid_reading r) v w d h = elim d.0 [
    | inl s ↦ s
    | inr (inl s) ↦ (s.0, s.1 ∙ upsert_row-Covered r v.db.devices h.1)
    | inr (inr s) ↦ Same-Stored r v.db w.db s h
  ]
  Same-Failed (dead_letter dl) v w d h = d.0

  pub Same-trans : (a b c : Db F) → Same a b → Same b c → Same a c
  Same-trans a b c p q = (q.0 ∙ p.0, q.1 ∙ p.1)

  pub Same-handle_classified :
      (c : Result (Outcome F)) (w : World F)
      → InTables w.db c
      → Same w.db (handle_classified c w).1.db
  unfolding handle_classified
  Same-handle_classified (raised e) w h = (refl, refl)
  Same-handle_classified (ok o) w h =
      Ends-both (handle_outcome o w) (λ v. Same w.db v.db)
        (Ends-weaken (handle_outcome o w) (λ _. Done o w) _ (Failed o w) _ (handle_outcome-Ends o w)
          (λ _ v d. Same-Done o w v d h) (λ v d. Same-Failed o w v d h))

  pub InTables-Failed :
      (o : Outcome F) (c : Result (Outcome F)) (v w : World F)
      → Failed o v w
      → InTables v.db c
      → InTables w.db c
  InTables-Failed (valid_reading r) c v w d h = elim d.0 [
    | inl s ↦ InTables-Same c v.db w.db s h
    | inr (inl s) ↦ InTables-store r c v.db w.db (inl s.0) (inr s.1) h
    | inr (inr s) ↦ InTables-store r c v.db w.db (inr s.0) (inr s.1) h
  ]
  InTables-Failed (dead_letter dl) c v w d h = InTables-Same c v.db w.db d.0 h
