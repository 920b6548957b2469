-- ===== src/Ingestion/Handle/Idempotent.antt =====
-- src/planter_telemetry/ingestion/service.py: batches of messages. "Idempotency makes a
-- double-write harmless": a batch that was handled can be handled again, in part or in full.
use planter_telemetry.Ingestion.Handle.{
  handle_one, handle_outcome, Item, handle_all, continue, handle_classified,
}
use planter_telemetry.Ingestion.Db.{Fate, Db, Exec, World}
use planter_telemetry.Prelude.{
  ap, ◌∙◌, sym, ◌+◌, operational_error, Text, refl, [], ◌∷◌, All, List, raised, ok, ◌≡◌, Result,
}
use planter_telemetry.Contract.Reading.{TelemetryV1, Bytes, Pydantic}
use planter_telemetry.Ingestion.Core.{valid_reading, classify, Outcome, PyText}
use planter_telemetry.Ingestion.Handle.Replay.{
  retry_lem, Same-trans, Same-handle_classified, InTables-Failed, InTables-Done, InTables-own,
  InTables,
}
use planter_telemetry.Ingestion.Handle.Effects.{
  handled, Stored, handle_outcome-Ends, Ends-weaken, Failed, Done, Same, Ends-both, Ends,
}
use mathlib.Core.Path.{subst}
use planter_telemetry.Prelude.Floats.{Floats}

module _ {F : Type 0} where
  pub continue-keeps :
      (P : World F → Type 0) (x : Result (Unit {0}) × World F) (f : Exec F (Unit {0}))
      → P x.1
      → ((w : World F) → P w → P (f w).1)
      → P (continue x (λ _. f)).1
  continue-keeps P (ok u, w) f h k = k w h
  continue-keeps P (raised e, w) f h k = h

  continue-ok :
      (x : Result (Unit {0}) × World F) (f : Exec F (Unit {0}))
      → (continue x (λ _. f)).0 ≡ ok tt
      → (x.0 ≡ ok tt) × ((f x.1).0 ≡ ok tt) × (continue x (λ _. f) ≡ f x.1)
  continue-ok (ok u, w) f h = (refl, h, refl)
  continue-ok (raised e, w) f h = cc

  handle_classified-InTables :
      (o c : Result (Outcome F)) (w : World F)
      → InTables w.db c
      → InTables (handle_classified o w).1.db c
  unfolding handle_classified
  handle_classified-InTables (raised e) c w h = h
  handle_classified-InTables (ok o) c w h =
      Ends-both (handle_outcome o w) (λ v. InTables v.db c)
        (Ends-weaken (handle_outcome o w) (λ _. Done o w) _ (Failed o w) _ (handle_outcome-Ends o w)
          (λ _ v d. InTables-Done o c w v d h) (λ v d. InTables-Failed o c w v d h))

  -- A message that was handled with success is in the tables.
  handle_classified-own :
      (c : Result (Outcome F)) (w : World F)
      → (handle_classified c w).0 ≡ ok tt
      → InTables (handle_classified c w).1.db c
  unfolding handle_classified
  handle_classified-own (raised e) w h = cc
  handle_classified-own (ok o) w h = go (handle_outcome o w) (handle_outcome-Ends o w) h
    where
      go :
          (x : Result (Unit {0}) × World F)
          → Ends x (λ _. Done o w) (Failed o w)
          → x.0 ≡ ok tt
          → InTables x.1.db (ok o)
      go (ok u, v) d e = InTables-own o w v d
      go (raised x, v) d e = cc

  Ends-ok :
      (x : Result (Unit {0}) × World F) (Q E : World F → Type 0)
      → Ends x (λ _. Q) E
      → x.0 ≡ ok tt
      → Q x.1
  Ends-ok (ok u, w) Q E h e = h
  Ends-ok (raised x, w) Q E h e = cc

  Ends-raised :
      (x : Result (Unit {0}) × World F) (Q E : World F → Type 0)
      → Ends x (λ _. Q) E
      → x.0 ≡ raised operational_error
      → E x.1
  Ends-raised (ok u, w) Q E h e = cc
  Ends-raised (raised x, w) Q E h e = h.1

  retry_outcome :
      (r : TelemetryV1 F) (v : World F) (fates : List Fate)
      → let first = handle_outcome (valid_reading r) v in
        let second = handle_outcome (valid_reading r) (record (first.1) { fates = fates }) in
        first.0 ≡ raised operational_error
        → second.0 ≡ ok tt
        → Stored r v.db second.1.db × (handled second.1 ≡ handled v + 1)
  retry_outcome r v fates f g =
      let o : Outcome F = valid_reading r in
      let first = handle_outcome o v in
      let w = record (first.1) { fates = fates } in
      let failed : Failed o v w =
        Ends-raised first (Done o v) (Failed o v) (handle_outcome-Ends o v) f in
      let done : Done o w (handle_outcome o w).1 =
        Ends-ok (handle_outcome o w) (Done o w) (Failed o w) (handle_outcome-Ends o w) g in
      (retry_lem r v w (handle_outcome o w).1 failed done, done.2 ∙ ap (λ n. n + 1) failed.2)

module _ {F : Type 0} ⦃fl : Floats F⦄ (pd : Pydantic F) (py : PyText) where
  -- The message's reading, if it is a valid one, is in the tables.
  abbrev pub Present : Db F → Item → Type 0
  Present db item = InTables db (classify pd py item.0 item.1)

  handle_all-Present :
      (item : Item) (items : List Item) (w : World F)
      → Present w.db item
      → Present (handle_all pd py items w).1.db item
  unfolding handle_all
  handle_all-Present item [] w h = h
  handle_all-Present item ((topic, payload) ∷ items) w h =
      continue-keeps (λ v. Present v.db item) (handle_one pd py (topic, payload) w) _
        (handle_classified-InTables (classify pd py topic payload) (classify pd py item.0 item.1) w
          h)
        (λ v k. handle_all-Present item items v k)

  pub handle_all-own :
      (items : List Item) (w : World F)
      → (handle_all pd py items w).0 ≡ ok tt
      → All (Present (handle_all pd py items w).1.db) items
  unfolding handle_all
  handle_all-own [] w h = tt
  handle_all-own ((topic, payload) ∷ items) w h =
      let x = handle_one pd py (topic, payload) w in
      let (first, rest, e) = continue-ok x (handle_all pd py items) h in
      subst (λ (y : Result (Unit {0}) × World F). All (Present y.1.db) ((topic, payload) ∷ items))
        (sym e)
        (
          handle_all-Present (topic, payload) items x.1
              (handle_classified-own (classify pd py topic payload) w first),
          handle_all-own items x.1 rest,
        )

  All-Present :
      (items batch : List Item) (w : World F)
      → All (Present w.db) items
      → All (Present (handle_all pd py batch w).1.db) items
  All-Present [] batch w h = tt
  All-Present (item ∷ items) batch w h =
      (handle_all-Present item batch w h.0, All-Present items batch w h.1)

  All-Present_one :
      (items : List Item) (topic : Text) (payload : Bytes) (w : World F)
      → All (Present w.db) items
      → All (Present (handle_one pd py (topic, payload) w).1.db) items
  unfolding handle_one
  All-Present_one [] topic payload w h = tt
  All-Present_one (item ∷ items) topic payload w h = (
    handle_classified-InTables (classify pd py topic payload) (classify pd py item.0 item.1) w h.0,
    All-Present_one items topic payload w h.1,
  )

  Same-handle_all :
      (items : List Item) (w : World F)
      → All (Present w.db) items
      → Same w.db (handle_all pd py items w).1.db
  unfolding handle_all
  Same-handle_all [] w h = (refl, refl)
  Same-handle_all ((topic, payload) ∷ items) w h =
      (continue-keeps (λ v. Same w.db v.db × All (Present v.db) items)
        (handle_one pd py (topic, payload) w) (handle_all pd py items)
        (
          Same-handle_classified (classify pd py topic payload) w h.0,
          All-Present_one items topic payload w h.1,
        )
        (λ v k. (
          Same-trans w.db v.db (handle_all pd py items v).1.db k.0 (Same-handle_all items v k.1),
          All-Present items items v k.1,
        ))).0

  -- Replaying a batch that was handled with success, with any fates of its statements, changes
  -- neither the readings nor the devices.
  pub replay_idempotent :
      (items : List Item) (w : World F) (fates : List Fate)
      → (handle_all pd py items w).0 ≡ ok tt
      → let w' = (handle_all pd py items w).1 in
        Same w'.db (handle_all pd py items (record w' { fates = fates })).1.db
  replay_idempotent items w fates h =
      Same-handle_all items (record ((handle_all pd py items w).1) { fates = fates })
        (handle_all-own items w h)

  -- A reading whose handling raised an OperationalError, at any of its statements and whether or not
  -- the server ran it, and that is handled again with success, leaves the readings and the devices
  -- as one successful attempt would have, and is counted as handled once.
  pub retry_after_failure :
      (topic : Text) (payload : Bytes) (r : TelemetryV1 F) (v : World F) (fates : List Fate)
      → classify pd py topic payload ≡ ok (valid_reading r)
      → (handle_one pd py (topic, payload) v).0 ≡ raised operational_error
      → (handle_one pd py
          (topic, payload)
          (record ((handle_one pd py (topic, payload) v).1) { fates = fates })).0
        ≡ ok tt
      → let second =
          handle_one pd py
            (topic, payload)
            (record ((handle_one pd py (topic, payload) v).1) { fates = fates }) in
        Stored r v.db second.1.db × (handled second.1 ≡ handled v + 1)
  unfolding handle_one
  retry_after_failure topic payload r v fates c f g =
      rw c (retry_outcome r v fates (rw c at f) (rw c at g))
