-- ===== src/Ingestion/Handle/Effects.antt =====
-- src/planter_telemetry/ingestion/service.py: what _handle_one does to the tables when any of its
-- statements may fail, before or after the server ran it.
use planter_telemetry.Contract.Reading.{Bytes, Pydantic, TelemetryV1}
use planter_telemetry.Ingestion.Handle.{
  Item, handle_one, handle_classified, handle_outcome, count_insert, note_arrival,
}
use planter_telemetry.Prelude.{
  Text, mqtt_error, ◌≢◌, operational_error, false, true, Bool, ◌++◌, ◌+◌, ℕ, refl, [], ◌∷◌, raised,
  List, ok, Result, arith, ◌⊎◌, ◌≡◌,
}
use planter_telemetry.Ingestion.Core.{
  classify, PyText, DeadLetter, dead_letter, Outcome, valid_reading,
}
use planter_telemetry.Ingestion.Handle.{◌>>=◌, continue}
use planter_telemetry.Prelude.Floats.{Floats}
use planter_telemetry.Ingestion.Db.{
  bury, no_answer, is_new, insert_dead_letter, log_dedupe, store, register, record_dedupe,
  upsert_device, insert_reading, cut, refused, answered, Fate, run_statement, Exec, insert_row,
  upsert_row, World, Db,
}

module _ {F : Type 0} where
  abbrev pub Same : Db F → Db F → Type 0
  Same a b = (b.telemetry ≡ a.telemetry) × (b.devices ≡ a.devices)

  abbrev pub Registered : TelemetryV1 F → Db F → Db F → Type 0
  Registered r a b =
      (b.telemetry ≡ a.telemetry) × (b.devices ≡ upsert_row r.device_id r.measured_at a.devices)

  -- The tables of readings and devices after all statements for `r`.
  abbrev pub Stored : TelemetryV1 F → Db F → Db F → Type 0
  Stored r a b =
      (b.telemetry ≡ insert_row r a.telemetry)
      × (b.devices ≡ upsert_row r.device_id r.measured_at a.devices)

  -- `Q` holds where the coroutine returned, `E` where it raised an OperationalError; it raises no
  -- other exception.
  abbrev pub Ends :
      {A : Type 0} → Result A × World F → (A → World F → Type 0) → (World F → Type 0) → Type 0
  Ends (ok a, w) Q E = Q a w
  Ends (raised e, w) Q E = (e ≡ operational_error) × E w

  Ends-bind :
      {A B : Type 0} (m : Exec F A) (f : A → Exec F B) (w : World F) (P : A → World F → Type 0)
      (Q : B → World F → Type 0) (E : World F → Type 0)
      → Ends (m w) P E
      → ((a : A) (v : World F) → P a v → Ends (f a v) Q E)
      → Ends ((m >>= f) w) Q E
  Ends-bind m f w P Q E h k = go (m w) h
    where
      go : (r : Result _ × World F) → Ends r P E → Ends (continue r f) Q E
      go (ok a, v) g = k a v g
      go (raised e, v) g = g

  run_statement-Ends :
      {A : Type 0} (change : Db F → Db F) (answer : Db F → A) (w : World F)
      (Q : A → World F → Type 0) (E : World F → Type 0)
      → ((fs : List Fate) → Q (answer w.db) (record w { db = change w.db; fates = fs }))
      → ((fs : List Fate) → E (record w { fates = fs }))
      → ((fs : List Fate) → E (record w { db = change w.db; fates = fs }))
      → Ends (run_statement change answer w) Q E
  unfolding run_statement
  run_statement-Ends change answer w Q E q e l = go w.fates refl
    where
      go : (fs : List Fate) → w.fates ≡ fs → Ends (run_statement change answer w) Q E
      go [] h = rw (h, run_statement) (q w.fates)
      go (answered ∷ fs) h = rw (h, run_statement) (q fs)
      go (refused ∷ fs) h = rw (h, run_statement) (refl, e fs)
      go (cut ∷ fs) h = rw (h, run_statement) (refl, l fs)

  -- The messages counted as handled.
  abbrev pub handled : World F → ℕ
  handled w = w.counters.ingested + w.counters.deduplicated + w.counters.dead_lettered

  -- What a message that was handled has done, from `v` to `w`.
  abbrev pub Done : Outcome F → World F → World F → Type 0
  Done (valid_reading r) v w =
      Stored r v.db w.db × (w.db.dead_letters ≡ v.db.dead_letters) × (handled w ≡ handled v + 1)
  Done (dead_letter dl) v w =
      Same v.db w.db
      × (w.db.dead_letters ≡ v.db.dead_letters ++ dl ∷ [])
      × (handled w ≡ handled v + 1)

  -- What one whose statement failed has done.
  abbrev pub Failed : Outcome F → World F → World F → Type 0
  Failed (valid_reading r) v w =
      (Same v.db w.db ⊎ Registered r v.db w.db ⊎ Stored r v.db w.db)
      × (w.db.dead_letters ≡ v.db.dead_letters)
      × (handled w ≡ handled v)
  Failed (dead_letter dl) v w =
      Same v.db w.db
      × ((w.db.dead_letters ≡ v.db.dead_letters)
          ⊎ (w.db.dead_letters ≡ v.db.dead_letters ++ dl ∷ []))
      × (handled w ≡ handled v)

  -- After the arrival is noted, and after the device is registered.
  abbrev Noted : World F → World F → Type 0
  Noted v w = (w.db ≡ v.db) × (handled w ≡ handled v)

  abbrev Known : TelemetryV1 F → World F → World F → Type 0
  Known r v w =
      Registered r v.db w.db × (w.db.dead_letters ≡ v.db.dead_letters) × (handled w ≡ handled v)

  -- After the insert; `b` says whether the row was new.
  abbrev Inserted : TelemetryV1 F → World F → World F → Type 0
  Inserted r v w =
      Stored r v.db w.db × (w.db.dead_letters ≡ v.db.dead_letters) × (handled w ≡ handled v)

  note_arrival-Ends :
      (r : TelemetryV1 F) (w : World F) (E : World F → Type 0)
      → Ends (note_arrival r w) (λ _ v. Noted w v) E
  unfolding note_arrival
  note_arrival-Ends r w E = ground arith

  upsert_device-Ends :
      (r : TelemetryV1 F) (v w : World F)
      → Noted v w
      → Ends (upsert_device r w) (λ _. Known r v) (Failed (valid_reading r) v)
  unfolding upsert_device
  upsert_device-Ends r v w h =
      run_statement-Ends (register r) no_answer w (λ _. Known r v) (Failed (valid_reading r) v)
        (λ fs. ground arith) (λ fs. ground arith) (λ fs. ground arith)

  insert_reading-Ends :
      (r : TelemetryV1 F) (v w : World F)
      → Known r v w
      → Ends (insert_reading r w) (λ _. Inserted r v) (Failed (valid_reading r) v)
  unfolding insert_reading
  insert_reading-Ends r v w h =
      run_statement-Ends (store r) (is_new r) w (λ _. Inserted r v) (Failed (valid_reading r) v)
        (λ fs. ground arith) (λ fs. ground arith) (λ fs. ground arith)

  record_dedupe-Ends :
      (r : TelemetryV1 F) (v w : World F)
      → Inserted r v w
      → Ends (record_dedupe r w) (λ _. Inserted r v) (Failed (valid_reading r) v)
  unfolding record_dedupe
  record_dedupe-Ends r v w h =
      run_statement-Ends (log_dedupe r) no_answer w (λ _. Inserted r v) (Failed (valid_reading r) v)
        (λ fs. ground arith) (λ fs. ground arith) (λ fs. ground arith)

  count_insert-Ends :
      (r : TelemetryV1 F) (b : Bool) (v w : World F)
      → Inserted r v w
      → Ends (count_insert r b w) (λ _. Done (valid_reading r) v) (Failed (valid_reading r) v)
  unfolding count_insert
  count_insert-Ends r true v w h = ground arith
  count_insert-Ends r false v w h =
      Ends-bind (record_dedupe r) _ w (λ _. Inserted r v) (λ _. Done (valid_reading r) v)
        (Failed (valid_reading r) v) (record_dedupe-Ends r v w h) (λ a u k. ground arith)

  insert_dead_letter-Ends :
      (dl : DeadLetter) (w : World F)
      → Ends
          (insert_dead_letter dl w)
          (λ _ v.
            Same w.db v.db
            × (v.db.dead_letters ≡ w.db.dead_letters ++ dl ∷ [])
            × (handled v ≡ handled w))
          (Failed (dead_letter dl) w)
  unfolding insert_dead_letter
  insert_dead_letter-Ends dl w =
      run_statement-Ends (bury dl) no_answer w _ (Failed (dead_letter dl) w) (λ fs. ground arith)
        (λ fs. ground arith) (λ fs. ground arith)

  -- What _handle_one does with a classified message, whether its statements are answered or fail.
  -- Of a reading it has stored nothing, the device alone, or the device and the reading, in this
  -- order, and both if it returns; a dead letter touches neither table. It counts the message as
  -- handled if and only if it returns, and what it raises is an OperationalError.
  pub handle_outcome-Ends :
      (o : Outcome F) (w : World F) → Ends (handle_outcome o w) (λ _. Done o w) (Failed o w)
  unfolding handle_outcome
  handle_outcome-Ends (valid_reading r) w =
      Ends-bind (note_arrival r) _ w (λ _. Noted w) (λ _. Done (valid_reading r) w)
        (Failed (valid_reading r) w) (note_arrival-Ends r w _)
        λ _ a noted.
          Ends-bind (upsert_device r) _ a (λ _. Known r w) (λ _. Done (valid_reading r) w)
            (Failed (valid_reading r) w) (upsert_device-Ends r w a noted)
            λ _ b known.
              Ends-bind (insert_reading r) (count_insert r) b (λ _. Inserted r w)
                (λ _. Done (valid_reading r) w) (Failed (valid_reading r) w)
                (insert_reading-Ends r w b known) λ new c h. count_insert-Ends r new w c h
  handle_outcome-Ends (dead_letter dl) w =
      Ends-bind (insert_dead_letter dl) _ w _ (λ _. Done (dead_letter dl) w)
        (Failed (dead_letter dl) w) (insert_dead_letter-Ends dl w) (λ _ v h. ground arith)

  pub Ends-weaken :
      {A : Type 0} (x : Result A × World F) (P Q : A → World F → Type 0) (E G : World F → Type 0)
      → Ends x P E
      → ((a : A) (w : World F) → P a w → Q a w)
      → ((w : World F) → E w → G w)
      → Ends x Q G
  Ends-weaken (ok a, w) P Q E G h p e = p a w h
  Ends-weaken (raised x, w) P Q E G h p e = (h.0, e w h.1)

  -- What holds at both ends holds.
  pub Ends-both :
      {A : Type 0} (x : Result A × World F) (P : World F → Type 0) → Ends x (λ _. P) P → P x.1
  Ends-both (ok a, w) P h = h
  Ends-both (raised x, w) P h = h.1

  Ends-ne-broker :
      {A : Type 0} (x : Result A × World F) (Q : A → World F → Type 0) (E : World F → Type 0)
      → Ends x Q E
      → x.0 ≢ raised mqtt_error
  Ends-ne-broker (ok a, w) Q E h = λ e. cc
  Ends-ne-broker (raised x, w) Q E h = λ e. cc (e, h.0)

  handle_classified-ne-broker :
      (c : Result (Outcome F)) (w : World F)
      → c ≢ raised mqtt_error
      → (handle_classified c w).0 ≢ raised mqtt_error
  unfolding handle_classified
  handle_classified-ne-broker (ok o) w h =
      Ends-ne-broker (handle_outcome o w) (λ _. Done o w) (Failed o w) (handle_outcome-Ends o w)
  handle_classified-ne-broker (raised e) w h = λ x. h (ground arith)

module _ {F : Type 0} ⦃fl : Floats F⦄ (pd : Pydantic F) (py : PyText) where
  classify-ne-broker :
      (topic : Text) (payload : Bytes) → classify pd py topic payload ≢ raised mqtt_error
  unfolding classify
  classify-ne-broker topic payload h = ground arith

  pub handle_one-ne-broker :
      (item : Item) (w : World F) → (handle_one pd py item w).0 ≢ raised mqtt_error
  unfolding handle_one
  handle_one-ne-broker (topic, payload) w =
      handle_classified-ne-broker (classify pd py topic payload) w
        (classify-ne-broker topic payload)
