-- ===== src/Analytics/Window/Order.antt =====
-- src/planter_telemetry/analytics/db.py: the order of the window's rows.
use planter_telemetry.Analytics.Window.{
  Collation, insert_by_time, insert_by_device, by_device, by_time,
}
use planter_telemetry.Contract.Reading.{TelemetryV1}
use planter_telemetry.Prelude.{
  true, text_eq→eq, All-imp, inr, refl, ap, sym, ◌∙◌, arith, text_eq, inl, ltb, ◌≤◌, ◌≢◌,
  Bool-cases, if◌then◌else◌, [], false, ◌≡◌, All, ◌∷◌, Text, List,
}

module _ {F : Type 0} where
  -- the rows of one device
  unfoldable pub of_device : Text → List (TelemetryV1 F) → List (TelemetryV1 F)
  of_device d [] = []
  of_device d (r ∷ rows) =
      let rest = of_device d rows in if text_eq r.device_id d then r ∷ rest else rest

  -- Each row is at most as new as those behind it.
  abbrev pub Ordered : List (TelemetryV1 F) → Type 0
  Ordered [] = Unit
  Ordered (r ∷ rows) = All (λ q. r.measured_at ≤ q.measured_at) rows × Ordered rows

  -- No two rows have one time.
  abbrev pub NoTies : List (TelemetryV1 F) → Type 0
  NoTies [] = Unit
  NoTies (r ∷ rows) = All (λ q. r.measured_at ≢ q.measured_at) rows × NoTies rows

  All-insert_by_time :
      (P : TelemetryV1 F → Type 0) (r : TelemetryV1 F) (rows : List (TelemetryV1 F))
      → P r
      → All P rows
      → All P (insert_by_time r rows)
  unfolding insert_by_time
  All-insert_by_time P r [] p h = (p, tt)
  All-insert_by_time P r (q ∷ rows) p h = elim (Bool-cases (ltb q.measured_at r.measured_at)) [
    | inl e ↦ rw e (h.0, All-insert_by_time P r rows p h.1)
    | inr e ↦ rw e (p, h)
  ]

  insert_by_time-Ordered :
      (r : TelemetryV1 F) (rows : List (TelemetryV1 F))
      → Ordered rows
      → Ordered (insert_by_time r rows)
  unfolding insert_by_time
  insert_by_time-Ordered r [] h = (tt, tt)
  insert_by_time-Ordered r (q ∷ rows) h = elim (Bool-cases (ltb q.measured_at r.measured_at)) [
    | inl e ↦ rw e (
      All-insert_by_time (λ x. q.measured_at ≤ x.measured_at) r rows (ground arith) h.0,
      insert_by_time-Ordered r rows h.1,
    )
    | inr e ↦
        let le : r.measured_at ≤ q.measured_at = ground arith in
        rw e (
          (
            le,
            All-imp (λ x. q.measured_at ≤ x.measured_at) (λ x. r.measured_at ≤ x.measured_at) rows
                (λ x k. omega arith) h.0,
          ),
          h,
        )
  ]

  pub by_time-Ordered : (rows : List (TelemetryV1 F)) → Ordered (by_time rows)
  unfolding by_time
  by_time-Ordered [] = tt
  by_time-Ordered (r ∷ rows) = insert_by_time-Ordered r (by_time rows) (by_time-Ordered rows)

  insert_by_time-NoTies :
      (r : TelemetryV1 F) (rows : List (TelemetryV1 F))
      → All (λ q. r.measured_at ≢ q.measured_at) rows
      → NoTies rows
      → NoTies (insert_by_time r rows)
  unfolding insert_by_time
  insert_by_time-NoTies r [] a h = (tt, tt)
  insert_by_time-NoTies r (q ∷ rows) a h = elim (Bool-cases (ltb q.measured_at r.measured_at)) [
    | inl e ↦ rw e (
      All-insert_by_time (λ x. q.measured_at ≢ x.measured_at) r rows (λ k. a.0 (sym k)) h.0,
      insert_by_time-NoTies r rows a.1 h.1,
    )
    | inr e ↦ rw e (a, h)
  ]

  pub All-by_time :
      (P : TelemetryV1 F → Type 0) (rows : List (TelemetryV1 F)) → All P rows → All P (by_time rows)
  unfolding by_time
  All-by_time P [] h = tt
  All-by_time P (r ∷ rows) h = All-insert_by_time P r (by_time rows) h.0 (All-by_time P rows h.1)

  pub by_time-NoTies : (rows : List (TelemetryV1 F)) → NoTies rows → NoTies (by_time rows)
  unfolding by_time
  by_time-NoTies [] h = tt
  by_time-NoTies (r ∷ rows) h =
      insert_by_time-NoTies r (by_time rows) (All-by_time _ rows h.0) (by_time-NoTies rows h.1)

  pub All-of_device :
      (P : TelemetryV1 F → Type 0) (d : Text) (rows : List (TelemetryV1 F))
      → All P rows
      → All P (of_device d rows)
  unfolding of_device
  All-of_device P d [] h = tt
  All-of_device P d (r ∷ rows) h = elim (Bool-cases (text_eq r.device_id d)) [
    | inl e ↦ rw e (h.0, All-of_device P d rows h.1)
    | inr e ↦ rw e (All-of_device P d rows h.1)
  ]

  insert_by_time-first :
      (r : TelemetryV1 F) (rows : List (TelemetryV1 F))
      → All (λ q. r.measured_at ≤ q.measured_at) rows
      → insert_by_time r rows ≡ r ∷ rows
  unfolding insert_by_time
  insert_by_time-first r [] h = refl
  insert_by_time-first r (q ∷ rows) h = ground arith

  of_device-insert_by_time :
      (d : Text) (r : TelemetryV1 F) (rows : List (TelemetryV1 F))
      → Ordered rows
      → of_device d (insert_by_time r rows)
        ≡ (if text_eq r.device_id d then insert_by_time r (of_device d rows) else of_device d rows)
  unfolding of_device insert_by_time
  of_device-insert_by_time d r [] h = refl
  of_device-insert_by_time d r (q ∷ rows) h = elim (Bool-cases (ltb q.measured_at r.measured_at)) [
    | inl e ↦ elim (Bool-cases (text_eq q.device_id d)) [
      | inl qd ↦ elim (Bool-cases (text_eq r.device_id d)) [
        | inl rd ↦ rw (e, qd, of_device-insert_by_time d r rows h.1, rd, e) refl
        | inr rd ↦ rw (e, qd, of_device-insert_by_time d r rows h.1, rd) refl
      ]
      | inr qd ↦ rw (e, qd, of_device-insert_by_time d r rows h.1) refl
    ]
    | inr e ↦ elim (Bool-cases (text_eq r.device_id d)) [
      | inl rd ↦
          let le : r.measured_at ≤ q.measured_at = ground arith in
          rw (e, rd)
            (sym (
              insert_by_time-first r (of_device d (q ∷ rows)) (
                All-of_device (λ x. r.measured_at ≤ x.measured_at) d (q ∷ rows)
                  (
                    le,
                    All-imp (λ x. q.measured_at ≤ x.measured_at)
                        (λ x. r.measured_at ≤ x.measured_at) rows (λ x k. omega arith) h.0,
                  ))))
      | inr rd ↦ rw (e, rd) refl
    ]
  ]

  -- a device's rows in the order of their times
  pub of_device-by_time :
      (d : Text) (rows : List (TelemetryV1 F))
      → of_device d (by_time rows) ≡ by_time (of_device d rows)
  unfolding of_device by_time
  of_device-by_time d [] = refl
  of_device-by_time d (r ∷ rows) = elim (Bool-cases (text_eq r.device_id d)) [
    | inl e ↦
        of_device-insert_by_time d r (by_time rows) (by_time-Ordered rows)
        ∙ rw (e, of_device-by_time d rows) refl
    | inr e ↦
        of_device-insert_by_time d r (by_time rows) (by_time-Ordered rows)
        ∙ rw (e, of_device-by_time d rows) refl
  ]

  of_device-insert_by_device :
      (before : Collation) (d : Text) (r : TelemetryV1 F) (rows : List (TelemetryV1 F))
      → ((e : Text) → before e e ≡ false)
      → of_device d (insert_by_device before r rows) ≡ of_device d (r ∷ rows)
  unfolding of_device insert_by_device
  of_device-insert_by_device before d r [] irr = refl
  of_device-insert_by_device before d r (q ∷ rows) irr =
      elim (Bool-cases (before q.device_id r.device_id)) [
        | inl e ↦ elim (Bool-cases (text_eq q.device_id d)) [
          | inl qd ↦ elim (Bool-cases (text_eq r.device_id d)) [
            | inl rd ↦
                let same : q.device_id ≡ r.device_id =
                  text_eq→eq q.device_id d qd ∙ sym (text_eq→eq r.device_id d rd) in
                let no : before r.device_id r.device_id ≡ true = rw same at e in
                cc (irr r.device_id)
            | inr rd ↦ rw (e, qd, of_device-insert_by_device before d r rows irr, rd) refl
          ]
          | inr qd ↦ rw (e, qd, of_device-insert_by_device before d r rows irr) refl
        ]
        | inr e ↦ rw e refl
      ]

  -- The sort by device leaves each device's rows in their order.
  pub of_device-by_device :
      (before : Collation) (d : Text) (rows : List (TelemetryV1 F))
      → ((e : Text) → before e e ≡ false)
      → of_device d (by_device before rows) ≡ of_device d rows
  unfolding of_device by_device
  of_device-by_device before d [] irr = refl
  of_device-by_device before d (r ∷ rows) irr =
      of_device-insert_by_device before d r (by_device before rows) irr
      ∙ ap (λ (l : List (TelemetryV1 F)). if text_eq r.device_id d then r ∷ l else l)
          (of_device-by_device before d rows irr)
