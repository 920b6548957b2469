-- ===== src/Ingestion/Db/Tables.antt =====
-- src/planter_telemetry/ingestion/db.py: the laws of the two upserts, as functions on rows.
use planter_telemetry.Contract.Reading.{TelemetryV1}
use planter_telemetry.Prelude.{
  eq→text_eq, if◌then◌else◌, ◌≤◌, some, none, refl, text_eq, Option, [], ap, ℕ, ◌∷◌, ◌||◌, Text,
  text_eq→eq, text_eq_refl, arith, true, ◌≡◌, ◌++◌, List,
}
use planter_telemetry.Ingestion.Db.{
  greatest, least, Device, upsert_row, same_key, has_key, insert_row,
}

module _ {F : Type 0} where
  pub same_key_refl : (r : TelemetryV1 F) → same_key r r ≡ true
  same_key_refl r = ground (arith, text_eq_refl r.device_id)

  has_key-append :
      (r : TelemetryV1 F) (xs ys : List (TelemetryV1 F))
      → has_key r (xs ++ ys) ≡ (has_key r xs || has_key r ys)
  unfolding has_key
  has_key-append r [] ys = refl
  has_key-append r (q ∷ xs) ys = ground (arith, has_key-append r xs ys)

  same_key-eq :
      (r q : TelemetryV1 F)
      → same_key r q ≡ true
      → (r.device_id ≡ q.device_id) × (r.measured_at ≡ q.measured_at)
  same_key-eq r q h = ground (arith, text_eq→eq r.device_id q.device_id)

  -- Equal keys are found together.
  has_key-same :
      (r q : TelemetryV1 F) (rows : List (TelemetryV1 F))
      → same_key r q ≡ true
      → has_key q rows ≡ has_key r rows
  unfolding has_key
  has_key-same r q [] h = refl
  has_key-same r q (p ∷ rows) h = ground (
    arith,
    same_key-eq r q h,
    has_key-same r q rows h,
    ap (text_eq p.device_id) (same_key-eq r q h).0,
  )

  -- After the insert the reading's key is there, and so is every key that was; no other key is.
  pub has_key-insert_row :
      (r q : TelemetryV1 F) (rows : List (TelemetryV1 F))
      → has_key q (insert_row r rows) ≡ (same_key r q || has_key q rows)
  unfolding insert_row
  has_key-insert_row r q rows =
      ground (arith, has_key-append q rows (r ∷ []), has_key-same r q rows, has_key-one r q)
    where
      has_key-one : (a b : TelemetryV1 F) → has_key b (a ∷ []) ≡ same_key a b
      has_key-one a b = unfold has_key in ground arith

  -- Inserting what is there changes nothing.
  pub insert_row-present :
      (r : TelemetryV1 F) (rows : List (TelemetryV1 F))
      → has_key r rows ≡ true
      → insert_row r rows ≡ rows
  unfolding insert_row
  insert_row-present r rows h = rw h

-- The row of a device: its first and last times.
unfoldable pub seen : Text → List Device → Option (ℕ × ℕ)
seen d [] = none
seen d (v ∷ rows) = if text_eq v.device_id d then some (v.first_seen, v.last_seen) else seen d rows

-- What one more time does to a device's first and last times.
abbrev pub widen : ℕ → Option (ℕ × ℕ) → Option (ℕ × ℕ)
widen t none = some (t, t)
widen t (some (a, b)) = some (least a t, greatest b t)

pub seen-upsert_row :
    (d e : Text) (t : ℕ) (rows : List Device)
    → seen e (upsert_row d t rows) ≡ (if text_eq d e then widen t (seen e rows) else seen e rows)
unfolding seen upsert_row
seen-upsert_row d e t [] = ground arith
seen-upsert_row d e t (v ∷ rows) = ground (
  arith,
  text_eq→eq v.device_id d,
  text_eq→eq v.device_id e,
  text_eq→eq d e,
  eq→text_eq v.device_id e,
  eq→text_eq v.device_id d,
  eq→text_eq d e,
  seen-upsert_row d e t rows,
)

-- A time within a device's first and last times changes no row.
pub upsert_row-present :
    (d : Text) (t : ℕ) (rows : List Device) {a b : ℕ}
    → seen d rows ≡ some (a, b)
    → a ≤ t
    → t ≤ b
    → upsert_row d t rows ≡ rows
unfolding seen upsert_row
upsert_row-present d t [] h l u = cc
upsert_row-present d t (v ∷ rows) h l u =
    ground (arith, λ (e : seen d rows ≡ some _). upsert_row-present d t rows e l u)
