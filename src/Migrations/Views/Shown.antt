-- ===== src/Migrations/Views/Shown.antt =====
-- src/planter_telemetry/migrations/versions/0010_forecasts_latest_fix.py: what the view shows of a
-- device and kind.
use planter_telemetry.Migrations.Views.{
  forecasts_latest, joined, with_horizon, LatestForecast, is_forecast_of, newest_first,
  newest_forecast,
}
use planter_telemetry.Ingestion.Db.{Device}
use planter_telemetry.Analytics.Store.{ForecastRow}
use planter_telemetry.Migrations.Views.Newest.{find_row-newest_first, find_row}
use mathlib.Core.Option
use planter_telemetry.Prelude.Floats.{Floats}
use mathlib.Core.Path.{subst}
use planter_telemetry.Prelude.{
  ◌||◌, text, Bool, ◌&&◌, text_eq, text_eq→eq, true, if◌then◌else◌, Text, Option, none, some, List,
  [], ◌∷◌, ◌≡◌, refl, false, inl, inr, Bool-cases, ◌∙◌, arith,
}
use planter_telemetry.Migrations.Views.Distinct.{is_forecast_of→eq}

-- the device is in the table `devices`
unfoldable pub in_roster : Text → List Device → Bool
in_roster d [] = false
in_roster d (v ∷ devices) = text_eq v.device_id d || in_roster d devices

apart_kinds : text_eq (text "battery") (text "water") ≡ false
unfolding text_eq
apart_kinds = refl

-- the kinds that the view of 0010 lists
abbrev pub is_kind : Text → Bool
is_kind k = text_eq (text "water") k || text_eq (text "battery") k

module _ {F : Type 0} ⦃fl : Floats F⦄ where
  -- what the view shows of `d` and `k`
  unfoldable pub shown : Text → Text → List (LatestForecast F) → Option (LatestForecast F)
  unfolding is_forecast_of
  shown d k [] = none
  shown d k (l ∷ rows) = if is_forecast_of d k l.forecast then some l else shown d k rows

  find_row-own :
      (d k : Text) (rows : List (ForecastRow F)) (r : ForecastRow F)
      → find_row d k rows ≡ some r
      → is_forecast_of d k r ≡ true
  unfolding find_row
  find_row-own d k [] r h = cc
  find_row-own d k (q ∷ rows) r h = elim (Bool-cases (is_forecast_of d k q)) [
    | inl e ↦ let h' : some q ≡ some r = (rw e at h) in cc
    | inr e ↦ find_row-own d k rows r (rw e at h)
  ]

  newest_forecast-own :
      (d k : Text) (rows : List (ForecastRow F)) (r : ForecastRow F)
      → newest_forecast d k rows ≡ some r
      → is_forecast_of d k r ≡ true
  newest_forecast-own d k rows r h =
      find_row-own d k (newest_first rows) r (find_row-newest_first d k rows ∙ h)

  shown-joined :
      (d k e l : Text) (rows : List (ForecastRow F)) (rest : List (LatestForecast F))
      → (text_eq e d && text_eq l k) ≡ false
      → shown d k (joined (newest_forecast e l rows) rest) ≡ shown d k rest
  unfolding shown
  shown-joined d k e l rows rest h = go (newest_forecast e l rows) refl
    where
      go :
          (o : Option (ForecastRow F))
          → newest_forecast e l rows ≡ o
          → shown d k (joined o rest) ≡ shown d k rest
      go none x = refl
      go (some r) x =
          let (rd, rk) = is_forecast_of→eq e l r (newest_forecast-own e l rows r x) in
          let other : is_forecast_of d k r ≡ false = rw (rd, rk) h in rw (other) refl

  shown-joined_own :
      (d k : Text) (rows : List (ForecastRow F)) (rest : List (LatestForecast F))
      → (newest_forecast d k rows ≡ none → shown d k rest ≡ none)
      → shown d k (joined (newest_forecast d k rows) rest)
        ≡ Option.map with_horizon (newest_forecast d k rows)
  unfolding shown
  shown-joined_own d k rows rest h = go (newest_forecast d k rows) refl
    where
      go :
          (o : Option (ForecastRow F))
          → newest_forecast d k rows ≡ o
          → shown d k (joined o rest) ≡ Option.map with_horizon o
      go none x = h x
      go (some r) x = let own = newest_forecast-own d k rows r x in rw (own) refl

  shown-pair_own :
      (d k : Text) (rows : List (ForecastRow F)) (rest : List (LatestForecast F))
      → (newest_forecast d k rows ≡ none → shown d k rest ≡ none)
      → shown d k (
          joined
            (newest_forecast d (text "water") rows)
            (joined (newest_forecast d (text "battery") rows) rest))
        ≡ (if is_kind k then Option.map with_horizon (newest_forecast d k rows) else shown d k rest)
  shown-pair_own d k rows rest h = elim (Bool-cases (text_eq (text "water") k)) [
    | inl w ↦
        let kw = text_eq→eq (text "water") k w in
        let b : text_eq (text "battery") k ≡ false =
          subst (λ l. text_eq (text "battery") l ≡ false) kw (apart_kinds) in
        rw (w, kw)
          (shown-joined_own d k rows _
            (λ e. shown-joined d k d (text "battery") rows rest (ground (arith, b)) ∙ h e))
    | inr w ↦ elim (Bool-cases (text_eq (text "battery") k)) [
      | inl b ↦
          let kb = text_eq→eq (text "battery") k b in
          rw (w, b)
            (shown-joined d k d (text "water") rows _ (ground (arith, w))
              ∙ rw (kb) (shown-joined_own d k rows rest h))
      | inr b ↦
          rw (w, b)
            (shown-joined d k d (text "water") rows _ (ground (arith, w))
              ∙ shown-joined d k d (text "battery") rows rest (ground (arith, b)))
    ]
  ]

  shown-pair :
      (d k e : Text) (rows : List (ForecastRow F)) (rest : List (LatestForecast F))
      → (newest_forecast d k rows ≡ none → shown d k rest ≡ none)
      → shown d k (
          joined
            (newest_forecast e (text "water") rows)
            (joined (newest_forecast e (text "battery") rows) rest))
        ≡ (if text_eq e d && is_kind k
            then Option.map with_horizon (newest_forecast d k rows)
            else shown d k rest)
  shown-pair d k e rows rest h = elim (Bool-cases (text_eq e d)) [
    | inl own ↦ let ed = text_eq→eq e d own in rw (own, ed) (shown-pair_own d k rows rest h)
    | inr other ↦ rw (other) (
        shown-joined d k e (text "water") rows _ (rw (other) refl)
        ∙ shown-joined d k e (text "battery") rows rest (rw (other) refl))
  ]

  -- The view of 0010 shows, of each device of the roster and each kind of its list, the newest forecast,
  -- and of no other.
  pub shown-forecasts_latest :
      (d k : Text) (devices : List Device) (rows : List (ForecastRow F))
      → shown d k (forecasts_latest devices rows) ≡ (
          if in_roster d devices && is_kind k
          then Option.map with_horizon (newest_forecast d k rows)
          else none)
  unfolding shown forecasts_latest in_roster
  shown-forecasts_latest d k [] rows = refl
  shown-forecasts_latest d k (v ∷ devices) rows =
      shown-pair d k v.device_id rows (forecasts_latest devices rows)
        (λ e. none_of (forecasts_latest devices rows) e (shown-forecasts_latest d k devices rows))
      ∙ pick (text_eq v.device_id d) (shown-forecasts_latest d k devices rows)
    where
      none_of :
          (rest : List (LatestForecast F))
          → newest_forecast d k rows ≡ none
          → shown d k rest ≡ (
              if in_roster d devices && is_kind k
              then Option.map with_horizon (newest_forecast d k rows)
              else none)
          → shown d k rest ≡ none
      none_of rest e h = elim (Bool-cases (in_roster d devices && is_kind k)) [
        | inl b ↦ h ∙ rw (b, e) refl
        | inr b ↦ h ∙ rw (b) refl
      ]

      pick :
          (b : Bool)
          → shown d k (forecasts_latest devices rows) ≡ (
              if in_roster d devices && is_kind k
              then Option.map with_horizon (newest_forecast d k rows)
              else none)
          → (if b && is_kind k
              then Option.map with_horizon (newest_forecast d k rows)
              else shown d k (forecasts_latest devices rows))
            ≡ (if (b || in_roster d devices) && is_kind k
                then Option.map with_horizon (newest_forecast d k rows)
                else none)
      pick true h = elim (Bool-cases (is_kind k)) [
        | inl e ↦ rw (e) refl
        | inr e ↦ rw (e) (
            h ∙ elim (Bool-cases (in_roster d devices)) [
              | inl r ↦ rw (r, e) refl
              | inr r ↦ rw (r) refl
            ])
      ]
      pick false h = h
