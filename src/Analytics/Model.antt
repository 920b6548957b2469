-- ===== src/Analytics/Model.antt =====
-- src/planter_telemetry/analytics/model.py: the data of the forecasting core.
use planter_telemetry.Prelude.{false, Option, true, text, ℕ, Text, Bool}
use planter_telemetry.Prelude.Floats.{lit, Floats}

-- A datetime with its tzinfo, or a naive one; its microseconds, in UTC where it is aware.
pub data DateTime : Type 0 where
  aware naive : ℕ → DateTime

abbrev pub is_aware : DateTime → Bool
is_aware (aware t) = true
is_aware (naive t) = false

abbrev pub micros : DateTime → ℕ
micros (aware t) = t
micros (naive t) = t

pub record Sample (F : Type 0) : Type 0 where
  pub at : DateTime
  pub value : F

pub record Metric (F : Type 0) : Type 0 where
  pub kind : Text
  pub unit : Text
  pub target : F
  pub refill_jump : F
  pub min_points : ℕ
  pub min_span_seconds : F
  pub max_fit_points : ℕ
  pub lookback_seconds : F
  pub gap_factor : F
  pub stale_after_seconds : F
  pub max_horizon_seconds : F
  pub alert_horizon_seconds : F

pub data Status : Type 0 where
  no_data stale invalid_series insufficient_points insufficient_span : Status
  at_or_below_target not_depleting beyond_horizon on_track : Status

pub record Fit (F : Type 0) : Type 0 where
  pub slope_per_hour : F
  pub slope_low_per_hour : F
  pub slope_high_per_hour : F
  pub value_at_anchor : F
  pub anchor_at : ℕ
  pub residual_mad : F
  pub points : ℕ
  pub segment_points : ℕ
  pub span_seconds : F
  pub truncated : Bool

pub record Forecast (F : Type 0) : Type 0 where
  pub kind : Text
  pub status : Status
  pub as_of : Option ℕ
  pub target : F
  pub latest_value : Option F
  pub crosses_at : Option ℕ
  pub crosses_at_earliest : Option ℕ
  pub crosses_at_latest : Option ℕ
  pub fit : Option (Fit F)

-- CROSSING_STATUSES; `on_track` is Status.OK
unfoldable pub is_crossing : Status → Bool
is_crossing on_track = true
is_crossing beyond_horizon = true
is_crossing at_or_below_target = true
is_crossing _ = false

-- the statuses that come after a fit was made
unfoldable pub has_fit : Status → Bool
has_fit on_track = true
has_fit beyond_horizon = true
has_fit not_depleting = true
has_fit _ = false

module _ {F : Type 0} ⦃fl : Floats F⦄ where
  unfoldable pub water : Metric F
  water = record {
    kind = text "water";
    unit = text "pct";
    target = lit 10;
    refill_jump = lit 5;
    min_points = 36;
    min_span_seconds = fl.mul (lit 3) (lit 3600);
    max_fit_points = 300;
    lookback_seconds = fl.mul (lit 10) (lit 86400);
    gap_factor = lit 6;
    stale_after_seconds = lit 1800;
    max_horizon_seconds = fl.mul (lit 30) (lit 86400);
    alert_horizon_seconds = fl.mul (lit 2) (lit 86400);
  }

  unfoldable pub battery : Metric F
  battery = record {
    kind = text "battery";
    unit = text "V";
    target = fl.ratio 34 10;
    refill_jump = fl.ratio 5 100;
    min_points = 144;
    min_span_seconds = fl.mul (lit 12) (lit 3600);
    max_fit_points = 300;
    lookback_seconds = fl.mul (lit 35) (lit 86400);
    gap_factor = lit 6;
    stale_after_seconds = lit 1800;
    max_horizon_seconds = fl.mul (lit 60) (lit 86400);
    alert_horizon_seconds = fl.mul (lit 3) (lit 86400);
  }
