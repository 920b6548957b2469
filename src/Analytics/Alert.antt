-- ===== src/Analytics/Alert.antt =====
-- src/planter_telemetry/analytics/model.py: AlertState and alert_transition.
use planter_telemetry.Prelude.Floats.{lit, max_f, Floats}
use planter_telemetry.Prelude.{none, some, if◌then◌else◌, Option, ℕ}
use planter_telemetry.Analytics.Model.{Metric, Forecast}
use planter_telemetry.Prelude.Time.{instant_sub}
pub mod Transitions

pub data AlertTransition : Type 0 where
  firing cleared : AlertTransition

pub record AlertState : Type 0 where
  pub state : AlertTransition
  pub as_of : ℕ

module _ {F : Type 0} ⦃fl : Floats F⦄ where
  -- max((crosses_at - as_of).total_seconds(), 0.0)
  unfoldable pub horizon_seconds : ℕ → ℕ → F
  horizon_seconds crosses_at as_of = max_f (fl.total_seconds (instant_sub crosses_at as_of)) (lit 0)

  -- inside the alert horizon
  unfoldable pub alert_due : F → ℕ → Option AlertState → Option AlertTransition
  alert_due cooldown as_of none = some firing
  alert_due cooldown as_of (some previous) = elim previous.state [
    | cleared ↦ some firing
    | firing ↦
        if fl.le cooldown (fl.total_seconds (instant_sub as_of previous.as_of))
        then some firing
        else none
  ]

  -- outside it
  unfoldable pub alert_over : F → F → Option AlertState → Option AlertTransition
  alert_over horizon limit none = none
  alert_over horizon limit (some previous) = elim previous.state [
    | cleared ↦ none
    | firing ↦ if fl.lt limit horizon then some cleared else none
  ]

  unfoldable pub transition_at :
      Metric F → Option AlertState → F → F → ℕ → ℕ → Option AlertTransition
  unfolding alert_due alert_over
  transition_at metric previous cooldown clear_factor crosses_at as_of =
      let horizon = horizon_seconds crosses_at as_of in
      if fl.le horizon metric.alert_horizon_seconds
      then alert_due cooldown as_of previous
      else alert_over horizon (fl.mul metric.alert_horizon_seconds clear_factor) previous

  abbrev pub with_times :
      Metric F → Option AlertState → F → F → Option ℕ → Option ℕ → Option AlertTransition
  with_times metric previous cooldown clear_factor (some crosses_at) (some as_of) =
      transition_at metric previous cooldown clear_factor crosses_at as_of
  with_times metric previous cooldown clear_factor _ _ = none

  unfoldable pub alert_transition :
      Forecast F → Metric F → Option AlertState → F → F → Option AlertTransition
  unfolding transition_at
  alert_transition fc metric previous cooldown clear_factor =
      with_times metric previous cooldown clear_factor fc.crosses_at fc.as_of
