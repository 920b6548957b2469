-- ===== src/Analytics/Alert/Transitions.antt =====
-- src/planter_telemetry/analytics/model.py: alerts fire and clear on transitions, with hysteresis.
use planter_telemetry.Prelude.{
  inr, inl, Bool-cases, false, true, refl, ◌↔◌, none, ◌⊎◌, arith, some, ◌≡◌, ◌≢◌, Option, ℕ,
}
use planter_telemetry.Analytics.Alert.{
  cleared, firing, horizon_seconds, AlertState, alert_due, alert_over, alert_transition,
}
use planter_telemetry.Analytics.Model.{Metric, Forecast}
use planter_telemetry.Prelude.Time.{instant_sub}
use planter_telemetry.Prelude.Floats.{Floats}

abbrev pub IsFiring : Option AlertState → Type 0
IsFiring none = ⊥
IsFiring (some p) = p.state ≡ firing

module _ {F : Type 0} ⦃fl : Floats F⦄ where
  -- Nothing fires, or the reminder of what fires is due.
  abbrev pub IsArmed : F → ℕ → Option AlertState → Type 0
  IsArmed cooldown now none = Unit
  IsArmed cooldown now (some p) =
      (p.state ≡ cleared) ⊎ (fl.le cooldown (fl.total_seconds (instant_sub now p.as_of)) ≡ true)

  alert_due-fires :
      (cooldown : F) (now : ℕ) (previous : Option AlertState)
      → (alert_due cooldown now previous ≡ some firing) ↔ IsArmed cooldown now previous
  unfolding alert_due
  alert_due-fires cooldown now none = ((λ h. tt), (λ h. refl))
  alert_due-fires cooldown now (some p) = ((λ h. ground arith), (λ h. ground arith))

  alert_due-clears :
      (cooldown : F) (now : ℕ) (previous : Option AlertState)
      → alert_due cooldown now previous ≢ some cleared
  unfolding alert_due
  alert_due-clears cooldown now none h = cc
  alert_due-clears cooldown now (some p) h = ground arith

  alert_over-clears :
      (horizon limit : F) (previous : Option AlertState)
      → (alert_over horizon limit previous ≡ some cleared)
        ↔ ((fl.lt limit horizon ≡ true) × IsFiring previous)
  unfolding alert_over
  alert_over-clears horizon limit none = ((λ h. cc), (λ h. elim h.1 [ ]))
  alert_over-clears horizon limit (some p) = ((λ h. ground arith), (λ h. ground arith))

  alert_over-fires :
      (horizon limit : F) (previous : Option AlertState)
      → alert_over horizon limit previous ≢ some firing
  unfolding alert_over
  alert_over-fires horizon limit none h = cc
  alert_over-fires horizon limit (some p) h = ground arith

  -- A forecast with a crossing time fires an alert exactly when its horizon is within the alert
  -- horizon, and the last recorded decision is no firing one, or is at least the cooldown old. It
  -- clears one exactly when its horizon is outside the alert horizon and past the hysteresis, and
  -- the last recorded decision is a firing one.
  pub alert_transition_iff :
      (fc : Forecast F) (metric : Metric F) (previous : Option AlertState) (cooldown factor : F)
      {at now : ℕ}
      → fc.crosses_at ≡ some at
      → fc.as_of ≡ some now
      → let horizon = horizon_seconds {F = F} at now in
        let transition = alert_transition fc metric previous cooldown factor in
        ((transition ≡ some firing)
          ↔ ((fl.le horizon metric.alert_horizon_seconds ≡ true) × IsArmed cooldown now previous))
        × ((transition ≡ some cleared) ↔ (
            (fl.le horizon metric.alert_horizon_seconds ≡ false)
            × (fl.lt (fl.mul metric.alert_horizon_seconds factor) horizon ≡ true)
            × IsFiring previous))
  unfolding alert_transition
  alert_transition_iff fc metric previous cooldown factor {at} {now} c a =
      let limit = fl.mul metric.alert_horizon_seconds factor in
      let horizon = horizon_seconds {F = F} at now in
      let due = alert_due-fires cooldown now previous in
      let over = alert_over-clears horizon limit previous in
      rw (c, a)
        (elim (Bool-cases (fl.le horizon metric.alert_horizon_seconds)) [
          | inl e ↦ rw e (
            ((λ t. (refl, due.0 t)), (λ h. due.1 h.1)),
            ((λ t. absurd (alert_due-clears cooldown now previous t)), (λ h. cc (h.0))),
          )
          | inr e ↦ rw e (
            ((λ t. absurd (alert_over-fires horizon limit previous t)), (λ h. cc (h.0))),
            ((λ t. let o = over.0 t in (refl, o.0, o.1)), (λ h. over.1 (h.1, h.2))),
          )
        ])
