-- ===== src/Analytics/Decision/Rerun.antt =====
-- src/planter_telemetry/analytics/service.py: _handle_alert, run again over unchanged data.
use planter_telemetry.Analytics.Decision.{
  apply_transition, next_answer, handle_alert, record_transition, Settings, notify, announce, Run,
}
use planter_telemetry.Prelude.Floats.{lit, Floats}
use planter_telemetry.Analytics.Alert.{
  with_times, alert_due, transition_at, alert_over, alert_transition, cleared, AlertState,
  horizon_seconds, firing, AlertTransition,
}
use planter_telemetry.Analytics.Store.{state_value, has_event, insert_alert_event, mark_notified}
use planter_telemetry.Analytics.Store.Idempotent.{insert_alert_event-recorded, has_event-mark_event}
use planter_telemetry.Analytics.Model.{Forecast, Metric}
use planter_telemetry.Prelude.{
  Bool-cases, arith, inr, inl, ◌⊎◌, false, ◌∙◌, refl, true, none, some, Option, ℕ, ◌≡◌, Bool, Text,
}

module _ {F : Type 0} where
  -- The two states agree on the alert events, the counters, and the pushes that were sent.
  abbrev pub Quiet : Run F → Run F → Type 0
  Quiet s s' =
      (s'.tables.alert_events ≡ s.tables.alert_events)
      × (s'.counters ≡ s.counters)
      × (s'.pushed ≡ s.pushed)

  abbrev IsRecorded : Text → Text → AlertTransition → ℕ → Run F → Type 0
  IsRecorded d k transition at s =
      has_event d k at (state_value transition) s.tables.alert_events ≡ true

  notify-IsRecorded :
      (b : Bool) (id : ℕ) (d k : Text) (transition : AlertTransition) (at : ℕ) (s : Run F)
      → IsRecorded d k transition at s
      → IsRecorded d k transition at (notify b id s)
  unfolding notify mark_notified
  notify-IsRecorded false id d k transition at s h = h
  notify-IsRecorded true id d k transition at s h =
      has_event-mark_event d k at (state_value transition) id (next_answer s.answers).0
        s.tables.alert_events
      ∙ h

  announce-IsRecorded :
      (b : Bool) (u : AlertTransition) (id : Option ℕ) (d k : Text) (transition : AlertTransition)
      (at : ℕ) (s : Run F)
      → IsRecorded d k transition at s
      → IsRecorded d k transition at (announce b u id s)
  unfolding announce
  announce-IsRecorded b u none d k transition at s h = h
  announce-IsRecorded b firing (some id) d k transition at s h =
      notify-IsRecorded b id d k transition at _ h
  announce-IsRecorded b cleared (some id) d k transition at s h = h

module _ {F : Type 0} ⦃fl : Floats F⦄ (settings : Settings F) where
  pub record_transition-IsRecorded :
      (d : Text) (metric : Metric F) (transition : AlertTransition) (at crosses_at : ℕ) (s : Run F)
      → IsRecorded d metric.kind transition at
          (record_transition settings d metric transition at crosses_at s)
  unfolding record_transition
  record_transition-IsRecorded d metric transition at crosses_at s =
      announce-IsRecorded settings.notifies transition _ d metric.kind transition at _ (
        insert_alert_event-recorded d metric.kind transition at crosses_at
          (horizon_seconds {F = F} crosses_at at) metric.alert_horizon_seconds s.tables)

  pub record_transition-Quiet :
      (d : Text) (metric : Metric F) (transition : AlertTransition) (at crosses_at : ℕ) (s : Run F)
      → IsRecorded d metric.kind transition at s
      → Quiet s (record_transition settings d metric transition at crosses_at s)
  unfolding record_transition insert_alert_event announce
  record_transition-Quiet d metric transition at crosses_at s h = rw (h) (refl, refl, refl)

  apply_transition-again :
      (d : Text) (metric : Metric F) (x y : Option AlertTransition) (a c : Option ℕ) (s : Run F)
      → (y ≡ none) ⊎ (y ≡ x)
      → Quiet
          (apply_transition settings d metric x a c s)
          (apply_transition settings d metric y a c (apply_transition settings d metric x a c s))
  apply_transition-again d metric x y a c s (inl e) = rw e (refl, refl, refl)
  apply_transition-again d metric x y a c s (inr e) = rw e (same x a c)
    where
      same :
          (x : Option AlertTransition) (a c : Option ℕ)
          → Quiet (apply_transition settings d metric x a c s) (
              apply_transition settings d metric x a c (apply_transition settings d metric x a c s))
      same none a c = (refl, refl, refl)
      same (some t) none c = (refl, refl, refl)
      same (some t) (some at) none = (refl, refl, refl)
      same (some t) (some at) (some crosses_at) =
          record_transition-Quiet d metric t at crosses_at _
            (record_transition-IsRecorded d metric t at crosses_at s)

module _ {F : Type 0} ⦃fl : Floats F⦄ where
  alert_due-repeats :
      (cooldown : F) (now : ℕ) (before : Option AlertState) (t : AlertTransition)
      (after : Option AlertState)
      → alert_due cooldown now before ≡ some t
      → let again = alert_due cooldown now after in (again ≡ none) ⊎ (again ≡ some t)
  unfolding alert_due
  alert_due-repeats cooldown now none firing none h = ground arith
  alert_due-repeats cooldown now none firing (some q) h = ground arith
  alert_due-repeats cooldown now none cleared after h = cc
  alert_due-repeats cooldown now (some p) firing none h = ground arith
  alert_due-repeats cooldown now (some p) firing (some q) h = ground arith
  alert_due-repeats cooldown now (some p) cleared after h = ground arith

  alert_over-repeats :
      (horizon limit : F) (before : Option AlertState) (t : AlertTransition)
      (after : Option AlertState)
      → alert_over horizon limit before ≡ some t
      → let again = alert_over horizon limit after in (again ≡ none) ⊎ (again ≡ some t)
  unfolding alert_over
  alert_over-repeats horizon limit none t after h = cc
  alert_over-repeats horizon limit (some p) firing after h = ground arith
  alert_over-repeats horizon limit (some p) cleared none h = inl refl
  alert_over-repeats horizon limit (some p) cleared (some q) h = ground arith

  with_times-repeats :
      (metric : Metric F) (before : Option AlertState) (cooldown factor : F) (c a : Option ℕ)
      (t : AlertTransition) (after : Option AlertState)
      → with_times metric before cooldown factor c a ≡ some t
      → let again = with_times metric after cooldown factor c a in (again ≡ none) ⊎ (again ≡ some t)
  unfolding transition_at
  with_times-repeats metric before cooldown factor none a t after h = cc
  with_times-repeats metric before cooldown factor (some c) none t after h = cc
  with_times-repeats metric before cooldown factor (some c) (some a) t after h =
      let horizon = horizon_seconds {F = F} c a in
      elim (Bool-cases (fl.le horizon metric.alert_horizon_seconds)) [
        | inl due ↦ rw (due) (alert_due-repeats cooldown a before t after (rw due at h))
        | inr over ↦ rw (over) (
            alert_over-repeats horizon (fl.mul metric.alert_horizon_seconds factor) before t after
              (rw over at h))
      ]

  -- Judged again with any previous state, a forecast repeats its decision or decides nothing.
  pub transition-repeats :
      (fc : Forecast F) (metric : Metric F) (before : Option AlertState) (cooldown factor : F)
      (t : AlertTransition) (after : Option AlertState)
      → alert_transition fc metric before cooldown factor ≡ some t
      → let again = alert_transition fc metric after cooldown factor in
        (again ≡ none) ⊎ (again ≡ some t)
  unfolding alert_transition
  transition-repeats fc metric before cooldown factor t after h =
      with_times-repeats metric before cooldown factor fc.crosses_at fc.as_of t after h

module _ {F : Type 0} ⦃fl : Floats F⦄ (settings : Settings F) where
  -- An alert that was decided is not announced again. When the same forecast is judged a second time,
  -- with any previous state at all (the decision that the first time recorded, an older or a newer
  -- one, or none), then no event is added or changed, no counter moves and no push is sent, whatever
  -- the cooldown.
  pub handle_alert_again :
      (d : Text) (metric : Metric F) (fc : Forecast F) (before : Option AlertState)
      (t : AlertTransition) (after : Option AlertState) (s : Run F)
      → alert_transition fc metric before
          (fl.mul settings.alert_cooldown_hours (lit 3600))
          (fl.ratio 15 10)
        ≡ some t
      → let s' = handle_alert settings d metric fc before s in
        Quiet s' (handle_alert settings d metric fc after s')
  unfolding handle_alert
  handle_alert_again d metric fc before t after s h = rw h (
      apply_transition-again settings d metric (some t)
        (alert_transition fc metric after (fl.mul settings.alert_cooldown_hours (lit 3600))
          (fl.ratio 15 10))
        fc.as_of fc.crosses_at s (transition-repeats fc metric before _ _ t after h))
