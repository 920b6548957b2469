-- ===== src/Analytics/Service/Silent.antt =====
-- src/planter_telemetry/analytics/service.py: the alerts of a pass that runs again over unchanged data.
pub mod Jobs
use planter_telemetry.Analytics.Decision.{
  apply_transition, record_transition, Settings, notify, announce, Run,
}
use planter_telemetry.Analytics.Service.Events.{
  append-Touches, Touches-trans, state_in, Touches, Touches-refl, mark_event-Touches,
}
use planter_telemetry.Analytics.Alert.{
  alert_transition, cleared, AlertState, firing, AlertTransition,
}
use planter_telemetry.Analytics.Store.{
  insert_forecast, insert_alert_event, state_value, has_event, mark_notified, AlertEvent,
  insert_forecast, insert_at, Tables,
}
use planter_telemetry.Prelude.Floats.{lit, Floats}
use planter_telemetry.Analytics.Pass.{write_forecast}
use planter_telemetry.Analytics.Model.{Forecast, Metric}
use planter_telemetry.Analytics.Decision.Rerun.{
  transition-repeats, Quiet, record_transition-Quiet, record_transition-IsRecorded,
}
use planter_telemetry.Prelude.{
  sym, ap, inl, Bool-cases, inr, ◌⊎◌, refl, ◌&&◌, text_eq, false, ◌∙◌, true, none, some, Option, ℕ,
  ◌≡◌, Bool, Text, List,
}

module _ {F : Type 0} where
  abbrev pub events_of : Run F → List (AlertEvent F)
  events_of s = s.tables.alert_events

  notify-Touches :
      (d k : Text) (b : Bool) (id : ℕ) (s : Run F)
      → Touches d k (events_of s) (events_of (notify b id s))
  unfolding notify mark_notified
  notify-Touches d k false id s = Touches-refl d k (events_of s)
  notify-Touches d k true id s = mark_event-Touches d k id _ (events_of s)

  announce-Touches :
      (d k : Text) (b : Bool) (t : AlertTransition) (id : Option ℕ) (s : Run F)
      → Touches d k (events_of s) (events_of (announce b t id s))
  unfolding announce
  announce-Touches d k b t none s = Touches-refl d k (events_of s)
  announce-Touches d k b firing (some id) s = notify-Touches d k b id _
  announce-Touches d k b cleared (some id) s = Touches-refl d k (events_of s)

  -- What a decision left: the recorded event, or, without a decision, the state it met.
  abbrev pub SettledAt :
      Text
      → Text
      → Option AlertState
      → List (AlertEvent F)
      → Option AlertTransition
      → Option ℕ
      → Option ℕ
      → Type 0
  SettledAt d k before events (some t) (some at) (some c) =
      has_event d k at (state_value t) events ≡ true
  SettledAt d k before events (some t) none c = Unit
  SettledAt d k before events (some t) (some at) none = Unit
  SettledAt d k before events none a c = state_in events d k ≡ before

  pub SettledAt-Touches :
      (d k e l : Text) (before : Option AlertState) (events events' : List (AlertEvent F))
      (x : Option AlertTransition) (a c : Option ℕ)
      → Touches e l events events'
      → (text_eq e d && text_eq l k) ≡ false
      → SettledAt d k before events x a c
      → SettledAt d k before events' x a c
  SettledAt-Touches d k e l before events events' none a c t o h = t.1 d k o ∙ h
  SettledAt-Touches d k e l before events events' (some u) none c t o h = tt
  SettledAt-Touches d k e l before events events' (some u) (some at) none t o h = tt
  SettledAt-Touches d k e l before events events' (some u) (some at) (some c) t o h = t.0 d k at _ h

  -- The two states agree on all that the alerts leave.
  abbrev pub SameAlerts : Run F → Run F → Type 0
  SameAlerts s s' =
      (s'.tables.alert_events ≡ s.tables.alert_events)
      × (s'.pushed ≡ s.pushed)
      × (s'.counters.alerts_fired ≡ s.counters.alerts_fired)
      × (s'.counters.alerts_cleared ≡ s.counters.alerts_cleared)
      × (s'.counters.notify_failures ≡ s.counters.notify_failures)

  pub SameAlerts-refl : (s : Run F) → SameAlerts s s
  SameAlerts-refl s = (refl, refl, refl, refl, refl)

  pub SameAlerts-trans : (a b c : Run F) → SameAlerts a b → SameAlerts b c → SameAlerts a c
  SameAlerts-trans a b c (e, p, f, k, n) (e', p', f', k', n') =
      (e' ∙ e, p' ∙ p, f' ∙ f, k' ∙ k, n' ∙ n)

  Quiet-SameAlerts : (s s' : Run F) → Quiet s s' → SameAlerts s s'
  Quiet-SameAlerts s s' (e, k, p) = (
    e,
    p,
    ap (λ c. c.alerts_fired) k,
    ap (λ c. c.alerts_cleared) k,
    ap (λ c. c.notify_failures) k,
  )

module _ {F : Type 0} ⦃fl : Floats F⦄ (settings : Settings F) where
  -- the decision on a forecast, after the state that the pass read
  abbrev pub decided : Metric F → Forecast F → Option AlertState → Option AlertTransition
  decided metric fc before =
      alert_transition fc metric before (fl.mul settings.alert_cooldown_hours (lit 3600))
        (fl.ratio 15 10)

  record_transition-Touches :
      (d : Text) (metric : Metric F) (t : AlertTransition) (at c : ℕ) (s : Run F)
      → Touches d metric.kind
          (events_of s)
          (events_of (record_transition settings d metric t at c s))
  unfolding record_transition insert_alert_event announce
  record_transition-Touches d metric t at c s =
      elim (Bool-cases (has_event d metric.kind at (state_value t) s.tables.alert_events)) [
        | inl e ↦ rw (e) (Touches-refl d metric.kind (events_of s))
        | inr e ↦ rw (e) (
            Touches-trans d metric.kind _ _ _
              (append-Touches d metric.kind _ (events_of s) refl refl)
              (announce-Touches d metric.kind settings.notifies t (some s.tables.next_id) _))
      ]

  pub apply_transition-Touches :
      (d : Text) (metric : Metric F) (x : Option AlertTransition) (a c : Option ℕ) (s : Run F)
      → Touches d metric.kind (events_of s) (events_of (apply_transition settings d metric x a c s))
  apply_transition-Touches d metric none a c s = Touches-refl d metric.kind (events_of s)
  apply_transition-Touches d metric (some t) none c s = Touches-refl d metric.kind (events_of s)
  apply_transition-Touches d metric (some t) (some at) none s =
      Touches-refl d metric.kind (events_of s)
  apply_transition-Touches d metric (some t) (some at) (some c) s =
      record_transition-Touches d metric t at c s

  pub apply_transition-SettledAt :
      (d : Text) (metric : Metric F) (before : Option AlertState) (x : Option AlertTransition)
      (a c : Option ℕ) (s : Run F)
      → state_in (events_of s) d metric.kind ≡ before
      → SettledAt d metric.kind before
          (events_of (apply_transition settings d metric x a c s))
          x
          a
          c
  apply_transition-SettledAt d metric before none a c s h = h
  apply_transition-SettledAt d metric before (some t) none c s h = tt
  apply_transition-SettledAt d metric before (some t) (some at) none s h = tt
  apply_transition-SettledAt d metric before (some t) (some at) (some c) s h =
      record_transition-IsRecorded settings d metric t at c s

  insert_forecast-alert_events :
      (d : Text) (fc : Forecast F) (t : Tables F)
      → (insert_forecast d fc t).1.alert_events ≡ t.alert_events
  unfolding insert_forecast
  insert_forecast-alert_events d fc t = go fc.as_of
    where
      go : (a : Option ℕ) → (insert_at d fc a t).1.alert_events ≡ t.alert_events
      go none = refl
      go (some at) = refl

  pub write_forecast-SameAlerts :
      (d : Text) (fc : Forecast F) (s : Run F) → SameAlerts s (write_forecast settings d fc s)
  unfolding write_forecast
  write_forecast-SameAlerts d fc s = elim (Bool-cases (insert_forecast d fc s.tables).0) [
    | inl e ↦ rw (e) (insert_forecast-alert_events d fc s.tables, refl, refl, refl, refl)
    | inr e ↦ rw (e) (insert_forecast-alert_events d fc s.tables, refl, refl, refl, refl)
  ]

  pub apply_transition-SameAlerts :
      (d : Text) (metric : Metric F) (before : Option AlertState) (x y : Option AlertTransition)
      (a c : Option ℕ) (s : Run F)
      → (y ≡ none) ⊎ (y ≡ x)
      → SettledAt d metric.kind before (events_of s) x a c
      → SameAlerts s (apply_transition settings d metric y a c s)
  apply_transition-SameAlerts d metric before x y a c s (inl e) h = rw (e) (SameAlerts-refl s)
  apply_transition-SameAlerts d metric before x y a c s (inr e) h = rw (e) (same x a c h)
    where
      same :
          (x : Option AlertTransition) (a c : Option ℕ)
          → SettledAt d metric.kind before (events_of s) x a c
          → SameAlerts s (apply_transition settings d metric x a c s)
      same none a c h = SameAlerts-refl s
      same (some t) none c h = SameAlerts-refl s
      same (some t) (some at) none h = SameAlerts-refl s
      same (some t) (some at) (some c) h =
          Quiet-SameAlerts s (record_transition settings d metric t at c s)
            (record_transition-Quiet settings d metric t at c s h)

  -- Where a decision is settled, the forecast judged after the states of now decides it again or nothing.
  pub decided-again :
      (d : Text) (metric : Metric F) (fc : Forecast F) (before : Option AlertState)
      (events : List (AlertEvent F)) (a c : Option ℕ)
      → SettledAt d metric.kind before events (decided metric fc before) a c
      → let again = decided metric fc (state_in events d metric.kind) in
        (again ≡ none) ⊎ (again ≡ decided metric fc before)
  decided-again d metric fc before events a c h = go (decided metric fc before) refl h
    where
      go :
          (x : Option AlertTransition)
          → decided metric fc before ≡ x
          → SettledAt d metric.kind before events x a c
          → let again = decided metric fc (state_in events d metric.kind) in
            (again ≡ none) ⊎ (again ≡ decided metric fc before)
      go none e h = inr (ap (decided metric fc) h)
      go (some t) e h =
          elim (transition-repeats fc metric before _ _ t (state_in events d metric.kind) e) [
            | inl none_again ↦ inl none_again
            | inr again ↦ inr (again ∙ sym e)
          ]
