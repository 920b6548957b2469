-- ===== src/Analytics/Service/Events.antt =====
-- src/planter_telemetry/analytics/db.py: what a new alert event does to the latest alert states.
use planter_telemetry.Analytics.Service.{as_states}
use planter_telemetry.Analytics.Window.{latest_alert_states, add_state}
use planter_telemetry.Analytics.Pass.{lookup_state}
use planter_telemetry.Analytics.Alert.{AlertState}
use planter_telemetry.Analytics.Store.{AlertEvent, has_event, mark_event}
use planter_telemetry.Analytics.Store.Idempotent.{has_event-mark_event}
use planter_telemetry.Prelude.{
  text_eq→eq, ◌==◌, arith, List, [], ◌∷◌, ◌++◌, Text, ℕ, ◌≡◌, refl, false, true, text_eq, ◌&&◌,
  Bool-cases, inl, inr, ltb, Option, ap, ◌∙◌,
}

-- adding a state of another device or kind
lookup-add_state :
    (d k e l state : Text) (at : ℕ) (states : List ((Text × Text) × (Text × ℕ)))
    → (text_eq e d && text_eq l k) ≡ false
    → lookup_state d k (as_states (add_state e l state at states))
      ≡ lookup_state d k (as_states states)
unfolding lookup_state add_state
lookup-add_state d k e l state at [] h = rw h refl
lookup-add_state d k e l state at (((f, m), (s, t)) ∷ rest) h =
    elim (Bool-cases (text_eq f e && text_eq m l)) [
      | inl same ↦
          let f_e = text_eq→eq f e (ground (arith, same)) in
          let m_l = text_eq→eq m l (ground (arith, same)) in
          let not_own : (text_eq f d && text_eq m k) ≡ false = rw (f_e, m_l) h in
          elim (Bool-cases (ltb t at)) [
            | inl newer ↦ rw (same, newer, not_own) refl
            | inr older ↦ rw (same, older, not_own) refl
          ]
      | inr other ↦ elim (Bool-cases (text_eq f d && text_eq m k)) [
        | inl own ↦ rw (other, own) refl
        | inr not_own ↦ rw (other, not_own) (lookup-add_state d k e l state at rest h)
      ]
    ]

module _ {F : Type 0} where
  -- the state that the service reads for a device and kind
  abbrev pub state_in : List (AlertEvent F) → Text → Text → Option AlertState
  state_in events d k = lookup_state d k (as_states (latest_alert_states events []))

  latest_alert_states-append :
      (events : List (AlertEvent F)) (e : AlertEvent F) (states : List ((Text × Text) × (Text × ℕ)))
      → latest_alert_states (events ++ e ∷ []) states
        ≡ add_state e.device_id e.kind e.state e.as_of (latest_alert_states events states)
  unfolding latest_alert_states
  latest_alert_states-append [] e states = refl
  latest_alert_states-append (o ∷ events) e states = latest_alert_states-append events e _

  latest_alert_states-mark_event :
      (id : ℕ) (error : Option Text) (events : List (AlertEvent F))
      (states : List ((Text × Text) × (Text × ℕ)))
      → latest_alert_states (mark_event id error events) states ≡ latest_alert_states events states
  unfolding latest_alert_states mark_event
  latest_alert_states-mark_event id error [] states = refl
  latest_alert_states-mark_event id error (o ∷ events) states = elim (Bool-cases (o.id == id)) [
    | inl e ↦ rw e (latest_alert_states-mark_event id error events _)
    | inr e ↦ rw e (latest_alert_states-mark_event id error events _)
  ]

  -- Every event is kept, and no other device and kind has a new state.
  abbrev pub Touches : Text → Text → List (AlertEvent F) → List (AlertEvent F) → Type 0
  Touches d k events events' =
      ((e l : Text) (at : ℕ) (state : Text)
        → has_event e l at state events ≡ true
        → has_event e l at state events' ≡ true)
      × ((e l : Text)
          → (text_eq d e && text_eq k l) ≡ false
          → state_in events' e l ≡ state_in events e l)

  pub Touches-refl : (d k : Text) (events : List (AlertEvent F)) → Touches d k events events
  Touches-refl d k events = ((λ e l at state h. h), (λ e l h. refl))

  pub Touches-trans :
      (d k : Text) (a b c : List (AlertEvent F))
      → Touches d k a b
      → Touches d k b c
      → Touches d k a c
  Touches-trans d k a b c x y =
      ((λ e l at state h. y.0 e l at state (x.0 e l at state h)), (λ e l h. y.1 e l h ∙ x.1 e l h))

  has_event-append_keeps :
      (d k : Text) (at : ℕ) (state : Text) (e : AlertEvent F) (events : List (AlertEvent F))
      → has_event d k at state events ≡ true
      → has_event d k at state (events ++ e ∷ []) ≡ true
  unfolding has_event
  has_event-append_keeps d k at state e [] h = cc
  has_event-append_keeps d k at state e (o ∷ events) h =
      ground (arith, has_event-append_keeps d k at state e events)

  pub append-Touches :
      (d k : Text) (e : AlertEvent F) (events : List (AlertEvent F))
      → e.device_id ≡ d
      → e.kind ≡ k
      → Touches d k events (events ++ e ∷ [])
  append-Touches d k e events ed ek = (
    (λ f l at state h. has_event-append_keeps f l at state e events h),
    (λ f l h.
        ap (λ s. lookup_state f l (as_states s)) (latest_alert_states-append events e [])
        ∙ lookup-add_state f l e.device_id e.kind e.state e.as_of (latest_alert_states events [])
            (rw (ed, ek) h)),
  )

  pub mark_event-Touches :
      (d k : Text) (id : ℕ) (error : Option Text) (events : List (AlertEvent F))
      → Touches d k events (mark_event id error events)
  mark_event-Touches d k id error events = (
    (λ f l at state h. has_event-mark_event f l at state id error events ∙ h),
    (λ f l h.
        ap (λ s. lookup_state f l (as_states s))
          (latest_alert_states-mark_event id error events [])),
  )
