-- ===== src/Analytics/Window/Latest.antt =====
-- src/planter_telemetry/analytics/db.py: latest_alert_states answers the newest decisions.
use mathlib.Core.Path.{subst}
use planter_telemetry.Prelude.{
  refl, Bool, true, ◌≡◌, sym, ◌∙◌, text_eq→eq, All-imp, inr, ltb, inl, ◌&&◌, text_eq, Bool-cases,
  [], if◌then◌else◌, arith, ◌≤◌, All, ◌∷◌, some, none, text_eq_refl, Option, List, ℕ, Text,
}
use planter_telemetry.Analytics.Store.{AlertEvent, has_event, same_event}
use planter_telemetry.Analytics.Window.{latest_alert_states, add_state}

-- the state of a device and kind
unfoldable pub find_state : Text → Text → List ((Text × Text) × (Text × ℕ)) → Option (Text × ℕ)
find_state d k [] = none
find_state d k (((e, l), s) ∷ rest) =
    if text_eq e d && text_eq l k then some s else find_state d k rest

-- A state is found, and it is at least as new as `at`.
abbrev pub IsSince : ℕ → Option (Text × ℕ) → Type 0
IsSince at none = ⊥
IsSince at (some s) = at ≤ s.1

find-add_state_self :
    (d k state : Text) (at : ℕ) (states : List ((Text × Text) × (Text × ℕ)))
    → IsSince at (find_state d k (add_state d k state at states))
unfolding find_state add_state
find-add_state_self d k state at [] = rw (text_eq_refl d, text_eq_refl k) (omega arith)
find-add_state_self d k state at (((e, l), (s, t)) ∷ rest) =
    elim (Bool-cases (text_eq e d && text_eq l k)) [
      | inl same ↦ elim (Bool-cases (ltb t at)) [
        | inl newer ↦ rw (same, newer, same) (omega arith)
        | inr older ↦ rw (same, older, same) (ground arith)
      ]
      | inr other ↦ rw (other, other) (find-add_state_self d k state at rest)
    ]

add_state-keeps :
    (d k e l state : Text) (at t : ℕ) (states : List ((Text × Text) × (Text × ℕ)))
    → IsSince t (find_state d k states)
    → IsSince t (find_state d k (add_state e l state at states))
unfolding find_state add_state
add_state-keeps d k e l state at t [] h = absurd h
add_state-keeps d k e l state at t (((f, m), (s, u)) ∷ rest) h =
    elim (Bool-cases (text_eq f e && text_eq m l)) [
      | inl same ↦ elim (Bool-cases (ltb u at)) [
        | inl newer ↦ elim (Bool-cases (text_eq f d && text_eq m k)) [
          | inl own ↦ let h' : t ≤ u = rw own at h in rw (same, newer, own) (ground arith)
          | inr not_own ↦ rw (same, newer, not_own) (rw not_own at h)
        ]
        | inr older ↦ rw (same, older) h
      ]
      | inr other ↦ elim (Bool-cases (text_eq f d && text_eq m k)) [
        | inl own ↦ rw (other, own) (rw own at h)
        | inr not_own ↦
            rw (other, not_own) (add_state-keeps d k e l state at t rest (rw not_own at h))
      ]
    ]

both_true : (a b : Bool) → (a && b) ≡ true → (a ≡ true) × (b ≡ true)
both_true a b h = ground arith

-- Two pairs that match a third match each other.
match_trans :
    (f m e l d k : Text)
    → (text_eq f e && text_eq m l) ≡ true
    → (text_eq f d && text_eq m k) ≡ true
    → (text_eq e d && text_eq l k) ≡ true
match_trans f m e l d k same own =
    let (p, q) = both_true (text_eq f e) (text_eq m l) same in
    let (r, s) = both_true (text_eq f d) (text_eq m k) own in
    let x : e ≡ d = sym (text_eq→eq f e p) ∙ text_eq→eq f d r in
    let y : l ≡ k = sym (text_eq→eq m l q) ∙ text_eq→eq m k s in
    rw (x, y, text_eq_refl d, text_eq_refl k) refl

module _ {F : Type 0} where
  latest-keeps :
      (d k : Text) (t : ℕ) (events : List (AlertEvent F))
      (states : List ((Text × Text) × (Text × ℕ)))
      → IsSince t (find_state d k states)
      → IsSince t (find_state d k (latest_alert_states events states))
  unfolding latest_alert_states
  latest-keeps d k t [] states h = h
  latest-keeps d k t (e ∷ events) states h =
      latest-keeps d k t events (add_state e.device_id e.kind e.state e.as_of states)
        (add_state-keeps d k e.device_id e.kind e.state e.as_of t states h)

  latest-IsSince :
      (events : List (AlertEvent F)) (states : List ((Text × Text) × (Text × ℕ)))
      → All
          (λ (e : AlertEvent F).
            IsSince e.as_of (find_state e.device_id e.kind (latest_alert_states events states)))
          events
  unfolding latest_alert_states
  latest-IsSince [] states = tt
  latest-IsSince (e ∷ events) states = (
    latest-keeps e.device_id e.kind e.as_of events _
        (find-add_state_self e.device_id e.kind e.state e.as_of states),
    latest-IsSince events (add_state e.device_id e.kind e.state e.as_of states),
  )

  -- The table has an event of this device and kind with the state and the time that are found.
  abbrev pub IsEvent : Text → Text → List (AlertEvent F) → Option (Text × ℕ) → Type 0
  IsEvent d k table none = Unit
  IsEvent d k table (some s) = has_event d k s.1 s.0 table ≡ true

  -- The event is in the table.
  abbrev IsIn : List (AlertEvent F) → AlertEvent F → Type 0
  IsIn table e = has_event e.device_id e.kind e.as_of e.state table ≡ true

  All-IsIn : (events : List (AlertEvent F)) → All (IsIn events) events
  unfolding has_event same_event
  All-IsIn [] = tt
  All-IsIn (e ∷ events) = (
    ground (arith, text_eq_refl e.device_id, text_eq_refl e.kind, text_eq_refl e.state),
    All-imp (IsIn events) (IsIn (e ∷ events)) events (λ o h. ground arith) (All-IsIn events),
  )

  event_for :
      (d k e l state : Text) (at : ℕ) (table : List (AlertEvent F))
      → (text_eq e d && text_eq l k) ≡ true
      → has_event e l at state table ≡ true
      → has_event d k at state table ≡ true
  event_for d k e l state at table own n =
      let (p, q) = both_true (text_eq e d) (text_eq l k) own in
      subst (λ (x : Text). has_event x k at state table ≡ true) (text_eq→eq e d p)
        (subst (λ (y : Text). has_event e y at state table ≡ true) (text_eq→eq l k q) n)

  add_state-IsEvent :
      (d k e l state : Text) (at : ℕ) (table : List (AlertEvent F))
      (states : List ((Text × Text) × (Text × ℕ)))
      → has_event e l at state table ≡ true
      → IsEvent d k table (find_state d k states)
      → IsEvent d k table (find_state d k (add_state e l state at states))
  unfolding find_state add_state
  add_state-IsEvent d k e l state at table [] n h = elim (Bool-cases (text_eq e d && text_eq l k)) [
    | inl own ↦ rw own (event_for d k e l state at table own n)
    | inr not_own ↦ rw not_own tt
  ]
  add_state-IsEvent d k e l state at table (((f, m), (s, u)) ∷ rest) n h =
      elim (Bool-cases (text_eq f e && text_eq m l)) [
        | inl same ↦ elim (Bool-cases (ltb u at)) [
          | inl newer ↦ elim (Bool-cases (text_eq f d && text_eq m k)) [
            | inl own ↦
                rw (same, newer, own)
                  (event_for d k e l state at table (match_trans f m e l d k same own) n)
            | inr not_own ↦ rw (same, newer, not_own) (rw not_own at h)
          ]
          | inr older ↦ rw (same, older) h
        ]
        | inr other ↦ elim (Bool-cases (text_eq f d && text_eq m k)) [
          | inl own ↦ rw (other, own) (rw own at h)
          | inr not_own ↦
              rw (other, not_own)
                (add_state-IsEvent d k e l state at table rest n (rw not_own at h))
        ]
      ]

  latest-IsEvent :
      (d k : Text) (table events : List (AlertEvent F)) (states : List ((Text × Text) × (Text × ℕ)))
      → All (IsIn table) events
      → IsEvent d k table (find_state d k states)
      → IsEvent d k table (find_state d k (latest_alert_states events states))
  unfolding latest_alert_states
  latest-IsEvent d k table [] states a h = h
  latest-IsEvent d k table (e ∷ events) states a h =
      latest-IsEvent d k table events (add_state e.device_id e.kind e.state e.as_of states) a.1
        (add_state-IsEvent d k e.device_id e.kind e.state e.as_of table states a.0 h)

  -- After the alert events of a table have been read, whatever state and time latest_alert_states has
  -- for a device and a kind are those of an event of that device and kind in the table; and for each
  -- event of the table it has such a state, at least as new as the event. So what it has for a device
  -- and kind is the state of a newest event.
  pub latest_alert_states-IsLatest :
      (events : List (AlertEvent F)) (d k : Text)
      → let states = latest_alert_states events [] in
        IsEvent d k events (find_state d k states)
        × All (λ (e : AlertEvent F). IsSince e.as_of (find_state e.device_id e.kind states)) events
  unfolding find_state
  latest_alert_states-IsLatest events d k =
      (latest-IsEvent d k events events [] (All-IsIn events) tt, latest-IsSince events [])
