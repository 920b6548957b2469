-- ===== src/Simulator/Stream/Ordered.antt =====
-- src/planter_telemetry/simulator/stream.py: one device's emissions are in the order of publish_at.
use planter_telemetry.Prelude.{
  refl, inr, leb, inl, arith, Bool-cases, ◌≤◌, ◌≡◌, suc, ◌∷◌, [], ◌++◌, List, ℕ, Ascends,
  Ascends-append_same, All,
}
use planter_telemetry.Simulator.Stream.{
  check_in, emit, Emitter, wake_step, send_or_defer, device_emissions, Rates, Wake, Emission,
  Deferred, release,
}
use planter_telemetry.Prelude.Floats.{Floats}

abbrev pub publish_time : {F : Type 0} → Emission F → ℕ
publish_time e = e.publish_at

-- The emissions so far are in order, and none is later than `t`.
abbrev InOrder : {F : Type 0} → ℕ → List (Emission F) → Type 0
InOrder t es = Ascends publish_time 0 es × All (λ e. publish_time e ≤ t) es

module _ {F : Type 0} where
  release-now : (n at : ℕ) (l : Deferred F) → All (λ e. publish_time e ≡ at) (release n at l).0
  unfolding release
  release-now n at [] = tt
  release-now n at ((due, held) ∷ rest) = elim (Bool-cases (leb due n)) [
    | inl e ↦ rw e (refl, release-now n at rest)
    | inr e ↦ rw e tt
  ]

  InOrder-append :
      (t u : ℕ) (xs ys : List (Emission F))
      → t ≤ u
      → InOrder t xs
      → All (λ e. publish_time e ≡ u) ys
      → InOrder u (xs ++ ys)
  InOrder-append t u xs ys h o e =
      Ascends-append_same publish_time 0 t u xs ys h (omega arith) o.0 o.1 e

module _ {F : Type 0} ⦃fl : Floats F⦄ (rates : Rates F) where
  emit-now :
      (w : Wake F) (e : Emission F) → All (λ x. publish_time x ≡ e.publish_at) (emit rates w e)
  unfolding emit
  emit-now w e = elim (Bool-cases (fl.lt w.duplicate_roll rates.duplicate_rate)) [
    | inl d ↦ rw d (refl, (refl, tt))
    | inr d ↦ rw d (refl, tt)
  ]

  send_or_defer-InOrder :
      (n : ℕ) (w : Wake F) (e : Emission F) (s : Emitter F)
      → InOrder e.publish_at s.emitted
      → InOrder e.publish_at (send_or_defer rates n w e s).emitted
  unfolding send_or_defer
  send_or_defer-InOrder n w e s h = elim (Bool-cases (fl.lt w.defer_roll rates.out_of_order_rate)) [
    | inl d ↦ rw d h
    | inr d ↦ rw d (
        InOrder-append e.publish_at e.publish_at s.emitted (emit rates w e) (omega arith) h
          (emit-now w e))
  ]

  wake_step-InOrder :
      (n t : ℕ) (w : Wake F) (s : Emitter F)
      → t ≤ w.reading.measured_at
      → InOrder t s.emitted
      → InOrder w.reading.measured_at (wake_step rates n w s).emitted
  unfolding wake_step check_in
  wake_step-InOrder n t w s h o =
      let at = w.reading.measured_at in
      let o' =
        InOrder-append t at s.emitted (release n at s.deferred).0 h o
          (release-now n at s.deferred) in
      elim (Bool-cases (fl.lt w.missed_roll rates.missed_checkin_rate)) [
        | inl missed ↦ rw missed o'
        | inr checked_in ↦ rw checked_in (send_or_defer-InOrder n w _ _ o')
      ]

  -- from a moment when the emissions are in order, wakes in the order of their readings
  pub device_emissions-Ascends :
      (n t : ℕ) (ws : List (Wake F)) (s : Emitter F)
      → Ascends (λ (w : Wake F). w.reading.measured_at) t ws
      → InOrder t s.emitted
      → Ascends publish_time 0 (device_emissions rates n ws s).emitted
  unfolding device_emissions
  device_emissions-Ascends n t [] s a o = o.0
  device_emissions-Ascends n t (w ∷ ws) s a o =
      device_emissions-Ascends (suc n) w.reading.measured_at ws (wake_step rates n w s) a.1
        (wake_step-InOrder n t w s a.0 o)
