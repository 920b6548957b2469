-- ===== src/Simulator/Stream/Readings.antt =====
-- src/planter_telemetry/simulator/stream.py: one device's emissions carry the readings of its wakes.
use planter_telemetry.Simulator.Stream.{
  Emission, Wake, Rates, Emitter, Deferred, release, emit, send_or_defer, check_in, wake_step,
  device_emissions,
}
use planter_telemetry.Contract.Reading.{TelemetryV1}
use planter_telemetry.Prelude.Floats.{Floats}
use planter_telemetry.Prelude.{ℕ, suc, List, [], ◌∷◌, All, All-append, leb, Bool-cases, inl, inr}

module _ {F : Type 0} (P : TelemetryV1 F → Type 0) where
  -- the emissions' readings
  abbrev pub Carry : List (Emission F) → Type 0
  Carry es = All (λ (e : Emission F). P e.reading) es

  abbrev Hold : Deferred F → Type 0
  Hold l = All (λ (d : ℕ × Emission F). P d.1.reading) l

  abbrev Keeps : Emitter F → Type 0
  Keeps s = Carry s.emitted × Hold s.deferred

  release-Carry :
      (n at : ℕ) (l : Deferred F) → Hold l → Carry (release n at l).0 × Hold (release n at l).1
  unfolding release
  release-Carry n at [] h = (tt, tt)
  release-Carry n at ((due, held) ∷ rest) h =
      let (out, left) = release-Carry n at rest h.1 in
      elim (Bool-cases (leb due n)) [ inl e ↦ rw (e) ((h.0, out), left) | inr e ↦ rw (e) (tt, h) ]

module _ {F : Type 0} ⦃fl : Floats F⦄ (P : TelemetryV1 F → Type 0) (rates : Rates F) where
  emit-Carry : (w : Wake F) (e : Emission F) → P e.reading → Carry P (emit rates w e)
  unfolding emit
  emit-Carry w e h = elim (Bool-cases (fl.lt w.duplicate_roll rates.duplicate_rate)) [
    | inl d ↦ rw (d) (h, (h, tt))
    | inr d ↦ rw (d) (h, tt)
  ]

  send_or_defer-Keeps :
      (n : ℕ) (w : Wake F) (e : Emission F) (s : Emitter F)
      → P e.reading
      → Keeps P s
      → Keeps P (send_or_defer rates n w e s)
  unfolding send_or_defer
  send_or_defer-Keeps n w e s p h = elim (Bool-cases (fl.lt w.defer_roll rates.out_of_order_rate)) [
    | inl d ↦ rw (d) (h.0, All-append _ s.deferred _ h.1 (p, tt))
    | inr d ↦ rw (d) (All-append _ s.emitted _ h.0 (emit-Carry w e p), h.1)
  ]

  wake_step-Keeps :
      (n : ℕ) (w : Wake F) (s : Emitter F)
      → P w.reading
      → Keeps P s
      → Keeps P (wake_step rates n w s)
  unfolding wake_step check_in
  wake_step-Keeps n w s p h =
      let (out, left) = release-Carry P n w.reading.measured_at s.deferred h.1 in
      let sent =
        All-append (λ (e : Emission F). P e.reading) s.emitted
          (release n w.reading.measured_at s.deferred).0 h.0 out in
      elim (Bool-cases (fl.lt w.missed_roll rates.missed_checkin_rate)) [
        | inl missed ↦ rw (missed) (sent, left)
        | inr checked_in ↦ rw (checked_in) (send_or_defer-Keeps n w _ _ p (sent, left))
      ]

  -- What holds of each wake's reading holds of each emission's.
  pub device_emissions-Carry :
      (n : ℕ) (ws : List (Wake F)) (s : Emitter F)
      → All (λ (w : Wake F). P w.reading) ws
      → Keeps P s
      → Carry P (device_emissions rates n ws s).emitted
  unfolding device_emissions
  device_emissions-Carry n [] s a h = h.0
  device_emissions-Carry n (w ∷ ws) s a h =
      device_emissions-Carry (suc n) ws (wake_step rates n w s) a.1 (wake_step-Keeps n w s a.0 h)
