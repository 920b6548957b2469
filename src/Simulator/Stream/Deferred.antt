-- ===== src/Simulator/Stream/Deferred.antt =====
-- src/planter_telemetry/simulator/stream.py: the readings that are held back.
use planter_telemetry.Prelude.{
  sym, ◌≡◌, inr, inl, leb, List, Bool-cases, length-append, ◌<◌, [], ◌∷◌, ◌++◌, arith, length, ◌+◌,
  suc, ◌≤◌, ℕ,
}
use planter_telemetry.Prelude.Floats.{Floats}
use planter_telemetry.Simulator.Stream.{
  fresh, check_in, Emitter, wake_step, send_or_defer, device_emissions, Rates, Wake, Emission,
  Deferred, release,
}

module _ {F : Type 0} where
  -- The readings held before wake `n`, one for each later entry at most: the last is due by n + 2,
  -- the one before it by n + 1, and so on.
  abbrev Held : ℕ → Deferred F → Type 0
  Held n [] = Unit
  Held n ((due, held) ∷ rest) = (due + length rest ≤ n + 2) × Held n rest

  -- After the release of wake `n` the first one held is not due.
  abbrev NotDue : ℕ → Deferred F → Type 0
  NotDue n [] = Unit
  NotDue n ((due, held) ∷ rest) = n < due

  release-Held :
      (n at : ℕ) (l : Deferred F)
      → Held n l
      → Held n (release n at l).1 × NotDue n (release n at l).1
  unfolding release
  release-Held n at [] h = (tt, tt)
  release-Held n at ((due, held) ∷ rest) h = elim (Bool-cases (leb due n)) [
    | inl is_due ↦ rw (is_due) (release-Held n at rest h.1)
    | inr not_due ↦ rw (not_due) (h, ground arith)
  ]

  Held-later : (n : ℕ) (l : Deferred F) → Held n l → Held (suc n) l
  Held-later n [] h = tt
  Held-later n ((due, held) ∷ rest) h = (omega arith, Held-later n rest h.1)

  Held-append :
      (n due : ℕ) (e : Emission F) (l : Deferred F)
      → due ≤ suc n + 2
      → Held n l
      → Held (suc n) (l ++ (due, e) ∷ [])
  Held-append n due e [] d h = (omega arith, tt)
  Held-append n due e ((u, held) ∷ rest) d h =
      (omega (arith, length-append {0} rest ((due, e) ∷ [])), Held-append n due e rest d h.1)

  length-Held : (n : ℕ) (l : Deferred F) → Held n l → NotDue n l → length l ≤ 2
  length-Held n [] h d = omega arith
  length-Held n ((due, held) ∷ rest) h d = omega arith

-- What holds of the readings held back between two wakes.
abbrev FewHeld : {F : Type 0} → ℕ → Deferred F → Type 0
FewHeld n l = Held n l × (length l ≤ 3)

abbrev AllWithin3 : {F : Type 0} → List (Wake F) → Type 0
AllWithin3 [] = Unit
AllWithin3 (w ∷ ws) = (w.defer_wakes ≤ 3) × AllWithin3 ws

add_zero : (n : ℕ) → n + 0 ≡ n
add_zero n = omega arith

zero_add : (n : ℕ) → 0 + n ≡ n
zero_add n = omega arith

add_suc : (n k : ℕ) → n + suc k ≡ suc n + k
add_suc n k = omega arith

module _ {F : Type 0} ⦃fl : Floats F⦄ (rates : Rates F) where
  released-FewHeld : (n at : ℕ) (l : Deferred F) → Held n l → FewHeld (suc n) (release n at l).1
  released-FewHeld n at l h =
      let (k, d) = release-Held n at l h in
      (Held-later n (release n at l).1 k, omega (arith, length-Held n (release n at l).1 k d))

  send_or_defer-FewHeld :
      (n : ℕ) (w : Wake F) (e : Emission F) (s : Emitter F)
      → w.defer_wakes ≤ 3
      → Held n s.deferred
      → NotDue n s.deferred
      → FewHeld (suc n) (send_or_defer rates n w e s).deferred
  unfolding send_or_defer
  send_or_defer-FewHeld n w e s d h q =
      elim (Bool-cases (fl.lt w.defer_roll rates.out_of_order_rate)) [
        | inl deferred ↦ rw (deferred) (
          Held-append n (n + w.defer_wakes) e s.deferred (omega arith) h,
          omega (
            arith,
            length-Held n s.deferred h q,
            length-append {0} s.deferred ((n + w.defer_wakes, e) ∷ []),
          ),
        )
        | inr sent ↦
            rw (sent) (Held-later n s.deferred h, omega (arith, length-Held n s.deferred h q))
      ]

  wake_step-FewHeld :
      (n : ℕ) (w : Wake F) (s : Emitter F)
      → w.defer_wakes ≤ 3
      → Held n s.deferred
      → FewHeld (suc n) (wake_step rates n w s).deferred
  unfolding wake_step check_in
  wake_step-FewHeld n w s d h =
      let (k, q) = release-Held n w.reading.measured_at s.deferred h in
      elim (Bool-cases (fl.lt w.missed_roll rates.missed_checkin_rate)) [
        | inl missed ↦ rw (missed) (released-FewHeld n w.reading.measured_at s.deferred h)
        | inr checked_in ↦ rw (checked_in) (send_or_defer-FewHeld n w _ _ d k q)
      ]

  device_emissions-from :
      (n : ℕ) (ws : List (Wake F)) (s : Emitter F)
      → AllWithin3 ws
      → FewHeld n s.deferred
      → FewHeld (n + length ws) (device_emissions rates n ws s).deferred
  unfolding device_emissions
  device_emissions-from n [] s a h = rw (add_zero n) h
  device_emissions-from n (w ∷ ws) s a h = rw (add_suc n (length ws)) (
      device_emissions-from (suc n) ws (wake_step rates n w s) a.1
        (wake_step-FewHeld n w s a.0 h.0))

  -- When every wake draws a deferral of at most 3 wakes, then before any wake the generator holds
  -- at most three readings back, the last of them due within two wakes, the one before it within one.
  device_emissions-FewHeld :
      (ws : List (Wake F))
      → AllWithin3 ws
      → FewHeld (length ws) (device_emissions rates 0 ws fresh).deferred
  device_emissions-FewHeld ws a =
      rw (sym (zero_add (length ws))) (device_emissions-from 0 ws fresh a (tt, omega arith))
