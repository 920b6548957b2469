-- ===== src/Simulator/Publisher/Run/Sound.antt =====
-- src/planter_telemetry/simulator/publisher.py: what run publishes, and what its heartbeat says.
use planter_telemetry.Simulator.Publisher.Run.{
  nothing_done, run_publisher, turn, message, publish, publish_loop, Interrupt, never, sleeping,
  reporting, Moment, Publishing, beat, warn_once, report, pace, sleep_for,
}
use planter_telemetry.Simulator.Stream.{Emission}
use planter_telemetry.Simulator.Wire.{WireCodec}
use planter_telemetry.Prelude.Floats.{Floats, lit}
use planter_telemetry.Prelude.{
  zero, append_assoc, ap, append-nil, arith, sym, length-append, ◌∙◌, take, map, ◌++◌, ℕ, Bool,
  true, false, if◌then◌else◌, List, [], ◌∷◌, ◌≡◌, ◌≤◌, ◌+◌, refl, inl, inr, Bool-cases, length, suc,
}

-- how many messages are published until the interrupt
abbrev handed_at : Interrupt → ℕ → ℕ
handed_at never later = suc later
handed_at sleeping later = 0
handed_at reporting later = 1

one_more : {A : Type 0} (xs : List A) (x : A) → length (xs ++ x ∷ []) ≡ length xs + 1
one_more xs x = length-append xs (x ∷ [])

take-nil : {A : Type 0} (n : ℕ) → take {A = A} n [] ≡ []
take-nil zero = refl
take-nil (suc n) = refl

module _ {F : Type 0} where
  unfoldable pub handed : List (Moment F) → ℕ
  handed [] = 0
  handed (m ∷ moments) = handed_at m.interrupt (handed moments)

  beat-published : (b : Bool) (s : Publishing F) → (beat b s).published ≡ s.published
  unfolding beat
  beat-published true s = refl
  beat-published false s = warned s.heartbeat_warned s
    where
      warned : (b : Bool) (s : Publishing F) → (warn_once b s).published ≡ s.published
      warned true s = refl
      warned false s = refl

  report-published : (a c t : Bool) (s : Publishing F) → (report a c t s).published ≡ s.published
  unfolding report
  report-published false c t s = refl
  report-published true true t s = beat-published t s
  report-published true false t s = refl

  -- A message is failed or logged at most once; the heartbeat is touched or warned of once at the start and
  -- at most once for each message that the client took; and it is warned of at most once.
  abbrev pub IsHonest : Publishing F → Type 0
  IsHonest s =
      s.publish_failed + s.publish_logged ≤ length s.published
      × s.heartbeats + s.heartbeat_failed ≤ s.publish_logged + 1
      × (s.heartbeat_failed ≡ (if s.heartbeat_warned then 1 else 0))

beat-IsHonest : (F : Type 0) (b : Bool) → IsHonest (beat b (nothing_done {F = F}))
unfolding beat
beat-IsHonest F true = (omega arith, omega arith, refl)
beat-IsHonest F false = (omega arith, omega arith, refl)

module _ {F : Type 0} ⦃fl : Floats F⦄ (acceleration : F) (anchor : ℕ) where
  pace-published :
      (e : Emission F) (elapsed : F) (s : Publishing F)
      → (pace acceleration anchor e elapsed s).published ≡ s.published
  unfolding pace
  pace-published e elapsed s =
      elim (Bool-cases (fl.lt (lit 0) (sleep_for acceleration anchor e elapsed))) [
        | inl b ↦ rw (b) refl
        | inr b ↦ rw (b) refl
      ]

  -- Nothing that the heartbeat says changes in a sleep.
  pace-IsHonest :
      (e : Emission F) (elapsed : F) (s : Publishing F)
      → IsHonest s
      → IsHonest (pace acceleration anchor e elapsed s)
  unfolding pace
  pace-IsHonest e elapsed s h =
      elim (Bool-cases (fl.lt (lit 0) (sleep_for acceleration anchor e elapsed))) [
        | inl b ↦ rw (b) h
        | inr b ↦ rw (b) h
      ]

module _ {F V : Type 0} ⦃fl : Floats F⦄ (w : WireCodec F V) (acceleration : F) (anchor : ℕ) where
  -- `report` behind `publish`
  report-IsHonest :
      (a c t : Bool) (e : Emission F) (s : Publishing F)
      → IsHonest s
      → IsHonest (report a c t (publish w e s))
  unfolding report publish beat
  report-IsHonest false c t e s h =
      (omega (arith, one_more s.published (message w e), h.0), h.1, h.2)
  report-IsHonest true false t e s h =
      (omega (arith, one_more s.published (message w e), h.0), omega (arith, h.1), h.2)
  report-IsHonest true true true e s h =
      (omega (arith, one_more s.published (message w e), h.0), omega (arith, h.1), h.2)
  report-IsHonest true true false e s h = go s.heartbeat_warned h.2
    where
      go :
          (b : Bool)
          → s.heartbeat_failed ≡ (if b then 1 else 0)
          → IsHonest (record (warn_once b (publish w e s)) {
            publish_logged = (warn_once b (publish w e s)).publish_logged + 1;
          })
      go true x = (omega (arith, one_more s.published (message w e), h.0), omega (arith, h.1), h.2)
      go false x = (
        omega (arith, one_more s.published (message w e), h.0),
        omega (arith, h.1, x),
        omega (arith, x),
      )

  publish-IsHonest : (e : Emission F) (s : Publishing F) → IsHonest s → IsHonest (publish w e s)
  unfolding publish
  publish-IsHonest e s h = (omega (arith, one_more s.published (message w e), h.0), h.1, h.2)

  publish_loop-published :
      (emissions : List (Emission F)) (moments : List (Moment F)) (s : Publishing F)
      → (publish_loop w acceleration anchor emissions moments s).published
        ≡ s.published ++ map (message w) (take (handed moments) emissions)
  unfolding publish_loop handed
  publish_loop-published [] [] s = sym (append-nil s.published)
  publish_loop-published [] (m ∷ moments) s =
      sym (append-nil s.published)
      ∙ ap (λ l. s.published ++ map (message w) l)
          (sym (take-nil (handed_at m.interrupt (handed moments))))
  publish_loop-published (e ∷ emissions) [] s = sym (append-nil s.published)
  publish_loop-published (e ∷ emissions) (m ∷ moments) s =
      go m.interrupt (publish_loop-published emissions moments)
    where
      go :
          (i : Interrupt)
          → ((t : Publishing F)
              → (publish_loop w acceleration anchor emissions moments t).published
                ≡ t.published ++ map (message w) (take (handed moments) emissions))
          → (turn w acceleration anchor e m i
              (publish_loop w acceleration anchor emissions moments)
              s).published
            ≡ s.published ++ map (message w) (take (handed_at i (handed moments)) (e ∷ emissions))
      go never rest =
          rest _
          ∙ ap (λ l. l ++ map (message w) (take (handed moments) emissions))
              (report-published m.accepted m.is_connected m.touches _
                ∙ ap (λ l. l ++ message w e ∷ [])
                    (pace-published acceleration anchor e m.elapsed s))
          ∙ append_assoc s.published (message w e ∷ []) _
      go sleeping rest =
          pace-published acceleration anchor e m.elapsed s ∙ sym (append-nil s.published)
      go reporting rest =
          ap (λ l. l ++ message w e ∷ []) (pace-published acceleration anchor e m.elapsed s)

  publish_loop-IsHonest :
      (emissions : List (Emission F)) (moments : List (Moment F)) (s : Publishing F)
      → IsHonest s
      → IsHonest (publish_loop w acceleration anchor emissions moments s)
  unfolding publish_loop
  publish_loop-IsHonest [] moments s h = h
  publish_loop-IsHonest (e ∷ emissions) [] s h = h
  publish_loop-IsHonest (e ∷ emissions) (m ∷ moments) s h =
      go m.interrupt (publish_loop-IsHonest emissions moments)
    where
      slept : IsHonest (pace acceleration anchor e m.elapsed s)
      slept = pace-IsHonest acceleration anchor e m.elapsed s h

      go :
          (i : Interrupt)
          → ((t : Publishing F)
              → IsHonest t
              → IsHonest (publish_loop w acceleration anchor emissions moments t))
          → IsHonest (
              turn w acceleration anchor e m i
                (publish_loop w acceleration anchor emissions moments)
                s)
      go never rest = rest _ (
          report-IsHonest m.accepted m.is_connected m.touches e
            (pace acceleration anchor e m.elapsed s) slept)
      go sleeping rest = slept
      go reporting rest = publish-IsHonest e (pace acceleration anchor e m.elapsed s) slept

  -- The publisher hands each due emission to the MQTT client exactly once and in the stream's order, up
  -- to the interrupt, with the payload of its corruption: neither a refused publish nor a file that
  -- cannot be touched stops it or repeats a message. It always stops and disconnects the client. A
  -- message is reported at most once, as failed or as published; the heartbeat file is touched or warned
  -- of at most once at the start and once for each message reported as published; and it is warned of at
  -- most once.
  pub run_publisher-IsHonest :
      (touches : Bool) (emissions : List (Emission F)) (moments : List (Moment F))
      → let s = run_publisher w acceleration anchor touches emissions moments in
        (s.published ≡ map (message w) (take (handed moments) emissions))
        × (s.is_closed ≡ true)
        × IsHonest s
  unfolding run_publisher
  run_publisher-IsHonest touches emissions moments = (
    publish_loop-published emissions moments _
        ∙ ap (λ l. l ++ map (message w) (take (handed moments) emissions))
            (beat-published touches nothing_done),
    refl,
    publish_loop-IsHonest emissions moments (beat touches nothing_done) (beat-IsHonest F touches),
  )
