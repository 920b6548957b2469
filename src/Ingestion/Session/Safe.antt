-- ===== src/Ingestion/Session/Safe.antt =====
-- src/planter_telemetry/ingestion/service.py: the invariant on acknowledged messages, and how the
-- exits and tests of run keep it.
use planter_telemetry.Prelude.{
  if◌then◌else◌, ◌*◌, false, Bool, true, append_assoc, sym, ap, refl, ◌∙◌, ◌≢◌, raised, ok, ◌⊎◌,
  ◌∷◌, List, Result, append-nil, length, [], ◌++◌, ◌≡◌, arith,
}
use planter_telemetry.Ingestion.Handle.{Item}
use planter_telemetry.Prelude.Results.{overflow_error, mqtt_error, operational_error}
use planter_telemetry.Ingestion.Service.{react}
use planter_telemetry.Ingestion.Session.{
  is_listening, flush_failed, backoff_over, subscribe_made, connect_failed, connect_made, min_ms,
  Settings, subscribe_failed, advance, after_flush, Input, pop, salvage_queue, tear_down,
  after_handle, closed, draining, waiting, consuming, replaying, subscribing, flushing, backing_off,
  connecting, crashed, Phase, leave_loop, caught, State, loop_test,
}

module _ {F : Type 0} where
  -- In the order of their arrival, the acknowledged messages are those that were handled, then
  -- those that are pending, then those in the client's queue.
  abbrev pub Kept : State F → Type 0
  Kept s = s.acked ≡ s.settled ++ (s.pending ++ s.messages)

  abbrev pub Quiet : State F → Type 0
  Quiet s = Kept s × (s.messages ≡ []) × (s.dropped ≡ 0)

  -- The invariant of each phase. A crash drops the queue, so nothing is said of it.
  abbrev pub Safe : Phase → State F → Type 0
  Safe connecting s = Quiet s
  Safe backing_off s = Quiet s
  Safe flushing s = Quiet s
  Safe subscribing s = Kept s × (s.dropped ≡ 0)
  Safe replaying s = Kept s × (s.dropped ≡ 0)
  Safe consuming s = Kept s × (s.pending ≡ []) × (s.dropped ≡ 0)
  Safe waiting s = Kept s × (s.pending ≡ []) × (s.dropped ≡ 0)
  Safe draining s = Kept s × (s.pending ≡ []) × (s.dropped ≡ 0)
  Safe closed s = (s.acked ≡ s.settled ++ s.pending) × (s.dropped ≡ length s.pending)
  Safe (crashed e) s = Unit

  abbrev pub IsSafe : State F → Type 0
  IsSafe s = Safe s.phase s

  pub if-IsSafe :
      (b : Bool) (x y : State F)
      → (b ≡ true → IsSafe x)
      → (b ≡ false → IsSafe y)
      → IsSafe (if b then x else y)
  if-IsSafe true x y hx hy = hx refl
  if-IsSafe false x y hx hy = hy refl

  leave_loop-IsSafe : (s : State F) → Quiet s → IsSafe (leave_loop s)
  unfolding leave_loop
  leave_loop-IsSafe s h = ground (arith, append-nil s.pending)

  pub loop_test-IsSafe : (s : State F) → Quiet s → IsSafe (loop_test s)
  unfolding loop_test
  loop_test-IsSafe s h = ground (arith, leave_loop-IsSafe s)

  pub caught-IsSafe : (s : State F) → Quiet s → IsSafe (caught s)
  unfolding caught
  caught-IsSafe s h = ground (arith, leave_loop-IsSafe s)

  Kept-pop :
      (item : Item) (s : State F) (rest : List Item)
      → s.pending ≡ item ∷ rest
      → Kept s
      → s.acked ≡ (s.settled ++ item ∷ []) ++ (pop s.pending ++ s.messages)
  Kept-pop item s rest p k =
      k
      ∙ ap (λ (l : List Item). s.settled ++ (l ++ s.messages)) p
      ∙ sym (append_assoc s.settled (item ∷ []) (rest ++ s.messages))
      ∙ ap (λ (l : List Item). (s.settled ++ item ∷ []) ++ (l ++ s.messages)) (sym (ap pop p))

  Quiet-salvage : (s : State F) → Kept s → s.dropped ≡ 0 → Quiet (tear_down (salvage_queue s))
  unfolding tear_down salvage_queue
  Quiet-salvage s k d = ground (arith, append-nil (s.pending ++ s.messages))

  pub after_handle-IsSafe :
      (item : Item) (next : Phase) (res : Result (Unit {0})) (s : State F) (rest : List Item)
      → s.pending ≡ item ∷ rest
      → Kept s
      → s.dropped ≡ 0
      → res ≢ raised mqtt_error
      → (next ≡ replaying) ⊎ (rest ≡ []) × ((next ≡ consuming) ⊎ (next ≡ draining))
      → IsSafe (after_handle item next res s)
  unfolding after_handle
  after_handle-IsSafe item next (ok u) s rest p k d n h = ground (arith, Kept-pop item s rest p k)
  after_handle-IsSafe item next (raised operational_error) s rest p k d n h =
      caught-IsSafe (tear_down (salvage_queue s)) (Quiet-salvage s k d)
  after_handle-IsSafe item next (raised mqtt_error) s rest p k d n h = absurd (n refl)
  after_handle-IsSafe item next (raised overflow_error) s rest p k d n h = tt

  pub Quiet-acked : (s : State F) → Quiet s → s.acked ≡ s.settled ++ s.pending
  Quiet-acked s q = ground (arith, append-nil s.pending)

  pub Quiet-lost : (s : State F) → s.messages ≡ [] → Kept s → s.dropped ≡ 0 → Quiet (tear_down s)
  unfolding tear_down
  Quiet-lost s m k d = (k ∙ ap (λ (l : List Item). s.settled ++ (s.pending ++ l)) m, refl, d)

  pub Kept-take :
      (item : Item) (rest : List Item) (s : State F)
      → s.messages ≡ item ∷ rest
      → Kept s
      → s.acked ≡ s.settled ++ ((s.pending ++ item ∷ []) ++ rest)
  Kept-take item rest s m k =
      k
      ∙ ap (λ (l : List Item). s.settled ++ (s.pending ++ l)) m
      ∙ ap (λ (l : List Item). s.settled ++ l) (sym (append_assoc s.pending (item ∷ []) rest))

  pub after_flush-IsSafe :
      (item : Item) (res : Result (Unit {0})) (s : State F) (rest : List Item)
      → s.phase ≡ flushing
      → s.pending ≡ item ∷ rest
      → Quiet s
      → IsSafe (after_flush item res s)
  unfolding after_flush
  after_flush-IsSafe item (ok u) s rest f p q = rw f (Kept-pop item s rest p q.0, q.1, q.2)
  after_flush-IsSafe item (raised e) s rest f p q = (Quiet-acked s q, refl)

  Kept-arrive :
      (item : Item) (s : State F)
      → Kept s
      → Kept (record s { messages = s.messages ++ item ∷ []; acked = s.acked ++ item ∷ [] })
  Kept-arrive item s k =
      ap (λ (l : List Item). l ++ item ∷ []) k
      ∙ append_assoc s.settled (s.pending ++ s.messages) (item ∷ [])
      ∙ ap (λ (l : List Item). s.settled ++ l) (append_assoc s.pending s.messages (item ∷ []))

  pub Safe-arrive :
      (item : Item) (phase : Phase) (s : State F)
      → is_listening phase ≡ true
      → Safe phase s
      → Safe phase (record s { messages = s.messages ++ item ∷ []; acked = s.acked ++ item ∷ [] })
  unfolding is_listening
  Safe-arrive item subscribing s l h = (Kept-arrive item s h.0, h.1)
  Safe-arrive item replaying s l h = (Kept-arrive item s h.0, h.1)
  Safe-arrive item consuming s l h = (Kept-arrive item s h.0, h.1, h.2)
  Safe-arrive item waiting s l h = (Kept-arrive item s h.0, h.1, h.2)
  Safe-arrive item draining s l h = (Kept-arrive item s h.0, h.1, h.2)
  Safe-arrive item _ s l h = cc

  -- Neither flag is read by the invariant.
  pub Safe-flags :
      (stop lost : Bool) (phase : Phase) (s : State F)
      → Safe phase s
      → Safe phase (record s { stop = stop; broker_lost = lost })
  Safe-flags stop lost connecting s h = h
  Safe-flags stop lost (crashed e) s h = tt
  Safe-flags stop lost _ s h = h

  -- What `Safe` needs of a step: that no stop falls into the replay of pending messages, and that
  -- no message has arrived when a subscription fails.
  abbrev pub Clean : Phase → Input → State F → Type 0
  Clean replaying (advance fates) s = s.stop ≡ true → s.pending ≡ []
  Clean subscribing subscribe_failed s = s.messages ≡ []
  Clean phase input s = Unit

  pub react-IsSafe :
      (settings : Settings) (phase : Phase) (input : Input) (s : State F)
      → s.phase ≡ phase
      → Safe phase s
      → Clean phase input s
      → IsSafe (react settings phase input s)
  unfolding react
  react-IsSafe settings connecting connect_made s f h c = (h.0, h.2)
  react-IsSafe settings connecting connect_failed s f h c =
      caught-IsSafe (tear_down s) (Quiet-lost s h.1 h.0 h.2)
  react-IsSafe settings subscribing subscribe_made s f h c = h
  react-IsSafe settings subscribing subscribe_failed s f h c =
      caught-IsSafe (tear_down s) (Quiet-lost s c h.0 h.1)
  react-IsSafe settings backing_off backoff_over s f h c =
      loop_test-IsSafe (record s { backoff = min_ms (s.backoff * 2) settings.reconnect_max }) h
  react-IsSafe settings flushing flush_failed s f h c = (Quiet-acked s h, refl)
  react-IsSafe settings _ _ s f h c = rw f h
