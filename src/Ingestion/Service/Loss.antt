-- ===== src/Ingestion/Service/Loss.antt =====
-- src/planter_telemetry/ingestion/service.py: which acknowledged messages a run keeps. Everything
-- the broker counts as delivered has to be in the database, in `pending`, or in the client's queue.
use planter_telemetry.Prelude.{
  not, ◌&&◌, inr, inl, true, sym, ap, refl, ◌∙◌, ◌⊎◌, ◌∷◌, List, length, [], ◌++◌, ◌≡◌, arith,
}
use planter_telemetry.Ingestion.Handle.{handle_one, Item}
use planter_telemetry.Prelude.Floats.{Floats}
use planter_telemetry.Contract.Reading.{Pydantic}
use planter_telemetry.Ingestion.Core.{PyText}
use planter_telemetry.Ingestion.Service.{
  run, step, handle_flush, drain_step, flush_step, advance_in, replay_step, handle_in, take_message,
  wait_step,
}
use planter_telemetry.Ingestion.Db.{World, Fate}
use planter_telemetry.Ingestion.Handle.Effects.{handle_one-ne-broker}
use planter_telemetry.Ingestion.Session.Safe.{
  react-IsSafe, Safe-flags, after_flush-IsSafe, Safe-arrive, Quiet-lost, Kept-take, caught-IsSafe,
  Quiet-acked, after_handle-IsSafe, loop_test-IsSafe, if-IsSafe, Quiet, Clean, Safe, Kept, IsSafe,
}
use planter_telemetry.Ingestion.Session.{
  is_listening, start, lose_broker, request_stop, arrive, Settings, fail_broker, advance, Input,
  tear_down, closed, draining, waiting, consuming, replaying, subscribing, flushing, backing_off,
  connecting, crashed, Phase, State,
}

module _ {F : Type 0} ⦃fl : Floats F⦄ (pd : Pydantic F) (py : PyText) where
  handle_in-IsSafe :
      (next : Phase) (item : Item) (fates : List Fate) (s : State F) (rest : List Item)
      → s.pending ≡ item ∷ rest
      → Kept s
      → s.dropped ≡ 0
      → (next ≡ replaying) ⊎ (rest ≡ []) × ((next ≡ consuming) ⊎ (next ≡ draining))
      → IsSafe (handle_in pd py next item fates s)
  unfolding handle_in
  handle_in-IsSafe next item fates s rest p k d h =
      let w = record (s.world) { fates = fates } in
      after_handle-IsSafe item next (handle_one pd py item w).0
        (record s { world = (handle_one pd py item w).1 }) rest p k d
        (handle_one-ne-broker pd py item w) h

  take_message-IsSafe :
      (next : Phase) (item : Item) (rest : List Item) (fates : List Fate) (s : State F)
      → s.messages ≡ item ∷ rest
      → Kept s
      → s.pending ≡ []
      → s.dropped ≡ 0
      → (next ≡ consuming) ⊎ (next ≡ draining)
      → IsSafe (take_message pd py next item rest fates s)
  unfolding take_message
  take_message-IsSafe next item rest fates s m k p d h =
      handle_in-IsSafe next item fates
        (record s { messages = rest; pending = s.pending ++ item ∷ [] }) []
        (ap (λ (l : List Item). l ++ item ∷ []) p) (Kept-take item rest s m k) d (inr (refl, h))

  replay_step-IsSafe :
      (pending : List Item) (fates : List Fate) (s : State F)
      → s.pending ≡ pending
      → Kept s
      → s.dropped ≡ 0
      → (s.stop ≡ true → s.pending ≡ [])
      → IsSafe (replay_step pd py pending fates s)
  unfolding replay_step
  replay_step-IsSafe [] fates s p k d c = (k, p, d)
  replay_step-IsSafe (item ∷ rest) fates s p k d c =
      if-IsSafe s.stop _ _ (λ e. cc (p, c e))
        (λ _. handle_in-IsSafe replaying item fates s rest p k d (inl refl))

  wait_step-IsSafe :
      (messages : List Item) (fates : List Fate) (s : State F)
      → s.messages ≡ messages
      → s.phase ≡ waiting
      → Kept s
      → s.pending ≡ []
      → s.dropped ≡ 0
      → IsSafe (wait_step pd py messages fates s)
  unfolding wait_step fail_broker
  wait_step-IsSafe (item ∷ rest) fates s m w k p d =
      take_message-IsSafe consuming item rest fates s m k p d (inl refl)
  wait_step-IsSafe [] fates s m w k p d =
      ground (arith, caught-IsSafe (tear_down s) (Quiet-lost s m k d))

  drain_step-IsSafe :
      (messages : List Item) (fates : List Fate) (s : State F)
      → s.messages ≡ messages
      → Kept s
      → s.pending ≡ []
      → s.dropped ≡ 0
      → IsSafe (drain_step pd py messages fates s)
  unfolding drain_step
  drain_step-IsSafe (item ∷ rest) fates s m k p d =
      take_message-IsSafe draining item rest fates s m k p d (inr refl)
  drain_step-IsSafe [] fates s m k p d = loop_test-IsSafe (tear_down s) (Quiet-lost s m k d)

  flush_step-IsSafe :
      (pending : List Item) (fates : List Fate) (s : State F)
      → s.pending ≡ pending
      → s.phase ≡ flushing
      → Quiet s
      → IsSafe (flush_step pd py pending fates s)
  unfolding flush_step handle_flush
  flush_step-IsSafe [] fates s p f q = (Quiet-acked s q, q.2 ∙ sym (ap length p))
  flush_step-IsSafe (item ∷ rest) fates s p f q =
      let w = record (s.world) { fates = fates } in
      after_flush-IsSafe item (handle_one pd py item w).0
        (record s { world = (handle_one pd py item w).1 }) rest f p q

  advance_in-IsSafe :
      (phase : Phase) (fates : List Fate) (s : State F)
      → s.phase ≡ phase
      → Safe phase s
      → Clean phase (advance fates) s
      → IsSafe (advance_in pd py phase fates s)
  unfolding advance_in
  advance_in-IsSafe connecting fates s f h c = rw f h
  advance_in-IsSafe subscribing fates s f h c = rw f h
  advance_in-IsSafe replaying fates s f h c = replay_step-IsSafe s.pending fates s refl h.0 h.1 c
  advance_in-IsSafe consuming fates s f h c = ground arith
  advance_in-IsSafe waiting fates s f h c = wait_step-IsSafe s.messages fates s refl f h.0 h.1 h.2
  advance_in-IsSafe draining fates s f h c = drain_step-IsSafe s.messages fates s refl h.0 h.1 h.2
  advance_in-IsSafe backing_off fates s f h c = rw f h
  advance_in-IsSafe flushing fates s f h c = flush_step-IsSafe s.pending fates s refl f h
  advance_in-IsSafe closed fates s f h c = rw f h
  advance_in-IsSafe (crashed e) fates s f h c = rw f h

  step-IsSafe :
      (settings : Settings) (input : Input) (s : State F)
      → IsSafe s
      → Clean s.phase input s
      → IsSafe (step pd py settings input s)
  unfolding step
  step-IsSafe settings (arrive item) s h c =
      if-IsSafe (is_listening s.phase && not s.broker_lost) _ _
        (λ e. Safe-arrive item s.phase s (ground arith) h) (λ _. h)
  step-IsSafe settings request_stop s h c = Safe-flags true s.broker_lost s.phase s h
  step-IsSafe settings lose_broker s h c =
      if-IsSafe (is_listening s.phase) _ _ (λ _. Safe-flags s.stop true s.phase s h) (λ _. h)
  step-IsSafe settings (advance fates) s h c = advance_in-IsSafe s.phase fates s refl h c
  step-IsSafe settings input s h c = react-IsSafe settings s.phase input s refl h c

  -- Every step of the run is clean.
  abbrev pub CleanRun : Settings → List Input → State F → Type 0
  CleanRun settings [] s = Unit
  CleanRun settings (input ∷ inputs) s =
      Clean s.phase input s × CleanRun settings inputs (step pd py settings input s)

  run-IsSafe :
      (settings : Settings) (inputs : List Input) (s : State F)
      → IsSafe s
      → CleanRun settings inputs s
      → IsSafe (run pd py settings inputs s)
  unfolding run
  run-IsSafe settings [] s h c = h
  run-IsSafe settings (input ∷ inputs) s h c =
      run-IsSafe settings inputs (step pd py settings input s) (step-IsSafe settings input s h c.0)
        c.1

  start-IsSafe : (settings : Settings) (w : World F) → IsSafe (start settings w)
  unfolding start
  start-IsSafe settings w = (refl, refl, refl)

  -- Whatever the messages, the lost connections and the fates of the statements: if no stop falls
  -- into a replay of pending messages and no subscription fails with messages in the queue, then in
  -- every phase the service keeps the messages that it acknowledged. Those that were not handled
  -- are pending or in the client's queue, in the order of their arrival; once the service has
  -- closed, the count that it reported as dropped is that of the messages still pending. Nothing is
  -- said of a service that an OverflowError has crashed.
  pub no_silent_loss :
      (settings : Settings) (w : World F) (inputs : List Input)
      → CleanRun settings inputs (start settings w)
      → let s = run pd py settings inputs (start settings w) in Safe s.phase s
  no_silent_loss settings w inputs c =
      run-IsSafe settings inputs (start settings w) (start-IsSafe settings w) c
