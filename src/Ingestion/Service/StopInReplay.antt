-- ===== src/Ingestion/Service/StopInReplay.antt =====
-- src/planter_telemetry/ingestion/service.py: the drain of the client's queue appends each message
-- to the end of `pending` and pops its head, which is another message if a stop has ended the
-- replay of pending messages early.
use planter_telemetry.Contract.Reading.{Pydantic}
use planter_telemetry.Ingestion.Core.{PyText}
use planter_telemetry.Ingestion.Service.{run}
use planter_telemetry.Ingestion.Service.Loss.{CleanRun, no_silent_loss}
use planter_telemetry.Ingestion.Session.Safe.{Safe}
use planter_telemetry.Ingestion.Session.{
  draining, after_handle, flushing, advance, replaying, start, Input, State, Settings,
}
use planter_telemetry.Ingestion.Handle.{handle_one, Item}
use planter_telemetry.Prelude.{sym, ap, ◌∙◌, ◌≢◌, All, refl, ◌++◌, ok, [], ◌∷◌, true, ◌≡◌, List}
use planter_telemetry.Ingestion.Db.{World, Fate}
use mathlib.Core.Path.{subst}
use planter_telemetry.Prelude.Floats.{Floats}

module _ {F : Type 0} where
  -- a stop has been requested while `pending` is replayed
  abbrev interrupted : State F → List Item → List Item → State F
  interrupted s pending messages = record s {
    phase = replaying;
    stop = true;
    pending = pending;
    messages = messages;
  }

  interrupted_self :
      (s : State F) (pending messages : List Item)
      → s.phase ≡ replaying
      → s.stop ≡ true
      → s.pending ≡ pending
      → s.messages ≡ messages
      → interrupted s pending messages ≡ s
  interrupted_self s pending messages f t p m =
      ap (λ phase. record s { phase = phase; stop = true; pending = pending; messages = messages })
        (sym f)
      ∙ ap (λ stop. record s { stop = stop; pending = pending; messages = messages }) (sym t)
      ∙ ap (λ l. record s { pending = l; messages = messages }) (sym p)
      ∙ ap (λ l. record s { messages = l }) (sym m)

-- The message is none of these.
abbrev pub IsAbsent : Item → List Item → Type 0
IsAbsent b items = All (λ x. x ≢ b) items

-- The message is one of these.
abbrev IsAmong : Item → List Item → Type 0
IsAmong b items = (before : List Item) × ((after : List Item) × (items ≡ before ++ b ∷ after))

IsAbsent-append :
    (b : Item) (xs ys : List Item) → IsAbsent b xs → IsAbsent b ys → IsAbsent b (xs ++ ys)
IsAbsent-append b [] ys h k = k
IsAbsent-append b (x ∷ xs) ys h k = (h.0, IsAbsent-append b xs ys h.1 k)

module _ {F : Type 0} where
  -- The final flush begins, and a message was acknowledged that has not been handled, is not pending,
  -- is not in the queue, and is not counted as dropped.
  abbrev pub IsLost : Item → State F → Type 0
  IsLost b s =
      (s.phase ≡ flushing)
      × IsAmong b s.acked
      × IsAbsent b s.settled
      × IsAbsent b s.pending
      × (s.messages ≡ [])
      × (s.dropped ≡ 0)

module _ {F : Type 0} ⦃fl : Floats F⦄ (pd : Pydantic F) (py : PyText) where
  -- the state after the drain has handled `c`
  abbrev drained : State F → List Item → Item → World F → State F
  drained s rest c w = record s {
    phase = draining;
    stop = true;
    pending = rest ++ c ∷ [];
    messages = [];
    settled = s.settled ++ c ∷ [];
    world = w;
  }

  -- The queued message is handled and pending, and of the pending ones the first is gone.
  abbrev Ends : State F → Item → List Item → State F → Type 0
  Ends s c rest s' =
      (s'.phase ≡ flushing)
      × (s'.pending ≡ rest ++ c ∷ [])
      × (s'.messages ≡ [])
      × (s'.acked ≡ s.acked)
      × (s'.settled ≡ s.settled ++ c ∷ [])
      × (s'.dropped ≡ s.dropped)

  drain_lem :
      (settings : Settings) (s : State F) (b c : Item) (rest : List Item) (fates : List Fate)
      → (handle_one pd py c (record (s.world) { fates = fates })).0 ≡ ok tt
      → run pd py settings (advance [] ∷ advance fates ∷ []) (interrupted s (b ∷ rest) (c ∷ []))
        ≡ drained s rest c (handle_one pd py c (record (s.world) { fates = fates })).1
  unfolding run
  drain_lem settings s b c rest fates h = rw (h, after_handle)

  end_lem :
      (settings : Settings) (s : State F) (c : Item) (rest : List Item) (w : World F)
      → Ends s c rest (run pd py settings (advance [] ∷ []) (drained s rest c w))
  unfolding run
  end_lem settings s c [] w = (refl, refl, refl, refl, refl, refl)
  end_lem settings s c (r ∷ rest) w = (refl, refl, refl, refl, refl, refl)

  interrupted-Ends :
      (settings : Settings) (s : State F) (b c : Item) (rest : List Item) (fates : List Fate)
      → (handle_one pd py c (record (s.world) { fates = fates })).0 ≡ ok tt
      → Ends s c rest (
          run pd py settings
            (advance [] ∷ advance fates ∷ advance [] ∷ [])
            (interrupted s (b ∷ rest) (c ∷ [])))
  unfolding run
  interrupted-Ends settings s b c rest fates h =
      subst (λ t. Ends s c rest (run pd py settings (advance [] ∷ []) t))
        (sym (drain_lem settings s b c rest fates h))
        (end_lem settings s c rest (handle_one pd py c (record (s.world) { fates = fates })).1)

  Ends-IsLost :
      (s s' : State F) (b c : Item) (rest : List Item)
      → Ends s c rest s'
      → IsAmong b s.acked
      → s.dropped ≡ 0
      → IsAbsent b s.settled
      → IsAbsent b (rest ++ c ∷ [])
      → c ≢ b
      → IsLost b s'
  Ends-IsLost s s' b c rest (f, p, m, a, t, d) among zero settled pending apart = (
    f,
    subst (IsAmong b) (sym a) among,
    subst (IsAbsent b) (sym t) (IsAbsent-append b s.settled (c ∷ []) settled (apart, tt)),
    subst (IsAbsent b) (sym p) pending,
    m,
    d ∙ zero,
  )

  -- A stop that falls into the replay of pending messages, with one more message `c` in the client's
  -- queue, loses the oldest pending message `b`, if that is neither `c` nor another pending message nor
  -- one that has been handled. After any clean run from the start to such a state, two steps that end
  -- the replay and handle `c`, which succeeds, and one that tears down the session lead to the final
  -- flush. There `b` was acknowledged, has not been handled, is neither pending nor in the queue, and no
  -- message is counted as dropped.
  pub stop_in_replay_loses :
      (settings : Settings) (w : World F) (inputs : List Input) (b c : Item) (rest : List Item)
      (fates : List Fate)
      → let s = run pd py settings inputs (start settings w) in
        CleanRun pd py settings inputs (start settings w)
        → s.phase ≡ replaying
        → s.stop ≡ true
        → s.pending ≡ b ∷ rest
        → s.messages ≡ c ∷ []
        → (handle_one pd py c (record (s.world) { fates = fates })).0 ≡ ok tt
        → c ≢ b
        → IsAbsent b rest
        → IsAbsent b s.settled
        → IsLost b (run pd py settings (advance [] ∷ advance fates ∷ advance [] ∷ []) s)
  stop_in_replay_loses settings w inputs b c rest fates clean f t p m h apart absent settled =
      let s = run pd py settings inputs (start settings w) in
      let inputs' = advance [] ∷ advance fates ∷ advance [] ∷ [] in
      let (kept, zero) : Safe replaying s =
        subst (λ phase. Safe phase s) f (no_silent_loss pd py settings w inputs clean) in
      let among : IsAmong b s.acked =
        (s.settled, (rest ++ s.messages, kept ∙ ap (λ l. s.settled ++ (l ++ s.messages)) p)) in
      subst (λ s'. IsLost b (run pd py settings inputs' s'))
        (interrupted_self s (b ∷ rest) (c ∷ []) f t p m)
        (Ends-IsLost s (run pd py settings inputs' (interrupted s (b ∷ rest) (c ∷ []))) b c rest
          (interrupted-Ends settings s b c rest fates h) among zero settled
          (IsAbsent-append b rest (c ∷ []) absent (apart, tt)) apart)
