-- ===== src/Analytics/Service/Silent/Jobs.antt =====
-- src/planter_telemetry/analytics/service.py: the forecasts of a pass, judged a second time.
use planter_telemetry.Analytics.Service.Silent.{
  events_of, SettledAt, SettledAt-Touches, apply_transition-Touches, apply_transition-SettledAt,
  SameAlerts, SameAlerts-refl, SameAlerts-trans, write_forecast-SameAlerts,
  apply_transition-SameAlerts, decided, decided-again,
}
use planter_telemetry.Analytics.Decision.{handle_alert, Settings, Run}
use planter_telemetry.Analytics.Service.Events.{state_in, Touches}
use planter_telemetry.Analytics.Pass.{write_forecast, write_and_alert, lookup_state, AlertStates}
use planter_telemetry.Analytics.Pass.Jobs.{Job, Apart, DistinctJobs, run_jobs}
use planter_telemetry.Analytics.Store.{AlertEvent}
use planter_telemetry.Analytics.Alert.{AlertState}
use planter_telemetry.Analytics.Model.{Forecast}
use planter_telemetry.Prelude.Floats.{Floats}
use planter_telemetry.Prelude.{Option, ◌⊎◌, ◌∙◌, none, ◌≡◌, Text, List, [], ◌∷◌, All, ap, sym}
use mathlib.Core.Path.{subst}

module _ {F : Type 0} ⦃fl : Floats F⦄ (settings : Settings F) (states : AlertStates) where
  abbrev Settled : List (AlertEvent F) → Job F → Type 0
  Settled events j =
      SettledAt j.0 j.1.0.kind (lookup_state j.0 j.1.0.kind states) events
        (decided settings j.1.0 j.1.1 (lookup_state j.0 j.1.0.kind states)) j.1.1.as_of
        j.1.1.crosses_at

  -- the pass has read the state that the events have
  abbrev IsUnread : List (AlertEvent F) → Job F → Type 0
  IsUnread events j = state_in events j.0 j.1.0.kind ≡ lookup_state j.0 j.1.0.kind states

  abbrev run_job : Job F → Run F → Run F
  run_job (d, (metric, fc)) s = write_and_alert settings d metric states fc s

  write_forecast-events :
      (d : Text) (fc : Forecast F) (s : Run F)
      → events_of (write_forecast settings d fc s) ≡ events_of s
  write_forecast-events d fc s = (write_forecast-SameAlerts settings d fc s).0

  run_job-Touches :
      (j : Job F) (s : Run F) → Touches j.0 j.1.0.kind (events_of s) (events_of (run_job j s))
  unfolding write_and_alert handle_alert
  run_job-Touches (d, (metric, fc)) s =
      subst (λ e. Touches d metric.kind e (events_of (run_job (d, (metric, fc)) s)))
        (write_forecast-events d fc s)
        (apply_transition-Touches settings d metric _ fc.as_of fc.crosses_at
          (write_forecast settings d fc s))

  run_job-Settled :
      (j : Job F) (s : Run F) → IsUnread (events_of s) j → Settled (events_of (run_job j s)) j
  unfolding write_and_alert handle_alert
  run_job-Settled (d, (metric, fc)) s h =
      apply_transition-SettledAt settings d metric (lookup_state d metric.kind states) _ fc.as_of
        fc.crosses_at (write_forecast settings d fc s)
        (ap (λ e. state_in e d metric.kind) (write_forecast-events d fc s) ∙ h)

  run_jobs-Settled_keeps :
      (q : Job F) (jobs : List (Job F)) (s : Run F)
      → All (Apart q) jobs
      → Settled (events_of s) q
      → Settled (events_of (run_jobs settings states jobs s)) q
  unfolding run_jobs
  run_jobs-Settled_keeps q [] s a h = h
  run_jobs-Settled_keeps q (j ∷ jobs) s a h = run_jobs-Settled_keeps q jobs (run_job j s) a.1 (
      SettledAt-Touches q.0 q.1.0.kind j.0 j.1.0.kind _ (events_of s) (events_of (run_job j s)) _ _
        _ (run_job-Touches j s) (a.0).0 h)

  -- Each forecast of the pass is settled when the pass ends.
  run_jobs-Settled :
      (jobs : List (Job F)) (s : Run F)
      → DistinctJobs jobs
      → All (IsUnread (events_of s)) jobs
      → All (Settled (events_of (run_jobs settings states jobs s))) jobs
  unfolding run_jobs
  run_jobs-Settled [] s d h = tt
  run_jobs-Settled (j ∷ jobs) s d h = (
    run_jobs-Settled_keeps j jobs (run_job j s) d.0 (run_job-Settled j s h.0),
    run_jobs-Settled jobs (run_job j s) d.1 (unread jobs d.0 h.1),
  )
    where
      unread :
          (l : List (Job F))
          → All (Apart j) l
          → All (IsUnread (events_of s)) l
          → All (IsUnread (events_of (run_job j s))) l
      unread [] a u = tt
      unread (q ∷ l) a u = ((run_job-Touches j s).1 q.0 q.1.0.kind (a.0).1 ∙ u.0, unread l a.1 u.1)

module _ {F : Type 0} ⦃fl : Floats F⦄ (settings : Settings F) (states states' : AlertStates) where
  run_job-SameAlerts :
      (j : Job F) (s : Run F)
      → Settled settings states (events_of s) j
      → state_in (events_of s) j.0 j.1.0.kind ≡ lookup_state j.0 j.1.0.kind states'
      → SameAlerts s (run_job settings states' j s)
  unfolding write_and_alert handle_alert
  run_job-SameAlerts (d, (metric, fc)) s h now =
      let x = decided settings metric fc (lookup_state d metric.kind states) in
      let y = λ (before : Option AlertState). decided settings metric fc before in
      let again : (y (lookup_state d metric.kind states') ≡ none)
          ⊎ (y (lookup_state d metric.kind states') ≡ x) =
        subst (λ before. (y before ≡ none) ⊎ (y before ≡ x)) now
          (decided-again settings d metric fc (lookup_state d metric.kind states) (events_of s)
            fc.as_of fc.crosses_at h) in
      SameAlerts-trans s (write_forecast settings d fc s)
        (write_and_alert settings d metric states' fc s) (write_forecast-SameAlerts settings d fc s)
        (apply_transition-SameAlerts settings d metric (lookup_state d metric.kind states)
          (decided settings metric fc (lookup_state d metric.kind states)) _ fc.as_of fc.crosses_at
          (write_forecast settings d fc s) again
          (subst
            (λ e.
              SettledAt d metric.kind (lookup_state d metric.kind states) e x fc.as_of
                fc.crosses_at)
            (sym (write_forecast-events settings states d fc s)) h))

  -- Judged again after the states that the events have, settled forecasts leave the alerts alone.
  run_jobs-SameAlerts :
      (jobs : List (Job F)) (s : Run F)
      → All (Settled settings states (events_of s)) jobs
      → All (IsUnread settings states' (events_of s)) jobs
      → SameAlerts s (run_jobs settings states' jobs s)
  unfolding run_jobs
  run_jobs-SameAlerts [] s h u = SameAlerts-refl s
  run_jobs-SameAlerts (j ∷ jobs) s h u =
      let same = run_job-SameAlerts j s h.0 u.0 in
      SameAlerts-trans s (run_job settings states' j s) (run_jobs settings states' (j ∷ jobs) s)
        same
        (run_jobs-SameAlerts jobs (run_job settings states' j s)
          (subst (λ e. All (Settled settings states e) jobs) (sym same.0) h.1)
          (subst (λ e. All (IsUnread settings states' e) jobs) (sym same.0) u.1))

module _ {F : Type 0} ⦃fl : Floats F⦄ (settings : Settings F) (states : AlertStates) where
  -- Judged again after the states that the events have, the forecasts of a pass leave the alerts alone.
  pub run_jobs_twice :
      (jobs : List (Job F)) (s t : Run F) (states' : AlertStates)
      → DistinctJobs jobs
      → ((d k : Text) → state_in (events_of s) d k ≡ lookup_state d k states)
      → events_of t ≡ events_of (run_jobs settings states jobs s)
      → ((d k : Text) → state_in (events_of t) d k ≡ lookup_state d k states')
      → SameAlerts t (run_jobs settings states' jobs t)
  run_jobs_twice jobs s t states' d u e v =
      run_jobs-SameAlerts settings states states' jobs t
        (subst (λ events. All (Settled settings states events) jobs) (sym e)
          (run_jobs-Settled settings states jobs s d (unread settings states s jobs u)))
        (unread settings states' t jobs v)
    where
      unread :
          (settings : Settings F) (states : AlertStates) (s : Run F) (l : List (Job F))
          → ((d k : Text) → state_in (events_of s) d k ≡ lookup_state d k states)
          → All (IsUnread settings states (events_of s)) l
      unread settings states s [] u = tt
      unread settings states s (q ∷ l) u = (u q.0 q.1.0.kind, unread settings states s l u)
