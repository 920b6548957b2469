-- ===== src/Analytics/Service/Stored.antt =====
-- src/planter_telemetry/analytics/service.py: a pass over the tables of the database, run again.
use planter_telemetry.Prelude.{
  sym, ap, ◌∙◌, ◌∷◌, [], List, Text, text_eq, All, false, ◌≡◌, some, none, Option, ℕ,
}
use planter_telemetry.Analytics.Service.{stored_pass, read_window, of_kinds, as_states, longest}
use planter_telemetry.Analytics.Window.{
  Collation, data_now, load_window, DeviceSeries, latest_alert_states, select_window,
}
use planter_telemetry.Analytics.Window.Grouped.{DistinctKeys, group_rows-DistinctKeys}
use planter_telemetry.Analytics.Pass.{
  ByKind, AlertStates, pass_at, assess_fleet, run_pass, metric_windows, metrics,
}
use planter_telemetry.Analytics.Pass.Keys.{DistinctKinds, DistinctDevices}
use planter_telemetry.Analytics.Pass.Twice.{pass_at-again, metric_windows-DistinctKinds, finish-run}
use planter_telemetry.Analytics.Pass.Jobs.{assess_fleet-Runs, jobs_fleet}
use planter_telemetry.Analytics.Pass.Jobs.Distinct.{jobs_fleet-Distinct}
use planter_telemetry.Analytics.Service.Silent.{SameAlerts, SameAlerts-refl}
use planter_telemetry.Analytics.Service.Silent.Jobs.{run_jobs_twice}
use planter_telemetry.Analytics.Model.{Metric}
use planter_telemetry.Analytics.Decision.{Counters, Run, Settings}
use planter_telemetry.Contract.Reading.{TelemetryV1}
use planter_telemetry.Prelude.{
  refl, inr, inl, [], Option-cases, ◌≡◌, some, none, ℕ, Option, Text, List,
}
use mathlib.Core.Path.{subst}
use planter_telemetry.Prelude.Floats.{Floats}

same_counters :
    (a b : Counters)
    → a.forecasts_written ≡ b.forecasts_written
    → a.alerts_fired ≡ b.alerts_fired
    → a.alerts_cleared ≡ b.alerts_cleared
    → a.notify_failures ≡ b.notify_failures
    → a ≡ b
same_counters a b w f c n = λ i. record {
  forecasts_written = w i;
  alerts_fired = f i;
  alerts_cleared = c i;
  notify_failures = n i;
}

module _ {F : Type 0} where
  of_kinds-DistinctDevices :
      (series : List (Text × DeviceSeries F))
      → DistinctKeys series
      → DistinctDevices (of_kinds series)
  of_kinds-DistinctDevices [] h = tt
  of_kinds-DistinctDevices ((d, v) ∷ series) h =
      (apart series h.0, of_kinds-DistinctDevices series h.1)
    where
      apart :
          (series : List (Text × DeviceSeries F))
          → All (λ (y : Text × DeviceSeries F). text_eq d y.0 ≡ false) series
          → All (λ (y : Text × ByKind F). text_eq d y.0 ≡ false) (of_kinds series)
      apart [] a = tt
      apart ((e, w) ∷ series) a = (a.0, apart series a.1)

module _ {F : Type 0} where
  abbrev events_states : Run F → AlertStates
  events_states s = as_states (latest_alert_states s.tables.alert_events [])

module _ {F : Type 0} ⦃fl : Floats F⦄ (before : Collation) (settings : Settings F) where
  read_window-DistinctDevices :
      (rows : List (TelemetryV1 F)) (ms : Option (List (Metric F × ℕ)))
      → DistinctDevices (read_window before settings rows ms)
  unfolding read_window load_window
  read_window-DistinctDevices rows none = tt
  read_window-DistinctDevices rows (some ms) =
      of_kinds-DistinctDevices (load_window before (longest ms) rows)
        (group_rows-DistinctKeys (select_window before (longest ms) rows) [] tt)

  window_pass :
      (now : ℕ) (rows : List (TelemetryV1 F)) (s t : Run F) (ms : Option (List (Metric F × ℕ)))
      → ((l : List (Metric F × ℕ)) → ms ≡ some l → DistinctKinds l)
      → let first =
          pass_at settings now (events_states s) (read_window before settings rows ms) ms s in
        t.tables.alert_events ≡ first.1.tables.alert_events
        → SameAlerts t
            (pass_at settings now (events_states t) (read_window before settings rows ms) ms t).1
  window_pass now rows s t none k e = SameAlerts-refl t
  window_pass now rows s t (some ms) k e =
      let window = read_window before settings rows (some ms) in
      let jobs = (jobs_fleet now ms window).1 in
      let ran = λ (r : Run F).
        finish-run now (assess_fleet settings now (events_states r) ms window r)
        ∙ ap (λ x. x.1) (assess_fleet-Runs settings (events_states r) now ms window r) in
      subst (SameAlerts t) (sym (ran t)) (
        run_jobs_twice settings (events_states s) jobs s t (events_states t)
          (jobs_fleet-Distinct now ms window (k ms refl)
            (read_window-DistinctDevices rows (some ms)))
          (λ d l. refl) (e ∙ ap (λ r. r.tables.alert_events) (ran s)) (λ d l. refl))

  -- A pass that reads its window and its alert states from the database is safe to run again while the
  -- table `telemetry` is unchanged: the second pass ends as the first did, leaves the forecasts table
  -- and the alert events as they were, counts nothing and sends no push, whatever the notifier would
  -- answer it.
  pub stored_pass_twice :
      (rows : List (TelemetryV1 F)) (s : Run F) (answers : List (Option Text))
      → let first = stored_pass before settings none rows s in
        let second =
          stored_pass before settings none rows (record (first.1) { answers = answers }) in
        (second.0 ≡ first.0)
        × (second.1.tables.forecasts ≡ first.1.tables.forecasts)
        × (second.1.tables.alert_events ≡ first.1.tables.alert_events)
        × (second.1.counters ≡ first.1.counters)
        × (second.1.pushed ≡ first.1.pushed)
  unfolding stored_pass run_pass
  stored_pass_twice rows s answers = elim (Option-cases (data_now rows)) [
    | inl e ↦ rw e (refl, refl, refl, refl, refl)
    | inr (now, e) ↦ rw e (again now)
  ]
    where
      again :
          (now : ℕ)
          → let ms = metric_windows settings now (metrics settings) in
            let first =
              pass_at settings now (events_states s) (read_window before settings rows ms) ms s in
            let t = record (first.1) { answers = answers } in
            let second =
              pass_at settings now (events_states t) (read_window before settings rows ms) ms t in
            (second.0 ≡ first.0)
            × (second.1.tables.forecasts ≡ first.1.tables.forecasts)
            × (second.1.tables.alert_events ≡ first.1.tables.alert_events)
            × (second.1.counters ≡ first.1.counters)
            × (second.1.pushed ≡ first.1.pushed)
      again now =
          let ms = metric_windows settings now (metrics settings) in
          let window = read_window before settings rows ms in
          let t = record ((pass_at settings now (events_states s) window ms s).1) {
            answers = answers;
          } in
          let (e, f, w) =
            pass_at-again settings now (events_states s) (events_states t) window ms s answers
              (read_window-DistinctDevices rows ms) (metric_windows-DistinctKinds settings now) in
          let (a, p, i, c, n) =
            window_pass now rows s t ms (metric_windows-DistinctKinds settings now) refl in
          (e, f, a, same_counters _ _ w i c n, p)
