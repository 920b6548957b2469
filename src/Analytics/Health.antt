-- ===== src/Analytics/Health.antt =====
-- src/planter_telemetry/analytics/ops.py: the answer of /healthz, over the flags and counters of the
-- polling loop.
use planter_telemetry.Analytics.Service.{HealthState, Loop, Turn, poll, passed, attempt, turn_step}
use planter_telemetry.Analytics.Service.Watermark.{turn_step-running, poll-was_running}
use planter_telemetry.Analytics.Service.Retry.{poll-append}
use planter_telemetry.Analytics.Window.{Collation}
use planter_telemetry.Analytics.Decision.{Run, Settings, Counters}
use planter_telemetry.Prelude.{
  raised, ok, refl, true, [], Result, text, false, ◌∷◌, if◌then◌else◌, Bool, some, ◌++◌, none, ◌&&◌,
  ℕ, Text, Option, List, ◌≡◌,
}
use planter_telemetry.Analytics.Store.{is_none}
use planter_telemetry.Prelude.Floats.{Floats, lit}

-- asdict(counters): those of the passes, and those of run
pub record AllCounters : Type 0 where
  pub passes : ℕ
  pub pass_failures : ℕ
  pub work : Counters

pub record HealthzBody (F : Type 0) : Type 0 where
  pub status : Text
  pub last_pass_ok : Bool
  pub seconds_since_last_pass : Option F
  pub counters : AllCounters

abbrev pub counters_of : {F : Type 0} → Loop F → AllCounters
counters_of s = record {
  passes = s.passes;
  pass_failures = s.pass_failures;
  work = s.work.counters;
}

module _ {F : Type 0} ⦃fl : Floats F⦄ where
  -- _OVERDUE_FACTOR and _OVERDUE_GRACE_SECONDS
  unfoldable pub overdue_after : F → F
  overdue_after interval_seconds = fl.add (fl.mul interval_seconds (lit 2)) (lit 30)

  abbrev seconds_since : F → Option F → Option F
  seconds_since now none = none
  seconds_since now (some at) = some (fl.sub now at)

  abbrev is_recent : F → Option F → Bool
  is_recent interval_seconds none = false
  is_recent interval_seconds (some seconds) = fl.le seconds (overdue_after interval_seconds)

  -- healthz_payload
  unfoldable pub healthz_payload : HealthState F → AllCounters → F → F → ℕ × HealthzBody F
  unfolding overdue_after
  healthz_payload health counters interval_seconds now =
      let since = seconds_since now health.last_pass_monotonic in
      let healthy = health.last_pass_ok && is_recent interval_seconds since in
      (
        if healthy then 200 else 503,
        record {
          status = if healthy then text "healthy" else text "unhealthy";
          last_pass_ok = health.last_pass_ok;
          seconds_since_last_pass = since;
          counters = counters;
        },
      )

module _ {F : Type 0} ⦃fl : Floats F⦄ (before : Collation) (settings : Settings F) where
  turn_step-health :
      (turn : Turn F) (s : Loop F)
      → s.crashed ≡ none
      → (turn_step before settings turn s).crashed ≡ none
      → (turn_step before settings turn s).health
        ≡ record { last_pass_ok = is_none turn.fault; last_pass_monotonic = some turn.ended }
  turn_step-health turn s run h =
      let e = turn_step-running before settings turn s run in rw e (go turn.fault (rw e at h))
    where
      of_pass :
          (x : Result (Option ℕ) × Run F)
          → (passed before settings turn s x).crashed ≡ none
          → (passed before settings turn s x).health
            ≡ record { last_pass_ok = true; last_pass_monotonic = some turn.ended }
      of_pass (ok w, r) c = refl
      of_pass (raised e, r) c = cc

      go :
          (fault : Option (Run F))
          → (attempt before settings turn fault s).crashed ≡ none
          → (attempt before settings turn fault s).health
            ≡ record { last_pass_ok = is_none fault; last_pass_monotonic = some turn.ended }
      go none c = of_pass _ c
      go (some left) c = refl

  -- After any turns, the last of them `turn`, /healthz answers 200 exactly if that turn had no fault
  -- and ended at most two intervals and the grace time ago, and 503 otherwise, unless an OverflowError
  -- has ended the loop.
  pub healthz_of_poll :
      (turns : List (Turn F)) (turn : Turn F) (s : Loop F) (interval_seconds now : F)
      → (poll before settings (turns ++ turn ∷ []) s).crashed ≡ none
      → let t = poll before settings (turns ++ turn ∷ []) s in
        (healthz_payload t.health (counters_of t) interval_seconds now).0 ≡ (
          if is_none turn.fault && fl.le (fl.sub now turn.ended) (overdue_after interval_seconds)
          then 200
          else 503)
  unfolding healthz_payload poll
  healthz_of_poll turns turn s interval_seconds now h =
      let left = poll before settings turns s in
      let e = poll-append before settings turns (turn ∷ []) s in
      let c : (turn_step before settings turn left).crashed ≡ none = rw e at h in
      rw (e, turn_step-health turn left (poll-was_running before settings (turn ∷ []) left c) c)
        refl
