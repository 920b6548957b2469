-- ===== src/Migrations/Startup.antt =====
-- src/planter_telemetry/migrate.py: wait_for_db, upgrade and main. What connects, the readings of
-- time.monotonic(), in milliseconds, and Alembic are parameters. sqlalchemy_url, the logs and the
-- settings are left out.
pub mod Twice
use planter_telemetry.Prelude.{
  not, ◌&&◌, ltb→lt, sym, ap, length, ℕ, Bool, true, false, if◌then◌else◌, List, [], ◌∷◌, ◌++◌,
  Option, none, some, Text, text, Result, ok, raised, Exn, operational_error, mqtt_error,
  overflow_error, ◌≡◌, ◌≤◌, ◌<◌, ◌+◌, ◌*◌, refl, All, inl, inr, Bool-cases, ltb, arith,
}

-- One turn of the loop: what psycopg.connect(dsn).close() does, and the clock behind it.
pub record Attempt : Type 0 where
  pub connects : Result (Unit {0})
  pub now : ℕ

-- behind the attempt; the last argument is what the further attempts come to
abbrev attempted :
    ℕ → Result (Unit {0}) → ℕ → Option (Result (Unit {0})) → Option (Result (Unit {0}))
attempted deadline (ok u) now rest = some (ok u)
attempted deadline (raised operational_error) now rest =
    if ltb deadline now then some (raised operational_error) else rest
attempted deadline (raised mqtt_error) now rest = some (raised mqtt_error)
attempted deadline (raised overflow_error) now rest = some (raised overflow_error)

-- `while True`: none, where it still waits behind the given attempts
unfoldable wait_until : ℕ → List Attempt → Option (Result (Unit {0}))
wait_until deadline [] = none
wait_until deadline (a ∷ rest) = attempted deadline a.connects a.now (wait_until deadline rest)

-- wait_for_db, called when the clock reads `start`
unfoldable pub wait_for_db : ℕ → ℕ → List Attempt → Option (Result (Unit {0}))
unfolding wait_until
wait_for_db start timeout attempts = wait_until (start + timeout) attempts

-- time.sleep(0.5)
abbrev delay : ℕ
delay = 500

-- BASELINE_REVISION
abbrev baseline_revision : Text
baseline_revision = text "0001"

-- What the module uses of the database and of Alembic: to_regclass of `telemetry` and of
-- `alembic_version`, and the commands stamp and upgrade to the head, each with the error that it raises.
pub record Alembic (Db E : Type 0) : Type 0 where
  pub has_telemetry : Db → Bool
  pub has_version : Db → Bool
  pub stamp : Text → Db → Option E × Db
  pub upgrade_head : Db → Option E × Db

-- how main ends: it still waits, the wait raised, or the upgrade was tried
pub data Migrated (Db E : Type 0) : Type 0 where
  waiting : Migrated Db E
  unreachable : Exn → Migrated Db E
  upgraded : Option E → Db → Migrated Db E

module _ {Db E : Type 0} (alembic : Alembic Db E) where
  unfoldable pub is_pre_alembic_m2 : Db → Bool
  is_pre_alembic_m2 db = alembic.has_telemetry db && not (alembic.has_version db)

  abbrev pub upgrade_from : Option E × Db → Option E × Db
  upgrade_from (none, db) = alembic.upgrade_head db
  upgrade_from (some e, db) = (some e, db)

  unfoldable pub stamped : Db → Option E × Db
  unfolding is_pre_alembic_m2
  stamped db = if is_pre_alembic_m2 db then alembic.stamp baseline_revision db else (none, db)

  -- `connects` is the error of psycopg.connect
  unfoldable pub upgrade : Option E → Db → Option E × Db
  unfolding stamped
  upgrade none db = upgrade_from (stamped db)
  upgrade (some e) db = (some e, db)

  abbrev pub migrate_after : Option (Result (Unit {0})) → Option E × Db → Migrated Db E
  migrate_after none tried = waiting
  migrate_after (some (raised e)) tried = unreachable e
  migrate_after (some (ok u)) tried = upgraded tried.0 tried.1

  -- main, with the timeout of 60 s
  unfoldable pub migrate : ℕ → List Attempt → Option E → Db → Migrated Db E
  unfolding wait_for_db upgrade
  migrate start attempts connects db =
      migrate_after (wait_for_db start 60000 attempts) (upgrade connects db)

-- Behind each attempt the clock reads at least what it read before, and the sleep takes its time.
abbrev IsPaced : ℕ → List Attempt → Type 0
IsPaced t [] = Unit
IsPaced t (a ∷ rest) = t ≤ a.now × IsPaced (a.now + delay) rest

-- The attempt was refused, and the deadline had not passed.
abbrev IsRefused : ℕ → Attempt → Type 0
IsRefused deadline a = (a.connects ≡ raised operational_error) × a.now ≤ deadline

-- the attempt that the loop ends with
abbrev EndsWith :
    ℕ → Option (Result (Unit {0})) → List Attempt → Attempt → List Attempt → List Attempt → Type 0
EndsWith deadline answer before a after attempts =
    (attempts ≡ before ++ a ∷ after)
    × All (IsRefused deadline) before
    × (answer ≡ some a.connects)
    × (a.connects ≡ raised operational_error → deadline < a.now)

-- some attempt that the loop ends with
abbrev pub Ends : ℕ → Option (Result (Unit {0})) → List Attempt → Type 0
Ends deadline answer attempts =
    (before : List Attempt) × (a : Attempt) × (after : List Attempt) × EndsWith deadline answer
      before a after attempts

Ends-now :
    (deadline : ℕ) (answer : Option (Result (Unit {0}))) (a : Attempt) (rest : List Attempt)
    → answer ≡ some a.connects
    → (a.connects ≡ raised operational_error → deadline < a.now)
    → Ends deadline answer (a ∷ rest)
Ends-now deadline answer a rest e late = ([], a, rest, (refl, tt, e, late))

Ends-later :
    (deadline : ℕ) (answer : Option (Result (Unit {0}))) (a : Attempt) (rest : List Attempt)
    → IsRefused deadline a
    → Ends deadline answer rest
    → Ends deadline answer (a ∷ rest)
Ends-later deadline answer a rest r (before, b, after, (e, all, ends, late)) =
    (a ∷ before, b, after, (ap (λ l. a ∷ l) e, (r, all), ends, late))

wait_until-Ends :
    (deadline t : ℕ) (attempts : List Attempt)
    → IsPaced t attempts
    → t ≤ deadline + delay
    → deadline + delay < t + delay * length attempts
    → Ends deadline (wait_until deadline attempts) attempts
unfolding wait_until
wait_until-Ends deadline t [] p h l = absurd (omega (arith, h, l))
wait_until-Ends deadline t (a ∷ rest) p h l =
    go a.connects refl (wait_until-Ends deadline (a.now + delay) rest p.1)
  where
    go :
        (c : Result (Unit {0}))
        → a.connects ≡ c
        → (a.now + delay ≤ deadline + delay
            → deadline + delay < a.now + delay + delay * length rest
            → Ends deadline (wait_until deadline rest) rest)
        → Ends deadline (attempted deadline c a.now (wait_until deadline rest)) (a ∷ rest)
    go (ok u) e later = Ends-now deadline _ a rest (ap some (sym e)) (λ x. cc)
    go (raised operational_error) e later = elim (Bool-cases (ltb deadline a.now)) [
      | inl late ↦
          rw (late) (Ends-now deadline _ a rest (ap some (sym e)) (λ x. ltb→lt deadline a.now late))
      | inr early ↦
          let due : a.now ≤ deadline = ground arith in
          rw (early) (
            Ends-later deadline _ a rest (e, due)
              (later (omega (arith, due)) (omega (arith, p.0, l))))
    ]
    go (raised mqtt_error) e later = Ends-now deadline _ a rest (ap some (sym e)) (λ x. cc)
    go (raised overflow_error) e later = Ends-now deadline _ a rest (ap some (sym e)) (λ x. cc)

-- wait_for_db ends. Where the clock does not run backwards and each sleep takes its half second, it
-- ends with one of the first attempts, as soon as their delays exceed the timeout and one more delay:
-- every attempt before that one was refused by the deadline; it answers as that one did; and an
-- OperationalError that it raises came from an attempt behind the deadline.
pub wait_for_db-Ends :
    (start timeout : ℕ) (attempts : List Attempt)
    → IsPaced start attempts
    → timeout + delay < delay * length attempts
    → Ends (start + timeout) (wait_for_db start timeout attempts) attempts
unfolding wait_for_db
wait_for_db-Ends start timeout attempts p l =
    wait_until-Ends (start + timeout) start attempts p (omega arith) (omega (arith, l))
