-- ===== src/Migrations/Startup/Twice.antt =====
-- src/planter_telemetry/migrate.py: the migration, run again.
use planter_telemetry.Migrations.Startup.{
  Alembic, Attempt, Migrated, upgraded, waiting, unreachable, upgrade, upgrade_from, stamped,
  migrate, migrate_after, is_pre_alembic_m2, wait_for_db,
}
use planter_telemetry.Prelude.{
  ℕ, true, List, Option, none, some, Result, ok, raised, ◌≡◌, refl, inl, inr, Bool-cases, ap, ◌∙◌,
}

-- What Alembic documents of `upgrade head`: it leaves its version table, and at the head it does nothing.
pub record AlembicLaws {Db E : Type 0} (alembic : Alembic Db E) : Type 0 where
  pub versioned :
      (db db' : Db) → alembic.upgrade_head db ≡ (none, db') → alembic.has_version db' ≡ true
  pub at_head :
      (db db' : Db) → alembic.upgrade_head db ≡ (none, db') → alembic.upgrade_head db' ≡ (none, db')

module _ {Db E : Type 0} (alembic : Alembic Db E) (laws : AlembicLaws alembic) where
  upgrade_from-done :
      (x : Option E × Db) (db' : Db)
      → upgrade_from alembic x ≡ (none, db')
      → alembic.upgrade_head x.1 ≡ (none, db')
  upgrade_from-done (none, db) db' h = h
  upgrade_from-done (some e, db) db' h = cc

  versioned-stamped : (db : Db) → alembic.has_version db ≡ true → stamped alembic db ≡ (none, db)
  unfolding stamped is_pre_alembic_m2
  versioned-stamped db h = elim (Bool-cases (alembic.has_telemetry db)) [
    | inl e ↦ rw (e, h) refl
    | inr e ↦ rw (e) refl
  ]

  upgrade_twice :
      (connects : Option E) (db db' : Db)
      → upgrade alembic connects db ≡ (none, db')
      → upgrade alembic none db' ≡ (none, db')
  unfolding upgrade
  upgrade_twice none db db' h =
      let first = upgrade_from-done (stamped alembic db) db' h in
      let versioned = laws.versioned (stamped alembic db).1 db' first in
      rw (versioned-stamped db' versioned) (laws.at_head (stamped alembic db).1 db' first)
  upgrade_twice (some e) db db' h = cc

  -- A migration is safe to run again. After one that came to its end without an error, from a fresh
  -- database, from one of before Alembic, or from any revision, the next one that reaches the server
  -- raises nothing, stamps nothing and leaves the database as it is.
  migrate_twice :
      (start start' : ℕ) (attempts attempts' : List Attempt) (connects : Option E) (db db' : Db)
      → migrate alembic start attempts connects db ≡ upgraded none db'
      → wait_for_db start' 60000 attempts' ≡ some (ok tt)
      → migrate alembic start' attempts' none db' ≡ upgraded none db'
  unfolding migrate
  migrate_twice start start' attempts attempts' connects db db' h reached =
      go (wait_for_db start 60000 attempts) (upgrade alembic connects db) refl h
    where
      tried : Migrated Db E → Option E × Db
      tried (upgraded o d) = (o, d)
      tried waiting = (none, db)
      tried (unreachable r) = (none, db)

      go :
          (w : Option (Result (Unit {0}))) (x : Option E × Db)
          → upgrade alembic connects db ≡ x
          → migrate_after alembic w x ≡ upgraded none db'
          → migrate alembic start' attempts' none db' ≡ upgraded none db'
      go none x e m = cc
      go (some (raised r)) x e m = cc
      go (some (ok u)) (o, d) e m =
          let p : (o, d) ≡ (none, db') = ap tried m in
          let again : upgrade alembic none db' ≡ (none, db') =
            upgrade_twice connects db db' (e ∙ p) in
          rw (reached, again) refl
