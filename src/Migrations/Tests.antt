-- ===== src/Migrations/Tests.antt =====
-- Runs of the gate: the schema is the list of the versions whose SQL ran, and the SQL of the
-- version 3 fails half-way.
use slotnova.Base.{ℕ, ◌≡◌, refl, Bool, true, false, not, none, some, List, [], ◌∷◌, ◌==◌}
use slotnova.Base.Lists.{All}
use slotnova.Base.Outcome.{err, ok}
use slotnova.Base.Rows.{find}
use slotnova.Migrations.{
  MigrationFile, AppliedMigration, Database, MigrationError, record_of, record_migration,
  first_missing, up_to, run_files, run_migrations,
}
use slotnova.Migrations.Rerun.{IsRecorded, run_migrations_again}

abbrev file : ℕ → Bool → MigrationFile
file version run_in_transaction = record {
  version = version;
  name = version;
  checksum = version;
  run_in_transaction = run_in_transaction;
}

abbrev execute : MigrationFile → List ℕ → Bool × List ℕ
execute m schema = (not (m.version == 3), m.version ∷ schema)

abbrev database : List ℕ → List AppliedMigration → Database (List ℕ)
database schema records = record { schema = schema; records = records }

abbrev files : List MigrationFile
files = file 1 true ∷ file 2 false ∷ file 3 true ∷ []

abbrev both : List AppliedMigration
both = record_of (file 2 false) ∷ record_of (file 1 true) ∷ []

run_to_two : run_migrations execute files (some 2) (database [] []) ≡ (
  ok (record { applied = file 1 true ∷ file 2 false ∷ []; skipped = [] }),
  database (2 ∷ 1 ∷ []) both,
)
unfolding run_migrations run_files first_missing record_migration find
run_to_two = refl

-- The third fails, and is rolled back; what ran before it stays.
run_to_three :
    run_migrations execute files none (database [] [])
    ≡ (err (MigrationError.failed 3), database (2 ∷ 1 ∷ []) both)
unfolding run_migrations run_files first_missing record_migration find
run_to_three = refl

-- Outside a transaction, what it did stays.
run_partially :
    run_migrations execute (file 3 false ∷ []) none (database [] [])
    ≡ (err (MigrationError.partially_applied 3), database (3 ∷ []) [])
unfolding run_migrations run_files first_missing record_migration find
run_partially = refl

run_missing :
    run_migrations execute [] none (database [] both)
    ≡ (err (MigrationError.missing_file 2), database [] both)
unfolding run_migrations first_missing
run_missing = refl

run_migrations_again_example :
    ((skipped : List AppliedMigration) × (run_migrations execute files
          (some 2)
          (database (2 ∷ 1 ∷ []) both)
        ≡ (ok (record { applied = []; skipped = skipped }), database (2 ∷ 1 ∷ []) both)))
    × All (IsRecorded both) (up_to (some 2) files)
unfolding run_migrations run_files first_missing record_migration find
run_migrations_again_example =
    run_migrations_again execute files (some 2) (database [] [])
      {result = record { applied = file 1 true ∷ file 2 false ∷ []; skipped = [] }}
      {after = database (2 ∷ 1 ∷ []) both} refl
