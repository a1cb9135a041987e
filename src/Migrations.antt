-- ===== src/Migrations.antt =====
-- The gate on the database's migrations: `runMigrations` and `getPendingMigrations` of
-- packages/db/src/migrate.ts, given the files of the directory in their order. A version is a
-- number, its place in the order of versions, and a checksum is one too. What a file's SQL does to
-- the schema is a parameter: whether it succeeds, and the schema that it leaves.
pub mod Rerun
mod Tests
use slotnova.Base.{
  ℕ, Bool, true, false, not, ◌&&◌, Option, none, some, List, [], ◌∷◌, leb, ◌==◌, if◌then◌else◌,
  is_some,
}
use slotnova.Base.Lists.{any, filter}
use slotnova.Base.Outcome.{Result, err, ok}
use slotnova.Base.Rows.{find}

pub record MigrationFile : Type 0 where
  pub version : ℕ
  pub name : ℕ
  pub checksum : ℕ
  pub run_in_transaction : Bool

pub record AppliedMigration : Type 0 where
  pub version : ℕ
  pub name : ℕ
  pub checksum : ℕ

pub record MigrateResult : Type 0 where
  pub applied : List MigrationFile
  pub skipped : List AppliedMigration

-- The schema and the table `schema_migrations`.
pub record Database (S : Type 0) : Type 0 where
  pub schema : S
  pub records : List AppliedMigration

pub data MigrationError : Type 0 where
  missing_file modified failed partially_applied : ℕ → MigrationError

abbrev pub find_record : ℕ → List AppliedMigration → Option AppliedMigration
find_record version records = find (λ r. r.version == version) records

abbrev pub has_file : List MigrationFile → ℕ → Bool
has_file files version = any (λ m. m.version == version) files

abbrev pub record_of : MigrationFile → AppliedMigration
record_of m = record { version = m.version; name = m.name; checksum = m.checksum }

-- `recordMigration`, which the primary key refuses for a version that is recorded.
abbrev pub inserted :
    MigrationFile → List AppliedMigration → Option AppliedMigration → Option (List AppliedMigration)
inserted m records (some r) = none
inserted m records none = some (record_of m ∷ records)

unfoldable pub record_migration :
    MigrationFile → List AppliedMigration → Option (List AppliedMigration)
record_migration m records = inserted m records (find_record m.version records)

-- The versions that are recorded and have no file any more, the first of them.
unfoldable pub first_missing : List MigrationFile → List AppliedMigration → Option ℕ
first_missing files [] = none
first_missing files (r ∷ rs) =
    let rest = first_missing files rs in if has_file files r.version then rest else some r.version

-- The files up to the target, which is included.
abbrev pub up_to : Option ℕ → List MigrationFile → List MigrationFile
up_to none files = files
up_to (some target) files = filter (λ m. leb m.version target) files

module _ {S : Type 0} (execute : MigrationFile → S → Bool × S) where
  abbrev pub Outcome : Type 0
  Outcome = Result MigrationError MigrateResult × Database S

  abbrev pub recorded :
      MigrationFile
      → Database S
      → S
      → Option (List AppliedMigration)
      → Result MigrationError (Database S)
  recorded m db schema none = err (failed m.version)
  recorded m db schema (some records) = ok (record { schema = schema; records = records })

  -- The execution and the recording of one file. In a transaction both are rolled back when one of
  -- them fails; else what the SQL did stays.
  abbrev pub apply_executed :
      MigrationFile → Database S → Bool × S → Result MigrationError (Database S)
  apply_executed m db (true, schema) = recorded m db schema (record_migration m db.records)
  apply_executed m db (false, schema) = err (failed m.version)

  abbrev pub apply_file : MigrationFile → Database S → Result MigrationError (Database S)
  apply_file m db = apply_executed m db (execute m db.schema)

  abbrev pub left_by : MigrationFile → Database S → Database S
  left_by m db =
      if m.run_in_transaction
      then db
      else record { schema = (execute m db.schema).1; records = db.records }

  abbrev pub error_of : MigrationFile → MigrationError
  error_of m = if m.run_in_transaction then failed m.version else partially_applied m.version

  abbrev pub skipping : AppliedMigration → Outcome → Outcome
  skipping r (err e, db) = (err e, db)
  skipping r (ok result, db) =
      (ok (record { applied = result.applied; skipped = r ∷ result.skipped }), db)

  abbrev pub applying : MigrationFile → Outcome → Outcome
  applying m (err e, db) = (err e, db)
  applying m (ok result, db) =
      (ok (record { applied = m ∷ result.applied; skipped = result.skipped }), db)

  abbrev pub after_file :
      MigrationFile
      → Database S
      → Result MigrationError (Database S)
      → (Database S → Outcome)
      → Outcome
  after_file m db (err e) rest = (err (error_of m), left_by m db)
  after_file m db (ok after) rest = applying m (rest after)

  -- One file, given the record that it had when the run started, and the files after it.
  abbrev pub run_file :
      MigrationFile → Database S → Option AppliedMigration → (Database S → Outcome) → Outcome
  run_file m db none rest = after_file m db (apply_file m db) rest
  run_file m db (some r) rest =
      let skipped = skipping r (rest db) in
      if r.checksum == m.checksum then skipped else (err (modified m.version), db)

  -- The loop over the pending files; the records are those that the run has read at its start.
  unfoldable pub run_files : List AppliedMigration → List MigrationFile → Database S → Outcome
  run_files records [] db = (ok (record { applied = []; skipped = [] }), db)
  run_files records (m ∷ ms) db =
      run_file m db (find_record m.version records) (run_files records ms)

  abbrev pub run_gate : List MigrationFile → Database S → Option ℕ → Outcome
  run_gate pending db (some version) = (err (missing_file version), db)
  run_gate pending db none = run_files db.records pending db

  -- `runMigrations`.
  unfoldable pub run_migrations : List MigrationFile → Option ℕ → Database S → Outcome
  run_migrations files target db = run_gate (up_to target files) db (first_missing files db.records)

-- `getPendingMigrations`.
unfoldable pub get_pending_migrations :
    {S : Type 0} → List MigrationFile → Database S → List MigrationFile
get_pending_migrations files db =
    filter (λ m. not (is_some (find_record m.version db.records))) files
