-- ===== src/Migrations/Rerun.antt =====
-- A run that succeeds leaves nothing to do.
use mathlib.Core.Path.{subst}
use slotnova.Base.{
  ℕ, ◌≡◌, refl, ◌⊎◌, inl, inr, Bool, true, false, Option, none, some, List, [], ◌∷◌, leb, ◌==◌,
  if◌then◌else◌, Bool-cases, ==→eq, arith,
}
use slotnova.Base.Lists.{All, All-filter}
use slotnova.Base.Outcome.{Result, err, ok}
use slotnova.Base.Rows.{find, All-imp}
use slotnova.Migrations.{
  MigrationFile, AppliedMigration, MigrateResult, Database, MigrationError, find_record, has_file,
  record_of, inserted, record_migration, first_missing, up_to, Outcome, recorded, apply_executed,
  apply_file, skipping, applying, after_file, run_file, run_files, run_gate, run_migrations,
}

-- The records of the second list hold what those of the first do.
abbrev Extends : List AppliedMigration → List AppliedMigration → Type 0
Extends before after =
    (version : ℕ) (r : AppliedMigration)
    → find_record version before ≡ some r
    → find_record version after ≡ some r

-- The file is recorded with its checksum.
abbrev pub IsRecorded : List AppliedMigration → MigrationFile → Type 0
IsRecorded records m =
    (r : AppliedMigration) × (find_record m.version records ≡ some r)
    × ((r.checksum == m.checksum) ≡ true)

IsRecorded-Extends :
    (before after : List AppliedMigration) (m : MigrationFile)
    → Extends before after
    → IsRecorded before m
    → IsRecorded after m
IsRecorded-Extends before after m more (r, e, same) = (r, more m.version r e, same)

inserted-eq-some :
    (m : MigrationFile) (records : List AppliedMigration) (found : Option AppliedMigration)
    {after : List AppliedMigration}
    → inserted m records found ≡ some after
    → (found ≡ none) × ((record_of m ∷ records) ≡ after)
inserted-eq-some m records (some r) e = cc (e)
inserted-eq-some m records none e = (refl, cc (e))

-- A file whose version is not recorded yet.
record_of-Extends :
    (m : MigrationFile) (records : List AppliedMigration)
    → find_record m.version records ≡ none
    → Extends records (record_of m ∷ records) × IsRecorded (record_of m ∷ records) m
unfolding find
record_of-Extends m records fresh =
    let same : (m.version == m.version) ≡ true = ground arith in
    let sum : (m.checksum == m.checksum) ≡ true = ground arith in
    (
      λ v r e. elim (Bool-cases (m.version == v)) [
        | inl f ↦
            absurd (cc (subst (λ i. find_record i records ≡ none) (==→eq m.version v f) fresh, e))
        | inr f ↦ rw f e
      ],
      (record_of m, rw same refl, sum),
    )

record_migration-Extends :
    (m : MigrationFile) (records : List AppliedMigration) {after : List AppliedMigration}
    → record_migration m records ≡ some after
    → Extends records after × IsRecorded after m
unfolding record_migration
record_migration-Extends m records {after} e =
    let (fresh, result) = inserted-eq-some m records (find_record m.version records) e in
    subst (λ rs. Extends records rs × IsRecorded rs m) result (record_of-Extends m records fresh)

module _ {S : Type 0} (execute : MigrationFile → S → Bool × S) where
  recorded-eq-ok :
      (m : MigrationFile) (db : Database S) (schema : S) (records : Option (List AppliedMigration))
      {after : Database S}
      → recorded execute m db schema records ≡ ok after
      → records ≡ some after.records
  recorded-eq-ok m db schema none e = cc (e)
  recorded-eq-ok m db schema (some rs) e = cc (e)

  apply_executed-eq-ok :
      (m : MigrationFile) (db : Database S) (outcome : Bool × S) {after : Database S}
      → apply_executed execute m db outcome ≡ ok after
      → record_migration m db.records ≡ some after.records
  apply_executed-eq-ok m db (false, schema) e = cc (e)
  apply_executed-eq-ok m db (true, schema) e =
      recorded-eq-ok m db schema (record_migration m db.records) e

  skipping-eq-ok :
      (r : AppliedMigration) (o : Outcome execute) {result : MigrateResult} {after : Database S}
      → skipping execute r o ≡ (ok result, after)
      → (inner : MigrateResult) × (o ≡ (ok inner, after))
  skipping-eq-ok r (err x, db) e = cc (e)
  skipping-eq-ok r (ok inner, db) e = (inner, cc (e))

  after_file-eq-ok :
      (m : MigrationFile) (db : Database S) (step : Result MigrationError (Database S))
      (rest : Database S → Outcome execute) {result : MigrateResult} {after : Database S}
      → after_file execute m db step rest ≡ (ok result, after)
      → (next : Database S) × (inner : MigrateResult) × (step ≡ ok next)
        × (rest next ≡ (ok inner, after))
  after_file-eq-ok m db (err x) rest e = cc (e)
  after_file-eq-ok m db (ok next) rest {result} {after} e =
      let (inner, f) = applying-eq-ok (rest next) e in (next, inner, refl, f)
    where
      applying-eq-ok :
          (o : Outcome execute)
          → applying execute m o ≡ (ok result, after)
          → (inner : MigrateResult) × (o ≡ (ok inner, after))
      applying-eq-ok (err x, d) h = cc (h)
      applying-eq-ok (ok inner, d) h = (inner, cc (h))

  checked-eq-ok :
      (test : Bool) (x : MigrationError) (db : Database S) (o : Outcome execute)
      {result : MigrateResult} {after : Database S}
      → (if test then o else (err x, db)) ≡ (ok result, after)
      → (test ≡ true) × (o ≡ (ok result, after))
  checked-eq-ok false x db o e = cc (e)
  checked-eq-ok true x db o e = (refl, e)

  -- A file that the loop passes was applied, or was recorded with its checksum.
  run_file-eq-ok :
      (m : MigrationFile) (db : Database S) (found : Option AppliedMigration)
      (rest : Database S → Outcome execute) {result : MigrateResult} {after : Database S}
      → run_file execute m db found rest ≡ (ok result, after)
      → ((next : Database S) × (inner : MigrateResult) × (apply_file execute m db ≡ ok next)
          × (rest next ≡ (ok inner, after)))
        ⊎ ((r : AppliedMigration) × (inner : MigrateResult) × (found ≡ some r)
            × ((r.checksum == m.checksum) ≡ true)
            × (rest db ≡ (ok inner, after)))
  run_file-eq-ok m db none rest e = inl (after_file-eq-ok m db (apply_file execute m db) rest e)
  run_file-eq-ok m db (some r) rest e =
      let (same, skipped) =
        checked-eq-ok (r.checksum == m.checksum) (MigrationError.modified m.version) db
          (skipping execute r (rest db)) e in
      let (inner, f) = skipping-eq-ok r (rest db) skipped in inr (r, inner, refl, same, f)

  -- What is true of the database that a loop leaves when it succeeds.
  run_files-IsRecorded :
      (records : List AppliedMigration) (ms : List MigrationFile) (db : Database S)
      {result : MigrateResult} {after : Database S}
      → run_files execute records ms db ≡ (ok result, after)
      → Extends records db.records
      → Extends db.records after.records × All (IsRecorded after.records) ms
  unfolding run_files
  run_files-IsRecorded records [] db {result} {after} e known =
      let same : db ≡ after = cc (e) in
      (λ v r g. subst (λ d. find_record v d.records ≡ some r) same g, tt)
  run_files-IsRecorded records (m ∷ ms) db {result} {after} e known =
      elim (run_file-eq-ok m db (find_record m.version records) (run_files execute records ms) e) [
        | inl (next, inner, applied, rest) ↦
            let (more, here) =
              record_migration-Extends m db.records {after = next.records}
                (apply_executed-eq-ok m db (execute m db.schema) applied) in
            let (most, others) =
              run_files-IsRecorded records ms next {result = inner} {after = after} rest
                (λ v r g. more v r (known v r g)) in
            (
              λ v r g. most v r (more v r g),
              (IsRecorded-Extends next.records after.records m most here, others),
            )
        | inr (r, inner, found, same, rest) ↦
            let (most, others) =
              run_files-IsRecorded records ms db {result = inner} {after = after} rest known in
            (
              most,
              (
                IsRecorded-Extends db.records after.records m most
                    (r, known m.version r found, same),
                others,
              ),
            )
      ]

  -- A loop over files that are all recorded applies none.
  run_files-done :
      (ms : List MigrationFile) (db : Database S)
      → All (IsRecorded db.records) ms
      → (skipped : List AppliedMigration) × (run_files execute db.records ms db
          ≡ (ok (record { applied = []; skipped = skipped }), db))
  unfolding run_files
  run_files-done [] db h = ([], refl)
  run_files-done (m ∷ ms) db ((r, found, same), h) =
      let (skipped, rest) = run_files-done ms db h in (r ∷ skipped, rw (found, same, rest) refl)

  run_gate-eq-ok :
      (pending : List MigrationFile) (db : Database S) (missing : Option ℕ) {result : MigrateResult}
      {after : Database S}
      → run_gate execute pending db missing ≡ (ok result, after)
      → (missing ≡ none) × (run_files execute db.records pending db ≡ (ok result, after))
  run_gate-eq-ok pending db (some v) e = cc (e)
  run_gate-eq-ok pending db none e = (refl, e)

-- Each record has a file.
abbrev HaveFiles : List MigrationFile → List AppliedMigration → Type 0
HaveFiles files = All (λ r. has_file files r.version ≡ true)

first_missing-HaveFiles :
    (files : List MigrationFile) (records : List AppliedMigration)
    → first_missing files records ≡ none
    → HaveFiles files records
unfolding first_missing
first_missing-HaveFiles files [] e = tt
first_missing-HaveFiles files (r ∷ rs) e = elim (Bool-cases (has_file files r.version)) [
  | inl f ↦ (f, first_missing-HaveFiles files rs (ground (arith, f, e)))
  | inr f ↦ absurd (ground (arith, f, e))
]

HaveFiles-first_missing :
    (files : List MigrationFile) (records : List AppliedMigration)
    → HaveFiles files records
    → first_missing files records ≡ none
unfolding first_missing
HaveFiles-first_missing files [] h = refl
HaveFiles-first_missing files (r ∷ rs) (f, h) = rw f (HaveFiles-first_missing files rs h)

files-has_file : (files : List MigrationFile) → All (λ m. has_file files m.version ≡ true) files
files-has_file [] = tt
files-has_file (m ∷ ms) =
    let same : (m.version == m.version) ≡ true = ground arith in
    (
      rw same refl,
      All-imp (λ n. has_file ms n.version ≡ true) (λ n. has_file (m ∷ ms) n.version ≡ true) ms
          (λ n e. rw e (ground arith)) (files-has_file ms),
    )

up_to-has_file :
    (target : Option ℕ) (files : List MigrationFile)
    → All (λ m. has_file files m.version ≡ true) (up_to target files)
up_to-has_file none files = files-has_file files
up_to-has_file (some target) files =
    All-filter (λ m. has_file files m.version ≡ true) (λ m. leb m.version target) files
      (files-has_file files)

module _ {S : Type 0} (execute : MigrationFile → S → Bool × S) where
  apply_file-HaveFiles :
      (files : List MigrationFile) (m : MigrationFile) (db : Database S) {after : Database S}
      → apply_file execute m db ≡ ok after
      → has_file files m.version ≡ true
      → HaveFiles files db.records
      → HaveFiles files after.records
  unfolding record_migration
  apply_file-HaveFiles files m db {after} e mine h =
      let (fresh, result) =
        inserted-eq-some m db.records (find_record m.version db.records) {after = after.records}
          (apply_executed-eq-ok execute m db (execute m db.schema) e) in
      subst (HaveFiles files) result (mine, h)

  run_files-HaveFiles :
      (files : List MigrationFile) (records : List AppliedMigration) (ms : List MigrationFile)
      (db : Database S) {result : MigrateResult} {after : Database S}
      → run_files execute records ms db ≡ (ok result, after)
      → All (λ m. has_file files m.version ≡ true) ms
      → HaveFiles files db.records
      → HaveFiles files after.records
  unfolding run_files
  run_files-HaveFiles files records [] db {result} {after} e mine h =
      let same : db ≡ after = cc (e) in subst (λ (d : Database S). HaveFiles files d.records) same h
  run_files-HaveFiles files records (m ∷ ms) db {result} {after} e (mine, others) h =
      elim (run_file-eq-ok execute m db (find_record m.version records)
        (run_files execute records ms) e) [
          | inl (next, inner, applied, rest) ↦
              run_files-HaveFiles files records ms next {result = inner} {after = after} rest others
                (apply_file-HaveFiles files m db {after = next} applied mine h)
          | inr (r, inner, found, same, rest) ↦
              run_files-HaveFiles files records ms db {result = inner} {after = after} rest others h
        ]

-- After a run that succeeded, up to any target, the same run succeeds again, applies no file and
-- leaves the database as it is; and each file up to the target is recorded with its checksum.
pub run_migrations_again :
    {S : Type 0} (execute : MigrationFile → S → Bool × S) (files : List MigrationFile)
    (target : Option ℕ) (db : Database S) {result : MigrateResult} {after : Database S}
    → run_migrations execute files target db ≡ (ok result, after)
    → ((skipped : List AppliedMigration) × (run_migrations execute files target after
          ≡ (ok (record { applied = []; skipped = skipped }), after)))
      × All (IsRecorded after.records) (up_to target files)
unfolding run_migrations
run_migrations_again execute files target db {result} {after} e =
    let (found, ran) =
      run_gate-eq-ok execute (up_to target files) db (first_missing files db.records)
        {result = result} {after = after} e in
    let (more, done) =
      run_files-IsRecorded execute db.records (up_to target files) db {result = result}
        {after = after} ran (λ v r g. g) in
    let have =
      run_files-HaveFiles execute files db.records (up_to target files) db {result = result}
        {after = after} ran (up_to-has_file target files)
        (first_missing-HaveFiles files db.records found) in
    let (skipped, again) = run_files-done execute (up_to target files) after done in
    ((skipped, rw (HaveFiles-first_missing files after.records have) again), done)
