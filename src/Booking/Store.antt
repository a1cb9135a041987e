-- ===== src/Booking/Store.antt =====
-- The table `bookings`: packages/db/migrations/0009_booking.sql and
-- 0010_booking_overlap_exclusion.sql, and the statements of
-- apps/api/src/modules/booking/infrastructure/repositories/bookings.repository.ts. A table is the
-- list of its rows; row-level security is the workspace that each statement is given. What
-- PostgreSQL does with a timestamp is a parameter: which instants it keeps, and its arithmetic.
pub mod Sound
pub mod Ranges
use slotnova.Base.{
  ℕ, ◌+◌, ◌*◌, ◌≤◌, ◌≡◌, Bool, true, false, not, ◌&&◌, ◌||◌, Option, none, some, String, List, [],
  ◌∷◌, ltb, leb, ◌==◌, if◌then◌else◌, get_or, is_some,
}
use text.Mathlib.Text.{◌==◌ as str_eq}
use slotnova.Base.Lists.{any}
use slotnova.Base.Outcome.{Result, ok, err, ◌>>=◌, ◌>>◌, throw_if}
use slotnova.Scheduling.Interval.{Instant, Interval, intervals_overlap}
use slotnova.Booking.Domain.{
  BookingStatus, confirmed, completed, cancelled, is_confirmed, is_cancelled, is_completed, Booking,
  BookingServiceSnapshot, BookingError, booking_overlap,
}

-- `BookingRecord`: the row with its generated range.
pub record BookingRecord : Type 0 where
  pub booking : Booking
  pub open booking use *
  pub workspace_id : ℕ
  pub blocking_range : Interval

abbrev pub Table : Type 0
Table = List BookingRecord

-- The failures of a statement, by `code` and `constraint`.
pub data PgError : Type 0 where
  -- 42501, 23514, 23505 and 22008
  row_security check_violation unique_violation datetime_overflow : PgError
  -- 23P01, with the constraint's name
  exclusion_violation : String → PgError

-- What the statements throw: the errors of PostgreSQL, and the one that they are translated to.
pub data StoreError : Type 0 where
  domain : BookingError → StoreError
  postgres : PgError → StoreError

abbrev pub bookings_no_overlap : String
bookings_no_overlap = "bookings_no_overlap"

-- PostgreSQL's timestamps: `timestamptz` keeps an instant to the microsecond, and an interval of
-- seconds moves one exactly; `none` is a timestamp out of range.
pub record PgTimestamps : Type 0 where
  pub timestamptz : Instant → Option Instant
  pub add_seconds : Instant → ℕ → Option Instant
  pub subtract_seconds : Instant → ℕ → Option Instant
  pub add_seconds_lem : (t s : ℕ) {u : ℕ} → add_seconds t s ≡ some u → u ≡ t + s * 1000000000
  pub subtract_seconds_lem :
      (t s : ℕ) {u : ℕ} → subtract_seconds t s ≡ some u → t ≡ u + s * 1000000000

-- The predicate of `bookings_no_overlap`: two confirmed rows of one workspace whose ranges meet.
unfoldable pub conflicts : BookingRecord → BookingRecord → Bool
unfolding intervals_overlap
conflicts a b =
    is_confirmed a.status
    && is_confirmed b.status
    && a.workspace_id == b.workspace_id
    && intervals_overlap a.blocking_range b.blocking_range

-- The CHECK constraints of the table, in their order.
unfoldable pub satisfies_checks : BookingRecord → Bool
satisfies_checks r =
    leb 1 r.snapshot.service_duration_minutes
    && leb 0 r.snapshot.pre_buffer
    && leb 0 r.snapshot.post_buffer
    && leb 1 r.version
    && ltb r.blocking_range.start r.blocking_range.end
    && (not (is_some r.cancelled_reason) || is_cancelled r.status)

-- What PostgreSQL checks of a row that is written: the policy, the CHECK constraints, the key and
-- the exclusion, against the other rows.
unfoldable pub admit_row : ℕ → BookingRecord → Table → Result PgError (Unit {0})
admit_row workspace_id row others = do
  throw_if (not (row.workspace_id == workspace_id)) row_security
  throw_if (not (satisfies_checks row)) check_violation
  throw_if (any (λ r. r.id == row.id) others) unique_violation
  throw_if (any (conflicts row) others) (exclusion_violation bookings_no_overlap)

-- `translateOverlapViolation`, on the one code that carries a constraint's name.
unfoldable pub translate_overlap_violation : PgError → StoreError
translate_overlap_violation (exclusion_violation constraint) =
    if str_eq constraint bookings_no_overlap
    then domain booking_overlap
    else postgres (exclusion_violation constraint)
translate_overlap_violation error = postgres error

abbrev pub catch_overlap {ℓ} : {A : Type ℓ} → Result PgError A → Result StoreError A
catch_overlap (ok a) = ok a
catch_overlap (err e) = err (translate_overlap_violation e)

abbrev pub rethrow {ℓ} : {A : Type ℓ} → Result PgError A → Result StoreError A
rethrow (ok a) = ok a
rethrow (err e) = err (postgres e)

-- The rows of the other bookings, which a written row is checked against.
unfoldable pub without : ℕ → Table → Table
without id [] = []
without id (r ∷ rs) = let rest = without id rs in if r.id == id then rest else r ∷ rest

unfoldable pub replace : BookingRecord → Table → Table
replace row [] = []
replace row (r ∷ rs) = if r.id == row.id then row ∷ rs else r ∷ replace row rs

-- `findById` under the workspace's policy.
unfoldable pub find_by_id : ℕ → ℕ → Table → Option BookingRecord
find_by_id workspace_id id [] = none
find_by_id workspace_id id (r ∷ rs) =
    if r.id == id && r.workspace_id == workspace_id then some r else find_by_id workspace_id id rs

-- `WHERE id = $1 AND version = $4 AND status = 'confirmed'`, under the policy.
unfoldable pub find_guarded : ℕ → ℕ → ℕ → Table → Option BookingRecord
find_guarded workspace_id id version [] = none
find_guarded workspace_id id version (r ∷ rs) =
    if r.id == id && r.workspace_id == workspace_id && r.version == version && is_confirmed r.status
    then some r
    else find_guarded workspace_id id version rs

-- The fields that the three statements set.
abbrev pub set_reschedule : Instant → ℕ → Booking → Booking
set_reschedule starts_at next b = record b { starts_at = starts_at; version = next }

abbrev pub set_cancel : Option String → ℕ → Booking → Booking
set_cancel reason next b = record b {
  status = cancelled;
  cancelled_reason = reason;
  version = next;
}

abbrev pub set_complete : ℕ → Booking → Booking
set_complete next b = record b { status = completed; version = next }

module _ (pg : PgTimestamps) where
  open pg use {timestamptz, add_seconds, subtract_seconds}

  abbrev or_overflow : Option Instant → Result PgError Instant
  or_overflow none = err datetime_overflow
  or_overflow (some t) = ok t

  -- `booking_blocking_range`, the generated column.
  unfoldable pub booking_blocking_range : Instant → BookingServiceSnapshot → Result PgError Interval
  booking_blocking_range starts_at s = do
    from ← or_overflow (subtract_seconds starts_at (s.pre_buffer * 60))
    until ← or_overflow (add_seconds starts_at ((s.service_duration_minutes + s.post_buffer) * 60))
    ok (record { start = from; end = until })

  -- A row with its generated column.
  unfoldable pub to_row : ℕ → Booking → Result PgError BookingRecord
  to_row workspace_id b = do
    range ← booking_blocking_range b.starts_at b.snapshot
    ok (record { booking = b; workspace_id = workspace_id; blocking_range = range })

  -- `BookingsRepository.create`.
  unfoldable pub create : ℕ → Booking → Table → Result StoreError (BookingRecord × Table)
  create workspace_id b table = catch_overlap (do
    starts_at ← or_overflow (timestamptz b.starts_at)
    row ← to_row workspace_id (record b { starts_at = starts_at })
    admit_row workspace_id row table
    ok (row, row ∷ table))

  -- A guarded UPDATE: no row, or the row that was found with the fields that the statement sets.
  unfoldable pub guarded_update :
      ℕ → ℕ → ℕ → (Booking → Booking) → Table → Result PgError (Option BookingRecord × Table)
  guarded_update workspace_id id version set table =
      elim (find_guarded workspace_id id version table) [
        | none ↦ ok (none, table)
        | some found ↦ do
          row ← to_row workspace_id (set found.booking)
          admit_row workspace_id row (without id table)
          ok (some row, replace row table)
      ]

  unfoldable pub reschedule :
      ℕ → ℕ → Instant → ℕ → ℕ → Table → Result StoreError (Option BookingRecord × Table)
  reschedule workspace_id id starts_at expected next table = catch_overlap (do
    kept ← or_overflow (timestamptz starts_at)
    guarded_update workspace_id id expected (set_reschedule kept next) table)

  unfoldable pub cancel :
      ℕ → ℕ → Option String → ℕ → ℕ → Table → Result StoreError (Option BookingRecord × Table)
  cancel workspace_id id reason expected next table =
      rethrow (guarded_update workspace_id id expected (set_cancel reason next) table)

  unfoldable pub complete : ℕ → ℕ → ℕ → ℕ → Table → Result StoreError (Option BookingRecord × Table)
  complete workspace_id id expected next table =
      rethrow (guarded_update workspace_id id expected (set_complete next) table)
