-- ===== src/Lib.antt =====
-- Slotnova: the rules of an appointment platform, as definitions that run and theorems about
-- them. The API (apps/api) keeps, per workspace, the bookings of a calendar; a booking blocks a
-- span of time around its appointment, commands move it through its statuses under optimistic
-- concurrency, and the database refuses two confirmed bookings that overlap. Availability is
-- computed with sets of half-open intervals. Callers have sessions, and requests are counted per
-- key; a worker (apps/worker) hands on the events that the API leaves in an outbox.
--
-- The files and the code:
-- - Base: numbers, Booleans, lists and the result type of code that throws.
-- - Scheduling/Interval: apps/api/src/modules/scheduling/domain/interval.ts. An instant is the
--   count of nanoseconds since the earliest instant of Temporal.
-- - Scheduling/IntervalSet: apps/api/src/modules/scheduling/domain/interval-set.ts; its children
--   hold the canonical form, its uniqueness and the algebra (Sorting, Normal, Common, Remaining,
--   Difference, Unique, Algebra). A list of intervals is read as the set of the instants it
--   covers.
-- - Scheduling/WallClock, Scheduling/Pattern, Scheduling/Recurrence: wall-clock.ts and
--   recurrence.ts of the same folder. Pattern/Exclusive holds the disjointness of a day's rules,
--   Recurrence/Coverage what an expansion covers.
-- - Scheduling/Availability: resolve-availability.use-case.ts of scheduling/application, with its
--   two queries; Resolved and Exactness hold what it answers.
-- - Scheduling/PatternColumns: the row and `toRecord` of availability-patterns.repository.ts; ReadBack
--   holds what a row is read back as.
-- - Scheduling/PatternHistory: create-availability-pattern.use-case.ts and the exclusion on the
--   patterns' effective windows.
-- - Booking/Domain: apps/api/src/modules/booking/domain; Lifecycle and History hold its
--   transition table and the histories of one booking.
-- - Booking/Store: the table and the statements of
--   apps/api/src/modules/booking/infrastructure/repositories/bookings.repository.ts with the
--   migrations 0009 and 0010 of packages/db; Sound and Ranges hold the invariant of the table and
--   the agreement of its generated column with the aggregate.
-- - Booking/UseCases: apps/api/src/modules/booking/application. A use case is given the table as
--   each of its statements finds it; Commits, Interleavings and Guard hold what any order of
--   transactions does to the table.
-- - Booking/Occupancy: the list query by range and booking-occupancy.port.ts.
-- - Booking/Creation: create-booking-idempotently.use-case.ts, with service-snapshot.port.ts of
--   apps/api/src/modules/catalog/application; Fresh holds what it does to the table.
-- - Calendar: apps/api/src/modules/calendar-read/application/compose-calendar.use-case.ts, which
--   composes the availability and the occupancy; Widening holds which dates it asks for.
-- - Idempotency: apps/api/src/modules/platform/idempotency/idempotent-execution.ts;
--   Once holds what later calls do (by way of Claim and Replay).
-- - RateLimits: apps/api/src/modules/platform/security/rate-limits.ts; Bounded and Windows hold the
--   size of its map and how often a key passes.
-- - Identity/Sessions: the sessions of apps/api/src/modules/identity, the repository in the module
--   itself, session.service.ts and the sweep of maintenance.ts in Service; Chains, Endings and
--   Conservation hold what any calls do to the table.
-- - Identity/Invitations: invitations.repository.ts in the module itself; the use cases of
--   application/invitation and the expiry of maintenance.ts in Lifecycle; Single, Members and Fresh
--   hold what any calls do (Accepting: what a success has found).
-- - Identity/Directory and Identity/Access: users.repository.ts, memberships.repository.ts,
--   session-context.service.ts, authorize.ts and capability.guard.ts; Access/Guarded holds who passes.
-- - Identity/SignIn: sign-in.use-case.ts and `switchWorkspace` of workspace-context.controller.ts;
--   Switching holds what a switch does to the sessions.
-- - Migrations: the gate of packages/db/src/migrate.ts; Rerun holds what a success leaves.
-- - Worker: apps/worker/src/outbox, the claim in Claim, the loop in Consumer, the handler in
--   Dispatch; Progress and Ownership hold what polls do to the outbox (by way of Handling,
--   Claiming, Paging and Distance).
-- - Base/Rows: the rows of a table as the SQL statements of those parts find, order and count them.
--
-- Parameters: the arithmetic of Temporal on instants (InstantArithmetic) and PostgreSQL's
-- timestamps (PgTimestamps), the dates of instants in UTC (UtcDates) and the columns of a pattern
-- (ColumnFormats), each with the documented laws of the operations; the time-zone database
-- (TemporalZones) and the jsonb column of a response (JsonColumn), with no law assumed; the
-- response that a booking is rendered to is a function of its row; the hashes of tokens, the
-- fresh tokens and ids, and what the SQL of a migration does are arguments. Each SQL transaction
-- is one step where the code locks the rows that it changes; the clock is read once a call. A
-- worker's advisory lock is the set of the owners that live. The tests of each part instantiate
-- the parameters with concrete functions. A JavaScript number that the code tests with
-- `Number.isInteger` is a natural, negative or non-integer number; integers are unbounded. No
-- definition uses fuel: the loops are recursions on their lists, the loop over dates is one on
-- the number of dates that are left, and a worker that polls for ever is any list of polls.
--
-- Not modelled: the HTTP layer (controllers, schemas, cookies, CSRF) but for the switch of
-- the workspace, the catalogue, the audit and outbox rows that the booking use cases write, the
-- rendering of logs and metrics, the web application, the reading of the directory of
-- migrations, and the connection to PostgreSQL.
pub mod Base
pub mod Scheduling
pub mod Booking
pub mod Idempotency
pub mod Calendar
pub mod RateLimits
pub mod Identity
pub mod Worker
pub mod Migrations
