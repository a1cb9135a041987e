-- ===== src/Booking/Commits.antt =====
-- What reschedule, cancel and complete commit: one guarded UPDATE that raises the version by one,
-- or nothing.
use slotnova.Base.{
  ℕ, ◌+◌, ◌≡◌, ◌≢◌, refl, ◌⊎◌, inl, inr, Option, none, some, String, arith, Option-cases, get_or,
}
use slotnova.Base.Outcome.{Result, ok, err, Result-cases}
use slotnova.Scheduling.Interval.{Instant}
use slotnova.Booking.Domain.{
  Booking, BookingError, Returned, same, fresh, value_of, is_booking_unchanged, reschedule_booking,
  cancel_booking, complete_booking, InstantArithmetic,
}
use slotnova.Booking.Store
use slotnova.Booking.Store.{
  BookingRecord, Table, PgError, rethrow, catch_overlap, translate_overlap_violation,
  datetime_overflow, StoreError, PgTimestamps, set_reschedule, set_cancel, set_complete, find_by_id,
  find_guarded, guarded_update, replace,
}
use slotnova.Booking.UseCases.{
  UseCase, UseCaseError, committed, reschedule_booking_use_case, cancel_booking_use_case,
  complete_booking_use_case, finish, explain_miss, thrown, refine_overlap,
}

module _ (temporal : InstantArithmetic) (pg : PgTimestamps) where
  -- The guarded update that a use case has committed, or no change.
  unfoldable pub CommitsUpdate : ℕ → ℕ → ℕ → Table → UseCase → Type 0
  CommitsUpdate ws id v now use_case =
      (committed use_case now ≡ now)
      ⊎ ((set : Booking → Booking) × (row : BookingRecord) × ((b : Booking)
            → ((set b).id ≡ b.id) × ((set b).version ≡ v + 1))
          × (guarded_update pg ws id v set now ≡ ok (some row, committed use_case now))
          × (use_case ≡ ok (row, committed use_case now)))

  nothing :
      (ws id v : ℕ) (now : Table) (u : UseCase)
      → committed u now ≡ now
      → CommitsUpdate ws id v now u
  unfolding CommitsUpdate
  nothing ws id v now u h = inl h

  -- A statement that is carried to its end is the guarded update, or commits nothing.
  finish-CommitsUpdate :
      (ws id v : ℕ) (now latest : Table) (set : Booking → Booking)
      (m : Result UseCaseError (Option BookingRecord × Table))
      → ((b : Booking) → ((set b).id ≡ b.id) × ((set b).version ≡ v + 1))
      → ((o : Option BookingRecord) (t : Table)
          → m ≡ ok (o, t)
          → guarded_update pg ws id v set now ≡ ok (o, t))
      → CommitsUpdate ws id v now (finish ws id v latest m)
  unfolding CommitsUpdate explain_miss
  finish-CommitsUpdate ws id v now latest set (ok (some row, t)) keeps h =
      inr (set, row, keeps, h (some row) t refl, refl)
  finish-CommitsUpdate ws id v now latest set (ok (none, t)) keeps h =
      elim (Option-cases (find_by_id ws id latest)) [
        | inl missing ↦ inl (rw missing)
        | inr (row, f) ↦ inl (rw f)
      ]
  finish-CommitsUpdate ws id v now latest set (err e) keeps h = inl refl

  cancel_version :
      (b b' : Booking) (v : ℕ) (reason : Option String)
      → cancel_booking b v reason ≡ ok (fresh b')
      → b'.version ≡ v + 1
  unfolding cancel_booking
  cancel_version b b' v reason e = ground arith

  complete_version :
      (b b' : Booking) (v : ℕ) → complete_booking b v ≡ ok (fresh b') → b'.version ≡ v + 1
  unfolding complete_booking
  complete_version b b' v e = ground arith

  reschedule_version :
      (b : Booking) (r : Returned) (v : ℕ) (t : Instant)
      → reschedule_booking b v t ≡ ok r
      → (value_of r).version ≡ v + 1
  unfolding reschedule_booking
  reschedule_version b r v t e = ground arith

  thrown_ok :
      (m : Result PgError (Option BookingRecord × Table)) (o : Option BookingRecord) (t : Table)
      → thrown (rethrow m) ≡ ok (o, t)
      → m ≡ ok (o, t)
  thrown_ok (ok p) o t e = cc
  thrown_ok (err x) o t e = cc

  pub cancel-CommitsUpdate :
      (ws id v : ℕ) (reason : Option String) (seen now latest : Table)
      → CommitsUpdate ws id v now
          (cancel_booking_use_case temporal pg ws id v reason seen now latest)
  unfolding cancel_booking_use_case
  cancel-CommitsUpdate ws id v reason seen now latest =
      elim (Option-cases (find_by_id ws id seen)) [
        | inl missing ↦ rw missing (nothing ws id v now (err _) refl)
        | inr (current, f) ↦ elim (Result-cases (cancel_booking current.booking v reason)) [
          | inr (e, refused) ↦ rw (f, refused) (nothing ws id v now (err _) refl)
          | inl (same b, moved) ↦
              rw (f, moved)
                (unfold is_booking_unchanged in nothing ws id v now (ok (current, now)) refl)
          | inl (fresh b, moved) ↦
              rw (f, moved)
                (unfold is_booking_unchanged Store.cancel in
                  finish-CommitsUpdate ws id v now latest (set_cancel b.cancelled_reason b.version)
                    (thrown (Store.cancel pg ws id b.cancelled_reason v b.version now))
                    (λ c. (refl, cancel_version current.booking b v reason moved))
                    (λ o t.
                      thrown_ok
                        (guarded_update pg ws id v (set_cancel b.cancelled_reason b.version) now) o
                        t))
        ]
      ]

  pub complete-CommitsUpdate :
      (ws id v : ℕ) (seen now latest : Table)
      → CommitsUpdate ws id v now (complete_booking_use_case temporal pg ws id v seen now latest)
  unfolding complete_booking_use_case
  complete-CommitsUpdate ws id v seen now latest = elim (Option-cases (find_by_id ws id seen)) [
    | inl missing ↦ rw missing (nothing ws id v now (err _) refl)
    | inr (current, f) ↦ elim (Result-cases (complete_booking current.booking v)) [
      | inr (e, refused) ↦ rw (f, refused) (nothing ws id v now (err _) refl)
      | inl (same b, moved) ↦
          rw (f, moved)
            (unfold is_booking_unchanged in nothing ws id v now (ok (current, now)) refl)
      | inl (fresh b, moved) ↦
          rw (f, moved)
            (unfold is_booking_unchanged Store.complete in
              finish-CommitsUpdate ws id v now latest (set_complete b.version)
                (thrown (Store.complete pg ws id v b.version now))
                (λ c. (refl, complete_version current.booking b v moved))
                (λ o t. thrown_ok (guarded_update pg ws id v (set_complete b.version) now) o t))
    ]
  ]

  pub refined_err :
      (b : Booking) (e : StoreError) (p : Option BookingRecord × Table)
      → refine_overlap temporal b (err e) ≢ ok p
  refined_err b (StoreError.postgres e) p h = cc
  refined_err b (StoreError.domain BookingError.booking_overlap) p h = cc
  refined_err b (StoreError.domain e) p h = cc

  refined_ok :
      (b : Booking) (m : Result PgError (Option BookingRecord × Table)) (o : Option BookingRecord)
      (t : Table)
      → refine_overlap temporal b (catch_overlap m) ≡ ok (o, t)
      → m ≡ ok (o, t)
  refined_ok b (ok p) o t e = cc
  refined_ok b (err x) o t e = absurd (refined_err b (translate_overlap_violation x) (o, t) e)

  -- The statement of a reschedule sets the start as PostgreSQL keeps it.
  kept_ok :
      (ws id v next : ℕ) (starts_at : Instant) (now : Table) (b : Booking)
      (o : Option BookingRecord) (t : Table)
      → refine_overlap temporal b (Store.reschedule pg ws id starts_at v next now) ≡ ok (o, t)
      → guarded_update pg ws id v
          (set_reschedule (get_or (pg.timestamptz starts_at) starts_at) next)
          now
        ≡ ok (o, t)
  unfolding Store.reschedule
  kept_ok ws id v next starts_at now b o t e = elim (Option-cases (pg.timestamptz starts_at)) [
    | inl out_of_range ↦ absurd (
        refined_err b (translate_overlap_violation datetime_overflow) (o, t) (rw out_of_range at e))
    | inr (kept, k) ↦ rw k (refined_ok b _ o t (rw k at e))
  ]

  pub reschedule-CommitsUpdate :
      (ws id v : ℕ) (starts_at : Instant) (seen now latest : Table)
      → CommitsUpdate ws id v now
          (reschedule_booking_use_case temporal pg ws id v starts_at seen now latest)
  unfolding reschedule_booking_use_case
  reschedule-CommitsUpdate ws id v starts_at seen now latest =
      elim (Option-cases (find_by_id ws id seen)) [
        | inl missing ↦ rw missing (nothing ws id v now (err _) refl)
        | inr (current, f) ↦ elim (Result-cases (reschedule_booking current.booking v starts_at)) [
          | inr (e, refused) ↦ rw (f, refused) (nothing ws id v now (err _) refl)
          | inl (next, moved) ↦
              rw (f, moved)
                (finish-CommitsUpdate ws id v now latest
                  (set_reschedule
                    (get_or (pg.timestamptz (value_of next).starts_at) (value_of next).starts_at)
                    (value_of next).version)
                  (refine_overlap temporal (value_of next) (
                    Store.reschedule pg ws id (value_of next).starts_at v (value_of next).version
                      now))
                  (λ c. (refl, reschedule_version current.booking next v starts_at moved))
                  (kept_ok ws id v (value_of next).version (value_of next).starts_at now
                    (value_of next)))
        ]
      ]
