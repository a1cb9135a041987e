-- ===== src/Booking/Interleavings.antt =====
-- Committed use cases as steps of the table, in any order and with any reads in between.
use slotnova.Base.{ℕ, inl, inr, Option, String}
use slotnova.Base.Outcome.{err, Result-cases}
use slotnova.Scheduling.Interval.{Instant}
use slotnova.Booking.Domain.{
  Booking, BookingError, CreateBookingInput, create_booking, InstantArithmetic,
}
use slotnova.Booking.Store
use slotnova.Booking.Store.{
  BookingRecord, Table, PgError, rethrow, catch_overlap, translate_overlap_violation,
  datetime_overflow, StoreError, PgTimestamps, set_reschedule, set_cancel, set_complete, find_by_id,
  find_guarded, guarded_update, replace,
}
use slotnova.Booking.Store.Sound.{IsSound, create-IsSound, guarded_update-IsSound}
use slotnova.Booking.UseCases.{
  UseCase, committed, create_booking_in_transaction, reschedule_booking_use_case,
  cancel_booking_use_case, complete_booking_use_case, refine_overlap,
}
use slotnova.Booking.Commits.{
  CommitsUpdate, cancel-CommitsUpdate, complete-CommitsUpdate, reschedule-CommitsUpdate,
}

module _ (temporal : InstantArithmetic) (pg : PgTimestamps) where
  -- One transaction: a use case that commits on the table as its write finds it, whatever its reads
  -- saw, or that leaves the table alone.
  pub data Step (now : Table) : Table → Type 0 where
    create :
        (ws : ℕ) (input : CreateBookingInput)
        → Step now (committed (create_booking_in_transaction temporal pg ws input now) now)
    reschedule :
        (ws id v : ℕ) (starts_at : Instant) (seen latest : Table)
        → Step now (
            committed
              (reschedule_booking_use_case temporal pg ws id v starts_at seen now latest)
              now)
    cancel :
        (ws id v : ℕ) (reason : Option String) (seen latest : Table)
        → Step now
            (committed (cancel_booking_use_case temporal pg ws id v reason seen now latest) now)
    complete :
        (ws id v : ℕ) (seen latest : Table)
        → Step now (committed (complete_booking_use_case temporal pg ws id v seen now latest) now)

  pub data Reach (start : Table) : Table → Type 0 where
    here : Reach start start
    after : {t u : Table} → Reach start t → Step t u → Reach start u

  create-IsSound-committed :
      (ws : ℕ) (input : CreateBookingInput) (now : Table)
      → IsSound now
      → IsSound (committed (create_booking_in_transaction temporal pg ws input now) now)
  unfolding create_booking_in_transaction
  create-IsSound-committed ws input now h = elim (Result-cases (create_booking input)) [
    | inr (e, refused) ↦ rw refused h
    | inl (b, valid) ↦ elim (Result-cases (Store.create pg ws b now)) [
      | inl (p, stored) ↦ rw (valid, stored) (create-IsSound pg ws b now h stored)
      | inr (e, failed) ↦ rw (valid, failed) (refused_IsSound b e now h)
    ]
  ]
    where
      refused_IsSound :
          (b : Booking) (e : StoreError) (now : Table)
          → IsSound now
          → IsSound (committed (refine_overlap temporal b (err e)) now)
      refused_IsSound b (StoreError.postgres e) now h = h
      refused_IsSound b (StoreError.domain BookingError.booking_overlap) now h = h
      refused_IsSound b (StoreError.domain e) now h = h

  CommitsUpdate-IsSound :
      (ws id v : ℕ) (now : Table) (u : UseCase)
      → IsSound now
      → CommitsUpdate temporal pg ws id v now u
      → IsSound (committed u now)
  unfolding CommitsUpdate
  CommitsUpdate-IsSound ws id v now u h (inl unchanged) = rw unchanged h
  CommitsUpdate-IsSound ws id v now u h (inr (set, row, keeps, updated, returned)) =
      guarded_update-IsSound pg ws id v set now h (λ b. (keeps b).0) updated

  Step-IsSound : {now then : Table} → IsSound now → Step now then → IsSound then
  Step-IsSound h (create ws input) = create-IsSound-committed ws input _ h
  Step-IsSound h (reschedule ws id v t seen latest) =
      CommitsUpdate-IsSound ws id v _ _ h
        (reschedule-CommitsUpdate temporal pg ws id v t seen _ latest)
  Step-IsSound h (cancel ws id v reason seen latest) =
      CommitsUpdate-IsSound ws id v _ _ h
        (cancel-CommitsUpdate temporal pg ws id v reason seen _ latest)
  Step-IsSound h (complete ws id v seen latest) =
      CommitsUpdate-IsSound ws id v _ _ h (complete-CommitsUpdate temporal pg ws id v seen _ latest)

  -- Whatever use cases commit, in whatever order and whatever their reads saw, a table that was
  -- sound stays sound: ids are distinct, and no two confirmed bookings of a workspace overlap.
  pub Reach-IsSound : {start now : Table} → IsSound start → Reach start now → IsSound now
  Reach-IsSound h here = h
  Reach-IsSound h (after r step) = Step-IsSound (Reach-IsSound h r) step
