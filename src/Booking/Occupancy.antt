-- ===== src/Booking/Occupancy.antt =====
-- What a window of time shows of the bookings: the list query of
-- apps/api/src/modules/booking/infrastructure/repositories/bookings.repository.ts,
-- read-bookings.use-case.ts and booking-occupancy.port.ts.
pub mod Complete
use slotnova.Base.{
  ℕ, Bool, true, false, not, ◌&&◌, ◌||◌, Option, none, some, List, [], ◌∷◌, ltb, leb, ◌==◌,
  if◌then◌else◌,
}
use slotnova.Base.Lists.{filter}
use slotnova.Base.Outcome.{Result, ok, err, ◌>>=◌, ◌>>◌, throw_if}
use slotnova.Scheduling.Interval.{Instant, Interval, intervals_overlap}
use slotnova.Booking.Domain.{
  BookingStatus, confirmed, completed, cancelled, is_confirmed, is_completed, is_cancelled, Booking,
}
use slotnova.Booking.Store.{BookingRecord, Table, PgTimestamps}

pub record BookingListQuery : Type 0 where
  pub from_instant : Instant
  pub to_instant : Instant
  pub status_filter : Option BookingStatus

-- The failures of the query: a timestamp out of range, or a range whose bounds are inverted.
pub data ListError : Type 0 where
  timestamp_overflow inverted_range : ListError

abbrev pub same_status : BookingStatus → BookingStatus → Bool
same_status confirmed s = is_confirmed s
same_status completed s = is_completed s
same_status cancelled s = is_cancelled s

abbrev pub status_matches : Option BookingStatus → BookingRecord → Bool
status_matches none r = true
status_matches (some s) r = same_status s r.status

-- `ORDER BY starts_at ASC, id ASC`.
abbrev pub comes_first : BookingRecord → BookingRecord → Bool
comes_first a b = ltb a.starts_at b.starts_at || a.starts_at == b.starts_at && leb a.id b.id

unfoldable pub insert_row : BookingRecord → Table → Table
insert_row row [] = row ∷ []
insert_row row (r ∷ rs) = if comes_first row r then row ∷ r ∷ rs else r ∷ insert_row row rs

unfoldable pub order_rows : Table → Table
order_rows [] = []
order_rows (r ∷ rs) = insert_row r (order_rows rs)

-- `blocking_range && tstzrange($1, $2, '[)')`: no range overlaps an empty one.
unfoldable pub in_range : Instant → Instant → BookingRecord → Bool
in_range from until r =
    ltb from until && intervals_overlap r.blocking_range (record { start = from; end = until })

abbrev pub kept_instant : Option Instant → Result ListError Instant
kept_instant none = err timestamp_overflow
kept_instant (some t) = ok t

-- `BookingsRepository.list`, under the workspace's policy.
unfoldable pub list : PgTimestamps → ℕ → BookingListQuery → Table → Result ListError Table
list pg workspace_id query table = do
  from ← kept_instant (pg.timestamptz query.from_instant)
  until ← kept_instant (pg.timestamptz query.to_instant)
  throw_if (ltb until from) inverted_range
  ok (
      order_rows (
        filter
          (λ r.
            r.workspace_id == workspace_id
            && in_range from until r
            && status_matches query.status_filter r)
          table))

pub record OccupiedBooking : Type 0 where
  pub booking_id : ℕ
  pub occupied_service_id : ℕ
  pub occupied_starts_at : Instant
  pub occupied_from : Instant
  pub occupied_until : Instant
  pub occupied_status : BookingStatus

-- The loop of `listOccupying`.
unfoldable pub occupying : Table → List OccupiedBooking
occupying [] = []
occupying (r ∷ rs) =
    let rest = occupying rs in
    if is_cancelled r.status
    then rest
    else record {
      booking_id = r.id;
      occupied_service_id = r.service_id;
      occupied_starts_at = r.starts_at;
      occupied_from = r.blocking_range.start;
      occupied_until = r.blocking_range.end;
      occupied_status = r.status;
    }
      ∷ rest

-- `BookingOccupancyPort.listOccupying`.
unfoldable pub list_occupying :
    PgTimestamps → ℕ → Instant → Instant → Table → Result ListError (List OccupiedBooking)
list_occupying pg workspace_id from to table = do
  records ←
      list pg workspace_id (record { from_instant = from; to_instant = to; status_filter = none })
        table
  ok (occupying records)
