-- ===== src/Booking/Occupancy/Complete.antt =====
-- A window hides no occupied time.
use slotnova.Base.{
  ℕ, ◌≤◌, ◌<◌, ◌≡◌, refl, ap, ◌∙◌, inl, inr, Bool, true, false, not, ◌&&◌, ◌||◌, some, List, [],
  ◌∷◌, ltb, leb, ◌==◌, Bool-cases, arith,
}
use slotnova.Base.Lists.{any, filter, any-filter}
use slotnova.Base.Outcome.{ok}
use slotnova.Scheduling.Interval.{Instant, intervals_overlap, interval_contains}
use slotnova.Booking.Domain.{is_cancelled}
use slotnova.Booking.Store.{BookingRecord, Table, PgTimestamps}
use slotnova.Booking.Occupancy.{
  comes_first, insert_row, order_rows, in_range, list, OccupiedBooking, occupying, list_occupying,
}

-- The booking is not cancelled and blocks the instant.
abbrev pub blocks : Instant → BookingRecord → Bool
blocks t r = not (is_cancelled r.status) && interval_contains r.blocking_range t

abbrev pub is_occupied : Instant → OccupiedBooking → Bool
is_occupied t entry = leb entry.occupied_from t && ltb t entry.occupied_until

or_swap : (a b c : Bool) → (a || (b || c)) ≡ (b || (a || c))
or_swap a b c = ground arith

any-insert_row :
    (p : BookingRecord → Bool) (row : BookingRecord) (rs : Table)
    → any p (insert_row row rs) ≡ (p row || any p rs)
unfolding insert_row
any-insert_row p row [] = refl
any-insert_row p row (r ∷ rs) = elim (Bool-cases (comes_first row r)) [
  | inl e ↦ rw e refl
  | inr e ↦ rw (e, any-insert_row p row rs) (or_swap (p r) (p row) (any p rs))
]

any-order_rows : (p : BookingRecord → Bool) (rs : Table) → any p (order_rows rs) ≡ any p rs
unfolding order_rows
any-order_rows p [] = refl
any-order_rows p (r ∷ rs) =
    any-insert_row p r (order_rows rs) ∙ ap (λ b. p r || b) (any-order_rows p rs)

any-occupying : (t : Instant) (rs : Table) → any (is_occupied t) (occupying rs) ≡ any (blocks t) rs
unfolding occupying interval_contains
any-occupying t [] = refl
any-occupying t (r ∷ rs) = elim (Bool-cases (is_cancelled r.status)) [
  | inl e ↦ rw (e) (any-occupying t rs)
  | inr e ↦ rw (e) (
      ap (λ b. leb r.blocking_range.start t && ltb t r.blocking_range.end || b)
        (any-occupying t rs))
]

-- A row that blocks an instant of the window is in range.
any-in_range :
    (workspace_id : ℕ) (from until t : Instant) (rs : Table)
    → from ≤ t
    → t < until
    → any (λ r. (r.workspace_id == workspace_id && in_range from until r && true) && blocks t r) rs
      ≡ any (λ r. r.workspace_id == workspace_id && blocks t r) rs
unfolding in_range intervals_overlap interval_contains
any-in_range workspace_id from until t [] a b = refl
any-in_range workspace_id from until t (r ∷ rs) a b =
    ground (arith, any-in_range workspace_id from until t rs a b)

-- For a window that PostgreSQL keeps, the occupancy is returned, and at every instant of the window
-- it shows the time as occupied exactly when some booking of the workspace that is not cancelled
-- blocks it.
pub list_occupying_complete :
    (pg : PgTimestamps) (workspace_id : ℕ) (from to : Instant) (table : Table) {f u : Instant}
    → pg.timestamptz from ≡ some f
    → pg.timestamptz to ≡ some u
    → f ≤ u
    → (entries : List OccupiedBooking) × (list_occupying pg workspace_id from to table ≡ ok entries)
      × ((t : Instant)
          → f ≤ t
          → t < u
          → any (is_occupied t) entries
            ≡ any (λ r. r.workspace_id == workspace_id && blocks t r) table)
unfolding list_occupying list
list_occupying_complete pg workspace_id from to table {f} {u} e e' valid =
    let ordered : ltb u f ≡ false = ground arith in
    let inside : BookingRecord → Bool =
      λ r. r.workspace_id == workspace_id && in_range f u r && true in
    (
      occupying (order_rows (filter inside table)),
      rw (e, e', ordered) refl,
      λ t a b.
          any-occupying t (order_rows (filter inside table))
          ∙ any-order_rows (blocks t) (filter inside table)
          ∙ any-filter (blocks t) inside table
          ∙ any-in_range workspace_id f u t table a b,
    )
