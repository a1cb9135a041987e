-- ===== src/Booking/Store/Sound.antt =====
-- The table keeps its invariant: distinct ids, rows that satisfy the CHECK constraints, and no two
-- confirmed rows of one workspace whose ranges meet.
use slotnova.Base.{
  ℕ, ◌≡◌, refl, sym, ◌⊎◌, inl, inr, true, false, Option, none, some, [], ◌∷◌, arith, ◌==◌,
  Bool-cases, Option-cases,
}
use mathlib.Core.Path.{subst}
use slotnova.Base.Lists.{any, All}
use slotnova.Base.Outcome.{ok, Result-cases}
use slotnova.Booking.Domain.{is_confirmed, Booking}
use slotnova.Booking.Store.{
  BookingRecord, Table, PgTimestamps, conflicts, satisfies_checks, admit_row, without, replace,
  find_guarded, to_row, create, guarded_update,
}

abbrev pub IsCompatible : BookingRecord → BookingRecord → Type 0
IsCompatible r s = ((s.id == r.id) ≡ false) × (conflicts r s ≡ false)

abbrev pub IsSound : Table → Type 0
IsSound [] = Unit
IsSound (r ∷ rs) = (satisfies_checks r ≡ true) × All (IsCompatible r) rs × IsSound rs

pub conflicts_comm : (a b : BookingRecord) → conflicts a b ≡ conflicts b a
unfolding conflicts
conflicts_comm a b = ground arith

-- A row that no other row excludes is compatible with each of them.
All-IsCompatible :
    (row : BookingRecord) (rs : Table)
    → any (λ r. r.id == row.id) rs ≡ false
    → any (conflicts row) rs ≡ false
    → All (IsCompatible row) rs
All-IsCompatible row [] h k = tt
All-IsCompatible row (r ∷ rs) h k = ground (arith, All-IsCompatible row rs)

without_absent : (id : ℕ) (rs : Table) → All (λ r. (r.id == id) ≡ false) rs → without id rs ≡ rs
unfolding without
without_absent id [] h = refl
without_absent id (r ∷ rs) (p, h) = ground (arith, without_absent id rs h)

replace-All {κ} :
    (P : BookingRecord → Type κ) (row : BookingRecord) (rs : Table)
    → P row
    → All P rs
    → All P (replace row rs)
unfolding replace
replace-All P row [] p h = tt
replace-All P row (r ∷ rs) p (q, h) = elim (Bool-cases (r.id == row.id)) [
  | inl e ↦ rw e (p, h)
  | inr e ↦ rw e (q, replace-All P row rs p h)
]

pub All-ids :
    (r : BookingRecord) (id : ℕ) (rs : Table)
    → (r.id == id) ≡ true
    → All (IsCompatible r) rs
    → All (λ s. (s.id == id) ≡ false) rs
All-ids r id [] e h = tt
All-ids r id (s ∷ rs) e (p, h) = (ground arith, All-ids r id rs e h)

any-ids :
    (row : BookingRecord) (rs : Table)
    → All (λ s. (s.id == row.id) ≡ false) rs
    → any (λ r. r.id == row.id) rs ≡ false
any-ids row [] h = refl
any-ids row (r ∷ rs) (p, h) = ground (arith, any-ids row rs h)

replace_here :
    (row r : BookingRecord) (rs : Table)
    → (r.id == row.id) ≡ true
    → All (IsCompatible r) rs
    → any (conflicts row) (without row.id (r ∷ rs)) ≡ false
    → All (IsCompatible row) rs
unfolding without
replace_here row r rs e h k =
    let ids = All-ids r row.id rs e h in
    All-IsCompatible row rs (any-ids row rs ids) (ground (arith, without_absent row.id rs ids))

replace_later :
    (row r : BookingRecord) (rs : Table)
    → (r.id == row.id) ≡ false
    → any (conflicts row) (without row.id (r ∷ rs)) ≡ false
    → IsCompatible r row × (any (conflicts row) (without row.id rs) ≡ false)
unfolding without
replace_later row r rs e k = ground (arith, conflicts_comm row r)

pub replace-IsSound :
    (row : BookingRecord) (rs : Table)
    → IsSound rs
    → satisfies_checks row ≡ true
    → any (conflicts row) (without row.id rs) ≡ false
    → IsSound (replace row rs)
unfolding replace
replace-IsSound row [] h c k = tt
replace-IsSound row (r ∷ rs) (v, h, t) c k = elim (Bool-cases (r.id == row.id)) [
  | inl e ↦ rw e (c, replace_here row r rs e h k, t)
  | inr e ↦
      let (compatible, k') = replace_later row r rs e k in
      rw e (v, replace-All (IsCompatible r) row rs compatible h, replace-IsSound row rs t c k')
]

-- What the database has checked of a row that it admits.
pub admit_row_lem :
    (ws : ℕ) (row : BookingRecord) (others : Table)
    → admit_row ws row others ≡ ok tt
    → (row.workspace_id ≡ ws)
      × (satisfies_checks row ≡ true)
      × (any (λ r. r.id == row.id) others ≡ false)
      × (any (conflicts row) others ≡ false)
unfolding admit_row
admit_row_lem ws row others h = ground arith

pub find_guarded_lem :
    (ws id v : ℕ) (rs : Table) {r : BookingRecord}
    → find_guarded ws id v rs ≡ some r
    → (r.id ≡ id) × (r.workspace_id ≡ ws) × (r.version ≡ v) × (is_confirmed r.status ≡ true)
unfolding find_guarded
find_guarded_lem ws id v [] h = cc
find_guarded_lem ws id v (s ∷ rs) {r} h = ground (arith, find_guarded_lem ws id v rs {r = r})

-- The two ways in which a guarded UPDATE returns.
pub record HasUpdated (pg : PgTimestamps) (ws id v : ℕ) (set : Booking → Booking) (table : Table)
    (row : BookingRecord) (table' : Table) : Type 0 where
  pub found : BookingRecord
  pub guarded : find_guarded ws id v table ≡ some found
  pub rowed : to_row pg ws (set found.booking) ≡ ok row
  pub admitted : admit_row ws row (without id table) ≡ ok tt
  pub replaced : table' ≡ replace row table

module _ (pg : PgTimestamps) where
  pub create_lem :
      (ws : ℕ) (b : Booking) (table : Table) {row : BookingRecord} {table' : Table}
      → create pg ws b table ≡ ok (row, table')
      → (admit_row ws row table ≡ ok tt) × (table' ≡ row ∷ table)
  unfolding create
  create_lem ws b table {row} {table'} e = ground arith

  pub to_row_lem :
      (ws : ℕ) (b : Booking) {row : BookingRecord}
      → to_row pg ws b ≡ ok row
      → (row.booking ≡ b) × (row.workspace_id ≡ ws)
  unfolding to_row
  to_row_lem ws b {row} e = ground arith

  pub guarded_update_lem :
      (ws id v : ℕ) (set : Booking → Booking) (table : Table) {o : Option BookingRecord}
      {table' : Table}
      → guarded_update pg ws id v set table ≡ ok (o, table')
      → ((o ≡ none) × (table' ≡ table) × (find_guarded ws id v table ≡ none))
        ⊎ ((row : BookingRecord) × (o ≡ some row) × HasUpdated pg ws id v set table row table')
  unfolding guarded_update
  guarded_update_lem ws id v set table {o} {table'} e =
      elim (Option-cases (find_guarded ws id v table)) [
        | inl missing ↦ inl (ground arith)
        | inr (found, guarded) ↦ elim (Result-cases (to_row pg ws (set found.booking))) [
          | inr (failure, f) ↦ absurd (ground arith)
          | inl (row, rowed) ↦ elim (Result-cases (admit_row ws row (without id table))) [
            | inr (failure, f) ↦ absurd (ground arith)
            | inl (done, admitted) ↦ inr (
              row,
              ground arith,
              record {
                found = found;
                guarded = guarded;
                rowed = rowed;
                admitted = ground arith;
                replaced = ground arith;
              },
            )
          ]
        ]
      ]

  -- A row that `INSERT` admits keeps the table sound.
  pub create-IsSound :
      (ws : ℕ) (b : Booking) (table : Table) {row : BookingRecord} {table' : Table}
      → IsSound table
      → create pg ws b table ≡ ok (row, table')
      → IsSound table'
  create-IsSound ws b table {row} {table'} h e =
      let (admitted, added) = create_lem ws b table e in
      let (_, checked, fresh, free) = admit_row_lem ws row table admitted in
      rw added (checked, All-IsCompatible row table fresh free, h)

  -- So does a guarded `UPDATE` that leaves the id alone.
  pub guarded_update-IsSound :
      (ws id v : ℕ) (set : Booking → Booking) (table : Table) {o : Option BookingRecord}
      {table' : Table}
      → IsSound table
      → ((b : Booking) → (set b).id ≡ b.id)
      → guarded_update pg ws id v set table ≡ ok (o, table')
      → IsSound table'
  guarded_update-IsSound ws id v set table {o} {table'} h keeps e =
      elim (guarded_update_lem ws id v set table e) [
        | inl (_, unchanged, _) ↦ rw unchanged h
        | inr (row, _, u) ↦
            let (_, checked, _, free) = admit_row_lem ws row (without id table) u.admitted in
            let (booked, _) = to_row_lem ws (set u.found.booking) u.rowed in
            let (same_id, _, _, _) = find_guarded_lem ws id v table u.guarded in
            let key : row.id ≡ id = ground (arith, keeps u.found.booking) in
            rw u.replaced (
              replace-IsSound row table h checked
                (subst (λ i. any (conflicts row) (without i table) ≡ false) (sym key) free))
      ]
