-- ===== src/Worker/Paging.antt =====
-- The rows that a poll locks: the next ones after the cursor, in the order of their ids.
use mathlib.Core.Path.{subst}
use slotnova.Base.{
  ℕ, zero, suc, ◌≤◌, ◌<◌, ◌≡◌, refl, sym, ◌∙◌, ◌⊎◌, inl, inr, Bool, true, ◌&&◌, Option, some, List,
  [], ◌∷◌, Bool-cases, arith,
}
use slotnova.Base.Lists.{any, filter, All}
use slotnova.Base.Rows.{
  count-le, count-filter, any-All, any-take, any-count, count-any, All-sort_by, count, take,
  insert_by, sort_by, All-take, All-insert_by, All-imp, filter-All,
}
use slotnova.Worker.Claim.{
  OutboxRow, Outbox, has_id, is_candidate, id_before, is_after, candidates, last_id,
}

-- Each row's id is at most those of the rows after it.
abbrev pub IsAscending : List OutboxRow → Type 0
IsAscending [] = Unit
IsAscending (r ∷ rs) = All (λ s. r.event.id ≤ s.event.id) rs × IsAscending rs

insert_by-IsAscending :
    (r : OutboxRow) (rs : List OutboxRow) → IsAscending rs → IsAscending (insert_by id_before r rs)
unfolding insert_by
insert_by-IsAscending r [] h = (tt, tt)
insert_by-IsAscending r (s ∷ rs) (p, h) = elim (Bool-cases (id_before s r)) [
  | inl e ↦ rw e (
    All-insert_by (λ y. s.event.id ≤ y.event.id) id_before r rs (ground (arith, e)) p,
    insert_by-IsAscending r rs h,
  )
  | inr e ↦
      let le : r.event.id ≤ s.event.id = ground (arith, e) in
      rw e (
        (
          le,
          All-imp (λ y. s.event.id ≤ y.event.id) (λ y. r.event.id ≤ y.event.id) rs
              (λ y q. omega arith) p,
        ),
        (p, h),
      )
]

sort_by-IsAscending : (rs : List OutboxRow) → IsAscending (sort_by id_before rs)
unfolding sort_by
sort_by-IsAscending [] = tt
sort_by-IsAscending (r ∷ rs) =
    insert_by-IsAscending r (sort_by id_before rs) (sort_by-IsAscending rs)

any-insert_by :
    (x : ℕ) (r : OutboxRow) (rs : List OutboxRow)
    → any (has_id x) (insert_by id_before r rs) ≡ any (has_id x) (r ∷ rs)
unfolding insert_by
any-insert_by x r [] = refl
any-insert_by x r (s ∷ rs) = elim (Bool-cases (id_before s r)) [
  | inl e ↦ rw (e, any-insert_by x r rs) (ground arith)
  | inr e ↦ rw e refl
]

any-sort_by :
    (x : ℕ) (rs : List OutboxRow) → any (has_id x) (sort_by id_before rs) ≡ any (has_id x) rs
unfolding sort_by
any-sort_by x [] = refl
any-sort_by x (r ∷ rs) = rw (any-insert_by x r (sort_by id_before rs), any-sort_by x rs) refl

-- A row of an ascending list is taken, or only rows that come before it are, and at least one.
take-reach :
    (n x : ℕ) (rs : List OutboxRow)
    → IsAscending rs
    → any (has_id x) rs ≡ true
    → (any (has_id x) (take (suc n) rs) ≡ true)
      ⊎ ((c : ℕ) × (last_id (take (suc n) rs) ≡ some c) × (c < x))
unfolding take last_id
take-reach n x [] h found = cc (found)
take-reach zero x (r ∷ rs) (p, h) found = elim (Bool-cases (has_id x r)) [
  | inl e ↦ inl (rw e refl)
  | inr e ↦
      let (s, its, le) =
        any-All (λ s. r.event.id ≤ s.event.id) (has_id x) rs (ground (arith, e, found)) p in
      inr (r.event.id, refl, ground (arith, e, its, le))
]
take-reach (suc n) x (r ∷ []) (p, h) found = inl found
take-reach (suc n) x (r ∷ s ∷ rs) (p, h) found = elim (Bool-cases (has_id x r)) [
  | inl e ↦ inl (rw e refl)
  | inr e ↦
      let rest : any (has_id x) (s ∷ rs) ≡ true = ground (arith, e, found) in
      elim (take-reach n x (s ∷ rs) h rest) [
        | inl taken ↦ inl (rw e taken)
        | inr before ↦ inr before
      ]
]

last_id-All {κ} :
    (P : OutboxRow → Type κ) (rs : List OutboxRow) {c : ℕ}
    → All P rs
    → last_id rs ≡ some c
    → (r : OutboxRow) × (r.event.id ≡ c) × P r
unfolding last_id
last_id-All P [] h e = cc (e)
last_id-All P (r ∷ []) (p, h) e = (r, ground arith, p)
last_id-All P (r ∷ s ∷ rs) (p, h) e = last_id-All P (s ∷ rs) h e

last_id-any : (rs : List OutboxRow) {c : ℕ} → last_id rs ≡ some c → any (has_id c) rs ≡ true
unfolding last_id
last_id-any [] e = cc (e)
last_id-any (r ∷ []) {c} e = ground arith
last_id-any (r ∷ s ∷ rs) {c} e = rw (last_id-any (s ∷ rs) {c = c} e) (ground arith)

module _ (now : ℕ) (locked : ℕ → Bool) (cursor : Option ℕ) where
  -- The last row that is locked comes after the cursor, and is a row of the table.
  pub last_id-candidates :
      (batch_size : ℕ) (t : Outbox) {c : ℕ}
      → last_id (candidates now locked batch_size cursor t) ≡ some c
      → (is_after cursor c ≡ true) × (1 ≤ count (has_id c) t)
  unfolding candidates
  last_id-candidates batch_size t {c} e =
      let chosen = filter (is_candidate now locked cursor) t in
      let (r, its, eligible) =
        last_id-All (λ r. is_candidate now locked cursor r ≡ true)
          (take batch_size (sort_by id_before chosen)) {c = c}
          (All-take (λ r. is_candidate now locked cursor r ≡ true) batch_size
            (sort_by id_before chosen)
            (All-sort_by (λ r. is_candidate now locked cursor r ≡ true) id_before chosen
              (filter-All (is_candidate now locked cursor) t)))
          e in
      let among : any (has_id c) chosen ≡ true =
        sym (any-sort_by c chosen)
        ∙ any-take (has_id c) batch_size (sort_by id_before chosen)
            (last_id-any (take batch_size (sort_by id_before chosen)) {c = c} e) in
      let some_row = any-count (has_id c) chosen among in
      (
        subst (λ i. is_after cursor i ≡ true) its (ground (arith, eligible)),
        omega (
          arith,
          some_row,
          count-filter (is_candidate now locked cursor) (has_id c) t,
          count-le (λ r. has_id c r && is_candidate now locked cursor r) (has_id c) t
              (λ r. ground arith),
        ),
      )

  -- A row that may be locked is, or the batch is full of rows that come before it.
  pub candidates-reach :
      (n x : ℕ) (t : Outbox)
      → 1 ≤ count (λ r. has_id x r && is_candidate now locked cursor r) t
      → (any (has_id x) (candidates now locked (suc n) cursor t) ≡ true)
        ⊎ ((c : ℕ) × (last_id (candidates now locked (suc n) cursor t) ≡ some c) × (c < x))
  unfolding candidates
  candidates-reach n x t h =
      let chosen = filter (is_candidate now locked cursor) t in
      take-reach n x (sort_by id_before chosen) (sort_by-IsAscending chosen) (
        any-sort_by x chosen
        ∙ count-any (has_id x) chosen
            (rw (count-filter (is_candidate now locked cursor) (has_id x) t) h))
