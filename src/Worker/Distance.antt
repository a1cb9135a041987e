-- ===== src/Worker/Distance.antt =====
-- How far the cursor is from a row, in rows that polls pass.
use slotnova.Base.{
  ℕ, suc, ◌+◌, ◌*◌, ◌≤◌, ◌<◌, ◌≡◌, inl, inr, Bool, true, false, ◌&&◌, Option, none, some, ltb, leb,
  if◌then◌else◌, Bool-cases, lt→ltb, arith,
}
use slotnova.Base.Lists.{length}
use slotnova.Base.Rows.{tally, count, count-le, count-add-le, count-length}
use slotnova.Worker.Claim.{OutboxRow, Outbox, has_id, is_after}

-- The rows between the cursor and the id; then the way round, when the cursor is past the id.
abbrev pub ahead : Option ℕ → ℕ → OutboxRow → Bool
ahead cursor x r = is_after cursor r.event.id && leb r.event.id x

abbrev pub distance_if : Bool → ℕ → Option ℕ → Outbox → ℕ
distance_if before x cursor t =
    if before
    then count (ahead cursor x) t
    else suc (count (λ r. is_after cursor r.event.id) t + count (λ r. leb r.event.id x) t)

abbrev pub distance : ℕ → Option ℕ → Outbox → ℕ
distance x cursor t = distance_if (is_after cursor x) x cursor t

module _ (x next : ℕ) (t : Outbox) (there : 1 ≤ count (has_id next) t) where
  -- The cursor moves closer to the id, or on to the end, or back to the start.
  pub distance_closer :
      (cursor : Option ℕ)
      → is_after cursor x ≡ true
      → is_after cursor next ≡ true
      → next < x
      → suc (distance x (some next) t) ≤ distance x cursor t
  distance_closer cursor before on lt =
      let both =
        count-add-le (ahead (some next) x) (has_id next) (ahead cursor x) t (pointwise cursor on) in
      rw (before, lt→ltb next x lt) (omega arith)
    where
      pointwise :
          (cursor : Option ℕ)
          → is_after cursor next ≡ true
          → (r : OutboxRow)
          → tally (ahead (some next) x r) + tally (has_id next r) ≤ tally (ahead cursor x r)
      pointwise none on r = ground arith
      pointwise (some o) on r = ground arith

  pub distance_on :
      (cursor : Option ℕ)
      → is_after cursor x ≡ false
      → is_after cursor next ≡ true
      → suc (distance x (some next) t) ≤ distance x cursor t
  distance_on none past on = cc (past)
  distance_on (some o) past on =
      let farther : ltb next x ≡ false = ground arith in
      let both =
        count-add-le (λ r. ltb next r.event.id) (has_id next) (λ r. ltb o r.event.id) t
          (λ r. ground arith) in
      rw (past, farther) (omega arith)

pub distance_back :
    (x : ℕ) (t : Outbox) (cursor : Option ℕ)
    → is_after cursor x ≡ false
    → suc (distance x none t) ≤ distance x cursor t
distance_back x t none past = cc (past)
distance_back x t (some o) past =
    let same = count-le (ahead none x) (λ r. leb r.event.id x) t (λ r. omega arith) in
    rw past (omega arith)

pub distance_le :
    (x : ℕ) (cursor : Option ℕ) (t : Outbox) → distance x cursor t ≤ suc (2 * length t)
distance_le x cursor t =
    let a = count-length (ahead cursor x) t in
    let b = count-length (λ (r : OutboxRow). is_after cursor r.event.id) t in
    let d = count-length (λ (r : OutboxRow). leb r.event.id x) t in
    elim (Bool-cases (is_after cursor x)) [
      | inl e ↦ rw e (omega arith)
      | inr e ↦ rw e (omega arith)
    ]
