-- ===== src/Scheduling/IntervalSet/Difference.antt =====
-- The outer loop of `subtractIntervals` on canonical lists: it returns, the result is canonical
-- and covers the instants of the source that no blocker covers.
use slotnova.Base.{
  suc, ◌≤◌, ◌<◌, ◌≡◌, refl, ◌∙◌, inl, inr, Bool, false, not, ◌&&◌, ◌||◌, List, [], ◌∷◌, ◌++◌, leb,
  Bool-cases, arith,
}
use mathlib.Core.Path.{ap₂}
use slotnova.Base.Outcome.{ok}
use slotnova.Scheduling.Interval.{Instant, Interval, interval_contains}
use slotnova.Scheduling.IntervalSet.{skip_blockers, subtract_sets}
use slotnova.Scheduling.IntervalSet.Sets.{
  covers, covers-append, covers_up_to, IsCanonical, IsCanonicalAfter, IsCanonicalFrom,
  IsCanonical-IsCanonicalFrom, IsCanonicalFrom-IsCanonical, IsCanonicalFrom-weaken,
  IsCanonicalAfter-IsCanonical,
}
use slotnova.Scheduling.IntervalSet.Remaining.{
  remaining, scan_blockers-eq-ok, remaining-IsCanonicalFrom, covers-remaining, EndsBy,
  remaining-EndsBy,
}

IsCanonicalFrom-append :
    (lo e : Instant) (xs ys : List Interval)
    → IsCanonicalFrom lo xs
    → EndsBy e xs
    → lo ≤ suc e
    → IsCanonicalAfter e ys
    → IsCanonicalFrom lo (xs ++ ys)
IsCanonicalFrom-append lo e [] ys h b le k = IsCanonicalFrom-weaken lo (suc e) ys le k
IsCanonicalFrom-append lo e (x ∷ xs) ys (p, q, h) (d, b) le k =
    (p, q, IsCanonicalFrom-append (suc x.end) e xs ys h b (omega arith) k)

skip_blockers-IsCanonical :
    (cursor : Instant) (rs : List Interval) → IsCanonical rs → IsCanonical (skip_blockers cursor rs)
unfolding skip_blockers
skip_blockers-IsCanonical cursor [] h = tt
skip_blockers-IsCanonical cursor (b ∷ rs) (p, h) = elim (Bool-cases (leb b.end cursor)) [
  | inl done ↦
      rw done (skip_blockers-IsCanonical cursor rs (IsCanonicalAfter-IsCanonical b.end rs h))
  | inr meets ↦ rw meets (p, h)
]

-- From the cursor on, the skipped blockers cover nothing.
covers-skip_blockers :
    (cursor : Instant) (rs : List Interval) (t : Instant)
    → cursor ≤ t
    → covers (skip_blockers cursor rs) t ≡ covers rs t
unfolding skip_blockers interval_contains
covers-skip_blockers cursor [] t le = refl
covers-skip_blockers cursor (b ∷ rs) t le = ground (arith, covers-skip_blockers cursor rs t le)

-- The result of the outer loop, with no failure.
pub difference : List Interval → List Interval → List Interval
difference [] removed = []
difference (x ∷ source) removed =
    let removed' = skip_blockers x.start removed in
    remaining x.start x.end removed' ++ difference source removed'

pub subtract_sets-eq-ok :
    (source removed : List Interval) → subtract_sets source removed ≡ ok (difference source removed)
unfolding subtract_sets difference
subtract_sets-eq-ok [] removed = refl
subtract_sets-eq-ok (x ∷ source) removed = rw (
  scan_blockers-eq-ok x.start x.end (skip_blockers x.start removed),
  subtract_sets-eq-ok source (skip_blockers x.start removed),
)

pub difference-IsCanonicalFrom :
    (lo : Instant) (source removed : List Interval)
    → IsCanonicalFrom lo source
    → IsCanonical removed
    → IsCanonicalFrom lo (difference source removed)
unfolding difference
difference-IsCanonicalFrom lo [] removed h k = tt
difference-IsCanonicalFrom lo (x ∷ source) removed (lt, p, h) k =
    let removed' = skip_blockers x.start removed in
    let k' = skip_blockers-IsCanonical x.start removed k in
    IsCanonicalFrom-append lo x.end (remaining x.start x.end removed') (difference source removed')
      (remaining-IsCanonicalFrom lo x.start x.end removed' lt k')
      (remaining-EndsBy x.start x.end removed') (omega arith)
      (difference-IsCanonicalFrom (suc x.end) source removed' h k')

pub difference-IsCanonical :
    (source removed : List Interval)
    → IsCanonical source
    → IsCanonical removed
    → IsCanonical (difference source removed)
difference-IsCanonical source removed h k =
    IsCanonicalFrom-IsCanonical 0 (difference source removed)
      (difference-IsCanonicalFrom 0 source removed (IsCanonical-IsCanonicalFrom source h) k)

-- One span of the source and the rest, against the blockers before and after the skip.
covers_step :
    (x : Interval) (t : Instant) (rest before after : Bool)
    → x.start < x.end
    → (x.start ≤ t → after ≡ before)
    → (t ≤ x.end → rest ≡ false)
    → ((interval_contains x t && not after) || (rest && not after))
      ≡ ((interval_contains x t || rest) && not before)
unfolding interval_contains
covers_step x t rest before after p h k = ground arith

pub covers-difference :
    (source removed : List Interval) (t : Instant)
    → IsCanonical source
    → IsCanonical removed
    → covers (difference source removed) t ≡ (covers source t && not (covers removed t))
unfolding difference
covers-difference [] removed t h k = refl
covers-difference (x ∷ source) removed t (p, h) k =
    let removed' = skip_blockers x.start removed in
    let k' = skip_blockers-IsCanonical x.start removed k in
    covers-append (remaining x.start x.end removed') (difference source removed') t
    ∙ ap₂ (λ a b. a || b) (covers-remaining x.start x.end removed' t k')
        (covers-difference source removed' t (IsCanonicalAfter-IsCanonical x.end source h) k')
    ∙ covers_step x t (covers source t) (covers removed t) (covers removed' t) p
        (covers-skip_blockers x.start removed t) (λ le. covers_up_to x.end t source le h)
