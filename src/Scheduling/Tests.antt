-- ===== src/Scheduling/Tests.antt =====
-- Runs and instances of the theorems on interval sets.
use slotnova.Base.{◌≡◌, ◌↔◌, refl, not, ◌&&◌, ◌||◌, List, [], ◌∷◌, arith}
use slotnova.Base.Lists.{All}
use slotnova.Base.Outcome.{ok}
use slotnova.Scheduling.Interval.{Instant, Interval, create_interval, compare_intervals}
use slotnova.Scheduling.IntervalSet.{
  normalize_intervals, union_intervals, intersect_intervals, subtract_intervals, max_instant,
  min_instant, intersect_sets, subtract_sets, skip_blockers, scan_blockers,
}
use slotnova.Scheduling.IntervalSet.Sets.{IsProper, IsSameSet, covers}
use slotnova.Scheduling.IntervalSet.Algebra.{
  Yields, normalize_intervals-Yields, normalize_intervals-eq_iff, union_intervals-Yields,
  intersect_intervals-Yields, subtract_intervals-Yields,
}

abbrev span : Instant → Instant → Interval
span s e = record { start = s; end = e }

-- Out of order, overlapping and touching.
abbrev morning : List Interval
morning = span 30 50 ∷ span 0 10 ∷ span 5 20 ∷ span 20 25 ∷ []

abbrev busy : List Interval
busy = span 40 60 ∷ span 2 4 ∷ []

morning-IsProper : All IsProper morning
morning-IsProper = omega arith

busy-IsProper : All IsProper busy
busy-IsProper = omega arith

algebra : Unit {0}
unfolding normalize_intervals union_intervals intersect_intervals subtract_intervals create_interval
    compare_intervals max_instant min_instant intersect_sets subtract_sets skip_blockers
    scan_blockers
algebra = tt

normalize_morning : normalize_intervals morning ≡ ok (span 0 25 ∷ span 30 50 ∷ [])
unfolding algebra
normalize_morning = refl

subtract_busy : subtract_intervals morning busy ≡ ok (span 0 2 ∷ span 4 25 ∷ span 30 40 ∷ [])
unfolding algebra
subtract_busy = refl

intersect_busy : intersect_intervals morning busy ≡ ok (span 2 4 ∷ span 40 50 ∷ [])
unfolding algebra
intersect_busy = refl

union_busy : union_intervals morning busy ≡ ok (span 0 25 ∷ span 30 60 ∷ [])
unfolding algebra
union_busy = refl

normalize_intervals-Yields_example : Yields (covers morning) (normalize_intervals morning)
normalize_intervals-Yields_example = normalize_intervals-Yields morning morning-IsProper

normalize_intervals-eq_iff_example :
    (normalize_intervals morning ≡ normalize_intervals busy) ↔ IsSameSet morning busy
normalize_intervals-eq_iff_example =
    normalize_intervals-eq_iff morning busy morning-IsProper busy-IsProper

union_intervals-Yields_example :
    Yields (λ t. covers morning t || covers busy t) (union_intervals morning busy)
union_intervals-Yields_example = union_intervals-Yields morning busy morning-IsProper busy-IsProper

intersect_intervals-Yields_example :
    Yields (λ t. covers morning t && covers busy t) (intersect_intervals morning busy)
intersect_intervals-Yields_example =
    intersect_intervals-Yields morning busy morning-IsProper busy-IsProper

subtract_intervals-Yields_example :
    Yields (λ t. covers morning t && not (covers busy t)) (subtract_intervals morning busy)
subtract_intervals-Yields_example =
    subtract_intervals-Yields morning busy morning-IsProper busy-IsProper
