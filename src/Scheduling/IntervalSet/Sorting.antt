-- ===== src/Scheduling/IntervalSet/Sorting.antt =====
-- The sort of `normalizeIntervals`: its result is ordered by start, and covers the same instants.
use slotnova.Base.{◌≤◌, ◌≡◌, refl, ◌||◌, List, [], ◌∷◌, Ordering, arith}
use slotnova.Base.Lists.{All}
use slotnova.Scheduling.Interval.{Instant, Interval, interval_contains, compare_intervals}
use slotnova.Scheduling.IntervalSet.{insert_sorted, sort_intervals}
use slotnova.Scheduling.IntervalSet.Sets.{covers}

-- Every start is at least the bound.
abbrev pub IsAscendingFrom : Instant → List Interval → Type 0
IsAscendingFrom b [] = Unit
IsAscendingFrom b (x ∷ xs) = (b ≤ x.start) × IsAscendingFrom x.start xs

insert_sorted-IsAscendingFrom :
    (b : Instant) (x : Interval) (xs : List Interval)
    → b ≤ x.start
    → IsAscendingFrom b xs
    → IsAscendingFrom b (insert_sorted x xs)
unfolding insert_sorted compare_intervals
insert_sorted-IsAscendingFrom b x [] le h = (le, tt)
insert_sorted-IsAscendingFrom b x (y ∷ ys) le (p, h) =
    ground (arith, insert_sorted-IsAscendingFrom y.start x ys)

pub sort_intervals-IsAscendingFrom : (xs : List Interval) → IsAscendingFrom 0 (sort_intervals xs)
unfolding sort_intervals
sort_intervals-IsAscendingFrom [] = tt
sort_intervals-IsAscendingFrom (x ∷ xs) =
    insert_sorted-IsAscendingFrom 0 x (sort_intervals xs) (omega arith)
      (sort_intervals-IsAscendingFrom xs)

covers-insert_sorted :
    (x : Interval) (xs : List Interval) (t : Instant)
    → covers (insert_sorted x xs) t ≡ (interval_contains x t || covers xs t)
unfolding insert_sorted
covers-insert_sorted x [] t = refl
covers-insert_sorted x (y ∷ ys) t = ground (arith, covers-insert_sorted x ys t)

pub covers-sort_intervals :
    (xs : List Interval) (t : Instant) → covers (sort_intervals xs) t ≡ covers xs t
unfolding sort_intervals
covers-sort_intervals [] t = refl
covers-sort_intervals (x ∷ xs) t =
    ground (arith, covers-insert_sorted x (sort_intervals xs) t, covers-sort_intervals xs t)

insert_sorted-All {κ} :
    (P : Interval → Type κ) (x : Interval) (xs : List Interval)
    → P x
    → All P xs
    → All P (insert_sorted x xs)
unfolding insert_sorted
insert_sorted-All P x [] p h = (p, tt)
insert_sorted-All P x (y ∷ ys) p (q, h) =
    elim (compare_intervals x y)
      as (λ o. All P (elim o [ Ordering.gt ↦ y ∷ insert_sorted x ys | _ ↦ x ∷ y ∷ ys ])) [
        | Ordering.gt ↦ (q, insert_sorted-All P x ys p h)
        | _ ↦ (p, (q, h))
      ]

pub sort_intervals-All {κ} :
    (P : Interval → Type κ) (xs : List Interval) → All P xs → All P (sort_intervals xs)
unfolding sort_intervals
sort_intervals-All P [] h = tt
sort_intervals-All P (x ∷ xs) (p, h) =
    insert_sorted-All P x (sort_intervals xs) p (sort_intervals-All P xs h)
