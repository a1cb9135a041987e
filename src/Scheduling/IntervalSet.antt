-- ===== src/Scheduling/IntervalSet.antt =====
-- apps/api/src/modules/scheduling/domain/interval-set.ts: the set algebra over interval lists.
-- An array is a list, and an index into an array that only grows is the rest of the list. Each
-- function throws what `createInterval` throws on an input with an empty span.
pub mod Sets
pub mod Sorting
pub mod Normal
pub mod Common
pub mod Remaining
pub mod Difference
pub mod Unique
pub mod Algebra
use slotnova.Base.{Bool, true, false, List, [], ◌∷◌, ◌++◌, ltb, leb, if◌then◌else◌, Ordering}
use slotnova.Base.Outcome.{Result, ok, ◌>>=◌}
use slotnova.Scheduling.Interval.{
  Instant, Interval, IntervalError, create_interval, compare_intervals,
}

abbrev pub Outcome : Type 0
Outcome = Result IntervalError (List Interval)

unfoldable pub min_instant : Instant → Instant → Instant
min_instant left right = if leb left right then left else right

unfoldable pub max_instant : Instant → Instant → Instant
max_instant left right = if leb right left then left else right

-- `[...intervals].sort(compareIntervals)`, the language's stable sort.
unfoldable pub insert_sorted : Interval → List Interval → List Interval
insert_sorted x [] = x ∷ []
insert_sorted x (y ∷ ys) = elim (compare_intervals x y) [
  | Ordering.gt ↦ y ∷ insert_sorted x ys
  | _ ↦ x ∷ y ∷ ys
]

unfoldable pub sort_intervals : List Interval → List Interval
sort_intervals [] = []
sort_intervals (x ∷ xs) = insert_sorted x (sort_intervals xs)

-- The loop of `normalizeIntervals` over `currentStart` and `currentEnd`, with its last push.
unfoldable pub coalesce : Instant → Instant → List Interval → Outcome
coalesce current_start current_end [] = do
  span ← create_interval current_start current_end
  ok (span ∷ [])
coalesce current_start current_end (next ∷ rest) =
    let longer = coalesce current_start (max_instant current_end next.end) rest in
    let closed = (do
      span ← create_interval current_start current_end
      spans ← coalesce next.start next.end rest
      ok (span ∷ spans)) in
    if leb next.start current_end then longer else closed

abbrev coalesce_all : List Interval → Outcome
coalesce_all [] = ok []
coalesce_all (first ∷ rest) = coalesce first.start first.end rest

unfoldable pub normalize_intervals : List Interval → Outcome
unfolding coalesce sort_intervals insert_sorted
normalize_intervals intervals = coalesce_all (sort_intervals intervals)

unfoldable pub union_intervals : List Interval → List Interval → Outcome
union_intervals left right = normalize_intervals (left ++ right)

-- The `while` loop of `intersectIntervals`: what it pushes, and the index that it advances.
abbrev push_if : Bool → Instant → Instant → Outcome → Outcome
push_if true start end later = do span ← create_interval start end; spans ← later; ok (span ∷ spans)
push_if false start end later = later

unfoldable pub intersect_sets : List Interval → List Interval → Outcome
intersect_sets [] ys = ok []
intersect_sets (a ∷ xs) [] = ok []
intersect_sets (a ∷ xs) (b ∷ ys) =
    let start = max_instant a.start b.start in
    let end = min_instant a.end b.end in
    let left_advanced = intersect_sets xs (b ∷ ys) in
    let right_advanced = intersect_sets (a ∷ xs) ys in
    push_if (ltb start end) start end (if leb a.end b.end then left_advanced else right_advanced)

unfoldable pub intersect_intervals : List Interval → List Interval → Outcome
intersect_intervals left right = do
  left_set ← normalize_intervals left
  right_set ← normalize_intervals right
  intersect_sets left_set right_set

-- The first inner loop of `subtractIntervals`: the blockers that end after the cursor.
unfoldable pub skip_blockers : Instant → List Interval → List Interval
skip_blockers cursor [] = []
skip_blockers cursor (blocker ∷ rest) =
    let later = skip_blockers cursor rest in
    if leb blocker.end cursor then later else blocker ∷ rest

-- The second inner loop, with the push of what is left of the interval after it.
unfoldable pub scan_blockers : Instant → Instant → List Interval → Outcome
scan_blockers cursor end [] = push_if (ltb cursor end) cursor end (ok [])
scan_blockers cursor end (blocker ∷ rest) =
    let next = max_instant cursor blocker.end in
    let later = scan_blockers next end rest in
    let after = (if leb end next then push_if (ltb next end) next end (ok []) else later) in
    if ltb blocker.start end
    then push_if (ltb cursor blocker.start) cursor (min_instant blocker.start end) after
    else push_if (ltb cursor end) cursor end (ok [])

-- The outer loop; `removed` is the array from `removedIndex` on.
unfoldable pub subtract_sets : List Interval → List Interval → Outcome
subtract_sets [] removed = ok []
subtract_sets (interval ∷ source) removed = do
  let removed' = skip_blockers interval.start removed
  pieces ← scan_blockers interval.start interval.end removed'
  rest ← subtract_sets source removed'
  ok (pieces ++ rest)

abbrev subtract_normal : List Interval → List Interval → Outcome
subtract_normal source [] = ok source
subtract_normal source (blocker ∷ removed) = subtract_sets source (blocker ∷ removed)

abbrev subtract_from : List Interval → List Interval → Outcome
subtract_from [] removed = ok []
subtract_from (interval ∷ source) removed = do
  removed_set ← normalize_intervals removed
  subtract_normal (interval ∷ source) removed_set

unfoldable pub subtract_intervals : List Interval → List Interval → Outcome
subtract_intervals source removed = do
  source_set ← normalize_intervals source
  subtract_from source_set removed
