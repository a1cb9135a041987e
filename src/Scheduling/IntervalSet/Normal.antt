-- ===== src/Scheduling/IntervalSet/Normal.antt =====
-- `normalizeIntervals` on lists of proper spans: it returns, its result is canonical and covers
-- the same instants.
use slotnova.Base.{
  ◌≤◌, ◌<◌, ◌≡◌, refl, ap, ◌∙◌, Bool, true, false, ◌||◌, List, [], ◌∷◌, leb, if◌then◌else◌, inl,
  inr, Bool-cases, leb→le, arith,
}
use slotnova.Base.Lists.{All}
use slotnova.Base.Outcome.{ok}
use slotnova.Scheduling.Interval.{Instant, Interval, create_interval, interval_contains}
use slotnova.Scheduling.IntervalSet.{
  coalesce, coalesce_all, max_instant, sort_intervals, normalize_intervals,
}
use slotnova.Scheduling.IntervalSet.Sets.{IsProper, covers, IsCanonical, IsCanonicalAfter}
use slotnova.Scheduling.IntervalSet.Sorting.{
  IsAscendingFrom, sort_intervals-IsAscendingFrom, covers-sort_intervals, sort_intervals-All,
}

-- The spans of the loop, with no failure.
merged : Instant → Instant → List Interval → List Interval
merged s e [] = record { start = s; end = e } ∷ []
merged s e (x ∷ xs) =
    let longer = merged s (max_instant e x.end) xs in
    let closed = (record { start = s; end = e }) ∷ merged x.start x.end xs in
    if leb x.start e then longer else closed

pub create_interval-proper :
    (s e : Instant) → s < e → create_interval s e ≡ ok (record { start = s; end = e })
unfolding create_interval
create_interval-proper s e h = ground arith

max_instant-le : (a b : Instant) → (a ≤ max_instant a b) × (b ≤ max_instant a b)
unfolding max_instant
max_instant-le a b = ground arith

coalesce-eq-ok :
    (s e : Instant) (xs : List Interval)
    → s < e
    → All IsProper xs
    → coalesce s e xs ≡ ok (merged s e xs)
unfolding coalesce merged
coalesce-eq-ok s e [] p h = rw (create_interval-proper s e p)
coalesce-eq-ok s e (x ∷ xs) p (q, h) = ground (
  arith,
  create_interval-proper s e p,
  max_instant-le e x.end,
  coalesce-eq-ok s (max_instant e x.end) xs,
  coalesce-eq-ok x.start x.end xs q h,
)

ascend_from :
    (b c : Instant) (xs : List Interval) → b ≤ c → IsAscendingFrom c xs → IsAscendingFrom b xs
ascend_from b c [] le h = tt
ascend_from b c (x ∷ xs) le (p, h) = (omega arith, h)

merged-IsCanonicalAfter :
    (b s e : Instant) (xs : List Interval)
    → b < s
    → s < e
    → All IsProper xs
    → IsAscendingFrom s xs
    → IsCanonicalAfter b (merged s e xs)
unfolding merged
merged-IsCanonicalAfter b s e [] lt p h k = (lt, p, tt)
merged-IsCanonicalAfter b s e (x ∷ xs) lt p (q, h) (le, k) = elim (Bool-cases (leb x.start e)) [
  | inl touches ↦ rw touches (
      merged-IsCanonicalAfter b s (max_instant e x.end) xs lt
        (omega (arith, max_instant-le e x.end)) h (ascend_from s x.start xs le k))
  | inr apart ↦ rw apart (lt, p, merged-IsCanonicalAfter e x.start x.end xs (ground arith) q h k)
]

merged-IsCanonical :
    (s e : Instant) (xs : List Interval)
    → s < e
    → All IsProper xs
    → IsAscendingFrom s xs
    → IsCanonical (merged s e xs)
unfolding merged
merged-IsCanonical s e [] p h k = (p, tt)
merged-IsCanonical s e (x ∷ xs) p (q, h) (le, k) = elim (Bool-cases (leb x.start e)) [
  | inl touches ↦ rw touches (
      merged-IsCanonical s (max_instant e x.end) xs (omega (arith, max_instant-le e x.end)) h
        (ascend_from s x.start xs le k))
  | inr apart ↦ rw apart (p, merged-IsCanonicalAfter e x.start x.end xs (ground arith) q h k)
]

abbrev span : Instant → Instant → Interval
span s e = record { start = s; end = e }

-- Two spans that touch cover what their join covers.
contains-join :
    (s e : Instant) (x : Interval) (t : Instant)
    → s < e
    → s ≤ x.start
    → x.start < x.end
    → x.start ≤ e
    → interval_contains (span s (max_instant e x.end)) t
      ≡ (interval_contains (span s e) t || interval_contains x t)
unfolding interval_contains max_instant
contains-join s e x t p le q touch = ground arith

or_assoc : (a b c : Bool) → ((a || b) || c) ≡ (a || (b || c))
or_assoc true b c = refl
or_assoc false b c = refl

covers-merged :
    (s e : Instant) (xs : List Interval) (t : Instant)
    → s < e
    → All IsProper xs
    → IsAscendingFrom s xs
    → covers (merged s e xs) t ≡ (interval_contains (span s e) t || covers xs t)
unfolding merged
covers-merged s e [] t p h k = refl
covers-merged s e (x ∷ xs) t p (q, h) (le, k) = elim (Bool-cases (leb x.start e)) [
  | inl touches ↦ rw touches (
      covers-merged s (max_instant e x.end) xs t (omega (arith, max_instant-le e x.end)) h
        (ascend_from s x.start xs le k)
      ∙ ap (λ c. c || covers xs t) (contains-join s e x t p le q (leb→le _ _ touches))
      ∙ or_assoc (interval_contains (span s e) t) (interval_contains x t) (covers xs t))
  | inr apart ↦
      rw apart
        (ap (λ c. interval_contains (span s e) t || c) (covers-merged x.start x.end xs t q h k))
]

merged_all : List Interval → List Interval
unfolding merged
merged_all [] = []
merged_all (x ∷ xs) = merged x.start x.end xs

-- The canonical list of a list of spans, with no failure.
pub canonical : List Interval → List Interval
unfolding merged_all
canonical xs = merged_all (sort_intervals xs)

merged_all-IsCanonical :
    (xs : List Interval) → All IsProper xs → IsAscendingFrom 0 xs → IsCanonical (merged_all xs)
unfolding merged_all
merged_all-IsCanonical [] h k = tt
merged_all-IsCanonical (x ∷ xs) (p, h) (le, k) = merged-IsCanonical x.start x.end xs p h k

covers-merged_all :
    (xs : List Interval) (t : Instant)
    → All IsProper xs
    → IsAscendingFrom 0 xs
    → covers (merged_all xs) t ≡ covers xs t
unfolding merged_all
covers-merged_all [] t h k = refl
covers-merged_all (x ∷ xs) t (p, h) (le, k) = covers-merged x.start x.end xs t p h k

coalesce_all-eq-ok : (xs : List Interval) → All IsProper xs → coalesce_all xs ≡ ok (merged_all xs)
unfolding merged_all
coalesce_all-eq-ok [] h = refl
coalesce_all-eq-ok (x ∷ xs) (p, h) = coalesce-eq-ok x.start x.end xs p h

pub normalize_intervals-eq-ok :
    (xs : List Interval) → All IsProper xs → normalize_intervals xs ≡ ok (canonical xs)
unfolding normalize_intervals canonical
normalize_intervals-eq-ok xs h =
    coalesce_all-eq-ok (sort_intervals xs) (sort_intervals-All IsProper xs h)

pub canonical-IsCanonical : (xs : List Interval) → All IsProper xs → IsCanonical (canonical xs)
unfolding canonical
canonical-IsCanonical xs h =
    merged_all-IsCanonical (sort_intervals xs) (sort_intervals-All IsProper xs h)
      (sort_intervals-IsAscendingFrom xs)

pub covers-canonical :
    (xs : List Interval) (t : Instant) → All IsProper xs → covers (canonical xs) t ≡ covers xs t
unfolding canonical
covers-canonical xs t h =
    covers-merged_all (sort_intervals xs) t (sort_intervals-All IsProper xs h)
      (sort_intervals-IsAscendingFrom xs)
    ∙ covers-sort_intervals xs t
