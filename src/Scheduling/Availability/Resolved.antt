-- ===== src/Scheduling/Availability/Resolved.antt =====
-- What a resolved availability covers, and that the bounds of its two queries lose nothing.
use slotnova.Base.{
  ◌≤◌, ◌<◌, ◌≡◌, ◌↔◌, refl, sym, ap, ◌∙◌, inl, inr, Bool, true, false, not, ◌&&◌, ◌||◌, List, [],
  ◌∷◌, ltb, leb, Bool-cases, arith,
}
use slotnova.Base.Lists.{any, All, All-filter, any-filter}
use slotnova.Base.Outcome.{Result, ok, err}
use slotnova.Scheduling.Interval.{Instant, Interval, create_interval, interval_contains}
use slotnova.Scheduling.IntervalSet.{Outcome, subtract_intervals}
use slotnova.Scheduling.IntervalSet.Sets.{IsProper, covers, IsCanonical, IsCanonical-IsProper}
use slotnova.Scheduling.IntervalSet.Algebra.{Yields, subtract_intervals-Yields}
use slotnova.Scheduling.WallClock.{SchedulingError}
use slotnova.Scheduling.Recurrence.Expansion.{Collects}
use slotnova.Scheduling.Recurrence.Coverage.{Covers}
use slotnova.Scheduling.Availability.{
  AvailabilityExceptionRecord, list_overlapping, last_of, to_intervals, load_exceptions,
  without_exceptions,
}

abbrev pub IsProperException : AvailabilityExceptionRecord → Type 0
IsProperException e = e.exception_starts_at < e.exception_ends_at

abbrev pub excepts : Instant → AvailabilityExceptionRecord → Bool
excepts t e = leb e.exception_starts_at t && ltb t e.exception_ends_at

pub collected :
    (p : Instant → Bool) (a : Result SchedulingError (List Interval))
    → Collects p a
    → (xs : List Interval) × (a ≡ ok xs) × All IsProper xs × ((t : Instant) → covers xs t ≡ p t)
collected p (ok xs) (h, f) = (xs, refl, h, f)
collected p (err e) h = absurd h

pub covered :
    (P : Instant → Type 0) (a : Result SchedulingError (List Interval))
    → Covers P a
    → (xs : List Interval) × (a ≡ ok xs)
      × IsCanonical xs
      × ((t : Instant) → (covers xs t ≡ true) ↔ P t)
covered P (ok xs) (h, f) = (xs, refl, h, f)
covered P (err e) h = absurd h

pub yielded :
    (p : Instant → Bool) (a : Outcome)
    → Yields p a
    → (xs : List Interval) × (a ≡ ok xs) × IsCanonical xs × ((t : Instant) → covers xs t ≡ p t)
yielded p (ok xs) (h, f) = (xs, refl, h, f)
yielded p (err e) h = absurd h

to_intervals-Collects :
    (exceptions : List AvailabilityExceptionRecord)
    → All IsProperException exceptions
    → Collects (λ t. any (excepts t) exceptions) (to_intervals exceptions)
unfolding to_intervals create_interval interval_contains
to_intervals-Collects [] h = (tt, λ t. refl)
to_intervals-Collects (e ∷ es) (p, h) =
    let valid : leb e.exception_ends_at e.exception_starts_at ≡ false = ground arith in
    let (spans, eq, k, f) =
      collected (λ t. any (excepts t) es) (to_intervals es) (to_intervals-Collects es h) in
    rw (valid, eq) ((p, k), λ t. ap (λ b. excepts t e || b) (f t))

-- A span of the list lies between the first start and the last end.
last_of-lt :
    (x : Interval) (xs : List Interval) → IsCanonical (x ∷ xs) → x.start < (last_of x xs).end
last_of-lt x [] (p, h) = p
last_of-lt x (y ∷ ys) (p, (a, b, h)) = let k = last_of-lt y ys (b, h) in omega arith

covers_bounds :
    (x : Interval) (xs : List Interval) (t : Instant)
    → IsCanonical (x ∷ xs)
    → covers (x ∷ xs) t ≡ true
    → (x.start ≤ t) × (t < (last_of x xs).end)
unfolding interval_contains
covers_bounds x [] t (p, h) e = (ground arith, ground arith)
covers_bounds x (y ∷ ys) t (p, (a, b, h)) e = elim (Bool-cases (interval_contains x t)) [
  | inl f ↦ let k = last_of-lt y ys (b, h) in (ground arith, ground arith)
  | inr f ↦
      let g : covers (y ∷ ys) t ≡ true = ground arith in
      let (k, l) = covers_bounds y ys t (b, h) g in (omega arith, l)
]

only_relevant :
    (span : Interval) (t : Instant) (es : List AvailabilityExceptionRecord)
    → span.start ≤ t
    → t < span.end
    → any
        (λ r.
          (ltb r.exception_starts_at span.end && ltb span.start r.exception_ends_at) && excepts t r)
        es
      ≡ any (excepts t) es
only_relevant span t [] a b = refl
only_relevant span t (e ∷ es) a b = ground (arith, only_relevant span t es a b)

-- An exception that covers an instant of a span overlaps it.
relevant_exceptions :
    (span : Interval) (t : Instant) (exceptions : List AvailabilityExceptionRecord)
    → span.start ≤ t
    → t < span.end
    → any (excepts t) (list_overlapping span exceptions) ≡ any (excepts t) exceptions
unfolding list_overlapping
relevant_exceptions span t exceptions a b =
    any-filter (excepts t)
      (λ r. ltb r.exception_starts_at span.end && ltb span.start r.exception_ends_at) exceptions
    ∙ only_relevant span t exceptions a b

listed-IsProper :
    (span : Interval) (exceptions : List AvailabilityExceptionRecord)
    → All IsProperException exceptions
    → All IsProperException (list_overlapping span exceptions)
unfolding list_overlapping
listed-IsProper span exceptions h =
    All-filter IsProperException
      (λ r. ltb r.exception_starts_at span.end && ltb span.start r.exception_ends_at) exceptions h

pub without_exceptions-Covers :
    (P : Instant → Type 0) (exceptions : List AvailabilityExceptionRecord)
    (available : List Interval)
    → All IsProperException exceptions
    → IsCanonical available
    → ((t : Instant) → (covers available t ≡ true) ↔ P t)
    → Covers
        (λ t. P t × (any (excepts t) exceptions ≡ false))
        (without_exceptions exceptions available)
unfolding load_exceptions create_interval
without_exceptions-Covers P exceptions [] proper h f =
    (tt, λ t. (λ k. cc (k), λ (p, q). let k : false ≡ true = (f t).1 p in cc (k)))
without_exceptions-Covers P exceptions (x ∷ xs) proper h f =
    let span : Interval = record { start = x.start; end = (last_of x xs).end } in
    let valid : leb (last_of x xs).end x.start ≡ false = ground (arith, last_of-lt x xs h) in
    let listed = list_overlapping span exceptions in
    let (removed, eq, k, g) =
      collected (λ t. any (excepts t) listed) (to_intervals listed)
        (to_intervals-Collects listed (listed-IsProper span exceptions proper)) in
    let (left, eq', canonical, g') =
      yielded (λ t. covers (x ∷ xs) t && not (covers removed t))
        (subtract_intervals (x ∷ xs) removed)
        (subtract_intervals-Yields (x ∷ xs) removed (IsCanonical-IsProper (x ∷ xs) h) k) in
    rw (valid, eq, eq')
      (
        canonical,
        λ t. (
          λ e.
              let e' : (covers (x ∷ xs) t && not (covers removed t)) ≡ true = sym (g' t) ∙ e in
              let inside : covers (x ∷ xs) t ≡ true = ground arith in
              let (a, b) = covers_bounds x xs t h inside in
              let same = relevant_exceptions span t exceptions a b in
              let gone = g t in ((f t).0 inside, ground arith),
          λ (p, q).
              let inside = (f t).1 p in
              let (a, b) = covers_bounds x xs t h inside in
              let same = relevant_exceptions span t exceptions a b in
              let gone = g t in g' t ∙ ground arith,
        ),
      )
