-- ===== src/Scheduling/Availability/Exactness.antt =====
-- The whole of `ResolveAvailabilityUseCase.execute`: the instants that it answers with, over every
-- stored pattern and exception, whether or not its two bounded queries list them.
use mathlib.Core.Path.{subst}
use slotnova.Base.{
  ◌+◌, ◌-◌, ◌≤◌, ◌<◌, ◌≡◌, ◌↔◌, refl, sym, ◌∙◌, ◌⊎◌, inl, inr, Bool, true, false, ◌||◌, Option,
  none, some, String, List, [], ◌∷◌, ltb, leb, Bool-cases, arith,
}
use slotnova.Base.Lists.{any, All}
use slotnova.Base.Outcome.{ok}
use slotnova.Scheduling.Interval.{Instant, Interval}
use slotnova.Scheduling.IntervalSet.{union_intervals}
use slotnova.Scheduling.IntervalSet.Sets.{covers, IsCanonical, IsCanonical-IsProper}
use slotnova.Scheduling.IntervalSet.Algebra.{union_intervals-Yields}
use slotnova.Scheduling.WallClock.{PlainDate, PlainDateTime, TemporalZones}
use slotnova.Scheduling.Pattern.{
  WeeklyAvailabilityPattern, WeeklyAvailabilityPatternInput, create_weekly_availability_pattern,
}
use slotnova.Scheduling.Recurrence.{
  ExpansionRange, assert_valid_expansion_range, expand_weekly_availability,
}
use slotnova.Scheduling.Recurrence.Coverage.{
  Covers, Covers-of, IsOpen, IsResolvedIn, HasBegun, HasNotEnded, expand_weekly_availability-Covers,
}
use slotnova.Scheduling.Availability.{
  AvailabilityPatternRecord, AvailabilityExceptionRecord, dateranges_overlap,
  list_overlapping_effective_window, expand, union_expansions, resolve_availability,
}
use slotnova.Scheduling.Availability.Resolved.{
  IsProperException, excepts, covered, yielded, without_exceptions-Covers,
}

-- The window of a pattern that was read back is the stored one.
stored_window :
    (temporal : TemporalZones) (input : WeeklyAvailabilityPatternInput)
    (p : WeeklyAvailabilityPattern)
    → create_weekly_availability_pattern temporal input ≡ ok p
    → (p.effective_from ≡ input.input_from) × (p.effective_until ≡ input.input_until)
unfolding create_weekly_availability_pattern
stored_window temporal input p e = ground arith

overlap_of_date :
    (from until : Option PlainDate) (range : ExpansionRange) (date : PlainDate)
    → range.from_date < range.to_date
    → range.from_date ≤ date
    → date < range.to_date
    → HasBegun from date
    → HasNotEnded until date
    → dateranges_overlap from until (some range.from_date) (some range.to_date) ≡ true
unfolding dateranges_overlap
overlap_of_date none none range date valid a b c d = ground arith
overlap_of_date (some f) none range date valid a b c d = ground arith
overlap_of_date none (some u) range date valid a b c d = ground arith
overlap_of_date (some f) (some u) range date valid a b c d = ground arith

module _ (temporal : TemporalZones) (clock : String → PlainDateTime → Instant) where
  -- A stored pattern that is read back, with its windows of the range resolved by the clock.
  abbrev pub IsReadable : ExpansionRange → AvailabilityPatternRecord → Type 0
  IsReadable range r =
      (p : WeeklyAvailabilityPattern) × (create_weekly_availability_pattern temporal r.stored
        ≡ ok p)
      × IsResolvedIn temporal (clock p.time_zone) p range

  -- A stored pattern opens the instant.
  abbrev pub IsOpenBy : ExpansionRange → Instant → AvailabilityPatternRecord → Type 0
  IsOpenBy range t r =
      (p : WeeklyAvailabilityPattern) × (create_weekly_availability_pattern temporal r.stored
        ≡ ok p)
      × IsOpen temporal (clock p.time_zone) p range t

  abbrev pub SomeOpen : ExpansionRange → Instant → List AvailabilityPatternRecord → Type 0
  SomeOpen range t [] = ⊥
  SomeOpen range t (r ∷ rs) = IsOpenBy range t r ⊎ SomeOpen range t rs

  expand-Covers :
      (r : AvailabilityPatternRecord) (range : ExpansionRange)
      → range.from_date < range.to_date
      → range.to_date ≤ range.from_date + 370
      → IsReadable range r
      → Covers (λ t. IsOpenBy range t r) (expand temporal r range)
  unfolding expand
  expand-Covers r range a b (p, e, h) =
      let (xs, eq, k, f) =
        covered (IsOpen temporal (clock p.time_zone) p range)
          (expand_weekly_availability temporal p range)
          (expand_weekly_availability-Covers temporal (clock p.time_zone) p range a b h) in
      rw (e, eq)
        (
          k,
          λ t. (
            λ c. (p, refl, (f t).0 c),
            λ (q, e', o).
                let same : p ≡ q = cc in
                (f t).1 (subst (λ z. IsOpen temporal (clock z.time_zone) z range t) (sym same) o),
          ),
        )

  union_expansions-Covers :
      (range : ExpansionRange) (P : Instant → Type 0) (accumulated : List Interval)
      (rs : List AvailabilityPatternRecord)
      → range.from_date < range.to_date
      → range.to_date ≤ range.from_date + 370
      → All (IsReadable range) rs
      → IsCanonical accumulated
      → ((t : Instant) → (covers accumulated t ≡ true) ↔ P t)
      → Covers (λ t. P t ⊎ SomeOpen range t rs) (union_expansions temporal range accumulated rs)
  unfolding union_expansions
  union_expansions-Covers range P accumulated [] a b readable k f =
      (k, λ t. (λ c. inl ((f t).0 c), λ c. elim c [ inl d ↦ (f t).1 d | inr d ↦ absurd d ]))
  union_expansions-Covers range P accumulated (r ∷ rs) a b (readable, more) k f =
      let (spans, eq, k', f') =
        covered (λ t. IsOpenBy range t r) (expand temporal r range)
          (expand-Covers r range a b readable) in
      let (both, eq', k'', f'') =
        yielded (λ t. covers accumulated t || covers spans t) (union_intervals accumulated spans)
          (union_intervals-Yields accumulated spans (IsCanonical-IsProper accumulated k)
            (IsCanonical-IsProper spans k')) in
      rw (eq, eq')
        (Covers-of (λ t. (P t ⊎ IsOpenBy range t r) ⊎ SomeOpen range t rs)
          (λ t. P t ⊎ (IsOpenBy range t r ⊎ SomeOpen range t rs))
          (union_expansions temporal range both rs)
          (λ t. (
            λ c. elim c [
              | inl d ↦ elim d [ inl x ↦ inl x | inr x ↦ inr (inl x) ]
              | inr d ↦ inr (inr d)
            ],
            λ c. elim c [
              | inl d ↦ inl (inl d)
              | inr d ↦ elim d [ inl x ↦ inl (inr x) | inr x ↦ inr x ]
            ],
          ))
          (union_expansions-Covers range (λ t. P t ⊎ IsOpenBy range t r) both rs a b more k''
            (λ t. (
              λ c. elim (Bool-cases (covers accumulated t)) [
                | inl e ↦ inl ((f t).0 e)
                | inr e ↦
                    let both_cover = f'' t in
                    let d : covers spans t ≡ true = ground arith in inr ((f' t).0 d)
              ],
              λ c. elim c [
                | inl d ↦ let e = (f t).1 d in f'' t ∙ rw e refl
                | inr d ↦ let e = (f' t).1 d in let both_cover = f'' t in ground arith
              ],
            ))))

  -- A pattern that opens an instant of the range is effective on some date of it, so that the
  -- query lists it.
  overlap-IsOpenBy :
      (range : ExpansionRange) (t : Instant) (r : AvailabilityPatternRecord)
      → range.from_date < range.to_date
      → IsOpenBy range t r
      → dateranges_overlap r.stored.input_from r.stored.input_until
          (some range.from_date)
          (some range.to_date)
        ≡ true
  overlap-IsOpenBy range t r valid (p, e, (date, a, b, (begun, running), _)) =
      let (same_from, same_until) = stored_window temporal r.stored p e in
      rw (sym same_from, sym same_until)
        (overlap_of_date p.effective_from p.effective_until range date valid a b begun running)

  abbrev pub listed :
      ExpansionRange → List AvailabilityPatternRecord → List AvailabilityPatternRecord
  listed range = list_overlapping_effective_window (some range.from_date) (some range.to_date)

  SomeOpen-kept :
      (range : ExpansionRange) (t : Instant) (r : AvailabilityPatternRecord)
      (rest rs : List AvailabilityPatternRecord) (b : Bool)
      → (IsOpenBy range t r → b ≡ true)
      → (SomeOpen range t rest ↔ SomeOpen range t rs)
      → SomeOpen range t (elim b [ true ↦ r ∷ rest | false ↦ rest ]) ↔ SomeOpen range t (r ∷ rs)
  SomeOpen-kept range t r rest rs true h (down, up) = (
    λ c. elim c [ inl x ↦ inl x | inr x ↦ inr (down x) ],
    λ c. elim c [ inl x ↦ inl x | inr x ↦ inr (up x) ],
  )
  SomeOpen-kept range t r rest rs false h (down, up) =
      (λ c. inr (down c), λ c. elim c [ inl x ↦ (let k = h x in cc (k)) | inr x ↦ up x ])

  SomeOpen-listed :
      (range : ExpansionRange) (t : Instant) (rs : List AvailabilityPatternRecord)
      → range.from_date < range.to_date
      → SomeOpen range t (listed range rs) ↔ SomeOpen range t rs
  unfolding list_overlapping_effective_window
  SomeOpen-listed range t [] valid = (λ c. c, λ c. c)
  SomeOpen-listed range t (r ∷ rs) valid =
      SomeOpen-kept range t r (listed range rs) rs
        (dateranges_overlap r.stored.input_from r.stored.input_until (some range.from_date)
          (some range.to_date))
        (overlap-IsOpenBy range t r valid) (SomeOpen-listed range t rs valid)

  -- Within the horizon, when the patterns that the query lists are readable, the use case returns
  -- the canonical list of exactly the instants that some stored pattern opens and no stored
  -- exception covers: bounding the two queries loses nothing.
  pub resolve_availability-Covers :
      (patterns : List AvailabilityPatternRecord) (exceptions : List AvailabilityExceptionRecord)
      (range : ExpansionRange)
      → range.from_date < range.to_date
      → range.to_date ≤ range.from_date + 370
      → All (IsReadable range) (listed range patterns)
      → All IsProperException exceptions
      → Covers
          (λ t. SomeOpen range t patterns × (any (excepts t) exceptions ≡ false))
          (resolve_availability temporal patterns exceptions range)
  unfolding resolve_availability assert_valid_expansion_range
  resolve_availability-Covers patterns exceptions range a b readable proper =
      let valid : leb range.to_date range.from_date ≡ false = ground arith in
      let short : ltb 370 (range.to_date - range.from_date) ≡ false = ground arith in
      let (available, eq, k, f) =
        covered (λ t. ⊥ ⊎ SomeOpen range t (listed range patterns))
          (union_expansions temporal range [] (listed range patterns))
          (union_expansions-Covers range (λ t. ⊥) [] (listed range patterns) a b readable tt
            (λ t. (λ c. cc (c), λ c. absurd c))) in
      rw (valid, short, eq)
        (without_exceptions-Covers (λ t. SomeOpen range t patterns) exceptions available proper k
          (λ t.
            let (down, up) = SomeOpen-listed range t patterns a in
            (
              λ c. elim ((f t).0 c) [ inl x ↦ absurd x | inr x ↦ down x ],
              λ c. (f t).1 (inr (up c)),
            )))
