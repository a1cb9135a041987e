-- ===== src/Scheduling/Recurrence/Coverage.antt =====
-- The whole expansion: which instants it covers, and which windows it refuses.
use mathlib.Core.Path.{subst}
use slotnova.Base.{
  ℕ, zero, suc, ◌+◌, ◌-◌, ◌≤◌, ◌<◌, ◌≡◌, ◌↔◌, refl, inl, inr, Bool, true, false, ◌&&◌, Option, none,
  some, String, List, [], ◌∷◌, ltb, leb, ◌==◌, Bool-cases, arith,
}
use slotnova.Base.Lists.{any, filter, All, All-filter, any-filter}
use slotnova.Base.Outcome.{Result, ok, err, ◌>>=◌}
use slotnova.Scheduling.Interval.{Instant, Interval}
use slotnova.Scheduling.IntervalSet.{Outcome, normalize_intervals}
use slotnova.Scheduling.IntervalSet.Sets.{covers, IsCanonical}
use slotnova.Scheduling.IntervalSet.Algebra.{Yields, normalize_intervals-Yields}
use slotnova.Scheduling.WallClock.{PlainDate, PlainDateTime, TemporalZones, SchedulingError}
use slotnova.Scheduling.Pattern.{WeeklyAvailabilityRule, WeeklyAvailabilityPattern, group_rules}
use slotnova.Scheduling.Recurrence.{
  ExpansionRange, assert_valid_expansion_range, expand_days, first_date, last_date, expand_rules,
  expand_window, expand_weekly_availability, from_interval,
}
use slotnova.Scheduling.Recurrence.Expansion.{
  get_rules-group_rules, Collects, Collects-then, Collects-of, rule_opens, IsResolved,
  expand_day-Collects,
}
use slotnova.Scheduling.Recurrence.{expand_day}
use slotnova.Scheduling.Recurrence.Dates.{any_date, any_date_found, any_date_finds}

-- The date is within the dates that the pattern is declared for.
abbrev pub HasBegun : Option PlainDate → PlainDate → Type 0
HasBegun none date = Unit
HasBegun (some from) date = from ≤ date

abbrev pub HasNotEnded : Option PlainDate → PlainDate → Type 0
HasNotEnded none date = Unit
HasNotEnded (some until) date = date < until

abbrev pub IsInEffect : WeeklyAvailabilityPattern → PlainDate → Type 0
IsInEffect pattern' date =
    HasBegun pattern'.effective_from date × HasNotEnded pattern'.effective_until date

first_date_le :
    (effective : Option PlainDate) (from date : PlainDate)
    → (first_date effective from ≤ date) ↔ ((from ≤ date) × HasBegun effective date)
first_date_le none from date = (λ h. (h, tt), λ h. h.0)
first_date_le (some begin) from date = (λ h. ground arith, λ h. ground arith)

last_date_lt :
    (effective : Option PlainDate) (to date : PlainDate)
    → (date < last_date effective to) ↔ ((date < to) × HasNotEnded effective date)
last_date_lt none to date = (λ h. (h, tt), λ h. h.0)
last_date_lt (some until) to date = (λ h. ground arith, λ h. ground arith)

-- The call returns the canonical list of the instants of a set.
abbrev pub Covers : (Instant → Type 0) → Result SchedulingError (List Interval) → Type 0
Covers P (ok xs) = IsCanonical xs × ((t : Instant) → (covers xs t ≡ true) ↔ P t)
Covers P (err e) = ⊥

Covers-yielded :
    (p : Instant → Bool) (P : Instant → Type 0) (a : Outcome)
    → Yields p a
    → ((t : Instant) → (p t ≡ true) ↔ P t)
    → Covers P (from_interval a)
Covers-yielded p P (ok ys) (h, f) g = (h, λ t. rw (f t) (g t))
Covers-yielded p P (err e) h g = h

pub Covers-of :
    (P Q : Instant → Type 0) (a : Result SchedulingError (List Interval))
    → ((t : Instant) → P t ↔ Q t)
    → Covers P a
    → Covers Q a
Covers-of P Q (ok ys) g (h, f) = (h, λ t. (λ k. (g t).0 ((f t).0 k), λ k. (f t).1 ((g t).1 k)))
Covers-of P Q (err e) g h = h

normalize-Covers :
    (p : Instant → Bool) (P : Instant → Type 0) (expanded : Result SchedulingError (List Interval))
    → Collects p expanded
    → ((t : Instant) → (p t ≡ true) ↔ P t)
    → Covers P (expanded >>= λ spans. from_interval (normalize_intervals spans))
normalize-Covers p P (err e) h g = h
normalize-Covers p P (ok xs) (h, f) g =
    Covers-yielded (covers xs) P (normalize_intervals xs) (normalize_intervals-Yields xs h)
      (λ t. rw (f t) (g t))

-- An expansion that returns was asked for at least one day and for 370 days at most.
pub expand_weekly_availability_bounded :
    (temporal : TemporalZones) (pattern' : WeeklyAvailabilityPattern) (range : ExpansionRange)
    {spans : List Interval}
    → expand_weekly_availability temporal pattern' range ≡ ok spans
    → (range.from_date < range.to_date) × (range.to_date ≤ range.from_date + 370)
unfolding expand_weekly_availability assert_valid_expansion_range
expand_weekly_availability_bounded temporal pattern' range e = ground arith

module _ (temporal : TemporalZones) (clock : PlainDateTime → Instant) where
  -- Some rule of the date's day of the week has its window open at the instant.
  abbrev pub opens_on : List WeeklyAvailabilityRule → Instant → PlainDate → Bool
  opens_on rules t date =
      any (λ r. r.rule_day == temporal.day_of_week date && rule_opens clock date t r) rules

  -- The instant is in a window that a rule declares for a date of the range, in effect.
  abbrev pub IsOpen : WeeklyAvailabilityPattern → ExpansionRange → Instant → Type 0
  IsOpen pattern' range t =
      (date : PlainDate) × (range.from_date ≤ date)
      × (date < range.to_date)
      × IsInEffect pattern' date
      × (opens_on pattern'.rules t date ≡ true)

  module _ (zone : String) (rules : List WeeklyAvailabilityRule) where
    expand_days-Collects :
        (n : ℕ) (date : PlainDate)
        → ((d : PlainDate) → date ≤ d → d < date + n → All (IsResolved temporal zone clock d) rules)
        → Collects
            (λ t. any_date (opens_on rules t) n date)
            (expand_days temporal zone (group_rules rules []) n date)
    unfolding expand_days
    expand_days-Collects zero date h = (tt, λ t. refl)
    expand_days-Collects (suc n) date h =
        let same_day = filter (λ r. r.rule_day == temporal.day_of_week date) rules in
        rw (get_rules-group_rules (temporal.day_of_week date) rules) (
          Collects-then (λ t. opens_on rules t date) (λ t. any_date (opens_on rules t) n (suc date))
            (expand_day temporal zone date same_day)
            (expand_days temporal zone (group_rules rules []) n (suc date))
            (Collects-of (λ t. any (rule_opens clock date t) same_day) (λ t. opens_on rules t date)
              (expand_day temporal zone date same_day)
              (λ t.
                any-filter (rule_opens clock date t) (λ r. r.rule_day == temporal.day_of_week date)
                  rules)
              (expand_day-Collects temporal zone clock date same_day (
                All-filter (IsResolved temporal zone clock date)
                  (λ r. r.rule_day == temporal.day_of_week date) rules
                  (h date (omega arith) (omega arith)))))
            (expand_days-Collects n (suc date) (λ d a b. h d (omega arith) (omega arith))))

  -- The instant is open on one of the dates from the first to the last.
  abbrev IsOpenWithin : List WeeklyAvailabilityRule → PlainDate → PlainDate → Instant → Type 0
  IsOpenWithin rules first last t =
      (date : PlainDate) × (first ≤ date) × (date < last) × (opens_on rules t date ≡ true)

  expand_window-Covers :
      (pattern' : WeeklyAvailabilityPattern) (first last : PlainDate)
      → ((d : PlainDate)
          → first ≤ d
          → d < last
          → All (IsResolved temporal pattern'.time_zone clock d) pattern'.rules)
      → Covers (IsOpenWithin pattern'.rules first last) (expand_window temporal pattern' first last)
  expand_window-Covers pattern' first last h = elim (Bool-cases (leb last first)) [
    | inl e ↦ rw e (tt, λ t. (λ k. cc (k), λ (d, a, b, k). absurd (ground arith)))
    | inr e ↦ rw e (
        let p = λ (t : Instant). any_date (opens_on pattern'.rules t) (last - first) first in
        let expanded =
          expand_days temporal pattern'.time_zone (group_rules pattern'.rules []) (last - first)
            first in
        let total : first + (last - first) ≡ last = ground arith in
        normalize-Covers p (IsOpenWithin pattern'.rules first last) expanded
          (expand_days-Collects pattern'.time_zone pattern'.rules (last - first) first
            (λ d a b. h d a (omega arith)))
          (λ t. (
            λ k.
                let (d, a, b, q) =
                  any_date_found (opens_on pattern'.rules t) (last - first) first k in
                (d, a, omega arith, q),
            λ (d, a, b, q).
                any_date_finds (opens_on pattern'.rules t) (last - first) first d a (omega arith) q,
          )))
  ]

  -- Both ends of the windows that the range declares resolve in the pattern's zone.
  abbrev pub IsResolvedIn : WeeklyAvailabilityPattern → ExpansionRange → Type 0
  IsResolvedIn pattern' range =
      (d : PlainDate)
      → range.from_date ≤ d
      → d < range.to_date
      → IsInEffect pattern' d
      → All (IsResolved temporal pattern'.time_zone clock d) pattern'.rules

  expand_rules-Covers :
      (pattern' : WeeklyAvailabilityPattern) (range : ExpansionRange)
      (rules : List WeeklyAvailabilityRule)
      → pattern'.rules ≡ rules
      → IsResolvedIn pattern' range
      → Covers (IsOpen pattern' range) (expand_rules temporal pattern' range rules)
  expand_rules-Covers pattern' range [] e h = (
    tt,
    λ t. (
      λ k. cc (k),
      λ (d, a, b, c, q).
          let k : opens_on [] t d ≡ true = subst (λ rs. opens_on rs t d ≡ true) e q in cc (k),
    ),
  )
  expand_rules-Covers pattern' range (rule ∷ rules) e h =
      let first = first_date pattern'.effective_from range.from_date in
      let last = last_date pattern'.effective_until range.to_date in
      let begins = first_date_le pattern'.effective_from range.from_date in
      let ends = last_date_lt pattern'.effective_until range.to_date in
      Covers-of (IsOpenWithin pattern'.rules first last) (IsOpen pattern' range)
        (expand_window temporal pattern' first last)
        (λ t. (
          λ (d, a, b, q).
              let (from, begun) = (begins d).0 a in
              let (to, running) = (ends d).0 b in (d, from, to, (begun, running), q),
          λ (d, from, to, (begun, running), q).
              (d, (begins d).1 (from, begun), (ends d).1 (to, running), q),
        ))
        (expand_window-Covers pattern' first last (λ d a b.
          let (from, begun) = (begins d).0 a in
          let (to, running) = (ends d).0 b in h d from to (begun, running)))

  -- Within the horizon an expansion returns the canonical list of exactly the instants that some
  -- rule declares for a date of the range on which the pattern is in effect, where the clock is
  -- what the zone makes of the local times of these rules.
  pub expand_weekly_availability-Covers :
      (pattern' : WeeklyAvailabilityPattern) (range : ExpansionRange)
      → range.from_date < range.to_date
      → range.to_date ≤ range.from_date + 370
      → IsResolvedIn pattern' range
      → Covers (IsOpen pattern' range) (expand_weekly_availability temporal pattern' range)
  unfolding expand_weekly_availability assert_valid_expansion_range
  expand_weekly_availability-Covers pattern' range a b h =
      let valid : leb range.to_date range.from_date ≡ false = ground arith in
      let short : ltb 370 (range.to_date - range.from_date) ≡ false = ground arith in
      rw (valid, short) (expand_rules-Covers pattern' range pattern'.rules refl h)
