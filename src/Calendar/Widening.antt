-- ===== src/Calendar/Widening.antt =====
-- `expansionRange` of compose-calendar.use-case.ts: the dates whose windows can reach into the
-- requested window, in any time zone.
use mathlib.Core.Path.{subst}
use slotnova.Base.{
  ℕ, suc, ◌+◌, ◌*◌, ◌≤◌, ◌<◌, ◌≡◌, ◌↔◌, ◌⊎◌, inl, inr, true, String, List, [], ◌∷◌, Bool-cases,
  Option-cases, arith,
}
use slotnova.Base.Lists.{All}
use slotnova.Base.Outcome.{ok, ◌>>=◌, >>=-eq-ok, Result-cases}
use slotnova.Scheduling.Interval.{Instant, Interval}
use slotnova.Scheduling.WallClock.{PlainDate, PlainDateTime, TemporalZones, local_date_time}
use slotnova.Scheduling.Pattern.{
  RuleInput, WeeklyAvailabilityRule, WeeklyAvailabilityPattern, WeeklyAvailabilityPatternInput,
  read_rule, read_rules, assert_valid_local_time_range, create_weekly_availability_pattern,
}
use slotnova.Scheduling.Recurrence.{ExpansionRange}
use slotnova.Scheduling.Recurrence.Expansion.{rule_opens}
use slotnova.Scheduling.Recurrence.Coverage.{IsInEffect, opens_on}
use slotnova.Scheduling.Availability.{AvailabilityPatternRecord}
use slotnova.Scheduling.Availability.Exactness.{SomeOpen}
use slotnova.Calendar.{UtcDates, expansion_range}

abbrev pub window_of : Instant → Instant → Interval
window_of from to = record { start = from; end = to }

abbrev pub day_ns : ℕ
day_ns = 86400000000000

abbrev EndsInDay : WeeklyAvailabilityRule → Type 0
EndsInDay r = r.end_minute_of_day ≤ 1440

read_rule-EndsInDay :
    (input : RuleInput) {rule : WeeklyAvailabilityRule} → read_rule input ≡ ok rule → EndsInDay rule
unfolding read_rule assert_valid_local_time_range
read_rule-EndsInDay input e = ground arith

read_rules-EndsInDay :
    (inputs : List RuleInput) (rules : List WeeklyAvailabilityRule)
    → read_rules inputs ≡ ok rules
    → All EndsInDay rules
unfolding read_rules
read_rules-EndsInDay [] rules e = let k : [] ≡ rules = cc in subst (All EndsInDay) k tt
read_rules-EndsInDay (input ∷ inputs) rules e =
    let (rule, one, e') =
      >>=-eq-ok (read_rule input) (λ rule. read_rules inputs >>= λ rest. ok (rule ∷ rest)) e in
    let (rest, more, e'') = >>=-eq-ok (read_rules inputs) (λ rest. ok (rule ∷ rest)) e' in
    let k : rule ∷ rest ≡ rules = cc in
    subst (All EndsInDay) k (read_rule-EndsInDay input one, read_rules-EndsInDay inputs rest more)

created-EndsInDay :
    (temporal : TemporalZones) (input : WeeklyAvailabilityPatternInput)
    {p : WeeklyAvailabilityPattern}
    → create_weekly_availability_pattern temporal input ≡ ok p
    → All EndsInDay p.rules
unfolding create_weekly_availability_pattern
created-EndsInDay temporal input {p} e = elim (Result-cases (read_rules input.input_rules)) [
  | inl (rules, read) ↦
      let same : rules ≡ p.rules = ground (arith, read) in
      subst (All EndsInDay) same (read_rules-EndsInDay input.input_rules rules read)
  | inr (error, read) ↦ absurd (ground (arith, read))
]

expansion_range-eq-ok :
    (utc : UtcDates) (window : Interval) {dates : ExpansionRange}
    → expansion_range utc window ≡ ok dates
    → (suc dates.from_date ≡ utc.utc_date window.start)
      × (((utc.is_midnight window.end ≡ true) × (dates.to_date ≡ suc (utc.utc_date window.end)))
          ⊎ (dates.to_date ≡ suc (suc (utc.utc_date window.end))))
unfolding expansion_range
expansion_range-eq-ok utc window {dates} e =
    elim (Option-cases (utc.previous_day (utc.utc_date window.start))) [
      | inl f ↦ elim (Bool-cases (utc.is_midnight window.end)) [
        | inl m ↦ absurd (ground (arith, m, f, e))
        | inr m ↦ elim (Option-cases (utc.next_day (utc.utc_date window.end))) [
          | inl n ↦ absurd (ground (arith, m, n, f, e))
          | inr (d, n) ↦ absurd (ground (arith, m, n, f, e))
        ]
      ]
      | inr (first, f) ↦
          let before = utc.previous_day_lem (utc.utc_date window.start) f in
          elim (Bool-cases (utc.is_midnight window.end)) [
            | inl m ↦ elim (Option-cases (utc.next_day (utc.utc_date window.end))) [
              | inl n ↦ absurd (ground (arith, m, n, f, e))
              | inr (d, n) ↦
                  let after = utc.next_day_lem (utc.utc_date window.end) n in
                  (ground (arith, m, n, f, e, before), inl (m, ground (arith, m, n, f, e, after)))
            ]
            | inr m ↦ elim (Option-cases (utc.next_day (utc.utc_date window.end))) [
              | inl n ↦ absurd (ground (arith, m, n, f, e))
              | inr (d, n) ↦ elim (Option-cases (utc.next_day d)) [
                | inl o ↦ absurd (ground (arith, m, n, o, f, e))
                | inr (last, o) ↦
                    let after = utc.next_day_lem (utc.utc_date window.end) n in
                    let later = utc.next_day_lem d o in
                    (
                      ground (arith, m, n, o, f, e, before),
                      inr (ground (arith, m, n, o, f, e, after, later)),
                    )
              ]
            ]
          ]
    ]

-- The dates of the expansion are at least one, and each date next to one of the window is one.
pub expansion_range-wide :
    (utc : UtcDates) (from to : Instant) {dates : ExpansionRange}
    → from < to
    → expansion_range utc (window_of from to) ≡ ok dates
    → (dates.from_date < dates.to_date)
      × ((t : Instant) (date : PlainDate)
          → from ≤ t
          → t < to
          → date ≤ suc (utc.utc_date t)
          → utc.utc_date t ≤ suc date
          → (dates.from_date ≤ date) × (date < dates.to_date))
expansion_range-wide utc from to {dates} lt e =
    let (first, last) = expansion_range-eq-ok utc (window_of from to) e in
    elim last [
      | inl (midnight, last) ↦
          let order = utc.is_midnight_lem from to midnight lt in
          (
            omega (arith, first, last, order),
            λ t date a b c d.
                let above = utc.utc_date_lem from t a in
                let below = utc.is_midnight_lem t to midnight b in
                (omega (arith, first, above, d), omega (arith, last, below, c)),
          )
      | inr last ↦
          let order = utc.utc_date_lem from to (omega (arith, lt)) in
          (
            omega (arith, first, last, order),
            λ t date a b c d.
                let above = utc.utc_date_lem from t a in
                let below = utc.utc_date_lem t to (omega (arith, b)) in
                (omega (arith, first, above, d), omega (arith, last, below, c)),
          )
    ]

module _ (temporal : TemporalZones) (utc : UtcDates)
    (clock : String → PlainDateTime → Instant) where
  open utc use {
    utc_date, is_midnight, next_day, previous_day, utc_date_lem, is_midnight_lem, next_day_lem,
    previous_day_lem,
  }

  -- The local time of every zone is less than a day from UTC: when a zone's clock shows `l`, the
  -- clock of UTC shows a time later than a day before `l` and earlier than a day after it.
  abbrev pub IsNearUtc : Type 0
  IsNearUtc =
      (zone : String) (l : PlainDateTime)
      → (l < (utc_date (clock zone l) + 2) * day_ns)
        × ((t : Instant) → t < clock zone l → utc_date t * day_ns < l + day_ns)

  -- A rule's window of a date lies on the dates of UTC next to it.
  opens_on-near :
      (zone : String) (rules : List WeeklyAvailabilityRule) (t : Instant) (date : PlainDate)
      → IsNearUtc
      → All EndsInDay rules
      → opens_on temporal (clock zone) rules t date ≡ true
      → (date ≤ suc (utc_date t)) × (utc_date t ≤ suc date)
  opens_on-near zone [] t date near ends e = cc (e)
  opens_on-near zone (r ∷ rs) t date near (last, ends) e =
      elim (Bool-cases (rule_opens (clock zone) date t r)) [
        | inl f ↦
            let (first, _) = near zone (local_date_time date r.start_minute_of_day) in
            let (_, before) = near zone (local_date_time date r.end_minute_of_day) in
            let started : clock zone (local_date_time date r.start_minute_of_day) ≤ t =
              ground (arith, f) in
            let running : t < clock zone (local_date_time date r.end_minute_of_day) =
              ground (arith, f) in
            let upper = before t running in
            let order =
              utc_date_lem (clock zone (local_date_time date r.start_minute_of_day)) t started in
            (omega (arith, first, order), omega (arith, upper, last))
        | inr f ↦ opens_on-near zone rs t date near ends (ground (arith, f, e))
      ]

  -- The pattern declares, on some date, a window that holds the instant.
  abbrev pub IsDeclaredBy : Instant → AvailabilityPatternRecord → Type 0
  IsDeclaredBy t r =
      (p : WeeklyAvailabilityPattern) × (create_weekly_availability_pattern temporal r.stored
        ≡ ok p)
      × (date : PlainDate) × IsInEffect p date
      × (opens_on temporal (clock p.time_zone) p.rules t date ≡ true)

  abbrev pub SomeDeclared : Instant → List AvailabilityPatternRecord → Type 0
  SomeDeclared t [] = ⊥
  SomeDeclared t (r ∷ rs) = IsDeclaredBy t r ⊎ SomeDeclared t rs

  -- Within the window, what the patterns open on the dates of the expansion is all that they declare.
  pub SomeOpen-declared :
      (from to t : Instant) {dates : ExpansionRange} (rs : List AvailabilityPatternRecord)
      → IsNearUtc
      → from < to
      → expansion_range utc (window_of from to) ≡ ok dates
      → from ≤ t
      → t < to
      → SomeOpen temporal clock dates t rs ↔ SomeDeclared t rs
  SomeOpen-declared from to t {dates} [] near lt e a b = (λ c. c, λ c. c)
  SomeOpen-declared from to t {dates} (r ∷ rs) near lt e a b =
      let (down, up) = SomeOpen-declared from to t {dates = dates} rs near lt e a b in
      let (_, wide) = expansion_range-wide utc from to lt e in
      (
        λ c. elim c [
          | inl (p, f, (date, _, _, begun, opened)) ↦ inl (p, f, date, begun, opened)
          | inr c ↦ inr (down c)
        ],
        λ c. elim c [
          | inl (p, f, date, begun, opened) ↦
              let (above, below) =
                opens_on-near p.time_zone p.rules t date near
                  (created-EndsInDay temporal r.stored f) opened in
              let (first, last) = wide t date a b above below in
              inl (p, f, (date, first, last, begun, opened))
          | inr c ↦ inr (up c)
        ],
      )
