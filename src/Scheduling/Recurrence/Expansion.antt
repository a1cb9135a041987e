-- ===== src/Scheduling/Recurrence/Expansion.antt =====
-- What an expansion covers, date by date and rule by rule.
use slotnova.Base.{
  ℕ, ◌≡◌, refl, sym, ap, ◌∙◌, inl, inr, Bool, true, false, ◌&&◌, ◌||◌, String, List, [], ◌∷◌, ◌++◌,
  ltb, leb, ◌==◌, Bool-cases, arith,
}
use slotnova.Base.Lists.{
  any, filter, All, All-append, append-nil, append_assoc, filter-append-filter,
}
use slotnova.Base.Outcome.{Result, ok, err, ◌>>=◌}
use slotnova.Scheduling.Interval.{Instant, Interval, create_interval, interval_contains}
use slotnova.Scheduling.IntervalSet.Sets.{IsProper, covers, covers-append}
use slotnova.Scheduling.WallClock.{
  PlainDate, PlainDateTime, local_date_time, TemporalZones, SchedulingError,
  resolve_local_date_time,
}
use slotnova.Scheduling.Pattern.{
  WeeklyAvailabilityRule, RulesByDay, get_rules, push_rule, group_rules,
}
use slotnova.Scheduling.Recurrence.{occurrence, expand_day}

-- The rules of a day are those that were declared for it, in their order.
get_rules-push_rule :
    (day : ℕ) (rule : WeeklyAvailabilityRule) (by_day : RulesByDay)
    → get_rules day (push_rule rule by_day)
      ≡ get_rules day by_day ++ filter (λ r. r.rule_day == day) (rule ∷ [])
unfolding get_rules push_rule
get_rules-push_rule day rule [] = ground arith
get_rules-push_rule day rule ((key, same_day) ∷ rest) = elim (Bool-cases (key == rule.rule_day)) [
  | inl e ↦ rw e (elim (Bool-cases (key == day)) [
    | inl f ↦ let g : (rule.rule_day == day) ≡ true = ground arith in rw (f, filter, g) refl
    | inr f ↦
        let g : (rule.rule_day == day) ≡ false = ground arith in
        rw (f, filter, g) (sym (append-nil (get_rules day rest)))
  ])
  | inr e ↦ rw e (elim (Bool-cases (key == day)) [
    | inl f ↦
        let g : (rule.rule_day == day) ≡ false = ground arith in
        rw (f, filter, g) (sym (append-nil same_day))
    | inr f ↦ rw f (get_rules-push_rule day rule rest)
  ])
]

get_rules-group_rules_from :
    (day : ℕ) (rules : List WeeklyAvailabilityRule) (by_day : RulesByDay)
    → get_rules day (group_rules rules by_day)
      ≡ get_rules day by_day ++ filter (λ r. r.rule_day == day) rules
unfolding group_rules
get_rules-group_rules_from day [] by_day = sym (append-nil (get_rules day by_day))
get_rules-group_rules_from day (rule ∷ rules) by_day =
    get_rules-group_rules_from day rules (push_rule rule by_day)
    ∙ ap (λ l. l ++ filter (λ r. r.rule_day == day) rules) (get_rules-push_rule day rule by_day)
    ∙ append_assoc (get_rules day by_day) (filter (λ r. r.rule_day == day) (rule ∷ []))
        (filter (λ r. r.rule_day == day) rules)
    ∙ ap (λ l. get_rules day by_day ++ l) (filter-append-filter (λ r. r.rule_day == day) rule rules)

pub get_rules-group_rules :
    (day : ℕ) (rules : List WeeklyAvailabilityRule)
    → get_rules day (group_rules rules []) ≡ filter (λ r. r.rule_day == day) rules
unfolding get_rules
get_rules-group_rules day rules = get_rules-group_rules_from day rules []

-- A call that returns proper spans of a given set of instants.
abbrev pub Collects : (Instant → Bool) → Result SchedulingError (List Interval) → Type 0
Collects p (ok xs) = All IsProper xs × ((t : Instant) → covers xs t ≡ p t)
Collects p (err e) = ⊥

pub Collects-then :
    (p q : Instant → Bool) (first later : Result SchedulingError (List Interval))
    → Collects p first
    → Collects q later
    → Collects (λ t. p t || q t) (first >>= λ spans. later >>= λ rest. ok (spans ++ rest))
Collects-then p q (ok xs) (ok ys) (h, f) (k, g) = (
  All-append IsProper xs ys h k,
  λ t. covers-append xs ys t ∙ ap (λ b. b || covers ys t) (f t) ∙ ap (λ b. p t || b) (g t),
)
Collects-then p q (ok xs) (err e) h k = absurd k
Collects-then p q (err e) later h k = absurd h

pub Collects-of :
    (p q : Instant → Bool) (a : Result SchedulingError (List Interval))
    → ((t : Instant) → p t ≡ q t)
    → Collects p a
    → Collects q a
Collects-of p q (ok xs) e (h, f) = (h, λ t. f t ∙ e t)
Collects-of p q (err _) e h = h

-- The window of a rule on a date, with the instants of its two ends.
abbrev pub rule_opens :
    (PlainDateTime → Instant) → PlainDate → Instant → WeeklyAvailabilityRule → Bool
rule_opens clock date t rule =
    leb (clock (local_date_time date rule.start_minute_of_day)) t
    && ltb t (clock (local_date_time date rule.end_minute_of_day))

module _ (temporal : TemporalZones) (zone : String) (clock : PlainDateTime → Instant) where
  -- The clock is where both ends of the rule's window resolve to.
  abbrev pub IsResolved : PlainDate → WeeklyAvailabilityRule → Type 0
  IsResolved date rule =
      (resolve_local_date_time temporal (local_date_time date rule.start_minute_of_day) zone
        ≡ ok (clock (local_date_time date rule.start_minute_of_day)))
      × (resolve_local_date_time temporal (local_date_time date rule.end_minute_of_day) zone
          ≡ ok (clock (local_date_time date rule.end_minute_of_day)))

  occurrence-Collects :
      (date : PlainDate) (rule : WeeklyAvailabilityRule)
      → IsResolved date rule
      → Collects (λ t. rule_opens clock date t rule) (occurrence temporal zone date rule)
  unfolding occurrence create_interval interval_contains
  occurrence-Collects date rule (p, q) =
      let start = clock (local_date_time date rule.start_minute_of_day) in
      let end = clock (local_date_time date rule.end_minute_of_day) in
      rw (p, q)
        (elim (Bool-cases (leb end start)) [
          | inl e ↦ rw e (tt, λ t. ground arith)
          | inr e ↦ rw e ((ground arith, tt), λ t. ground arith)
        ])

  pub expand_day-Collects :
      (date : PlainDate) (rules : List WeeklyAvailabilityRule)
      → All (IsResolved date) rules
      → Collects (λ t. any (rule_opens clock date t) rules) (expand_day temporal zone date rules)
  unfolding expand_day
  expand_day-Collects date [] h = (tt, λ t. refl)
  expand_day-Collects date (rule ∷ rules) (p, h) =
      Collects-then (λ t. rule_opens clock date t rule) (λ t. any (rule_opens clock date t) rules)
        (occurrence temporal zone date rule) (expand_day temporal zone date rules)
        (occurrence-Collects date rule p) (expand_day-Collects date rules h)
