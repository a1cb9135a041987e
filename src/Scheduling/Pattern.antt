-- ===== src/Scheduling/Pattern.antt =====
-- apps/api/src/modules/scheduling/domain/recurrence.ts: weekly rules and patterns, and the checks
-- that createWeeklyAvailabilityPattern makes.
pub mod Exclusive
use slotnova.Base.{
  ℕ, Bool, true, false, not, ◌&&◌, ◌||◌, Option, some, String, List, [], ◌∷◌, ◌++◌, ltb, leb, ◌==◌,
  if◌then◌else◌,
}
use slotnova.Base.Number.{Number, nat, non_integer}
use slotnova.Base.Outcome.{Result, ok, ◌>>=◌, ◌>>◌, throw_if, for_each}
use slotnova.Scheduling.WallClock.{
  PlainDate, TemporalZones, whole_minutes, start_bound, end_bound, end_after_start, SchedulingError,
  invalid_local_time_range, invalid_day_of_week, overlapping_rules, invalid_effective_range,
  assert_valid_iana_time_zone,
}

abbrev pub minutes_per_day : ℕ
minutes_per_day = 1440

-- A rule as it comes in, with any numbers, and a rule whose numbers have been checked.
pub record RuleInput : Type 0 where
  pub input_day_of_week : Number
  pub input_start : Number
  pub input_end : Number

pub record WeeklyAvailabilityRule : Type 0 where
  pub rule_day : ℕ
  pub start_minute_of_day : ℕ
  pub end_minute_of_day : ℕ

pub record WeeklyAvailabilityPatternInput : Type 0 where
  pub input_time_zone : String
  pub input_rules : List RuleInput
  pub input_from : Option PlainDate
  pub input_until : Option PlainDate

pub record WeeklyAvailabilityPattern : Type 0 where
  pub time_zone : String
  pub rules : List WeeklyAvailabilityRule
  pub effective_from : Option PlainDate
  pub effective_until : Option PlainDate

-- The value of a number that is not negative and is whole.
abbrev pub in_range : (ℕ → Bool) → Number → Bool
in_range test (nat n) = test n
in_range test _ = false

abbrev pub is_integer : Number → Bool
is_integer non_integer = false
is_integer _ = true

abbrev pub to_nat : Number → ℕ
to_nat (nat n) = n
to_nat _ = 0

unfoldable pub assert_valid_local_time_range : RuleInput → Result SchedulingError (Unit {0})
assert_valid_local_time_range rule = do
  throw_if (not (is_integer rule.input_start) || not (is_integer rule.input_end))
      (invalid_local_time_range whole_minutes)
  throw_if (not (in_range (λ n. ltb n minutes_per_day) rule.input_start))
      (invalid_local_time_range start_bound)
  throw_if (not (in_range (λ n. leb 1 n && leb n minutes_per_day) rule.input_end))
      (invalid_local_time_range end_bound)
  throw_if (leb (to_nat rule.input_end) (to_nat rule.input_start))
      (invalid_local_time_range end_after_start)

-- The loop over `input.rules`, with the rules as they stand after it.
unfoldable pub read_rule : RuleInput → Result SchedulingError WeeklyAvailabilityRule
unfolding assert_valid_local_time_range
read_rule rule = do
  throw_if (not (in_range (λ n. leb 1 n && leb n 7) rule.input_day_of_week)) invalid_day_of_week
  assert_valid_local_time_range rule
  ok (record {
    rule_day = to_nat rule.input_day_of_week;
    start_minute_of_day = to_nat rule.input_start;
    end_minute_of_day = to_nat rule.input_end;
  })

unfoldable pub read_rules : List RuleInput → Result SchedulingError (List WeeklyAvailabilityRule)
read_rules [] = ok []
read_rules (input ∷ inputs) = do
  rule ← read_rule input
  rules ← read_rules inputs
  ok (rule ∷ rules)

-- `Map<day, rules>`, in the order of its keys' first insertion.
abbrev pub RulesByDay : Type 0
RulesByDay = List (ℕ × List WeeklyAvailabilityRule)

-- `map.get(day) ?? []`.
unfoldable pub get_rules : ℕ → RulesByDay → List WeeklyAvailabilityRule
get_rules day [] = []
get_rules day ((key, same_day) ∷ rest) = if key == day then same_day else get_rules day rest

-- `sameDay.push(rule); map.set(rule.dayOfWeek, sameDay)`.
unfoldable pub push_rule : WeeklyAvailabilityRule → RulesByDay → RulesByDay
push_rule rule [] = (rule.rule_day, rule ∷ []) ∷ []
push_rule rule ((key, same_day) ∷ rest) =
    if key == rule.rule_day
    then (key, same_day ++ rule ∷ []) ∷ rest
    else (key, same_day) ∷ push_rule rule rest

unfoldable pub group_rules : List WeeklyAvailabilityRule → RulesByDay → RulesByDay
group_rules [] by_day = by_day
group_rules (rule ∷ rules) by_day = group_rules rules (push_rule rule by_day)

-- `sort((a, b) => a.startMinuteOfDay - b.startMinuteOfDay)`, stable.
unfoldable pub insert_rule :
    WeeklyAvailabilityRule → List WeeklyAvailabilityRule → List WeeklyAvailabilityRule
insert_rule rule [] = rule ∷ []
insert_rule rule (r ∷ rest) =
    if leb rule.start_minute_of_day r.start_minute_of_day
    then rule ∷ r ∷ rest
    else r ∷ insert_rule rule rest

unfoldable pub sort_rules : List WeeklyAvailabilityRule → List WeeklyAvailabilityRule
sort_rules [] = []
sort_rules (rule ∷ rules) = insert_rule rule (sort_rules rules)

-- The loop over neighbours of one day's sorted rules.
unfoldable pub assert_neighbours :
    ℕ → List WeeklyAvailabilityRule → Result SchedulingError (Unit {0})
assert_neighbours day [] = ok tt
assert_neighbours day (previous ∷ []) = ok tt
assert_neighbours day (previous ∷ r ∷ rest) = do
  throw_if (ltb r.start_minute_of_day previous.end_minute_of_day) (overlapping_rules day)
  assert_neighbours day (r ∷ rest)

unfoldable pub assert_no_overlap_within_day :
    List WeeklyAvailabilityRule → Result SchedulingError (Unit {0})
assert_no_overlap_within_day rules =
    for_each (λ (day, same_day). assert_neighbours day (sort_rules same_day)) (group_rules rules [])

abbrev pub assert_effective_range :
    Option PlainDate → Option PlainDate → Result SchedulingError (Unit {0})
assert_effective_range (some from) (some until) =
    throw_if (leb until from) (invalid_effective_range from until)
assert_effective_range _ _ = ok tt

module _ (temporal : TemporalZones) where
  unfoldable pub create_weekly_availability_pattern :
      WeeklyAvailabilityPatternInput → Result SchedulingError WeeklyAvailabilityPattern
  create_weekly_availability_pattern input = do
    assert_valid_iana_time_zone temporal input.input_time_zone
    rules ← read_rules input.input_rules
    assert_no_overlap_within_day rules
    assert_effective_range input.input_from input.input_until
    ok (record {
      time_zone = input.input_time_zone;
      rules = rules;
      effective_from = input.input_from;
      effective_until = input.input_until;
    })
