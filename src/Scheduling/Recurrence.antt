-- ===== src/Scheduling/Recurrence.antt =====
-- apps/api/src/modules/scheduling/domain/recurrence.ts: the expansion of a weekly pattern into
-- intervals over a window of dates.
mod Dates
pub mod Expansion
pub mod Coverage
use slotnova.Base.{
  Option, none, some, ℕ, zero, suc, ◌-◌, none, some, String, List, [], ◌∷◌, ◌++◌, ltb, leb,
  if◌then◌else◌,
}
use slotnova.Base.Outcome.{Result, ok, err, ◌>>=◌, ◌>>◌, throw_if}
use slotnova.Scheduling.Interval.{Interval, IntervalError, create_interval}
use slotnova.Scheduling.IntervalSet.{normalize_intervals}
use slotnova.Scheduling.WallClock.{
  PlainDate, local_date_time, TemporalZones, SchedulingError, invalid_interval,
  invalid_expansion_range, expansion_horizon_exceeded, resolve_local_date_time,
}
use slotnova.Scheduling.Pattern.{
  WeeklyAvailabilityRule, WeeklyAvailabilityPattern, RulesByDay, get_rules, group_rules,
}

abbrev pub max_expansion_horizon_days : ℕ
max_expansion_horizon_days = 370

pub record ExpansionRange : Type 0 where
  pub from_date : PlainDate
  pub to_date : PlainDate

unfoldable pub assert_valid_expansion_range : ExpansionRange → Result SchedulingError (Unit {0})
assert_valid_expansion_range range = do
  throw_if (leb range.to_date range.from_date)
      (invalid_expansion_range range.from_date range.to_date)
  throw_if (ltb max_expansion_horizon_days (range.to_date - range.from_date))
      (expansion_horizon_exceeded (range.to_date - range.from_date) max_expansion_horizon_days)

abbrev pub later_date : PlainDate → PlainDate → PlainDate
later_date left right = if leb right left then left else right

abbrev pub earlier_date : PlainDate → PlainDate → PlainDate
earlier_date left right = if leb left right then left else right

-- Where the loop over dates begins and ends.
abbrev pub first_date : Option PlainDate → PlainDate → PlainDate
first_date none from = from
first_date (some effective_from) from = later_date from effective_from

abbrev pub last_date : Option PlainDate → PlainDate → PlainDate
last_date none to = to
last_date (some effective_until) to = earlier_date to effective_until

abbrev pub from_interval {ℓ} : {A : Type ℓ} → Result IntervalError A → Result SchedulingError A
from_interval (ok a) = ok a
from_interval (err e) = err (invalid_interval e)

module _ (temporal : TemporalZones) where
  -- What the body of the inner loop pushes: one interval, or none after a `continue`.
  unfoldable pub occurrence :
      String → PlainDate → WeeklyAvailabilityRule → Result SchedulingError (List Interval)
  occurrence time_zone date rule = do
    start ←
        resolve_local_date_time temporal (local_date_time date rule.start_minute_of_day) time_zone
    end ← resolve_local_date_time temporal (local_date_time date rule.end_minute_of_day) time_zone
    (if leb end start
        then ok []
        else do span ← from_interval (create_interval start end); ok (span ∷ []))

  unfoldable pub expand_day :
      String → PlainDate → List WeeklyAvailabilityRule → Result SchedulingError (List Interval)
  expand_day time_zone date [] = ok []
  expand_day time_zone date (rule ∷ rules) = do
    spans ← occurrence time_zone date rule
    later ← expand_day time_zone date rules
    ok (spans ++ later)

  -- The loop over dates, by the number of dates that are left.
  unfoldable pub expand_days :
      String → RulesByDay → ℕ → PlainDate → Result SchedulingError (List Interval)
  expand_days time_zone by_day zero date = ok []
  expand_days time_zone by_day (suc n) date = do
    spans ← expand_day time_zone date (get_rules (temporal.day_of_week date) by_day)
    later ← expand_days time_zone by_day n (suc date)
    ok (spans ++ later)

  -- What follows the test on the number of rules.
  abbrev pub expand_window :
      WeeklyAvailabilityPattern → PlainDate → PlainDate → Result SchedulingError (List Interval)
  expand_window pattern' start end = if leb end start then ok [] else do
    expanded ← expand_days pattern'.time_zone (group_rules pattern'.rules []) (end - start) start
    from_interval (normalize_intervals expanded)

  abbrev pub expand_rules :
      WeeklyAvailabilityPattern
      → ExpansionRange
      → List WeeklyAvailabilityRule
      → Result SchedulingError (List Interval)
  expand_rules pattern' range [] = ok []
  expand_rules pattern' range (rule ∷ rules) =
      expand_window pattern' (first_date pattern'.effective_from range.from_date)
        (last_date pattern'.effective_until range.to_date)

  unfoldable pub expand_weekly_availability :
      WeeklyAvailabilityPattern → ExpansionRange → Result SchedulingError (List Interval)
  expand_weekly_availability pattern' range = do
    assert_valid_expansion_range range
    expand_rules pattern' range pattern'.rules
