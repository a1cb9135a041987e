-- ===== src/Scheduling/ResolveTests.antt =====
-- Runs and instances of the theorems on weekly patterns, their history and the availability that
-- is resolved from them, in a zone without transitions.
use slotnova.Base.{
  ℕ, ltb, Option, ◌⊎◌, inl, suc, ◌%◌, ◌≡◌, ◌≤◌, refl, false, none, some, String, [], ◌∷◌,
  if◌then◌else◌, arith,
}
use text.Mathlib.Text.{◌==◌ as str_eq}
use slotnova.Base.{◌&&◌, ◌==◌}
use slotnova.Scheduling.Pattern.Exclusive.{
  count, has_minute, IsProperRule, create_weekly_availability_pattern_exclusive,
}
use slotnova.Base.Lists.{any, All}
use slotnova.Base.Number.{nat, negative}
use slotnova.Base.Outcome.{ok, err}
use slotnova.Scheduling.WallClock.{
  PlainDateTime, TemporalZones, invalid_local_time_range, start_bound, resolve_local_date_time,
  classify_local_date_time, assert_valid_iana_time_zone, has_fixed_offset_prefix,
}
use slotnova.Scheduling.Pattern.{
  RuleInput, WeeklyAvailabilityRule, WeeklyAvailabilityPattern, WeeklyAvailabilityPatternInput,
  create_weekly_availability_pattern, read_rule, read_rules, assert_valid_local_time_range,
  assert_no_overlap_within_day, assert_neighbours, group_rules, push_rule, sort_rules, insert_rule,
}
use slotnova.Scheduling.Recurrence.{
  ExpansionRange, expand_weekly_availability, assert_valid_expansion_range,
}
use slotnova.Scheduling.Recurrence.Coverage.{
  Covers, IsOpen, IsResolvedIn, expand_weekly_availability-Covers,
}
use slotnova.Scheduling.Availability.{
  AvailabilityPatternRecord, AvailabilityExceptionRecord, resolve_availability,
  list_overlapping_effective_window, dateranges_overlap,
}
use slotnova.Scheduling.Availability.Resolved.{excepts}
use slotnova.Scheduling.Availability.Exactness.{
  IsReadable, SomeOpen, listed, resolve_availability-Covers,
}
use slotnova.Scheduling.PatternColumns.{
  ColumnFormats, date_not_stored, to_row_columns, to_record, to_stored, of_json, get_member,
}
use slotnova.Scheduling.PatternColumns.ReadBack.{create_weekly_availability_pattern-to_stored}
use slotnova.Scheduling.PatternHistory.{
  column_failed, exists_overlapping_effective_window, create_availability_pattern, insert_pattern,
}
use slotnova.Scheduling.PatternHistory.Disjoint.{IsHistory, create_availability_pattern-IsHistory}

-- A zone whose local times are the instants.
abbrev utc : TemporalZones
utc = record {
  day_of_week = λ d. suc (d % 7);
  is_time_zone = λ z. str_eq z "UTC";
  to_zoned_date_time = λ l z d. some (record { instant = l; plain = l });
  next_transition = λ d z. none;
}

same_clock : (l : PlainDateTime) (zone : String) → resolve_local_date_time utc l zone ≡ ok l
unfolding resolve_local_date_time classify_local_date_time
same_clock l zone = ground arith

abbrev monday_input : RuleInput
monday_input = record { input_day_of_week = nat 1; input_start = nat 600; input_end = nat 720 }

abbrev monday : WeeklyAvailabilityRule
monday = record { rule_day = 1; start_minute_of_day = 600; end_minute_of_day = 720 }

abbrev mondays_input : WeeklyAvailabilityPatternInput
mondays_input = record {
  input_time_zone = "UTC";
  input_rules = monday_input ∷ [];
  input_from = some 3;
  input_until = none;
}

abbrev mondays : WeeklyAvailabilityPattern
mondays = record {
  time_zone = "UTC";
  rules = monday ∷ [];
  effective_from = some 3;
  effective_until = none;
}

abbrev fortnight : ExpansionRange
fortnight = record { from_date = 0; to_date = 14 }

checks : Unit {0}
unfolding create_weekly_availability_pattern assert_valid_iana_time_zone has_fixed_offset_prefix
    read_rules read_rule assert_valid_local_time_range assert_no_overlap_within_day
    assert_neighbours group_rules push_rule sort_rules insert_rule
checks = tt

created_mondays : create_weekly_availability_pattern utc mondays_input ≡ ok mondays
unfolding checks
created_mondays = refl

refused_start :
    read_rule (record { input_day_of_week = nat 1; input_start = negative 0; input_end = nat 60 })
    ≡ err (invalid_local_time_range start_bound)
unfolding read_rule assert_valid_local_time_range
refused_start = refl

resolved_mondays :
    (zone : String) (range : ExpansionRange)
    → IsResolvedIn utc (λ l. l) (record mondays { time_zone = zone }) range
resolved_mondays zone range d a b h = ((same_clock _ zone, same_clock _ zone), tt)

expand_weekly_availability-Covers_example :
    Covers
      (IsOpen utc (λ l. l) mondays fortnight)
      (expand_weekly_availability utc mondays fortnight)
expand_weekly_availability-Covers_example =
    expand_weekly_availability-Covers utc (λ l. l) mondays fortnight (omega arith) (omega arith)
      (resolved_mondays "UTC" fortnight)

abbrev closing : WeeklyAvailabilityPattern
closing = record { time_zone = "UTC"; rules = []; effective_from = none; effective_until = none }

expanded_closing : expand_weekly_availability utc closing fortnight ≡ ok []
unfolding expand_weekly_availability assert_valid_expansion_range
expanded_closing = refl

abbrev stored_mondays : AvailabilityPatternRecord
stored_mondays = record { pattern_id = 1; stored = mondays_input }

abbrev holiday : AvailabilityExceptionRecord
holiday = record {
  exception_id = 1;
  exception_starts_at = 5;
  exception_ends_at = 9;
  exception_reason = none;
}

IsReadable-mondays :
    All
      (IsReadable utc (λ z l. l) fortnight)
      (listed utc (λ z l. l) fortnight (stored_mondays ∷ []))
unfolding list_overlapping_effective_window dateranges_overlap
IsReadable-mondays = ((mondays, created_mondays, resolved_mondays "UTC" fortnight), tt)

resolve_availability-Covers_example :
    Covers
      (λ t.
        SomeOpen utc (λ z l. l) fortnight t (stored_mondays ∷ [])
        × (any (excepts t) (holiday ∷ []) ≡ false))
      (resolve_availability utc (stored_mondays ∷ []) (holiday ∷ []) fortnight)
resolve_availability-Covers_example =
    resolve_availability-Covers utc (λ z l. l) (stored_mondays ∷ []) (holiday ∷ []) fortnight
      (omega arith) (omega arith) IsReadable-mondays (omega arith, tt)

kept_date :
    (d t : ℕ)
    → (if ltb d 100 then some d else none) ≡ some t
    → (t ≡ d) ⊎ (◌≡◌ {A = Option ℕ} (some t) none)
kept_date d t e = inl (ground arith)

-- Dates from 100 on cannot be stored.
abbrev formats : ColumnFormats
formats = record {
  jsonb_object = λ o. o;
  date_text = λ d. d;
  plain_date = λ t. some t;
  cast_date = λ t. if ltb t 100 then some t else none;
  jsonb_object_lem = λ name o. refl;
  plain_date_lem = λ d. refl;
  cast_date_lem = kept_date;
}

create_weekly_availability_pattern-to_stored_example :
    (stored : WeeklyAvailabilityPatternInput) × (to_stored formats mondays ≡ ok stored)
    × (create_weekly_availability_pattern utc stored ≡ ok mondays)
create_weekly_availability_pattern-to_stored_example =
    create_weekly_availability_pattern-to_stored formats utc mondays_input {p = mondays} refl tt
      created_mondays

-- A pattern from a date that cannot be stored.
late :
    create_availability_pattern utc formats 2 (record mondays_input { input_from = some 200 }) [] []
    ≡ err (column_failed date_not_stored)
unfolding create_availability_pattern checks to_row_columns exists_overlapping_effective_window
late = refl

abbrev added_mondays : AvailabilityPatternRecord
added_mondays = record { pattern_id = 2; stored = mondays_input }

created_first :
    create_availability_pattern utc formats 2 mondays_input [] []
    ≡ ok (added_mondays, added_mondays ∷ [])
unfolding create_availability_pattern checks insert_pattern exists_overlapping_effective_window
    to_row_columns to_record of_json get_member
created_first = refl

create_availability_pattern-IsHistory_example : IsHistory (added_mondays ∷ [])
create_availability_pattern-IsHistory_example =
    create_availability_pattern-IsHistory utc formats 2 mondays_input [] [] tt created_first

create_weekly_availability_pattern_exclusive_example :
    All IsProperRule (monday ∷ [])
    × (count (λ r. r.rule_day == 1 && has_minute 610 r) (monday ∷ []) ≤ 1)
create_weekly_availability_pattern_exclusive_example =
    create_weekly_availability_pattern_exclusive utc mondays_input 1 610 created_mondays
