-- ===== src/Scheduling/PatternColumns.antt =====
-- The columns of a pattern, of apps/api/src/modules/scheduling/infrastructure/repositories/
-- availability-patterns.repository.ts: what `create` writes of it, and how `toRecord` reads it back.
-- A member of a JSON object has a number; the columns' conversions are parameters, and the text of a
-- date, which only they read, is a number.
pub mod ReadBack
use slotnova.Base.{ℕ, ◌≡◌, ◌⊎◌, Option, none, some, String, List, [], ◌∷◌, map, if◌then◌else◌}
use text.Mathlib.Text.{◌==◌ as str_eq}
use slotnova.Base.Number.{Number, nat, non_integer}
use slotnova.Base.Outcome.{Result, ok, err, ◌>>=◌}
use slotnova.Scheduling.WallClock.{PlainDate}
use slotnova.Scheduling.Pattern.{
  RuleInput, WeeklyAvailabilityRule, WeeklyAvailabilityPattern, WeeklyAvailabilityPatternInput,
}

pub record JsonMember : Type 0 where
  pub member_name : String
  pub member_value : Number

abbrev pub JsonObject : Type 0
JsonObject = List JsonMember

-- A JSON document, of which an array of objects is told apart.
pub data JsonDocument : Type 0 where
  array : List JsonObject → JsonDocument
  not_array : JsonDocument

abbrev pub or_member : Option Number → String → JsonMember → Option Number
or_member (some n) name m = some n
or_member none name m = if str_eq m.member_name name then some m.member_value else none

-- `object[name]`, where a later member overrides an earlier one of its name.
unfoldable pub get_member : String → JsonObject → Option Number
get_member name [] = none
get_member name (m ∷ ms) = or_member (get_member name ms) name m

-- How the columns keep values. `jsonb_object`: an object as `JSON.stringify`, `::jsonb` and the
-- driver leave it, which may have other members first but has the same ones. `date_text`:
-- `PlainDate.toString`. `plain_date`: `PlainDate.from`, which may throw. `cast_date`: `::date`, which
-- may fail, and `::text`; a date of four-digit years is printed as `toString` prints it, and the
-- others in a form that `PlainDate.from` refuses.
pub record ColumnFormats : Type 0 where
  pub jsonb_object : JsonObject → JsonObject
  pub date_text : PlainDate → ℕ
  pub plain_date : ℕ → Option PlainDate
  pub cast_date : ℕ → Option ℕ
  pub jsonb_object_lem :
      (name : String) (o : JsonObject) → get_member name (jsonb_object o) ≡ get_member name o
  pub plain_date_lem : (d : PlainDate) → plain_date (date_text d) ≡ some d
  pub cast_date_lem :
      (d : PlainDate) (t : ℕ)
      → cast_date (date_text d) ≡ some t
      → (t ≡ date_text d) ⊎ (plain_date t ≡ none)

pub data ColumnError : Type 0 where
  date_not_stored date_not_read : ColumnError

-- The columns as a query selects them, the dates by their text.
pub record AvailabilityPatternRow : Type 0 where
  pub timezone_column : String
  pub weekly_rule_column : JsonDocument
  pub effective_from_column : Option ℕ
  pub effective_until_column : Option ℕ

-- A rule as `JSON.stringify` writes it.
abbrev pub to_json : WeeklyAvailabilityRule → JsonObject
to_json rule =
    record { member_name = "dayOfWeek"; member_value = nat rule.rule_day }
    ∷ record { member_name = "startMinuteOfDay"; member_value = nat rule.start_minute_of_day }
    ∷ record { member_name = "endMinuteOfDay"; member_value = nat rule.end_minute_of_day }
    ∷ []

-- `undefined` is no integer.
abbrev pub or_undefined : Option Number → Number
or_undefined (some n) = n
or_undefined none = non_integer

-- The members of a stored rule that the domain reads.
unfoldable pub of_json : JsonObject → RuleInput
of_json o = record {
  input_day_of_week = or_undefined (get_member "dayOfWeek" o);
  input_start = or_undefined (get_member "startMinuteOfDay" o);
  input_end = or_undefined (get_member "endMinuteOfDay" o);
}

-- `Array.isArray(row.weekly_rule) ? row.weekly_rule : []`.
abbrev pub to_rules : JsonDocument → List RuleInput
to_rules (array objects) = map of_json objects
to_rules not_array = []

module _ (formats : ColumnFormats) where
  abbrev pub stored_date : Option ℕ → Result ColumnError (Option ℕ)
  stored_date none = err date_not_stored
  stored_date (some t) = ok (some t)

  -- `dateParam`, cast to the column.
  abbrev pub date_param : Option PlainDate → Result ColumnError (Option ℕ)
  date_param none = ok none
  date_param (some d) = stored_date (formats.cast_date (formats.date_text d))

  abbrev pub read_date : Option PlainDate → Result ColumnError (Option PlainDate)
  read_date none = err date_not_read
  read_date (some d) = ok (some d)

  abbrev pub from_column : Option ℕ → Result ColumnError (Option PlainDate)
  from_column none = ok none
  from_column (some t) = read_date (formats.plain_date t)

  -- The values of `create`.
  unfoldable pub to_row_columns :
      WeeklyAvailabilityPattern → Result ColumnError AvailabilityPatternRow
  to_row_columns pattern' = do
    from ← date_param pattern'.effective_from
    until ← date_param pattern'.effective_until
    ok (record {
      timezone_column = pattern'.time_zone;
      weekly_rule_column = array (map (λ rule. formats.jsonb_object (to_json rule)) pattern'.rules);
      effective_from_column = from;
      effective_until_column = until;
    })

  -- `toRecord`.
  unfoldable pub to_record :
      AvailabilityPatternRow → Result ColumnError WeeklyAvailabilityPatternInput
  to_record row = do
    from ← from_column row.effective_from_column
    until ← from_column row.effective_until_column
    ok (record {
      input_time_zone = row.timezone_column;
      input_rules = to_rules row.weekly_rule_column;
      input_from = from;
      input_until = until;
    })

  -- What `create` returns of a pattern: its row, read back.
  unfoldable pub to_stored :
      WeeklyAvailabilityPattern → Result ColumnError WeeklyAvailabilityPatternInput
  to_stored pattern' = do row ← to_row_columns pattern'; to_record row
