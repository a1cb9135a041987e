-- ===== src/Scheduling/PatternColumns/ReadBack.antt =====
-- A pattern that was created, read back from its columns.
use slotnova.Base.{
  ◌≡◌, refl, sym, ap, ◌∙◌, inl, inr, Option, none, some, ℕ, List, [], ◌∷◌, map, Option-cases, arith,
}
use slotnova.Base.Number.{nat}
use slotnova.Base.Outcome.{ok, err, ◌>>=◌, >>=-eq-ok, Result-cases}
use slotnova.Scheduling.WallClock.{PlainDate, TemporalZones}
use slotnova.Scheduling.Pattern.{
  RuleInput, WeeklyAvailabilityRule, WeeklyAvailabilityPattern, WeeklyAvailabilityPatternInput,
  read_rule, read_rules, assert_valid_local_time_range, create_weekly_availability_pattern,
}
use mathlib.Core.Path.{subst}
use slotnova.Scheduling.PatternColumns.{
  ColumnError, date_not_stored, date_not_read, AvailabilityPatternRow, ColumnFormats, get_member,
  to_json, of_json, date_param, from_column, to_row_columns, to_record, to_stored,
}

-- The columns of a pattern, its rules numbers again.
abbrev pub to_rule_input : WeeklyAvailabilityRule → RuleInput
to_rule_input rule = record {
  input_day_of_week = nat rule.rule_day;
  input_start = nat rule.start_minute_of_day;
  input_end = nat rule.end_minute_of_day;
}

abbrev pub to_input : WeeklyAvailabilityPattern → WeeklyAvailabilityPatternInput
to_input pattern' = record {
  input_time_zone = pattern'.time_zone;
  input_rules = map to_rule_input pattern'.rules;
  input_from = pattern'.effective_from;
  input_until = pattern'.effective_until;
}

-- What `createWeeklyAvailabilityPattern` accepts is accepted again when it is read back.
read_rule_again :
    (input : RuleInput) {rule : WeeklyAvailabilityRule}
    → read_rule input ≡ ok rule
    → read_rule (to_rule_input rule) ≡ ok rule
unfolding read_rule assert_valid_local_time_range
read_rule_again input e = ground arith

read_rules_again :
    (inputs : List RuleInput) (rules : List WeeklyAvailabilityRule)
    → read_rules inputs ≡ ok rules
    → read_rules (map to_rule_input rules) ≡ ok rules
unfolding read_rules
read_rules_again [] rules e =
    let k : [] ≡ rules = cc in subst (λ rs. read_rules (map to_rule_input rs) ≡ ok rs) k refl
read_rules_again (input ∷ inputs) rules e =
    let (rule, one, e') =
      >>=-eq-ok (read_rule input) (λ rule. read_rules inputs >>= λ rest. ok (rule ∷ rest)) e in
    let (rest, more, e'') = >>=-eq-ok (read_rules inputs) (λ rest. ok (rule ∷ rest)) e' in
    let k : rule ∷ rest ≡ rules = cc in
    subst (λ rs. read_rules (map to_rule_input rs) ≡ ok rs) k
      (rw (read_rule_again input one, read_rules_again inputs rest more) refl)

created_again :
    (temporal : TemporalZones) (input : WeeklyAvailabilityPatternInput)
    {p : WeeklyAvailabilityPattern}
    → create_weekly_availability_pattern temporal input ≡ ok p
    → create_weekly_availability_pattern temporal (to_input p) ≡ ok p
unfolding create_weekly_availability_pattern
created_again temporal input {p} e = elim (Result-cases (read_rules input.input_rules)) [
  | inl (rules, more) ↦
      let again = read_rules_again input.input_rules rules more in ground (arith, again, more)
  | inr (error, more) ↦ ground (arith, more)
]

module _ (formats : ColumnFormats) where
  open formats use {
    jsonb_object, jsonb_object_lem, date_text, plain_date, plain_date_lem, cast_date, cast_date_lem,
  }

  of_json-to_json :
      (rule : WeeklyAvailabilityRule) → of_json (jsonb_object (to_json rule)) ≡ to_rule_input rule
  unfolding of_json
  of_json-to_json rule =
      rw
        (
          jsonb_object_lem "dayOfWeek" (to_json rule),
          jsonb_object_lem "startMinuteOfDay" (to_json rule),
          jsonb_object_lem "endMinuteOfDay" (to_json rule),
        )
        (unfold get_member in refl)

  rules-read :
      (rules : List WeeklyAvailabilityRule)
      → map of_json (map (λ rule. jsonb_object (to_json rule)) rules) ≡ map to_rule_input rules
  rules-read [] = refl
  rules-read (rule ∷ rules) = rw (of_json-to_json rule, rules-read rules) refl

  from_column-date_param :
      (date : Option PlainDate) {column : Option ℕ} {read : Option PlainDate}
      → date_param formats date ≡ ok column
      → from_column formats column ≡ ok read
      → read ≡ date
  from_column-date_param none {column} {read} e f =
      let none_stored : none ≡ column = cc (e) in
      let none_read : from_column formats none ≡ ok read =
        subst (λ c. from_column formats c ≡ ok read) (sym none_stored) f in
      cc (none_read)
  from_column-date_param (some d) {column} {read} e f =
      elim (Option-cases (cast_date (date_text d))) [
        | inl g ↦ absurd (ground (arith, g, e))
        | inr (t, g) ↦
            let stored : some t ≡ column = ground (arith, g, e) in
            let was_read : from_column formats (some t) ≡ ok read =
              subst (λ c. from_column formats c ≡ ok read) (sym stored) f in
            elim (cast_date_lem d t g) [
              | inl same ↦
                  let text : plain_date t ≡ some d = ap plain_date same ∙ plain_date_lem d in
                  ground (arith, text, was_read)
              | inr unread ↦ absurd (ground (arith, unread, was_read))
            ]
      ]

  date_param-eq-err :
      (date : Option PlainDate) {error : ColumnError}
      → date_param formats date ≡ err error
      → error ≡ date_not_stored
  date_param-eq-err none e = cc (e)
  date_param-eq-err (some d) e = elim (Option-cases (cast_date (date_text d))) [
    | inl f ↦ ground (arith, f, e)
    | inr (t, f) ↦ ground (arith, f, e)
  ]

  from_column-eq-err :
      (column : Option ℕ) {error : ColumnError}
      → from_column formats column ≡ err error
      → error ≡ date_not_read
  from_column-eq-err none e = cc (e)
  from_column-eq-err (some t) e = elim (Option-cases (plain_date t)) [
    | inl f ↦ ground (arith, f, e)
    | inr (d, f) ↦ ground (arith, f, e)
  ]

  pub to_row_columns-eq-err :
      (p : WeeklyAvailabilityPattern) {error : ColumnError}
      → to_row_columns formats p ≡ err error
      → error ≡ date_not_stored
  unfolding to_row_columns
  to_row_columns-eq-err p {error} e = elim (Result-cases (date_param formats p.effective_from)) [
    | inr (x, f) ↦ let k = date_param-eq-err p.effective_from f in ground (arith, f, e, k)
    | inl (from, f) ↦ elim (Result-cases (date_param formats p.effective_until)) [
      | inr (x, g) ↦ let k = date_param-eq-err p.effective_until g in ground (arith, f, g, e, k)
      | inl (until, g) ↦ absurd (ground (arith, f, g, e))
    ]
  ]

  pub to_record-eq-err :
      (row : AvailabilityPatternRow) {error : ColumnError}
      → to_record formats row ≡ err error
      → error ≡ date_not_read
  unfolding to_record
  to_record-eq-err row {error} e =
      elim (Result-cases (from_column formats row.effective_from_column)) [
        | inr (x, f) ↦
            let k = from_column-eq-err row.effective_from_column f in ground (arith, f, e, k)
        | inl (from, f) ↦ elim (Result-cases (from_column formats row.effective_until_column)) [
          | inr (x, g) ↦
              let k = from_column-eq-err row.effective_until_column g in ground (arith, f, g, e, k)
          | inl (until, g) ↦ absurd (ground (arith, f, g, e))
        ]
      ]

  -- What a pattern is read back as.
  pub to_stored-eq-ok :
      (p : WeeklyAvailabilityPattern) {stored : WeeklyAvailabilityPatternInput}
      → to_stored formats p ≡ ok stored
      → stored ≡ to_input p
  unfolding to_stored to_row_columns to_record
  to_stored-eq-ok p {stored} e = elim (Result-cases (date_param formats p.effective_from)) [
    | inr (error, f) ↦ absurd (ground (arith, f, e))
    | inl (from, f) ↦ elim (Result-cases (date_param formats p.effective_until)) [
      | inr (error, g) ↦ absurd (ground (arith, f, g, e))
      | inl (until, g) ↦ elim (Result-cases (from_column formats from)) [
        | inr (error, h) ↦ absurd (ground (arith, f, g, h, e))
        | inl (from', h) ↦ elim (Result-cases (from_column formats until)) [
          | inr (error, k) ↦ absurd (ground (arith, f, g, h, k, e))
          | inl (until', k) ↦
              let first = from_column-date_param p.effective_from f h in
              let last = from_column-date_param p.effective_until g k in
              let rules = rules-read p.rules in ground (arith, f, g, h, k, e, first, last, rules)
        ]
      ]
    ]
  ]

  -- The date is one that PostgreSQL prints as Temporal does.
  abbrev pub IsKept : Option PlainDate → Type 0
  IsKept none = Unit
  IsKept (some d) = cast_date (date_text d) ≡ some (date_text d)

  date_param-IsKept :
      (date : Option PlainDate)
      → IsKept date
      → (column : Option ℕ) × (date_param formats date ≡ ok column)
        × (from_column formats column ≡ ok date)
  date_param-IsKept none kept = (none, refl, refl)
  date_param-IsKept (some d) kept = (some (date_text d), rw kept refl, rw (plain_date_lem d) refl)

  -- A pattern that was created, with dates that PostgreSQL prints as Temporal does, is stored in
  -- columns that are read back, and what is read back is validated as the same pattern.
  pub create_weekly_availability_pattern-to_stored :
      (temporal : TemporalZones) (input : WeeklyAvailabilityPatternInput)
      {p : WeeklyAvailabilityPattern}
      → IsKept p.effective_from
      → IsKept p.effective_until
      → create_weekly_availability_pattern temporal input ≡ ok p
      → (stored : WeeklyAvailabilityPatternInput) × (to_stored formats p ≡ ok stored)
        × (create_weekly_availability_pattern temporal stored ≡ ok p)
  unfolding to_stored to_row_columns to_record
  create_weekly_availability_pattern-to_stored temporal input {p} from until e =
      let (first, a, b) = date_param-IsKept p.effective_from from in
      let (last, c, d) = date_param-IsKept p.effective_until until in
      (to_input p, rw (a, c, b, d, rules-read p.rules) refl, created_again temporal input e)
