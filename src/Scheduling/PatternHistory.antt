-- ===== src/Scheduling/PatternHistory.antt =====
-- The pattern history of a workspace: apps/api/src/modules/scheduling/application/
-- create-availability-pattern.use-case.ts, the INSERT and the overlap query of
-- availability-patterns.repository.ts, and the constraints of the table in the migrations 0008 and
-- 0010. The use case is given the rows of the workspace as its query finds them (`seen`) and as its
-- INSERT finds them (`now`): its lock makes the two the same for writers that take it.
pub mod Disjoint
use slotnova.Base.{
  ℕ, Bool, true, false, not, ◌&&◌, Option, none, some, String, List, [], ◌∷◌, map, if◌then◌else◌,
}
use text.Mathlib.Text.{◌==◌ as str_eq}
use slotnova.Base.Lists.{any}
use slotnova.Base.Outcome.{Result, ok, err, ◌>>=◌, ◌>>◌, throw_if}
use slotnova.Scheduling.WallClock.{PlainDate, TemporalZones, SchedulingError}
use slotnova.Scheduling.Pattern.{
  WeeklyAvailabilityPattern, WeeklyAvailabilityPatternInput, create_weekly_availability_pattern,
}
use slotnova.Scheduling.PatternColumns.{
  ColumnError, ColumnFormats, AvailabilityPatternRow, to_row_columns, to_record,
}
use slotnova.Scheduling.Availability.{AvailabilityPatternRecord, bound_lt, dateranges_overlap}

-- A failure of the INSERT: a CHECK, or an exclusion constraint by its name.
pub data InsertError : Type 0 where
  check_failed : InsertError
  excluded : String → InsertError

pub data PatternError : Type 0 where
  invalid_pattern : SchedulingError → PatternError
  overlapping_effective_pattern : PatternError
  insert_failed : InsertError → PatternError
  column_failed : ColumnError → PatternError

abbrev pub pattern_overlap_constraint : String
pattern_overlap_constraint = "availability_patterns_no_overlapping_effective_window"

unfoldable pub exists_overlapping_effective_window :
    Option PlainDate → Option PlainDate → List AvailabilityPatternRecord → Bool
exists_overlapping_effective_window from until =
    any (λ r. dateranges_overlap r.stored.input_from r.stored.input_until from until)

-- The constraints that the INSERT of a window checks: the CHECK on its order and the exclusion. The
-- CHECKs on the form of the time zone and of the rules' JSON are not modelled.
unfoldable pub insert_pattern :
    Option PlainDate
    → Option PlainDate
    → List AvailabilityPatternRecord
    → Result InsertError (Unit {0})
insert_pattern from until table = do
  throw_if (not (bound_lt from until)) check_failed
  throw_if (exists_overlapping_effective_window from until table)
      (excluded pattern_overlap_constraint)

unfoldable pub translate_pattern_overlap_violation : InsertError → PatternError
translate_pattern_overlap_violation (excluded constraint) =
    if str_eq constraint pattern_overlap_constraint
    then overlapping_effective_pattern
    else insert_failed (excluded constraint)
translate_pattern_overlap_violation check_failed = insert_failed check_failed

abbrev pub caught {ℓ} : {A : Type ℓ} → Result InsertError A → Result PatternError A
caught (ok a) = ok a
caught (err e) = err (translate_pattern_overlap_violation e)

abbrev pub checked {ℓ} : {A : Type ℓ} → Result SchedulingError A → Result PatternError A
checked (ok a) = ok a
checked (err e) = err (invalid_pattern e)

abbrev pub from_columns {ℓ} : {A : Type ℓ} → Result ColumnError A → Result PatternError A
from_columns (ok a) = ok a
from_columns (err e) = err (column_failed e)

module _ (temporal : TemporalZones) (formats : ColumnFormats) where
  -- `CreateAvailabilityPatternUseCase.execute`; the id is the one that the database generates.
  unfoldable pub create_availability_pattern :
      ℕ
      → WeeklyAvailabilityPatternInput
      → (seen now : List AvailabilityPatternRecord)
      → Result PatternError (AvailabilityPatternRecord × List AvailabilityPatternRecord)
  create_availability_pattern id input seen now = do
    pattern' ← checked (create_weekly_availability_pattern temporal input)
    throw_if
        (exists_overlapping_effective_window pattern'.effective_from pattern'.effective_until seen)
        overlapping_effective_pattern
    columns ← from_columns (to_row_columns formats pattern')
    caught (insert_pattern pattern'.effective_from pattern'.effective_until now)
    stored ← from_columns (to_record formats columns)
    let row : AvailabilityPatternRecord = record { pattern_id = id; stored = stored }
    ok (row, row ∷ now)
