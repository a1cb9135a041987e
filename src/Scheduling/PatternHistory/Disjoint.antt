-- ===== src/Scheduling/PatternHistory/Disjoint.antt =====
-- The history invariant, and what a creation answers.
use mathlib.Core.Path.{subst}
use slotnova.Base.{
  ℕ, if◌then◌else◌, ◌≡◌, refl, sym, ◌∙◌, inl, inr, Bool, true, false, ◌&&◌, ◌||◌, Option, none,
  some, List, [], ◌∷◌, Bool-cases, arith,
}
use slotnova.Base.Lists.{All}
use slotnova.Base.Outcome.{Result, ok, err, Result-cases}
use slotnova.Scheduling.WallClock.{PlainDate, TemporalZones, SchedulingError}
use slotnova.Scheduling.Pattern.{
  WeeklyAvailabilityPattern, WeeklyAvailabilityPatternInput, assert_effective_range,
  create_weekly_availability_pattern,
}
use slotnova.Scheduling.Recurrence.Coverage.{HasBegun, HasNotEnded}
use slotnova.Scheduling.Availability.{AvailabilityPatternRecord, bound_lt, dateranges_overlap}
use slotnova.Scheduling.PatternColumns.{
  ColumnError, date_not_stored, date_not_read, ColumnFormats, to_row_columns, to_record, to_stored,
}
use slotnova.Scheduling.PatternColumns.ReadBack.{
  to_stored-eq-ok, to_row_columns-eq-err, to_record-eq-err,
}
use slotnova.Scheduling.PatternHistory.{
  invalid_pattern, overlapping_effective_pattern, PatternError, column_failed,
  exists_overlapping_effective_window, insert_pattern, translate_pattern_overlap_violation,
  create_availability_pattern,
}

-- The stored pattern is in effect on a date.
abbrev pub IsEffective : PlainDate → AvailabilityPatternRecord → Type 0
IsEffective date r = HasBegun r.stored.input_from date × HasNotEnded r.stored.input_until date

abbrev pub IsDisjoint : AvailabilityPatternRecord → AvailabilityPatternRecord → Type 0
IsDisjoint r s = (date : PlainDate) → IsEffective date r → IsEffective date s → ⊥

-- On each date one pattern of the table is in effect at most.
abbrev pub IsHistory : List AvailabilityPatternRecord → Type 0
IsHistory [] = Unit
IsHistory (r ∷ rs) = All (IsDisjoint r) rs × IsHistory rs

bounded :
    (from until : Option PlainDate) (date : PlainDate)
    → HasBegun from date
    → HasNotEnded until date
    → bound_lt from until ≡ true
bounded none none date a b = refl
bounded none (some u) date a b = refl
bounded (some f) none date a b = refl
bounded (some f) (some u) date a b = ground arith

overlap_of_shared :
    (from until from' until' : Option PlainDate) (date : PlainDate)
    → HasBegun from date
    → HasNotEnded until date
    → HasBegun from' date
    → HasNotEnded until' date
    → dateranges_overlap from until from' until' ≡ true
unfolding dateranges_overlap
overlap_of_shared from until from' until' date a b c d =
    rw
      (
        bounded from until date a b,
        bounded from' until' date c d,
        bounded from until' date a d,
        bounded from' until date c b,
      )
      refl

ordered :
    (from until : Option PlainDate)
    → assert_effective_range from until ≡ ok tt
    → bound_lt from until ≡ true
ordered none until e = ground arith
ordered (some f) none e = refl
ordered (some f) (some u) e = ground arith

created_ordered :
    (temporal : TemporalZones) (input : WeeklyAvailabilityPatternInput)
    {p : WeeklyAvailabilityPattern}
    → create_weekly_availability_pattern temporal input ≡ ok p
    → bound_lt p.effective_from p.effective_until ≡ true
unfolding create_weekly_availability_pattern
created_ordered temporal input {p} e =
    elim (Result-cases (assert_effective_range input.input_from input.input_until)) [
      | inl (u, valid) ↦ ground (arith, ordered input.input_from input.input_until valid)
      | inr (error, invalid) ↦ ground (arith, invalid)
    ]

IsDisjoint-listed :
    (row : AvailabilityPatternRecord) (table : List AvailabilityPatternRecord)
    → exists_overlapping_effective_window row.stored.input_from row.stored.input_until table ≡ false
    → All (IsDisjoint row) table
unfolding exists_overlapping_effective_window
IsDisjoint-listed row [] e = tt
IsDisjoint-listed row (r ∷ rs) e = (
  λ date (a, b) (c, d).
      let k =
        overlap_of_shared r.stored.input_from r.stored.input_until row.stored.input_from
          row.stored.input_until date c d a b in
      absurd (ground arith),
  IsDisjoint-listed row rs (ground arith),
)

-- Whether the dates of a pattern can be stored.
abbrev pub is_storable : Result ColumnError WeeklyAvailabilityPatternInput → Bool
is_storable (err date_not_stored) = false
is_storable (err date_not_read) = true
is_storable (ok stored) = true

abbrev pub added :
    ℕ
    → List AvailabilityPatternRecord
    → Result ColumnError WeeklyAvailabilityPatternInput
    → Result PatternError (AvailabilityPatternRecord × List AvailabilityPatternRecord)
added id now (err error) = err (column_failed error)
added id now (ok stored) =
    ok (
      record { pattern_id = id; stored = stored },
      record { pattern_id = id; stored = stored } ∷ now,
    )

module _ (temporal : TemporalZones) (formats : ColumnFormats) where
  pub create_availability_pattern-eq-overlap :
      (id : ℕ) (input : WeeklyAvailabilityPatternInput) (seen now : List AvailabilityPatternRecord)
      {p : WeeklyAvailabilityPattern}
      → create_weekly_availability_pattern temporal input ≡ ok p
      → create_availability_pattern temporal formats id input seen now ≡ (
          if exists_overlapping_effective_window p.effective_from p.effective_until seen
            || (is_storable (to_stored formats p)
                && exists_overlapping_effective_window p.effective_from p.effective_until now)
          then err overlapping_effective_pattern
          else added id now (to_stored formats p))
  unfolding create_availability_pattern insert_pattern translate_pattern_overlap_violation to_stored
  create_availability_pattern-eq-overlap id input seen now {p} e =
      let valid = created_ordered temporal input e in
      elim (Bool-cases
        (exists_overlapping_effective_window p.effective_from p.effective_until seen)) [
          | inl f ↦ rw (e, f) refl
          | inr f ↦ elim (Result-cases (to_row_columns formats p)) [
            | inr (error, c) ↦
                let same = to_row_columns-eq-err formats p c in rw (e, f, c, same) refl
            | inl (columns, c) ↦
                elim (Bool-cases
                  (exists_overlapping_effective_window p.effective_from p.effective_until now)) [
                    | inr g ↦ elim (Result-cases (to_record formats columns)) [
                      | inr (error, d) ↦
                          let same = to_record-eq-err formats columns d in
                          rw (e, f, c, valid, g, d, same) refl
                      | inl (stored, d) ↦ rw (e, f, c, valid, g, d) refl
                    ]
                    | inl g ↦ elim (Result-cases (to_record formats columns)) [
                      | inr (error, d) ↦
                          let same = to_record-eq-err formats columns d in
                          rw (e, f, c, valid, g, d, same) refl
                      | inl (stored, d) ↦ rw (e, f, c, valid, g, d) refl
                    ]
                  ]
          ]
        ]

  refused :
      (id : ℕ) (input : WeeklyAvailabilityPatternInput) (seen now : List AvailabilityPatternRecord)
      {error : SchedulingError}
      → create_weekly_availability_pattern temporal input ≡ err error
      → create_availability_pattern temporal formats id input seen now ≡ err (invalid_pattern error)
  unfolding create_availability_pattern
  refused id input seen now f = rw f refl

  -- A creation keeps the history: whatever its query saw, on each date one stored pattern is in
  -- effect at most.
  pub create_availability_pattern-IsHistory :
      (id : ℕ) (input : WeeklyAvailabilityPatternInput) (seen now : List AvailabilityPatternRecord)
      {row : AvailabilityPatternRecord} {table : List AvailabilityPatternRecord}
      → IsHistory now
      → create_availability_pattern temporal formats id input seen now ≡ ok (row, table)
      → IsHistory table
  create_availability_pattern-IsHistory id input seen now {row} {table} h e =
      elim (Result-cases (create_weekly_availability_pattern temporal input)) [
        | inr (error, f) ↦ let k = refused id input seen now f in cc (k, e)
        | inl (p, f) ↦
            let answer = sym (create_availability_pattern-eq-overlap id input seen now f) ∙ e in
            elim (Result-cases (to_stored formats p)) [
              | inr (error, c) ↦ absurd (ground (arith, c, answer))
              | inl (stored, c) ↦
                  let same = to_stored-eq-ok formats p c in
                  elim (Bool-cases
                    (exists_overlapping_effective_window p.effective_from p.effective_until now)) [
                      | inl g ↦ absurd (ground (arith, c, answer, g))
                      | inr g ↦
                          let stored_row : AvailabilityPatternRecord = record {
                            pattern_id = id;
                            stored = stored;
                          } in
                          let free : exists_overlapping_effective_window stored.input_from
                                stored.input_until now
                              ≡ false =
                            rw same g in
                          let extended : stored_row ∷ now ≡ table = ground (arith, c, answer, g) in
                          subst IsHistory extended (IsDisjoint-listed stored_row now free, h)
                    ]
            ]
      ]
