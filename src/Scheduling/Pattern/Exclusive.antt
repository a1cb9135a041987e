-- ===== src/Scheduling/Pattern/Exclusive.antt =====
-- The rules of one day do not overlap in a pattern that was created.
use mathlib.Core.Path.{subst}
use slotnova.Base.{
  ℕ, suc, ◌≤◌, ◌<◌, ◌≡◌, refl, ap, ◌∙◌, inl, inr, Bool, false, ◌&&◌, List, [], ◌∷◌, ltb, leb, ◌==◌,
  if◌then◌else◌, Bool-cases, arith,
}
use slotnova.Base.Lists.{filter, All, All-filter}
use slotnova.Base.Outcome.{ok, ◌>>=◌, for_each, >>=-eq-ok, Result-cases}
use slotnova.Scheduling.WallClock.{TemporalZones}
use slotnova.Scheduling.Pattern.{
  RuleInput, WeeklyAvailabilityRule, WeeklyAvailabilityPattern, WeeklyAvailabilityPatternInput,
  RulesByDay, get_rules, group_rules, insert_rule, sort_rules, assert_neighbours,
  assert_no_overlap_within_day, assert_valid_local_time_range, read_rule, read_rules,
  create_weekly_availability_pattern,
}
use slotnova.Scheduling.Recurrence.Expansion.{get_rules-group_rules}

abbrev pub count : (WeeklyAvailabilityRule → Bool) → List WeeklyAvailabilityRule → ℕ
count p [] = 0
count p (r ∷ rs) = let rest = count p rs in if p r then suc rest else rest

-- The minute of the day is within the rule.
abbrev pub has_minute : ℕ → WeeklyAvailabilityRule → Bool
has_minute m r = leb r.start_minute_of_day m && ltb m r.end_minute_of_day

abbrev pub IsProperRule : WeeklyAvailabilityRule → Type 0
IsProperRule r = r.start_minute_of_day < r.end_minute_of_day

count-filter :
    (p q : WeeklyAvailabilityRule → Bool) (rs : List WeeklyAvailabilityRule)
    → count p (filter q rs) ≡ count (λ r. q r && p r) rs
count-filter p q [] = refl
count-filter p q (r ∷ rs) = elim (Bool-cases (q r)) [
  | inl e ↦ rw (filter, e, count-filter p q rs) refl
  | inr e ↦ rw (filter, e, count-filter p q rs) refl
]

count-insert_rule :
    (p : WeeklyAvailabilityRule → Bool) (r : WeeklyAvailabilityRule)
    (rs : List WeeklyAvailabilityRule)
    → count p (insert_rule r rs) ≡ count p (r ∷ rs)
unfolding insert_rule
count-insert_rule p r [] = refl
count-insert_rule p r (s ∷ rs) = ground (arith, count-insert_rule p r rs)

count-sort_rules :
    (p : WeeklyAvailabilityRule → Bool) (rs : List WeeklyAvailabilityRule)
    → count p (sort_rules rs) ≡ count p rs
unfolding sort_rules
count-sort_rules p [] = refl
count-sort_rules p (r ∷ rs) =
    count-insert_rule p r (sort_rules rs)
    ∙ ap (λ n. if p r then suc n else n) (count-sort_rules p rs)

insert_rule-All :
    (r : WeeklyAvailabilityRule) (rs : List WeeklyAvailabilityRule)
    → IsProperRule r
    → All IsProperRule rs
    → All IsProperRule (insert_rule r rs)
unfolding insert_rule
insert_rule-All r [] p h = (p, tt)
insert_rule-All r (s ∷ rs) p (q, h) =
    elim (Bool-cases (leb r.start_minute_of_day s.start_minute_of_day)) [
      | inl e ↦ rw e (p, (q, h))
      | inr e ↦ rw e (q, insert_rule-All r rs p h)
    ]

sort_rules-All :
    (rs : List WeeklyAvailabilityRule) → All IsProperRule rs → All IsProperRule (sort_rules rs)
unfolding sort_rules
sort_rules-All [] h = tt
sort_rules-All (r ∷ rs) (p, h) = insert_rule-All r (sort_rules rs) p (sort_rules-All rs h)

-- No later rule holds a minute before the end of the first.
none_later :
    (day m : ℕ) (r : WeeklyAvailabilityRule) (rs : List WeeklyAvailabilityRule)
    → assert_neighbours day (r ∷ rs) ≡ ok tt
    → All IsProperRule rs
    → m < r.end_minute_of_day
    → count (has_minute m) rs ≡ 0
unfolding assert_neighbours
none_later day m r [] e h lt = refl
none_later day m r (s ∷ rs) e (p, h) lt =
    let apart : ltb s.start_minute_of_day r.end_minute_of_day ≡ false = ground arith in
    let rest : assert_neighbours day (s ∷ rs) ≡ ok tt = ground arith in
    ground (arith, none_later day m s rs rest h (ground arith))

neighbours_exclusive :
    (day m : ℕ) (rs : List WeeklyAvailabilityRule)
    → assert_neighbours day rs ≡ ok tt
    → All IsProperRule rs
    → count (has_minute m) rs ≤ 1
unfolding assert_neighbours
neighbours_exclusive day m [] e h = omega arith
neighbours_exclusive day m (r ∷ []) e h = ground arith
neighbours_exclusive day m (r ∷ s ∷ rs) e (p, h) = elim (Bool-cases (has_minute m r)) [
  | inl f ↦ let none = none_later day m r (s ∷ rs) e h (ground arith) in rw (f, none) (omega arith)
  | inr f ↦
      let rest : assert_neighbours day (s ∷ rs) ≡ ok tt = ground arith in
      rw f (neighbours_exclusive day m (s ∷ rs) rest h)
]

checked_none : (day : ℕ) → assert_neighbours day (sort_rules []) ≡ ok tt
unfolding assert_neighbours sort_rules
checked_none day = refl

-- The loop over the days has checked every day's rules.
checked_day :
    (day : ℕ) (by_day : RulesByDay)
    → for_each (λ (key, same_day). assert_neighbours key (sort_rules same_day)) by_day ≡ ok tt
    → assert_neighbours day (sort_rules (get_rules day by_day)) ≡ ok tt
unfolding get_rules
checked_day day [] e = checked_none day
checked_day day ((key, same_day) ∷ rest) e =
    let (u, first, later) =
      >>=-eq-ok (assert_neighbours key (sort_rules same_day))
        (λ _. for_each (λ (k, rules). assert_neighbours k (sort_rules rules)) rest) e in
    elim (Bool-cases (key == day)) [
      | inl f ↦
          let same : key ≡ day = ground arith in
          rw f (subst (λ k. assert_neighbours k (sort_rules same_day) ≡ ok tt) same first)
      | inr f ↦ rw f (checked_day day rest later)
    ]

read_rule-IsProperRule :
    (input : RuleInput) {rule : WeeklyAvailabilityRule}
    → read_rule input ≡ ok rule
    → IsProperRule rule
unfolding read_rule assert_valid_local_time_range
read_rule-IsProperRule input e = ground arith

read_rules-All :
    (inputs : List RuleInput) (rules : List WeeklyAvailabilityRule)
    → read_rules inputs ≡ ok rules
    → All IsProperRule rules
unfolding read_rules
read_rules-All [] rules e = let k : [] ≡ rules = cc in subst (All IsProperRule) k tt
read_rules-All (input ∷ inputs) rules e =
    let (rule, one, e') =
      >>=-eq-ok (read_rule input) (λ rule. read_rules inputs >>= λ rest. ok (rule ∷ rest)) e in
    let (rest, more, e'') = >>=-eq-ok (read_rules inputs) (λ rest. ok (rule ∷ rest)) e' in
    let k : rule ∷ rest ≡ rules = cc in
    subst (All IsProperRule) k (read_rule-IsProperRule input one, read_rules-All inputs rest more)

exclusive_of :
    (rules : List WeeklyAvailabilityRule) (day m : ℕ)
    → All IsProperRule rules
    → assert_no_overlap_within_day rules ≡ ok tt
    → count (λ r. r.rule_day == day && has_minute m r) rules ≤ 1
unfolding assert_no_overlap_within_day
exclusive_of rules day m proper e =
    let same_day = filter (λ r. r.rule_day == day) rules in
    let checked : assert_neighbours day (sort_rules same_day) ≡ ok tt =
      subst (λ rs. assert_neighbours day (sort_rules rs) ≡ ok tt) (get_rules-group_rules day rules)
        (checked_day day (group_rules rules []) e) in
    let proper' =
      sort_rules-All same_day (All-filter IsProperRule (λ r. r.rule_day == day) rules proper) in
    subst (λ n. n ≤ 1)
      (count-sort_rules (has_minute m) same_day
        ∙ count-filter (has_minute m) (λ r. r.rule_day == day) rules)
      (neighbours_exclusive day m (sort_rules same_day) checked proper')

-- In a pattern that `createWeeklyAvailabilityPattern` returns every rule ends after it starts, and
-- no minute of any day of the week is within two rules of that day.
pub create_weekly_availability_pattern_exclusive :
    (temporal : TemporalZones) (input : WeeklyAvailabilityPatternInput)
    {p : WeeklyAvailabilityPattern} (day m : ℕ)
    → create_weekly_availability_pattern temporal input ≡ ok p
    → All IsProperRule p.rules × (count (λ r. r.rule_day == day && has_minute m r) p.rules ≤ 1)
unfolding create_weekly_availability_pattern
create_weekly_availability_pattern_exclusive temporal input {p} day m e =
    elim (Result-cases (read_rules input.input_rules)) [
      | inl (rules, read) ↦ elim (Result-cases (assert_no_overlap_within_day rules)) [
        | inl (u, valid) ↦
            let same : rules ≡ p.rules = ground (arith, read, valid) in
            subst
              (λ rs.
                All IsProperRule rs × (count (λ r. r.rule_day == day && has_minute m r) rs ≤ 1))
              same
              (
                read_rules-All input.input_rules rules read,
                exclusive_of rules day m (read_rules-All input.input_rules rules read) valid,
              )
        | inr (error, invalid) ↦ absurd (ground (arith, read, invalid))
      ]
      | inr (error, read) ↦ absurd (ground (arith, read))
    ]
