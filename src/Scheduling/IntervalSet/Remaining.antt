-- ===== src/Scheduling/IntervalSet/Remaining.antt =====
-- The inner loop of `subtractIntervals` on canonical blockers: it returns, and pushes what the
-- blockers leave of one interval.
use slotnova.Base.{
  suc, ◌≤◌, ◌<◌, ◌≡◌, refl, ap, ◌∙◌, inl, inr, Bool, true, false, not, ◌&&◌, ◌||◌, List, [], ◌∷◌,
  ltb, leb, if◌then◌else◌, Bool-cases, ltb→lt, arith,
}
use slotnova.Base.Lists.{All}
use slotnova.Base.Outcome.{ok}
use slotnova.Scheduling.Interval.{Instant, Interval, interval_contains}
use slotnova.Scheduling.IntervalSet.{scan_blockers, max_instant, min_instant}
use slotnova.Scheduling.IntervalSet.Sets.{
  covers, covers_up_to, IsCanonical, IsCanonicalFrom, IsCanonicalAfter-IsCanonical,
}
use slotnova.Scheduling.IntervalSet.Common.{
  cons_if, push_if-eq-ok, covers-cons_if, cons_if-IsCanonicalFrom,
}

-- What one interval keeps, with no failure.
pub remaining : Instant → Instant → List Interval → List Interval
remaining cursor end [] = cons_if (ltb cursor end) cursor end []
remaining cursor end (blocker ∷ rest) =
    let next = max_instant cursor blocker.end in
    let later = remaining next end rest in
    let after = (if leb end next then cons_if (ltb next end) next end [] else later) in
    if ltb blocker.start end
    then cons_if (ltb cursor blocker.start) cursor (min_instant blocker.start end) after
    else cons_if (ltb cursor end) cursor end []

min_instant-start : (a b : Instant) → ltb a b ≡ true → min_instant a b ≡ a
unfolding min_instant
min_instant-start a b h = ground arith

pub scan_blockers-eq-ok :
    (cursor end : Instant) (rs : List Interval)
    → scan_blockers cursor end rs ≡ ok (remaining cursor end rs)
unfolding scan_blockers remaining
scan_blockers-eq-ok cursor end [] =
    push_if-eq-ok cursor end (ltb cursor end) [] (ltb→lt cursor end) refl
scan_blockers-eq-ok cursor end (b ∷ rs) = elim (Bool-cases (ltb b.start end)) [
  | inl meets ↦
      rw (meets, min_instant-start b.start end meets)
        (push_if-eq-ok cursor b.start (ltb cursor b.start) _ (ltb→lt cursor b.start)
          (elim (Bool-cases (leb end (max_instant cursor b.end))) [
            | inl over ↦ rw over (push_if-eq-ok _ end _ [] (ltb→lt _ end) refl)
            | inr more ↦ rw more (scan_blockers-eq-ok (max_instant cursor b.end) end rs)
          ]))
  | inr beyond ↦ rw beyond (push_if-eq-ok cursor end (ltb cursor end) [] (ltb→lt cursor end) refl)
]

after_blocker-IsCanonicalFrom :
    (lo next end : Instant) (rs : List Interval)
    → lo ≤ next
    → IsCanonicalFrom lo (remaining next end rs)
    → IsCanonicalFrom lo
        (if leb end next then cons_if (ltb next end) next end [] else remaining next end rs)
after_blocker-IsCanonicalFrom lo next end rs lt h = elim (Bool-cases (leb end next)) [
  | inl over ↦ rw over (cons_if-IsCanonicalFrom lo next end [] lt (λ _. tt) tt)
  | inr more ↦ rw more h
]

max_instant_bounds : (a b : Instant) → (a ≤ max_instant a b) × (b ≤ max_instant a b)
unfolding max_instant
max_instant_bounds a b = ground arith

pub remaining-IsCanonicalFrom :
    (lo cursor end : Instant) (rs : List Interval)
    → lo ≤ cursor
    → IsCanonical rs
    → IsCanonicalFrom lo (remaining cursor end rs)
unfolding remaining
remaining-IsCanonicalFrom lo cursor end [] lt h =
    cons_if-IsCanonicalFrom lo cursor end [] lt (λ _. tt) tt
remaining-IsCanonicalFrom lo cursor end (b ∷ rs) lt (p, h) =
    let next = max_instant cursor b.end in
    let c = IsCanonicalAfter-IsCanonical b.end rs h in
    let bounds = max_instant_bounds cursor b.end in
    elim (Bool-cases (ltb b.start end)) [
      | inl meets ↦
          rw (meets, min_instant-start b.start end meets)
            (cons_if-IsCanonicalFrom lo cursor b.start _ lt
              (λ _.
                after_blocker-IsCanonicalFrom (suc b.start) next end rs (omega arith)
                  (remaining-IsCanonicalFrom (suc b.start) next end rs (omega arith) c))
              (after_blocker-IsCanonicalFrom lo next end rs (omega arith)
                (remaining-IsCanonicalFrom lo next end rs (omega arith) c)))
      | inr beyond ↦ rw beyond (cons_if-IsCanonicalFrom lo cursor end [] lt (λ _. tt) tt)
    ]

abbrev span : Instant → Instant → Interval
span s e = record { start = s; end = e }

-- Before and after a blocker that begins before the end.
covers_around :
    (cursor end : Instant) (b : Interval) (t : Instant) (later : Bool)
    → b.start < b.end
    → b.start < end
    → (t ≤ b.end → later ≡ false)
    → (interval_contains (span cursor b.start) t
        || (interval_contains (span (max_instant cursor b.end) end) t && not later))
      ≡ (interval_contains (span cursor end) t && not (interval_contains b t || later))
unfolding interval_contains max_instant
covers_around cursor end b t later p lt h = ground arith

-- A blocker that begins at or after the end removes nothing.
covers_beyond :
    (cursor end : Instant) (b : Interval) (t : Instant) (later : Bool)
    → b.start < b.end
    → end ≤ b.start
    → (t ≤ b.end → later ≡ false)
    → interval_contains (span cursor end) t
      ≡ (interval_contains (span cursor end) t && not (interval_contains b t || later))
unfolding interval_contains
covers_beyond cursor end b t later p le h = ground arith

or_false : (b : Bool) → (b || false) ≡ b
or_false true = refl
or_false false = refl

covers-after_blocker :
    (next end : Instant) (rs : List Interval) (t : Instant)
    → covers (remaining next end rs) t ≡ (interval_contains (span next end) t && not (covers rs t))
    → covers (if leb end next then cons_if (ltb next end) next end [] else remaining next end rs) t
      ≡ (interval_contains (span next end) t && not (covers rs t))
unfolding interval_contains
covers-after_blocker next end rs t h = elim (Bool-cases (leb end next)) [
  | inl over ↦ rw over (covers-cons_if next end [] t ∙ ground arith)
  | inr more ↦ rw more h
]

pub covers-remaining :
    (cursor end : Instant) (rs : List Interval) (t : Instant)
    → IsCanonical rs
    → covers (remaining cursor end rs) t
      ≡ (interval_contains (span cursor end) t && not (covers rs t))
unfolding remaining
covers-remaining cursor end [] t h = covers-cons_if cursor end [] t ∙ ground arith
covers-remaining cursor end (b ∷ rs) t (p, h) =
    let next = max_instant cursor b.end in
    let none_before : (t ≤ b.end → covers rs t ≡ false) = λ le. covers_up_to b.end t rs le h in
    elim (Bool-cases (ltb b.start end)) [
      | inl meets ↦
          rw (meets, min_instant-start b.start end meets)
            (covers-cons_if cursor b.start _ t
              ∙ ap (λ c. interval_contains (span cursor b.start) t || c)
                  (covers-after_blocker next end rs t
                    (covers-remaining next end rs t (IsCanonicalAfter-IsCanonical b.end rs h)))
              ∙ covers_around cursor end b t (covers rs t) p (ltb→lt _ _ meets) none_before)
      | inr beyond ↦ rw beyond (
          covers-cons_if cursor end [] t
          ∙ or_false (interval_contains (span cursor end) t)
          ∙ covers_beyond cursor end b t (covers rs t) p (ground arith) none_before)
    ]

abbrev pub EndsBy : Instant → List Interval → Type 0
EndsBy e = All (λ p. p.end ≤ e)

EndsBy-cons_if :
    (s e bound : Instant) (b : Bool) (xs : List Interval)
    → e ≤ bound
    → EndsBy bound xs
    → EndsBy bound (cons_if b s e xs)
EndsBy-cons_if s e bound true xs le h = (le, h)
EndsBy-cons_if s e bound false xs le h = h

after_blocker-EndsBy :
    (next end : Instant) (rs : List Interval)
    → EndsBy end (remaining next end rs)
    → EndsBy end
        (if leb end next then cons_if (ltb next end) next end [] else remaining next end rs)
after_blocker-EndsBy next end rs h = elim (Bool-cases (leb end next)) [
  | inl over ↦ rw over (EndsBy-cons_if next end end (ltb next end) [] (omega arith) tt)
  | inr more ↦ rw more h
]

pub remaining-EndsBy :
    (cursor end : Instant) (rs : List Interval) → EndsBy end (remaining cursor end rs)
unfolding remaining
remaining-EndsBy cursor end [] = EndsBy-cons_if cursor end end (ltb cursor end) [] (omega arith) tt
remaining-EndsBy cursor end (b ∷ rs) =
    let next = max_instant cursor b.end in
    elim (Bool-cases (ltb b.start end)) [
      | inl meets ↦
          rw (meets, min_instant-start b.start end meets)
            (EndsBy-cons_if cursor b.start end (ltb cursor b.start)
              (if leb end next then cons_if (ltb next end) next end [] else remaining next end rs)
              (ground arith) (after_blocker-EndsBy next end rs (remaining-EndsBy next end rs)))
      | inr beyond ↦ rw beyond (EndsBy-cons_if cursor end end (ltb cursor end) [] (omega arith) tt)
    ]
