-- ===== src/Scheduling/IntervalSet/Common.antt =====
-- The loop of `intersectIntervals` on canonical lists: it returns, its result is canonical and
-- covers the instants that both lists cover.
use slotnova.Base.{
  suc, ◌≤◌, ◌<◌, ◌≡◌, refl, ◌⊎◌, inl, inr, Bool, true, false, ◌&&◌, ◌||◌, List, [], ◌∷◌, ltb, leb,
  if◌then◌else◌, Bool-cases, ltb→lt, arith,
}
use slotnova.Base.Outcome.{ok}
use slotnova.Scheduling.Interval.{Instant, Interval, interval_contains}
use slotnova.Scheduling.IntervalSet.{intersect_sets, push_if, Outcome, max_instant, min_instant}
use slotnova.Scheduling.IntervalSet.Normal.{create_interval-proper}
use slotnova.Scheduling.IntervalSet.Sets.{
  covers, IsCanonical, IsCanonicalAfter, IsCanonicalFrom, IsCanonical-IsCanonicalFrom,
  IsCanonicalFrom-IsCanonical, IsCanonicalFrom-weaken, IsCanonicalAfter-IsCanonical, covers_up_to,
}

-- A push that cannot fail, under its test.
abbrev pub cons_if : Bool → Instant → Instant → List Interval → List Interval
cons_if true s e later = (record { start = s; end = e }) ∷ later
cons_if false s e later = later

pub push_if-eq-ok :
    (s e : Instant) (b : Bool) {out : Outcome} (later : List Interval)
    → (b ≡ true → s < e)
    → out ≡ ok later
    → push_if b s e out ≡ ok (cons_if b s e later)
push_if-eq-ok s e true later p h = rw (create_interval-proper s e (p refl), h)
push_if-eq-ok s e false later p h = h

pub covers-cons_if :
    (s e : Instant) (later : List Interval) (t : Instant)
    → covers (cons_if (ltb s e) s e later) t
      ≡ (interval_contains (record { start = s; end = e }) t || covers later t)
unfolding interval_contains
covers-cons_if s e later t = ground arith

pub cons_if-IsCanonicalFrom :
    (lo s e : Instant) (later : List Interval)
    → lo ≤ s
    → (s < e → IsCanonicalAfter e later)
    → IsCanonicalFrom lo later
    → IsCanonicalFrom lo (cons_if (ltb s e) s e later)
cons_if-IsCanonicalFrom lo s e later lt h k = elim (Bool-cases (ltb s e)) [
  | inl proper ↦ rw proper (lt, ltb→lt s e proper, h (ltb→lt s e proper))
  | inr empty ↦ rw empty k
]

-- What the loop pushes, with no failure.
pub common : List Interval → List Interval → List Interval
common [] ys = []
common (a ∷ xs) [] = []
common (a ∷ xs) (b ∷ ys) =
    let s = max_instant a.start b.start in
    let e = min_instant a.end b.end in
    let left_advanced = common xs (b ∷ ys) in
    let right_advanced = common (a ∷ xs) ys in
    cons_if (ltb s e) s e (if leb a.end b.end then left_advanced else right_advanced)

pub intersect_sets-eq-ok : (xs ys : List Interval) → intersect_sets xs ys ≡ ok (common xs ys)
unfolding intersect_sets common
intersect_sets-eq-ok [] ys = refl
intersect_sets-eq-ok (a ∷ xs) [] = refl
intersect_sets-eq-ok (a ∷ xs) (b ∷ ys) =
    push_if-eq-ok (max_instant a.start b.start) (min_instant a.end b.end) _ _ (ltb→lt _ _)
      (elim (Bool-cases (leb a.end b.end)) [
        | inl left ↦ rw left (intersect_sets-eq-ok xs (b ∷ ys))
        | inr right ↦ rw right (intersect_sets-eq-ok (a ∷ xs) ys)
      ])

bound_of :
    (lo : Instant) (a b : Interval) (xs ys : List Interval)
    → IsCanonicalFrom lo (a ∷ xs) ⊎ IsCanonicalFrom lo (b ∷ ys)
    → lo ≤ max_instant a.start b.start
unfolding max_instant
bound_of lo a b xs ys (inl h) = let f = h.0 in ground arith
bound_of lo a b xs ys (inr h) = let f = h.0 in ground arith

-- After the left list advances, one of the two lists still begins after the bound.
left_bound :
    (lo : Instant) (a b : Interval) (xs ys : List Interval)
    → a.start < a.end
    → IsCanonicalAfter a.end xs
    → IsCanonicalFrom lo (a ∷ xs) ⊎ IsCanonicalFrom lo (b ∷ ys)
    → IsCanonicalFrom lo xs ⊎ IsCanonicalFrom lo (b ∷ ys)
left_bound lo a b xs ys p h (inl k) =
    inl (IsCanonicalFrom-weaken lo (suc a.end) xs (let f = k.0 in omega arith) h)
left_bound lo a b xs ys p h (inr k) = inr k

right_bound :
    (lo : Instant) (a b : Interval) (xs ys : List Interval)
    → b.start < b.end
    → IsCanonicalAfter b.end ys
    → IsCanonicalFrom lo (a ∷ xs) ⊎ IsCanonicalFrom lo (b ∷ ys)
    → IsCanonicalFrom lo (a ∷ xs) ⊎ IsCanonicalFrom lo ys
right_bound lo a b xs ys p h (inl k) = inl k
right_bound lo a b xs ys p h (inr k) =
    inr (IsCanonicalFrom-weaken lo (suc b.end) ys (let f = k.0 in omega arith) h)

min_instant_left : (a b : Instant) → leb a b ≡ true → min_instant a b ≡ a
unfolding min_instant
min_instant_left a b h = ground arith

min_instant_right : (a b : Instant) → leb a b ≡ false → min_instant a b ≡ b
unfolding min_instant
min_instant_right a b h = ground arith

pub common-IsCanonicalFrom :
    (lo : Instant) (xs ys : List Interval)
    → IsCanonical xs
    → IsCanonical ys
    → IsCanonicalFrom lo xs ⊎ IsCanonicalFrom lo ys
    → IsCanonicalFrom lo (common xs ys)
unfolding common
common-IsCanonicalFrom lo [] ys p q h = tt
common-IsCanonicalFrom lo (a ∷ xs) [] p q h = tt
common-IsCanonicalFrom lo (a ∷ xs) (b ∷ ys) (p, hx) (q, hy) h =
    let cx = IsCanonicalAfter-IsCanonical a.end xs hx in
    let cy = IsCanonicalAfter-IsCanonical b.end ys hy in
    let bound = bound_of lo a b xs ys h in
    elim (Bool-cases (leb a.end b.end)) [
      | inl left ↦
          rw (left, min_instant_left _ _ left)
            (cons_if-IsCanonicalFrom lo (max_instant a.start b.start) a.end (common xs (b ∷ ys))
              bound (λ _. common-IsCanonicalFrom (suc a.end) xs (b ∷ ys) cx (q, hy) (inl hx))
              (common-IsCanonicalFrom lo xs (b ∷ ys) cx (q, hy) (left_bound lo a b xs ys p hx h)))
      | inr right ↦
          rw (right, min_instant_right _ _ right)
            (cons_if-IsCanonicalFrom lo (max_instant a.start b.start) b.end (common (a ∷ xs) ys)
              bound (λ _. common-IsCanonicalFrom (suc b.end) (a ∷ xs) ys (p, hx) cy (inr hy))
              (common-IsCanonicalFrom lo (a ∷ xs) ys (p, hx) cy (right_bound lo a b xs ys q hy h)))
    ]

pub common-IsCanonical :
    (xs ys : List Interval) → IsCanonical xs → IsCanonical ys → IsCanonical (common xs ys)
common-IsCanonical xs ys p q =
    IsCanonicalFrom-IsCanonical 0 (common xs ys)
      (common-IsCanonicalFrom 0 xs ys p q (inl (IsCanonical-IsCanonicalFrom xs p)))

contains_both :
    (a b : Interval) (t : Instant)
    → interval_contains
        (record { start = max_instant a.start b.start; end = min_instant a.end b.end })
        t
      ≡ (interval_contains a t && interval_contains b t)
unfolding interval_contains max_instant min_instant
contains_both a b t = ground arith

-- Where the first span of one list ends no later than that of the other, it meets no further one.
left_step :
    (a b : Interval) (ys : List Interval) (t : Instant)
    → leb a.end b.end ≡ true
    → IsCanonicalAfter b.end ys
    → (interval_contains a t && covers ys t) ≡ false
unfolding interval_contains
left_step a b ys t le h = ground (arith, covers_up_to b.end t ys)

pub covers-common :
    (xs ys : List Interval) (t : Instant)
    → IsCanonical xs
    → IsCanonical ys
    → covers (common xs ys) t ≡ (covers xs t && covers ys t)
unfolding common
covers-common [] ys t p q = refl
covers-common (a ∷ xs) [] t p q = ground arith
covers-common (a ∷ xs) (b ∷ ys) t (p, hx) (q, hy) = elim (Bool-cases (leb a.end b.end)) [
  | inl left ↦ ground (
    arith,
    covers-cons_if (max_instant a.start b.start) (min_instant a.end b.end) (common xs (b ∷ ys)) t,
    contains_both a b t,
    left_step a b ys t left hy,
    covers-common xs (b ∷ ys) t (IsCanonicalAfter-IsCanonical a.end xs hx) (q, hy),
  )
  | inr right ↦ ground (
    arith,
    covers-cons_if (max_instant a.start b.start) (min_instant a.end b.end) (common (a ∷ xs) ys) t,
    contains_both a b t,
    left_step b a xs t (ground arith) hx,
    covers-common (a ∷ xs) ys t (p, hx) (IsCanonicalAfter-IsCanonical b.end ys hy),
  )
]
