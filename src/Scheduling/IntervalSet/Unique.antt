-- ===== src/Scheduling/IntervalSet/Unique.antt =====
-- A canonical list is determined by the instants that it covers.
use slotnova.Base.{
  ◌≤◌, ◌<◌, ◌≡◌, refl, sym, ◌∙◌, inl, inr, true, false, List, [], ◌∷◌, leb, arith, Bool-cases,
  leb→le,
}
use slotnova.Scheduling.Interval.{Instant, Interval, interval_contains}
use slotnova.Scheduling.IntervalSet.Sets.{
  covers, covers_up_to, IsSameSet, IsCanonical, IsCanonicalAfter-IsCanonical,
}

-- A canonical list covers its first start, and nothing before it.
covers_first :
    (x : Interval) (xs : List Interval) → IsCanonical (x ∷ xs) → covers (x ∷ xs) x.start ≡ true
unfolding interval_contains
covers_first x xs (p, h) = ground arith

covers_before :
    (x : Interval) (xs : List Interval) (t : Instant)
    → IsCanonical (x ∷ xs)
    → t < x.start
    → covers (x ∷ xs) t ≡ false
unfolding interval_contains
covers_before x xs t (p, h) lt = ground (arith, covers_up_to x.end t xs (omega arith) h)

-- The first starts agree, since neither list covers an instant before its own.
start-le :
    (x y : Interval) (xs ys : List Interval)
    → IsCanonical (x ∷ xs)
    → IsCanonical (y ∷ ys)
    → IsSameSet (x ∷ xs) (y ∷ ys)
    → y.start ≤ x.start
start-le x y xs ys p q same = elim (Bool-cases (leb y.start x.start)) [
  | inl le ↦ leb→le _ _ le
  | inr gt ↦
      absurd (
        cc (sym (covers_first x xs p) ∙ same x.start ∙ covers_before y ys x.start q (ground arith)))
]

-- At its own end the first span is over, and the next one has not begun.
end-le :
    (x y : Interval) (xs ys : List Interval)
    → IsCanonical (x ∷ xs)
    → IsCanonical (y ∷ ys)
    → x.start ≡ y.start
    → IsSameSet (x ∷ xs) (y ∷ ys)
    → y.end ≤ x.end
unfolding interval_contains
end-le x y xs ys (p, h) (q, k) e same =
    ground (arith, same x.end, covers_up_to x.end x.end xs (omega arith) h)

tail-IsSameSet :
    (x y : Interval) (xs ys : List Interval)
    → IsCanonical (x ∷ xs)
    → IsCanonical (y ∷ ys)
    → x.end ≡ y.end
    → IsSameSet (x ∷ xs) (y ∷ ys)
    → IsSameSet xs ys
unfolding interval_contains
tail-IsSameSet x y xs ys (p, h) (q, k) e same t =
    ground (arith, same t, covers_up_to x.end t xs, covers_up_to y.end t ys)

-- Two canonical lists that cover the same instants are equal.
pub IsCanonical-unique :
    (xs ys : List Interval) → IsCanonical xs → IsCanonical ys → IsSameSet xs ys → xs ≡ ys
IsCanonical-unique [] [] p q same = refl
IsCanonical-unique [] (y ∷ ys) p q same = cc (same y.start ∙ covers_first y ys q)
IsCanonical-unique (x ∷ xs) [] p q same = cc (sym (same x.start) ∙ covers_first x xs p)
IsCanonical-unique (x ∷ xs) (y ∷ ys) p q same =
    let back : IsSameSet (y ∷ ys) (x ∷ xs) = λ t. sym (same t) in
    let starts : x.start ≡ y.start =
      omega (arith, start-le x y xs ys p q same, start-le y x ys xs q p back) in
    let ends : x.end ≡ y.end =
      omega (arith, end-le x y xs ys p q starts same, end-le y x ys xs q p (sym starts) back) in
    let rest =
      IsCanonical-unique xs ys (IsCanonicalAfter-IsCanonical x.end xs p.1)
        (IsCanonicalAfter-IsCanonical y.end ys q.1) (tail-IsSameSet x y xs ys p q ends same) in
    ground arith
