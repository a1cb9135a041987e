-- ===== src/Scheduling/IntervalSet/Algebra.antt =====
-- The operations of interval-set.ts as operations on sets of instants. Their inputs are lists of
-- proper spans, which is what `createInterval` makes, in any order and with any overlaps.
use slotnova.Base.{◌≡◌, ◌↔◌, refl, sym, ap, ◌∙◌, Bool, not, ◌&&◌, ◌||◌, List, [], ◌∷◌, ◌++◌, arith}
use mathlib.Core.Path.{ap₂}
use slotnova.Base.Lists.{All, All-append}
use slotnova.Base.Outcome.{ok, err}
use slotnova.Scheduling.Interval.{Instant, Interval}
use slotnova.Scheduling.IntervalSet.{
  Outcome, normalize_intervals, union_intervals, intersect_intervals, subtract_intervals,
  subtract_from, subtract_normal,
}
use slotnova.Scheduling.IntervalSet.Sets.{
  IsProper, covers, covers-append, IsSameSet, IsCanonical, IsCanonical-IsProper,
}
use slotnova.Scheduling.IntervalSet.Normal.{
  canonical, normalize_intervals-eq-ok, canonical-IsCanonical, covers-canonical,
}
use slotnova.Scheduling.IntervalSet.Common.{intersect_sets-eq-ok, common-IsCanonical, covers-common}
use slotnova.Scheduling.IntervalSet.Difference.{
  subtract_sets-eq-ok, difference-IsCanonical, covers-difference,
}
use slotnova.Scheduling.IntervalSet.Unique.{IsCanonical-unique}

-- The call returns the canonical list of a set of instants.
abbrev pub Yields : (Instant → Bool) → Outcome → Type 0
Yields p (ok xs) = IsCanonical xs × ((t : Instant) → covers xs t ≡ p t)
Yields p (err e) = ⊥

-- On proper spans `normalizeIntervals` returns a canonical list of the same instants.
pub normalize_intervals-Yields :
    (xs : List Interval) → All IsProper xs → Yields (covers xs) (normalize_intervals xs)
normalize_intervals-Yields xs h =
    rw (normalize_intervals-eq-ok xs h) (canonical-IsCanonical xs h, λ t. covers-canonical xs t h)

-- What a call yields is determined by the set.
pub Yields-unique : (p : Instant → Bool) (a b : Outcome) → Yields p a → Yields p b → a ≡ b
Yields-unique p (ok xs) (ok ys) (h, f) (k, g) =
    ap ok (IsCanonical-unique xs ys h k (λ t. f t ∙ sym (g t)))
Yields-unique p (ok xs) (err e) h k = absurd k
Yields-unique p (err e) b h k = absurd h

Yields-of :
    (p q : Instant → Bool) (a : Outcome) → ((t : Instant) → p t ≡ q t) → Yields p a → Yields q a
Yields-of p q (ok xs) e (h, f) = (h, λ t. f t ∙ e t)
Yields-of p q (err _) e h = h

ok_injective : {xs ys : List Interval} → ◌≡◌ {A = Outcome} (ok xs) (ok ys) → xs ≡ ys
ok_injective e = cc

-- Two lists of proper spans are normalised alike exactly when they cover the same instants.
pub normalize_intervals-eq_iff :
    (xs ys : List Interval)
    → All IsProper xs
    → All IsProper ys
    → (normalize_intervals xs ≡ normalize_intervals ys) ↔ IsSameSet xs ys
normalize_intervals-eq_iff xs ys h k = (
  λ e t.
      sym (covers-canonical xs t h)
      ∙ ap (λ c. covers c t)
          (ok_injective (sym (normalize_intervals-eq-ok xs h) ∙ e ∙ normalize_intervals-eq-ok ys k))
      ∙ covers-canonical ys t k,
  λ same.
      Yields-unique (covers xs) (normalize_intervals xs) (normalize_intervals ys)
        (normalize_intervals-Yields xs h)
        (rw (normalize_intervals-eq-ok ys k)
          (canonical-IsCanonical ys k, λ t. covers-canonical ys t k ∙ sym (same t))),
)

-- A canonical list is left alone.
pub normalize_intervals_canonical :
    (xs : List Interval) → IsCanonical xs → normalize_intervals xs ≡ ok xs
normalize_intervals_canonical xs h =
    Yields-unique (covers xs) (normalize_intervals xs) (ok xs)
      (normalize_intervals-Yields xs (IsCanonical-IsProper xs h)) (h, λ t. refl)

-- `unionIntervals` returns the canonical list of the instants that either list covers.
pub union_intervals-Yields :
    (xs ys : List Interval)
    → All IsProper xs
    → All IsProper ys
    → Yields (λ t. covers xs t || covers ys t) (union_intervals xs ys)
unfolding union_intervals
union_intervals-Yields xs ys h k =
    let both = All-append IsProper xs ys h k in
    rw (normalize_intervals-eq-ok (xs ++ ys) both) (
      canonical-IsCanonical (xs ++ ys) both,
      λ t. covers-canonical (xs ++ ys) t both ∙ covers-append xs ys t,
    )

-- `intersectIntervals` returns the canonical list of the instants that both lists cover.
pub intersect_intervals-Yields :
    (xs ys : List Interval)
    → All IsProper xs
    → All IsProper ys
    → Yields (λ t. covers xs t && covers ys t) (intersect_intervals xs ys)
unfolding intersect_intervals
intersect_intervals-Yields xs ys h k =
    let cx = canonical-IsCanonical xs h in
    let cy = canonical-IsCanonical ys k in
    rw
      (
        normalize_intervals-eq-ok xs h,
        normalize_intervals-eq-ok ys k,
        intersect_sets-eq-ok (canonical xs) (canonical ys),
      )
      (
        common-IsCanonical (canonical xs) (canonical ys) cx cy,
        λ t.
            covers-common (canonical xs) (canonical ys) t cx cy
            ∙ ap₂ (λ a b. a && b) (covers-canonical xs t h) (covers-canonical ys t k),
      )

-- Both early returns of `subtractIntervals` agree with the loop.
subtract_normal-Yields :
    (xs ys : List Interval)
    → IsCanonical xs
    → IsCanonical ys
    → Yields (λ t. covers xs t && not (covers ys t)) (subtract_normal xs ys)
subtract_normal-Yields xs [] h k = (h, λ t. ground arith)
subtract_normal-Yields xs (y ∷ ys) h k =
    rw (subtract_sets-eq-ok xs (y ∷ ys))
      (difference-IsCanonical xs (y ∷ ys) h k, λ t. covers-difference xs (y ∷ ys) t h k)

subtract_from-Yields :
    (xs ys : List Interval)
    → IsCanonical xs
    → All IsProper ys
    → Yields (λ t. covers xs t && not (covers ys t)) (subtract_from xs ys)
subtract_from-Yields [] ys h k = (tt, λ t. refl)
subtract_from-Yields (x ∷ xs) ys h k = rw (normalize_intervals-eq-ok ys k) (
    Yields-of (λ t. covers (x ∷ xs) t && not (covers (canonical ys) t))
      (λ t. covers (x ∷ xs) t && not (covers ys t)) (subtract_normal (x ∷ xs) (canonical ys))
      (λ t. ap (λ c. covers (x ∷ xs) t && not c) (covers-canonical ys t k))
      (subtract_normal-Yields (x ∷ xs) (canonical ys) h (canonical-IsCanonical ys k)))

-- `subtractIntervals` returns the canonical list of the instants that the first list covers and
-- the second does not.
pub subtract_intervals-Yields :
    (xs ys : List Interval)
    → All IsProper xs
    → All IsProper ys
    → Yields (λ t. covers xs t && not (covers ys t)) (subtract_intervals xs ys)
unfolding subtract_intervals
subtract_intervals-Yields xs ys h k = rw (normalize_intervals-eq-ok xs h) (
    Yields-of (λ t. covers (canonical xs) t && not (covers ys t))
      (λ t. covers xs t && not (covers ys t)) (subtract_from (canonical xs) ys)
      (λ t. ap (λ c. c && not (covers ys t)) (covers-canonical xs t h))
      (subtract_from-Yields (canonical xs) ys (canonical-IsCanonical xs h) k))
