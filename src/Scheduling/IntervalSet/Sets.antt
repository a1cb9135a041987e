-- ===== src/Scheduling/IntervalSet/Sets.antt =====
-- The sets of instants that interval lists stand for, and the canonical lists.
use slotnova.Base.{suc, ◌≤◌, ◌<◌, ◌≡◌, refl, Bool, false, ◌||◌, List, [], ◌∷◌, ◌++◌, arith}
use slotnova.Base.Lists.{All}
use slotnova.Scheduling.Interval.{Instant, Interval, interval_contains}

abbrev pub IsProper : Interval → Type 0
IsProper i = i.start < i.end

-- Membership of an instant in the union of the listed spans.
abbrev pub covers : List Interval → Instant → Bool
covers [] t = false
covers (x ∷ xs) t = interval_contains x t || covers xs t

-- Every span is proper, and begins strictly after the end of the one before it; the first begins
-- at the bound or later.
abbrev pub IsCanonicalFrom : Instant → List Interval → Type 0
IsCanonicalFrom bound [] = Unit
IsCanonicalFrom bound (x ∷ xs) =
    (bound ≤ x.start) × (x.start < x.end) × IsCanonicalFrom (suc x.end) xs

abbrev pub IsCanonicalAfter : Instant → List Interval → Type 0
IsCanonicalAfter bound = IsCanonicalFrom (suc bound)

abbrev pub IsCanonical : List Interval → Type 0
IsCanonical [] = Unit
IsCanonical (x ∷ xs) = (x.start < x.end) × IsCanonicalAfter x.end xs

IsCanonicalFrom-IsProper :
    (b : Instant) (xs : List Interval) → IsCanonicalFrom b xs → All IsProper xs
IsCanonicalFrom-IsProper b [] h = tt
IsCanonicalFrom-IsProper b (x ∷ xs) (p, q, h) = (q, IsCanonicalFrom-IsProper (suc x.end) xs h)

pub IsCanonical-IsProper : (xs : List Interval) → IsCanonical xs → All IsProper xs
IsCanonical-IsProper [] h = tt
IsCanonical-IsProper (x ∷ xs) (q, h) = (q, IsCanonicalFrom-IsProper (suc x.end) xs h)

pub IsCanonicalFrom-IsCanonical :
    (b : Instant) (xs : List Interval) → IsCanonicalFrom b xs → IsCanonical xs
IsCanonicalFrom-IsCanonical b [] h = tt
IsCanonicalFrom-IsCanonical b (x ∷ xs) (p, q, h) = (q, h)

pub IsCanonical-IsCanonicalFrom : (xs : List Interval) → IsCanonical xs → IsCanonicalFrom 0 xs
IsCanonical-IsCanonicalFrom [] h = tt
IsCanonical-IsCanonicalFrom (x ∷ xs) (q, h) = (omega arith, q, h)

pub IsCanonicalAfter-IsCanonical :
    (b : Instant) (xs : List Interval) → IsCanonicalAfter b xs → IsCanonical xs
IsCanonicalAfter-IsCanonical b xs h = IsCanonicalFrom-IsCanonical (suc b) xs h

pub IsCanonicalFrom-weaken :
    (b c : Instant) (xs : List Interval) → b ≤ c → IsCanonicalFrom c xs → IsCanonicalFrom b xs
IsCanonicalFrom-weaken b c [] le h = tt
IsCanonicalFrom-weaken b c (x ∷ xs) le (p, q, h) = (omega arith, q, h)

-- Nothing is covered up to the bound.
pub covers_up_to :
    (b t : Instant) (xs : List Interval) → t ≤ b → IsCanonicalAfter b xs → covers xs t ≡ false
unfolding interval_contains
covers_up_to b t [] le h = refl
covers_up_to b t (x ∷ xs) le (p, q, h) = ground (arith, covers_up_to x.end t xs (omega arith) h)

pub covers-append :
    (xs ys : List Interval) (t : Instant) → covers (xs ++ ys) t ≡ (covers xs t || covers ys t)
covers-append [] ys t = refl
covers-append (x ∷ xs) ys t = ground (arith, covers-append xs ys t)

abbrev pub IsSameSet : List Interval → List Interval → Type 0
IsSameSet xs ys = (t : Instant) → covers xs t ≡ covers ys t
