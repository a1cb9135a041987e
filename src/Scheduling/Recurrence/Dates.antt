-- ===== src/Scheduling/Recurrence/Dates.antt =====
-- A test on one of a run of dates.
use slotnova.Base.{
  ℕ, zero, suc, ◌+◌, ◌≤◌, ◌<◌, ◌≡◌, refl, inl, inr, Bool, true, false, ◌||◌, ◌==◌, Bool-cases,
  arith,
}
use slotnova.Scheduling.WallClock.{PlainDate}

-- Some date of the n dates from d on.
abbrev pub any_date : (PlainDate → Bool) → ℕ → PlainDate → Bool
any_date p zero d = false
any_date p (suc n) d = p d || any_date p n (suc d)

pub any_date_found :
    (p : PlainDate → Bool) (n d : ℕ)
    → any_date p n d ≡ true
    → (x : PlainDate) × (d ≤ x) × (x < d + n) × (p x ≡ true)
any_date_found p zero d h = cc (h)
any_date_found p (suc n) d h = elim (Bool-cases (p d)) [
  | inl e ↦ (d, omega arith, omega arith, e)
  | inr e ↦
      let k : any_date p n (suc d) ≡ true = ground arith in
      let (x, a, b, q) = any_date_found p n (suc d) k in (x, omega arith, omega arith, q)
]

pub any_date_finds :
    (p : PlainDate → Bool) (n d x : ℕ) → d ≤ x → x < d + n → p x ≡ true → any_date p n d ≡ true
any_date_finds p zero d x a b h = absurd (omega arith)
any_date_finds p (suc n) d x a b h = elim (Bool-cases (d == x)) [
  | inl e ↦ let same : d ≡ x = ground arith in rw (same, h) refl
  | inr e ↦ let k = any_date_finds p n (suc d) x (ground arith) (omega arith) h in ground arith
]
