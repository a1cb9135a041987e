-- ===== src/Base/Rows.antt =====
-- The rows of a table, as SQL statements find, order, change and count them.
use Prim.Native.Nat.{ℕ, zero, suc, ◌+◌, ◌≤◌}
use mathlib.Core.Path.{subst, ◌≡◌, refl, sym}
use mathlib.Core.Logic.{inl, inr}
use mathlib.Core.Bool.{not, Bool, true, false, ◌&&◌}
use mathlib.Core.Option.{Option, none, some}
use mathlib.Core.List.{List, [], ◌∷◌}
use native.Mathlib.Omega.{arith}
use slotnova.Base.Tests.{if◌then◌else◌, Bool-cases, Option-cases}
use slotnova.Base.Lists.{All, all, any, filter, length}

abbrev pub tally : Bool → ℕ
tally true = 1
tally false = 0

module _ {ℓ} {A : Type ℓ} where
  -- The row that `WHERE` selects, when it selects one at most.
  unfoldable pub find : (A → Bool) → List A → Option A
  find p [] = none
  find p (x ∷ xs) = let rest = find p xs in if p x then some x else rest

  -- `UPDATE ... SET ... WHERE`.
  unfoldable pub update : (A → Bool) → (A → A) → List A → List A
  update p f [] = []
  update p f (x ∷ xs) = (if p x then f x else x) ∷ update p f xs

  -- How many rows `WHERE` selects.
  unfoldable pub count : (A → Bool) → List A → ℕ
  count p [] = 0
  count p (x ∷ xs) = tally (p x) + count p xs

  -- `LIMIT`.
  unfoldable pub take : ℕ → List A → List A
  take zero xs = []
  take (suc n) [] = []
  take (suc n) (x ∷ xs) = x ∷ take n xs

  unfoldable pub insert_by : (A → A → Bool) → A → List A → List A
  insert_by before x [] = x ∷ []
  insert_by before x (y ∷ ys) =
      let rest = insert_by before x ys in if before y x then y ∷ rest else x ∷ y ∷ ys

  -- `ORDER BY`, for the test that a row comes before another.
  unfoldable pub sort_by : (A → A → Bool) → List A → List A
  sort_by before [] = []
  sort_by before (x ∷ xs) = insert_by before x (sort_by before xs)

  pub find-some :
      (p : A → Bool) (xs : List A) {x : A} → find p xs ≡ some x → (p x ≡ true) × (1 ≤ count p xs)
  unfolding find count
  find-some p [] e = cc (e)
  find-some p (y ∷ ys) {x} e = elim (Bool-cases (p y)) [
    | inl f ↦ ground arith
    | inr f ↦ let (holds, some_row) = find-some p ys {x = x} (ground arith) in (holds, ground arith)
  ]

  none-All :
      (p : A → Bool) (x : A) (xs : List A) → count p xs ≤ 0 → All (λ y. p y ≡ true → y ≡ x) xs
  unfolding count
  none-All p x [] h = tt
  none-All p x (y ∷ ys) h = elim (Bool-cases (p y)) [
    | inl f ↦ absurd (ground (arith, f, h))
    | inr f ↦ (λ g. absurd (cc (f, g)), none-All p x ys (ground (arith, f, h)))
  ]

  -- Where one row at most is selected, each row that is selected is the one found.
  pub find-All :
      (p : A → Bool) (xs : List A) {x : A}
      → find p xs ≡ some x
      → count p xs ≤ 1
      → All (λ y. p y ≡ true → y ≡ x) xs
  unfolding find count
  find-All p [] e one = cc (e)
  find-All p (y ∷ ys) {x} e one = elim (Bool-cases (p y)) [
    | inl f ↦
        let same : y ≡ x = ground arith in
        let others : count p ys ≤ 0 = ground (arith, one) in (λ g. same, none-All p x ys others)
    | inr f ↦
        (λ g. absurd (cc (f, g)), find-All p ys {x = x} (ground arith) (ground (arith, f, one)))
  ]

  pub find-update :
      (p q : A → Bool) (g : A → A) (xs : List A)
      → ((x : A) → p x ≡ true → q x ≡ false)
      → ((x : A) → p (g x) ≡ p x)
      → find p (update q g xs) ≡ find p xs
  unfolding find update
  find-update p q g [] other same = refl
  find-update p q g (x ∷ xs) other same = elim (Bool-cases (p x)) [
    | inl e ↦ rw (other x e, e) refl
    | inr e ↦ elim (Bool-cases (q x)) [
      | inl f ↦ rw (f, same x, e) (find-update p q g xs other same)
      | inr f ↦ rw (f, e) (find-update p q g xs other same)
    ]
  ]

  pub find-none : (p : A → Bool) (xs : List A) → find p xs ≡ none → count p xs ≡ 0
  unfolding find count
  find-none p [] e = refl
  find-none p (y ∷ ys) e = elim (Bool-cases (p y)) [
    | inl f ↦ ground arith
    | inr f ↦ let rest = find-none p ys (ground arith) in rw (f, rest) (omega arith)
  ]

  pub any-false : (p : A → Bool) (xs : List A) → any p xs ≡ false → count p xs ≡ 0
  unfolding count
  any-false p [] e = refl
  any-false p (x ∷ xs) e =
      let rest = any-false p xs (ground arith) in
      let here : p x ≡ false = ground arith in rw (here, rest) (omega arith)

  pub any-weaken :
      (p q : A → Bool) (xs : List A)
      → ((x : A) → p x ≡ false → q x ≡ false)
      → any p xs ≡ false
      → any q xs ≡ false
  any-weaken p q [] h e = refl
  any-weaken p q (x ∷ xs) h e =
      let here : p x ≡ false = ground (arith, e) in
      let rest : any p xs ≡ false = ground (arith, e) in rw (h x here) (any-weaken p q xs h rest)

  pub any-count : (p : A → Bool) (xs : List A) → any p xs ≡ true → 1 ≤ count p xs
  unfolding count
  any-count p [] e = cc (e)
  any-count p (x ∷ xs) e = elim (Bool-cases (p x)) [
    | inl f ↦ rw f (omega arith)
    | inr f ↦ rw f (omega (arith, any-count p xs (ground (arith, e, f))))
  ]

  pub count-any : (p : A → Bool) (xs : List A) → 1 ≤ count p xs → any p xs ≡ true
  unfolding count
  count-any p [] h = absurd (omega arith)
  count-any p (x ∷ xs) h = elim (Bool-cases (p x)) [
    | inl f ↦ rw f refl
    | inr f ↦ rw f (count-any p xs (ground (arith, f, h)))
  ]

  pub any-take : (p : A → Bool) (n : ℕ) (xs : List A) → any p (take n xs) ≡ true → any p xs ≡ true
  unfolding take
  any-take p zero xs e = cc (e)
  any-take p (suc n) [] e = cc (e)
  any-take p (suc n) (x ∷ xs) e = elim (Bool-cases (p x)) [
    | inl f ↦ rw f refl
    | inr f ↦ rw f (any-take p n xs (ground (arith, e, f)))
  ]

  pub filter-All : (p : A → Bool) (xs : List A) → All (λ x. p x ≡ true) (filter p xs)
  filter-All p [] = tt
  filter-All p (x ∷ xs) =
      elim (p x)
          as (λ b.
            p x ≡ b
            → All (λ y. p y ≡ true) (elim b [ true ↦ x ∷ filter p xs | false ↦ filter p xs ])) [
              | true ↦ λ e. (e, filter-All p xs)
              | false ↦ λ e. filter-All p xs
            ]
        refl

  pub find-all : (p : A → Bool) (xs : List A) → find (λ x. not (p x)) xs ≡ none → all p xs ≡ true
  unfolding find
  find-all p [] e = refl
  find-all p (x ∷ xs) e = elim (Bool-cases (p x)) [
    | inl f ↦ rw f (find-all p xs (ground (arith, f, e)))
    | inr f ↦ absurd (ground (arith, f, e))
  ]

  pub count-length : (p : A → Bool) (xs : List A) → count p xs ≤ length xs
  unfolding count
  count-length p [] = omega arith
  count-length p (x ∷ xs) = ground (arith, count-length p xs)

  pub count-le :
      (p q : A → Bool) (xs : List A)
      → ((x : A) → tally (p x) ≤ tally (q x))
      → count p xs ≤ count q xs
  unfolding count
  count-le p q [] h = omega arith
  count-le p q (x ∷ xs) h = omega (arith, h x, count-le p q xs h)

  -- Rows of two disjoint kinds.
  pub count-sum :
      (p q r : A → Bool) (xs : List A)
      → ((x : A) → tally (p x) ≡ tally (q x) + tally (r x))
      → count p xs ≡ count q xs + count r xs
  unfolding count
  count-sum p q r [] h = omega arith
  count-sum p q r (x ∷ xs) h = omega (arith, h x, count-sum p q r xs h)

  pub count-add-le :
      (p q r : A → Bool) (xs : List A)
      → ((x : A) → tally (p x) + tally (q x) ≤ tally (r x))
      → count p xs + count q xs ≤ count r xs
  unfolding count
  count-add-le p q r [] h = omega arith
  count-add-le p q r (x ∷ xs) h = omega (arith, h x, count-add-le p q r xs h)

  pub count-update :
      (p : A → Bool) (f : A → A) (q r : A → Bool) (xs : List A)
      → ((x : A) → q (if p x then f x else x) ≡ r x)
      → count q (update p f xs) ≡ count r xs
  unfolding count update
  count-update p f q r [] h = refl
  count-update p f q r (x ∷ xs) h = rw (h x, count-update p f q r xs h) refl

  pub count-update-le :
      (p : A → Bool) (f : A → A) (q : A → Bool) (xs : List A)
      → ((x : A) → tally (q (if p x then f x else x)) ≤ tally (q x))
      → count q (update p f xs) ≤ count q xs
  count-update-le p f q xs h =
      rw (count-update p f q (λ x. q (if p x then f x else x)) xs (λ x. refl))
        (count-le (λ x. q (if p x then f x else x)) q xs h)

  -- An update whose rows are of the kind no more.
  pub count-update-gone :
      (p : A → Bool) (f : A → A) (q r : A → Bool) (xs : List A)
      → ((x : A) → q (f x) ≡ false)
      → ((x : A) → p x ≡ false → tally (q x) ≤ tally (r x))
      → count q (update p f xs) ≤ count r xs
  count-update-gone p f q r xs gone kept =
      rw (count-update p f q (λ x. q (if p x then f x else x)) xs (λ x. refl)) (
        count-le (λ x. q (if p x then f x else x)) r xs
          (λ x. elim (Bool-cases (p x)) [
            | inl e ↦ rw (e, gone x) (omega arith)
            | inr e ↦ rw e (kept x e)
          ]))

  pub count-none : (p : A → Bool) (xs : List A) → ((x : A) → p x ≡ false) → count p xs ≡ 0
  unfolding count
  count-none p [] h = refl
  count-none p (x ∷ xs) h = rw (h x, count-none p xs h) (omega arith)

  pub count-zero : (p : A → Bool) (xs : List A) → count p xs ≡ 0 → find p xs ≡ none
  count-zero p xs e = elim (Option-cases (find p xs)) [
    | inl f ↦ f
    | inr (x, f) ↦ let (holds, some_row) = find-some p xs {x = x} f in absurd (omega arith)
  ]

  pub find-count :
      (p q : A → Bool) (xs : List A) {x : A}
      → find p xs ≡ some x
      → q x ≡ true
      → 1 ≤ count (λ y. p y && q y) xs
  unfolding find count
  find-count p q [] e holds = cc (e)
  find-count p q (y ∷ ys) {x} e holds = elim (Bool-cases (p y)) [
    | inl f ↦
        let same : x ≡ y = ground arith in
        let here = subst (λ z. q z ≡ true) same holds in rw (f, here) (omega arith)
    | inr f ↦ rw f (omega (arith, find-count p q ys {x = x} (ground arith) holds))
  ]

  -- The one row that is selected decides how many of the selected rows are of a kind.
  pub count-find :
      (p q : A → Bool) (xs : List A) {x : A}
      → find p xs ≡ some x
      → count p xs ≤ 1
      → count (λ y. p y && q y) xs ≡ tally (q x)
  unfolding find count
  count-find p q [] e one = cc (e)
  count-find p q (y ∷ ys) {x} e one = elim (Bool-cases (p y)) [
    | inl f ↦
        let same : y ≡ x = ground arith in
        let few = count-le (λ z. p z && q z) p ys (λ z. ground arith) in
        let others : count p ys ≤ 0 = ground (arith, one) in
        let none_left : count (λ z. p z && q z) ys ≡ 0 = omega arith in
        rw (sym same, f, none_left) (omega arith)
    | inr f ↦
        let rest = count-find p q ys {x = x} (ground arith) (ground arith) in
        rw (f, rest) (omega arith)
  ]

  -- A row that is found, and is the one row that a test selects.
  pub count-found :
      (t p q : A → Bool) (xs : List A) {x : A}
      → find t xs ≡ some x
      → p x ≡ true
      → count p xs ≤ 1
      → count (λ y. p y && q y) xs ≡ tally (q x)
  unfolding find count
  count-found t p q [] e holds one = cc (e)
  count-found t p q (y ∷ ys) {x} e holds one = elim (Bool-cases (t y)) [
    | inl f ↦
        let same : x ≡ y = ground arith in
        let here = subst (λ z. p z ≡ true) same holds in
        let few = count-le (λ z. p z && q z) p ys (λ z. ground arith) in
        let others : count p ys ≤ 0 = ground (arith, one, here) in
        let none_left : count (λ z. p z && q z) ys ≡ 0 = omega arith in
        rw (same, here, none_left) (omega arith)
    | inr f ↦
        let rest : find t ys ≡ some x = ground arith in
        let there = find-count t p ys {x = x} rest holds in
        let least = count-le (λ z. t z && p z) p ys (λ z. ground arith) in
        elim (Bool-cases (p y)) [
          | inl g ↦ absurd (ground (arith, one, g, there, least))
          | inr g ↦
              rw g (omega (arith, count-found t p q ys {x = x} rest holds (ground (arith, one, g))))
        ]
  ]

  -- `DELETE`, seen from the rows that stay.
  pub count-filter :
      (keep q : A → Bool) (xs : List A) → count q (filter keep xs) ≡ count (λ x. q x && keep x) xs
  unfolding count
  count-filter keep q [] = refl
  count-filter keep q (x ∷ xs) =
      let rest = count-filter keep q xs in
      elim (Bool-cases (keep x)) [ inl e ↦ ground (arith, rest) | inr e ↦ ground (arith, rest) ]

module _ {ℓ κ} {A : Type ℓ} (P : A → Type κ) where
  pub All-take : (n : ℕ) (xs : List A) → All P xs → All P (take n xs)
  unfolding take
  All-take zero xs h = tt
  All-take (suc n) [] h = tt
  All-take (suc n) (x ∷ xs) (p, h) = (p, All-take n xs h)

  pub All-insert_by :
      (before : A → A → Bool) (x : A) (xs : List A) → P x → All P xs → All P (insert_by before x xs)
  unfolding insert_by
  All-insert_by before x [] p h = (p, tt)
  All-insert_by before x (y ∷ ys) p (q, h) = elim (Bool-cases (before y x)) [
    | inl e ↦ rw e (q, All-insert_by before x ys p h)
    | inr e ↦ rw e (p, (q, h))
  ]

  pub All-sort_by : (before : A → A → Bool) (xs : List A) → All P xs → All P (sort_by before xs)
  unfolding sort_by
  All-sort_by before [] h = tt
  All-sort_by before (x ∷ xs) (p, h) =
      All-insert_by before x (sort_by before xs) p (All-sort_by before xs h)

  pub All-find :
      (p : A → Bool) (xs : List A) {x : A} → find p xs ≡ some x → All P xs → (p x ≡ true) × P x
  unfolding find
  All-find p [] e h = cc (e)
  All-find p (y ∷ ys) {x} e (here, h) = elim (Bool-cases (p y)) [
    | inl f ↦ let same : y ≡ x = ground arith in (subst (λ z. p z ≡ true) same f, subst P same here)
    | inr f ↦ All-find p ys {x = x} (ground arith) h
  ]

  pub All-imp {μ} : (Q : A → Type μ) (xs : List A) → ((x : A) → P x → Q x) → All P xs → All Q xs
  All-imp Q [] f h = tt
  All-imp Q (x ∷ xs) f (p, h) = (f x p, All-imp Q xs f h)

  pub any-All :
      (p : A → Bool) (xs : List A) → any p xs ≡ true → All P xs → (x : A) × (p x ≡ true) × P x
  any-All p [] e h = cc (e)
  any-All p (x ∷ xs) e (here, h) = elim (Bool-cases (p x)) [
    | inl f ↦ (x, f, here)
    | inr f ↦ any-All p xs (ground arith) h
  ]
