-- ===== src/Base/Lists.antt =====
-- Lists: a predicate on every item, Boolean quantifiers, and the length over the native numbers.
use Prim.Native.Nat.{ℕ, suc}
use mathlib.Core.Bool.{Bool, true, false, ◌&&◌, ◌||◌}
use mathlib.Core.Path.{◌≡◌, refl, ap}
use mathlib.Core.List.{List, [], ◌∷◌, ◌++◌}

module _ {ℓ} {A : Type ℓ} where
  abbrev pub length : List A → ℕ
  length [] = 0
  length (x ∷ xs) = suc (length xs)

  abbrev pub any : (A → Bool) → List A → Bool
  any p [] = false
  any p (x ∷ xs) = p x || any p xs

  abbrev pub all : (A → Bool) → List A → Bool
  all p [] = true
  all p (x ∷ xs) = p x && all p xs

  -- `Array.prototype.filter`.
  abbrev pub filter : (A → Bool) → List A → List A
  filter p [] = []
  filter p (x ∷ xs) = let rest = filter p xs in elim (p x) [ true ↦ x ∷ rest | false ↦ rest ]

  pub append-nil : (xs : List A) → xs ++ [] ≡ xs
  append-nil [] = refl
  append-nil (x ∷ xs) = ap (λ ys. x ∷ ys) (append-nil xs)

  pub append_assoc : (xs ys zs : List A) → (xs ++ ys) ++ zs ≡ xs ++ (ys ++ zs)
  append_assoc [] ys zs = refl
  append_assoc (x ∷ xs) ys zs = ap (λ l. x ∷ l) (append_assoc xs ys zs)

  pub filter-append-filter :
      (p : A → Bool) (x : A) (xs : List A) → filter p (x ∷ []) ++ filter p xs ≡ filter p (x ∷ xs)
  filter-append-filter p x xs =
      elim (p x)
        as (λ b.
          elim b [ true ↦ x ∷ [] | false ↦ [] ] ++ filter p xs
          ≡ elim b [ true ↦ x ∷ filter p xs | false ↦ filter p xs ]) [ true ↦ refl | false ↦ refl ]

  pub any-filter : (p q : A → Bool) (xs : List A) → any p (filter q xs) ≡ any (λ x. q x && p x) xs
  any-filter p q [] = refl
  any-filter p q (x ∷ xs) =
      elim (q x)
        as (λ b.
          any p (elim b [ true ↦ x ∷ filter q xs | false ↦ filter q xs ])
          ≡ ((b && p x) || any (λ y. q y && p y) xs)) [
            | true ↦ ap (λ b. p x || b) (any-filter p q xs)
            | false ↦ any-filter p q xs
          ]

module _ {ℓ κ} {A : Type ℓ} (P : A → Type κ) where
  abbrev pub All : List A → Type κ
  All [] = Unit
  All (x ∷ xs) = P x × All xs

  pub All-append : (xs ys : List A) → All xs → All ys → All (xs ++ ys)
  All-append [] ys h k = k
  All-append (x ∷ xs) ys (p, h) k = (p, All-append xs ys h k)

  pub All-filter : (q : A → Bool) (xs : List A) → All xs → All (filter q xs)
  All-filter q [] h = tt
  All-filter q (x ∷ xs) (p, h) =
      elim (q x) as (λ b. All (elim b [ true ↦ x ∷ filter q xs | false ↦ filter q xs ])) [
        | true ↦ (p, All-filter q xs h)
        | false ↦ All-filter q xs h
      ]
