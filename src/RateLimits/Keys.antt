-- ===== src/RateLimits/Keys.antt =====
-- The counter of one key under the operations on the map.
use slotnova.Base.{
  ℕ, ◌≤◌, ◌<◌, ◌≡◌, refl, sym, ◌⊎◌, inl, inr, false, some, [], ◌∷◌, leb, ◌==◌, if◌then◌else◌,
  Bool-cases, arith,
}
use slotnova.RateLimits.{Counter, Counters, get, set, sweep, count_request}

-- Each counter of the key is over at a time.
abbrev pub IsIdle : ℕ → ℕ → Counters → Type 0
IsIdle key t [] = Unit
IsIdle key t ((k, c) ∷ m) = (((k == key) ≡ false) ⊎ (c.reset_at ≤ t)) × IsIdle key t m

-- The key's counter runs until an end at least, and has counted n requests.
abbrev pub IsLive : ℕ → ℕ → ℕ → Counters → Type 0
IsLive key end n m = (c : Counter) × (get key m ≡ some c) × (end ≤ c.reset_at) × (n ≤ c.count)

pub get-set :
    (j k : ℕ) (c : Counter) (m : Counters)
    → get j (set k c m) ≡ (if k == j then some c else get j m)
unfolding get set
get-set j k c [] = refl
get-set j k c ((i, d) ∷ m) = ground (arith, get-set j k c m)

pub get-sweep :
    (key now : ℕ) (m : Counters) {c : Counter}
    → get key m ≡ some c
    → now < c.reset_at
    → get key (sweep now m) ≡ some c
unfolding get sweep
get-sweep key now [] e h = cc (e)
get-sweep key now ((k, d) ∷ m) {c} e h = elim (Bool-cases (k == key)) [
  | inl f ↦
      let same : d ≡ c = ground arith in
      let live : leb d.reset_at now ≡ false = rw same (ground arith) in rw (live, f, same) refl
  | inr f ↦
      let rest : get key m ≡ some c = ground arith in
      elim (Bool-cases (leb d.reset_at now)) [
        | inl g ↦ rw g (get-sweep key now m rest h)
        | inr g ↦ rw (g, f) (get-sweep key now m rest h)
      ]
]

pub IsIdle-get :
    (key t : ℕ) (m : Counters) {c : Counter} → IsIdle key t m → get key m ≡ some c → c.reset_at ≤ t
unfolding get
IsIdle-get key t [] h e = cc (e)
IsIdle-get key t ((k, d) ∷ m) {c} (p, h) e = elim (Bool-cases (k == key)) [
  | inl f ↦ let same : d ≡ c = ground arith in rw (sym same) (ground arith)
  | inr f ↦ IsIdle-get key t m {c = c} h (ground arith)
]

pub IsIdle-sweep : (key t now : ℕ) (m : Counters) → IsIdle key t m → IsIdle key t (sweep now m)
unfolding sweep
IsIdle-sweep key t now [] h = tt
IsIdle-sweep key t now ((k, d) ∷ m) (p, h) = elim (Bool-cases (leb d.reset_at now)) [
  | inl g ↦ rw g (IsIdle-sweep key t now m h)
  | inr g ↦ rw g (p, IsIdle-sweep key t now m h)
]

pub IsIdle-set :
    (key t k : ℕ) (c : Counter) (m : Counters)
    → (k == key) ≡ false
    → IsIdle key t m
    → IsIdle key t (set k c m)
unfolding set
IsIdle-set key t k c [] ne h = (inl ne, tt)
IsIdle-set key t k c ((j, d) ∷ m) ne (p, h) = elim (Bool-cases (j == k)) [
  | inl f ↦ rw f (inl ne, h)
  | inr f ↦ rw f (p, IsIdle-set key t k c m ne h)
]

pub count_request_passed :
    (key limit now : ℕ) (c : Counter) (m : Counters)
    → (count_request key limit now c m).0 ≡ 0
    → c.count < limit
unfolding count_request
count_request_passed key limit now c m e = ground arith
